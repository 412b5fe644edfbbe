-- ===== src/Hoard/BlockList/Put.antt =====
-- `put` of a block.
use malloc_kit.Base.{
  wrapping_add, ℕ, ◌^◌, ◌<◌, ◌≡◌, ◌⊎◌, ◌↔◌, inl, inr, refl, sym, ap, ◌∙◌, arith, subst, true, false,
  ◌==◌, Bool-cases, ==→eq, Option, none, some, List, ◌∷◌,
}
use malloc_kit.Address.{Address}
use malloc_kit.Chain.{has}
use malloc_kit.Linked.Laws.{some-inj}
use malloc_kit.Hoard.EmptyClass.{EmptyClass, Metas, is_block, group, group_count}
use malloc_kit.Hoard.EmptyClass.Lists.{Lists, with_list, IsClass, put-IsClass}
use malloc_kit.Hoard.EmptyClass.Links.{is_block-cases}
use malloc_kit.Hoard.EmptyClass.Moves.{Listed, put-full, added-Listed}
use malloc_kit.Hoard.EmptyClass.Used.{put-used}
use malloc_kit.Hoard.BlockList.{BlockList, put, put_cache, inc_used_bytes, inc_total_bytes}
use malloc_kit.Hoard.BlockList.Invariant.{
  sum, sum-same, more_counted, used, room, Member, IsBlockList,
}

-- The lists after the old cache was put.
abbrev pub with_cache : Lists → Metas → Option Address → Lists
with_cache lists m none = lists
with_cache lists m (some c) = with_list lists (group (m c)) (c ∷ lists (group (m c)))

module _ (l : BlockList) (m : Metas) (lists : Lists) (blocks : List Address)
    (v : IsBlockList l m lists blocks) (b : Address) (out : has b blocks ≡ false) where
  abbrev kept : EmptyClass × Metas
  kept = put_cache l.groups m l.cache

  kept-IsClass :
      (o : Option Address)
      → l.cache ≡ o
      → IsClass (put_cache l.groups m o).0 (put_cache l.groups m o).1 (with_cache lists m o)
  unfolding put_cache
  kept-IsClass none e = v.class
  kept-IsClass (some c) e =
      put-IsClass l.groups m lists c v.class (v.in_range c) (λ h low. v.cache_out c h e low)

  kept-used : (o : Option Address) (a : Address) → used (put_cache l.groups m o).1 a ≡ used m a
  unfolding put_cache
  kept-used none a = refl
  kept-used (some c) a = put-used l.groups m c a

  kept-full :
      (o : Option Address) (a : Address) → group ((put_cache l.groups m o).1 a) ≡ group (m a)
  unfolding put_cache
  kept-full none a = refl
  kept-full (some c) a = put-full l.groups m c a

  -- The old cache is listed now.
  kept_members :
      (o : Option Address)
      → l.cache ≡ o
      → (a : Address) → Member l lists a ↔ Listed (with_cache lists m o) a
  unfolding Member Listed
  kept_members none e a =
      ((λ x. elim x [ inl c ↦ cc | inr listed ↦ listed ]), (λ listed. inr listed))
  kept_members (some c) e a =
      added_cache c e a (added-Listed lists (group (m c)) c (v.in_range c) a)
    where
      added_cache :
          (c : Address)
          → l.cache ≡ some c
          → (a : Address) → ((a ≡ c) ⊎ Listed lists a) ↔ Listed (with_cache lists m (some c)) a
          → ((l.cache ≡ some a) ⊎ Listed lists a) ↔ Listed (with_cache lists m (some c)) a
      added_cache c e a (forth, back) = (
        (λ x. elim x [
          | inl cached ↦ forth (inl (some-inj a c (sym cached ∙ e)))
          | inr listed ↦ forth (inr listed)
        ]),
        (λ listed. elim (back listed) [
          | inl same ↦ inl (e ∙ ap some (sym same))
          | inr before ↦ inr before
        ]),
      )

  abbrev lists' : Lists
  lists' = with_cache lists m l.cache

  not_cache : is_block l.cache b ≡ false
  unfolding Member
  not_cache = elim (is_block-cases l.cache b) [
    | inl same ↦ cc ((v.members b).1 (inl same.0), out)
    | inr other ↦ other.1
  ]

  put_members : (a : Address) → (has a (b ∷ blocks) ≡ true) ↔ ((some b ≡ some a) ⊎ Listed lists' a)
  put_members a = (
    (λ inside. elim (Bool-cases (a == b)) [
      | inl same ↦ inl (ap some (sym (==→eq a b same)))
      | inr other ↦ inr ((kept_members l.cache refl a).0 ((v.members a).0 (old other inside)))
    ]),
    (λ x. elim x [
      | inl first ↦ first_in (some-inj b a first)
      | inr listed ↦ later_in ((v.members a).1 ((kept_members l.cache refl a).1 listed))
    ]),
  )
    where
      old : (a == b) ≡ false → has a (b ∷ blocks) ≡ true → has a blocks ≡ true
      old other inside = ground (arith, other, inside)

      first_in : b ≡ a → has a (b ∷ blocks) ≡ true
      first_in e = ground (arith, e)

      later_in : has a blocks ≡ true → has a (b ∷ blocks) ≡ true
      later_in e = ground (arith, e)

  put_out : (c h : ℕ) → some b ≡ some c → h < group_count → has c (lists' h) ≡ false
  unfolding Listed
  put_out c h e low = elim (Bool-cases (has c (lists' h))) [
    | inl inside ↦ cc (
      (v.members c).1 ((kept_members l.cache refl c).1 (h, low, inside)),
      ap (λ (x : Address). has x blocks) (sym (some-inj b c e)) ∙ out,
    )
    | inr absent ↦ absent
  ]

  -- A block that is new to the list and is put, while the counts fit a word, becomes the cache, the old cache is listed in its group, and the counts are those of one block more.
  pub put-IsBlockList :
      sum room (b ∷ blocks) < 2 ^ 64
      → sum (used m) (b ∷ blocks) < 2 ^ 64
      → let (l', m') = put l m b in IsBlockList l' m' lists' (b ∷ blocks)
  unfolding put inc_used_bytes inc_total_bytes Member
  put-IsBlockList total_fits used_fits =
      let same : (a : Address) → used kept.1 a ≡ used m a = kept-used l.cache in
      rw not_cache (record {
        class = kept-IsClass l.cache refl;
        in_range =
            λ a. subst (λ (n : ℕ). n < group_count) (sym (kept-full l.cache a)) (v.in_range a);
        distinct = (out, v.distinct);
        members = put_members;
        cache_out = put_out;
        total = more_counted l.total_bytes (room b) (sum room blocks) v.total total_fits;
        total_fits = total_fits;
        in_use =
            ap (wrapping_add l.used_bytes) (same b)
            ∙ more_counted l.used_bytes (used m b) (sum (used m) blocks) v.in_use used_fits
            ∙ sym (sum-same (used kept.1) (used m) (b ∷ blocks) same);
        in_use_fits =
            subst (λ (n : ℕ). n < 2 ^ 64) (sym (sum-same (used kept.1) (used m) (b ∷ blocks) same))
              used_fits;
      })
