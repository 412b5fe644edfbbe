-- ===== src/Hoard/BlockList/Pop.antt =====
-- `pop_most_empty_block` of the blocks of a size class.
use malloc_kit.Base.{
  ℕ, ◌^◌, ◌≤◌, ◌<◌, ◌≡◌, ◌≢◌, inl, inr, refl, sym, ap, ◌∙◌, arith, subst, true, not, ◌&&◌, ◌==◌,
  Option, none, some, List, [], ◌∷◌, length, wrapping_sub,
}
use malloc_kit.Address.{Address}
use malloc_kit.Chain.{has, Distinct}
use malloc_kit.Linked.{erase}
use malloc_kit.Linked.Laws.{has-erase, has-apart, Distinct-erase, length-erase}
use malloc_kit.Hoard.EmptyClass
use malloc_kit.Hoard.EmptyClass.{EmptyClass, Metas, group, group_count, data_bytes}
use malloc_kit.Hoard.EmptyClass.Lists.{Lists}
use malloc_kit.Hoard.EmptyClass.Moves.{Listed}
use malloc_kit.Hoard.EmptyClass.Search.{Enough, Searched, InRange, pop_most_empty_block_lem}
use malloc_kit.Hoard.EmptyClass.Used.{pop_most_empty_block-used}
use malloc_kit.Hoard.BlockList.{BlockList, pop_most_empty_block, dec_used_bytes, dec_total_bytes}
use malloc_kit.Hoard.BlockList.Invariant.{sum-same, used, Member, IsBlockList}
use malloc_kit.Hoard.BlockList.Remove.{
  has-left, cached_members, total_left, in_use_left, room-left, used_left,
}

-- A list without repetitions is no longer than one that has all its elements.
length_mono :
    (us vs : List Address)
    → Distinct us
    → Distinct vs
    → ((a : Address) → has a us ≡ true → has a vs ≡ true)
    → length us ≤ length vs
length_mono [] vs distinct distinct' inside = omega arith
length_mono (u ∷ us) vs (out, distinct) distinct' inside = omega (
  arith,
  length-erase u vs (inside u (ground arith)),
  length_mono us (erase u vs) distinct (Distinct-erase u vs distinct') smaller,
)
  where
    smaller : (a : Address) → has a us ≡ true → has a (erase u vs) ≡ true
    smaller a there =
        with_erase a (has-erase a u vs distinct') (inside a (ground (arith, there)))
          (has-apart a u us there out)
      where
        with_erase :
            (a : Address)
            → has a (erase u vs) ≡ (has a vs && not (a == u))
            → has a vs ≡ true
            → a ≢ u
            → has a (erase u vs) ≡ true
        with_erase a e h ne = ground (arith, e, h, ne)

-- What the search returns: a block that no longer belongs to the list, or none when all groups but the last are empty.
unfoldable pub Found : BlockList → List Address → Option Address × BlockList × Metas → Type 0
Found l blocks (none, l', m') =
    (l.cache ≡ none)
    × ((lists' : Lists) × IsBlockList l' m' lists' blocks × ((h : ℕ) → h < 9 → lists' h ≡ []))
Found l blocks (some b, l', m') =
    (has b blocks ≡ true) × ((lists' : Lists) × IsBlockList l' m' lists' (erase b blocks))

-- The result by the cache, and by what the search of the groups found.
abbrev by_groups :
    BlockList → Option Address × EmptyClass × Metas → Option Address × BlockList × Metas
by_groups l (none, groups, m) = (none, record l { groups = groups }, m)
by_groups l (some b, groups, m) = (
  some b,
  dec_used_bytes (dec_total_bytes (record l { groups = groups }) data_bytes) (m b).used_bytes,
  m,
)

abbrev by_cache : ℕ → BlockList → Metas → Option Address → Option Address × BlockList × Metas
by_cache fuel l m none = by_groups l (EmptyClass.pop_most_empty_block fuel l.groups m)
by_cache fuel l m (some c) = (
  some c,
  dec_used_bytes (dec_total_bytes (record l { cache = none }) data_bytes) (m c).used_bytes,
  m,
)

pop_most_empty_block-eq :
    (fuel : ℕ) (l : BlockList) (m : Metas)
    → pop_most_empty_block fuel l m ≡ by_cache fuel l m l.cache
unfolding pop_most_empty_block
pop_most_empty_block-eq fuel l m = cases l.cache
  where
    groups_cases :
        (r : Option Address × EmptyClass × Metas)
        → elim r.0 [
          | none ↦ (none, record l { groups = r.1 }, r.2)
          | some block ↦ (
            some block,
            dec_used_bytes
                (dec_total_bytes (record l { groups = r.1 }) data_bytes)
                (r.2 block).used_bytes,
            r.2,
          )
        ]
          ≡ by_groups l r
    groups_cases (none, groups, m') = refl
    groups_cases (some b, groups, m') = refl

    cases :
        (o : Option Address)
        → let (found, groups, m') = EmptyClass.pop_most_empty_block fuel l.groups m in
          elim o [
            | some block ↦ (
              some block,
              dec_used_bytes
                  (dec_total_bytes (record l { cache = none }) data_bytes)
                  (m block).used_bytes,
              m,
            )
            | none ↦ elim found [
              | none ↦ (none, record l { groups = groups }, m')
              | some block ↦ (
                some block,
                dec_used_bytes
                    (dec_total_bytes (record l { groups = groups }) data_bytes)
                    (m' block).used_bytes,
                m',
              )
            ]
          ]
          ≡ by_cache fuel l m o
    cases none = groups_cases (EmptyClass.pop_most_empty_block fuel l.groups m)
    cases (some c) = refl

module _ (l : BlockList) (m : Metas) (lists : Lists) (blocks : List Address)
    (v : IsBlockList l m lists blocks) where
  enough : (fuel : ℕ) → length blocks < fuel → Enough fuel lists
  unfolding Enough Member
  enough fuel less us distinct listed = omega (
    arith,
    less,
    length_mono us blocks distinct v.distinct (λ a inside. (v.members a).1 (inr (listed a inside))),
  )

  ranged : InRange m
  unfolding InRange
  ranged = v.in_range

  -- The groups were searched.
  module _ (empty_cache : l.cache ≡ none) where
    Found-none :
        (groups' : EmptyClass) (m' : Metas)
        → Searched 0 9 m lists (none, groups', m')
        → ((a : Address) → used m' a ≡ used m a)
        → Found l blocks (by_groups l (none, groups', m'))
    unfolding Found Searched Member
    Found-none groups' m' (lists', class, below, empty, same, full) kept = (
      empty_cache,
      (
        lists',
        record {
          class = class;
          in_range = λ a. subst (λ (n : ℕ). n < group_count) (sym (full a)) (v.in_range a);
          distinct = v.distinct;
          members = λ a. (
            (λ inside. elim ((v.members a).0 inside) [
              | inl first ↦ inl first
              | inr listed ↦ inr ((same a).0 listed)
            ]),
            (λ x. elim x [
              | inl first ↦ (v.members a).1 (inl first)
              | inr listed ↦ (v.members a).1 (inr ((same a).1 listed))
            ]),
          );
          cache_out = λ c h e low. cc;
          total = v.total;
          total_fits = v.total_fits;
          in_use = v.in_use ∙ sym (sum-same (used m') (used m) blocks kept);
          in_use_fits =
              subst (λ (n : ℕ). n < 2 ^ 64) (sym (sum-same (used m') (used m) blocks kept))
                v.in_use_fits;
        },
        (λ h low. empty h (omega arith) low),
      ),
    )

    Found-some :
        (b : Address) (groups' : EmptyClass) (m' : Metas)
        → Searched 0 9 m lists (some b, groups', m')
        → ((a : Address) → used m' a ≡ used m a)
        → Found l blocks (by_groups l (some b, groups', m'))
    unfolding Found Searched Member Listed dec_used_bytes dec_total_bytes
    Found-some b groups' m' (lists', class, was, gone, place, same, full) kept =
        let there : has b blocks ≡ true = (v.members b).1 (inr was) in
        let fewer = has-left l m lists blocks v b there in
        let kept_sum = sum-same (used m') (used m) (erase b blocks) kept in
        (
          there,
          (
            lists',
            record {
              class = class;
              in_range = λ a. subst (λ (n : ℕ). n < group_count) (sym (full a)) (v.in_range a);
              distinct = Distinct-erase b blocks v.distinct;
              members = λ a. (
                (λ inside. elim ((v.members a).0 ((fewer a).0 inside).0) [
                  | inl first ↦ inl first
                  | inr listed ↦ inr ((same a ((fewer a).0 inside).1).0 listed)
                ]),
                (λ x. elim x [
                  | inl first ↦ cc
                  | inr listed ↦
                      let ne : a ≢ b = λ e. cc (
                        gone listed.0 listed.1,
                        ap (λ (y : Address). has y (lists' listed.0)) (sym e) ∙ listed.2,
                      ) in
                      (fewer a).1 ((v.members a).1 (inr ((same a ne).1 listed)), ne)
                ]),
              );
              cache_out = λ c h e low. cc;
              total = total_left l m lists blocks v b there;
              total_fits = omega (arith, room-left l m lists blocks v b there, v.total_fits);
              in_use =
                  ap (wrapping_sub l.used_bytes) (kept b)
                  ∙ in_use_left l m lists blocks v b there
                  ∙ sym kept_sum;
              in_use_fits =
                  subst (λ (n : ℕ). n < 2 ^ 64) (sym kept_sum)
                    (omega (arith, used_left l m lists blocks v b there, v.in_use_fits));
            },
          ),
        )

  Found-cache :
      (c : Address) → l.cache ≡ some c → (fuel : ℕ) → Found l blocks (by_cache fuel l m (some c))
  unfolding Found Member dec_used_bytes dec_total_bytes
  Found-cache c e fuel =
      let there : has c blocks ≡ true = (v.members c).1 (inl e) in
      (
        there,
        (
          lists,
          record {
            class = v.class;
            in_range = v.in_range;
            distinct = Distinct-erase c blocks v.distinct;
            members = cached_members l m lists blocks v c there e;
            cache_out = λ a h first low. cc;
            total = total_left l m lists blocks v c there;
            total_fits = omega (arith, room-left l m lists blocks v c there, v.total_fits);
            in_use = in_use_left l m lists blocks v c there;
            in_use_fits = omega (arith, used_left l m lists blocks v c there, v.in_use_fits);
          },
        ),
      )

  -- With more fuel than blocks, the search returns a block that leaves the list and its counts, and it keeps the rest; it returns
  -- none only when there is no cache and all groups but that of the full blocks are empty, and then every block stays.
  pub pop_most_empty_block-Found :
      (fuel : ℕ) → length blocks < fuel → Found l blocks (pop_most_empty_block fuel l m)
  pop_most_empty_block-Found fuel less =
      subst (Found l blocks) (sym (pop_most_empty_block-eq fuel l m)) (from_cache l.cache refl)
    where
      from_groups :
          l.cache ≡ none
          → (r : Option Address × EmptyClass × Metas) → Searched 0 9 m lists r
          → ((a : Address) → used r.2 a ≡ used m a)
          → Found l blocks (by_groups l r)
      from_groups e (none, groups', m') searched kept = Found-none e groups' m' searched kept
      from_groups e (some b, groups', m') searched kept = Found-some e b groups' m' searched kept

      from_cache : (o : Option Address) → l.cache ≡ o → Found l blocks (by_cache fuel l m o)
      from_cache none e =
          from_groups e (EmptyClass.pop_most_empty_block fuel l.groups m)
            (pop_most_empty_block_lem fuel l.groups m lists v.class ranged (enough fuel less))
            (pop_most_empty_block-used fuel l.groups m)
      from_cache (some c) e = Found-cache c e fuel
