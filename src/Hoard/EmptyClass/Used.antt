-- ===== src/Hoard/EmptyClass/Used.antt =====
-- No operation on the groups changes how much of a block is in use.
use malloc_kit.Base.{
  ℕ, zero, suc, ◌≡◌, inl, inr, refl, sym, ap, ◌∙◌, ◌==◌, Bool-cases, ltb, ==→eq, Option, none, some,
  get_or, set,
}
use malloc_kit.Address.{Address}
use malloc_kit.Hoard.EmptyClass.{
  EmptyClass, Metas, group, set_prev, set_next, push_front, put, remove, unlink, pop, pop_group,
  pop_groups, pop_most_empty_block,
}
use malloc_kit.Hoard.EmptyClass.Search.{round, pop_group-eq, after, pop_groups-eq}

-- The operations on the lists change no count of a block.
set_prev-used :
    (m : Metas) (p q : Option Address) (a : Address)
    → (set_prev m p q a).used_bytes ≡ (m a).used_bytes
unfolding set_prev
set_prev-used m none q a = refl
set_prev-used m (some p) q a = elim (Bool-cases (a == p)) [
  | inl same ↦ rw same (ap (λ (x : Address). (m x).used_bytes) (sym (==→eq a p same)))
  | inr other ↦ rw other refl
]

set_next-used :
    (m : Metas) (p q : Option Address) (a : Address)
    → (set_next m p q a).used_bytes ≡ (m a).used_bytes
unfolding set_next
set_next-used m none q a = refl
set_next-used m (some p) q a = elim (Bool-cases (a == p)) [
  | inl same ↦ rw same (ap (λ (x : Address). (m x).used_bytes) (sym (==→eq a p same)))
  | inr other ↦ rw other refl
]

pub put-used :
    (groups : EmptyClass) (m : Metas) (b a : Address)
    → ((put groups m b).1 a).used_bytes ≡ (m a).used_bytes
unfolding put push_front
put-used groups m b a = set_prev-used _ _ _ a ∙ elim (Bool-cases (a == b)) [
  | inl same ↦ rw same (ap (λ (x : Address). (m x).used_bytes) (sym (==→eq a b same)))
  | inr other ↦ rw other refl
]

pub remove-used :
    (groups : EmptyClass) (m : Metas) (b a : Address)
    → ((remove groups m b).1 a).used_bytes ≡ (m a).used_bytes
unfolding remove unlink
remove-used groups m b a = set_prev-used _ _ _ a ∙ set_next-used m (m b).prev (m b).next a

pop-used :
    (groups : EmptyClass) (m : Metas) (g : ℕ) (a : Address)
    → ((pop groups m g).2 a).used_bytes ≡ (m a).used_bytes
unfolding pop
pop-used groups m g a = by_head (get_or groups g none)
  where
    by_head :
        (o : Option Address)
        → ((elim o as (λ _. Option Address × EmptyClass × Metas) [
          | none ↦ (none, groups, m)
          | some block ↦ (some block, set groups g (m block).next, set_prev m (m block).next none)
        ]).2
            a).used_bytes
          ≡ (m a).used_bytes
    by_head none = refl
    by_head (some b) = set_prev-used m (m b).next none a

pop_group-used :
    (fuel : ℕ) (groups : EmptyClass) (m : Metas) (i : ℕ) (a : Address)
    → ((pop_group fuel groups m i).2 a).used_bytes ≡ (m a).used_bytes
unfolding pop_group
pop_group-used zero groups m i a = refl
pop_group-used (suc fuel) groups m i a =
    ap (λ (r : Option Address × EmptyClass × Metas). (r.2 a).used_bytes)
      (pop_group-eq fuel groups m i)
    ∙ turn (pop groups m i) (pop_group-used fuel)
    ∙ pop-used groups m i a
  where
    turn :
        (r : Option Address × EmptyClass × Metas)
        → ((groups : EmptyClass) (m : Metas) (i : ℕ) (a : Address)
            → ((pop_group fuel groups m i).2 a).used_bytes ≡ (m a).used_bytes)
        → ((round fuel i r).2 a).used_bytes ≡ (r.2 a).used_bytes
    turn (none, groups', m') again = refl
    turn (some b, groups', m') again = elim (Bool-cases (ltb i (group (m' b)))) [
      | inl up ↦
          rw up (again (put groups' m' b).0 (put groups' m' b).1 i a ∙ put-used groups' m' b a)
      | inr here ↦ rw here refl
    ]

pop_groups-used :
    (fuel : ℕ) (groups : EmptyClass) (m : Metas) (i more : ℕ) (a : Address)
    → ((pop_groups fuel groups m i more).2 a).used_bytes ≡ (m a).used_bytes
unfolding pop_groups
pop_groups-used fuel groups m i zero a = refl
pop_groups-used fuel groups m i (suc more) a =
    ap (λ (r : Option Address × EmptyClass × Metas). (r.2 a).used_bytes)
      (pop_groups-eq fuel groups m i more)
    ∙ onwards (pop_group fuel groups m i)
        (λ groups' m'. pop_groups-used fuel groups' m' (suc i) more a)
    ∙ pop_group-used fuel groups m i a
  where
    onwards :
        (r : Option Address × EmptyClass × Metas)
        → ((groups : EmptyClass) (m : Metas)
            → ((pop_groups fuel groups m (suc i) more).2 a).used_bytes ≡ (m a).used_bytes)
        → ((after fuel i more r).2 a).used_bytes ≡ (r.2 a).used_bytes
    onwards (none, groups', m') later = later groups' m'
    onwards (some b, groups', m') later = refl

pub pop_most_empty_block-used :
    (fuel : ℕ) (groups : EmptyClass) (m : Metas) (a : Address)
    → ((pop_most_empty_block fuel groups m).2 a).used_bytes ≡ (m a).used_bytes
unfolding pop_most_empty_block
pop_most_empty_block-used fuel groups m a = pop_groups-used fuel groups m 0 _ a
