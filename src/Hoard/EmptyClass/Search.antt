-- ===== src/Hoard/EmptyClass/Search.antt =====
-- The search for the emptiest block: `pop_most_empty_block`.
use malloc_kit.Base.{
  ℕ, zero, suc, ◌+◌, ◌≤◌, ◌<◌, ◌≡◌, ◌≢◌, ◌↔◌, inl, inr, refl, sym, ap, ◌∙◌, arith, subst, true,
  false, ltb, ltb→lt, ltb→ge, Bool-cases, ne→==, if◌then◌else◌, Option, none, some, List, [], ◌∷◌,
  length,
}
use malloc_kit.Address.{Address}
use malloc_kit.Chain.{has, Distinct}
use malloc_kit.Hoard.EmptyClass.{
  EmptyClass, Metas, group, group_count, emptiness_classes, put, pop, pop_group, pop_groups,
  pop_most_empty_block,
}
use malloc_kit.Hoard.EmptyClass.Lists.{Lists, with_list, IsClass, put-IsClass}
use malloc_kit.Hoard.EmptyClass.Take.{Popped, pop_lem}
use malloc_kit.Hoard.EmptyClass.Moves.{
  Listed, put-full, pop-full, left, was_listed, gone, same_others, moved, moved_below, moved_here,
  same_all,
}

-- The fuel is more than the number of blocks that are listed.
unfoldable pub Enough : ℕ → Lists → Type 0
Enough fuel lists =
    (us : List Address)
    → Distinct us
    → ((a : Address) → has a us ≡ true → Listed lists a)
    → length us < fuel

-- The group of every block is in range.
unfoldable pub InRange : Metas → Type 0
InRange m = (a : Address) → group (m a) < group_count

-- What a search that starts at group `i` returns: a block that is no longer listed, or none when the groups up to
-- `last` are empty. The groups below `i` are as before, and so is the set of all other blocks. The block was found in a group `k`
-- such that it is at most as full as the group says and the groups before `k` are empty.
unfoldable pub Searched :
    (i last : ℕ) → Metas → Lists → Option Address × EmptyClass × Metas → Type 0
Searched i last m lists (none, groups', m') =
    (lists' : Lists) × IsClass groups' m' lists'
    × ((h : ℕ) → h < i → lists' h ≡ lists h)
    × ((h : ℕ) → i ≤ h → h < last → lists' h ≡ [])
    × ((a : Address) → Listed lists a ↔ Listed lists' a)
    × ((a : Address) → group (m' a) ≡ group (m a))
Searched i last m lists (some b, groups', m') =
    (lists' : Lists) × IsClass groups' m' lists'
    × Listed lists b
    × ((h : ℕ) → h < group_count → has b (lists' h) ≡ false)
    × ((k : ℕ) × (i ≤ k)
        × (k < last)
        × (group (m' b) ≤ k)
        × ((h : ℕ) → h < i → lists' h ≡ lists h)
        × ((h : ℕ) → i ≤ h → h < k → lists' h ≡ []))
    × ((a : Address) → a ≢ b → Listed lists a ↔ Listed lists' a)
    × ((a : Address) → group (m' a) ≡ group (m a))

-- What a search finds when it starts in a state that differs only in the groups from `i` to `j`, which are empty there.
rebase :
    (i j last : ℕ) (m m2 : Metas) (lists lists2 : Lists)
    → i ≤ j
    → ((h : ℕ) → h < i → lists2 h ≡ lists h)
    → ((h : ℕ) → i ≤ h → h < j → lists2 h ≡ [])
    → ((a : Address) → Listed lists a ↔ Listed lists2 a)
    → ((a : Address) → group (m2 a) ≡ group (m a))
    → (r : Option Address × EmptyClass × Metas) → Searched j last m2 lists2 r
    → Searched i last m lists r
unfolding Searched
rebase i j last m m2 lists lists2 up below empty same full (none, groups', m')
      (lists', v, below', empty', same', full') =
    (
      lists',
      v,
      (λ h low. below' h (omega (arith, low, up)) ∙ below h low),
      (λ h high low. elim (Bool-cases (ltb h j)) [
        | inl lower ↦ below' h (ltb→lt h j lower) ∙ empty h high (ltb→lt h j lower)
        | inr higher ↦ empty' h (ltb→ge h j higher) low
      ]),
      (λ a. ((λ l. (same' a).0 ((same a).0 l)), (λ l. (same a).1 ((same' a).1 l)))),
      (λ a. full' a ∙ full a),
    )
rebase i j last m m2 lists lists2 up below empty same full (some b, groups', m')
      (lists', v, was, gone, (k, high, small, filled, below', empty'), same', full') =
    (
      lists',
      v,
      (same b).1 was,
      gone,
      (
        k,
        omega (arith, high, up),
        small,
        filled,
        (λ h low. below' h (omega (arith, low, up)) ∙ below h low),
        (λ h from low. elim (Bool-cases (ltb h j)) [
          | inl lower ↦ below' h (ltb→lt h j lower) ∙ empty h from (ltb→lt h j lower)
          | inr higher ↦ empty' h (ltb→ge h j higher) low
        ]),
      ),
      (λ a ne. ((λ l. (same' a ne).0 ((same a).0 l)), (λ l. (same a).1 ((same' a ne).1 l)))),
      (λ a. full' a ∙ full a),
    )

-- The state after one turn of the inner loop.
abbrev pub round : ℕ → ℕ → Option Address × EmptyClass × Metas → Option Address × EmptyClass × Metas
round fuel i (none, groups, m) = (none, groups, m)
round fuel i (some b, groups, m) =
    if ltb i (group (m b))
    then pop_group fuel (put groups m b).0 (put groups m b).1 i
    else (some b, groups, m)

pub pop_group-eq :
    (fuel : ℕ) (groups : EmptyClass) (m : Metas) (i : ℕ)
    → pop_group (suc fuel) groups m i ≡ round fuel i (pop groups m i)
unfolding pop_group
pop_group-eq fuel groups m i = by_found (pop groups m i)
  where
    by_found :
        (r : Option Address × EmptyClass × Metas)
        → elim r.0 [
          | none ↦ (none, r.1, r.2)
          | some block ↦
              if ltb i (group (r.2 block))
              then pop_group fuel (put r.1 r.2 block).0 (put r.1 r.2 block).1 i
              else (some block, r.1, r.2)
        ]
          ≡ round fuel i r
    by_found (none, groups, m) = refl
    by_found (some b, groups, m) = refl

-- One turn of the inner loop, when the turns after it search as they should.
module _ (fuel i : ℕ) (small : i < group_count)
    (again : (groups : EmptyClass) (m : Metas) (lists : Lists)
      → IsClass groups m lists
      → InRange m
      → length (lists i) < fuel
      → Searched i (suc i) m lists (pop_group fuel groups m i))
    (groups : EmptyClass) (m : Metas) (lists : Lists) (v : IsClass groups m lists)
    (range : InRange m) (enough : length (lists i) < suc fuel) where
  -- Block `b` goes on to a later group.
  module _ (groups' : EmptyClass) (m' : Metas) (b : Address) (rest : List Address)
      (list : lists i ≡ b ∷ rest) (v' : IsClass groups' m' (with_list lists i rest))
      (full : (a : Address) → group (m' a) ≡ group (m a)) (up : i < group (m' b)) where
    low : group (m' b) < group_count
    unfolding InRange
    low = subst (λ (n : ℕ). n < group_count) (sym (full b)) (range b)

    abbrev lists2 : Lists
    lists2 = moved groups m lists v i small b rest list (group (m' b)) up low

    full2 : (a : Address) → group ((put groups' m' b).1 a) ≡ group (m a)
    full2 a = put-full groups' m' b a ∙ full a

    range2 : InRange (put groups' m' b).1
    unfolding InRange
    range2 a = subst (λ (n : ℕ). n < group_count) (sym (full2 a)) (range a)

    shorter : length (lists2 i) < fuel
    shorter = omega (
      arith,
      enough,
      ap (λ (us : List Address). length us) list,
      ap (λ (us : List Address). length us)
          (moved_here groups m lists v i small b rest list (group (m' b)) up low),
    )

    further :
        Searched i (suc i) m lists (pop_group fuel (put groups' m' b).0 (put groups' m' b).1 i)
    further =
        rebase i i (suc i) m (put groups' m' b).1 lists lists2 (omega arith)
          (moved_below groups m lists v i small b rest list (group (m' b)) up low)
          (λ h high lower. absurd (omega (arith, high, lower)))
          (same_all groups m lists v i small b rest list (group (m' b)) up low) full2
          (pop_group fuel (put groups' m' b).0 (put groups' m' b).1 i)
          (again (put groups' m' b).0 (put groups' m' b).1 lists2
            (put-IsClass groups' m' (with_list lists i rest) b v' low
              (gone groups m lists v i small b rest list))
            range2 shorter)

  turn :
      (r : Option Address × EmptyClass × Metas)
      → Popped groups m lists i r
      → ((a : Address) → group (r.2 a) ≡ group (m a))
      → Searched i (suc i) m lists (round fuel i r)
  unfolding Popped Searched Listed
  turn (none, groups', m') (same_groups, same_m, empty) full = (
    lists,
    rw (same_groups, same_m) v,
    (λ h low. refl),
    (λ h high low. ap lists (omega (arith, high, low)) ∙ empty),
    (λ a. ((λ l. l), (λ l. l))),
    full,
  )
  turn (some b, groups', m') (rest, list, v') full = elim (Bool-cases (ltb i (group (m' b)))) [
    | inl up ↦ rw up (further groups' m' b rest list v' full (ltb→lt i (group (m' b)) up))
    | inr here ↦ rw here (
      left groups m lists v i small b rest list,
      v',
      (i, small, was_listed groups m lists v i small b rest list),
      gone groups m lists v i small b rest list,
      (
        i,
        omega arith,
        omega arith,
        ltb→ge i (group (m' b)) here,
        (λ h low. rw (ne→== h i (λ e. omega (arith, e, low))) refl),
        (λ h high low. absurd (omega (arith, high, low))),
      ),
      same_others groups m lists v i small b rest list,
      full,
    )
  ]

-- With fuel for the blocks of group `i`, its search returns a block or leaves the group empty.
pop_group_lem :
    (fuel i : ℕ)
    → i < group_count
    → (groups : EmptyClass) (m : Metas) (lists : Lists) → IsClass groups m lists
    → InRange m
    → length (lists i) < fuel
    → Searched i (suc i) m lists (pop_group fuel groups m i)
pop_group_lem zero i small groups m lists v range enough = absurd (omega (arith, enough))
pop_group_lem (suc fuel) i small groups m lists v range enough =
    subst (Searched i (suc i) m lists) (sym (pop_group-eq fuel groups m i)) (
      turn fuel i small (pop_group_lem fuel i small) groups m lists v range enough (pop groups m i)
        (pop_lem groups m lists v i small) (pop-full groups m i))

-- One step of the outer loop.
abbrev pub after :
    ℕ → (i more : ℕ) → Option Address × EmptyClass × Metas → Option Address × EmptyClass × Metas
after fuel i more (none, groups, m) = pop_groups fuel groups m (suc i) more
after fuel i more (some b, groups, m) = (some b, groups, m)

pub pop_groups-eq :
    (fuel : ℕ) (groups : EmptyClass) (m : Metas) (i more : ℕ)
    → pop_groups fuel groups m i (suc more) ≡ after fuel i more (pop_group fuel groups m i)
unfolding pop_groups
pop_groups-eq fuel groups m i more = by_found (pop_group fuel groups m i)
  where
    by_found :
        (r : Option Address × EmptyClass × Metas)
        → elim r.0 [
          | none ↦ pop_groups fuel r.1 r.2 (suc i) more
          | some block ↦ (some block, r.1, r.2)
        ]
          ≡ after fuel i more r
    by_found (none, groups, m) = refl
    by_found (some b, groups, m) = refl

-- The outer loop from group `i` on.
pop_groups_lem :
    (fuel i more : ℕ) (groups : EmptyClass) (m : Metas) (lists : Lists)
    → IsClass groups m lists
    → InRange m
    → Enough fuel lists
    → i + more < group_count
    → Searched i (i + more) m lists (pop_groups fuel groups m i more)
unfolding Searched pop_groups InRange Enough Listed
pop_groups_lem fuel i zero groups m lists v range enough small = (
  lists,
  v,
  (λ h low. refl),
  (λ h high low. absurd (omega (arith, high, low))),
  (λ a. ((λ l. l), (λ l. l))),
  (λ a. refl),
)
pop_groups_lem fuel i (suc more) groups m lists v range enough small =
    subst (Searched i (i + suc more) m lists) (sym (pop_groups-eq fuel groups m i more)) (
      onwards (pop_group fuel groups m i)
        (pop_group_lem fuel i (omega (arith, small)) groups m lists v range (
          enough (lists i) (v.distinct i (omega (arith, small)))
            (λ a inside. (i, omega (arith, small), inside))))
        (pop_groups_lem fuel (suc i) more))
  where
    onwards :
        (r : Option Address × EmptyClass × Metas)
        → Searched i (suc i) m lists r
        → ((groups : EmptyClass) (m : Metas) (lists : Lists)
            → IsClass groups m lists
            → InRange m
            → Enough fuel lists
            → suc i + more < group_count
            → Searched (suc i) (suc i + more) m lists (pop_groups fuel groups m (suc i) more))
        → Searched i (i + suc more) m lists (after fuel i more r)
    onwards (some b, groups', m')
          (lists', v', was, out, (k, from, less, filled, below, empty), same, full) later =
        (lists', v', was, out, (k, from, omega (arith, less), filled, below, empty), same, full)
    onwards (none, groups', m') (lists', v', below, empty, same, full) later =
        subst (λ (n : ℕ). Searched i n m lists (pop_groups fuel groups' m' (suc i) more))
          (omega arith)
          (rebase i (suc i) (suc i + more) m m' lists lists' (omega arith) below empty same full
            (pop_groups fuel groups' m' (suc i) more)
            (later groups' m' lists' v'
              (λ a. subst (λ (n : ℕ). n < group_count) (sym (full a)) (range a))
              (λ us distinct listed. enough us distinct (λ a inside. (same a).1 (listed a inside)))
              (omega (arith, small))))

-- With more fuel than listed blocks, and with every block's group in range, the search for the emptiest block keeps the lists.
-- It returns a listed block, which is then in no group while all the others are still listed: it was in a group that is at least as full
-- as the block, and all emptier groups are empty then. Or it returns none, and then all groups but that of the full blocks are empty and
-- every block that was listed still is.
pub pop_most_empty_block_lem :
    (fuel : ℕ) (groups : EmptyClass) (m : Metas) (lists : Lists)
    → IsClass groups m lists
    → InRange m
    → Enough fuel lists
    → Searched 0 (emptiness_classes + 1) m lists (pop_most_empty_block fuel groups m)
unfolding pop_most_empty_block
pop_most_empty_block_lem fuel groups m lists v range enough =
    pop_groups_lem fuel 0 (emptiness_classes + 1) groups m lists v range enough (omega arith)
