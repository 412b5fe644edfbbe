-- ===== src/Hoard/BlockList/Invariant.antt =====
-- The invariant of the blocks of a size class: the cache and the listed blocks, with the counts of their bytes.
use native.Mathlib.Nat.{mod-eq_of_lt}
use malloc_kit.Base.{
  wrapping_add, wrapping_sub, ℕ, ◌+◌, ◌^◌, ◌<◌, ◌≡◌, ◌⊎◌, ◌↔◌, inl, inr, refl, sym, ap, ◌∙◌, arith,
  true, false, ◌==◌, Bool-cases, ==→eq, some, List, [], ◌∷◌,
}
use malloc_kit.Address.{Address}
use malloc_kit.Chain.{has, Distinct}
use malloc_kit.Linked.{erase}
use malloc_kit.Hoard.EmptyClass.{Metas, group, group_count, data_bytes}
use malloc_kit.Hoard.EmptyClass.Lists.{Lists, IsClass, new-IsClass}
use malloc_kit.Hoard.EmptyClass.Moves.{Listed}
use malloc_kit.Hoard.BlockList.{BlockList, new}

abbrev pub sum : (Address → ℕ) → List Address → ℕ
sum f [] = 0
sum f (a ∷ us) = f a + sum f us

pub sum-same :
    (f g : Address → ℕ) (us : List Address) → ((a : Address) → f a ≡ g a) → sum f us ≡ sum g us
sum-same f g [] same = refl
sum-same f g (u ∷ us) same = omega (arith, same u, sum-same f g us same)

pub sum-erase :
    (f : Address → ℕ) (b : Address) (us : List Address)
    → has b us ≡ true
    → sum f us ≡ f b + sum f (erase b us)
sum-erase f b [] there = cc
sum-erase f b (u ∷ us) there = elim (Bool-cases (b == u)) [
  | inl same ↦ rw same (ap (λ (x : Address). f x + sum f us) (sym (==→eq b u same)))
  | inr other ↦ rw other (omega (arith, sum-erase f b us (ground (arith, there, other))))
]

-- The bytes that a block has in use, and those that it has for cells.
abbrev pub used : Metas → Address → ℕ
used m a = (m a).used_bytes

abbrev pub room : Address → ℕ
room a = data_bytes

-- A block is the cache or is listed in a group.
unfoldable pub Member : BlockList → Lists → Address → Type 0
Member l lists a = (l.cache ≡ some a) ⊎ Listed lists a

-- The blocks are the cache and the listed ones, each of them once, and the counts are the sums over the blocks.
pub record IsBlockList (l : BlockList) (m : Metas) (lists : Lists) (blocks : List Address)
    : Type 0 where
  pub class : IsClass l.groups m lists
  pub in_range : (a : Address) → group (m a) < group_count
  pub distinct : Distinct blocks
  pub members : (a : Address) → (has a blocks ≡ true) ↔ Member l lists a
  pub cache_out : (c h : ℕ) → l.cache ≡ some c → h < group_count → has c (lists h) ≡ false
  pub total : l.total_bytes ≡ sum room blocks
  pub total_fits : sum room blocks < 2 ^ 64
  pub in_use : l.used_bytes ≡ sum (used m) blocks
  pub in_use_fits : sum (used m) blocks < 2 ^ 64

pub more_counted : (n d s : ℕ) → n ≡ s → d + s < 2 ^ 64 → wrapping_add n d ≡ d + s
more_counted n d s e fits = mod-eq_of_lt (omega (arith, e, fits)) ∙ omega (arith, e)

pub less_counted : (n d s : ℕ) → n ≡ d + s → d + s < 2 ^ 64 → wrapping_sub n d ≡ s
less_counted n d s e fits = omega (arith, e, fits)

-- A new list has no blocks.
pub new-IsBlockList :
    (m : Metas) → ((a : Address) → group (m a) < group_count) → IsBlockList new m (λ (g : ℕ). []) []
unfolding new Member Listed
new-IsBlockList m in_range = record {
  class = new-IsClass m;
  in_range = in_range;
  distinct = tt;
  members = λ a. ((λ inside. cc), (λ x. elim x [ inl first ↦ cc | inr listed ↦ cc ]));
  cache_out = λ c h e low. refl;
  total = refl;
  total_fits = omega arith;
  in_use = refl;
  in_use_fits = omega arith;
}
