-- ===== src/Bump/Tests.antt =====
-- A request on an empty bump allocator, and on an area.
use malloc_kit.Base.{
  ℕ, ◌+◌, ◌*◌, ◌%◌, ◌^◌, ◌≤◌, ◌≡◌, Option, some, none, arith, refl, ap, leb, Bool-cases, leb→le,
  if◌then◌else◌, subst, inl, inr,
}
use malloc_kit.Address.{Address, align_up}
use malloc_kit.Layout.{Layout, from_size_align, extend_unchecked}
use malloc_kit.Area.{Area, Headers, put, alloc_with_layout}
use malloc_kit.Area.Laws.{IsArea, IsRequest, alloc_with_layout_lem}
use malloc_kit.Bump.{new, alloc}
use malloc_kit.Bump.Laws.{IsSource, IsPadded, Settled, alloc-Settled}

abbrev layout : Layout
layout = from_size_align 96 32

layout-IsRequest : IsRequest layout
layout-IsRequest = record {
  valid = record { log_align = 5; is_pow = refl; bound = omega arith };
  align_min = omega arith;
  align_max = omega arith;
  size_max = omega arith;
}

abbrev no_headers : Headers
no_headers = λ (a : Address). (0, 0)

abbrev area : Area
area = record { top = 4100; limit = 8192 }

area-IsArea : IsArea area
area-IsArea = record { low = omega arith; limit_low = omega arith }

granted_area :
    alloc_with_layout area no_headers layout
    ≡ (some 4160, record { top = 4256; limit = 8192 }, put no_headers 4152 (96, 32))
unfolding alloc_with_layout extend_unchecked align_up
granted_area = refl

alloc_with_layout_example :
    (4160 % 32 ≡ 0)
    × (4100 + 8 ≤ 4160)
    × (4256 ≡ 4160 + 96)
    × (4256 ≤ 8192)
    × (area.limit ≡ area.limit)
alloc_with_layout_example =
    alloc_with_layout_lem area layout area-IsArea layout-IsRequest no_headers granted_area

-- Up to 1024 pages from 2 MB on.
abbrev acquire : ℕ → Option (Address × Address)
acquire n = if leb n 1024 then some (2097152, 2097152 + n * 2097152) else none

-- A property of what was acquired.
acquired :
    (P : Address → Address → Type 0) (n s e : ℕ)
    → (n ≤ 1024 → P 2097152 (2097152 + n * 2097152))
    → acquire n ≡ some (s, e)
    → P s e
acquired P n s e h eq = elim (Bool-cases (leb n 1024)) [
  | inl small ↦
      let got : some (2097152, 2097152 + n * 2097152) ≡ some (s, e) = rw small at eq in
      let both = some-injective got in
      subst (λ (r : Address × Address). P r.0 r.1) both (h (leb→le n 1024 small))
  | inr large ↦ absurd (none≢some (rw large at eq))
]
  where
    get : Option (Address × Address) → Address × Address
    get none = (0, 0)
    get (some r) = r

    some-injective : {a b : Address × Address} → some a ≡ some b → a ≡ b
    some-injective e = ap get e

    none≢some : {a : Address × Address} → none ≡ some a → ⊥
    none≢some e = cc

acquire-IsSource : IsSource acquire
acquire-IsSource = record {
  aligned =
      λ (n s e : ℕ) eq. acquired (λ (s' e' : Address). s' % 2 ^ 21 ≡ 0) n s e (λ small. refl) eq;
  enough = λ (n s e : ℕ) eq.
      acquired (λ (s' e' : Address). s' + n * 2 ^ 21 ≤ e') n s e (λ small. omega arith) eq;
  low = λ (n s e : ℕ) eq.
      acquired (λ (s' e' : Address). e' ≤ 2 ^ 62) n s e (λ small. omega (arith, small)) eq;
}

layout-IsPadded : IsPadded layout
layout-IsPadded = record { multiple = refl; small = omega arith }

alloc-Settled_example :
    Settled acquire-IsSource layout layout-IsRequest layout-IsPadded
      (alloc acquire new no_headers layout)
alloc-Settled_example =
    alloc-Settled acquire-IsSource layout layout-IsRequest layout-IsPadded new no_headers refl
