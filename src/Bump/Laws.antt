-- ===== src/Bump/Laws.antt =====
-- The second attempt of the bump allocator succeeds, for the layouts that the malloc interface makes.
use native.Mathlib.Decide.{dec_lt}
use malloc_kit.Base.{
  ℕ, ◌+◌, ◌*◌, ◌%◌, ◌^◌, ◌≤◌, ◌<◌, ◌≡◌, ◌⊎◌, inl, inr, Option-cases, Option, none, some, max, arith,
  refl, ap, false, wrapping_add, multiple_gap,
}
use malloc_kit.Address.{Address, align_up}
use malloc_kit.Address.Align.{align_up-eq, aligned_weaken}
use malloc_kit.Powers.{exponent_le}
use malloc_kit.Layout.{Layout}
use malloc_kit.Layout.Laws.{round_up_lem, round_up}
use malloc_kit.Area.{Area, Headers, align_value, alloc_with_layout}
use malloc_kit.Area.Laws.{IsArea, IsRequest, alloc_with_layout-eq, start, start_lem}
use malloc_kit.Bump.{
  BumpAllocator, granted, refused, State, pages_for, alloc_or, refill, alloc_slow, alloc,
}

-- What the page resource promises: aligned pages, at least as many as asked for, in the heap.
pub record IsSource (acquire : ℕ → Option (Address × Address)) : Type 0 where
  pub aligned : (n s e : ℕ) → acquire n ≡ some (s, e) → s % 2 ^ 21 ≡ 0
  pub enough : (n s e : ℕ) → acquire n ≡ some (s, e) → s + n * 2 ^ 21 ≤ e
  pub low : (n s e : ℕ) → acquire n ≡ some (s, e) → e ≤ 2 ^ 62

-- A size that is a multiple of the alignment, which is at most a page of 2 MB.
pub record IsPadded (l : Layout) : Type 0 where
  pub multiple : l.size % l.align ≡ 0
  pub small : l.align ≤ 2 ^ 21

align_value-eq : (v a : ℕ) → align_value v a ≡ align_up v a
unfolding align_value align_up
align_value-eq v a = refl

pages_for-eq :
    (l : Layout) → l.size < 2 ^ 32 → pages_for l * 2 ^ 21 ≡ round_up 21 (max l.size (2 ^ 21) + 16)
unfolding pages_for
pages_for-eq l h =
    let n : ℕ = max l.size (2 ^ 21) + 16 in
    let no_wrap : wrapping_add (max l.size (2 ^ 21)) 16 ≡ n = omega arith in
    omega (
      arith,
      ap (λ (x : ℕ). align_value x (2 ^ 21)) no_wrap,
      align_value-eq n (2 ^ 21),
      align_up-eq 21 n (omega arith) (omega arith),
    )

-- The pages hold the object behind its alignment.
pages_for_fit : (l : Layout) → IsRequest l → IsPadded l → l.size + l.align ≤ pages_for l * 2 ^ 21
pages_for_fit l v p =
    let k : ℕ = v.valid.log_align in
    let n : ℕ = max l.size (2 ^ 21) + 16 in
    let r = round_up_lem 21 n in
    let k_le : k ≤ 21 = exponent_le k 21 l.align (omega (arith, v.valid.is_pow)) p.small in
    let whole : round_up 21 n % l.align ≡ 0 =
      rw v.valid.is_pow (aligned_weaken 21 k (round_up 21 n) k_le r.0) in
    rw (pages_for-eq l v.size_max)
      (multiple_gap l.align l.size (round_up 21 n) p.multiple whole (omega (arith, r)))

module _ {acquire : ℕ → Option (Address × Address)} (source : IsSource acquire) (l : Layout)
    (v : IsRequest l) (padded : IsPadded l) where
  fresh : Address → Address → Area
  fresh s e = record { top = s; limit = e }

  module _ (s e : Address) (h : acquire (pages_for l) ≡ some (s, e)) where
    fresh-IsArea : IsArea (fresh s e)
    unfolding fresh
    fresh-IsArea =
        let room = source.enough (pages_for l) s e h in
        let low = source.low (pages_for l) s e h in omega arith

    start-fresh : start (fresh s e) l fresh-IsArea v ≡ s
    unfolding fresh
    start-fresh =
        let k : ℕ = v.valid.log_align in
        let k_le : k ≤ 21 = exponent_le k 21 l.align (omega (arith, v.valid.is_pow)) padded.small in
        let whole : s % l.align ≡ 0 =
          rw v.valid.is_pow (aligned_weaken 21 k s k_le (source.aligned (pages_for l) s e h)) in
        let at = start_lem (fresh s e) l fresh-IsArea v in
        elim (dec_lt s (start (fresh s e) l fresh-IsArea v)) [
          | yes later ↦ absurd (omega (arith, at, multiple_gap l.align s _ whole at.0 later))
          | no here ↦ omega (arith, at)
        ]

    alloc-fresh :
        (m : Headers)
        → let (found, area, _) = alloc_with_layout (fresh s e) m l in
          (found ≡ some (s + l.align)) × (area.limit ≡ e)
    unfolding fresh
    alloc-fresh m =
        let room = source.enough (pages_for l) s e h in
        let fit = pages_for_fit l v padded in
        rw (alloc_with_layout-eq (fresh s e) l fresh-IsArea v m, start-fresh)
          (ground (arith, room, fit))

    refill-granted :
        (b : BumpAllocator) (m : Headers)
        → let (outcome, b', _) = refill acquire b m l (s, e) in
          (outcome ≡ granted (s + l.align)) × (b'.retry ≡ false)
    unfolding refill alloc_or fresh
    refill-granted b m = ground (arith, alloc-fresh m)

  -- What a request comes to: granted, or refused because there are no pages.
  unfoldable pub Settled : State → Type 0
  Settled (outcome, b, _) =
      (b.retry ≡ false)
      × (((p : Address) × (outcome ≡ granted p))
          ⊎ (outcome ≡ refused) × (acquire (pages_for l) ≡ none))

  alloc_slow-Settled :
      (b : BumpAllocator) (m : Headers) → b.retry ≡ false → Settled (alloc_slow acquire b m l)
  unfolding alloc_slow Settled
  alloc_slow-Settled b m h = elim (Option-cases (acquire (pages_for l))) [
    | inl e ↦ rw (h, e) (h, inr (refl, refl))
    | inr (pages, e) ↦
        let done = refill-granted pages.0 pages.1 e b m in
        rw (h, e) (done.1, inl (pages.0 + l.align, done.0))
  ]

  alloc_or-Settled :
      (slow : State) (b : BumpAllocator) (m : Headers)
      → b.retry ≡ false
      → Settled slow
      → Settled (alloc_or slow b m l)
  unfolding alloc_or Settled
  alloc_or-Settled slow b m h settled = by_result (alloc_with_layout b.area m l).0 _ _
    where
      by_result :
          (found : Option Address) (area : Area) (m' : Headers)
          → Settled
              (elim found [ some p ↦ (granted p, record b { area = area }, m') | none ↦ slow ])
      by_result none area m' = settled
      by_result (some p) area m' = (h, inl (p, refl))

  -- For a padded layout whose alignment is at least 8 bytes and at most 2 MB and whose size is below 4 GB, the bump
  -- allocator does not panic: it grants the request from its area or from fresh pages, and refuses it only if it can
  -- acquire none. Its `retry` flag stays clear. The flag is clear before, and the source of pages keeps its promises.
  pub alloc-Settled :
      (b : BumpAllocator) (m : Headers) → b.retry ≡ false → Settled (alloc acquire b m l)
  unfolding alloc
  alloc-Settled b m h = alloc_or-Settled (alloc_slow acquire b m l) b m h (alloc_slow-Settled b m h)
