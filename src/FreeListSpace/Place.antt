-- ===== src/FreeListSpace/Place.antt =====
-- Where `place` puts a block in the cell that was found.
use native.Mathlib.Nat.{mod_self, zero-mod}
use malloc_kit.Base.{
  ℕ, ◌+◌, ◌*◌, ◌%◌, ◌^◌, ◌≤◌, ◌<◌, ◌≡◌, ◌⊎◌, inl, inr, max, arith, sym, ◌∙◌, ap, subst, pow_mono,
  wrapping_add, multiple_gap,
}
use malloc_kit.Powers.{exponent_le}
use malloc_kit.Address.{Address, align_up}
use malloc_kit.Address.Align.{align_up_least, aligned_weaken, aligned_add}
use malloc_kit.Layout.{Layout, extend_unchecked, padded_size}
use malloc_kit.Layout.Laws.{IsLayout, round_up_lem, padded_size-eq, extend_unchecked_lem}
use malloc_kit.Intrusive.{AddressRange}
use malloc_kit.FreeListSpace.{cell_layout, place}

-- A range behind a header of 8 bytes in a cell of `2^k` bytes that is aligned to its size.
pub record IsCellRange (bytes : ℕ) (r : AddressRange) : Type 0 where
  pub cell : Address
  pub log_size : ℕ
  pub start-eq : r.start ≡ cell + 8
  pub end-eq : r.end ≡ cell + 2 ^ log_size
  pub aligned : cell % 2 ^ log_size ≡ 0
  pub holds : bytes + 8 ≤ 2 ^ log_size
  pub small : log_size ≤ 20
  pub in_range : cell + 2 ^ log_size ≤ 2 ^ 62

next_multiple :
    (a c : ℕ)
    → 3 ≤ a
    → a < 64
    → c + 2 * 2 ^ a < 2 ^ 64
    → c % 2 ^ a ≡ 0
    → align_up (c + 8) (2 ^ a) ≡ c + 2 ^ a
next_multiple a c ge small fits aligned =
    let least = align_up_least a (c + 8) small (omega (arith, pow_mono 3 a ge)) in
    let eight : 8 ≤ 2 ^ a = omega (arith, pow_mono 3 a ge) in
    let above : c + 2 ^ a ≤ align_up (c + 8) (2 ^ a) =
      multiple_gap (2 ^ a) c (align_up (c + 8) (2 ^ a)) aligned least.0 (omega (arith, least.1)) in
    elim (compare_sum (c + 2 ^ a) (align_up (c + 8) (2 ^ a)) above) [
      | inl same ↦ sym same
      | inr more ↦ absurd (
          omega (
            arith,
            multiple_gap (2 ^ a) (c + 2 ^ a) (align_up (c + 8) (2 ^ a))
                (aligned_add (2 ^ a) c (2 ^ a) aligned (mod_self (2 ^ a))) least.0 more,
            least.2,
            eight,
          ))
    ]
  where
    compare_sum : (m n : ℕ) → m ≤ n → (m ≡ n) ⊎ (m < n)
    compare_sum m n h = omega arith

-- The layout of the header and the block, in terms of one alignment `2^a`.
pub record Extended (layout : Layout) (a : ℕ) : Type 0 where
  pub at_least : 3 ≤ a
  pub log : ℕ
  pub is_pow : layout.align ≡ 2 ^ log
  pub below : log ≤ a
  pub is_align : (extend_unchecked cell_layout layout).0.align ≡ 2 ^ a
  pub offset_aligned : (extend_unchecked cell_layout layout).1 % 2 ^ log ≡ 0
  pub behind : 8 ≤ (extend_unchecked cell_layout layout).1
  pub bytes_aligned : padded_size ((extend_unchecked cell_layout layout).0) % 2 ^ a ≡ 0
  pub bytes_small :
      padded_size ((extend_unchecked cell_layout layout).0) < 2 * (layout.size + layout.align) + 32
  pub bytes_hold :
      (extend_unchecked cell_layout layout).1 + layout.size
      ≤ padded_size ((extend_unchecked cell_layout layout).0)

pow_max : (k : ℕ) → max 8 (2 ^ k) ≡ 2 ^ max 3 k
pow_max k = elim (either k) [
  | inl low ↦ rw (omega-max-left k low) (omega (arith, pow_mono k 3 low))
  | inr high ↦ rw (omega-max-right k high) (omega (arith, pow_mono 3 k high))
]
  where
    either : (k : ℕ) → (k ≤ 3) ⊎ (3 ≤ k)
    either k = omega arith

    omega-max-left : (k : ℕ) → k ≤ 3 → max 3 k ≡ 3
    omega-max-left k h = omega arith

    omega-max-right : (k : ℕ) → 3 ≤ k → max 3 k ≡ k
    omega-max-right k h = omega arith

pub Extended-of :
    (layout : Layout) (v : IsLayout layout)
    → layout.size + layout.align ≤ 2 ^ 20
    → Extended layout (max 3 v.log_align)
Extended-of layout v small =
    let k : ℕ = v.log_align in
    let e = extend_unchecked_lem cell_layout layout v (omega arith) (omega (arith, small)) in
    let whole : Layout = (extend_unchecked cell_layout layout).0 in
    let offset : ℕ = (extend_unchecked cell_layout layout).1 in
    let power : whole.align ≡ 2 ^ max 3 k = e.4 ∙ ap (λ (n : ℕ). max 8 n) v.is_pow ∙ pow_max k in
    let w : IsLayout whole = record {
      log_align = max 3 k;
      is_pow = power;
      bound = omega (arith, e.2, e.3, e.4, small);
    } in
    let padded = padded_size-eq w in
    let rounded = round_up_lem (max 3 k) whole.size in
    record {
      at_least = omega arith;
      log = k;
      is_pow = v.is_pow;
      below = omega arith;
      is_align = power;
      offset_aligned = subst (λ (n : ℕ). offset % n ≡ 0) v.is_pow e.0;
      behind = e.1;
      bytes_aligned = rw padded rounded.0;
      bytes_small = omega (
        arith,
        padded,
        rounded.2,
        e.2,
        e.3,
        ap (λ (n : ℕ). max 8 n) v.is_pow,
        pow_max k,
        v.is_pow,
      );
      bytes_hold = omega (arith, padded, rounded.1, e.3);
    }

-- The block starts behind the header at its alignment, and ends in its cell.
pub record Placed (layout : Layout) (r : AddressRange) (p : Address) : Type 0 where
  pub is_aligned : p % layout.align ≡ 0
  pub behind : r.start + 8 ≤ p
  pub inside : p + layout.size ≤ r.end
  pub near : p < r.start + 2 ^ 20
  pub in_range : r.end ≤ 2 ^ 62

pub place_lem :
    (layout : Layout) (v : IsLayout layout) (r : AddressRange)
    → 1 ≤ layout.size
    → layout.size + layout.align ≤ 2 ^ 20
    → IsCellRange (padded_size ((extend_unchecked cell_layout layout).0)) r
    → Placed layout r (place layout r)
unfolding place
place_lem layout v r some_size small cr =
    let a : ℕ = max 3 v.log_align in
    let x : Extended layout a = Extended-of layout v small in
    let whole : Layout = (extend_unchecked cell_layout layout).0 in
    let offset : ℕ = (extend_unchecked cell_layout layout).1 in
    let bytes : ℕ = padded_size whole in
    let c : ℕ = cr.cell in
    let full : ℕ = 2 ^ cr.log_size in
    let holds : bytes + 8 ≤ full = cr.holds in
    let hold : offset + layout.size ≤ bytes = Extended.bytes_hold x in
    let one : 2 ^ a ≤ bytes = omega (
      arith,
      multiple_gap (2 ^ a) 0 bytes (zero-mod (2 ^ a)) (Extended.bytes_aligned x)
          (omega (arith, hold, some_size)),
    ) in
    let le : a ≤ cr.log_size = exponent_le a cr.log_size bytes one (omega (arith, holds)) in
    let base : c % 2 ^ a ≡ 0 = aligned_weaken cr.log_size a c le cr.aligned in
    let gap : bytes + 2 ^ a ≤ full =
      multiple_gap (2 ^ a) bytes full (Extended.bytes_aligned x)
        (aligned_weaken cr.log_size a full le (mod_self full)) (omega (arith, holds)) in
    let top : full ≤ 2 ^ 20 = pow_mono cr.log_size 20 cr.small in
    let up : align_up (c + 8) (2 ^ a) ≡ c + 2 ^ a =
      next_multiple a c (Extended.at_least x) (omega (arith, le, cr.small))
        (omega (arith, gap, holds, cr.in_range)) base in
    let p-eq : wrapping_add (align_up r.start whole.align) offset ≡ c + 2 ^ a + offset =
      rw (cr.start-eq, Extended.is_align x, up) (omega (arith, gap, hold, cr.in_range)) in
    let log : ℕ = Extended.log x in
    let base_aligned : (c + 2 ^ a) % 2 ^ log ≡ 0 =
      aligned_weaken a log (c + 2 ^ a) (Extended.below x)
        (aligned_add (2 ^ a) c (2 ^ a) base (mod_self (2 ^ a))) in
    record {
      is_aligned =
          subst (λ (n : ℕ). wrapping_add (align_up r.start whole.align) offset % n ≡ 0)
            (sym (Extended.is_pow x))
            (ap (λ (n : ℕ). n % 2 ^ log) p-eq
              ∙ aligned_add (2 ^ log) (c + 2 ^ a) offset base_aligned (Extended.offset_aligned x));
      behind =
          omega (arith, p-eq, cr.start-eq, Extended.behind x, pow_mono 3 a (Extended.at_least x));
      inside = omega (arith, p-eq, cr.end-eq, gap, hold);
      near = omega (arith, p-eq, cr.start-eq, gap, hold, top, some_size);
      in_range = omega (arith, cr.end-eq, cr.in_range);
    }
