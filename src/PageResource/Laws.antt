-- ===== src/PageResource/Laws.antt =====
-- The pages of a run are found again from its start.
use native.Mathlib.Nat.{mod-eq_of_lt, mul-div_cancel}
use malloc_kit.Base.{
  ℕ, ◌+◌, ◌-◌, ◌*◌, ◌%◌, ◌^◌, ◌≤◌, ◌<◌, ◌≡◌, max, arith, refl, sym, ◌∙◌, ap, subst, List, Option,
  none, some, Bool-cases, length, length-append, length-replicate, get_or, replicate,
  get_or-set_self, pow_pos, pow_strict, pow-add, wrapping_add, wrapping_sub, ◌<<<◌, ◌>>>◌,
  next_power_of_two, log_ceil, leb, leb→gt, inl, inr,
}
use malloc_kit.Powers.{next_power_of_two-eq-pow, pow-log_ceil_bounds}
use malloc_kit.Address.{Address}
use malloc_kit.Intrusive.{AddressRange}
use malloc_kit.Page
use malloc_kit.PageResource.{
  PageList, Resource, resize, set_at, index_of, acquired, acquire_run, acquire_pages,
  get_contiguous_pages, release_pages,
}

length-resize : (meta : List ℕ) (n : ℕ) → n ≤ length (resize meta n)
unfolding resize
length-resize meta n = omega (
  arith,
  length-append meta (replicate (n - length meta) 0),
  length-replicate {A = ℕ} (n - length meta) 0,
)

-- A count is read back from where it was stored, whether or not the vector had to grow.
pub get-set_at :
    (meta : List ℕ) (index units : ℕ)
    → length meta ≤ 2 ^ 62
    → index ≤ 2 ^ 62
    → 1 ≤ index + length meta
    → get_or (set_at meta index units) index 0 ≡ units
unfolding set_at
get-set_at meta index units small fits some_entry = elim (Bool-cases (leb (length meta) index)) [
  | inl grows ↦ rw grows (
      get_or-set_self (resize meta (next_power_of_two (max (length meta) index) <<< 1)) index units
        0 (grown meta (max (length meta) index) index (omega arith) (omega arith) (omega arith)))
  | inr in_range ↦
      rw in_range (get_or-set_self meta index units 0 (leb→gt (length meta) index in_range))
]
  where
    grown :
        (meta : List ℕ) (n index : ℕ)
        → index ≤ n
        → 1 ≤ n
        → n ≤ 2 ^ 62
        → index < length (resize meta (next_power_of_two n <<< 1))
    grown meta n index le some_n bound =
        let bounds = pow-log_ceil_bounds n some_n (omega (arith, bound)) in
        let power = next_power_of_two-eq-pow n (omega (arith, bound)) in
        let doubled : next_power_of_two n <<< 1 ≡ 2 * 2 ^ log_ceil n =
          omega (arith, power, bounds.1, bound) in
        omega (arith, length-resize meta (next_power_of_two n <<< 1), doubled, bounds.0)

pow_lt : (i j : ℕ) → i < j → 2 ^ i < 2 ^ j
pow_lt i j h = omega (arith, pow_strict i j h, pow_pos i)

module _ (list : PageList) (log_bytes : ℕ) (at_least : 12 ≤ log_bytes)
    (at_most : log_bytes ≤ 30) where
  -- The units of 4 KB in `2^k` pages.
  unfoldable units_of : ℕ → ℕ
  units_of k = (2 ^ k) <<< (log_bytes - 12)

  units-eq : (k : ℕ) → k + log_bytes ≤ 43 → units_of k ≡ 2 ^ k * 2 ^ (log_bytes - 12)
  unfolding units_of
  units-eq k small = mod-eq_of_lt (
      subst (λ (n : ℕ). n < 2 ^ 64) (pow-add k (log_bytes - 12))
        (pow_lt (k + (log_bytes - 12)) 64 (omega (arith, small, at_least))))

  asked_units :
      (k : ℕ) → k + log_bytes ≤ 43 → (2 ^ k) <<< (log_bytes - 12) ≡ 2 ^ k * 2 ^ (log_bytes - 12)
  unfolding units_of
  asked_units k small = units-eq k small

  units-lt : (k : ℕ) → k + log_bytes ≤ 43 → units_of k < 2 ^ 32
  units-lt k small =
      subst (λ (n : ℕ). n < 2 ^ 32) (pow-add k (log_bytes - 12) ∙ sym (units-eq k small))
        (pow_lt (k + (log_bytes - 12)) 32 (omega (arith, small, at_least)))

  bytes-eq : (k : ℕ) → k + log_bytes ≤ 43 → (2 ^ k) <<< log_bytes ≡ 2 ^ (k + log_bytes)
  bytes-eq k small =
      mod-eq_of_lt (
        subst (λ (n : ℕ). n < 2 ^ 64) (pow-add k log_bytes)
          (pow_lt (k + log_bytes) 64 (omega (arith, small))))
      ∙ sym (pow-add k log_bytes)

  index_lem : (r : Resource list) (start : Address) → index_of list log_bytes r start ≤ 2 ^ 62
  unfolding index_of
  index_lem r start = omega arith

  -- What an acquisition of `requested` pages leaves behind.
  unfoldable pub Acquired :
      Resource list → (requested : ℕ) → Option AddressRange × Resource list → Type 0
  Acquired r requested (none, r') =
      (list.allocate_cell r.freelist (2 ^ log_ceil requested * 2 ^ (log_bytes - 12))
        ≡ (none, r'.freelist))
      × (r'.meta ≡ r.meta)
      × (r'.reserved_bytes ≡ r.reserved_bytes)
  Acquired r requested (some range, r') =
      let pages = 2 ^ log_ceil requested in
      ((found : AddressRange) × (list.allocate_cell r.freelist (pages * 2 ^ (log_bytes - 12))
          ≡ (some found, r'.freelist))
        × (range.start ≡ found.start))
      × (range.end ≡ wrapping_add range.start (pages * 2 ^ log_bytes))
      × (r'.reserved_bytes ≡ r.reserved_bytes + pages * 2 ^ log_bytes)
      × (get_contiguous_pages list log_bytes r' range.start ≡ pages)
      × ((release_pages list log_bytes r' range.start).reserved_bytes ≡ r.reserved_bytes)
      × ((release_pages list log_bytes r' range.start).freelist
          ≡ list.release_cell r'.freelist range.start pages)

  acquired_of :
      (r : Resource list) (requested k : ℕ) (found : Option AddressRange × list.State)
      → list.allocate_cell r.freelist (2 ^ k * 2 ^ (log_bytes - 12)) ≡ found
      → k + log_bytes ≤ 43
      → log_ceil requested ≡ k
      → length r.meta ≤ 2 ^ 62
      → 1 ≤ length r.meta
      → r.reserved_bytes + 2 ^ (k + log_bytes) < 2 ^ 64
      → Acquired r requested (acquired list log_bytes r (2 ^ k) found)
  unfolding Acquired get_contiguous_pages release_pages acquired units_of index_of Page.forward
  acquired_of r requested k (none, t) asked small log few some_meta fits = (
    ap (λ (e : ℕ). list.allocate_cell r.freelist (2 ^ e * 2 ^ (log_bytes - 12))) log ∙ asked,
    refl,
    refl,
  )
  acquired_of r requested k (some range, t) asked small log few some_meta fits =
      let start : Address = range.start in
      let index : ℕ = index_of list log_bytes r start in
      let index_fits : index ≤ 2 ^ 62 = index_small r start in
      let stored : get_or (set_at r.meta index (units_of k % 2 ^ 32)) index 0 ≡ units_of k =
        get-set_at r.meta index (units_of k % 2 ^ 32) few index_fits (omega (arith, some_meta))
        ∙ mod-eq_of_lt (units-lt k small) in
      let pages : get_or (set_at r.meta index (units_of k % 2 ^ 32)) index 0 >>> (log_bytes - 12)
          ≡ 2 ^ k =
        ap (λ (n : ℕ). n >>> (log_bytes - 12)) (stored ∙ units-eq k small)
        ∙ mul-div_cancel (2 ^ k) (pow_pos (log_bytes - 12)) in
      let bytes : (2 ^ k) <<< log_bytes ≡ 2 ^ k * 2 ^ log_bytes =
        bytes-eq k small ∙ pow-add k log_bytes in
      let more : wrapping_add r.reserved_bytes ((2 ^ k) <<< log_bytes)
          ≡ r.reserved_bytes + ((2 ^ k) <<< log_bytes) =
        omega (arith, bytes-eq k small, fits) in
      let kept : wrapping_sub (wrapping_add r.reserved_bytes ((2 ^ k) <<< log_bytes))
            ((2 ^ k) <<< log_bytes)
          ≡ r.reserved_bytes =
        omega (arith, bytes-eq k small, fits) in
      (
        (
          range,
          ap (λ (e : ℕ). list.allocate_cell r.freelist (2 ^ e * 2 ^ (log_bytes - 12))) log ∙ asked,
          refl,
        ),
        ap (wrapping_add start) (bytes ∙ ap (λ (e : ℕ). 2 ^ e * 2 ^ log_bytes) (sym log)),
        more
            ∙ ap (λ (n : ℕ). r.reserved_bytes + n) bytes
            ∙ ap (λ (e : ℕ). r.reserved_bytes + 2 ^ e * 2 ^ log_bytes) (sym log),
        pages ∙ ap (λ (e : ℕ). 2 ^ e) (sym log),
        ap
              (λ (n : ℕ).
                wrapping_sub (wrapping_add r.reserved_bytes ((2 ^ k) <<< log_bytes))
                  (n <<< log_bytes))
              pages
            ∙ kept,
        ap (λ (n : ℕ). list.release_cell t start n) (pages ∙ ap (λ (e : ℕ). 2 ^ e) (sym log)),
      )
    where
      index_small : (r : Resource list) (start : Address) → index_of list log_bytes r start ≤ 2 ^ 62
      index_small r start = index_lem r start

  -- An acquisition rounds the pages up to a power of two and asks the free list once, for their units of 4 KB. It
  -- returns nothing only when the free list does, with the counts as they were. A run starts where the free list's cell
  -- does and ends after that number of pages, the reserved bytes grow by the size of the run, `get_contiguous_pages`
  -- finds the number from the start, and releasing the run restores the reserved bytes. The free list is then handed
  -- back a number of pages, where it was asked for a number of units. The run is below 2^44 bytes and the vector of
  -- counts is not empty. Pages have 4 KB to 1 GB, and the reserved bytes do not overflow.
  pub acquire_pages_lem :
      (r : Resource list) (requested : ℕ)
      → requested ≤ 2 ^ 62
      → log_ceil requested + log_bytes ≤ 43
      → length r.meta ≤ 2 ^ 62
      → 1 ≤ length r.meta
      → r.reserved_bytes + 2 ^ (log_ceil requested + log_bytes) < 2 ^ 64
      → Acquired r requested (acquire_pages list log_bytes r requested)
  unfolding acquire_pages acquire_run
  acquire_pages_lem r requested bound small few some_meta fits =
      let k : ℕ = log_ceil requested in
      subst (λ (n : ℕ). Acquired r requested (acquire_run list log_bytes r n))
        (sym (next_power_of_two-eq-pow requested (omega (arith, bound))))
        (acquired_of r requested k (list.allocate_cell r.freelist ((2 ^ k) <<< (log_bytes - 12)))
          (ap (list.allocate_cell r.freelist) (sym (asked_units k small))) small refl few some_meta
          fits)
