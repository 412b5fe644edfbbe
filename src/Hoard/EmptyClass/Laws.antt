-- ===== src/Hoard/EmptyClass/Laws.antt =====
-- The group of a block by how full it is.
use native.Mathlib.Nat.{div-lt_iff_lt-mul, div-add-mod, mul-div_cancel}
use malloc_kit.Base.{
  ℕ, ◌+◌, ◌*◌, ◌/◌, ◌%◌, ◌≤◌, ◌<◌, ◌≡◌, ◌≢◌, ◌↔◌, inl, inr, arith, refl, ◌∙◌, ap, subst, ◌==◌,
  Bool-cases, ==→eq, ==→ne,
}
use malloc_kit.Hoard.SuperBlock
use malloc_kit.Hoard.EmptyClass.{group, group_count, cell_space}

eighths :
    (u t : ℕ) → 1 ≤ t → u ≤ t → (8 * u / t < 9) × (8 * u / t ≡ 8 → u ≡ t) × (u ≡ t → 8 * u / t ≡ 8)
eighths u t some_space fits = (
  (div-lt_iff_lt-mul some_space).1 (omega (arith, some_space, fits)),
  λ e. whole (8 * u / t) (8 * u % t) e (div-add-mod (8 * u) t),
  λ e. ap (λ (n : ℕ). 8 * n / t) e ∙ mul-div_cancel 8 some_space,
)
  where
    whole : (q r : ℕ) → q ≡ 8 → t * q + r ≡ 8 * u → u ≡ t
    whole q r e h = omega (arith, subst (λ (n : ℕ). t * n + r ≡ 8 * u) e h, fits)

-- The group of a block that uses no more bytes than its cells can take is in range; it is the first exactly when no byte is
-- used, and the last exactly when all are. This asks that the block has space for a cell.
pub group_lem :
    (b : SuperBlock.BlockMeta)
    → 1 ≤ cell_space b
    → b.used_bytes ≤ cell_space b
    → (group b < group_count)
      × ((group b ≡ 0) ↔ (b.used_bytes ≡ 0))
      × ((group b ≡ 9) ↔ (b.used_bytes ≡ cell_space b))
unfolding group
group_lem b some_space fits = elim (Bool-cases (b.used_bytes == 0)) [
  | inl same ↦ rw same (empty 0 refl (==→eq b.used_bytes 0 same))
  | inr other ↦ rw other (
      filled (8 * b.used_bytes / cell_space b) (eighths b.used_bytes (cell_space b) some_space fits)
        (==→ne b.used_bytes 0 other))
]
  where
    empty :
        (g : ℕ)
        → g ≡ 0
        → b.used_bytes ≡ 0
        → (g < 10) × ((g ≡ 0) ↔ (b.used_bytes ≡ 0)) × ((g ≡ 9) ↔ (b.used_bytes ≡ cell_space b))
    empty g first_group e = (
      omega (arith, first_group),
      (λ h. e, λ h. first_group),
      (λ h. omega (arith, h, first_group), λ h. omega (arith, h, e, some_space)),
    )

    filled :
        (q : ℕ)
        → (q < 9) × (q ≡ 8 → b.used_bytes ≡ cell_space b) × (b.used_bytes ≡ cell_space b → q ≡ 8)
        → b.used_bytes ≢ 0
        → (1 + q < 10)
          × ((1 + q ≡ 0) ↔ (b.used_bytes ≡ 0))
          × ((1 + q ≡ 9) ↔ (b.used_bytes ≡ cell_space b))
    filled q (low, to, from) some_used = (
      omega (arith, low),
      (λ h. omega (arith, h), λ h. absurd (some_used h)),
      (λ h. to (omega (arith, h)), λ h. omega (arith, from h)),
    )
