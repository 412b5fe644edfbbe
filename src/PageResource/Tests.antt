-- ===== src/PageResource/Tests.antt =====
-- A run of three pages of 4 KB.
use malloc_kit.Base.{ℕ, ◌+◌, ◌-◌, ◌*◌, ◌≡◌, [], ◌∷◌, some, arith, refl, log_ceil}
use malloc_kit.PageResource.{PageList, Resource, acquire_pages}
use malloc_kit.PageResource.Laws.{Acquired, acquire_pages_lem}

-- A free list that counts the units it has handed out.
abbrev pages : PageList
pages = record {
  State = ℕ;
  allocate_cell = λ (n units : ℕ).
      (some (record { start = 1048576 + n * 4096; end = 1048576 + (n + units) * 4096 }), n + units);
  release_cell = λ (n start units : ℕ). n - units;
}

abbrev resource : Resource pages
resource = record { freelist = 0; reserved_bytes = 0; meta = 0 ∷ 0 ∷ []; base = 1048576 }

log_of_3 : log_ceil 3 ≡ 2
unfolding log_ceil
log_of_3 = refl

acquire_pages_example :
    Acquired pages 12 (omega arith) (omega arith) resource 3 (acquire_pages pages 12 resource 3)
acquire_pages_example =
    acquire_pages_lem pages 12 (omega arith) (omega arith) resource 3 (omega arith)
      (omega (arith, log_of_3)) (omega arith) (omega arith) (rw log_of_3 (omega arith))
