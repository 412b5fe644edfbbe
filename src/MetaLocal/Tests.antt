-- ===== src/MetaLocal/Tests.antt =====
-- A block of 48 bytes, and a page that is split.
use malloc_kit.Base.{ℕ, ◌≡◌, Option, none, refl, replicate, next_power_of_two, trailing_zeros}
use malloc_kit.Address.{Address}
use malloc_kit.MetaLocal.{MetaLocal, size_class}

class_of_48 : size_class 48 ≡ 6
unfolding size_class next_power_of_two trailing_zeros
class_of_48 = refl

-- A space that maps nothing.
abbrev map_none : ℕ → ℕ → Option Address × ℕ
map_none n pages = (none, n)

abbrev unmap_none : ℕ → Address → ℕ → ℕ
unmap_none n a pages = n

abbrev no_cells : MetaLocal map_none unmap_none
no_cells = record { freelist = replicate 13 0; memory = λ (a : Address). 0; space = 0 }
