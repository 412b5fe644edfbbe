-- ===== src/BitField.antt =====
-- mallockit/src/util/bits.rs: fields of a machine word. `AtomicUsize` and `usize` have the same
-- functions; a `usize` stands for both here.
pub mod Laws
use malloc_kit.Base.{
  ℕ, ◌+◌, ◌-◌, ◌^◌, bit_and, bit_or, Bool, if◌then◌else◌, wrapping_add, wrapping_sub, bit_not,
  ◌<<<◌, ◌>>>◌,
}

pub record BitField : Type 0 where
  pub bits : ℕ
  pub shift : ℕ

unfoldable pub get : ℕ → BitField → ℕ
get value field = bit_and (value >>> field.shift) (wrapping_sub (1 <<< field.bits) 1)

unfoldable pub field_mask : BitField → ℕ
field_mask field = wrapping_sub (1 <<< field.bits) 1 <<< field.shift

unfoldable pub set : ℕ → BitField → ℕ → ℕ
unfolding field_mask
set old field value = bit_or (bit_and old (bit_not (field_mask field))) (value <<< field.shift)

-- `delta` as an `isize`: `grow d` for a positive one, `shrink d` for `-d`.
pub data Delta : Type 0 where
  grow shrink : ℕ → Delta

-- The new word and the new value of the field.
unfoldable pub delta : ℕ → BitField → Delta → ℕ × ℕ
unfolding get set
delta word field (grow d) = let new = wrapping_add (get word field) d in (set word field new, new)
delta word field (shrink d) = let new = wrapping_sub (get word field) d in (set word field new, new)
