-- ===== src/Buddy/LazyBst.antt =====
-- mallockit/src/util/mem/freelist/abstract_freelist.rs: `LazyBst`, the bits that mark free cells, in pages of 2 MB
-- that are mapped when a bit of theirs is first set. The source of zeroed pages is a parameter.
use malloc_kit.Base.{
  ℕ, ◌+◌, ◌-◌, ◌^◌, Bool, true, false, not, [], ◌||◌, ◌==◌, if◌then◌else◌, leb, List, Option, none,
  some, get_or, set, length, replicate, ◌++◌, bit_and, bit_or, bit_not, wrapping_add, ◌<<<◌, ◌>>>◌,
  next_power_of_two,
}
use malloc_kit.Address.{Address}
use malloc_kit.Chain.{Memory, store}

pub record LazyBst : Type 0 where
  pub bits : List (Option Address)

unfoldable pub new : LazyBst
new = record { bits = [] }

abbrev page_index : ℕ → ℕ
page_index index = index >>> 3 >>> 21

unfoldable pub is_none : Option Address → Bool
is_none none = true
is_none (some page) = false

unfoldable pub needs_resize : LazyBst → ℕ → Bool
needs_resize t index =
    leb (length t.bits) (page_index index) || is_none (get_or t.bits (page_index index) none)

-- The address of the byte of an index, and the bit in it.
unfoldable pub get_bit_location : LazyBst → ℕ → Option (Address × ℕ)
get_bit_location t index =
    let byte_offset = bit_and (index >>> 3) (2 ^ 21 - 1) in
    if leb (length t.bits) (page_index index)
    then none
    else elim (get_or t.bits (page_index index) none) [
      | none ↦ none
      | some page ↦ some (wrapping_add page byte_offset, bit_and index 0b111)
    ]

-- `memory` has the bytes of the pages.
unfoldable pub get : LazyBst → Memory → ℕ → Option Bool
get t memory index = elim (get_bit_location t index) [
  | none ↦ none
  | some location ↦ some (not (bit_and (memory location.0) (1 <<< location.1) == 0))
]

unfoldable pub store_bit : Memory → Address × ℕ → Bool → Memory
store_bit memory (addr, bit_index) value =
    let byte = memory addr in
    if value
    then store memory addr (bit_or byte (1 <<< bit_index))
    else store memory addr (bit_and byte (bit_not (1 <<< bit_index)))

-- A page is mapped with its bytes zeroed in the memory that is returned; without a page the source panics, here `none`.
module _ {S : Type 0} (map_anonymous : S → Memory → ℕ → Option (Address × Memory) × S) where
  unfoldable pub resize : LazyBst → Memory → S → ℕ → Option (LazyBst × Memory) × S
  resize t memory s index =
      let i = page_index index in
      let missing = next_power_of_two (i + 1) - length t.bits in
      let bits = if leb (length t.bits) i then t.bits ++ replicate missing none else t.bits in
      let (mapped, s') = map_anonymous s memory (2 ^ 21) in
      let fresh : Option (LazyBst × Memory) × S = elim mapped [
        | none ↦ (none, s')
        | some page ↦ (some (record { bits = set bits i (some page.0) }, page.1), s')
      ] in
      if is_none (get_or bits i none) then fresh else (some (record { bits = bits }, memory), s)

  unfoldable pub set_bit : LazyBst → Memory → S → ℕ → Bool → Option (LazyBst × Memory) × S
  set_bit t memory s index value =
      let (resized, s') =
        if needs_resize t index then resize t memory s index else (some (t, memory), s) in
      elim resized [
        | none ↦ (none, s')
        | some r ↦ elim (get_bit_location r.0 index) [
          | none ↦ (none, s')
          | some location ↦ (some (r.0, store_bit r.1 location value), s')
        ]
      ]
