-- ===== src/BitArray.antt =====
-- components/Rina-manager/Common/include/common/bit_array.h: an array of bits kept in 32-bit units.
pub mod Laws
use rinasensev.Prelude.{
  ℕ, ◌+◌, ◌-◌, ◌*◌, ◌/◌, ◌%◌, ◌^◌, Bool, true, false, Option, none, some, List, bit_and, bit_or,
  ltb, if◌then◌else◌, get_or, set, replicate,
}

abbrev pub bits_per_unit : ℕ
bits_per_unit = 32

-- `bitarray_t` with the units that follow it in the same allocation.
pub record BitArray : Type 0 where
  pub nbbits : ℕ
  pub units : List ℕ

-- BIT_INDEX
abbrev pub bit_of : ℕ → ℕ
bit_of n = n % bits_per_unit

abbrev pub index_of : ℕ → ℕ
index_of n = (n - bit_of n) / bits_per_unit

-- `has_memory` says whether pvRsMemAlloc returns a block; the argument is truncated to uint32_t.
unfoldable pub alloc : Bool → ℕ → Option BitArray
alloc has_memory count =
    let nbbits = count % 2 ^ 32 in
    if has_memory
    then some (record { nbbits = nbbits; units = replicate (nbbits / bits_per_unit + 1) 0 })
    else none

unfoldable pub set_bit : BitArray → ℕ → BitArray
set_bit ba n =
    if ltb n ba.nbbits
    then record ba {
      units = set ba.units (index_of n) (bit_or (get_or ba.units (index_of n) 0) (2 ^ bit_of n));
    }
    else ba

-- `~(1 << bit)` in 32 bits.
unfoldable pub clear_bit : BitArray → ℕ → BitArray
clear_bit ba n =
    if ltb n ba.nbbits
    then record ba {
      units =
          set ba.units (index_of n)
            (bit_and (get_or ba.units (index_of n) 0) (2 ^ 32 - 1 - 2 ^ bit_of n));
    }
    else ba

unfoldable pub get_bit : BitArray → ℕ → Bool
get_bit ba n =
    if ltb n ba.nbbits
    then ltb 0 (bit_and (get_or ba.units (index_of n) 0) (2 ^ bit_of n))
    else false
