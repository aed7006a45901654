-- ===== src/BitArray/Laws.antt =====
-- The bit array as a set of numbers: what each operation does to the answer of `get_bit`.
use native.Mathlib.Decide.{ℕ_discrete}
use rinasensev.Prelude.{
  ℕ, ◌+◌, ◌-◌, ◌/◌, ◌%◌, ◌^◌, ◌<◌, ◌≡◌, ap, true, false, some, ◌&&◌, bit_and, bit_or, ltb, ◌==◌,
  if◌then◌else◌, length, get_or, set, replicate, length-set, length-replicate, get_or-replicate,
  get_or-set_self, get_or-set_ne, Bool-cases, ==_ne, ==_refl, lt→ltb, ltb→lt, inl, inr, arith,
}
use rinasensev.Prelude.Bits.{
  test_bit, test_bit-or_pow, test_bit-and_complement, test_bit-zero, ltb-bit_and,
}
use rinasensev.BitArray.{
  BitArray, bits_per_unit, bit_of, index_of, alloc, set_bit, clear_bit, get_bit,
}

-- There is a unit for every bit below `nbbits`.
abbrev pub IsSized : BitArray → Type 0
IsSized ba = length ba.units ≡ ba.nbbits / bits_per_unit + 1

-- Bit `n` as the units hold it.
abbrev pub stored : BitArray → ℕ → ℕ
stored ba n = test_bit (bit_of n) (get_or ba.units (index_of n) 0)

pub get_bit-stored : (ba : BitArray) (n : ℕ) → get_bit ba n ≡ ltb n ba.nbbits && (stored ba n == 1)
unfolding get_bit
get_bit-stored ba n = rw (ltb-bit_and (bit_of n) (get_or ba.units (index_of n) 0)) (ground arith)

same_number : (n m : ℕ) → index_of n ≡ index_of m → bit_of n ≡ bit_of m → n ≡ m
same_number n m p q = omega arith

same_place : (n m : ℕ) → index_of n ≡ index_of m → (bit_of n == bit_of m) ≡ n == m
same_place n m e = elim (ℕ_discrete n m) [
  | yes q ↦ rw (q, ==_refl m, ==_refl (bit_of m))
  | no ne ↦ rw (==_ne n m ne, ==_ne (bit_of n) (bit_of m) (λ b. ne (same_number n m e b)))
]

-- An update of one unit that changes one bit of it changes one bit of the array.
stored-update :
    (ba : BitArray) (n m y : ℕ) (f : ℕ → ℕ)
    → IsSized ba
    → n < ba.nbbits
    → ((w : ℕ)
        → test_bit (bit_of m) (f w) ≡ (if bit_of n == bit_of m then y else test_bit (bit_of m) w))
    → test_bit
        (bit_of m)
        (get_or (set ba.units (index_of n) (f (get_or ba.units (index_of n) 0))) (index_of m) 0)
      ≡ (if n == m then y else stored ba m)
stored-update ba n m y f s h changes = elim (ℕ_discrete (index_of n) (index_of m)) [
  | no ne ↦ rw (
    get_or-set_ne ba.units (index_of n) (index_of m) (f (get_or ba.units (index_of n) 0)) 0 ne,
    ==_ne n m (λ e. ne (ap index_of e)),
  )
  | yes e ↦
      rw
        (
          ← e,
          get_or-set_self ba.units (index_of n) (f (get_or ba.units (index_of n) 0)) 0
              (omega arith),
          changes (get_or ba.units (index_of n) 0),
        )
        (rw (same_place n m e))
]

stored-set_bit :
    (ba : BitArray) (n m : ℕ)
    → IsSized ba
    → n < ba.nbbits
    → stored (set_bit ba n) m ≡ (if n == m then 1 else stored ba m)
unfolding set_bit
stored-set_bit ba n m s h = rw (lt→ltb n ba.nbbits h) (
    stored-update ba n m 1 (λ w. bit_or w (2 ^ bit_of n)) s h
      (test_bit-or_pow (bit_of m) (bit_of n)))

stored-clear_bit :
    (ba : BitArray) (n m : ℕ)
    → IsSized ba
    → n < ba.nbbits
    → stored (clear_bit ba n) m ≡ (if n == m then 0 else stored ba m)
unfolding clear_bit
stored-clear_bit ba n m s h = rw (lt→ltb n ba.nbbits h) (
    stored-update ba n m 0 (λ w. bit_and w (2 ^ 32 - 1 - 2 ^ bit_of n)) s h
      (λ w. test_bit-and_complement (bit_of m) (bit_of n) w (omega arith) (omega arith)))

pub nbbits-set_bit : (ba : BitArray) (n : ℕ) → (set_bit ba n).nbbits ≡ ba.nbbits
unfolding set_bit
nbbits-set_bit ba n = ground arith

pub nbbits-clear_bit : (ba : BitArray) (n : ℕ) → (clear_bit ba n).nbbits ≡ ba.nbbits
unfolding clear_bit
nbbits-clear_bit ba n = ground arith

pub set_bit-IsSized : (ba : BitArray) (n : ℕ) → IsSized ba → IsSized (set_bit ba n)
unfolding set_bit
set_bit-IsSized ba n s = ground (
  arith,
  length-set ba.units (index_of n) (bit_or (get_or ba.units (index_of n) 0) (2 ^ bit_of n)),
)

pub clear_bit-IsSized : (ba : BitArray) (n : ℕ) → IsSized ba → IsSized (clear_bit ba n)
unfolding clear_bit
clear_bit-IsSized ba n s = ground (
  arith,
  length-set ba.units (index_of n)
      (bit_and (get_or ba.units (index_of n) 0) (2 ^ 32 - 1 - 2 ^ bit_of n)),
)

set_bit-out : (ba : BitArray) (n : ℕ) → ltb n ba.nbbits ≡ false → set_bit ba n ≡ ba
unfolding set_bit
set_bit-out ba n o = rw o

clear_bit-out : (ba : BitArray) (n : ℕ) → ltb n ba.nbbits ≡ false → clear_bit ba n ≡ ba
unfolding clear_bit
clear_bit-out ba n o = rw o

-- In a sized array, setting bit `n` in range makes exactly `n` read true, and out of range changes
-- nothing.
pub get_bit-set_bit :
    (ba : BitArray) (n m : ℕ)
    → IsSized ba
    → get_bit (set_bit ba n) m ≡ (if ltb n ba.nbbits && n == m then true else get_bit ba m)
get_bit-set_bit ba n m s = elim (Bool-cases (ltb n ba.nbbits)) [
  | inl i ↦
      rw
        (
          i,
          get_bit-stored (set_bit ba n) m,
          get_bit-stored ba m,
          nbbits-set_bit ba n,
          stored-set_bit ba n m s (ltb→lt n _ i),
        )
        (ground arith)
  | inr o ↦ rw (o, set_bit-out ba n o)
]

-- In a sized array, clearing bit `n` makes exactly `n` read false.
pub get_bit-clear_bit :
    (ba : BitArray) (n m : ℕ)
    → IsSized ba
    → get_bit (clear_bit ba n) m ≡ (if n == m then false else get_bit ba m)
get_bit-clear_bit ba n m s = elim (Bool-cases (ltb n ba.nbbits)) [
  | inl i ↦
      rw
        (
          get_bit-stored (clear_bit ba n) m,
          get_bit-stored ba m,
          nbbits-clear_bit ba n,
          stored-clear_bit ba n m s (ltb→lt n _ i),
        )
        (ground arith)
  | inr o ↦ rw (clear_bit-out ba n o, get_bit-stored ba m) (ground arith)
]

-- A fresh array is sized and reads false everywhere.
pub get_bit-alloc :
    (count n : ℕ) {ba : BitArray}
    → alloc true count ≡ some ba
    → IsSized ba × (ba.nbbits ≡ count % 2 ^ 32) × (get_bit ba n ≡ false)
unfolding alloc
get_bit-alloc count n {ba} h = ground (
  arith,
  get_bit-stored (record { nbbits = count % 2 ^ 32; units = replicate (count % 2 ^ 32 / 32 + 1) 0 })
      n,
  get_or-replicate {A = ℕ} (count % 2 ^ 32 / 32 + 1) (index_of n) 0,
  length-replicate {A = ℕ} (count % 2 ^ 32 / 32 + 1) 0,
  test_bit-zero (bit_of n),
)
