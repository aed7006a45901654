-- ===== src/Prelude/Bits.antt =====
-- Single bits of a word: `w | 1 << b`, `w & ~(1 << b)` and `w & 1 << b` as statements on
-- `test_bit`.
use Prim.Native.Nat.{
  ℕ, zero, suc, ◌+◌, ◌-◌, ◌*◌, ◌/◌, ◌%◌, ◌^◌, ◌≤◌, ◌<◌, min, max, digits, bitwise, bit_and, bit_or,
  bit_and-bitwise, bit_or-bitwise,
}
use mathlib.Core.Path.{◌≡◌, refl, sym, ap, ◌∙◌}
use native.Mathlib.Decide.{ℕ_discrete}
use mathlib.Core.Logic.{◌≢◌, ◌⊎◌, inl, inr}
use native.Mathlib.Omega.{arith}
use native.Mathlib.Nat.{pow-suc, one-le-pow, mul-zero, pow-le-pow_right}
use rinasensev.Prelude.Tests.{ltb, ◌==◌, lt→ltb, ==_iff, ==_ne, if◌then◌else◌}

-- The fuel of the native definition does not matter once it covers the left word.
module _ (rest : ℕ → ℕ) (op : ℕ → ℕ → ℕ) where
  digits_more : (n k a b : ℕ) → a ≤ n → a ≤ k → digits rest op n a b ≡ digits rest op k a b
  digits_more zero zero a b p q = refl
  digits_more zero (suc k) zero b p q = refl
  digits_more zero (suc k) (suc a) b p q = absurd (omega arith)
  digits_more (suc n) zero zero b p q = refl
  digits_more (suc n) zero (suc a) b p q = absurd (omega arith)
  digits_more (suc n) (suc k) zero b p q = refl
  digits_more (suc n) (suc k) (suc a) b p q =
      ap (λ (t : ℕ). t * 2 + op (suc a % 2) (b % 2))
        (digits_more n k (suc a / 2) (b / 2) (omega arith) (omega arith))

  bitwise_halves :
      (a b : ℕ)
      → bitwise rest op (suc a) b ≡ bitwise rest op (suc a / 2) (b / 2) * 2 + op (suc a % 2) (b % 2)
  bitwise_halves a b =
      omega (arith, digits_more a (suc a / 2) (suc a / 2) (b / 2) (omega arith) (omega arith))

pub bit_or_halves : (a b : ℕ) → bit_or a b ≡ bit_or (a / 2) (b / 2) * 2 + max (a % 2) (b % 2)
bit_or_halves zero b = simp bit_or-bitwise (omega arith)
bit_or_halves (suc a) b = simp bit_or-bitwise (bitwise_halves (λ r. r) max a b)

pub bit_and_halves : (a b : ℕ) → bit_and a b ≡ bit_and (a / 2) (b / 2) * 2 + min (a % 2) (b % 2)
bit_and_halves zero b = simp bit_and-bitwise (omega arith)
bit_and_halves (suc a) b = simp bit_and-bitwise (bitwise_halves (λ r. 0) min a b)

-- Bit `k` of `w`, 0 or 1.
abbrev pub test_bit : ℕ → ℕ → ℕ
test_bit zero w = w % 2
test_bit (suc k) w = test_bit k (w / 2)

pub test_bit-zero : (k : ℕ) → test_bit k 0 ≡ 0
test_bit-zero zero = refl
test_bit-zero (suc k) = test_bit-zero k

pub test_bit-le-one : (k w : ℕ) → test_bit k w ≤ 1
test_bit-le-one zero w = omega arith
test_bit-le-one (suc k) w = test_bit-le-one k (w / 2)

pub test_bit-or : (k a b : ℕ) → test_bit k (bit_or a b) ≡ max (test_bit k a) (test_bit k b)
test_bit-or zero a b = omega (arith, bit_or_halves a b)
test_bit-or (suc k) a b =
    ap (test_bit k) (omega (arith, bit_or_halves a b)) ∙ test_bit-or k (a / 2) (b / 2)

pub test_bit-and : (k a b : ℕ) → test_bit k (bit_and a b) ≡ min (test_bit k a) (test_bit k b)
test_bit-and zero a b = omega (arith, bit_and_halves a b)
test_bit-and (suc k) a b =
    ap (test_bit k) (omega (arith, bit_and_halves a b)) ∙ test_bit-and k (a / 2) (b / 2)

pub test_bit-pow_self : (k : ℕ) → test_bit k (2 ^ k) ≡ 1
test_bit-pow_self zero = refl
test_bit-pow_self (suc k) = ap (test_bit k) (omega (arith, pow-suc 2 k)) ∙ test_bit-pow_self k

pub test_bit-pow_ne : (k b : ℕ) → k ≢ b → test_bit k (2 ^ b) ≡ 0
test_bit-pow_ne zero zero h = absurd (h refl)
test_bit-pow_ne zero (suc b) h = omega (arith, pow-suc 2 b)
test_bit-pow_ne (suc k) zero h = test_bit-zero k
test_bit-pow_ne (suc k) (suc b) h =
    ap (test_bit k) (omega (arith, pow-suc 2 b)) ∙ test_bit-pow_ne k b (λ e. h (ap suc e))

-- The complement in `n` bits.
pub test_bit-complement :
    (n k w : ℕ) → k < n → w < 2 ^ n → test_bit k (2 ^ n - 1 - w) ≡ 1 - test_bit k w
test_bit-complement zero k w h lt = absurd (omega arith)
test_bit-complement (suc n) zero w h lt = omega (arith, pow-suc 2 n, one-le-pow n 2)
test_bit-complement (suc n) (suc k) w h lt =
    ap (test_bit k) halved
    ∙ test_bit-complement n k (w / 2) (omega arith) (omega (arith, pow-suc 2 n))
  where
    halved : (2 ^ suc n - 1 - w) / 2 ≡ 2 ^ n - 1 - w / 2
    halved = omega (arith, pow-suc 2 n, one-le-pow n 2)

bit_and-zero_below : (n a : ℕ) → a ≤ n → bit_and a 0 ≡ 0
bit_and-zero_below n zero h = refl
bit_and-zero_below zero (suc a) h = absurd (omega arith)
bit_and-zero_below (suc n) (suc a) h =
    omega (arith, bit_and_halves (suc a) 0, bit_and-zero_below n (suc a / 2) (omega arith))

-- Masking with one bit leaves that bit in its place.
pub bit_and-pow : (b w : ℕ) → bit_and w (2 ^ b) ≡ 2 ^ b * test_bit b w
bit_and-pow zero w =
    omega (arith, bit_and_halves w 1, bit_and-zero_below (w / 2) (w / 2) (omega arith))
bit_and-pow (suc b) w =
    let half : 2 ^ suc b / 2 ≡ 2 ^ b = omega (arith, pow-suc 2 b) in
    let masked : bit_and (w / 2) (2 ^ suc b / 2) ≡ 2 ^ b * test_bit b (w / 2) =
      rw half (bit_and-pow b (w / 2)) in
    omega (
      arith,
      masked,
      bit_and_halves w (2 ^ suc b),
      pow-suc 2 b,
      ap (λ (t : ℕ). t * test_bit b (w / 2)) (pow-suc 2 b),
    )

-- `(w & 1 << b) > 0` is the test of bit `b`.
pub ltb-bit_and : (b w : ℕ) → ltb 0 (bit_and w (2 ^ b)) ≡ test_bit b w == 1
ltb-bit_and b w = elim (small (test_bit b w) (test_bit-le-one b w)) [
  | inl e ↦ rw (bit_and-pow b w, e, mul-zero (2 ^ b))
  | inr e ↦ rw (bit_and-pow b w, e) (lt→ltb _ _ (omega (arith, one-le-pow b 2)))
]
  where
    small : (t : ℕ) → t ≤ 1 → (t ≡ 0) ⊎ (t ≡ 1)
    small t h = omega arith

-- Setting one bit, and clearing one bit of 32.
pub test_bit-or_pow :
    (k b w : ℕ) → test_bit k (bit_or w (2 ^ b)) ≡ (if b == k then 1 else test_bit k w)
test_bit-or_pow k b w = elim (ℕ_discrete b k) [
  | yes e ↦
      rw ((==_iff b k).1 e, ← e, test_bit-or, test_bit-pow_self)
        (omega (arith, test_bit-le-one b w))
  | no ne ↦ rw (==_ne b k ne, test_bit-or, test_bit-pow_ne k b (λ e. ne (sym e))) (omega arith)
]

pub test_bit-and_complement :
    (k b w : ℕ)
    → k < 32
    → b < 32
    → test_bit k (bit_and w (2 ^ 32 - 1 - 2 ^ b)) ≡ (if b == k then 0 else test_bit k w)
test_bit-and_complement k b w hk hb = elim (ℕ_discrete b k) [
  | yes e ↦
      rw
        (
          (==_iff b k).1 e,
          test_bit-and,
          test_bit-complement 32 k (2 ^ b) hk fits,
          e,
          test_bit-pow_self,
        )
        (omega arith)
  | no ne ↦
      rw
        (
          ==_ne b k ne,
          test_bit-and,
          test_bit-complement 32 k (2 ^ b) hk fits,
          test_bit-pow_ne k b (λ e. ne (sym e)),
        )
        (omega (arith, test_bit-le-one k w))
]
  where
    fits : 2 ^ b < 2 ^ 32
    fits = omega (arith, pow-le-pow_right {n = 2} (omega arith) {i = b} {j = 31} (omega arith))
