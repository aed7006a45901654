-- ===== src/NumMgr/Tests.antt =====
-- The run of test/test_num_mgr.c, and each theorem at a concrete manager.
use rinasensev.Prelude.{
  ℕ, zero, suc, ◌≡◌, refl, true, false, none, some, [], ◌∷◌, arith, if◌then◌else◌, ◌==◌,
}
use rinasensev.BitArray.{BitArray, alloc, set_bit, clear_bit, get_bit}
use rinasensev.NumMgr.{NumMgr, uint_max, create, scan, taken, allocate, release, is_allocated}
use rinasensev.NumMgr.Invariant.{IsValid, release_lem}
use rinasensev.NumMgr.Exhausted.{Allocated, IsExhausted, allocate_succeeds, allocate_diverges}

-- Numbers 1 to 3 with the bits of `word` and the last number `last`.
abbrev three : ℕ → ℕ → NumMgr
three word last = record {
  num_cnt = 4;
  last_allocated = last;
  ba = record { nbbits = 4; units = word ∷ [] };
}

three_run : create true true 3 ≡ some (three 0 0)
unfolding create alloc
three_run = refl

full_run : allocate (three 0b1110 3) ≡ some (uint_max, three 0b1110 3)
unfolding allocate scan get_bit
full_run = refl

again_run : allocate (release (three 0b1110 3) 2).1 ≡ some (2, three 0b1110 2)
unfolding allocate scan get_bit release clear_bit taken set_bit
again_run = refl

three-IsValid : IsValid (three 0b1110 3)
unfolding is_allocated get_bit
three-IsValid = record {
  sized = refl;
  bits = refl;
  some_number = omega arith;
  word = omega arith;
  last_in = omega arith;
  no_zero = refl;
  fresh = λ e. absurd (omega arith);
}

-- The third number is the last one, and has been released.
abbrev third_free : NumMgr
third_free = three 0b0110 3

-- All three are taken, and the last one handed out is 1.
abbrev stuck : NumMgr
stuck = three 0b1110 1

third_free-IsValid : IsValid third_free
unfolding is_allocated get_bit
third_free-IsValid = record {
  sized = refl;
  bits = refl;
  some_number = omega arith;
  word = omega arith;
  last_in = omega arith;
  no_zero = refl;
  fresh = λ e. absurd (omega arith);
}

stuck-IsValid : IsValid stuck
unfolding is_allocated get_bit
stuck-IsValid = record {
  sized = refl;
  bits = refl;
  some_number = omega arith;
  word = omega arith;
  last_in = omega arith;
  no_zero = refl;
  fresh = λ e. absurd (omega arith);
}

third_free-IsExhausted : IsExhausted third_free
unfolding is_allocated get_bit
third_free-IsExhausted (suc zero) pos lt ne = refl
third_free-IsExhausted (suc (suc zero)) pos lt ne = refl
third_free-IsExhausted zero pos lt ne = absurd (omega arith)
third_free-IsExhausted (suc (suc (suc n))) pos lt ne = absurd (omega arith)

stuck-IsExhausted : IsExhausted stuck
unfolding is_allocated get_bit
stuck-IsExhausted (suc zero) pos lt ne = refl
stuck-IsExhausted (suc (suc zero)) pos lt ne = refl
stuck-IsExhausted (suc (suc (suc zero))) pos lt ne = refl
stuck-IsExhausted zero pos lt ne = absurd (omega arith)
stuck-IsExhausted (suc (suc (suc (suc n)))) pos lt ne = absurd (omega arith)

allocate_succeeds_example : (q : ℕ) × Allocated (three 0b1010 3) q
unfolding is_allocated get_bit
allocate_succeeds_example =
    allocate_succeeds (three 0b1010 3) 2
      (record {
        sized = refl;
        bits = refl;
        some_number = omega arith;
        word = omega arith;
        last_in = omega arith;
        no_zero = refl;
        fresh = λ e. absurd (omega arith);
      })
      (omega arith) (omega arith) (omega arith) refl

allocate_diverges_example : scan 1000 stuck 2 ≡ none
unfolding is_allocated get_bit
allocate_diverges_example = allocate_diverges stuck 1000 stuck-IsValid refl stuck-IsExhausted refl

release_lem_example :
    ((release (three 0b1110 3) 2).0 ≡ is_allocated (three 0b1110 3) 2)
    × ((m : ℕ)
        → is_allocated (release (three 0b1110 3) 2).1 m
          ≡ (if 2 == m then false else is_allocated (three 0b1110 3) m))
    × IsValid (release (three 0b1110 3) 2).1
release_lem_example = release_lem (three 0b1110 3) 2 three-IsValid

abbrev forty : BitArray
forty = record { nbbits = 40; units = 0 ∷ 0b1000 ∷ [] }
