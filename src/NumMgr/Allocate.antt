-- ===== src/NumMgr/Allocate.antt =====
-- ulNumMgrAllocate finds the first free candidate, and gives up only when there is none.
use rinasensev.Prelude.{
  ℕ, zero, suc, ◌+◌, ◌-◌, ◌%◌, ◌^◌, ◌≤◌, ◌<◌, ◌≡◌, ◌∙◌, sym, ap, ◌≢◌, ◌⊎◌, some, ==_refl, ==_ne,
  ==_iff, [], ◌∷◌, Bool-cases, inl, inr, if◌then◌else◌, arith,
}
use rinasensev.NumMgr.{NumMgr, uint_max, scan, taken, allocate, is_allocated}
use rinasensev.NumMgr.Invariant.{IsValid}
use rinasensev.NumMgr.Reference.{up_from, first_free, hand_out-append, hand_out, candidates}

-- One round at a number that is neither the last one nor the end.
scan_step :
    (f : ℕ) (im : NumMgr) (p : ℕ)
    → p ≢ im.last_allocated
    → p < im.num_cnt
    → im.num_cnt < 2 ^ 32
    → scan (suc f) im p ≡ (if is_allocated im p then scan f im (p + 1) else some (p, taken im p))
unfolding scan is_allocated
scan_step f im p ne lt word =
    let wrap : (p + 1) % 2 ^ 32 ≡ p + 1 = omega arith in
    rw (==_ne p im.last_allocated ne, ==_ne p im.num_cnt (omega arith), wrap)

-- Rounds over `k` numbers in a row, none of which is the last one.
scan_run :
    (k f : ℕ) (im : NumMgr) (p : ℕ)
    → ((im.last_allocated < p) ⊎ (p + k ≤ im.last_allocated))
    → p + k ≤ im.num_cnt
    → im.num_cnt < 2 ^ 32
    → scan (k + f) im p ≡ hand_out im (first_free im (up_from p k)) (scan f im (p + k))
scan_run zero f im p out fits word =
    let none_left : 0 + f ≡ f = omega arith in
    let still : p + 0 ≡ p = omega arith in rw (none_left, still)
scan_run (suc k) f im p out fits word =
    let one_more : suc k + f ≡ suc (k + f) = omega arith in
    let moved : p + suc k ≡ p + 1 + k = omega arith in
    rw (one_more, moved, scan_step (k + f) im p (omega arith) (omega arith) word)
      (elim (Bool-cases (is_allocated im p)) [
        | inl used ↦ rw used (scan_run k f im (p + 1) (omega arith) (omega arith) word)
        | inr free ↦ rw free
      ])

-- The round at the end of the numbers goes on at 1.
pub scan_wrap :
    (f : ℕ) (im : NumMgr)
    → IsValid im
    → scan (suc f) im im.num_cnt ≡ (if is_allocated im 1 then scan f im 2 else some (1, taken im 1))
unfolding scan is_allocated
scan_wrap f im v = rw (==_ne im.num_cnt im.last_allocated (omega arith), ==_refl im.num_cnt)

-- From the start of ulNumMgrAllocate to the end of the numbers.
allocate_first :
    (im : NumMgr)
    → IsValid im
    → allocate im
      ≡ hand_out im
          (first_free im (up_from (im.last_allocated + 1) (im.num_cnt - 1 - im.last_allocated)))
          (scan (suc (im.last_allocated + 1)) im im.num_cnt)
unfolding allocate
allocate_first im v =
    let start : (im.last_allocated + 1) % 2 ^ 32 ≡ im.last_allocated + 1 = omega arith in
    let fuel : im.num_cnt + 1 ≡ im.num_cnt - 1 - im.last_allocated + suc (im.last_allocated + 1) =
      omega arith in
    let end : im.last_allocated + 1 + (im.num_cnt - 1 - im.last_allocated) ≡ im.num_cnt =
      omega arith in
    rw (start, fuel)
      (rw end at (
        scan_run (im.num_cnt - 1 - im.last_allocated) (suc (im.last_allocated + 1)) im
          (im.last_allocated + 1) (omega arith) (omega arith) v.word))

scan_last : (f : ℕ) (im : NumMgr) → scan (suc f) im im.last_allocated ≡ some (uint_max, im)
unfolding scan
scan_last f im = rw (==_refl im.last_allocated)

-- The second part of the search, behind the wrap, where the last number is not 1.
allocate_second :
    (im : NumMgr)
    → IsValid im
    → 1 < im.last_allocated
    → scan (suc (im.last_allocated + 1)) im im.num_cnt
      ≡ hand_out im (first_free im (up_from 1 (im.last_allocated - 1))) (some (uint_max, im))
allocate_second im v h =
    let fuel : suc (im.last_allocated + 1) ≡ im.last_allocated - 1 + 3 = omega arith in
    let end : 1 + (im.last_allocated - 1) ≡ im.last_allocated = omega arith in
    scan_wrap (im.last_allocated + 1) im v
    ∙ sym (scan_step (im.last_allocated + 1) im 1 (omega arith) (omega arith) v.word)
    ∙ rw fuel (
        rw (end, scan_last 2 im) at
          (scan_run (im.last_allocated - 1) 3 im 1 (omega arith) (omega arith) v.word))

-- The search in one equation, for a last number above 1.
pub allocate-candidates :
    (im : NumMgr)
    → IsValid im
    → 1 < im.last_allocated
    → allocate im ≡ hand_out im (first_free im (candidates im)) (some (uint_max, im))
allocate-candidates im v h =
    rw (==_ne im.last_allocated 1 (omega arith), hand_out-append)
      (allocate_first im v ∙ ap (hand_out im _) (allocate_second im v h))

-- And for the last number 1, where what follows the candidates is a second pass from 2 on.
pub allocate-candidates_one :
    (im : NumMgr)
    → IsValid im
    → im.last_allocated ≡ 1
    → allocate im ≡ hand_out im (first_free im (candidates im)) (scan 2 im 2)
allocate-candidates_one im v h =
    let two : im.last_allocated + 1 ≡ 2 = omega arith in
    rw ((==_iff im.last_allocated 1).1 h, hand_out-append)
      (allocate_first im v
        ∙ ap (hand_out im _) (ap (λ f. scan (suc f) im im.num_cnt) two ∙ scan_wrap 2 im v ∙ at_one))
  where
    at_one :
        (if is_allocated im 1 then scan 2 im 2 else some (1, taken im 1))
        ≡ hand_out im (first_free im (1 ∷ [])) (scan 2 im 2)
    at_one = elim (Bool-cases (is_allocated im 1)) [ inl e ↦ rw e | inr e ↦ rw e ]

-- Before the first allocation the number found is 1.
pub allocate-candidates_zero :
    (im : NumMgr) → IsValid im → im.last_allocated ≡ 0 → allocate im ≡ some (1, taken im 1)
allocate-candidates_zero im v h =
    let first : im.last_allocated + 1 ≡ 1 = omega arith in
    let more : im.num_cnt - 1 - im.last_allocated ≡ suc (im.num_cnt - 2) = omega arith in
    rw (allocate_first im v, first, more, v.fresh h)
