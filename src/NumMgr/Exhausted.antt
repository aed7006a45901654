-- ===== src/NumMgr/Exhausted.antt =====
-- ulNumMgrAllocate as its callers see it: success, refusal, and the case in which it does not
-- return.
use native.Mathlib.Decide.{dec_lt, ℕ_discrete}
use rinasensev.Prelude.{
  ℕ, zero, suc, ◌+◌, ◌-◌, ◌^◌, ◌%◌, ◌≤◌, ◌<◌, ◌≡◌, refl, ◌≢◌, ◌∙◌, ap, true, false, none, some,
  ◌==◌, ==_ne, ==_iff, if◌then◌else◌, inl, inr, arith,
}
use rinasensev.NumMgr.{NumMgr, uint_max, scan, taken, allocate, is_allocated}
use rinasensev.NumMgr.Invariant.{IsValid, is_allocated-taken, taken-IsValid}
use rinasensev.NumMgr.Reference.{
  up_from, first_free, hand_out, hand_out-append, candidates, first_free-free, first_free-in_range,
  first_free-append_left, first_free-append_right, first_free-append_cases, first_free-none,
  first_free-some,
}
use rinasensev.NumMgr.Allocate.{
  allocate-candidates, allocate-candidates_one, allocate-candidates_zero,
}

-- What a successful allocation of `q` from `im` gives.
pub record Allocated (im : NumMgr) (q : ℕ) : Type 0 where
  pub returns : allocate im ≡ some (q, taken im q)
  pub positive : 0 < q
  pub in_range : q < im.num_cnt
  pub was_free : is_allocated im q ≡ false
  pub marks : (m : ℕ) → is_allocated (taken im q) m ≡ (if q == m then true else is_allocated im m)
  pub valid : IsValid (taken im q)

allocated :
    (im : NumMgr) (q : ℕ)
    → IsValid im
    → allocate im ≡ some (q, taken im q)
    → 0 < q
    → q < im.num_cnt
    → is_allocated im q ≡ false
    → Allocated im q
allocated im q v e pos lt free = record {
  returns = e;
  positive = pos;
  in_range = lt;
  was_free = free;
  marks = λ m. is_allocated-taken im q m v lt;
  valid = taken-IsValid im q v pos lt;
}

-- Nothing between the last number and the end, and nothing from 1 up to it, is free.
abbrev pub IsExhausted : NumMgr → Type 0
IsExhausted im = (n : ℕ) → 0 < n → n < im.num_cnt → n ≢ im.last_allocated → is_allocated im n ≡ true

-- The search through the candidates comes upon some number in range, if one of them is free.
found :
    (im : NumMgr) (n : ℕ)
    → IsValid im
    → 0 < im.last_allocated
    → 0 < n
    → n < im.num_cnt
    → n ≢ im.last_allocated
    → is_allocated im n ≡ false
    → (q : ℕ) × (first_free im (candidates im) ≡ some q)
found im n v one pos lt ne free = elim (dec_lt im.last_allocated n) [
  | yes behind ↦
      let (q, e) =
        first_free-some im (im.last_allocated + 1) (im.num_cnt - 1 - im.last_allocated) n
          (omega arith) (omega arith) free in
      (q, first_free-append_left im _ _ q e)
  | no before ↦
      let (r, e) =
        first_free-some im 1 (if im.last_allocated == 1 then 1 else im.last_allocated - 1) n
          (omega arith) (ground arith) free in
      first_free-append_right im _ _ r e
]

found_in_range :
    (im : NumMgr) (q : ℕ)
    → IsValid im
    → 0 < im.last_allocated
    → first_free im (candidates im) ≡ some q
    → (0 < q) × (q < im.num_cnt)
found_in_range im q v one e =
    elim (first_free-append_cases im (im.last_allocated + 1) (im.num_cnt - 1 - im.last_allocated)
      (up_from 1 (if im.last_allocated == 1 then 1 else im.last_allocated - 1)) q e) [
        | inl r ↦ omega arith
        | inr e' ↦ ground (
          arith,
          first_free-in_range im 1 (if im.last_allocated == 1 then 1 else im.last_allocated - 1) q
              e',
        )
      ]

allocate-found :
    (im : NumMgr) (q : ℕ)
    → IsValid im
    → 0 < im.last_allocated
    → first_free im (candidates im) ≡ some q
    → allocate im ≡ some (q, taken im q)
allocate-found im q v pos e = elim (ℕ_discrete im.last_allocated 1) [
  | yes one ↦ allocate-candidates_one im v one ∙ ap (λ o. hand_out im o (scan 2 im 2)) e
  | no more ↦
      allocate-candidates im v (omega arith) ∙ ap (λ o. hand_out im o (some (uint_max, im))) e
]

-- In a valid manager a free number that is in range, is not 0 and is not the last one handed out is
-- enough: ulNumMgrAllocate returns a number in range that was free, marks exactly that number, and
-- leaves a valid manager.
pub allocate_succeeds :
    (im : NumMgr) (n : ℕ)
    → IsValid im
    → 0 < n
    → n < im.num_cnt
    → n ≢ im.last_allocated
    → is_allocated im n ≡ false
    → (q : ℕ) × Allocated im q
allocate_succeeds im n v pos lt ne free = elim (dec_lt 0 im.last_allocated) [
  | no zero_last ↦ (
    1,
    allocated im 1 v (allocate-candidates_zero im v (omega arith)) (omega arith) (omega arith)
        (v.fresh (omega arith)),
  )
  | yes some_last ↦
      let (q, e) = found im n v some_last pos lt ne free in
      let r : (0 < q) × (q < im.num_cnt) = found_in_range im q v some_last e in
      (
        q,
        allocated im q v (allocate-found im q v some_last e) r.0 r.1
            (first_free-free im (candidates im) q e),
      )
]

-- In a valid manager, when every number but possibly the last one is taken and the last one is
-- above 1, the call returns UINT_MAX and changes nothing, also if the last number itself has been
-- released.
pub allocate_refuses :
    (im : NumMgr)
    → IsValid im
    → 1 < im.last_allocated
    → IsExhausted im
    → allocate im ≡ some (uint_max, im)
allocate_refuses im v h all = rw (
  allocate-candidates im v h,
  hand_out-append,
  first_free-none im (im.last_allocated + 1) (im.num_cnt - 1 - im.last_allocated) behind,
  ==_ne im.last_allocated 1 (omega arith),
  first_free-none im 1 (im.last_allocated - 1) before,
)
  where
    behind :
        (n : ℕ)
        → im.last_allocated + 1 ≤ n
        → n < im.last_allocated + 1 + (im.num_cnt - 1 - im.last_allocated)
        → is_allocated im n ≡ true
    behind n p q = all n (omega arith) (omega arith) (omega arith)

    before : (n : ℕ) → 1 ≤ n → n < 1 + (im.last_allocated - 1) → is_allocated im n ≡ true
    before n p q = all n (omega arith) (omega arith) (omega arith)

scan_forever :
    (fuel : ℕ) (im : NumMgr) (p : ℕ)
    → IsValid im
    → im.last_allocated ≡ 1
    → IsExhausted im
    → is_allocated im 1 ≡ true
    → 1 < p
    → p ≤ im.num_cnt
    → scan fuel im p ≡ none
unfolding scan is_allocated
scan_forever zero im p v h all one lo hi = refl
scan_forever (suc fuel) im p v h all one lo hi =
    rw (==_ne p im.last_allocated (omega arith)) (elim (ℕ_discrete p im.num_cnt) [
      | yes end ↦
          rw ((==_iff p im.num_cnt).1 end, one)
            (scan_forever fuel im 2 v h all one (omega arith) v.some_number)
      | no mid ↦
          let used : is_allocated im p ≡ true = all p (omega arith) (omega arith) (omega arith) in
          let wrap : (p + 1) % 2 ^ 32 ≡ p + 1 = omega arith in
          rw (==_ne p im.num_cnt mid, used, wrap)
            (scan_forever fuel im (p + 1) v h all one (omega arith) (omega arith))
    ])

-- In a valid manager, when every number is taken and the last one handed out is 1, the loop never
-- ends: no number of rounds brings a result.
pub allocate_diverges :
    (im : NumMgr) (fuel : ℕ)
    → IsValid im
    → im.last_allocated ≡ 1
    → IsExhausted im
    → is_allocated im 1 ≡ true
    → scan fuel im ((im.last_allocated + 1) % 2 ^ 32) ≡ none
allocate_diverges im fuel v h all one =
    let start : (im.last_allocated + 1) % 2 ^ 32 ≡ 2 = omega arith in
    rw start (scan_forever fuel im 2 v h all one (omega arith) v.some_number)
