-- ===== src/NumMgr/Reference.antt =====
-- What a search for a free number should find: the first free one of a list of candidates.
use rinasensev.Prelude.{
  ℕ, zero, suc, ◌+◌, ◌-◌, ◌≤◌, ◌<◌, ◌≡◌, refl, ◌≢◌, ◌⊎◌, true, false, Option, none, some, List, [],
  ◌∷◌, ◌++◌, ◌==◌, Bool-cases, inl, inr, if◌then◌else◌, arith,
}
use rinasensev.NumMgr.{NumMgr, taken, is_allocated}

-- `k` numbers from `lo` on.
abbrev pub up_from : ℕ → ℕ → List ℕ
up_from lo zero = []
up_from lo (suc k) = lo ∷ up_from (lo + 1) k

-- The numbers behind the last one, then those from 1 up to it. The last number itself is left
-- out, except where it is 1: there the test of the loop comes before the wrap to 1.
abbrev pub candidates : NumMgr → List ℕ
candidates im =
    up_from (im.last_allocated + 1) (im.num_cnt - 1 - im.last_allocated)
    ++ up_from 1 (if im.last_allocated == 1 then 1 else im.last_allocated - 1)

abbrev pub first_free : NumMgr → List ℕ → Option ℕ
first_free im [] = none
first_free im (n ∷ ns) = if is_allocated im n then first_free im ns else some n

-- Hand out the number found, or go on.
abbrev pub hand_out : NumMgr → Option ℕ → Option (ℕ × NumMgr) → Option (ℕ × NumMgr)
hand_out im none other = other
hand_out im (some q) other = some (q, taken im q)

-- Going through a list and then another is going through both.
pub hand_out-append :
    (im : NumMgr) (ms ns : List ℕ) (other : Option (ℕ × NumMgr))
    → hand_out im (first_free im (ms ++ ns)) other
      ≡ hand_out im (first_free im ms) (hand_out im (first_free im ns) other)
hand_out-append im [] ns other = refl
hand_out-append im (m ∷ ms) ns other = elim (Bool-cases (is_allocated im m)) [
  | inl used ↦ rw used (hand_out-append im ms ns other)
  | inr free ↦ rw free
]

-- What is found is free.
pub first_free-free :
    (im : NumMgr) (ns : List ℕ) (n : ℕ) → first_free im ns ≡ some n → is_allocated im n ≡ false
first_free-free im [] n h = ground arith
first_free-free im (m ∷ ns) n h = ground (arith, first_free-free im ns n)

pub first_free-in_range :
    (im : NumMgr) (lo k n : ℕ) → first_free im (up_from lo k) ≡ some n → (lo ≤ n) × (n < lo + k)
first_free-in_range im lo zero n h = ground arith
first_free-in_range im lo (suc k) n h = ground (arith, first_free-in_range im (lo + 1) k n)

-- Nothing is found exactly when every candidate is taken.
pub first_free-none :
    (im : NumMgr) (lo k : ℕ)
    → ((n : ℕ) → lo ≤ n → n < lo + k → is_allocated im n ≡ true)
    → first_free im (up_from lo k) ≡ none
first_free-none im lo zero h = refl
first_free-none im lo (suc k) h = ground (
  arith,
  h lo (omega arith) (omega arith),
  first_free-none im (lo + 1) k (λ n p q. h n (omega arith) (omega arith)),
)

pub first_free-some :
    (im : NumMgr) (lo k n : ℕ)
    → lo ≤ n
    → n < lo + k
    → is_allocated im n ≡ false
    → (q : ℕ) × (first_free im (up_from lo k) ≡ some q)
first_free-some im lo zero n p q h = absurd (omega arith)
first_free-some im lo (suc k) n p q h = elim (Bool-cases (is_allocated im lo)) [
  | inr free ↦ (lo, rw free)
  | inl used ↦
      let ne : lo ≢ n = λ e. cc in
      let (m, found) = first_free-some im (lo + 1) k n (omega arith) (omega arith) h in
      (m, rw used found)
]

-- A search through two lists finds something when a search through either does.
pub first_free-append_left :
    (im : NumMgr) (ms ns : List ℕ) (q : ℕ)
    → first_free im ms ≡ some q
    → first_free im (ms ++ ns) ≡ some q
first_free-append_left im [] ns q h = cc
first_free-append_left im (m ∷ ms) ns q h = ground (arith, first_free-append_left im ms ns q)

pub first_free-append_right :
    (im : NumMgr) (ms ns : List ℕ) (r : ℕ)
    → first_free im ns ≡ some r
    → (q : ℕ) × (first_free im (ms ++ ns) ≡ some q)
first_free-append_right im [] ns r h = (r, h)
first_free-append_right im (m ∷ ms) ns r h = elim (Bool-cases (is_allocated im m)) [
  | inl used ↦ let (q, e) = first_free-append_right im ms ns r h in (q, rw used e)
  | inr free ↦ (m, rw free)
]

-- Where the number that such a search finds comes from.
pub first_free-append_cases :
    (im : NumMgr) (lo k : ℕ) (ns : List ℕ) (q : ℕ)
    → first_free im (up_from lo k ++ ns) ≡ some q
    → ((lo ≤ q) × (q < lo + k)) ⊎ (first_free im ns ≡ some q)
first_free-append_cases im lo zero ns q h = inr h
first_free-append_cases im lo (suc k) ns q h =
    ground (arith, first_free-append_cases im (lo + 1) k ns q)
