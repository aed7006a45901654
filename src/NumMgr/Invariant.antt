-- ===== src/NumMgr/Invariant.antt =====
-- The well-formedness of a number manager of num_mgr.c, operation by operation.
use rinasensev.Prelude.{
  ℕ, ◌+◌, ◌%◌, ◌^◌, ◌≤◌, ◌<◌, ◌≡◌, refl, sym, true, false, none, some, ◌==◌, lt→ltb, ==_ne,
  replicate, ◌/◌, Bool-cases, inl, inr, if◌then◌else◌, arith,
}
use rinasensev.BitArray.{bits_per_unit, alloc, clear_bit}
use rinasensev.BitArray.Laws.{
  IsSized, get_bit-set_bit, get_bit-clear_bit, get_bit-alloc, set_bit-IsSized, clear_bit-IsSized,
  nbbits-set_bit, nbbits-clear_bit,
}
use rinasensev.NumMgr.{NumMgr, uint_max, create, taken, release, is_allocated}

pub record IsValid (im : NumMgr) : Type 0 where
  pub sized : IsSized im.ba
  pub bits : im.ba.nbbits ≡ im.num_cnt
  pub some_number : 2 ≤ im.num_cnt
  pub word : im.num_cnt < 2 ^ 32
  pub last_in : im.last_allocated < im.num_cnt
  -- Number 0 is never handed out, and nothing is before the first allocation.
  pub no_zero : is_allocated im 0 ≡ false
  pub fresh : im.last_allocated ≡ 0 → is_allocated im 1 ≡ false

-- Handing out `p` makes exactly `p` allocated besides.
pub is_allocated-taken :
    (im : NumMgr) (p m : ℕ)
    → IsValid im
    → p < im.num_cnt
    → is_allocated (taken im p) m ≡ (if p == m then true else is_allocated im m)
unfolding is_allocated taken
is_allocated-taken im p m v h =
    rw (get_bit-set_bit im.ba p m v.sized, v.bits, lt→ltb p im.num_cnt h)

pub taken-IsValid :
    (im : NumMgr) (p : ℕ) → IsValid im → 0 < p → p < im.num_cnt → IsValid (taken im p)
unfolding taken
taken-IsValid im p v pos h = record {
  sized = set_bit-IsSized im.ba p v.sized;
  bits = rw (nbbits-set_bit im.ba p) v.bits;
  some_number = v.some_number;
  word = v.word;
  last_in = h;
  no_zero = ground (arith, is_allocated-taken im p 0 v h, v.no_zero);
  fresh = ground arith;
}

abbrev cleared : NumMgr → ℕ → NumMgr
cleared im n = record im { ba = clear_bit im.ba n }

is_allocated-cleared :
    (im : NumMgr) (n m : ℕ)
    → IsValid im
    → is_allocated (cleared im n) m ≡ (if n == m then false else is_allocated im m)
unfolding is_allocated
is_allocated-cleared im n m v = get_bit-clear_bit im.ba n m v.sized

cleared-IsValid : (im : NumMgr) (n : ℕ) → IsValid im → IsValid (cleared im n)
cleared-IsValid im n v = record {
  sized = clear_bit-IsSized im.ba n v.sized;
  bits = rw (nbbits-clear_bit im.ba n) v.bits;
  some_number = v.some_number;
  word = v.word;
  last_in = v.last_in;
  no_zero = ground (arith, is_allocated-cleared im n 0 v, v.no_zero);
  fresh = λ e. ground (arith, is_allocated-cleared im n 1 v, v.fresh e);
}

release-cleared :
    (im : NumMgr) (n : ℕ) → is_allocated im n ≡ true → release im n ≡ (true, cleared im n)
unfolding release is_allocated
release-cleared im n h = rw h

release-same : (im : NumMgr) (n : ℕ) → is_allocated im n ≡ false → release im n ≡ (false, im)
unfolding release is_allocated
release-same im n h = rw h

-- xNumMgrRelease on a valid manager: it reports whether the number was allocated, frees exactly
-- that number, and keeps a valid manager valid.
pub release_lem :
    (im : NumMgr) (n : ℕ)
    → IsValid im
    → ((release im n).0 ≡ is_allocated im n)
      × ((m : ℕ) → is_allocated (release im n).1 m ≡ (if n == m then false else is_allocated im m))
      × IsValid (release im n).1
release_lem im n v = elim (Bool-cases (is_allocated im n)) [
  | inl e ↦
      rw (release-cleared im n e)
        (sym e, λ m. is_allocated-cleared im n m v, cleared-IsValid im n v)
  | inr e ↦ rw (release-same im n e) (sym e, λ m. ground arith, v)
]

-- What pxNumMgrCreate builds.
abbrev fresh_mgr : ℕ → NumMgr
fresh_mgr count =
    let cnt = (count + 1) % 2 ^ 32 in
    record {
      num_cnt = cnt;
      last_allocated = 0;
      ba = record { nbbits = cnt % 2 ^ 32; units = replicate (cnt % 2 ^ 32 / bits_per_unit + 1) 0 };
    }

create-fresh_mgr : (count : ℕ) → count < uint_max → create true true count ≡ some (fresh_mgr count)
unfolding create alloc
create-fresh_mgr count lt = rw (==_ne count uint_max (omega arith))

is_allocated-fresh_mgr : (count n : ℕ) → is_allocated (fresh_mgr count) n ≡ false
unfolding is_allocated alloc
is_allocated-fresh_mgr count n =
    (get_bit-alloc ((count + 1) % 2 ^ 32) n {ba = (fresh_mgr count).ba} refl).2

fresh_mgr-IsValid : (count : ℕ) → 0 < count → count < uint_max → IsValid (fresh_mgr count)
unfolding alloc
fresh_mgr-IsValid count pos lt = record {
  sized = (get_bit-alloc ((count + 1) % 2 ^ 32) 0 {ba = (fresh_mgr count).ba} refl).0;
  bits = omega arith;
  some_number = omega arith;
  word = omega arith;
  last_in = omega arith;
  no_zero = is_allocated-fresh_mgr count 0;
  fresh = λ e. is_allocated-fresh_mgr count 1;
}

-- pxNumMgrCreate with memory at hand: for `count` numbers below UINT_MAX, a valid manager of the
-- numbers 1 to `count` with all of them free; for UINT_MAX, NULL.
pub create_lem :
    (count : ℕ)
    → 0 < count
    → (count < uint_max
        → (im : NumMgr) × (create true true count ≡ some im)
          × (im.num_cnt ≡ count + 1)
          × IsValid im
          × ((n : ℕ) → is_allocated im n ≡ false))
      × (create true true uint_max ≡ none)
unfolding create
create_lem count pos = (
  λ lt. (
    fresh_mgr count,
    create-fresh_mgr count lt,
    omega arith,
    fresh_mgr-IsValid count pos lt,
    is_allocated-fresh_mgr count,
  ),
  refl,
)
