-- ===== src/NumMgr.antt =====
-- components/Rina-manager/Common/num_mgr.c: the allocator of port ids and connection-endpoint ids.
-- Numbers run from 1; the search for a free one starts behind the last number handed out.
pub mod Reference
pub mod Invariant
pub mod Allocate
pub mod Exhausted
mod Tests
use rinasensev.Prelude.{
  ℕ, zero, suc, ◌+◌, ◌-◌, ◌^◌, ◌%◌, Bool, true, false, Option, none, some, ◌==◌, if◌then◌else◌,
}
use rinasensev.BitArray
use rinasensev.BitArray.{BitArray, alloc, set_bit, clear_bit, get_bit}

-- `NumMgr_t`
pub record NumMgr : Type 0 where
  pub num_cnt : ℕ
  pub last_allocated : ℕ
  pub ba : BitArray

abbrev pub uint_max : ℕ
uint_max = 2 ^ 32 - 1

-- xNumMgrInit over a zeroed struct: `none` stands for `false`. `size_t` has 32 bits.
unfoldable pub init : Bool → ℕ → Option NumMgr
init has_memory count = elim (alloc has_memory ((count + 1) % 2 ^ 32)) [
  | none ↦ none
  | some ba ↦ some (record { num_cnt = (count + 1) % 2 ^ 32; last_allocated = 0; ba = ba })
]

-- pxNumMgrCreate; the two Booleans say whether each pvRsMemAlloc returns a block.
unfoldable pub create : Bool → Bool → ℕ → Option NumMgr
unfolding init
create has_struct has_bits count =
    if count == uint_max then none else (if has_struct then init has_bits count else none)

-- What the loop does on finding `p` free: the two writes before `break`.
unfoldable pub taken : NumMgr → ℕ → NumMgr
taken im p = record im { ba = set_bit im.ba p; last_allocated = p }

-- The `for (;; p++)` of ulNumMgrAllocate, from `p` on. `none`: the fuel ran out.
unfoldable pub scan : ℕ → NumMgr → ℕ → Option (ℕ × NumMgr)
scan zero im p = none
scan (suc fuel) im p =
    let q = if p == im.num_cnt then 1 else p in
    let next = scan fuel im ((q + 1) % 2 ^ 32) in
    if p == im.last_allocated
    then some (uint_max, im)
    else (if get_bit im.ba q then next else some (q, taken im q))

unfoldable pub allocate : NumMgr → Option (ℕ × NumMgr)
allocate im = scan (im.num_cnt + 1) im ((im.last_allocated + 1) % 2 ^ 32)

unfoldable pub release : NumMgr → ℕ → Bool × NumMgr
release im n = if get_bit im.ba n then (true, record im { ba = clear_bit im.ba n }) else (false, im)

unfoldable pub is_allocated : NumMgr → ℕ → Bool
is_allocated im n = get_bit im.ba n
