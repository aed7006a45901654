-- ===== src/Rsrc/Reuse.antt =====
-- vRsrcFree of rsrc.c and the request that follows it.
use rinasensev.Prelude.{ℕ, ◌+◌, ◌-◌, ◌%◌, ◌^◌, ◌<◌, ◌≡◌, refl, false, some, arith}
use rinasensev.Rsrc.{RsrcPool, push, pop, is_refused, refill, var_alloc, free_rsrc}

-- A resource of a pool with a free list, with some in use, that is given back is handed out by the
-- next request, unless that is refused for the limit or its size, and the free list and both
-- counters are again what they were. The counters fit 16 bits.
pub var_alloc-free_rsrc :
    (pool : RsrcPool) (r len : ℕ) (block : ℕ)
    → pool.free_on_free ≡ false
    → 0 < pool.num_in_use
    → pool.num_in_use < 2 ^ 16
    → pool.num_free + 1 < 2 ^ 16
    → is_refused (free_rsrc pool r) len ≡ false
    → ((var_alloc (free_rsrc pool r) len block).0 ≡ some r)
      × ((var_alloc (free_rsrc pool r) len block).1.free ≡ pool.free)
      × ((var_alloc (free_rsrc pool r) len block).1.num_free ≡ pool.num_free)
      × ((var_alloc (free_rsrc pool r) len block).1.num_in_use ≡ pool.num_in_use)
unfolding var_alloc free_rsrc push refill pop
var_alloc-free_rsrc pool r len block keeps used small small' ok =
    let eq : free_rsrc pool r
        ≡ push (record pool { num_in_use = (pool.num_in_use + 2 ^ 16 - 1) % 2 ^ 16 }) r =
      rw keeps refl in
    rw (ok, eq) (refl, refl, omega arith, omega arith)
