-- ===== src/Tests/Pools.antt =====
-- Resource pools at concrete sizes.
use rinasensev.Prelude.{◌≡◌, refl, true, false, some, [], ◌∷◌, arith}
use rinasensev.Rsrc.{alloc, RsrcPool, init_pool, pop, is_refused, var_alloc, free_rsrc}
use rinasensev.NetBuffers.{NetBuffers, initialise, get}
use rinasensev.NetBuffers.Paired.{IsPaired, IsServed, get-IsServed}
use rinasensev.Rsrc.Limit.{IsCounted, var_alloc-IsCounted}
use rinasensev.Rsrc.Reuse.{var_alloc-free_rsrc}

-- Two resources of 8 bytes in use, none free, growth by two up to a limit of three.
abbrev two_used : RsrcPool
two_used = record {
  size_each = 8;
  increment = 2;
  free_on_free = false;
  max_num_res = 3;
  num_in_use = 2;
  num_free = 0;
  low_water = 0;
  hi_water = 2;
  total_allocs = 2;
  free = [];
}

-- The request makes the pool grow to four resources, one more than its limit.
grows_past_limit :
    ((var_alloc two_used 8 4096).0 ≡ some 4120)
    × ((var_alloc two_used 8 4096).1.num_in_use ≡ 3)
    × ((var_alloc two_used 8 4096).1.num_free ≡ 1)
unfolding var_alloc
grows_past_limit = (refl, refl, refl)

two_used-IsCounted : IsCounted 4 two_used
two_used-IsCounted = record { counted = refl; within = omega arith; word = omega arith }

var_alloc-IsCounted_example : IsCounted 4 (var_alloc two_used 8 4096).1
var_alloc-IsCounted_example =
    var_alloc-IsCounted 4 two_used 8 4096 (omega arith) (omega arith) two_used-IsCounted

-- Without a limit, with one resource free.
abbrev unlimited : RsrcPool
unlimited = record two_used { max_num_res = 0; num_free = 1; free = 200 ∷ [] }

var_alloc-free_rsrc_example :
    ((var_alloc (free_rsrc unlimited 100) 8 0).0 ≡ some 100)
    × ((var_alloc (free_rsrc unlimited 100) 8 0).1.free ≡ 200 ∷ [])
    × ((var_alloc (free_rsrc unlimited 100) 8 0).1.num_free ≡ 1)
    × ((var_alloc (free_rsrc unlimited 100) 8 0).1.num_in_use ≡ 2)
unfolding free_rsrc is_refused
var_alloc-free_rsrc_example =
    var_alloc-free_rsrc unlimited 100 8 0 refl (omega arith) (omega arith) (omega arith) refl

-- One descriptor is free, and storage comes from the heap.
abbrev one_left : NetBuffers
one_left = record {
  sem = 1;
  descriptors = unlimited;
  buffers = record two_used { size_each = 0; increment = 1; free_on_free = true; max_num_res = 21 };
}

one_left-IsPaired : IsPaired one_left
one_left-IsPaired = record { paired = refl; unlimited = refl; sized = omega arith; kept = refl }

initialised-IsPaired : IsPaired (initialise 40 4096)
unfolding initialise init_pool
initialised-IsPaired = record { paired = refl; unlimited = refl; sized = omega arith; kept = refl }

get-IsServed_example : IsServed one_left (get true 28 one_left 100 0 8192)
get-IsServed_example = get-IsServed 28 one_left 100 0 8192 one_left-IsPaired

-- The buffer that the request hands out: the free descriptor and fresh storage.
one_left_run :
    get true 28 one_left 100 0 8192
    ≡ some (
      some (record { descriptor = 200; storage = some 8192 }),
      record {
        sem = 0;
        descriptors = (pop unlimited).1;
        buffers = (var_alloc one_left.buffers 104 8192).1;
      },
    )
unfolding get pop var_alloc alloc
one_left_run = refl
