-- ===== src/Rsrc/Limit.antt =====
-- How many resources a pool can come to have, against the limit that it is given.
use rinasensev.Prelude.{
  ℕ, zero, suc, ◌+◌, ◌%◌, ◌^◌, ◌≤◌, ◌<◌, ◌≡◌, refl, ap, sym, subst, ◌∙◌, Bool, true, false, leb,
  ◌==◌, ==_ne, ◌&&◌, ◌||◌, if◌then◌else◌, none, List, [], ◌∷◌, length, arith, Bool-cases, inl, inr,
}
use rinasensev.Rsrc.{
  RsrcPool, push, push_block, add_to_pool, init_pool, pop, is_refused, refill, var_alloc, align_up,
  rsrc_size,
}

abbrev pub total : RsrcPool → ℕ
total pool = pool.num_in_use + pool.num_free

-- The counter of the free list is its length, and the counters are far from their 16 bits.
pub record IsCounted (bound : ℕ) (pool : RsrcPool) : Type 0 where
  pub counted : pool.num_free ≡ length pool.free
  pub within : total pool ≤ bound
  pub word : bound + pool.increment < 2 ^ 16

push_block-counts :
    (count size at : ℕ) (pool : RsrcPool)
    → pool.num_free ≡ length pool.free
    → pool.num_free + count < 2 ^ 16
    → ((push_block count size at pool).num_free ≡ pool.num_free + count)
      × (length (push_block count size at pool).free ≡ length pool.free + count)
      × ((push_block count size at pool).num_in_use ≡ pool.num_in_use)
      × ((push_block count size at pool).max_num_res ≡ pool.max_num_res)
      × ((push_block count size at pool).increment ≡ pool.increment)
unfolding push_block push
push_block-counts zero size at pool eq small = (omega arith, omega arith, refl, refl, refl)
push_block-counts (suc count) size at pool eq small =
    let fits : (pool.num_free + 1) % 2 ^ 16 ≡ pool.num_free + 1 = omega arith in
    let rest =
      push_block-counts count size (at + size) (push pool at) (fits ∙ omega (arith, eq))
        (omega (arith, fits)) in
    (omega (arith, rest.0, fits), omega (arith, rest.1), rest.2, rest.3, rest.4)

refused-at_limit :
    (pool : RsrcPool) (len : ℕ)
    → 0 < pool.max_num_res
    → pool.max_num_res ≤ total pool
    → is_refused pool len ≡ true
unfolding is_refused
refused-at_limit pool len some_max full = ground arith

-- The pool before its first resources are added.
abbrev bare : (size initial increment max : ℕ) → RsrcPool
bare size initial increment max = record {
  size_each = size;
  increment = increment;
  free_on_free = size == 0 || leb increment 1 && leb initial 1;
  max_num_res = max;
  num_in_use = 0;
  num_free = 0;
  low_water = initial % 2 ^ 16;
  hi_water = 0;
  total_allocs = 0;
  free = [];
}

init_pool-push_block :
    (size initial increment max at : ℕ)
    → 0 < initial
    → init_pool size initial increment max at
      ≡ push_block initial (align_up (rsrc_size + size)) at (bare size initial increment max)
unfolding init_pool add_to_pool
init_pool-push_block size initial increment max at pos =
    rw (==_ne initial 0 (λ e. omega (arith, e, pos)), add_to_pool) refl

var_alloc-refused :
    (pool : RsrcPool) (len : ℕ) (block : ℕ)
    → is_refused pool len ≡ true
    → (var_alloc pool len block).0 ≡ none
unfolding var_alloc
var_alloc-refused pool len block e = rw e refl

-- A pool that is created, for a positive number of resources that fits 16 bits, with that number as
-- its limit as well has all of them free and hands none of them out: every request is answered with
-- NULL.
pub init_pool-refuses :
    (size initial increment len at : ℕ) (block : ℕ)
    → 0 < initial
    → initial < 2 ^ 16
    → (length (init_pool size initial increment initial at).free ≡ initial)
      × ((var_alloc (init_pool size initial increment initial at) len block).0 ≡ none)
init_pool-refuses size initial increment len at block pos small =
    let start = bare size initial increment initial in
    let size' = align_up (rsrc_size + size) in
    let counts = push_block-counts initial size' at start refl (omega (arith, small)) in
    let full : is_refused (push_block initial size' at start) len ≡ true =
      refused-at_limit (push_block initial size' at start) len (omega (arith, counts.3, pos))
        (omega (arith, counts.0, counts.2, counts.3)) in
    rw (init_pool-push_block size initial increment initial at pos) (
      omega (arith, counts.1),
      var_alloc-refused (push_block initial size' at start) len block full,
    )

pop-empty : (pool : RsrcPool) → pool.free ≡ [] → pop pool ≡ (none, pool)
unfolding pop
pop-empty pool e = rw e refl

pop-IsCounted :
    (bound : ℕ) (pool : RsrcPool) (xs : List ℕ)
    → pool.free ≡ xs
    → IsCounted bound pool
    → IsCounted bound (pop pool).1
unfolding pop
pop-IsCounted bound pool [] e c = subst (λ r. IsCounted bound r.1) (sym (pop-empty pool e)) c
pop-IsCounted bound pool (r ∷ rest) e c =
    let one : pool.num_free ≡ suc (length rest) = c.counted ∙ ap length e in
    let inside : pool.num_in_use + pool.num_free ≤ bound = c.within in
    let small : bound + pool.increment < 2 ^ 16 = c.word in
    rw e (record {
      counted = omega (arith, one, inside, small);
      within = omega (arith, one, inside, small);
      word = small;
    })

if-IsCounted {ℓ} :
    {A : Type ℓ} (bound : ℕ) (b : Bool) (x y : A × RsrcPool)
    → IsCounted bound x.1
    → IsCounted bound y.1
    → IsCounted bound (if b then x else y).1
if-IsCounted bound true x y hx hy = hx
if-IsCounted bound false x y hx hy = hy

push_block-IsCounted :
    (bound count size at : ℕ) (pool : RsrcPool)
    → total pool + count ≤ bound
    → IsCounted bound pool
    → IsCounted bound (push_block count size at pool)
push_block-IsCounted bound count size at pool room c =
    let inside : pool.num_in_use + pool.num_free + count ≤ bound = room in
    let small : bound + pool.increment < 2 ^ 16 = c.word in
    let counts = push_block-counts count size at pool c.counted (omega (arith, inside, small)) in
    record {
      counted = omega (arith, counts.0, counts.1, c.counted);
      within = omega (arith, counts.0, counts.2, inside);
      word = omega (arith, counts.4, small);
    }

started-IsCounted :
    (bound count size at low : ℕ) (pool : RsrcPool) (b : Bool)
    → total pool + count ≤ bound
    → IsCounted bound pool
    → IsCounted bound
        (push_block count size at (if b then record pool { low_water = low } else pool))
started-IsCounted bound count size at low pool true room c =
    push_block-IsCounted bound count size at (record pool { low_water = low }) room
      (record { counted = c.counted; within = c.within; word = c.word })
started-IsCounted bound count size at low pool false room c =
    push_block-IsCounted bound count size at pool room c

-- Resources are added only where the limit leaves room for the increment.
add_to_pool-IsCounted :
    (bound : ℕ) (pool : RsrcPool) (size : ℕ) (block : ℕ)
    → total pool + pool.increment ≤ bound
    → IsCounted bound pool
    → IsCounted bound (add_to_pool pool pool.increment size block).1
unfolding add_to_pool
add_to_pool-IsCounted bound pool size at room c =
    let start : RsrcPool =
      if pool.num_in_use + pool.num_free == 0
      then record pool { low_water = pool.increment % 2 ^ 16 }
      else pool in
    let pushed : RsrcPool = push_block pool.increment size at start in
    let added : IsCounted bound pushed =
      started-IsCounted bound pool.increment size at (pool.increment % 2 ^ 16) pool
        (pool.num_in_use + pool.num_free == 0) room c in
    if-IsCounted bound (pool.increment == 0) (false, pool) (true, pushed) c added

refill-IsCounted :
    (bound : ℕ) (pool : RsrcPool) (len : ℕ) (block : ℕ) (xs : List ℕ)
    → total pool + pool.increment ≤ bound
    → IsCounted bound pool
    → IsCounted bound (refill xs pool len block).1
unfolding refill
refill-IsCounted bound pool len block (r ∷ rest) room c = c
refill-IsCounted bound pool len block [] room c =
    add_to_pool-IsCounted bound pool (align_up (rsrc_size + len)) block room c

not_refused-room :
    (pool : RsrcPool) (len : ℕ)
    → 0 < pool.max_num_res
    → is_refused pool len ≡ false
    → total pool < pool.max_num_res
unfolding is_refused
not_refused-room pool len some_max e = ground arith

-- The limit of a pool bounds its resources only up to the increment: where the pool has a limit,
-- the limit and the increment add up to at most one more than `bound`, and the counters stay within
-- 16 bits up to `bound`, a pool with counters up to `bound` has them up to `bound` after any
-- request, and its counter of free resources is the length of its free list.
pub var_alloc-IsCounted :
    (bound : ℕ) (pool : RsrcPool) (len : ℕ) (block : ℕ)
    → 0 < pool.max_num_res
    → pool.max_num_res + pool.increment ≤ suc bound
    → IsCounted bound pool
    → IsCounted bound (var_alloc pool len block).1
unfolding var_alloc
var_alloc-IsCounted bound pool len block some_max fits c = elim (Bool-cases (is_refused pool len)) [
  | inl e ↦ rw e c
  | inr e ↦
      let room : total pool < pool.max_num_res = not_refused-room pool len some_max e in
      let grown = refill-IsCounted bound pool len block pool.free (omega (arith, room, fits)) c in
      let next : RsrcPool = (refill pool.free pool len block).1 in
      let ready : Bool = (refill pool.free pool len block).0 in
      rw e (
        if-IsCounted bound ready (pop next) (none, next)
          (pop-IsCounted bound next next.free refl grown) grown)
]
