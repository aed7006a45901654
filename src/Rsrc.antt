-- ===== src/Rsrc.antt =====
-- components/Rina-manager/Common/rsrc.c: pools of resources with a free list.
pub mod Limit
pub mod Reuse
use rinasensev.Prelude.{
  ℕ, zero, suc, ◌+◌, ◌-◌, ◌%◌, ◌^◌, Bool, true, false, not, ltb, leb, ◌==◌, ◌&&◌, ◌||◌,
  if◌then◌else◌, Option, none, some, List, [], ◌∷◌,
}

-- `struct rsrcPool` without its name, helpers and links. A resource is the address of its
-- `struct rsrc`, and `free` is pxFreelist, the resource that is handed out next first.
pub record RsrcPool : Type 0 where
  pub size_each : ℕ
  pub increment : ℕ
  pub free_on_free : Bool
  pub max_num_res : ℕ
  pub num_in_use : ℕ
  pub num_free : ℕ
  pub low_water : ℕ
  pub hi_water : ℕ
  pub total_allocs : ℕ
  pub free : List ℕ

-- privuxRsrcAlignUp to the 4 bytes of size_t.
unfoldable pub align_up : ℕ → ℕ
align_up size = if size % 4 == 0 then size else size + (4 - size % 4)

-- sizeof(struct rsrc): two links, the pool and the name.
abbrev pub rsrc_size : ℕ
rsrc_size = 16

-- prvvFreeResTail. The counters have 16 bits.
unfoldable pub push : RsrcPool → ℕ → RsrcPool
push pool r = record pool { free = r ∷ pool.free; num_free = (pool.num_free + 1) % 2 ^ 16 }

-- The loop of prviRsrcAdd2Pool over `count` resources of `size` bytes from the address `at` on.
unfoldable pub push_block : (count : ℕ) → (size at : ℕ) → RsrcPool → RsrcPool
unfolding push
push_block zero size at pool = pool
push_block (suc count) size at pool = push_block count size (at + size) (push pool at)

-- prviRsrcAdd2Pool. `block` is the address that rsrcRES_ALLOC gives: where it gives none,
-- prviRsrcOOM aborts the program, since nothing sets vRsrcOOMfn, and there is no state after it.
-- The Boolean says whether resources were added.
unfoldable pub add_to_pool : RsrcPool → (count size : ℕ) → (block : ℕ) → Bool × RsrcPool
unfolding push_block
add_to_pool pool count size block = if count == 0 then (false, pool) else (
  true,
  push_block count size block (
      if pool.num_in_use + pool.num_free == 0
      then record pool { low_water = count % 2 ^ 16 }
      else pool),
)

-- prviRsrcInitPool
unfoldable pub init_pool : (size initial increment max : ℕ) → (block : ℕ) → RsrcPool
unfolding add_to_pool align_up
init_pool size initial increment max block =
    let pool : RsrcPool = record {
      size_each = size;
      increment = increment;
      free_on_free = size == 0 || leb increment 1 && leb initial 1;
      max_num_res = max;
      num_in_use = 0;
      num_free = 0;
      low_water = initial;
      hi_water = 0;
      total_allocs = 0;
      free = [];
    } in
    if initial == 0 then pool else (add_to_pool pool initial (align_up (rsrc_size + size)) block).1

-- The part of pxRsrcVarAlloc behind the growth of the free list.
unfoldable pub pop : RsrcPool → Option ℕ × RsrcPool
pop pool = elim pool.free [
  | [] ↦ (none, pool)
  | ◌∷◌ r rest ↦
      let free' = (pool.num_free + 2 ^ 16 - 1) % 2 ^ 16 in
      let used' = (pool.num_in_use + 1) % 2 ^ 16 in
      (
        some r,
        record pool {
          free = rest;
          num_free = free';
          low_water = if ltb free' pool.low_water then free' else pool.low_water;
          total_allocs = pool.total_allocs + 1;
          num_in_use = used';
          hi_water = if ltb pool.hi_water used' then used' else pool.hi_water;
        },
      )
]

-- The first condition of pxRsrcVarAlloc, for a pool and a requestor that are not NULL.
unfoldable pub is_refused : RsrcPool → (len : ℕ) → Bool
is_refused pool len =
    len == 0
    || not (pool.max_num_res == 0) && leb pool.max_num_res (pool.num_in_use + pool.num_free)
    || not (pool.size_each == 0) && not (len == pool.size_each)

-- The growth of an empty free list in pxRsrcVarAlloc; the first argument is the free list.
unfoldable pub refill : List ℕ → RsrcPool → (len : ℕ) → (block : ℕ) → Bool × RsrcPool
unfolding add_to_pool align_up
refill [] pool len block = add_to_pool pool pool.increment (align_up (rsrc_size + len)) block
refill (r ∷ rest) pool len block = (true, pool)

-- pxRsrcVarAlloc; `none` for NULL.
unfoldable pub var_alloc : RsrcPool → (len : ℕ) → (block : ℕ) → Option ℕ × RsrcPool
unfolding is_refused refill pop
var_alloc pool len block =
    let (ready, pool') = refill pool.free pool len block in
    if is_refused pool len then (none, pool) else (if ready then pop pool' else (none, pool'))

-- pxRsrcAlloc
unfoldable pub alloc : RsrcPool → (block : ℕ) → Option ℕ × RsrcPool
unfolding var_alloc
alloc pool block = var_alloc pool pool.size_each block

-- vRsrcFree of a resource of the pool that is in use: a free one makes it abort.
unfoldable pub free_rsrc : RsrcPool → ℕ → RsrcPool
unfolding push
free_rsrc pool r =
    let pool' : RsrcPool = record pool { num_in_use = (pool.num_in_use + 2 ^ 16 - 1) % 2 ^ 16 } in
    if pool.free_on_free then pool' else push pool' r
