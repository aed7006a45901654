-- ===== src/NetBuffers.antt =====
-- components/Rina-manager/BufferManagement/BufferManagement.c: network buffers, a semaphore over a
-- pool of descriptors and a pool of storage.
pub mod Paired
use rinasensev.Prelude.{
  ℕ, zero, suc, ◌+◌, ◌-◌, ◌%◌, ◌^◌, Bool, true, false, ltb, ◌==◌, if◌then◌else◌, Option, none, some,
  bit_or,
}
use rinasensev.Rsrc
use rinasensev.Rsrc.{RsrcPool, init_pool, free_rsrc}

abbrev pub num_network_buffer_descriptors : ℕ
num_network_buffer_descriptors = 20

-- xNetworkBufferSemaphore, xNetworkBufferDescriptorPool and xNetworkBufferPool.
pub record NetBuffers : Type 0 where
  pub sem : ℕ
  pub descriptors : RsrcPool
  pub buffers : RsrcPool

-- A `NetworkBufferDescriptor_t` that is handed out: its resource and pucEthernetBuffer, `none` for
-- NULL.
pub record Handle : Type 0 where
  pub descriptor : ℕ
  pub storage : Option ℕ

-- xNetworkBuffersInitialise, where sem_init succeeds: `size` is sizeof(NetworkBufferDescriptor_t)
-- and `block` the address that the heap gives for the descriptors.
unfoldable pub initialise : (size : ℕ) → (block : ℕ) → NetBuffers
initialise size block = record {
  sem = num_network_buffer_descriptors;
  descriptors = init_pool size num_network_buffer_descriptors 0 0 block;
  buffers = init_pool 0 0 1 (num_network_buffer_descriptors + 1) 0;
}

-- The storage that is asked for: at least `minimal` bytes (baMINIMAL_BUFFER_SIZE), two more, and up
-- to a multiple of 4.
unfoldable pub request_size : (minimal size : ℕ) → ℕ
request_size minimal size =
    let wanted = ((if ltb size minimal then minimal else size) + 2) % 2 ^ 32 in
    if wanted % 4 == 0 then wanted else (bit_or wanted 3 + 1) % 2 ^ 32

-- vReleaseNetworkBufferAndDescriptor
unfoldable pub release : NetBuffers → Handle → NetBuffers
release nb h = record {
  sem = nb.sem + 1;
  descriptors = free_rsrc nb.descriptors h.descriptor;
  buffers = elim h.storage [ none ↦ nb.buffers | some s ↦ free_rsrc nb.buffers s ];
}

-- The end of pxGetNetworkBufferWithDescriptorFor on the answer of the pool of storage. A debug
-- build clears the storage before it tests the pointer.
unfoldable pub attach :
    (ndebug : Bool) → NetBuffers → ℕ → Option ℕ × RsrcPool → Option (Option Handle × NetBuffers)
unfolding release
attach ndebug nb d (some s, pool) =
    some (some (record { descriptor = d; storage = some s }), record nb { buffers = pool })
attach ndebug nb d (none, pool) =
    if ndebug
    then some
        (none, release (record nb { buffers = pool }) (record { descriptor = d; storage = none }))
    else none

-- The same on the answer of the pool of descriptors, which is written to untested.
unfoldable pub describe :
    (ndebug : Bool)
    → (minimal : ℕ) → NetBuffers
    → (size : ℕ) → (block : ℕ) → Option ℕ × RsrcPool
    → Option (Option Handle × NetBuffers)
unfolding attach request_size
describe ndebug minimal nb size block (none, pool) = none
describe ndebug minimal nb size block (some d, pool) =
    let nb' : NetBuffers = record { sem = nb.sem - 1; descriptors = pool; buffers = nb.buffers } in
    if size == 0
    then some (some (record { descriptor = d; storage = none }), nb')
    else attach ndebug nb' d (Rsrc.var_alloc nb.buffers (request_size minimal size) block)

-- pxGetNetworkBufferWithDescriptorFor, where the waiting time can be computed. `none`: a write
-- through NULL. `ndebug` says whether NDEBUG is defined; the two last arguments are the addresses
-- that the heap gives where it is asked; where it gives none, the program aborts.
unfoldable pub get :
    (ndebug : Bool)
    → (minimal : ℕ) → NetBuffers
    → (size : ℕ) → (descriptor_block block : ℕ) → Option (Option Handle × NetBuffers)
unfolding describe
get ndebug minimal nb size descriptor_block block =
    if nb.sem == 0
    then some (none, nb)
    else describe ndebug minimal nb size block (Rsrc.alloc nb.descriptors descriptor_block)
