-- ===== src/NetBuffers/Paired.antt =====
-- The semaphore of BufferManagement.c against its pool of descriptors.
use rinasensev.Prelude.{
  ℕ, suc, ◌+◌, ◌-◌, ◌%◌, ◌^◌, ◌<◌, ◌≡◌, ◌≢◌, refl, ap, sym, subst, ◌∙◌, Bool, true, false, ◌==◌,
  if◌then◌else◌, Option, none, some, List, [], ◌∷◌, length, arith, Bool-cases, inl, inr,
}
use rinasensev.Rsrc
use rinasensev.Rsrc.{RsrcPool, push, pop, refill, is_refused, var_alloc, free_rsrc, init_pool}
use rinasensev.NetBuffers.{NetBuffers, Handle, release, attach, describe, get, request_size}

-- The pool of descriptors has a free list, as long as the semaphore counts, and no limit.
pub record IsPaired (nb : NetBuffers) : Type 0 where
  pub paired : nb.sem ≡ length nb.descriptors.free
  pub unlimited : nb.descriptors.max_num_res ≡ 0
  pub sized : 0 < nb.descriptors.size_each
  pub kept : nb.descriptors.free_on_free ≡ false

-- What a request does: it returns, and either counts one buffer less or leaves the count.
abbrev pub IsServed : NetBuffers → Option (Option Handle × NetBuffers) → Type 0
IsServed nb none = ⊥
IsServed nb (some (none, nb')) = IsPaired nb' × (nb'.sem ≡ nb.sem)
IsServed nb (some (some h, nb')) = IsPaired nb' × (nb.sem ≡ suc nb'.sem)

unlimited-not_refused :
    (pool : RsrcPool)
    → pool.max_num_res ≡ 0
    → 0 < pool.size_each
    → is_refused pool pool.size_each ≡ false
unfolding is_refused
unlimited-not_refused pool unlimited sized = ground arith

-- The parts of a pool that IsPaired speaks of, with `n` resources free.
abbrev HasFree : ℕ → RsrcPool → RsrcPool → Type 0
HasFree n pool pool' =
    (length pool'.free ≡ n)
    × (pool'.max_num_res ≡ pool.max_num_res)
    × (pool'.size_each ≡ pool.size_each)
    × (pool'.free_on_free ≡ pool.free_on_free)

free_rsrc-HasFree :
    (pool : RsrcPool) (r : ℕ)
    → pool.free_on_free ≡ false
    → HasFree (suc (length pool.free)) pool (free_rsrc pool r)
unfolding free_rsrc push
free_rsrc-HasFree pool r keeps =
    let eq : free_rsrc pool r
        ≡ push (record pool { num_in_use = (pool.num_in_use + 2 ^ 16 - 1) % 2 ^ 16 }) r =
      rw keeps refl in
    subst (HasFree (suc (length pool.free)) pool) (sym eq) (refl, refl, refl, refl)

pop-HasFree :
    (pool : RsrcPool) (r : ℕ) (rest : List ℕ)
    → pool.free ≡ r ∷ rest
    → ((pop pool).0 ≡ some r) × HasFree (length rest) pool (pop pool).1
unfolding pop
pop-HasFree pool r rest e = rw e (refl, (refl, refl, refl, refl))

alloc-pop :
    (pool : RsrcPool) (r : ℕ) (rest : List ℕ) (block : ℕ)
    → is_refused pool pool.size_each ≡ false
    → pool.free ≡ r ∷ rest
    → Rsrc.alloc pool block ≡ pop pool
unfolding Rsrc.alloc var_alloc refill
alloc-pop pool r rest block ok e = rw ok (
    ap (λ g. if g.0 then pop g.1 else (none, g.1))
      (ap (λ xs. refill xs pool pool.size_each block) e))

-- A pool with the parts of the descriptor pool, and a semaphore that counts its free resources.
IsPaired-of :
    (nb nb' : NetBuffers)
    → IsPaired nb
    → HasFree nb'.sem nb.descriptors nb'.descriptors
    → IsPaired nb'
IsPaired-of nb nb' c h = record {
  paired = sym (h.0);
  unlimited = h.1 ∙ c.unlimited;
  sized = subst (λ n. 0 < n) (sym (h.2)) c.sized;
  kept = h.3 ∙ c.kept;
}

-- A buffer that is given back is counted, and the semaphore still counts the free descriptors.
pub release-IsPaired :
    (nb : NetBuffers) (h : Handle)
    → IsPaired nb
    → IsPaired (release nb h) × ((release nb h).sem ≡ suc nb.sem)
unfolding release
release-IsPaired nb h c =
    let freed = free_rsrc-HasFree nb.descriptors h.descriptor c.kept in
    (
      IsPaired-of nb (release nb h) c (omega (arith, freed.0, c.paired), freed.1, freed.2, freed.3),
      omega arith,
    )

attach-IsServed :
    (nb nb' : NetBuffers) (d : ℕ) (storage : Option ℕ × RsrcPool)
    → IsPaired nb'
    → nb.sem ≡ suc nb'.sem
    → IsServed nb (attach true nb' d storage)
unfolding attach release
attach-IsServed nb nb' d (some s, pool) c less =
    (record { paired = c.paired; unlimited = c.unlimited; sized = c.sized; kept = c.kept }, less)
attach-IsServed nb nb' d (none, pool) c less =
    let given_back =
      release-IsPaired (record nb' { buffers = pool }) (record { descriptor = d; storage = none })
        (record { paired = c.paired; unlimited = c.unlimited; sized = c.sized; kept = c.kept }) in
    (given_back.0, given_back.1 ∙ sym less)

if-IsServed :
    (nb : NetBuffers) (b : Bool) (x y : Option (Option Handle × NetBuffers))
    → IsServed nb x
    → IsServed nb y
    → IsServed nb (if b then x else y)
if-IsServed nb true x y hx hy = hx
if-IsServed nb false x y hx hy = hy

describe-IsServed :
    (minimal : ℕ) (nb : NetBuffers) (size r : ℕ) (rest : List ℕ) (block : ℕ)
    → IsPaired nb
    → nb.descriptors.free ≡ r ∷ rest
    → IsServed nb (describe true minimal nb size block (pop nb.descriptors))
unfolding describe
describe-IsServed minimal nb size r rest block c e =
    let popped = pop-HasFree nb.descriptors r rest e in
    let nb' : NetBuffers = record {
      sem = nb.sem - 1;
      descriptors = (pop nb.descriptors).1;
      buffers = nb.buffers;
    } in
    let one : nb.sem ≡ suc (length rest) = c.paired ∙ ap length e in
    let c' : IsPaired nb' =
      IsPaired-of nb nb' c (omega (arith, one, popped.1.0), popped.1.1, popped.1.2, popped.1.3) in
    let less : nb.sem ≡ suc nb'.sem = omega (arith, one) in
    let pair : pop nb.descriptors ≡ (some r, (pop nb.descriptors).1) =
      ap (λ x. (x, (pop nb.descriptors).1)) popped.0 in
    subst (λ q. IsServed nb (describe true minimal nb size block q)) (sym pair)
      (if-IsServed nb (size == 0) _ _ (c', less)
        (attach-IsServed nb nb' r (var_alloc nb.buffers (request_size minimal size) block) c' less))

alloc-IsServed :
    (minimal : ℕ) (nb : NetBuffers) (size : ℕ) (descriptor_block block : ℕ) (xs : List ℕ)
    → IsPaired nb
    → nb.descriptors.free ≡ xs
    → nb.sem ≢ 0
    → IsServed nb (describe true minimal nb size block (Rsrc.alloc nb.descriptors descriptor_block))
alloc-IsServed minimal nb size descriptor_block block [] c e some_left =
    absurd (some_left (c.paired ∙ ap length e))
alloc-IsServed minimal nb size descriptor_block block (r ∷ rest) c e some_left =
    let ok = unlimited-not_refused nb.descriptors c.unlimited c.sized in
    subst (λ q. IsServed nb (describe true minimal nb size block q))
      (sym (alloc-pop nb.descriptors r rest descriptor_block ok e))
      (describe-IsServed minimal nb size r rest block c e)

nonzero : (n : ℕ) → (n == 0) ≡ false → n ≢ 0
nonzero n e z = ground arith

-- Where the semaphore counts the free descriptors and NDEBUG is defined, a request for a buffer of
-- any size, wherever the heap gives the storage it is asked for (the program aborts where the heap
-- gives none), does not write through NULL: it hands out a buffer and counts one less, or answers
-- NULL and counts as before; and the semaphore still counts the free descriptors, in a pool without
-- a limit and with a free list.
pub get-IsServed :
    (minimal : ℕ) (nb : NetBuffers) (size : ℕ) (descriptor_block block : ℕ)
    → IsPaired nb
    → IsServed nb (get true minimal nb size descriptor_block block)
unfolding get
get-IsServed minimal nb size descriptor_block block c = elim (Bool-cases (nb.sem == 0)) [
  | inl e ↦
      subst
        (λ b. IsServed nb (
          if b
          then some (none, nb)
          else describe true minimal nb size block (Rsrc.alloc nb.descriptors descriptor_block)))
        (sym e) (c, refl)
  | inr e ↦
      subst
        (λ b. IsServed nb (
          if b
          then some (none, nb)
          else describe true minimal nb size block (Rsrc.alloc nb.descriptors descriptor_block)))
        (sym e)
        (alloc-IsServed minimal nb size descriptor_block block nb.descriptors.free c refl
          (nonzero nb.sem e))
]
