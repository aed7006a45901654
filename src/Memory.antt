-- ===== src/Memory.antt =====
-- components/portability: what pvRsMemAlloc answers. The allocator itself is the platform's, so its
-- answers are an input: one Boolean for each call that is still to come, and no block when none is
-- left.
use rinasensev.Prelude.{
  ℕ, zero, suc, ◌≡◌, refl, ap, Bool, true, false, List, [], ◌∷◌, ◌++◌, replicate,
}

abbrev pub Memory : Type 0
Memory = List Bool

-- pvRsMemAlloc: whether there is a block, and the answers left. Freeing changes no answer.
abbrev pub alloc : Memory → Bool × Memory
alloc [] = (false, [])
alloc (ok ∷ m) = (ok, m)

-- The next `n` calls find a block.
abbrev pub plenty : ℕ → Memory → Memory
plenty n m = replicate n true ++ m

pub plenty-suc : (n : ℕ) (m : Memory) → plenty (suc n) m ≡ plenty n (true ∷ m)
plenty-suc zero m = refl
plenty-suc (suc n) m = ap (λ l. true ∷ l) (plenty-suc n m)
