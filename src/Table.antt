-- ===== src/Table.antt =====
-- The tables of fixed size that rib.c, ribd.c and IPCP_manager.c keep: an entry goes to the first
-- row that is not valid, and a search returns the first valid row that fits.
pub mod Search
use rinasensev.Prelude.{
  ℕ, suc, Bool, true, false, not, ◌&&◌, ◌||◌, if◌then◌else◌, Option, none, some, List, [], ◌∷◌,
  replicate,
}

pub record Slot {ℓ} (A : Type ℓ) : Type ℓ where
  pub valid : Bool
  pub item : A

module _ {ℓ} {A : Type ℓ} where
  -- A loop that stops at the first row that is not valid; a full table drops the entry.
  abbrev pub insert : A → List (Slot A) → List (Slot A)
  insert a [] = []
  insert a (r ∷ rows) =
      let rest = insert a rows in
      if r.valid then r ∷ rest else record { valid = true; item = a } ∷ rows

  abbrev pub fits : (A → Bool) → Slot A → Bool
  fits test r = r.valid && test r.item

  abbrev pub find : (A → Bool) → List (Slot A) → Option A
  find test [] = none
  find test (r ∷ rows) = let rest = find test rows in if fits test r then some r.item else rest

  -- A write through the pointer that the search returns.
  abbrev pub update : (A → Bool) → (A → A) → List (Slot A) → List (Slot A)
  update test f [] = []
  update test f (r ∷ rows) =
      let rest = update test f rows in
      if fits test r then record { valid = r.valid; item = f r.item } ∷ rows else r ∷ rest

  abbrev pub has_free : List (Slot A) → Bool
  has_free [] = false
  has_free (r ∷ rows) = not r.valid || has_free rows

  abbrev pub has_valid : List (Slot A) → Bool
  has_valid [] = false
  has_valid (r ∷ rows) = r.valid || has_valid rows
