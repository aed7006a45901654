-- ===== src/Table/Search.antt =====
-- Searches in a table of fixed size after an entry was added or written to.
use rinasensev.Prelude.{
  ◌≡◌, refl, ap, ◌∙◌, sym, subst, Bool, true, false, not, ◌&&◌, ◌||◌, if◌then◌else◌, Bool-cases,
  inl, inr, none, some, List, [], ◌∷◌, arith,
}
use rinasensev.Table.{Slot, insert, fits, find, update, has_free}

module _ {ℓ} {A : Type ℓ} where
  some-none : (a : A) → some a ≡ none → ⊥
  some-none a h = cc

  found_injective : (a b : A) → some a ≡ some b → a ≡ b
  found_injective a b h = cc

  find_here :
      (test : A → Bool) (r : Slot A) (rows : List (Slot A))
      → fits test r ≡ true
      → find test (r ∷ rows) ≡ some r.item
  find_here test r rows h = rw h refl

  find_later :
      (test : A → Bool) (r : Slot A) (rows : List (Slot A))
      → fits test r ≡ false
      → find test (r ∷ rows) ≡ find test rows
  find_later test r rows h = rw h refl

  insert_here :
      (a : A) (r : Slot A) (rows : List (Slot A))
      → r.valid ≡ false
      → insert a (r ∷ rows) ≡ record { valid = true; item = a } ∷ rows
  insert_here a r rows h = rw h refl

  insert_later :
      (a : A) (r : Slot A) (rows : List (Slot A))
      → r.valid ≡ true
      → insert a (r ∷ rows) ≡ r ∷ insert a rows
  insert_later a r rows h =
      ap (λ v. if v then r ∷ insert a rows else record { valid = true; item = a } ∷ rows) h

  fits_unused : (test : A → Bool) (r : Slot A) → r.valid ≡ false → fits test r ≡ false
  fits_unused test r h = ap (λ v. v && test r.item) h

  fits_used : (test : A → Bool) (r : Slot A) → fits test r ≡ true → r.valid ≡ true
  fits_used test r h = elim (Bool-cases r.valid) [
    | inl used ↦ used
    | inr unused ↦ absurd (ground (arith, fits_unused test r unused, h))
  ]

  -- An entry that fits, where none did, is found.
  pub find-insert_new :
      (test : A → Bool) (a : A) (rows : List (Slot A))
      → has_free rows ≡ true
      → find test rows ≡ none
      → test a ≡ true
      → find test (insert a rows) ≡ some a
  find-insert_new test a [] free absent fitting = absurd (ground (arith, free))
  find-insert_new test a (r ∷ rows) free absent fitting = elim (Bool-cases r.valid) [
    | inr unused ↦
        ap (find test) (insert_here a r rows unused)
        ∙ find_here test (record { valid = true; item = a }) rows fitting
    | inl used ↦ elim (Bool-cases (fits test r)) [
      | inl found ↦ absurd (some-none r.item (sym (find_here test r rows found) ∙ absent))
      | inr other ↦
          ap (find test) (insert_later a r rows used)
          ∙ find_later test r (insert a rows) other
          ∙ find-insert_new test a rows (sym (ap (λ v. not v || has_free rows) used) ∙ free)
              (sym (find_later test r rows other) ∙ absent) fitting
    ]
  ]

  -- An entry that does not fit changes no search.
  pub find-insert_other :
      (test : A → Bool) (a : A) (rows : List (Slot A))
      → test a ≡ false
      → find test (insert a rows) ≡ find test rows
  find-insert_other test a [] unfit = refl
  find-insert_other test a (r ∷ rows) unfit = elim (Bool-cases r.valid) [
    | inr unused ↦
        ap (find test) (insert_here a r rows unused)
        ∙ find_later test (record { valid = true; item = a }) rows unfit
        ∙ sym (find_later test r rows (fits_unused test r unused))
    | inl used ↦
        ap (find test) (insert_later a r rows used)
        ∙ ap (λ o. if fits test r then some r.item else o) (find-insert_other test a rows unfit)
  ]

  -- A full table drops the entry.
  pub insert-full : (a : A) (rows : List (Slot A)) → has_free rows ≡ false → insert a rows ≡ rows
  insert-full a [] full = refl
  insert-full a (r ∷ rows) full = elim (Bool-cases r.valid) [
    | inr unused ↦ absurd (ground (arith, full, unused))
    | inl used ↦
        insert_later a r rows used
        ∙ ap (λ t. r ∷ t) (insert-full a rows (sym (ap (λ v. not v || has_free rows) used) ∙ full))
  ]

  -- A write that keeps the test is seen by the search.
  pub find-update :
      (test : A → Bool) (f : A → A) (rows : List (Slot A)) (a : A)
      → find test rows ≡ some a
      → test (f a) ≡ true
      → find test (update test f rows) ≡ some (f a)
  find-update test f [] a found kept = absurd (some-none a (sym found))
  find-update test f (r ∷ rows) a found kept = elim (Bool-cases (fits test r)) [
    | inl here ↦
        let e = found_injective r.item a (sym (find_here test r rows here) ∙ found) in
        let written : Slot A = record { valid = r.valid; item = f r.item } in
        ap (λ c. find test (if c then written ∷ rows else r ∷ update test f rows)) here
        ∙ find_here test written rows
            (ap (λ v. v && test (f r.item)) (fits_used test r here) ∙ ap (λ z. test (f z)) e ∙ kept)
        ∙ ap (λ z. some (f z)) e
    | inr other ↦
        ap
          (λ c. find test (
            if c
            then record { valid = r.valid; item = f r.item } ∷ rows
            else r ∷ update test f rows))
          other
        ∙ find_later test r (update test f rows) other
        ∙ find-update test f rows a (sym (find_later test r rows other) ∙ found) kept
  ]

  fits_test : (test : A → Bool) (r : Slot A) → fits test r ≡ true → test r.item ≡ true
  fits_test test r h = sym (ap (λ v. v && test r.item) (fits_used test r h)) ∙ h

  -- What a search returns fits.
  pub find-fits :
      (test : A → Bool) (rows : List (Slot A)) (a : A) → find test rows ≡ some a → test a ≡ true
  find-fits test [] a found = absurd (some-none a (sym found))
  find-fits test (r ∷ rows) a found = elim (Bool-cases (fits test r)) [
    | inl here ↦
        ap test (sym (found_injective r.item a (sym (find_here test r rows here) ∙ found)))
        ∙ fits_test test r here
    | inr other ↦ find-fits test rows a (sym (find_later test r rows other) ∙ found)
  ]

module _ {ℓ κ} {A : Type ℓ} (P : A → Type κ) where
  -- Every valid row has the property.
  abbrev pub AllItems : List (Slot A) → Type κ
  AllItems [] = Unit
  AllItems (r ∷ rows) = (r.valid ≡ true → P r.item) × AllItems rows

  pub AllItems-insert :
      (a : A) (rows : List (Slot A)) → P a → AllItems rows → AllItems (insert a rows)
  AllItems-insert a [] pa all = all
  AllItems-insert a (r ∷ rows) pa (here, all) = elim (Bool-cases r.valid) [
    | inr unused ↦ subst AllItems (sym (insert_here a r rows unused)) ((λ _. pa), all)
    | inl used ↦
        subst AllItems (sym (insert_later a r rows used)) (here, AllItems-insert a rows pa all)
  ]

  pub AllItems-update :
      (test : A → Bool) (f : A → A) (rows : List (Slot A))
      → ((a : A) → P a → P (f a))
      → AllItems rows
      → AllItems (update test f rows)
  AllItems-update test f [] kept all = all
  AllItems-update test f (r ∷ rows) kept (here, all) =
      let rest = AllItems-update test f rows kept all in
      elim (Bool-cases (fits test r)) [
        | inl found ↦
            subst
              (λ c. AllItems (
                if c
                then record { valid = r.valid; item = f r.item } ∷ rows
                else r ∷ update test f rows))
              (sym found) ((λ v. kept r.item (here v)), all)
        | inr other ↦
            subst
              (λ c. AllItems (
                if c
                then record { valid = r.valid; item = f r.item } ∷ rows
                else r ∷ update test f rows))
              (sym other) (here, rest)
      ]

  pub AllItems-find :
      (test : A → Bool) (rows : List (Slot A)) (a : A)
      → AllItems rows
      → find test rows ≡ some a
      → P a
  AllItems-find test [] a all found = absurd (some-none a (sym found))
  AllItems-find test (r ∷ rows) a (here, all) found = elim (Bool-cases (fits test r)) [
    | inl fitting ↦
        subst P (found_injective r.item a (sym (find_here test r rows fitting) ∙ found))
          (here (fits_used test r fitting))
    | inr other ↦ AllItems-find test rows a all (sym (find_later test r rows other) ∙ found)
  ]
