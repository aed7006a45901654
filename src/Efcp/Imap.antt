-- ===== src/Efcp/Imap.antt =====
-- xEfcpImapTable of efcp.c against a table of one entry.
use rinasensev.Prelude.{
  ℕ, ◌≡◌, refl, ap, ◌∙◌, true, ◌==◌, if◌then◌else◌, Option, none, some, List, [], ◌∷◌, length,
  arith, Bool-cases, inl, inr,
}
use rinasensev.Efcp.{imap_create, imap_find, imap_add, imap_clear, imap_remove, efcp_imap_entries}
use rinasensev.Stack.{ImapRow}

-- A table of one entry: a key and a value, or nothing.
abbrev pub Entry : Type 0
Entry = Option (ℕ × ℕ)

abbrev pub lookup : ℕ → Entry → Option ℕ
lookup key none = none
lookup key (some (k, v)) = if k == key then some v else none

abbrev pub forget : ℕ → Entry → Entry
forget key none = none
forget key (some (k, v)) = if k == key then none else some (k, v)

abbrev pub IsBlank : ImapRow → Type 0
IsBlank row = (row.cep_id_key ≡ 0) × (row.efcp_value ≡ none)

abbrev pub AllBlank : List ImapRow → Type 0
AllBlank [] = Unit {0}
AllBlank (row ∷ rows) = IsBlank row × AllBlank rows

-- What a row stands for.
abbrev pub HasEntry : ImapRow → Entry → Type 0
HasEntry row none = IsBlank row
HasEntry row (some (k, v)) = (row.cep_id_key ≡ k) × (row.efcp_value ≡ some v)

-- The table stands for the entry: it is in the first row, and the rows behind it are blank.
abbrev pub Represents : List ImapRow → Entry → Type 0
Represents [] entry = ⊥
Represents (row ∷ rows) entry =
    HasEntry row entry × AllBlank rows × (length (row ∷ rows) ≡ efcp_imap_entries)

-- A search in blank rows finds nothing and leaves them blank.
imap_find-AllBlank :
    (key : ℕ) (rows : List ImapRow)
    → AllBlank rows
    → ((imap_find key rows).0 ≡ none)
      × AllBlank (imap_find key rows).1
      × (length (imap_find key rows).1 ≡ length rows)
unfolding imap_find
imap_find-AllBlank key [] h = (refl, tt, refl)
imap_find-AllBlank key (row ∷ rows) h =
    let rest = imap_find-AllBlank key rows h.1 in
    elim (Bool-cases (row.cep_id_key == key)) [
      | inl e ↦ rw e (h.0.1, (h.0, h.1), refl)
      | inr e ↦ rw e (rest.0, (h.0, rest.1), omega (arith, rest.2))
    ]

pub imap_find-Represents :
    (key : ℕ) (rows : List ImapRow) (entry : Entry)
    → Represents rows entry
    → ((imap_find key rows).0 ≡ lookup key entry) × Represents (imap_find key rows).1 entry
unfolding imap_find
imap_find-Represents key [] entry h = absurd h
imap_find-Represents key (row ∷ rows) none h =
    let rest = imap_find-AllBlank key rows h.1 in
    elim (Bool-cases (row.cep_id_key == key)) [
      | inl e ↦ rw e (h.0.1, h)
      | inr e ↦ rw e (rest.0, (h.0, rest.1, omega (arith, rest.2, h.2)))
    ]
imap_find-Represents key (row ∷ rows) (some (k, v)) h =
    let rest = imap_find-AllBlank key rows h.1 in
    elim (Bool-cases (k == key)) [
      | inl e ↦ rw (ap (λ x. x == key) (h.0.0) ∙ e, e) (h.0.1, h)
      | inr e ↦
          rw (ap (λ x. x == key) (h.0.0) ∙ e, e) (rest.0, (h.0, rest.1, omega (arith, rest.2, h.2)))
    ]

imap_clear-AllBlank :
    (key : ℕ) (rows : List ImapRow)
    → AllBlank rows
    → AllBlank (imap_clear key rows) × (length (imap_clear key rows) ≡ length rows)
unfolding imap_clear
imap_clear-AllBlank key [] h = (tt, refl)
imap_clear-AllBlank key (row ∷ rows) h =
    let rest = imap_clear-AllBlank key rows h.1 in
    elim (Bool-cases (row.cep_id_key == key)) [
      | inl e ↦ rw e (((refl, refl), h.1), refl)
      | inr e ↦ rw e ((h.0, rest.0), omega (arith, rest.1))
    ]

pub imap_clear-Represents :
    (key : ℕ) (rows : List ImapRow) (entry : Entry)
    → Represents rows entry
    → Represents (imap_clear key rows) (forget key entry)
unfolding imap_clear
imap_clear-Represents key [] entry h = absurd h
imap_clear-Represents key (row ∷ rows) none h =
    let rest = imap_clear-AllBlank key rows h.1 in
    elim (Bool-cases (row.cep_id_key == key)) [
      | inl e ↦ rw e ((refl, refl), h.1, h.2)
      | inr e ↦ rw e (h.0, rest.0, omega (arith, rest.1, h.2))
    ]
imap_clear-Represents key (row ∷ rows) (some (k, v)) h =
    let rest = imap_clear-AllBlank key rows h.1 in
    elim (Bool-cases (k == key)) [
      | inl e ↦ rw (ap (λ x. x == key) (h.0.0) ∙ e, e) ((refl, refl), h.1, h.2)
      | inr e ↦ rw (ap (λ x. x == key) (h.0.0) ∙ e, e) (h.0, rest.0, omega (arith, rest.1, h.2))
    ]

pub imap_add-Represents :
    (key value : ℕ) (rows : List ImapRow) (entry : Entry)
    → Represents rows entry
    → ((imap_add key value rows).0 ≡ true)
      × Represents (imap_add key value rows).1 (some (key, value))
unfolding imap_add
imap_add-Represents key value [] entry h = absurd h
imap_add-Represents key value (row ∷ rows) entry h = (refl, ((refl, refl), h.1, h.2))

-- xEfcpImapTable is a table of one entry: where the table stands for an entry or for none, a
-- search answers by that entry and leaves it, an insertion succeeds and replaces it whatever its
-- key is, a removal clears it where it has the key; and the new table stands for no entry.
pub imap-Represents :
    (key value : ℕ) (rows : List ImapRow) (entry : Entry)
    → Represents rows entry
    → Represents imap_create none
      × ((imap_find key rows).0 ≡ lookup key entry)
      × Represents (imap_find key rows).1 entry
      × ((imap_add key value rows).0 ≡ true)
      × Represents (imap_add key value rows).1 (some (key, value))
      × ((imap_remove key rows).0 ≡ true)
      × Represents (imap_remove key rows).1 (forget key entry)
unfolding imap_create imap_remove
imap-Represents key value rows entry h =
    let found = imap_find-Represents key rows entry h in
    let added = imap_add-Represents key value rows entry h in
    (
      ((refl, refl), ((refl, refl), ((refl, refl), tt)), refl),
      found.0,
      found.1,
      added.0,
      added.1,
      refl,
      imap_clear-Represents key rows entry h,
    )
