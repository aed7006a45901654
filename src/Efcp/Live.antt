-- ===== src/Efcp/Live.antt =====
-- The consistency of the table of EFCP instances of efcp.c, and what keeps it in the rows and in
-- the memory of the instances.
pub mod Operations
use rinasensev.Prelude.{
  ℕ, zero, suc, ◌<◌, ◌≡◌, refl, Bool, true, ◌==◌, Option, none, some, List, [], ◌∷◌, ◌++◌, length,
  get_or, set, length-set, arith, Bool-cases, inl, inr, ◌∙◌, Option-cases, subst, length-append_one,
  ◌⊎◌,
}
use rinasensev.Buffers.{Buffers}
use rinasensev.Ids.{is_cep_id_ok, is_port_id_ok}
use rinasensev.Pci
use rinasensev.Pci.{Pci}
use rinasensev.Du
use rinasensev.Du.{Du}
use rinasensev.Dtp
use rinasensev.Dtp.{Action, decide, discard, perform, pdu_post}
use rinasensev.Efcp.{
  imap_find, imap_add, imap_clear, new_connection, is_candidate_connection_ok, imap_remove, find,
  receive, note_peer, deliver, container_receive, with_connection, connection_modify,
  connection_update, connection_destroy, connection_create,
}
use rinasensev.Efcp.Imap.{
  Entry, Represents, forget, imap_find-Represents, imap_clear-Represents, imap_add-Represents,
}
use rinasensev.Stack.{Connection, Efcp, EfcpState, ImapRow, World, Env, instance_at, set_instance}

abbrev pub Below : ℕ → Option ℕ → Type 0
Below n none = Unit {0}
Below n (some i) = i < n

-- Every row of the table refers to one of `n` instances, or to none.
abbrev pub AllBelow : ℕ → List ImapRow → Type 0
AllBelow n [] = Unit {0}
AllBelow n (row ∷ rows) = Below n row.efcp_value × AllBelow n rows

abbrev pub IsAllocated : Option Efcp → Type 0
IsAllocated none = ⊥
IsAllocated (some e) = e.state ≡ EfcpState.allocated

abbrev pub AllAllocated : List (Option Efcp) → Type 0
AllAllocated [] = Unit {0}
AllAllocated (o ∷ os) = IsAllocated o × AllAllocated os

module _ {bm : Buffers} where
  -- The table refers to instances that exist, none of them is freed or deallocated, and the table
  -- stands for one entry or none.
  abbrev pub IsLive : World bm → Type 0
  IsLive w =
      AllBelow (length w.instances) w.imap
      × AllAllocated w.instances
      × ((entry : Entry) × Represents w.imap entry)

  -- An operation returns, without a read of freed memory, and leaves the invariant.
  abbrev pub IsSafe : Option (Bool × World bm) → Type 0
  IsSafe none = ⊥
  IsSafe (some r) = IsLive r.1

  abbrev pub IsSafeCreation : Option (ℕ × World bm) → Type 0
  IsSafeCreation none = ⊥
  IsSafeCreation (some r) = IsLive r.1

Below-weaken : (n : ℕ) (o : Option ℕ) → Below n o → Below (suc n) o
Below-weaken n none h = tt
Below-weaken n (some i) h = omega arith

pub AllBelow-weaken : (n : ℕ) (rows : List ImapRow) → AllBelow n rows → AllBelow (suc n) rows
AllBelow-weaken n [] h = tt
AllBelow-weaken n (row ∷ rows) h = (Below-weaken n row.efcp_value h.0, AllBelow-weaken n rows h.1)

pub imap_find-AllBelow :
    (n key : ℕ) (rows : List ImapRow)
    → AllBelow n rows
    → Below n (imap_find key rows).0 × AllBelow n (imap_find key rows).1
unfolding imap_find
imap_find-AllBelow n key [] h = (tt, tt)
imap_find-AllBelow n key (row ∷ rows) h =
    let rest = imap_find-AllBelow n key rows h.1 in
    elim (Bool-cases (row.cep_id_key == key)) [
      | inl e ↦ rw e (h.0, (h.0, h.1))
      | inr e ↦ rw e (rest.0, (h.0, rest.1))
    ]

pub imap_clear-AllBelow :
    (n key : ℕ) (rows : List ImapRow) → AllBelow n rows → AllBelow n (imap_clear key rows)
unfolding imap_clear
imap_clear-AllBelow n key [] h = tt
imap_clear-AllBelow n key (row ∷ rows) h =
    let rest = imap_clear-AllBelow n key rows h.1 in
    elim (Bool-cases (row.cep_id_key == key)) [ inl e ↦ rw e (tt, h.1) | inr e ↦ rw e (h.0, rest) ]

pub imap_add-AllBelow :
    (n key value : ℕ) (rows : List ImapRow)
    → value < n
    → AllBelow n rows
    → AllBelow n (imap_add key value rows).1
unfolding imap_add
imap_add-AllBelow n key value [] lt h = tt
imap_add-AllBelow n key value (row ∷ rows) lt h = (lt, h.1)

pub get_or-IsAllocated :
    (os : List (Option Efcp)) (i : ℕ)
    → i < length os
    → AllAllocated os
    → (e : Efcp) × (get_or os i none ≡ some e) × (e.state ≡ EfcpState.allocated)
get_or-IsAllocated [] i lt h = absurd (omega arith)
get_or-IsAllocated (none ∷ os) i lt h = absurd (h.0)
get_or-IsAllocated (some e ∷ os) zero lt h = (e, refl, h.0)
get_or-IsAllocated (some e ∷ os) (suc i) lt h = get_or-IsAllocated os i (omega arith) h.1

pub set-AllAllocated :
    (os : List (Option Efcp)) (i : ℕ) (e : Efcp)
    → e.state ≡ EfcpState.allocated
    → AllAllocated os
    → AllAllocated (set os i (some e))
set-AllAllocated [] i e s h = tt
set-AllAllocated (o ∷ os) zero e s h = (s, h.1)
set-AllAllocated (o ∷ os) (suc i) e s h = (h.0, set-AllAllocated os i e s h.1)

pub append-AllAllocated :
    (os : List (Option Efcp)) (e : Efcp)
    → e.state ≡ EfcpState.allocated
    → AllAllocated os
    → AllAllocated (os ++ some e ∷ [])
append-AllAllocated [] e s h = (s, tt)
append-AllAllocated (o ∷ os) e s h = (h.0, append-AllAllocated os e s h.1)

pub note_peer-state : (p : Pci) (e : Efcp) → (note_peer p e).state ≡ e.state
unfolding note_peer
note_peer-state p e = ground arith
