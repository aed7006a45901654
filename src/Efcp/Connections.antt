-- ===== src/Efcp/Connections.antt =====
-- What the operations on a connection mean for the data units that come after them.
use rinasensev.Prelude.{
  ℕ, ◌<◌, ◌≡◌, ◌≢◌, refl, ap, sym, subst, ◌∙◌, Bool, true, false, ◌==◌, ==_ne, if◌then◌else◌,
  Option, none, some, List, [], ◌∷◌, ◌++◌, length, get_or, Bool-cases, Option-cases, inl, inr,
  get_or-set_self, length-set,
}
use rinasensev.Buffers.{Buffers}
use rinasensev.Ids.{is_cep_id_ok, is_port_id_ok, cep_id_wrong}
use rinasensev.Pci
use rinasensev.Pci.{Pci, pdu_type_dt, pdu_flags_data_run}
use rinasensev.Du
use rinasensev.Du.{Du}
use rinasensev.Dtp
use rinasensev.Dtp.{Action, decide, discard, perform, pdu_post}
use rinasensev.Efcp.{
  imap_find, imap_add, imap_clear, imap_remove, find, receive, note_peer, deliver,
  container_receive, new_connection, connection_destroy, connection_create,
  is_candidate_connection_ok,
}
use rinasensev.Efcp.Imap.{
  Entry, lookup, forget, imap_find-Represents, imap_clear-Represents, imap_add-Represents,
}
use rinasensev.Efcp.Live.{IsLive, Below, imap_find-AllBelow}
use rinasensev.Efcp.Receive.{Fate, fate, fate_in}
use rinasensev.Stack.{Efcp, EfcpState, World, Env, instance_at, set_instance}

get_or-append_one :
    (os : List (Option Efcp)) (o : Option Efcp) → get_or (os ++ o ∷ []) (length os) none ≡ o
get_or-append_one [] o = refl
get_or-append_one (x ∷ os) o = get_or-append_one os o

note_peer_data :
    (p : Pci) (e : Efcp)
    → p.pdu_type ≡ pdu_type_dt
    → e.connection.destination_cep_id ≢ cep_id_wrong
    → note_peer p e ≡ (
        let c = e.connection in
        record e { connection = record c { destination_cep_id = p.cep_destination } })
unfolding note_peer
note_peer_data p e dt ne =
    rw (ap (λ t. t == pdu_type_dt) dt, ==_ne e.connection.destination_cep_id cep_id_wrong ne) refl

module _ (bm : Buffers) where
  -- The fate of a data unit where the table stands for an entry.
  fate-found :
      (w : World bm) (cep i : ℕ) (e : Efcp) (p : Pci)
      → is_cep_id_ok cep ≡ true
      → (imap_find cep w.imap).0 ≡ some i
      → instance_at w i ≡ some e
      → fate bm w cep p ≡ fate_in e p
  unfolding find
  fate-found w cep i e p ok found at = rw (ok, found, at) refl

  fate-missing :
      (w : World bm) (cep : ℕ) (p : Pci)
      → (imap_find cep w.imap).0 ≡ none
      → fate bm w cep p ≡ Fate.destroyed
  unfolding find
  fate-missing w cep p missing = elim (Bool-cases (is_cep_id_ok cep)) [
    | inl ok ↦ rw (ok, missing) refl
    | inr bad ↦ rw bad refl
  ]

  -- The state that a successful xEfcpConnectionCreate leaves.
  abbrev with_new : World bm → Efcp → World bm
  with_new w e = record w {
    imap = (imap_add 1 (length w.instances) w.imap).1;
    instances = w.instances ++ some e ∷ [];
  }

  -- In a consistent state, a connection that is created, with memory at hand, for a port that is
  -- not wrong gets the CEP-id 1. From then on a data unit for CEP-id 1 is treated as the fresh
  -- instance of that port treats it, and a data unit for any other CEP-id is destroyed: whatever
  -- connection the table had is gone.
  pub connection_create-fate :
      (w : World bm) (destination port qos destination_cep : ℕ) (dtcp_word : Bool)
      → is_port_id_ok port ≡ true
      → IsLive w
      → (w' : World bm) × (e : Efcp) × (connection_create bm w destination port qos destination_cep
            true true dtcp_word
          ≡ some (1, w'))
        × (e.connection.port_id ≡ port)
        × (e.sv ≡ Dtp.state_vector_init)
        × ((p : Pci) → fate bm w' 1 p ≡ fate_in e p)
        × ((cep : ℕ) (p : Pci) → cep ≢ 1 → fate bm w' cep p ≡ Fate.destroyed)
  unfolding connection_create is_candidate_connection_ok new_connection
  connection_create-fate w destination port qos destination_cep dtcp_word ok live =
      let e : Efcp = record {
        connection = new_connection destination port qos destination_cep;
        sv = Dtp.state_vector_init;
        has_dtcp = dtcp_word;
        state = EfcpState.allocated;
      } in
      let added = imap_add-Represents 1 (length w.instances) w.imap (live.2.0) (live.2.1) in
      let found : (cep : ℕ)
          → (imap_find cep (with_new w e).imap).0 ≡ lookup cep (some (1, length w.instances)) =
        λ cep. (imap_find-Represents cep _ (some (1, length w.instances)) added.1).0 in
      (
        with_new w e,
        e,
        rw (ok, added.0) refl,
        refl,
        refl,
        λ p.
            fate-found (with_new w e) 1 (length w.instances) e p refl (found 1)
              (get_or-append_one w.instances (some e)),
        λ cep p ne. fate-missing (with_new w e) cep p (
            found cep
            ∙ ap (λ b. if b then some (length w.instances) else none)
                (==_ne 1 cep (λ q. ne (sym q)))),
      )

  forget-lookup : (key : ℕ) (entry : Entry) → lookup key (forget key entry) ≡ none
  forget-lookup key none = refl
  forget-lookup key (some (k, v)) = elim (Bool-cases (k == key)) [
    | inl e ↦ rw e refl
    | inr e ↦ rw (e, lookup, e) refl
  ]

  -- The answer is `false`, no instance is changed, and a data unit for the CEP-id is destroyed.
  abbrev pub Outcome : World bm → ℕ → Bool × World bm → Type 0
  Outcome w id r =
      (r.0 ≡ false)
      × (r.1.instances ≡ w.instances)
      × ((p : Pci) → fate bm r.1 id p ≡ Fate.destroyed)

  -- In a consistent state, xEfcpConnectionDestroy answers `false` whatever CEP-id it is given. It
  -- keeps every instance, the one that the CEP-id leads to as well, and a data unit for that CEP-id
  -- is destroyed from then on.
  pub connection_destroy-fate :
      (w : World bm) (id : ℕ) → IsLive w → Outcome w id (connection_destroy bm w id)
  unfolding connection_destroy imap_remove find
  connection_destroy-fate w id live =
      let entry = live.2.0 in
      let searched = imap_find-Represents id w.imap entry (live.2.1) in
      let by : (w' : World bm)
          → connection_destroy bm w id ≡ (false, w')
          → w'.instances ≡ w.instances
          → ((p : Pci) → fate bm w' id p ≡ Fate.destroyed)
          → Outcome w id (connection_destroy bm w id) =
        λ w' eq kept gone. subst (Outcome w id) (sym eq) (refl, kept, gone) in
      elim (Bool-cases (is_cep_id_ok id)) [
        | inr bad ↦ by w (rw bad refl) refl (λ p. rw bad refl)
        | inl ok ↦ elim (Option-cases (imap_find id w.imap).0) [
          | inl missing ↦
              let w' : World bm = record w { imap = (imap_find id w.imap).1 } in
              let again =
                (imap_find-Represents id w'.imap entry (searched.1)).0
                ∙ sym (searched.0)
                ∙ missing in
              by w' (rw (ok, missing) refl) refl (λ p. fate-missing w' id p again)
          | inr (i, found) ↦
              let w' : World bm = record w { imap = imap_clear id (imap_find id w.imap).1 } in
              let cleared = imap_clear-Represents id (imap_find id w.imap).1 entry (searched.1) in
              let again =
                (imap_find-Represents id w'.imap (forget id entry) cleared).0
                ∙ forget-lookup id entry in
              by w' (rw (ok, found) refl) refl (λ p. fate-missing w' id p again)
        ]
      ]

  -- The instance at the place `i` of the state that an operation leaves has the destination CEP-id.
  abbrev pub HasDestination : ℕ → ℕ → Option (Bool × World bm) → Type 0
  HasDestination i cep none = ⊥
  HasDestination i cep (some r) = elim (instance_at r.1 i) [
    | none ↦ ⊥
    | some e ↦ e.connection.destination_cep_id ≡ cep
  ]

  perform-instances :
      (env : Env) (w : World bm) (e : Efcp) (du : Du) (a : Action)
      → (perform bm env w e du a).instances ≡ w.instances
  unfolding perform pdu_post discard
  perform-instances env w e du Action.post = refl
  perform-instances env w e du Action.destroy = refl

  data_not_control :
      (p : Pci) → p.pdu_type ≡ pdu_type_dt → Pci.pdu_type_is_control p.pdu_type ≡ false
  unfolding Pci.pdu_type_is_control
  data_not_control p e = rw e refl

  receive-HasDestination :
      (env : Env) (w : World bm) (i : ℕ) (e : Efcp) (du : Du) (p : Pci)
      → Du.pci_of du ≡ some p
      → p.pdu_type ≡ pdu_type_dt
      → i < length w.instances
      → HasDestination i e.connection.destination_cep_id (receive bm env w i e du)
  unfolding receive Dtp.receive
  receive-HasDestination env w i e du p header dt lt =
      let e' : Efcp = record e { sv = (decide e.sv p).0 } in
      rw (header, data_not_control p dt, HasDestination)
        (rw header (
          rw (perform-instances env (set_instance w i e') e' du (decide e.sv p).1)
            (rw (get_or-set_self w.instances i (some e') none lt) refl)))

  deliver-HasDestination :
      (env : Env) (w : World bm) (i : ℕ) (e : Efcp) (du : Du) (p : Pci)
      → i < length w.instances
      → Du.pci_of du ≡ some p
      → p.pdu_type ≡ pdu_type_dt
      → e.connection.destination_cep_id ≢ cep_id_wrong
      → e.state ≡ EfcpState.allocated
      → HasDestination i p.cep_destination (deliver bm env w i e du)
  unfolding deliver
  deliver-HasDestination env w i e du p lt header dt ne s =
      let c = e.connection in
      let e' : Efcp = record e {
        connection = record c { destination_cep_id = p.cep_destination };
      } in
      let noted : note_peer p e ≡ e' = note_peer_data p e dt ne in
      rw (s, header, HasDestination)
        (subst
          (λ n. HasDestination i p.cep_destination (receive bm env (set_instance w i n) i n du))
          (sym noted)
          (receive-HasDestination env (set_instance w i e') i e' du p header dt
            (subst (λ n. i < n) (sym (length-set w.instances i (some e'))) lt)))

  -- In a consistent state, a data PDU that arrives for a CEP-id that is not wrong and that the
  -- table leads to an instance in use, whose destination CEP-id is not wrong, sets that destination
  -- to the CEP-id the PDU itself is addressed to, the receiver's own.
  pub container_receive-HasDestination :
      (env : Env) (w : World bm) (cep i : ℕ) (e : Efcp) (du : Du) (p : Pci)
      → IsLive w
      → is_cep_id_ok cep ≡ true
      → (imap_find cep w.imap).0 ≡ some i
      → instance_at w i ≡ some e
      → e.state ≡ EfcpState.allocated
      → Du.pci_of du ≡ some p
      → p.pdu_type ≡ pdu_type_dt
      → e.connection.destination_cep_id ≢ cep_id_wrong
      → HasDestination i p.cep_destination (container_receive bm env w cep du)
  unfolding container_receive deliver find note_peer
  container_receive-HasDestination env w cep i e du p live ok found at s header dt ne =
      let w' : World bm = record w { imap = (imap_find cep w.imap).1 } in
      let lt : i < length w.instances =
        subst (Below (length w.instances)) found
          (imap_find-AllBelow (length w.instances) cep w.imap (live.0)).0 in
      rw (ok, found, at) (deliver-HasDestination env w' i e du p lt header dt ne s)
