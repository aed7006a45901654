-- ===== src/Efcp.antt =====
-- components/Ipcp/Modules/efcp.c: the table of EFCP instances and the container that hands data
-- units to them.
pub mod Live
pub mod Imap
pub mod Reach
pub mod Receive
pub mod Changes
pub mod Connections
use rinasensev.Prelude.{
  ℕ, zero, suc, Bool, true, false, not, ◌&&◌, ◌==◌, if◌then◌else◌, Option, none, some, List, [],
  ◌∷◌, length, ◌++◌, get_or, set,
}
use rinasensev.Buffers.{Buffers}
use rinasensev.Ids.{is_cep_id_ok, is_port_id_ok, cep_id_wrong}
use rinasensev.Pci
use rinasensev.Pci.{Pci, pdu_type_dt}
use rinasensev.Du
use rinasensev.Du.{Du}
use rinasensev.Dtp
use rinasensev.Dtp.{discard}
use rinasensev.Stack.{Connection, Efcp, EfcpState, ImapRow, World, Env, instance_at, set_instance}

abbrev pub efcp_imap_entries : ℕ
efcp_imap_entries = 3

abbrev pub local_address : ℕ
local_address = 1

abbrev pub null_row : ImapRow
null_row = record { cep_id_key = 0; efcp_value = none; valid = 0 }

-- xEfcpImapCreate
unfoldable pub imap_create : List ImapRow
imap_create = null_row ∷ null_row ∷ null_row ∷ []

-- pxEfcpImapFind: the first row with the key. It also marks that row valid.
unfoldable pub imap_find : ℕ → List ImapRow → Option ℕ × List ImapRow
imap_find key [] = (none, [])
imap_find key (row ∷ rows) =
    let (found, rows') = imap_find key rows in
    if row.cep_id_key == key
    then (row.efcp_value, record row { valid = 1 } ∷ rows)
    else (found, row ∷ rows')

-- xEfcpImapAdd: the loop returns in its first round.
unfoldable pub imap_add : ℕ → ℕ → List ImapRow → Bool × List ImapRow
imap_add key value [] = (false, [])
imap_add key value (row ∷ rows) =
    (true, record { cep_id_key = key; efcp_value = some value; valid = 1 } ∷ rows)

-- xEfcpImapRemove always answers `true`.
unfoldable pub imap_clear : ℕ → List ImapRow → List ImapRow
imap_clear key [] = []
imap_clear key (row ∷ rows) =
    if row.cep_id_key == key then null_row ∷ rows else row ∷ imap_clear key rows

unfoldable pub imap_remove : ℕ → List ImapRow → Bool × List ImapRow
unfolding imap_clear
imap_remove key rows = (true, imap_clear key rows)

-- is_candidate_connection_ok of a connection that is not NULL.
unfoldable pub is_candidate_connection_ok : Connection → Bool
is_candidate_connection_ok c = is_cep_id_ok c.source_cep_id && is_port_id_ok c.port_id

-- The connection as xEfcpContainerReceive leaves it before the instance gets the data unit.
unfoldable pub note_peer : Pci → Efcp → Efcp
note_peer p e =
    if p.pdu_type == pdu_type_dt && not (e.connection.destination_cep_id == cep_id_wrong)
    then (let c = e.connection in
        record e { connection = record c { destination_cep_id = p.cep_destination } })
    else e

-- The connection that xEfcpConnectionCreate fills in; the source address and the source CEP-id
-- of the caller are not used.
unfoldable pub new_connection : (destination port qos destination_cep : ℕ) → Connection
new_connection destination port qos destination_cep = record {
  port_id = port;
  source_address = local_address;
  destination_address = destination;
  source_cep_id = 1;
  destination_cep_id = destination_cep;
  qos_id = qos;
}

module _ (bm : Buffers) where
  -- pxEfcpImapFind in the state of the data path.
  unfoldable pub find : World bm → ℕ → Option ℕ × World bm
  unfolding imap_find
  find w cep = let (found, imap) = imap_find cep w.imap in (found, record w { imap = imap })

  -- xEfcpReceive of the instance `e` at place `i`.
  unfoldable pub receive : Env → World bm → ℕ → Efcp → Du → Option (Bool × World bm)
  unfolding Dtp.receive
  receive env w i e du = elim (Du.pci_of du) [
    | none ↦ none
    | some p ↦
        if Pci.pdu_type_is_control p.pdu_type
        then (if e.has_dtcp then some (true, w) else some (false, discard bm w du))
        else Dtp.receive bm env w i e du
  ]

  -- The part of xEfcpContainerReceive behind the search. `none`: an access to freed memory.
  unfoldable pub deliver : Env → World bm → ℕ → Efcp → Du → Option (Bool × World bm)
  unfolding note_peer
  deliver env w i e du = elim e.state [
    | EfcpState.deallocated ↦ some (true, discard bm w du)
    | EfcpState.allocated ↦ elim (Du.pci_of du) [
      | none ↦ none
      | some p ↦ let e' = note_peer p e in receive env (set_instance w i e') i e' du
    ]
  ]

  unfoldable pub container_receive : Env → World bm → ℕ → Du → Option (Bool × World bm)
  unfolding deliver find
  container_receive env w cep du =
      if is_cep_id_ok cep
      then (let (found, w') = find w cep in
          elim found [
            | none ↦ some (false, discard bm w' du)
            | some i ↦ elim (instance_at w' i) [ none ↦ none | some e ↦ deliver env w' i e du ]
          ])
      else some (false, discard bm w du)

  retire : World bm → ℕ → World bm
  retire w i = elim (instance_at w i) [
    | none ↦ w
    | some e ↦ set_instance w i (record e { state = EfcpState.deallocated })
  ]

  -- What the three functions on a connection do with the answer of xEfcpDestroy, which frees the
  -- instance and returns `true`. The unbinding of a user IPC process is outside the model.
  unfoldable pub efcp_destroy : World bm → ℕ → Bool × World bm
  efcp_destroy w i = (true, record w { instances = set w.instances i none })

  -- xEfcpConnectionModify and xEfcpConnectionUpdate share this frame.
  unfoldable pub with_connection :
      World bm → ℕ → (Connection → Connection) → Option (Bool × World bm)
  unfolding find efcp_destroy
  with_connection w cep f =
      let (found, w') = find w cep in
      elim found [
        | none ↦ some (false, w')
        | some i ↦ elim (instance_at w' i) [
          | none ↦ none
          | some e ↦ elim e.state [
            | EfcpState.deallocated ↦ let (done, w'') = efcp_destroy w' i in some (not done, w'')
            | EfcpState.allocated ↦
                some (true, set_instance w' i (record e { connection = f e.connection }))
          ]
        ]
      ]

  unfoldable pub connection_modify :
      World bm → ℕ → (source destination : ℕ) → Option (Bool × World bm)
  unfolding with_connection
  connection_modify w cep source destination =
      with_connection w cep
        (λ c. record c { source_address = source; destination_address = destination })

  unfoldable pub connection_update : World bm → (from to : ℕ) → Option (Bool × World bm)
  unfolding with_connection
  connection_update w from to =
      if is_cep_id_ok from
      then (if is_cep_id_ok to
          then with_connection w from (λ c. record c { destination_cep_id = to })
          else some (false, w))
      else some (false, w)

  unfoldable pub connection_destroy : World bm → ℕ → Bool × World bm
  unfolding find imap_remove efcp_destroy retire
  connection_destroy w id =
      if is_cep_id_ok id
      then (let (found, w') = find w id in
          elim found [
            | none ↦ (false, w')
            | some i ↦
                let (removed, imap) = imap_remove id w'.imap in
                let w'' = record w' { imap = imap } in
                if removed
                then (false, w'')
                else (let (destroyed, gone) = efcp_destroy (retire w'' i) i in
                    (not destroyed, gone))
          ])
      else (false, w)

  -- xEfcpConnectionCreate. `has_memory` and `has_dtp` say whether pxEfcpCreate and pxDtpCreate
  -- succeed, `dtcp_word` whether the memory of the new `struct dtp_t` holds something other than
  -- NULL at pxDtcp, which nothing sets. `none`: the failure paths hand an instance whose pointers
  -- were never written to xEfcpDestroy.
  unfoldable pub connection_create :
      World bm
      → (destination port qos destination_cep : ℕ) → (has_memory has_dtp dtcp_word : Bool)
      → Option (ℕ × World bm)
  unfolding imap_add new_connection is_candidate_connection_ok Dtp.state_vector_init
  connection_create w destination port qos destination_cep has_memory has_dtp dtcp_word =
      let c = new_connection destination port qos destination_cep in
      let (added, imap) = imap_add 1 (length w.instances) w.imap in
      let e : Efcp = record {
        connection = c;
        sv = Dtp.state_vector_init;
        has_dtcp = dtcp_word;
        state = EfcpState.allocated;
      } in
      if has_memory
      then (if is_candidate_connection_ok c && has_dtp && added
          then some (1, record w { imap = imap; instances = w.instances ++ some e ∷ [] })
          else none)
      else some (cep_id_wrong, w)
