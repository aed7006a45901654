-- ===== src/Rmt/Receive.antt =====
-- xRmtReceive of rmt.c: where a data unit goes, and what happens to its buffer.
use rinasensev.Prelude.{
  ℕ, suc, ◌+◌, ◌≡◌, refl, sym, subst, Bool, true, false, not, ◌&&◌, ◌==◌, if◌then◌else◌, Option,
  none, some, arith, Bool-cases, inl, inr,
}
use rinasensev.Buffers.{Buffers}
use rinasensev.Ids.{is_port_id_ok, is_cep_id_ok, is_address_ok, is_qos_id_ok}
use rinasensev.Pci
use rinasensev.Pci.{Pci, pci_size, pdu_type_mgmt, pdu_type_dt}
use rinasensev.Du
use rinasensev.Du.{NetBuffer, Du, sub_size, opened}
use rinasensev.Du.Decap.{arrived, header_at, decapsulated, decapsulated-header, decap-arrived}
use rinasensev.Dtp.{discard}
use rinasensev.Efcp.{local_address, find}
use rinasensev.Efcp.Live.{IsLive}
use rinasensev.Efcp.Receive.{Fate, Ends, Ends-as, fate, container_receive-fate}
use rinasensev.Rmt.{
  is_data_transfer, process_mgmt_pdu, process_dt_pdu, dispatch, after_decap, receive, count_rx,
}
use rinasensev.Stack.{N1Port, World, Env}

-- The checks of xRmtReceive on a header.
abbrev pub is_valid : Pci → Bool
is_valid p = Pci.pdu_type_is_ok p.pdu_type && is_address_ok p.destination && is_qos_id_ok p.qos_id

module _ (bm : Buffers) where
  -- The fate of a data unit for this IPC process that is not a management PDU.
  abbrev pub data_course : World bm → Pci → Fate
  data_course w p =
      if is_data_transfer p.pdu_type
      then (if is_address_ok p.destination
            && not (p.pdu_type == pdu_type_mgmt)
            && is_cep_id_ok p.cep_destination
          then fate bm w p.cep_destination p
          else Fate.destroyed)
      else Fate.destroyed

  -- The fate of a data unit with the header `p` that came in through the port `from`.
  abbrev pub course : World bm → ℕ → Pci → Fate
  course w from p =
      if is_valid p
      then (if p.destination == local_address
          then (if p.pdu_type == pdu_type_mgmt then Fate.managed from else data_course w p)
          else (if p.destination == 0 then Fate.managed from else Fate.lost))
      else Fate.destroyed

  data-Ends :
      (env : Env) (w : World bm) (p : Pci) (du : Du)
      → Du.pci_of du ≡ some p
      → IsLive w
      → is_data_transfer p.pdu_type ≡ true
      → Ends du (data_course w p) w (process_dt_pdu bm env w p du)
  unfolding process_dt_pdu discard
  data-Ends env w p du header live t =
      elim (Bool-cases (
        is_address_ok p.destination
        && not (p.pdu_type == pdu_type_mgmt)
        && is_cep_id_ok p.cep_destination)) [
          | inl ok ↦
              Ends-as du w (data_course w p) (fate bm w p.cep_destination p) _ (rw (t, ok) refl)
                (rw ok (container_receive-fate bm env w p.cep_destination du p header live))
          | inr bad ↦
              Ends-as du w (data_course w p) Fate.destroyed _ (rw (t, bad) refl)
                (rw bad (refl, refl))
        ]

  dispatch-data :
      (env : Env) (w : World bm) (from : ℕ) (p : Pci) (du : Du)
      → is_valid p ≡ true
      → (p.destination == local_address) ≡ true
      → (p.pdu_type == pdu_type_mgmt) ≡ false
      → is_data_transfer p.pdu_type ≡ true
      → dispatch bm env w from p du ≡ process_dt_pdu bm env w p du
  unfolding dispatch
  dispatch-data env w from p du ok here nm t = rw (ok, here, nm, t) refl

  pub dispatch-Ends :
      (env : Env) (w : World bm) (from : ℕ) (p : Pci) (du : Du)
      → Du.pci_of du ≡ some p
      → IsLive w
      → Ends du (course w from p) w (dispatch bm env w from p du)
  unfolding dispatch process_mgmt_pdu discard
  dispatch-Ends env w from p du header live =
      let to = Ends-as du w (course w from p) in
      elim (Bool-cases (is_valid p)) [
        | inr bad ↦ to Fate.destroyed _ (rw bad refl) (rw bad (refl, refl))
        | inl ok ↦ elim (Bool-cases (p.destination == local_address)) [
          | inr far ↦ elim (Bool-cases (p.destination == 0)) [
            | inl z ↦ to (Fate.managed from) _ (rw (ok, far, z) refl) (rw (ok, far, z) (refl, refl))
            | inr nz ↦ to Fate.lost _ (rw (ok, far, nz) refl) (rw (ok, far, nz) (refl, refl))
          ]
          | inl here ↦ elim (Bool-cases (p.pdu_type == pdu_type_mgmt)) [
            | inl m ↦
                to (Fate.managed from) _ (rw (ok, here, m) refl) (rw (ok, here, m) (refl, refl))
            | inr nm ↦ elim (Bool-cases (is_data_transfer p.pdu_type)) [
              | inl t ↦ to (data_course w p) _ (rw (ok, here, nm) refl) (
                  subst (Ends du (data_course w p) w)
                    (sym (dispatch-data env w from p du ok here nm t))
                    (data-Ends env w p du header live t))
              | inr nt ↦
                  to Fate.destroyed _ (rw (ok, here, nm, nt) refl)
                    (rw (ok, here, nm, nt) (refl, refl))
            ]
          ]
        ]
      ]

  -- Where an N-1 port is bound, the port id is not wrong, the type is known and there is no buffer
  -- for xDuDecap, the header is read through a pointer that is not set.
  pub receive_fault :
      (env : Env) (w : World bm) (port : N1Port) (b : NetBuffer) (at from : ℕ)
      → w.n1_port ≡ some port
      → is_port_id_ok from ≡ true
      → Pci.pdu_type_is_ok (header_at b at).pdu_type ≡ true
      → bm.get w.pool (sub_size b.rina_length pci_size) ≡ none
      → receive bm env w true (arrived b at) from ≡ none
  unfolding receive after_decap Du.decap Du.len Du.pci_of
  receive_fault env w port b at from bound ok t no_memory = rw (ok, bound, t, no_memory) refl

  -- The state in which a decapsulated data unit is dispatched.
  abbrev pub counted : World bm → N1Port → NetBuffer → bm.Pool → World bm
  counted w port b pool = record w { pool = pool; n1_port = some (count_rx port b.rina_length) }

  pub receive-dispatch :
      (env : Env) (w : World bm) (port : N1Port) (b : NetBuffer) (at from : ℕ) (pool : bm.Pool)
      → w.n1_port ≡ some port
      → is_port_id_ok from ≡ true
      → Pci.pdu_type_is_ok (header_at b at).pdu_type ≡ true
      → bm.get w.pool (sub_size b.rina_length pci_size) ≡ some pool
      → receive bm env w true (arrived b at) from
        ≡ dispatch bm env (counted w port b pool) from (header_at b at) (decapsulated b at)
  unfolding receive after_decap Du.len
  receive-dispatch env w port b at from pool bound ok t memory =
      rw (ok, bound, decap-arrived bm w.pool pool b at t memory)
        (rw (decapsulated-header b at, after_decap) refl)

  pub receive-Ends :
      (env : Env) (w : World bm) (port : N1Port) (b : NetBuffer) (at from : ℕ) (pool : bm.Pool)
      → IsLive w
      → w.n1_port ≡ some port
      → is_port_id_ok from ≡ true
      → Pci.pdu_type_is_ok (header_at b at).pdu_type ≡ true
      → bm.get w.pool (sub_size b.rina_length pci_size) ≡ some pool
      → Ends
          (decapsulated b at)
          (course w from (header_at b at))
          (record w { pool = pool })
          (receive bm env w true (arrived b at) from)
  unfolding find
  receive-Ends env w port b at from pool live bound ok t memory =
      let du = decapsulated b at in
      subst (Ends du (course w from (header_at b at)) (record w { pool = pool }))
        (sym (receive-dispatch env w port b at from pool bound ok t memory))
        (dispatch-Ends env (counted w port b pool) from (header_at b at) du
          (decapsulated-header b at) live)

  -- How many buffers fewer are available than before the data unit was received. The buffer that it
  -- arrived in was taken before that.
  abbrev pub drained : Fate → ℕ
  drained Fate.destroyed = 0
  drained f = 1

  abbrev pub LeavesAvailable : ℕ → ℕ → Option (Bool × World bm) → Type 0
  LeavesAvailable n k none = ⊥
  LeavesAvailable n k (some r) = bm.available r.1.pool + k ≡ n

  Ends-LeavesAvailable :
      (du : Du) (b : NetBuffer) (f : Fate) (w w' : World bm) (o : Option (Bool × World bm))
      → du.buffer ≡ some b
      → bm.available w.pool ≡ suc (bm.available w'.pool)
      → Ends du f w' o
      → LeavesAvailable (bm.available w.pool) (drained f) o
  unfolding Du.destroy
  Ends-LeavesAvailable du b f w w' none has fewer h = absurd h
  Ends-LeavesAvailable du b (Fate.goes_up port) w w' (some r) has fewer h =
      rw (h.1) (omega (arith, fewer))
  Ends-LeavesAvailable du b (Fate.managed port) w w' (some r) has fewer h =
      rw (h.1) (omega (arith, fewer))
  Ends-LeavesAvailable du b Fate.lost w w' (some r) has fewer h = rw (h.1) (omega (arith, fewer))
  Ends-LeavesAvailable du b Fate.destroyed w w' (some r) has fewer h =
      rw (h.1, has) (omega (arith, fewer, bm.available-release w'.pool))

  -- In a consistent state, where an N-1 port is bound, the port id is not wrong, the type is known
  -- and there is a buffer for xDuDecap, a data unit that is received costs a buffer: where it is
  -- destroyed again only as many buffers are available as before it was received, though its own
  -- was given back, and one fewer where it is not.
  pub receive-LeavesAvailable :
      (env : Env) (w : World bm) (port : N1Port) (b : NetBuffer) (at from : ℕ) (pool : bm.Pool)
      → IsLive w
      → w.n1_port ≡ some port
      → is_port_id_ok from ≡ true
      → Pci.pdu_type_is_ok (header_at b at).pdu_type ≡ true
      → bm.get w.pool (sub_size b.rina_length pci_size) ≡ some pool
      → LeavesAvailable
          (bm.available w.pool)
          (drained (course w from (header_at b at)))
          (receive bm env w true (arrived b at) from)
  unfolding opened
  receive-LeavesAvailable env w port b at from pool live bound ok t memory =
      Ends-LeavesAvailable (decapsulated b at) _ (course w from (header_at b at)) w
        (record w { pool = pool }) (receive bm env w true (arrived b at) from) refl
        (bm.available-get w.pool (sub_size b.rina_length pci_size) memory)
        (receive-Ends env w port b at from pool live bound ok t memory)
