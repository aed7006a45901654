-- ===== src/Outbound/Wire.antt =====
-- From xDtpWrite down to duWrite: the frame that goes out.
use rinasensev.Prelude.{
  ℕ, ◌+◌, ◌%◌, ◌^◌, ◌<◌, ◌≡◌, ◌≢◌, refl, ap, ◌∙◌, Bool, true, false, ==_ne, if◌then◌else◌, Option,
  none, some, ◌∷◌, ◌++◌, drop, take, set, bit_or, arith,
}
use rinasensev.Buffers.{Buffers}
use rinasensev.Pci
use rinasensev.Pci.{Pci, pci_size, pdu_type_dt, pdu_flags_data_run}
use rinasensev.Pci.Roundtrip.{IsInRange, cast-to_bytes}
use rinasensev.Du
use rinasensev.Du.{NetBuffer, Du, closed, store_pci, add_size}
use rinasensev.Rmt.{send}
use rinasensev.Rmt.Send.{IsReady, sent, send_ready}
use rinasensev.Outbound.{header, next_sv, sealed, pdu_send, after_encap, write}
use rinasensev.Stack.{Connection, DtpSv, Efcp, N1Port, World, Env, written, set_instance}

-- The addresses and ids of a connection fit a byte.
pub record IsInByte (c : Connection) : Type 0 where
  pub source_address : c.source_address < 2 ^ 8
  pub destination_address : c.destination_address < 2 ^ 8
  pub source_cep_id : c.source_cep_id < 2 ^ 8
  pub destination_cep_id : c.destination_cep_id < 2 ^ 8
  pub qos_id : c.qos_id < 2 ^ 8

flags_fit : (b : Bool) → (if b then bit_or 0 pdu_flags_data_run else 0) < 2 ^ 8
flags_fit true = omega arith
flags_fit false = omega arith

header-IsInRange :
    (e : Efcp) (csn size : ℕ) → IsInByte e.connection → csn < 2 ^ 32 → IsInRange (header e csn size)
unfolding header
header-IsInRange e csn size r lt = record {
  version = omega arith;
  destination = r.destination_address;
  source = r.source_address;
  qos_id = r.qos_id;
  cep_destination = r.destination_cep_id;
  cep_source = r.source_cep_id;
  pdu_type = omega arith;
  flags = flags_fit e.sv.drf_flag;
  pdu_len = omega arith;
  sequence_number = lt;
}

-- The instance as it is once its sequence number is counted up, and the header that goes out.
abbrev pub counted_up : Efcp → Efcp
counted_up e = record e { sv = next_sv e.sv }

abbrev pub outgoing : Efcp → NetBuffer → Pci
outgoing e b =
    header (counted_up e) (next_sv e.sv).next_seq_number_to_send (add_size b.data_length pci_size)

-- The buffer that goes out: the header, then the data that was handed in.
abbrev pub framed : Efcp → NetBuffer → NetBuffer
framed e b = record (elim (closed b).buffer [ none ↦ b | some c ↦ c ]) {
  ethernet = Pci.to_bytes (outgoing e b) ++ take b.data_length b.ethernet;
}

sealed-framed :
    (e : Efcp) (b : NetBuffer)
    → (c : NetBuffer) × ((closed b).buffer ≡ some c)
      × ((closed b).pci_at ≡ some 0)
      × (c.data_length ≡ add_size b.data_length pci_size)
      × (sealed (counted_up e) c 0 ≡ record { buffer = some (framed e b); pci_at = some 0 })
unfolding closed sealed store_pci
sealed-framed e b = (_, refl, refl, refl, refl)

-- The data unit that goes out.
abbrev pub outgoing_du : Efcp → NetBuffer → Du
outgoing_du e b = record { buffer = some (framed e b); pci_at = some 0 }

outgoing-IsInRange : (e : Efcp) (b : NetBuffer) → IsInByte e.connection → IsInRange (outgoing e b)
unfolding next_sv
outgoing-IsInRange e b r = header-IsInRange (counted_up e) _ _ r (omega arith)

outgoing-pci :
    (e : Efcp) (b : NetBuffer)
    → IsInByte e.connection
    → Du.pci_of (outgoing_du e b) ≡ some (outgoing e b)
unfolding Du.pci_of
outgoing-pci e b r = ap some (cast-to_bytes (outgoing e b) _ (outgoing-IsInRange e b r)).0

outgoing-is_ok : (e : Efcp) (b : NetBuffer) → Pci.is_ok (outgoing e b) ≡ true
unfolding Pci.is_ok Pci.pdu_type_is_ok header
outgoing-is_ok e b = refl

-- The header that a data PDU of a connection has on the wire, field by field.
abbrev pub data_pdu : Connection → Bool → (size number : ℕ) → Pci
data_pdu c runs size number = record {
  version = 1;
  destination = c.destination_address;
  source = c.source_address;
  qos_id = c.qos_id;
  cep_destination = c.destination_cep_id;
  cep_source = c.source_cep_id;
  pdu_type = 0x80;
  flags = if runs then 0x80 else 0;
  pdu_len = (size + 14) % 2 ^ 32 % 2 ^ 16;
  sequence_number = number;
}

-- The next number of a counter of 32 bits.
abbrev pub next_number : DtpSv → ℕ
next_number sv = (sv.next_seq_number_to_send + 1) % 2 ^ 32

flags_lem : (b : Bool) → (if b then bit_or 0 pdu_flags_data_run else 0) ≡ (if b then 0x80 else 0)
flags_lem true = refl
flags_lem false = refl

outgoing-data_pdu :
    (e : Efcp) (b : NetBuffer)
    → outgoing e b ≡ data_pdu e.connection e.sv.drf_flag b.data_length (next_number e.sv)
unfolding header next_sv
outgoing-data_pdu e b =
    ap
      (λ flags. record (data_pdu e.connection e.sv.drf_flag b.data_length (next_number e.sv)) {
        flags = flags;
      })
      (flags_lem e.sv.drf_flag)

module _ (bm : Buffers) where
  pub encap-closed :
      (pool pool' : bm.Pool) (b : NetBuffer) (at : Option ℕ)
      → bm.get pool (add_size b.data_length pci_size) ≡ some pool'
      → Du.encap bm pool (record { buffer = some b; pci_at = at })
        ≡ some (true, bm.release pool', closed b)
  unfolding Du.encap
  encap-closed pool pool' b at memory = rw (memory, Du.encap) refl

  -- xDtpWrite for a peer that is not this IPC process.
  write_remote :
      (env : Env) (w : World bm) (i : ℕ) (e : Efcp) (b : NetBuffer) (at : Option ℕ) (pool : bm.Pool)
      → bm.get w.pool (add_size b.data_length pci_size) ≡ some pool
      → e.connection.source_address ≢ e.connection.destination_address
      → write bm env w true i e (record { buffer = some b; pci_at = at })
        ≡ send bm env
            (set_instance (record w { pool = bm.release pool }) i (counted_up e))
            true
            (outgoing_du e b)
  unfolding write after_encap pdu_send closed sealed store_pci header Pci.is_ok Pci.pdu_type_is_ok
  write_remote env w i e b at pool memory ne =
      rw (encap-closed w.pool pool b at memory)
        (rw (==_ne e.connection.source_address e.connection.destination_address ne) refl)

  -- A data unit that a connection to another IPC process writes, where the addresses and CEP-ids of
  -- the connection have 8 bits like its QoS id, there is a buffer, and the N-1 port has nothing
  -- queued, is not busy and not disabled, is written to that port once, and the call answers
  -- `true`. The bytes written are read back as the header of the connection, with the next sequence
  -- number, the length of header and data and the type of a data PDU, and behind it stand the bytes
  -- of the data. The instance then counts that sequence number, and nothing else of the instances
  -- changes.
  pub write_wire :
      (env : Env) (w : World bm) (i : ℕ) (e : Efcp) (b : NetBuffer) (at : Option ℕ) (pool : bm.Pool)
      (port : N1Port)
      → bm.get w.pool (add_size b.data_length pci_size) ≡ some pool
      → w.n1_port ≡ some port
      → IsReady port
      → IsInByte e.connection
      → e.connection.source_address ≢ e.connection.destination_address
      → (c : NetBuffer) × (w' : World bm) × (write bm env w true i e
            (record { buffer = some b; pci_at = at })
          ≡ some (true, w'))
        × (w'.log ≡ written port.port_id (record { buffer = some c; pci_at = some 0 }) ∷ w.log)
        × (Pci.cast c.ethernet
            ≡ data_pdu e.connection e.sv.drf_flag b.data_length (next_number e.sv))
        × (drop pci_size c.ethernet ≡ take b.data_length b.ethernet)
        × (w'.instances
            ≡ set w.instances i (
                some
                  (record e { sv = record e.sv { next_seq_number_to_send = next_number e.sv } })))
  unfolding next_sv
  write_wire env w i e b at pool port memory bound ready r ne =
      let du = outgoing_du e b in
      let start : World bm = set_instance (record w { pool = bm.release pool }) i (counted_up e) in
      let went =
        send_ready bm env start port du bound ready
          (outgoing e b, outgoing-pci e b r, outgoing-is_ok e b) in
      let back =
        cast-to_bytes (outgoing e b) (take b.data_length b.ethernet) (outgoing-IsInRange e b r) in
      (
        framed e b,
        record start {
          n1_port = some (sent bm env port du);
          log = written port.port_id du ∷ w.log;
        },
        write_remote env w i e b at pool memory ne ∙ went,
        refl,
        back.0 ∙ outgoing-data_pdu e b,
        back.1,
        refl,
      )
