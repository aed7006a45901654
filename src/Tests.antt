-- ===== src/Tests.antt =====
-- The data path on concrete data units: a pool of buffers that counts, one connection with CEP-id 1
-- to the address 2, and one N-1 port.
mod Inbound
mod Outgoing
mod Pools
mod Tables
mod Naming
mod Neighbours
mod Management
mod Flows
mod Lists
mod Shims
mod Managing
mod Applications
mod Requests
mod Enrolling
use rinasensev.Prelude.{
  ℕ, zero, suc, ◌+◌, ◌-◌, ◌%◌, ◌<◌, ◌^◌, ◌≡◌, ◌≢◌, refl, sym, ap, Bool, true, false, ltb,
  if◌then◌else◌, Option, none, some, List, [], ◌∷◌, ◌++◌, take, drop, set, replicate, arith,
}
use rinasensev.Buffers.{Buffers}
use rinasensev.Pci
use rinasensev.Pci.{Pci, pci_size, pdu_type_dt}
use rinasensev.Pci.Roundtrip.{IsInRange, cast-to_bytes}
use rinasensev.Du
use rinasensev.Du.{NetBuffer, Du}
use rinasensev.Du.Decap.{arrived, header_at, decapsulated}
use rinasensev.Dtp
use rinasensev.Dtp.{state_vector_init}
use rinasensev.Dtp.Window.{
  delivered, after, numbered, count_up, AllAbove, AllInRange, delivered_in_order,
  delivered_above_edge, skipped_repeats,
}
use rinasensev.Efcp
use rinasensev.Efcp.{
  imap_find, imap_add, imap_remove, container_receive, connection_create, connection_destroy,
  imap_create, new_connection, null_row,
}
use rinasensev.Efcp.Imap.{Represents, imap-Represents}
use rinasensev.Efcp.Live.{IsLive, IsSafe}
use rinasensev.Efcp.Reach.{Reach, Step, reachable_receive}
use rinasensev.Efcp.Receive.{Fate, Ends, fate, fate_in, container_receive-fate}
use rinasensev.Efcp.Connections.{
  Outcome, HasDestination, connection_create-fate, connection_destroy-fate,
  container_receive-HasDestination,
}
use rinasensev.Rmt.{receive, n1_port_create}
use rinasensev.Rmt.Receive.{
  course, drained, LeavesAvailable, receive_fault, receive-Ends, receive-LeavesAvailable,
}
use rinasensev.Rmt.Send.{IsSendable, Sent, send_all, send_all-Sent}
use rinasensev.Outbound.{write}
use rinasensev.Outbound.Wire.{IsInByte, outgoing, counted_up, write_wire}
use rinasensev.Outbound.Loopback.{write_loopback_fault}
use rinasensev.Stack.{
  DtpSv, Efcp, EfcpState, ImapRow, N1Port, PortState, World, Env, Event, posted, written,
}

-- A pool that counts its buffers and has none of more than 1536 bytes.
abbrev pub count_get : ℕ → ℕ → Option ℕ
count_get zero size = none
count_get (suc n) size = if ltb 1536 size then none else some n

pub available-count_get : (n size : ℕ) {m : ℕ} → count_get n size ≡ some m → n ≡ suc m
available-count_get zero size e = ground arith
available-count_get (suc n) size e = ground arith

abbrev pub counting : Buffers
counting = record {
  Pool = ℕ;
  get = count_get;
  release = suc;
  available = λ n. n;
  available-get = available-count_get;
  available-release = λ n. refl;
}

abbrev pub agreeing : Env
agreeing = record {
  flow_allocator_du_post = λ port du. true;
  normal_mgmt_du_post = λ port du. true;
  du_write = λ port du. false;
}

abbrev pub data_header : Pci
data_header = record {
  version = 1;
  destination = 1;
  source = 2;
  qos_id = 1;
  cep_destination = 1;
  cep_source = 1;
  pdu_type = 0x80;
  flags = 0x80;
  pdu_len = 16;
  sequence_number = 5;
}

abbrev pub frame : NetBuffer
frame = record {
  ethernet = 1 ∷ 1 ∷ 2 ∷ 1 ∷ 1 ∷ 1 ∷ 128 ∷ 128 ∷ 16 ∷ 0 ∷ 5 ∷ 0 ∷ 0 ∷ 0 ∷ 7 ∷ 8 ∷ [];
  rina_offset = some 0;
  data_offset = 0;
  rina_length = 16;
  data_length = 16;
}

abbrev pub connected : Efcp
connected = record {
  connection = record {
    port_id = 6;
    source_address = 1;
    destination_address = 2;
    source_cep_id = 1;
    destination_cep_id = 9;
    qos_id = 1;
  };
  sv = record {
    next_seq_number_to_send = 0;
    max_seq_number_to_send = 0;
    seq_number_rollover_threshold = 0;
    max_seq_number_rcvd = 0;
    rexmsn_ctrl = false;
    rate_based = false;
    window_based = false;
    drf_required = true;
    rate_fulfiled = false;
    max_flow_pdu_size = 2 ^ 32 - 1;
    max_flow_sdu_size = 2 ^ 32 - 1;
    rcv_left_window_edge = 0;
    window_closed = false;
    drf_flag = true;
  };
  has_dtcp = false;
  state = EfcpState.allocated;
}

abbrev pub n1 : N1Port
n1 = record {
  port_id = 4;
  state = PortState.allocated;
  busy = false;
  plen = 0;
  drop_pdus = 0;
  err_pdus = 0;
  tx_pdus = 0;
  tx_bytes = 0;
  rx_pdus = 0;
  rx_bytes = 0;
}

abbrev pub rows : List ImapRow
rows = record { cep_id_key = 1; efcp_value = some 0; valid = 1 } ∷ null_row ∷ null_row ∷ []

abbrev pub running : World counting
running = record {
  pool = 3;
  imap = rows;
  instances = some connected ∷ [];
  n1_port = some n1;
  log = [];
}

-- The same without a buffer left, and before any connection.
abbrev pub exhausted : World counting
exhausted = record running { pool = 0 }

abbrev pub started : World counting
started = record running { imap = null_row ∷ null_row ∷ null_row ∷ []; instances = [] }

pub rows-Represents : Represents rows (some (1, 0))
rows-Represents = ((refl, refl), ((refl, refl), ((refl, refl), tt)), refl)

pub running-IsLive : IsLive running
running-IsLive = ((omega arith, (tt, (tt, tt))), (refl, tt), (some (1, 0), rows-Represents))

pub started-IsLive : IsLive started
started-IsLive =
    ((tt, (tt, (tt, tt))), tt, (none, ((refl, refl), ((refl, refl), ((refl, refl), tt)), refl)))

pub nine_differs : ◌≢◌ {A = ℕ} 9 255
nine_differs e = omega (arith, e)

pub one_differs : ◌≢◌ {A = ℕ} 1 2
one_differs e = omega (arith, e)

abbrev pub looping : Efcp
looping =
    let c = connected.connection in
    record connected { connection = record c { destination_address = 1 } }

pub connected-IsInByte : IsInByte connected.connection
connected-IsInByte = record {
  source_address = omega arith;
  destination_address = omega arith;
  source_cep_id = omega arith;
  destination_cep_id = omega arith;
  qos_id = omega arith;
}

pub data_header-IsInRange : IsInRange data_header
data_header-IsInRange = record {
  version = omega arith;
  destination = omega arith;
  source = omega arith;
  qos_id = omega arith;
  cep_destination = omega arith;
  cep_source = omega arith;
  pdu_type = omega arith;
  flags = omega arith;
  pdu_len = omega arith;
  sequence_number = omega arith;
}

pub awaiting-flag : 0 < 128
awaiting-flag = omega arith

-- The data run has begun, with the edge at 5.
abbrev pub begun : DtpSv
begun = record connected.sv { drf_required = false; rcv_left_window_edge = 5 }

abbrev pub data_unit : Du
data_unit = decapsulated frame 0

pub data_unit-header : Du.pci_of data_unit ≡ some data_header
unfolding Du.pci_of Du.opened Pci.cast
data_unit-header = refl
