-- ===== src/Stack.antt =====
-- The state that the data path shares: the structs of
-- components/Ipcp/Modules/include/efcpStructures.h and rmt.h, the static tables of efcp.c and
-- rmt.c, and the pool of network buffers.
use rinasensev.Prelude.{ℕ, Bool, Option, none, some, List, get_or, set, ◌∷◌}
use rinasensev.Buffers.{Buffers}
use rinasensev.Du.{Du}

-- `dtpSv_t` without its counters, which nothing updates.
pub record DtpSv : Type 0 where
  pub next_seq_number_to_send : ℕ
  pub max_seq_number_to_send : ℕ
  pub seq_number_rollover_threshold : ℕ
  pub max_seq_number_rcvd : ℕ
  pub rexmsn_ctrl : Bool
  pub rate_based : Bool
  pub window_based : Bool
  pub drf_required : Bool
  pub rate_fulfiled : Bool
  pub max_flow_pdu_size : ℕ
  pub max_flow_sdu_size : ℕ
  pub rcv_left_window_edge : ℕ
  pub window_closed : Bool
  pub drf_flag : Bool

-- `struct connection_t`
pub record Connection : Type 0 where
  pub port_id : ℕ
  pub source_address : ℕ
  pub destination_address : ℕ
  pub source_cep_id : ℕ
  pub destination_cep_id : ℕ
  pub qos_id : ℕ

pub data EfcpState : Type 0 where
  allocated deallocated : EfcpState

-- `struct efcp_t` with its connection and its `struct dtp_t`. `has_dtcp` says whether pxDtp->pxDtcp
-- is other than NULL.
pub record Efcp : Type 0 where
  pub connection : Connection
  pub sv : DtpSv
  pub has_dtcp : Bool
  pub state : EfcpState

-- `efcpImapRow_t`; the value is the place of an instance in `instances`, `none` for NULL.
pub record ImapRow : Type 0 where
  pub cep_id_key : ℕ
  pub efcp_value : Option ℕ
  pub valid : ℕ

-- `eFlowState_t`
pub data PortState : Type 0 where
  enabled allocated disabled do_not_disable deallocated : PortState

-- `rmtN1Port_t` with its statistics.
pub record N1Port : Type 0 where
  pub port_id : ℕ
  pub state : PortState
  pub busy : Bool
  pub plen : ℕ
  pub drop_pdus : ℕ
  pub err_pdus : ℕ
  pub tx_pdus : ℕ
  pub tx_bytes : ℕ
  pub rx_pdus : ℕ
  pub rx_bytes : ℕ

-- What leaves the data path: a data unit that is destroyed, handed to the flow allocator of a port
-- (xFlowAllocatorDuPost), handed to layer management (xNormalMgmtDuPost), or written to the N-1
-- IPC process (duWrite).
pub data Event : Type 0 where
  freed : Du → Event
  posted : ℕ → Du → Event
  managed : ℕ → Du → Event
  written : ℕ → Du → Event

-- What those three calls answer. Each takes over the data unit.
pub record Env : Type 0 where
  pub flow_allocator_du_post : ℕ → Du → Bool
  pub normal_mgmt_du_post : ℕ → Du → Bool
  pub du_write : ℕ → Du → Bool

-- `imap` is xEfcpImapTable, `instances` the memory of the EFCP instances (`none` once freed), and
-- `n1_port` what both xPortIdTable[0].pxPortN1 and the RMT's pxN1Port point to. `log` has the
-- last event first.
pub record World (bm : Buffers) : Type 0 where
  pub pool : bm.Pool
  pub imap : List ImapRow
  pub instances : List (Option Efcp)
  pub n1_port : Option N1Port
  pub log : List Event

module _ {bm : Buffers} where
  abbrev pub emit : Event → World bm → World bm
  emit e w = record w { log = e ∷ w.log }

  abbrev pub instance_at : World bm → ℕ → Option Efcp
  instance_at w i = get_or w.instances i none

  abbrev pub set_instance : World bm → ℕ → Efcp → World bm
  set_instance w i e = record w { instances = set w.instances i (some e) }
