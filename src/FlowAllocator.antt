-- ===== src/FlowAllocator.antt =====
-- components/Ipcp/Modules/flowAllocator.c: the table of the instances of the flow allocator and the
-- delivery of data units to applications. The request of a flow and the response to it have modules
-- of their own.
pub mod First
pub mod Request
pub mod Response
pub mod Asked
pub mod Answered
pub mod Life
use rinasensev.Prelude.{
  ℕ, Bool, true, false, not, ◌||◌, if◌then◌else◌, ◌==◌, Option, none, some, List, [], ◌∷◌, ◌++◌,
  ◌>>=◌,
}
use rinasensev.Ids.{is_port_id_ok}
use rinasensev.Gpha.{Bytes}
use rinasensev.Du.{Du, NetBuffer}
use rinasensev.Table.{Slot, insert}
use rinasensev.RsList.{insert_behind}

-- eFaiState_t.
pub data FaiState : Type 0 where
  fai_none fai_pending fai_allocated : FaiState

-- flowAllocatorInstance_t with what its handle is used for: the list of the packets that wait, from
-- its head on, and the two event bits.
pub record Fai : Type 0 where
  pub port_id : ℕ
  pub state : FaiState
  pub waiting : List NetBuffer
  pub flow_bound : Bool
  pub flow_receive : Bool

-- prvAddFlowRequestEntry.
abbrev pub add_flow_request_entry : Fai → List (Slot Fai) → List (Slot Fai)
add_flow_request_entry fai rows = insert fai rows

-- The loop of pxFAFindInstance. Its body reads the first row of the table, whatever row it is at;
-- when that row was never filled, it reads through NULL.
abbrev pub search_rows : Slot Fai → List (Slot Fai) → ℕ → Option (Option Fai)
search_rows first [] port = some none
search_rows first (r ∷ rows) port =
    let rest = search_rows first rows port in
    if not r.valid
    then rest
    else if not first.valid
    then none
    else if first.item.port_id == port
    then some (some first.item)
    else rest

-- pxFAFindInstance, and pxFAFindFlowHandle and prvGetPendingFlowRequest, which return the handle.
unfoldable pub find_instance : List (Slot Fai) → ℕ → Option (Option Fai)
find_instance [] port = some none
find_instance (r ∷ rows) port = search_rows r (r ∷ rows) port

-- A write through the pointer that the search returns: it is the first row's.
abbrev pub write_instance : (Fai → Fai) → List (Slot Fai) → List (Slot Fai)
write_instance f [] = []
write_instance f (r ∷ rows) = record { valid = r.valid; item = f r.item } ∷ rows

abbrev pub post : NetBuffer → Fai → Fai
post b fai = record fai { waiting = insert_behind b fai.waiting; flow_receive = true }

abbrev pub is_allocated : FaiState → Bool
is_allocated fai_none = false
is_allocated fai_pending = false
is_allocated fai_allocated = true

-- What xFlowAllocatorDuPost does with the buffer when it has found the instance, or not.
abbrev pub post_to : List (Slot Fai) → NetBuffer → Option Fai → Bool × List (Slot Fai)
post_to rows b none = (false, rows)
post_to rows b (some fai) =
    if not (is_allocated fai.state) then (false, rows) else (true, write_instance (post b) rows)

abbrev pub post_buffer : List (Slot Fai) → ℕ → Option NetBuffer → Option (Bool × List (Slot Fai))
post_buffer rows port none = some (false, rows)
post_buffer rows port (some b) =
    if not (is_port_id_ok port)
    then some (false, rows)
    else do found ← find_instance rows port; some (post_to rows b found)

-- xFlowAllocatorDuPost. The answer `false` says that the data unit was destroyed.
unfoldable pub du_post : List (Slot Fai) → ℕ → Du → Option (Bool × List (Slot Fai))
du_post rows port du = post_buffer rows port du.buffer
