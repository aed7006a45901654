-- ===== src/Api.antt =====
-- components/Rina-api/rina_api.c: what an application calls. An event that goes to the task of the
-- IPC process is a value, and whether the queue takes it an argument.
pub mod Write
use rinasensev.Prelude.{
  ℕ, Bool, true, false, not, ◌&&◌, ltb, if◌then◌else◌, Option, none, some, List, [], ◌∷◌, ◌++◌,
  take, drop,
}
use rinasensev.Buffers.{Buffers}
use rinasensev.Gpha.{Bytes}
use rinasensev.Ids.{is_port_id_ok}
use rinasensev.Du.{NetBuffer}
use rinasensev.Normal.{NormalFlow, is_flow_allocated}

abbrev pub max_sdu_size : ℕ
max_sdu_size = 1500

-- What an application asks of the task.
pub data Event : Type 0 where
  bind allocate deallocate : ℕ → Event
  transmit : ℕ → NetBuffer → Event

-- RINA_flowStatus.
unfoldable pub flow_status : List NormalFlow → ℕ → Bool
flow_status flows port = is_flow_allocated flows port

-- xRINA_bind of a handle, by its port id, or of NULL; the wait for eFLOW_BOUND is left out.
unfoldable pub bind_flow : (queued : Bool) → Option ℕ → Bool × Option Event
bind_flow queued none = (false, none)
bind_flow queued (some port) = if queued then (true, some (Event.bind port)) else (false, none)

-- prvConnect: the answer as the caller tests it, and the events in their order; -1 is true. That
-- the flow is allocated already is logged and then forgotten.
unfoldable pub connect : (bound queued timer : Bool) → Option ℕ → Bool × List Event
connect bound queued timer none = (false, [])
connect bound queued timer (some port) =
    if not bound
    then (false, [])
    else if not queued
    then (true, Event.bind port ∷ [])
    else (timer, Event.bind port ∷ Event.allocate port ∷ [])

-- RINA_close.
unfoldable pub close : (queued : Bool) → ℕ → Bool × Option Event
close queued port =
    if is_port_id_ok port && queued then (true, some (Event.deallocate port)) else (false, none)

-- The buffer of `len` bytes once they are copied over what it held.
abbrev pub filled : NetBuffer → Bytes → ℕ → NetBuffer
filled held bytes len = record held {
  ethernet = take len bytes ++ drop len held.ethernet;
  data_length = len;
}

module _ (bm : Buffers) where
  open bm use {Pool, get, release}

  -- RINA_flow_write on the answer of the pool. `time_left` is the answer of xRsTimeCheckTimeOut,
  -- without which the buffer is kept by nobody.
  abbrev pub write_buffer :
      (time_left queued : Bool)
      → Pool
      → ℕ
      → Bytes
      → ℕ
      → NetBuffer
      → Option Pool
      → ℕ × Option Event × Pool
  write_buffer time_left queued pool port bytes len held none = (0, none, pool)
  write_buffer time_left queued pool port bytes len held (some pool1) =
      if not time_left
      then (0, none, pool1)
      else if queued
      then (len, some (Event.transmit port (filled held bytes len)), pool1)
      else (0, none, release pool1)

  -- RINA_flow_write: `held` is what the buffer that is got was before, `none` the failed assertion.
  unfoldable pub flow_write :
      (time_set time_left queued : Bool)
      → Pool
      → ℕ
      → Bytes
      → ℕ
      → NetBuffer
      → Option (ℕ × Option Event × Pool)
  flow_write time_set time_left queued pool port bytes len held =
      if ltb max_sdu_size len
      then none
      else if time_set
      then some (write_buffer time_left queued pool port bytes len held (get pool len))
      else some (0, none, pool)
