-- ===== src/Tests/Flows.antt =====
-- The flow allocator with two allocated flows, on the ports 3 and 4.
use rinasensev.Prelude.{ℕ, ◌≡◌, true, false, some, [], ◌∷◌, arith}
use rinasensev.Table.{Slot}
use rinasensev.FlowAllocator.{Fai, fai_allocated, add_flow_request_entry, du_post}
use rinasensev.FlowAllocator.First.{filled, second_flow_is_refused}
use rinasensev.Tests.{data_unit}

abbrev pub allocated : ℕ → Fai
allocated port = record {
  port_id = port;
  state = fai_allocated;
  waiting = [];
  flow_bound = true;
  flow_receive = false;
}

abbrev pub free : Slot Fai
free = record { valid = false; item = allocated 0 }

second_flow_is_refused_example :
    du_post (add_flow_request_entry (allocated 4) (filled (allocated 3) ∷ free ∷ [])) 4 data_unit
    ≡ some (false, add_flow_request_entry (allocated 4) (filled (allocated 3) ∷ free ∷ []))
second_flow_is_refused_example =
    second_flow_is_refused (allocated 3) (allocated 4) (free ∷ []) data_unit
      (λ e. absurd (omega (arith, e)))
