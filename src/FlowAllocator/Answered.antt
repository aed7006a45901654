-- ===== src/FlowAllocator/Answered.antt =====
-- xFlowAllocatorHandleCreateR and xFlowAllocatorDuPost of components/Ipcp/Modules/flowAllocator.c
-- on a table whose first row has the instance.
use rinasensev.Prelude.{
  ℕ, ◌<◌, ◌%◌, ◌^◌, ◌≡◌, refl, true, false, ==_refl, Option, some, List, ◌∷◌, arith,
}
use rinasensev.Buffers.{Buffers}
use rinasensev.Ids.{is_port_id_ok}
use rinasensev.Efcp.Changes.{
  HasConnection, connection_modify-HasConnection, connection_update-HasConnection,
}
use rinasensev.Gpha.{Bytes}
use rinasensev.Stack.{Connection, World}
use rinasensev.Du.{NetBuffer}
use rinasensev.Table.{Slot}
use rinasensev.Normal.{
  NormalFlow, FlowState, connection_modify, connection_update, find_flow, write_flow,
}
use rinasensev.Normal.Flows.{find_flow-write_flow}
use rinasensev.FlowAllocator.{Fai, find_instance, post, du_post}
use rinasensev.FlowAllocator.First.{filled}
use rinasensev.FlowAllocator.Response.{
  FlowReply, FlowMessage, Bound, bind_flow, decode_flow_fields, handle_create_r,
}
use rinasensev.FlowAllocator.Request.{FlowHandle, new_fai}

-- An instance in the first row is the one that its port finds.
pub find_instance-first :
    (fai : Fai) (rows : List (Slot Fai))
    → find_instance (filled fai ∷ rows) fai.port_id ≡ some (some fai)
unfolding find_instance
find_instance-first fai rows = rw (==_refl fai.port_id) refl

-- Before the response a data unit for the port is refused, and after it is kept.
pub du_post-new :
    (handle : FlowHandle) (port : ℕ) (rows : List (Slot Fai)) (b : NetBuffer) (at : Option ℕ)
    → is_port_id_ok port ≡ true
    → du_post (filled (new_fai handle port) ∷ rows) port (record { buffer = some b; pci_at = at })
      ≡ some (false, filled (new_fai handle port) ∷ rows)
unfolding du_post
du_post-new handle port rows b at good =
    rw (good, find_instance-first (new_fai handle port) rows) refl

-- The message of the peer: the port, the two addresses, and CEP-id 1 on both sides.
abbrev pub reply_for : (port there back : ℕ) → FlowReply
reply_for port there back = record {
  destination_address = some there;
  destination_port_id = some port;
  source_address = back;
  destination_cep_id = some 1;
  source_cep_id = some 1;
}

pub du_post-bound :
    (handle : FlowHandle) (port : ℕ) (rows : List (Slot Fai)) (b : NetBuffer) (at : Option ℕ)
    → is_port_id_ok port ≡ true
    → du_post
        (filled (bind_flow (new_fai handle port)) ∷ rows)
        port
        (record { buffer = some b; pci_at = at })
      ≡ some (true, filled (post b (bind_flow (new_fai handle port))) ∷ rows)
unfolding du_post
du_post-bound handle port rows b at good =
    rw (good, find_instance-first (bind_flow (new_fai handle port)) rows) refl

module _ (bm : Buffers) where
  -- The response on a connection with CEP-id 1 goes through both changes of the connection.
  pub handle_create_r-new :
      (decode : Bytes → Option FlowReply) (held : FlowMessage) (w : World bm)
      (flows : List NormalFlow) (c : Connection) (handle : FlowHandle) (port : ℕ)
      (rows : List (Slot Fai)) (value : Bytes) (f : NormalFlow) (there back : ℕ)
      → decode value ≡ some (reply_for port there back)
      → port < 2 ^ 32
      → there < 2 ^ 8
      → back < 2 ^ 8
      → HasConnection bm w 1 c
      → find_flow flows port ≡ some f
      → (r : Bound bm) × (handle_create_r bm decode true held w flows
            (filled (new_fai handle port) ∷ rows)
            (some value)
            0
          ≡ some r)
        × (r.answer ≡ true)
        × (r.rows ≡ filled (bind_flow (new_fai handle port)) ∷ rows)
        × (find_flow r.flows port ≡ some (record f { state = FlowState.allocated }))
        × HasConnection bm r.world 1 (record c {
          source_address = there;
          destination_address = back;
          destination_cep_id = 1;
        })
  unfolding handle_create_r connection_modify connection_update decode_flow_fields
  handle_create_r-new decode held w flows c handle port rows value f there back decoded small small1
        small2 has has_flow =
      let (w1, run1, has1) = connection_modify-HasConnection bm w 1 c there back has in
      let (w2, run2, has2) =
        connection_update-HasConnection bm w1 1 1
          (record c { source_address = there; destination_address = back }) refl refl has1 in
      let new = new_fai handle port in
      let port_is : port % 2 ^ 32 ≡ port = omega (arith, small) in
      let there_is : there % 2 ^ 8 ≡ there = omega (arith, small1) in
      let back_is : back % 2 ^ 8 ≡ back = omega (arith, small2) in
      (
        record {
          answer = true;
          rows = filled (bind_flow new) ∷ rows;
          flows = write_flow (λ f. record f { state = FlowState.allocated }) flows port;
          world = w2;
        },
        rw (decoded, port_is, there_is, back_is, find_instance-first new rows, run1, run2, has_flow)
            refl,
        refl,
        refl,
        find_flow-write_flow (λ f. record f { state = FlowState.allocated }) flows port f
            (λ f. refl) has_flow,
        has2,
      )
