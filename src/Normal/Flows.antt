-- ===== src/Normal/Flows.antt =====
-- The flows of components/Ipcp/IPCP_ops.c as a map from port ids, and the life of one.
use rinasensev.Prelude.{
  ℕ, ◌≡◌, refl, sym, ap, ◌∙◌, Bool, true, false, ◌==◌, Option, none, some, List, [], ◌∷◌, ==_refl,
  ==_iff, Bool-cases, inl, inr, arith,
}
use rinasensev.Buffers.{Buffers}
use rinasensev.RsList.{insert_behind}
use rinasensev.Du.{NetBuffer}
use rinasensev.Dtp.{discard}
use rinasensev.Efcp
use rinasensev.Outbound.{container_write}
use rinasensev.Stack.{World, Env}
use rinasensev.Normal.{
  NormalFlow, pending, allocated, find_flow, write_flow, flow_prebind, update_cep_id_flow,
  is_flow_allocated, du_write, connection_update,
}

-- A flow for a port that has none is found, and every other port finds what it found before.
find_flow-insert_behind :
    (f : NormalFlow) (flows : List NormalFlow)
    → find_flow flows f.port_id ≡ none
    → find_flow (insert_behind f flows) f.port_id ≡ some f
find_flow-insert_behind f [] free = rw (==_refl f.port_id) refl
find_flow-insert_behind f (x ∷ flows) free = elim (Bool-cases (x.port_id == f.port_id)) [
  | inl here ↦
      let found : find_flow (x ∷ flows) f.port_id ≡ some x = rw here refl in
      absurd (grind (arith, found, free))
  | inr there ↦ rw (there, ==_refl f.port_id) refl
]

find_flow-insert_other :
    (f : NormalFlow) (flows : List NormalFlow) (port : ℕ)
    → (f.port_id == port) ≡ false
    → find_flow (insert_behind f flows) port ≡ find_flow flows port
find_flow-insert_other f [] port other = rw other refl
find_flow-insert_other f (x ∷ flows) port other = rw other refl

abbrev with_change : (NormalFlow → NormalFlow) → Option NormalFlow → Option NormalFlow
with_change g none = none
with_change g (some f) = some (g f)

pub find_flow-write_flow :
    (g : NormalFlow → NormalFlow) (flows : List NormalFlow) (port : ℕ) (f : NormalFlow)
    → ((f : NormalFlow) → (g f).port_id ≡ f.port_id)
    → find_flow flows port ≡ some f
    → find_flow (write_flow g flows port) port ≡ some (g f)
find_flow-write_flow g [] port f keeps found = absurd (grind (arith, found))
find_flow-write_flow g (x ∷ flows) port f keeps found = elim (Bool-cases (x.port_id == port)) [
  | inl here ↦
      let first : find_flow (x ∷ flows) port ≡ some x = rw here refl in
      let again = ap (λ n. n == port) (keeps x) ∙ here in
      rw (here, again) (ap (with_change g) (sym first ∙ found))
  | inr there ↦
      let later : find_flow (x ∷ flows) port ≡ find_flow flows port = rw there refl in
      rw (there, there) (find_flow-write_flow g flows port f keeps (sym later ∙ found))
]

find_flow-write_other :
    (g : NormalFlow → NormalFlow) (flows : List NormalFlow) (port other : ℕ)
    → ((f : NormalFlow) → (g f).port_id ≡ f.port_id)
    → (port == other) ≡ false
    → find_flow (write_flow g flows port) other ≡ find_flow flows other
find_flow-write_other g [] port other keeps differs = refl
find_flow-write_other g (x ∷ flows) port other keeps differs =
    elim (Bool-cases (x.port_id == port)) [
      | inl here ↦
          let apart = ap (λ n. n == other) ((==_iff x.port_id port).0 here) ∙ differs in
          rw (here, keeps x, apart) refl
      | inr there ↦
          let rest = find_flow-write_other g flows port other keeps differs in
          elim (Bool-cases (x.port_id == other)) [
            | inl is ↦ rw (there, is) refl
            | inr is_not ↦ rw (there, is_not) rest
          ]
    ]

-- The flow that xNormalFlowPrebind makes, and the list behind it and behind the two changes of it.
abbrev pub prebound : ℕ → ℕ → NormalFlow
prebound port held = record { port_id = port; active = held; state = pending }

abbrev pub set_active : ℕ → NormalFlow → NormalFlow
set_active cep f = record f { active = cep }

abbrev set_allocated : NormalFlow → NormalFlow
set_allocated f = record f { state = allocated }

module _ (bm : Buffers) where
  -- A port that has no flow gets one by flow_prebind, with a block at hand. It is not allocated,
  -- and what is written to it is destroyed. update_cep_id_flow and connection_update, where the
  -- EFCP container takes the latter, find the flow; it is then allocated, and a buffer written to
  -- it goes to the EFCP container under the CEP-id that was set. Every other port finds the flow
  -- that it found before.
  pub connected_flow_writes :
      (env : Env) (w w1 : World bm) (has_rmt : Bool) (flows : List NormalFlow)
      (port cep held from to : ℕ) (b : NetBuffer)
      → find_flow flows port ≡ none
      → Efcp.connection_update bm w from to ≡ some (true, w1)
      → (flows1 : List NormalFlow) × (flows2 : List NormalFlow) × (flows3 : List NormalFlow)
        × (flow_prebind flows port true held ≡ (true, flows1))
        × (is_flow_allocated flows1 port ≡ false)
        × (du_write bm env w has_rmt flows1 port b
            ≡ some (false, discard bm w (record { buffer = some b; pci_at = none })))
        × (update_cep_id_flow flows1 port cep ≡ (true, flows2))
        × (connection_update bm w flows2 port from to ≡ some (true, flows3, w1))
        × (is_flow_allocated flows3 port ≡ true)
        × (du_write bm env w1 has_rmt flows3 port b
            ≡ container_write bm env w1 has_rmt cep (record { buffer = some b; pci_at = none }))
        × ((other : ℕ) → (port == other) ≡ false → find_flow flows3 other ≡ find_flow flows other)
  unfolding flow_prebind is_flow_allocated du_write update_cep_id_flow connection_update
  connected_flow_writes env w w1 has_rmt flows port cep held from to b free updated =
      let f = prebound port held in
      let flows1 = insert_behind f flows in
      let flows2 = write_flow (set_active cep) flows1 port in
      let found1 : find_flow flows1 port ≡ some f = find_flow-insert_behind f flows free in
      let found2 : find_flow flows2 port ≡ some (set_active cep f) =
        find_flow-write_flow (set_active cep) flows1 port f (λ f. refl) found1 in
      let found3 =
        find_flow-write_flow set_allocated flows2 port (set_active cep f) (λ f. refl) found2 in
      (
        flows1,
        flows2,
        write_flow set_allocated flows2 port,
        refl,
        rw found1 refl,
        rw found1 refl,
        rw found1 refl,
        rw (updated, found2) refl,
        rw found3 refl,
        rw found3 refl,
        λ other differs.
            find_flow-write_other set_allocated flows2 port other (λ f. refl) differs
            ∙ find_flow-write_other (set_active cep) flows1 port other (λ f. refl) differs
            ∙ find_flow-insert_other f flows other differs,
      )
