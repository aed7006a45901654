-- ===== src/FlowAllocator/First.antt =====
-- The search of components/Ipcp/Modules/flowAllocator.c in a table whose first row is filled.
use rinasensev.Prelude.{
  ℕ, ◌≡◌, ◌≢◌, refl, true, false, ==_ne, Bool-cases, inl, inr, Option, none, some, List, [], ◌∷◌,
}
use rinasensev.Ids.{is_port_id_ok}
use rinasensev.Du.{Du, NetBuffer}
use rinasensev.Table.{Slot, insert}
use rinasensev.FlowAllocator.{
  Fai, search_rows, find_instance, add_flow_request_entry, post_buffer, du_post,
}

abbrev pub filled : Fai → Slot Fai
filled fai = record { valid = true; item = fai }

search_rows-other :
    (first : Fai) (rows : List (Slot Fai)) (port : ℕ)
    → first.port_id ≢ port
    → search_rows (filled first) rows port ≡ some none
search_rows-other first [] port h = refl
search_rows-other first (r ∷ rows) port h = elim (Bool-cases r.valid) [
  | inl used ↦ rw (used, ==_ne first.port_id port h) (search_rows-other first rows port h)
  | inr unused ↦ rw unused (search_rows-other first rows port h)
]

post_buffer-other :
    (first : Fai) (rows : List (Slot Fai)) (port : ℕ) (b : Option NetBuffer)
    → first.port_id ≢ port
    → post_buffer (filled first ∷ rows) port b ≡ some (false, filled first ∷ rows)
unfolding find_instance
post_buffer-other first rows port none h = refl
post_buffer-other first rows port (some b) h = elim (Bool-cases (is_port_id_ok port)) [
  | inl fine ↦ rw (fine, ==_ne first.port_id port h, search_rows-other first rows port h) refl
  | inr wrong ↦ rw wrong refl
]

-- A flow whose instance is added to a table that has another flow in its first row is not served: a
-- data unit for its port is destroyed, with the answer false, and the table stays as it was.
pub second_flow_is_refused :
    (first second : Fai) (rows : List (Slot Fai)) (du : Du)
    → first.port_id ≢ second.port_id
    → du_post (add_flow_request_entry second (filled first ∷ rows)) second.port_id du
      ≡ some (false, add_flow_request_entry second (filled first ∷ rows))
unfolding du_post
second_flow_is_refused first second rows du h =
    post_buffer-other first (insert second rows) second.port_id du.buffer h
