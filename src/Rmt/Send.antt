-- ===== src/Rmt/Send.antt =====
-- xRmtSend of rmt.c on a port that has nothing queued.
use rinasensev.Prelude.{
  ℕ, ◌+◌, ◌%◌, ◌^◌, ◌<◌, ◌≡◌, refl, ap, sym, subst, ◌∙◌, Bool, true, false, ltb, ◌||◌,
  if◌then◌else◌, Option, none, some, List, [], ◌∷◌, length, arith,
}
use rinasensev.Buffers.{Buffers}
use rinasensev.Pci
use rinasensev.Pci.{Pci}
use rinasensev.Du
use rinasensev.Du.{Du}
use rinasensev.Rmt.{to_nat, is_disabled, count_tx, n1_port_write_du, send_port_id, send}
use rinasensev.Stack.{N1Port, World, Env, Event, written}

-- A port that takes a data unit at once.
abbrev pub IsReady : N1Port → Type 0
IsReady port = (port.plen ≡ 0) × (port.busy ≡ false) × (is_disabled port.state ≡ false)

-- The header is there and its type is known.
abbrev pub IsSendable : Du → Type 0
IsSendable du = (p : Pci) × (Du.pci_of du ≡ some p) × (Pci.is_ok p ≡ true)

abbrev pub AllSendable : List Du → Type 0
AllSendable [] = Unit {0}
AllSendable (du ∷ dus) = IsSendable du × AllSendable dus

-- The log after the data units were written to a port in order.
abbrev pub written_all : ℕ → List Du → List Event → List Event
written_all port [] log = log
written_all port (du ∷ dus) log = written_all port dus (written port du ∷ log)

takes_at_once :
    (port : N1Port)
    → IsReady port
    → (ltb 0 port.plen || port.busy || is_disabled port.state) ≡ false
takes_at_once port ready = rw (ready.0, ready.1, ready.2) refl

module _ (bm : Buffers) (env : Env) where
  -- How many of the writes the N-1 IPC process answers with success.
  abbrev pub successes : ℕ → List Du → ℕ
  successes port [] = 0
  successes port (du ∷ dus) = to_nat (env.du_write port du) + successes port dus

  -- The state of the port after one data unit.
  abbrev pub sent : N1Port → Du → N1Port
  sent port du = count_tx (record port { busy = false }) (to_nat (env.du_write port.port_id du))

  pub send_port_id_ready :
      (w : World bm) (port : N1Port) (du : Du)
      → w.n1_port ≡ some port
      → IsReady port
      → send_port_id bm env w du
        ≡ (true, record w { n1_port = some (sent port du); log = written port.port_id du ∷ w.log })
  unfolding send_port_id n1_port_write_du
  send_port_id_ready w port du bound ready = rw (bound, takes_at_once port ready) refl

  pub send_ready :
      (w : World bm) (port : N1Port) (du : Du)
      → w.n1_port ≡ some port
      → IsReady port
      → IsSendable du
      → send bm env w true du
        ≡ some (
          true,
          record w { n1_port = some (sent port du); log = written port.port_id du ∷ w.log },
        )
  unfolding send
  send_ready w port du bound ready sendable =
      rw (sendable.1, sendable.2, bound) (ap some (send_port_id_ready w port du bound ready))

  -- xRmtSend for each data unit; `true` where every call answered `true`.
  abbrev pub send_all : World bm → List Du → Option (Bool × World bm)
  send_all w [] = some (true, w)
  send_all w (du ∷ dus) = elim (send bm env w true du) [
    | none ↦ none
    | some r ↦ if r.0 then send_all r.1 dus else some (false, r.1)
  ]

  -- The port holds the counts of the PDUs and of the successes, and takes the next data unit at
  -- once.
  abbrev pub Counts : N1Port → List Du → Option N1Port → Type 0
  Counts port dus none = ⊥
  Counts port dus (some q) =
      (q.tx_pdus ≡ (port.tx_pdus + length dus) % 2 ^ 32)
      × (q.tx_bytes ≡ (port.tx_bytes + successes port.port_id dus) % 2 ^ 32)
      × IsReady q

  abbrev pub Sent : N1Port → List Du → World bm → Option (Bool × World bm) → Type 0
  Sent port dus w none = ⊥
  Sent port dus w (some r) =
      (r.0 ≡ true) × (r.1.log ≡ written_all port.port_id dus w.log) × Counts port dus r.1.n1_port

  Counts-cons :
      (port : N1Port) (du : Du) (dus : List Du) (o : Option N1Port)
      → Counts (sent port du) dus o
      → Counts port (du ∷ dus) o
  Counts-cons port du dus none h = h
  Counts-cons port du dus (some q) h = (omega (arith, h.0), omega (arith, h.1), h.2)

  Sent-cons :
      (port : N1Port) (du : Du) (dus : List Du) (w w' : World bm) (o : Option (Bool × World bm))
      → w'.log ≡ written port.port_id du ∷ w.log
      → Sent (sent port du) dus w' o
      → Sent port (du ∷ dus) w o
  Sent-cons port du dus w w' none log h = h
  Sent-cons port du dus w w' (some r) log h =
      (h.0, h.1 ∙ ap (written_all port.port_id dus) log, Counts-cons port du dus r.1.n1_port h.2)

  -- Data units with headers of known types that are sent one after another on a port that has
  -- nothing queued, is not busy and not disabled, and whose two counters have 32 bits, are written
  -- to the N-1 IPC process, each once and in their order. Every call answers `true` whatever the
  -- N-1 IPC process answers; tx_pdus counts the data units, tx_bytes counts the writes that
  -- succeeded, modulo 2 ^ 32; and the port is then ready again.
  pub send_all-Sent :
      (w : World bm) (port : N1Port) (dus : List Du)
      → w.n1_port ≡ some port
      → IsReady port
      → port.tx_pdus < 2 ^ 32
      → port.tx_bytes < 2 ^ 32
      → AllSendable dus
      → Sent port dus w (send_all w dus)
  send_all-Sent w port [] bound ready small small' ok =
      (refl, refl, rw bound (omega arith, omega arith, ready))
  send_all-Sent w port (du ∷ dus) bound ready small small' ok =
      let w' : World bm = record w {
        n1_port = some (sent port du);
        log = written port.port_id du ∷ w.log;
      } in
      let rest =
        send_all-Sent w' (sent port du) dus refl (ready.0, refl, ready.2) (omega arith)
          (omega arith) ok.1 in
      let first : send_all w (du ∷ dus) ≡ send_all w' dus =
        rw (send_ready w port du bound ready (ok.0), send_all) refl in
      subst (Sent port (du ∷ dus) w) (sym first)
        (Sent-cons port du dus w w' (send_all w' dus) refl rest)
