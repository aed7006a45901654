-- ===== src/Efcp/Receive.antt =====
-- What becomes of a data unit in the EFCP container of efcp.c.
use rinasensev.Prelude.{
  ℕ, ◌≡◌, refl, ap, sym, subst, ◌∙◌, Bool, true, false, not, ◌&&◌, ◌==◌, if◌then◌else◌, Option,
  none, some, List, ◌∷◌, Bool-cases, inl, inr,
}
use rinasensev.Buffers.{Buffers}
use rinasensev.Ids.{is_cep_id_ok, cep_id_wrong}
use rinasensev.Pci
use rinasensev.Pci.{Pci, pdu_type_dt}
use rinasensev.Du
use rinasensev.Du.{Du}
use rinasensev.Dtp
use rinasensev.Dtp.{Action, decide, discard, perform, pdu_post}
use rinasensev.Dtp.Window.{is_accepted, decide-is_accepted}
use rinasensev.Efcp.{find, receive, note_peer, deliver, container_receive}
use rinasensev.Efcp.Live.{IsLive}
use rinasensev.Efcp.Live.Operations.{find-cases}
use rinasensev.Stack.{
  DtpSv, Efcp, EfcpState, World, Env, Event, freed, posted, instance_at, set_instance,
}

-- What becomes of a data unit, decided before anything changes: it goes up to a port, or to layer
-- management, or it is destroyed, or it is left to nobody.
pub data Fate : Type 0 where
  goes_up managed : ℕ → Fate
  destroyed lost : Fate

abbrev pub fate_in : Efcp → Pci → Fate
fate_in e p =
    if Pci.pdu_type_is_control p.pdu_type
    then (if e.has_dtcp then Fate.lost else Fate.destroyed)
    else (if is_accepted e.sv p then Fate.goes_up e.connection.port_id else Fate.destroyed)

-- The events that a fate adds to the log.
abbrev pub recorded : Du → Fate → List Event → List Event
recorded du (Fate.goes_up port) log = posted port du ∷ log
recorded du (Fate.managed port) log = Event.managed port du ∷ log
recorded du Fate.destroyed log = freed du ∷ log
recorded du Fate.lost log = log

-- A data unit that is destroyed gives its buffer back.
abbrev pub returned : (bm : Buffers) → Du → Fate → bm.Pool → bm.Pool
returned bm du Fate.destroyed pool = Du.destroy bm pool du
returned bm du f pool = pool

module _ {bm : Buffers} where
  -- The operation returns from the state `w`, and the data unit had the fate: once.
  abbrev pub Ends : Du → Fate → World bm → Option (Bool × World bm) → Type 0
  Ends du f w none = ⊥
  Ends du f w (some r) = (r.1.log ≡ recorded du f w.log) × (r.1.pool ≡ returned bm du f w.pool)

  pub Ends-as :
      (du : Du) (w : World bm) (f g : Fate) (o : Option (Bool × World bm))
      → f ≡ g
      → Ends du g w o
      → Ends du f w o
  Ends-as du w f g o e h = subst (λ f. Ends du f w o) (sym e) h

decide-post : (sv : DtpSv) (p : Pci) → is_accepted sv p ≡ true → (decide sv p).1 ≡ Action.post
decide-post sv p a = decide-is_accepted sv p ∙ ap (λ b. if b then Action.post else Action.destroy) a

decide-destroy :
    (sv : DtpSv) (p : Pci) → is_accepted sv p ≡ false → (decide sv p).1 ≡ Action.destroy
decide-destroy sv p a =
    decide-is_accepted sv p ∙ ap (λ b. if b then Action.post else Action.destroy) a

fate_in-note_peer : (e : Efcp) (p : Pci) → fate_in (note_peer p e) p ≡ fate_in e p
unfolding note_peer
fate_in-note_peer e p =
    elim (Bool-cases
      (p.pdu_type == pdu_type_dt && not (e.connection.destination_cep_id == cep_id_wrong))) [
        | inl c ↦ rw c refl
        | inr c ↦ rw c refl
      ]

module _ (bm : Buffers) where
  -- The fate of a data unit with the header `p` for the CEP-id.
  abbrev pub fate : World bm → ℕ → Pci → Fate
  fate w cep p =
      if is_cep_id_ok cep
      then elim (find bm w cep).0 [
        | none ↦ Fate.destroyed
        | some i ↦ elim (instance_at w i) [ none ↦ Fate.destroyed | some e ↦ fate_in e p ]
      ]
      else Fate.destroyed

  receive-Ends :
      (env : Env) (w : World bm) (i : ℕ) (e : Efcp) (du : Du) (p : Pci)
      → Du.pci_of du ≡ some p
      → Ends du (fate_in e p) w (receive bm env w i e du)
  unfolding receive Dtp.receive discard
  receive-Ends env w i e du p header =
      let to = Ends-as du w (fate_in e p) in
      elim (Bool-cases (Pci.pdu_type_is_control p.pdu_type)) [
        | inl c ↦ elim (Bool-cases e.has_dtcp) [
          | inl d ↦ to Fate.lost _ (rw (c, d) refl) (rw (header, c, d, Ends) (refl, refl))
          | inr d ↦ to Fate.destroyed _ (rw (c, d) refl) (rw (header, c, d, Ends) (refl, refl))
        ]
        | inr c ↦ elim (Bool-cases (is_accepted e.sv p)) [
          | inl a ↦
              to (Fate.goes_up e.connection.port_id) _ (rw (c, a) refl)
                (rw (header, c, Ends) (rw (header, decide-post e.sv p a) (refl, refl)))
          | inr a ↦
              to Fate.destroyed _ (rw (c, a) refl)
                (rw (header, c, Ends) (rw (header, decide-destroy e.sv p a) (refl, refl)))
        ]
      ]

  deliver-Ends :
      (env : Env) (w : World bm) (i : ℕ) (e : Efcp) (du : Du) (p : Pci)
      → Du.pci_of du ≡ some p
      → e.state ≡ EfcpState.allocated
      → Ends du (fate_in e p) w (deliver bm env w i e du)
  unfolding deliver
  deliver-Ends env w i e du p header s =
      rw (s, header, Ends)
        (subst
          (λ f.
            Ends du f w (receive bm env (set_instance w i (note_peer p e)) i (note_peer p e) du))
          (fate_in-note_peer e p)
          (receive-Ends env (set_instance w i (note_peer p e)) i (note_peer p e) du p header))

  -- In a consistent state the container returns and does with a data unit that has a header what
  -- the header and the table say: it goes up to the port of the instance found, once, where the
  -- instance takes it; it is destroyed, once, where the CEP-id is wrong or unknown or the instance
  -- refuses it; nothing becomes of it where it is a control PDU of a flow with a DTCP.
  pub container_receive-fate :
      (env : Env) (w : World bm) (cep : ℕ) (du : Du) (p : Pci)
      → Du.pci_of du ≡ some p
      → IsLive w
      → Ends du (fate w cep p) w (container_receive bm env w cep du)
  unfolding container_receive discard find
  container_receive-fate env w cep du p header live = elim (Bool-cases (is_cep_id_ok cep)) [
    | inl ok ↦ elim (find-cases bm w cep live) [
      | inl e ↦
          Ends-as du w (fate w cep p) Fate.destroyed _ (rw (ok, e) refl) (rw (ok, e) (refl, refl))
      | inr (i, e, found, at, s) ↦
          Ends-as du w (fate w cep p) (fate_in e p) _ (rw (ok, found, at) refl)
            (rw (ok, found, at) (deliver-Ends env (find bm w cep).1 i e du p header s))
    ]
    | inr bad ↦ Ends-as du w (fate w cep p) Fate.destroyed _ (rw bad refl) (rw bad (refl, refl))
  ]
