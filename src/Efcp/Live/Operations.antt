-- ===== src/Efcp/Live/Operations.antt =====
-- The consistency of the table of EFCP instances, operation by operation of efcp.c.
use rinasensev.Prelude.{
  ℕ, suc, ◌≡◌, refl, Bool, true, none, some, length, length-set, arith, Bool-cases, inl, inr, ◌∙◌,
  Option-cases, subst, length-append_one, ◌⊎◌,
}
use rinasensev.Buffers.{Buffers}
use rinasensev.Ids.{is_cep_id_ok, is_port_id_ok}
use rinasensev.Pci
use rinasensev.Pci.{Pci}
use rinasensev.Du
use rinasensev.Du.{Du}
use rinasensev.Dtp
use rinasensev.Dtp.{Action, decide, discard, perform, pdu_post}
use rinasensev.Efcp.{
  new_connection, is_candidate_connection_ok, imap_remove, find, receive, note_peer, deliver,
  container_receive, with_connection, connection_modify, connection_update, connection_destroy,
  connection_create,
}
use rinasensev.Efcp.Imap.{forget, imap_find-Represents, imap_clear-Represents, imap_add-Represents}
use rinasensev.Stack.{Connection, Efcp, EfcpState, World, Env, instance_at, set_instance}
use rinasensev.Efcp.Live.{
  note_peer-state, AllBelow-weaken, Below, IsLive, IsSafe, IsSafeCreation, imap_find-AllBelow,
  imap_clear-AllBelow, imap_add-AllBelow, get_or-IsAllocated, set-AllAllocated, append-AllAllocated,
}

module _ (bm : Buffers) where
  pub set_instance-IsLive :
      (w : World bm) (i : ℕ) (e : Efcp)
      → e.state ≡ EfcpState.allocated
      → IsLive w
      → IsLive (set_instance w i e)
  set_instance-IsLive w i e s live = (
    rw (length-set w.instances i (some e)) (live.0),
    set-AllAllocated w.instances i e s live.1,
    live.2,
  )

  find-IsLive :
      (w : World bm) (cep : ℕ)
      → IsLive w
      → Below (length w.instances) (find bm w cep).0 × IsLive (find bm w cep).1
  unfolding find
  find-IsLive w cep live =
      let found = imap_find-AllBelow (length w.instances) cep w.imap live.0 in
      (
        found.0,
        (found.1, live.1, (live.2.0, (imap_find-Represents cep w.imap live.2.0 live.2.1).1)),
      )

  -- A search finds nothing, or an instance in use.
  pub find-cases :
      (w : World bm) (cep : ℕ)
      → IsLive w
      → ((find bm w cep).0 ≡ none)
        ⊎ ((i : ℕ) × (e : Efcp) × ((find bm w cep).0 ≡ some i)
            × (instance_at (find bm w cep).1 i ≡ some e)
            × (e.state ≡ EfcpState.allocated))
  unfolding find
  find-cases w cep live =
      let kept = find-IsLive w cep live in
      elim (Option-cases (find bm w cep).0) [
        | inl e ↦ inl e
        | inr (i, e) ↦
            let at =
              get_or-IsAllocated w.instances i (subst (Below (length w.instances)) e (kept.0))
                live.1 in
            inr (i, at.0, e, at.1, at.2)
      ]

  perform-IsLive :
      (env : Env) (w : World bm) (e : Efcp) (du : Du) (a : Action)
      → IsLive w
      → IsLive (perform bm env w e du a)
  unfolding perform pdu_post discard
  perform-IsLive env w e du Action.post live = live
  perform-IsLive env w e du Action.destroy live = live

  receive-IsLive :
      (env : Env) (w : World bm) (i : ℕ) (e : Efcp) (du : Du) (p : Pci)
      → Du.pci_of du ≡ some p
      → e.state ≡ EfcpState.allocated
      → IsLive w
      → IsSafe (receive bm env w i e du)
  unfolding receive Dtp.receive discard
  receive-IsLive env w i e du p header s live =
      let e' : Efcp = record e { sv = (decide e.sv p).0 } in
      let kept =
        perform-IsLive env (set_instance w i e') e' du (decide e.sv p).1
          (set_instance-IsLive w i e' s live) in
      rw (header, IsSafe)
        (elim (Bool-cases (Pci.pdu_type_is_control p.pdu_type)) [
          | inl c ↦ rw c (elim (Bool-cases e.has_dtcp) [ inl d ↦ rw d live | inr d ↦ rw d live ])
          | inr c ↦ rw (c, header) kept
        ])

  deliver-IsLive :
      (env : Env) (w : World bm) (i : ℕ) (e : Efcp) (du : Du) (p : Pci)
      → Du.pci_of du ≡ some p
      → e.state ≡ EfcpState.allocated
      → IsLive w
      → IsSafe (deliver bm env w i e du)
  unfolding deliver
  deliver-IsLive env w i e du p header s live =
      let s' = note_peer-state p e ∙ s in
      rw (s, header, IsSafe)
        (receive-IsLive env (set_instance w i (note_peer p e)) i (note_peer p e) du p header s'
          (set_instance-IsLive w i (note_peer p e) s' live))

  -- A data unit with a header is handled without a read of freed memory, whatever the CEP-id.
  pub container_receive-IsLive :
      (env : Env) (w : World bm) (cep : ℕ) (du : Du) (p : Pci)
      → Du.pci_of du ≡ some p
      → IsLive w
      → IsSafe (container_receive bm env w cep du)
  unfolding container_receive discard
  container_receive-IsLive env w cep du p header live = elim (Bool-cases (is_cep_id_ok cep)) [
    | inl ok ↦
        rw (ok, IsSafe)
          (let kept = (find-IsLive w cep live).1 in
            elim (find-cases w cep live) [
              | inl e ↦ rw (e, IsSafe) kept
              | inr (i, e, found, at, s) ↦
                  rw (found, at, IsSafe)
                    (deliver-IsLive env (find bm w cep).1 i e du p header s kept)
            ])
    | inr bad ↦ rw (bad, IsSafe) live
  ]

  with_connection-IsLive :
      (w : World bm) (cep : ℕ) (f : Connection → Connection)
      → IsLive w
      → IsSafe (with_connection bm w cep f)
  unfolding with_connection
  with_connection-IsLive w cep f live =
      let kept = (find-IsLive w cep live).1 in
      elim (find-cases w cep live) [
        | inl e ↦ rw (e, IsSafe) kept
        | inr (i, e, found, at, s) ↦
            rw (found, at, s, IsSafe)
              (set_instance-IsLive (find bm w cep).1 i (record e { connection = f e.connection }) s
                kept)
      ]

  pub connection_modify-IsLive :
      (w : World bm) (cep source destination : ℕ)
      → IsLive w
      → IsSafe (connection_modify bm w cep source destination)
  unfolding connection_modify
  connection_modify-IsLive w cep source destination live = with_connection-IsLive w cep _ live

  pub connection_update-IsLive :
      (w : World bm) (from to : ℕ) → IsLive w → IsSafe (connection_update bm w from to)
  unfolding connection_update
  connection_update-IsLive w from to live = elim (Bool-cases (is_cep_id_ok from)) [
    | inl f ↦ elim (Bool-cases (is_cep_id_ok to)) [
      | inl t ↦ rw (f, t, IsSafe) (with_connection-IsLive w from _ live)
      | inr t ↦ rw (f, t, IsSafe) live
    ]
    | inr f ↦ rw (f, IsSafe) live
  ]

  pub connection_destroy-IsLive :
      (w : World bm) (id : ℕ) → IsLive w → IsLive (connection_destroy bm w id).1
  unfolding connection_destroy imap_remove
  connection_destroy-IsLive w id live =
      let kept = (find-IsLive w id live).1 in
      elim (Bool-cases (is_cep_id_ok id)) [
        | inl ok ↦ elim (find-cases w id live) [
          | inl e ↦ rw (ok, e) kept
          | inr (i, e, found, at, s) ↦
              rw (ok, found)
                (
                  imap_clear-AllBelow (length w.instances) id (find bm w id).1.imap (kept.0),
                  kept.1,
                  (
                    forget id (kept.2.0),
                    imap_clear-Represents id (find bm w id).1.imap (kept.2.0) (kept.2.1),
                  ),
                )
        ]
        | inr bad ↦ rw bad live
      ]

  pub connection_create-IsLive :
      (w : World bm) (destination port qos destination_cep : ℕ) (has_memory dtcp_word : Bool)
      → is_port_id_ok port ≡ true
      → IsLive w
      → IsSafeCreation
          (connection_create bm w destination port qos destination_cep has_memory true dtcp_word)
  unfolding connection_create is_candidate_connection_ok
  connection_create-IsLive w destination port qos destination_cep has_memory dtcp_word ok live =
      let e : Efcp = record {
        connection = new_connection destination port qos destination_cep;
        sv = Dtp.state_vector_init;
        has_dtcp = dtcp_word;
        state = EfcpState.allocated;
      } in
      let added = imap_add-Represents 1 (length w.instances) w.imap (live.2.0) (live.2.1) in
      elim (Bool-cases has_memory) [
        | inl m ↦
            rw (m, ok, added.0, IsSafeCreation)
              (
                rw (length-append_one w.instances (some e)) (
                    imap_add-AllBelow (suc (length w.instances)) 1 (length w.instances) w.imap
                      (omega arith) (AllBelow-weaken (length w.instances) w.imap (live.0))),
                append-AllAllocated w.instances e refl (live.1),
                (some (1, length w.instances), added.1),
              )
        | inr m ↦ rw (m, IsSafeCreation) live
      ]
