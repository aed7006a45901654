-- ===== src/Efcp/Changes.antt =====
-- The changes of a connection in efcp.c, on the connection that its table leads to.
use rinasensev.Prelude.{
  ℕ, ◌<◌, ◌≡◌, refl, subst, sym, ap, ◌∙◌, Bool, true, ==_refl, none, some, [], ◌∷◌, ◌++◌, length,
  get_or-set_self, get_or-append_one, length-set, length-append_one, arith,
}
use rinasensev.Buffers.{Buffers}
use rinasensev.Ids.{is_cep_id_ok, is_port_id_ok}
use rinasensev.Dtp
use rinasensev.Efcp.{
  local_address, imap_add, find, new_connection, is_candidate_connection_ok, with_connection,
  connection_modify, connection_update, connection_create,
}
use rinasensev.Efcp.Imap.{Entry, lookup, Represents, imap_find-Represents, imap_add-Represents}
use rinasensev.Stack.{Connection, Efcp, EfcpState, World, instance_at, set_instance}

module _ (bm : Buffers) where
  -- The table leads from the CEP-id to an instance that is allocated and has the connection.
  pub record HasConnection (w : World bm) (cep : ℕ) (c : Connection) : Type 0 where
    pub place : ℕ
    pub efcp : Efcp
    pub represents : Represents w.imap (some (cep, place))
    pub below : place < length w.instances
    pub at : instance_at w place ≡ some efcp
    pub is_allocated : efcp.state ≡ EfcpState.allocated
    pub connection : efcp.connection ≡ c

  find-HasConnection :
      (w : World bm) (cep : ℕ) (c : Connection) (h : HasConnection w cep c)
      → ((find bm w cep).0 ≡ some h.place)
        × (instance_at (find bm w cep).1 h.place ≡ some h.efcp)
        × (h.place < length (find bm w cep).1.instances)
        × Represents (find bm w cep).1.imap (some (cep, h.place))
  unfolding find
  find-HasConnection w cep c h =
      let found = imap_find-Represents cep w.imap (some (cep, h.place)) h.represents in
      let same : lookup cep (some (cep, h.place)) ≡ some h.place = rw (==_refl cep) refl in
      (found.0 ∙ same, h.at, h.below, found.1)

  with_connection-HasConnection :
      (w : World bm) (cep : ℕ) (c : Connection) (f : Connection → Connection)
      → HasConnection w cep c
      → (w' : World bm) × (with_connection bm w cep f ≡ some (true, w'))
        × HasConnection w' cep (f c)
  unfolding with_connection
  with_connection-HasConnection w cep c f h =
      let (found, at, below, table) = find-HasConnection w cep c h in
      let w1 : World bm = (find bm w cep).1 in
      let e : Efcp = record h.efcp { connection = f h.efcp.connection } in
      (
        set_instance w1 h.place e,
        rw (found, at, h.is_allocated, with_connection)
            (ap (λ s. some (true, set_instance w1 h.place (record e { state = s })))
              h.is_allocated),
        record {
          place = h.place;
          efcp = e;
          represents = table;
          below = subst (λ n. h.place < n) (sym (length-set w1.instances h.place (some e))) below;
          at = get_or-set_self w1.instances h.place (some e) none below;
          is_allocated = h.is_allocated;
          connection = ap f h.connection;
        },
      )

  -- connection_modify of the CEP-id of a connection succeeds and gives it both addresses.
  pub connection_modify-HasConnection :
      (w : World bm) (cep : ℕ) (c : Connection) (source destination : ℕ)
      → HasConnection w cep c
      → (w' : World bm) × (connection_modify bm w cep source destination ≡ some (true, w'))
        × HasConnection w' cep
            (record c { source_address = source; destination_address = destination })
  unfolding connection_modify
  connection_modify-HasConnection w cep c source destination h =
      with_connection-HasConnection w cep c
        (λ c. record c { source_address = source; destination_address = destination }) h

  -- connection_update between two CEP-ids that are not wrong succeeds and sets the peer's.
  pub connection_update-HasConnection :
      (w : World bm) (from to : ℕ) (c : Connection)
      → is_cep_id_ok from ≡ true
      → is_cep_id_ok to ≡ true
      → HasConnection w from c
      → (w' : World bm) × (connection_update bm w from to ≡ some (true, w'))
        × HasConnection w' from (record c { destination_cep_id = to })
  unfolding connection_update
  connection_update-HasConnection w from to c good good' h =
      let (w', run, after) =
        with_connection-HasConnection w from c (λ c. record c { destination_cep_id = to }) h in
      (w', rw (good, good') run, after)

  -- connection_create leads CEP-id 1 to the connection it makes.
  pub connection_create-HasConnection :
      (w : World bm) (entry : Entry) (destination port qos destination_cep : ℕ) (dtcp_word : Bool)
      → is_port_id_ok port ≡ true
      → Represents w.imap entry
      → (w' : World bm) × (connection_create bm w destination port qos destination_cep true true
            dtcp_word
          ≡ some (1, w'))
        × HasConnection w' 1 (record {
          port_id = port;
          source_address = local_address;
          destination_address = destination;
          source_cep_id = 1;
          destination_cep_id = destination_cep;
          qos_id = qos;
        })
  unfolding connection_create is_candidate_connection_ok new_connection
  connection_create-HasConnection w entry destination port qos destination_cep dtcp_word ok h =
      let e : Efcp = record {
        connection = new_connection destination port qos destination_cep;
        sv = Dtp.state_vector_init;
        has_dtcp = dtcp_word;
        state = EfcpState.allocated;
      } in
      let added = imap_add-Represents 1 (length w.instances) w.imap entry h in
      (
        record w {
          imap = (imap_add 1 (length w.instances) w.imap).1;
          instances = w.instances ++ some e ∷ [];
        },
        rw (ok, added.0) refl,
        record {
          place = length w.instances;
          efcp = e;
          represents = added.1;
          below = omega (arith, length-append_one w.instances (some e));
          at = get_or-append_one w.instances (some e) none;
          is_allocated = refl;
          connection = refl;
        },
      )
