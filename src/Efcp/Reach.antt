-- ===== src/Efcp/Reach.antt =====
-- Every order of the operations of efcp.c, from its empty table on.
use rinasensev.Prelude.{ℕ, ◌≡◌, refl, subst, Bool, true, none, some, []}
use rinasensev.Buffers.{Buffers}
use rinasensev.Ids.{is_port_id_ok}
use rinasensev.Pci.{Pci}
use rinasensev.Du
use rinasensev.Du.{Du}
use rinasensev.Efcp.{
  container_receive, connection_modify, connection_update, connection_destroy, connection_create,
  imap_create,
}
use rinasensev.Efcp.Live.{IsLive, IsSafe, IsSafeCreation}
use rinasensev.Efcp.Live.Operations.{
  container_receive-IsLive, connection_modify-IsLive, connection_update-IsLive,
  connection_destroy-IsLive, connection_create-IsLive,
}
use rinasensev.Stack.{World, Env}

module _ (bm : Buffers) where
  -- An operation that returns. A connection is created for a port that is not wrong and with memory
  -- for its dtp; a data unit that is received has its header. What the flow allocator answers may
  -- differ from step to step.
  pub data Step : World bm → World bm → Type 0 where
    created :
        {w w' : World bm} (destination port qos destination_cep id : ℕ)
        (has_memory dtcp_word : Bool)
        → is_port_id_ok port ≡ true
        → connection_create bm w destination port qos destination_cep has_memory true dtcp_word
          ≡ some (id, w')
        → Step w w'
    modified :
        {w w' : World bm} (cep source destination : ℕ) (done : Bool)
        → connection_modify bm w cep source destination ≡ some (done, w')
        → Step w w'
    updated :
        {w w' : World bm} (from to : ℕ) (done : Bool)
        → connection_update bm w from to ≡ some (done, w')
        → Step w w'
    destroyed : (w : World bm) (id : ℕ) → Step w (connection_destroy bm w id).1
    received :
        {w w' : World bm} (env : Env) (cep : ℕ) (du : Du) (p : Pci) (done : Bool)
        → Du.pci_of du ≡ some p
        → container_receive bm env w cep du ≡ some (done, w')
        → Step w w'

  pub data Reach (s : World bm) : World bm → Type 0 where
    here : Reach s s
    next : {t u : World bm} → Reach s t → Step t u → Reach s u

  initial-IsLive : (s : World bm) → s.imap ≡ imap_create → s.instances ≡ [] → IsLive s
  unfolding imap_create
  initial-IsLive s empty none_yet =
      simp (empty, none_yet)
        ((tt, (tt, (tt, tt))), tt, (none, ((refl, refl), ((refl, refl), ((refl, refl), tt)), refl)))

  Step-IsLive : {w w' : World bm} → Step w w' → IsLive w → IsLive w'
  Step-IsLive (created {w} d port qos cep id m t ok e) live =
      subst IsSafeCreation e (connection_create-IsLive bm w d port qos cep m t ok live)
  Step-IsLive (modified {w} cep s d done e) live =
      subst IsSafe e (connection_modify-IsLive bm w cep s d live)
  Step-IsLive (updated {w} from to done e) live =
      subst IsSafe e (connection_update-IsLive bm w from to live)
  Step-IsLive (destroyed w id) live = connection_destroy-IsLive bm w id live
  Step-IsLive (received {w} env cep du p done h e) live =
      subst IsSafe e (container_receive-IsLive bm env w cep du p h live)

  Reach-IsLive : {s t : World bm} → IsLive s → Reach s t → IsLive t
  Reach-IsLive live here = live
  Reach-IsLive live (next r s) = Step-IsLive s (Reach-IsLive live r)

  -- In whatever order connections are created, modified, updated and destroyed and data units
  -- received, from the empty table and no instances on: a data unit with a header that arrives for
  -- any CEP-id is handled without a read of a freed instance, and leaves a table of one entry or
  -- none whose rows refer to instances that are allocated.
  pub reachable_receive :
      (s w : World bm) (env : Env) (cep : ℕ) (du : Du) (p : Pci)
      → s.imap ≡ imap_create
      → s.instances ≡ []
      → Reach s w
      → Du.pci_of du ≡ some p
      → IsLive w × IsSafe (container_receive bm env w cep du)
  reachable_receive s w env cep du p empty none_yet r header =
      let live = Reach-IsLive (initial-IsLive s empty none_yet) r in
      (live, container_receive-IsLive bm env w cep du p header live)
