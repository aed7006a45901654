-- ===== src/Tests/Tables.antt =====
-- The table of EFCP instances and its operations.
use rinasensev.Prelude.{ℕ, ◌≡◌, ◌≢◌, refl, true, false, none, some}
use rinasensev.Pci.{Pci}
use rinasensev.Dtp.{state_vector_init}
use rinasensev.Efcp
use rinasensev.Efcp.{
  imap_find, imap_add, imap_remove, container_receive, connection_create, connection_destroy,
  imap_create, new_connection, null_row,
}
use rinasensev.Efcp.Imap.{Represents, imap-Represents}
use rinasensev.Efcp.Live.{IsLive, IsSafe}
use rinasensev.Efcp.Reach.{Reach, Step, reachable_receive}
use rinasensev.Efcp.Receive.{Fate, fate, fate_in}
use rinasensev.Efcp.Connections.{Outcome, connection_create-fate, connection_destroy-fate}
use rinasensev.Stack.{Efcp, World}
use rinasensev.Tests.{
  counting, agreeing, data_header, rows, running, started, rows-Represents, running-IsLive,
  data_unit, data_unit-header,
}

started-running : Reach counting started running
unfolding connection_create new_connection state_vector_init Efcp.imap_add
    Efcp.is_candidate_connection_ok
started-running = Reach.next Reach.here (Step.created 2 6 1 9 1 true false refl refl)

reachable_receive_example :
    IsLive running × IsSafe (container_receive counting agreeing running 1 data_unit)
unfolding imap_create
reachable_receive_example =
    reachable_receive counting started running agreeing 1 data_unit data_header refl refl
      started-running data_unit-header

imap-Represents_example :
    Represents imap_create none
    × ((imap_find 1 rows).0 ≡ some 0)
    × Represents (imap_find 1 rows).1 (some (1, 0))
    × ((imap_add 1 7 rows).0 ≡ true)
    × Represents (imap_add 1 7 rows).1 (some (1, 7))
    × ((imap_remove 1 rows).0 ≡ true)
    × Represents (imap_remove 1 rows).1 none
imap-Represents_example = imap-Represents 1 7 rows (some (1, 0)) rows-Represents

connection_create-fate_example :
    (w' : World counting) × (e : Efcp) × (connection_create counting running 2 8 1 9 true true false
      ≡ some (1, w'))
    × (e.connection.port_id ≡ 8)
    × (e.sv ≡ state_vector_init)
    × ((p : Pci) → fate counting w' 1 p ≡ fate_in e p)
    × ((cep : ℕ) (p : Pci) → cep ≢ 1 → fate counting w' cep p ≡ Fate.destroyed)
connection_create-fate_example =
    connection_create-fate counting running 2 8 1 9 false refl running-IsLive

connection_destroy-fate_example : Outcome counting running 1 (connection_destroy counting running 1)
connection_destroy-fate_example = connection_destroy-fate counting running 1 running-IsLive
