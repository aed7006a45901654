-- ===== src/Du/Decap.antt =====
-- xDuDecap on a data unit that has just arrived.
use rinasensev.Prelude.{ℕ, ◌≡◌, refl, true, false, none, some, drop}
use rinasensev.Buffers.{Buffers}
use rinasensev.Pci
use rinasensev.Pci.{Pci, pci_size}
use rinasensev.Du.{NetBuffer, Du, sub_size, opened, pci_of, decap}

-- A data unit that arrives: its buffer, with the header at `at`, and pxPci not set.
abbrev pub arrived : NetBuffer → ℕ → Du
arrived b at = record { buffer = some (record b { rina_offset = some at }); pci_at = none }

-- The header of a data unit that arrives, as it stands in the buffer.
abbrev pub header_at : NetBuffer → ℕ → Pci
header_at b at = Pci.cast (drop at b.ethernet)

-- The data unit that xDuDecap makes of it.
abbrev pub decapsulated : NetBuffer → ℕ → Du
decapsulated b at = opened (record b { rina_offset = some at }) at

pub decapsulated-header :
    (b : NetBuffer) (at : ℕ) → pci_of (decapsulated b at) ≡ some (header_at b at)
unfolding opened pci_of
decapsulated-header b at = refl

module _ (bm : Buffers) where
  pub decap-arrived :
      (pool pool' : bm.Pool) (b : NetBuffer) (at : ℕ)
      → Pci.pdu_type_is_ok (header_at b at).pdu_type ≡ true
      → bm.get pool (sub_size b.rina_length pci_size) ≡ some pool'
      → decap bm pool (arrived b at) ≡ some (false, pool', decapsulated b at)
  unfolding decap
  decap-arrived pool pool' b at t memory = rw (t, memory) refl

  pub decap-unknown :
      (pool : bm.Pool) (b : NetBuffer) (at : ℕ)
      → Pci.pdu_type_is_ok (header_at b at).pdu_type ≡ false
      → decap bm pool (arrived b at) ≡ some (true, pool, arrived b at)
  unfolding decap
  decap-unknown pool b at t = rw t refl
