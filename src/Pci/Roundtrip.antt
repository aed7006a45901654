-- ===== src/Pci/Roundtrip.antt =====
-- Writing the header and reading it back.
use rinasensev.Prelude.{ℕ, ◌^◌, ◌<◌, ◌≡◌, refl, List, ◌++◌, drop, arith}
use rinasensev.Pci.{Pci, pci_size, to_bytes, cast}

-- Every field fits the type that the struct gives it.
pub record IsInRange (p : Pci) : Type 0 where
  pub version : p.version < 2 ^ 8
  pub destination : p.destination < 2 ^ 8
  pub source : p.source < 2 ^ 8
  pub qos_id : p.qos_id < 2 ^ 8
  pub cep_destination : p.cep_destination < 2 ^ 8
  pub cep_source : p.cep_source < 2 ^ 8
  pub pdu_type : p.pdu_type < 2 ^ 8
  pub flags : p.flags < 2 ^ 8
  pub pdu_len : p.pdu_len < 2 ^ 16
  pub sequence_number : p.sequence_number < 2 ^ 32

-- A header in range that is written in front of any bytes is read back whole, and the bytes
-- behind it stand at offset 14.
pub cast-to_bytes :
    (p : Pci) (rest : List ℕ)
    → IsInRange p
    → (cast (to_bytes p ++ rest) ≡ p) × (drop pci_size (to_bytes p ++ rest) ≡ rest)
unfolding cast to_bytes
cast-to_bytes p rest r = (ground arith, refl)
