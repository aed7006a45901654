-- ===== src/Pci.antt =====
-- components/Ipcp/Modules/include/pci.h and pci.c: the protocol control information, a packed
-- struct of 14 bytes that the code lays over the front of a buffer. Words are little-endian, as on
-- the ESP32 and on x86.
pub mod Roundtrip
use rinasensev.Prelude.{
  ℕ, ◌+◌, ◌*◌, ◌/◌, ◌%◌, Bool, true, false, List, [], ◌∷◌, ◌++◌, ◌==◌, ◌||◌, if◌then◌else◌, get_or,
  drop,
}

-- `pci_t`; the fields of `connectionId_t` stand beside the others.
pub record Pci : Type 0 where
  pub version : ℕ
  pub destination : ℕ
  pub source : ℕ
  pub qos_id : ℕ
  pub cep_destination : ℕ
  pub cep_source : ℕ
  pub pdu_type : ℕ
  pub flags : ℕ
  pub pdu_len : ℕ
  pub sequence_number : ℕ

abbrev pub pci_size : ℕ
pci_size = 14

abbrev pub pdu_flags_data_run : ℕ
pdu_flags_data_run = 0x80

abbrev pub pdu_type_dt : ℕ
pdu_type_dt = 0x80

abbrev pub pdu_type_cack : ℕ
pdu_type_cack = 0xC0

abbrev pub pdu_type_ack : ℕ
pdu_type_ack = 0xC1

abbrev pub pdu_type_nack : ℕ
pdu_type_nack = 0xC2

abbrev pub pdu_type_fc : ℕ
pdu_type_fc = 0xC4

abbrev pub pdu_type_ack_and_fc : ℕ
pdu_type_ack_and_fc = 0xC5

abbrev pub pdu_type_sack : ℕ
pdu_type_sack = 0xC9

abbrev pub pdu_type_sack_and_fc : ℕ
pdu_type_sack_and_fc = 0xCD

abbrev pub pdu_type_snack_and_fc : ℕ
pdu_type_snack_and_fc = 0xCE

abbrev pub pdu_type_rendezvous : ℕ
pdu_type_rendezvous = 0xCF

abbrev pub pdu_type_mgmt : ℕ
pdu_type_mgmt = 0x40

unfoldable pub pdu_type_is_ok : ℕ → Bool
pdu_type_is_ok x =
    x == pdu_type_dt
    || x == pdu_type_cack
    || x == pdu_type_sack
    || x == pdu_type_nack
    || x == pdu_type_fc
    || x == pdu_type_ack
    || x == pdu_type_ack_and_fc
    || x == pdu_type_sack_and_fc
    || x == pdu_type_snack_and_fc
    || x == pdu_type_rendezvous
    || x == pdu_type_mgmt

unfoldable pub pdu_type_is_control : ℕ → Bool
pdu_type_is_control x =
    x == pdu_type_cack
    || x == pdu_type_sack
    || x == pdu_type_nack
    || x == pdu_type_fc
    || x == pdu_type_ack
    || x == pdu_type_ack_and_fc
    || x == pdu_type_sack_and_fc
    || x == pdu_type_rendezvous
    || x == pdu_type_snack_and_fc

-- The bytes of the struct in memory.
unfoldable pub to_bytes : Pci → List ℕ
to_bytes p =
    p.version % 256
    ∷ p.destination % 256
    ∷ p.source % 256
    ∷ p.qos_id % 256
    ∷ p.cep_destination % 256
    ∷ p.cep_source % 256
    ∷ p.pdu_type % 256
    ∷ p.flags % 256
    ∷ p.pdu_len % 256
    ∷ p.pdu_len / 256 % 256
    ∷ p.sequence_number % 256
    ∷ p.sequence_number / 256 % 256
    ∷ p.sequence_number / 65536 % 256
    ∷ p.sequence_number / 16777216 % 256
    ∷ []

-- vCastPointerTo_pci_t: the fields read through the struct. Memory behind the list reads as 0:
-- a network buffer is cleared when it is allocated.
unfoldable pub cast : List ℕ → Pci
cast m = record {
  version = get_or m 0 0;
  destination = get_or m 1 0;
  source = get_or m 2 0;
  qos_id = get_or m 3 0;
  cep_destination = get_or m 4 0;
  cep_source = get_or m 5 0;
  pdu_type = get_or m 6 0;
  flags = get_or m 7 0;
  pdu_len = get_or m 8 0 + 256 * get_or m 9 0;
  sequence_number =
      get_or m 10 0 + 256 * get_or m 11 0 + 65536 * get_or m 12 0 + 16777216 * get_or m 13 0;
}

-- xPciIsOk of a pointer that is not NULL.
unfoldable pub is_ok : Pci → Bool
unfolding pdu_type_is_ok
is_ok p = pdu_type_is_ok p.pdu_type
