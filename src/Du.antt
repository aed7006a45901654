-- ===== src/Du.antt =====
-- components/Ipcp/Modules/du.c: a data unit is a network buffer with a header laid over it.
pub mod Decap
use rinasensev.Prelude.{
  ℕ, ◌+◌, ◌-◌, ◌%◌, ◌^◌, Bool, true, false, not, Option, none, some, List, ◌++◌, ◌==◌,
  if◌then◌else◌, take, drop, replicate,
}
use rinasensev.Buffers.{Buffers}
use rinasensev.Pci
use rinasensev.Pci.{Pci, pci_size}

-- `NetworkBufferDescriptor_t`: the storage from pucEthernetBuffer on, the pointers into it as
-- offsets (pucRinaBuffer may be NULL), and the lengths that the code keeps.
pub record NetBuffer : Type 0 where
  pub ethernet : List ℕ
  pub rina_offset : Option ℕ
  pub data_offset : ℕ
  pub rina_length : ℕ
  pub data_length : ℕ

-- `struct du_t`: pxNetworkBuffer, and pxPci as an offset into it, `none` while it is not set.
pub record Du : Type 0 where
  pub buffer : Option NetBuffer
  pub pci_at : Option ℕ

-- A read of the fields behind pxPci. `none` is an access through a pointer that is not set.
unfoldable pub pci_of : Du → Option Pci
pci_of du = elim du.buffer [
  | none ↦ none
  | some b ↦ elim du.pci_at [ none ↦ none | some at ↦ some (Pci.cast (drop at b.ethernet)) ]
]

-- A write of the whole header behind pxPci.
unfoldable pub store_pci : Pci → NetBuffer → ℕ → NetBuffer
store_pci p b at = record b {
  ethernet = take at b.ethernet ++ Pci.to_bytes p ++ drop (at + pci_size) b.ethernet;
}

-- size_t has 32 bits.
abbrev pub sub_size : ℕ → ℕ → ℕ
sub_size a b = (a + 2 ^ 32 - b) % 2 ^ 32

abbrev pub add_size : ℕ → ℕ → ℕ
add_size a b = (a + b) % 2 ^ 32

unfoldable pub is_ok : Du → Bool
is_ok du = elim du.buffer [ none ↦ false | some b ↦ true ]

unfoldable pub len : Du → Option ℕ
len du = elim du.buffer [ none ↦ none | some b ↦ some b.rina_length ]

unfoldable pub data_len : Du → Option ℕ
unfolding pci_of
data_len du = elim du.buffer [
  | none ↦ none
  | some b ↦ elim (pci_of du) [
    | none ↦ none
    | some p ↦ some (
        if not (p.pdu_len == b.rina_length)
        then b.rina_length
        else sub_size b.data_length p.pdu_len)
  ]
]

-- What xDuDecap sets once it has allocated a buffer.
unfoldable pub opened : NetBuffer → ℕ → Du
opened b at = record {
  buffer =
      some
        (record b { data_offset = at + pci_size; data_length = sub_size b.rina_length pci_size });
  pci_at = some at;
}

-- What xDuEncap puts in the place of the old buffer: the data behind room for the header.
unfoldable pub closed : NetBuffer → Du
closed b = record {
  buffer = some (record {
    ethernet = replicate pci_size 0 ++ take b.data_length b.ethernet;
    rina_offset = none;
    data_offset = 0;
    rina_length = 0;
    data_length = add_size b.data_length pci_size;
  });
  pci_at = some 0;
}

module _ (bm : Buffers) where
  open bm use {Pool, get, release}

  -- xDuDestroy gives the buffer back.
  unfoldable pub destroy : Pool → Du → Pool
  destroy pool du = elim du.buffer [ none ↦ pool | some b ↦ release pool ]

  -- xDuDecap: `true` is the failure of the type check. The buffer that it allocates is not kept
  -- anywhere, and where there is none it returns `false` with pxPci not set.
  unfoldable pub decap : Pool → Du → Option (Bool × Pool × Du)
  decap pool du = elim du.buffer [
    | none ↦ none
    | some b ↦ elim b.rina_offset [
      | none ↦ none
      | some at ↦
          if Pci.pdu_type_is_ok (Pci.cast (drop at b.ethernet)).pdu_type
          then elim (get pool (sub_size b.rina_length pci_size)) [
            | none ↦ some (false, pool, du)
            | some pool' ↦ some (false, pool', opened b at)
          ]
          else some (true, pool, du)
    ]
  ]

  -- xDuEncap: the new buffer is allocated before the old one is released.
  unfoldable pub encap : Pool → Du → Option (Bool × Pool × Du)
  encap pool du = elim du.buffer [
    | none ↦ none
    | some b ↦ elim (get pool (add_size b.data_length pci_size)) [
      | none ↦ some (false, pool, du)
      | some pool' ↦ some (true, release pool', closed b)
    ]
  ]
