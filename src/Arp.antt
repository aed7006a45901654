-- ===== src/Arp.antt =====
-- components/Shim/Arp826/Arp826.c: the ARP cache in the build with NDEBUG, where the assertions and
-- the loop variables of the log are compiled out.
--
-- Rows point at addresses that other rows and callers may share, so the addresses stand in two
-- stores, and a pointer is a place in one of them; NULL is `none`. An operation that writes through
-- NULL or reads past a frame returns `none`.
pub mod Update
pub mod Refresh
pub mod Packet
pub mod Learn
pub mod Framed
pub mod Reply
pub mod Request
use rinasensev.Prelude.{
  ℕ, zero, suc, ◌+◌, ◌-◌, Bool, true, false, not, if◌then◌else◌, ◌==◌, ltb, Option, none, some,
  List, [], ◌∷◌, ◌++◌, length, get_or, set, replicate, is_some, ◌>>=◌,
}
use rinasensev.Memory.{Memory, alloc}
use rinasensev.Gpha.{
  Gpa, Gha, GhaType, mac_802_3, mac_802_15_4, Bytes, bytes_eq, is_gpa_ok, is_gha_ok, gpa_cmp,
  create_gpa, create_gha, shrink,
}

abbrev pub cache_entries : ℕ
cache_entries = 4

abbrev pub max_age : ℕ
max_age = 5

abbrev pub max_retransmissions : ℕ
max_retransmissions = 5

-- ARPCacheRow_t.
pub record Row : Type 0 where
  pub pa : Option ℕ
  pub ha : Option ℕ
  pub age : ℕ
  pub valid : ℕ

pub record Arp : Type 0 where
  pub gpas : List Gpa
  pub ghas : List Gha
  pub cache : List Row
  pub memory : Memory

-- What the memset of a freed address leaves, and what stands behind no pointer.
abbrev pub gone_gpa : Gpa
gone_gpa = record { address = none; size = 0 }

abbrev pub gone_gha : Gha
gone_gha = record { type = mac_802_3; mac = replicate 6 0 }

abbrev pub gpa_at : List Gpa → Option ℕ → Option Gpa
gpa_at gpas none = none
gpa_at gpas (some p) = some (get_or gpas p gone_gpa)

abbrev pub gha_at : Arp → Option ℕ → Option Gha
gha_at s none = none
gha_at s (some p) = some (get_or s.ghas p gone_gha)

-- A new address at the end of its store, or NULL.
abbrev pub store_gpa : Arp → Option Gpa → Memory → Option ℕ × Arp
store_gpa s none m = (none, record s { memory = m })
store_gpa s (some g) m = (some (length s.gpas), record s { gpas = s.gpas ++ g ∷ []; memory = m })

abbrev pub store_gha : Arp → Option Gha → Memory → Option ℕ × Arp
store_gha s none m = (none, record s { memory = m })
store_gha s (some g) m = (some (length s.ghas), record s { ghas = s.ghas ++ g ∷ []; memory = m })

abbrev pub new_gpa : Arp → Option Bytes → ℕ → Option (Option ℕ × Arp)
new_gpa s bytes n = do (g, m) ← create_gpa bytes n s.memory; some (store_gpa s g m)

abbrev pub new_gha : Arp → GhaType → Bytes → Option ℕ × Arp
new_gha s type mac = let (g, m) = create_gha type mac s.memory in store_gha s g m

abbrev pub broadcast : Bytes
broadcast = replicate 6 255

-- pxARPCreateGHAUnknown: the broadcast address, for Ethernet only.
abbrev pub create_gha_unknown : Arp → GhaType → Option ℕ × Arp
create_gha_unknown s type = elim type [
  | mac_802_3 ↦ new_gha s mac_802_3 broadcast
  | mac_802_15_4 ↦ (none, s)
]

-- vGPADestroy and vGHADestroy.
abbrev pub gpa_destroy : Arp → Option ℕ → Arp
gpa_destroy s none = s
gpa_destroy s (some p) =
    if not (is_gpa_ok (gpa_at s.gpas (some p)))
    then s
    else record s { gpas = set s.gpas p gone_gpa }

abbrev pub gha_destroy : Arp → Option ℕ → Arp
gha_destroy s none = s
gha_destroy s (some p) =
    if not (is_gha_ok (gha_at s (some p))) then s else record s { ghas = set s.ghas p gone_gha }

-- eARPLookupResult_t.
pub data LookupResult : Type 0 where
  cache_miss cache_hit cant_send_packet : LookupResult

-- eARPLookupGPA from a row on.
abbrev pub lookup_rows : List Gpa → List Row → Option Gpa → LookupResult
lookup_rows gpas [] g = cache_miss
lookup_rows gpas (r ∷ rs) g =
    let rest = lookup_rows gpas rs g in
    if r.age == 0
    then rest
    else if gpa_cmp (gpa_at gpas r.pa) g
    then (if r.valid == 0 then cant_send_packet else cache_hit)
    else rest

unfoldable pub lookup_gpa : Arp → Option Gpa → LookupResult
lookup_gpa s g = lookup_rows s.gpas s.cache g

-- pxARPLookupGHA: the first row of age 3. Its argument is not read. A row without a MAC is a fault,
-- and so is no memory for the copy.
abbrev pub row_of_age : ℕ → List Row → Option Row
row_of_age age [] = none
row_of_age age (r ∷ rs) = let rest = row_of_age age rs in if r.age == age then some r else rest

unfoldable pub lookup_gha : Arp → Option Gpa → Option (Option Gha)
lookup_gha s g = elim (row_of_age 3 s.cache) [
  | none ↦ some none
  | some r ↦ do found ← gha_at s r.ha; if (alloc s.memory).0 then some (some found) else none
]
