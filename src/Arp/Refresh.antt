-- ===== src/Arp/Refresh.antt =====
-- vARPRefreshCacheEntry in components/Shim/Arp826/Arp826.c.
use rinasensev.Prelude.{
  ℕ, suc, ◌==◌, Bool, false, not, if◌then◌else◌, ltb, Option, none, some, List, [], ◌∷◌, get_or,
  set, is_some, ◌>>=◌,
}
use rinasensev.Gpha.{Bytes, bytes_eq}
use rinasensev.Arp.{Row, Arp, gha_at, gone_gha, max_age, max_retransmissions}
use rinasensev.Arp.Update.{zero_row}

-- The variables of the loop: the rows found, -1 being `none`, and the row with the lowest age.
pub record Scan : Type 0 where
  pub ipcp_entry : Option ℕ
  pub mac_entry : Option ℕ
  pub use_entry : ℕ
  pub min_age_found : ℕ

-- A round goes on to the next row, leaves the loop, or returns from the function.
pub data Turn : Type 0 where
  next : Scan → Turn
  leave : Scan → Turn
  return : ℕ → Turn

abbrev pub same_pointer : Option ℕ → ℕ → Bool
same_pointer none p = false
same_pointer (some q) p = q == p

-- memcmp with the MAC address of a row. Reading through a NULL pointer of the row is a fault.
abbrev pub matching_mac : Arp → Row → Option Bytes → Option Bool
matching_mac s r none = some false
matching_mac s r (some mac) = do h ← gha_at s r.ha; some (bytes_eq h.mac mac)

unfoldable pub scan_row : Arp → ℕ → Option Bytes → ℕ → Row → Scan → Option Turn
scan_row s p mac x r c = do
  same ← matching_mac s r mac
  some (
      if same_pointer r.pa p
      then (if not (is_some mac)
          then leave (record c { ipcp_entry = some x })
          else if same
          then return x
          else next (record c { ipcp_entry = some x }))
      else if same
      then next (record c { mac_entry = some x })
      else if ltb r.age c.min_age_found
      then next (record c { use_entry = x; min_age_found = r.age })
      else next c)

unfoldable pub scan_rows : Arp → ℕ → Option Bytes → ℕ → List Row → Scan → Option Turn
scan_rows s p mac x [] c = some (leave c)
scan_rows s p mac x (r ∷ rs) c = do
  turn ← scan_row s p mac x r c
  elim turn [
    | next c' ↦ scan_rows s p mac (suc x) rs c'
    | leave c' ↦ some (leave c')
    | return y ↦ some (return y)
  ]

-- The row whose MAC matches goes before the row of the address, and that before the oldest.
abbrev pub chosen : Scan → ℕ
chosen c = elim c.mac_entry [
  | some x ↦ x
  | none ↦ elim c.ipcp_entry [ some x ↦ x | none ↦ c.use_entry ]
]

abbrev pub cleared : Scan → List Row → List Row
cleared c rows = elim c.mac_entry [
  | none ↦ rows
  | some _ ↦ elim c.ipcp_entry [ none ↦ rows | some x ↦ set rows x zero_row ]
]

abbrev pub touch : Row → Row
touch r = record r { age = max_age; valid = 1 }

-- What follows the loop. The MAC address is copied into the object that the row points at.
unfoldable pub write_entry : Arp → ℕ → Option Bytes → Scan → Option Arp
write_entry s p mac c =
    let x = chosen c in
    let rows = cleared c s.cache in
    let r = record (get_or rows x zero_row) { pa = some p } in
    elim mac [
      | some bytes ↦ elim r.ha [
        | none ↦ none
        | some h ↦ some (record s {
          ghas = set s.ghas h (record (get_or s.ghas h gone_gha) { mac = bytes });
          cache = set rows x (touch r);
        })
      ]
      | none ↦ some (record s {
        cache = set rows x (elim c.ipcp_entry [
          | none ↦ record r { age = max_retransmissions; valid = 0 }
          | some _ ↦ r
        ]);
      })
    ]

unfoldable pub refresh_cache_entry : Arp → ℕ → Option Bytes → Option Arp
refresh_cache_entry s p mac = do
  turn ←
      scan_rows s p mac 0 s.cache
        (record { ipcp_entry = none; mac_entry = none; use_entry = 0; min_age_found = 255 })
  elim turn [
    | return x ↦ some (record s { cache = set s.cache x (touch (get_or s.cache x zero_row)) })
    | leave c ↦ write_entry s p mac c
    | next c ↦ write_entry s p mac c
  ]
