-- ===== src/Arp/Update.antt =====
-- The changes of the ARP cache from inside: vARPAddCacheEntry, pxARPAdd, vARPRemoveCacheEntry,
-- xARPRemove, vARPInitCache and vARPRemoveAll in components/Shim/Arp826/Arp826.c.
use rinasensev.Prelude.{
  ℕ, suc, ◌==◌, Bool, true, false, not, ◌||◌, if◌then◌else◌, Option, none, some, List, [], ◌∷◌, set,
  replicate, is_some, ◌>>=◌,
}
use rinasensev.Memory.{alloc}
use rinasensev.Gpha.{Gpa, Gha, mac_802_3, Bytes, is_gpa_ok, is_gha_ok, gpa_cmp}
use rinasensev.Arp.{
  Row, Arp, gpa_at, gha_at, new_gpa, create_gha_unknown, LookupResult, cache_miss, cache_hit,
  cant_send_packet, lookup_gpa, cache_entries,
}

abbrev pub one_later : Option ℕ → Option ℕ
one_later none = none
one_later (some i) = some (suc i)

-- The first row that is not valid.
abbrev pub free_row : List Row → Option ℕ
free_row [] = none
free_row (r ∷ rs) = let rest = free_row rs in if r.valid == 0 then some 0 else one_later rest

-- The body of the loop of vARPAddCacheEntry at the first free row, if there is one.
abbrev pub fill_row : Arp → Option ℕ → Option ℕ → Option ℕ → ℕ → Option Arp
fill_row s none pa ha age = some s
fill_row s (some x) pa ha age = do
  g ← gpa_at s.gpas pa
  (p, s1) ← new_gpa s g.address g.size
  some (record s1 { cache = set s1.cache x (record { pa = p; ha = ha; age = age; valid = 1 }) })

-- vARPAddCacheEntry of a handle with the pointers `pa` and `ha`: a copy of the protocol address,
-- the hardware address itself. Without a free row nothing happens.
unfoldable pub add_cache_entry : Arp → Option ℕ → Option ℕ → ℕ → Option Arp
add_cache_entry s pa ha age = fill_row s (free_row s.cache) pa ha age

-- pxARPAdd: whether there is a handle.
unfoldable pub add : Arp → Option ℕ → Option ℕ → Option (Bool × Arp)
add s pa ha =
    let (ok, m) = alloc s.memory in
    let s1 = record s { memory = m } in
    if not (is_gpa_ok (gpa_at s.gpas pa))
    then some (false, s1)
    else if not (is_gha_ok (gha_at s ha))
    then some (false, s1)
    else if not ok
    then none
    else do s2 ← add_cache_entry s1 pa ha 1; some (true, s2)

-- The row of the first address that compares equal, whatever its age, is overwritten.
abbrev pub remove_row : List Gpa → List Row → Option Gpa → Row → List Row
remove_row gpas [] g null_entry = []
remove_row gpas (r ∷ rs) g null_entry =
    let rest = remove_row gpas rs g null_entry in
    if gpa_cmp (gpa_at gpas r.pa) g then null_entry ∷ rs else r ∷ rest

-- The text "NULL".
abbrev pub null_text : Bytes
null_text = 78 ∷ 85 ∷ 76 ∷ 76 ∷ []

-- vARPRemoveCacheEntry.
unfoldable pub remove_cache_entry : Arp → Option Gpa → Option Gha → Option Arp
remove_cache_entry s g h =
    let (tmp, s1) = create_gha_unknown s mac_802_3 in
    do
      (null_pa, s2) ← new_gpa s1 (some null_text) 4
      if not (is_some h) || not (is_some g)
          then some s2
          else some (record s2 {
            cache =
                remove_row s2.gpas s2.cache g
                  (record { pa = null_pa; ha = tmp; age = 0; valid = 0 });
          })

abbrev pub is_miss : LookupResult → Bool
is_miss cache_miss = true
is_miss cache_hit = false
is_miss cant_send_packet = false

-- xARPRemove.
unfoldable pub remove : Arp → Option Gpa → Option Gha → Option (Bool × Arp)
remove s g h =
    if not (is_gpa_ok g)
    then some (false, s)
    else if not (is_gha_ok h)
    then some (false, s)
    else if is_miss (lookup_gpa s g)
    then some (false, s)
    else do s1 ← remove_cache_entry s g h; some (true, s1)

-- vARPInitCache: every row gets the same two pointers. The text is two zeros, of which five bytes
-- are read: `behind` is what stands behind them.
unfoldable pub init_cache : Arp → Bytes → Option Arp
init_cache s behind =
    let (tmp, s1) = create_gha_unknown s mac_802_3 in
    do
      (pa, s2) ← new_gpa s1 (some (0 ∷ 0 ∷ behind)) 5
      some (record s2 {
        cache = replicate cache_entries (record { pa = pa; ha = tmp; age = 0; valid = 0 });
      })

-- vARPRemoveAll: the memset leaves NULL pointers.
abbrev pub zero_row : Row
zero_row = record { pa = none; ha = none; age = 0; valid = 0 }

unfoldable pub remove_all : Arp → Arp
remove_all s = record s { cache = replicate cache_entries zero_row }
