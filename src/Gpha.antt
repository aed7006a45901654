-- ===== src/Gpha.antt =====
-- components/Rina-manager/Common/rina_gpha.c: generic protocol addresses, which are bytes of any
-- length, and generic hardware addresses; and the padding and shrinking of a protocol address in
-- components/Shim/Arp826/Arp826.c.
pub mod Padding
use rinasensev.Prelude.{
  ℕ, suc, ◌+◌, ◌-◌, Bool, true, false, not, if◌then◌else◌, ◌==◌, ◌&&◌, ◌||◌, ltb, leb, Option, none,
  some, List, [], ◌∷◌, ◌++◌, length, take, drop, replicate, is_some, ◌>>=◌,
}
use rinasensev.Memory.{Memory, alloc}
use rinasensev.Strings.{CString}
use rinasensev.Names.{Name, name_to_string}

abbrev pub Bytes : Type 0
Bytes = List ℕ

-- gpa_t: the block that pucAddress points at, and uxLength.
pub record Gpa : Type 0 where
  pub address : Option Bytes
  pub size : ℕ

-- eGHAType_t.
pub data GhaType : Type 0 where
  mac_802_3 mac_802_15_4 : GhaType

-- gha_t, with the six bytes of its MAC address.
pub record Gha : Type 0 where
  pub type : GhaType
  pub mac : Bytes

-- The first uxLength bytes of the block, none without a block.
abbrev pub content : Gpa → Bytes
content a = elim a.address [ none ↦ [] | some bytes ↦ take a.size bytes ]

abbrev pub is_gpa_ok : Option Gpa → Bool
is_gpa_ok none = false
is_gpa_ok (some a) = is_some a.address && not (a.size == 0)

-- Every GhaType of the model is one of the two that the test lets pass.
abbrev pub is_gha_ok : Option Gha → Bool
is_gha_ok none = false
is_gha_ok (some a) = elim a.type [ mac_802_3 ↦ true | mac_802_15_4 ↦ true ]

abbrev pub bytes_eq : Bytes → Bytes → Bool
bytes_eq [] [] = true
bytes_eq (x ∷ xs) (y ∷ ys) = let rest = bytes_eq xs ys in if x == y then rest else false
bytes_eq _ _ = false

-- xGPACmp. Blocks of one length are compared as wholes.
abbrev pub gpa_cmp : Option Gpa → Option Gpa → Bool
gpa_cmp (some a) (some b) =
    is_gpa_ok (some a) && is_gpa_ok (some b) && a.size == b.size && bytes_eq (content a) (content b)
gpa_cmp _ _ = false

-- pucCreateAddress: a block that is cleared before anyone tests for NULL.
abbrev pub create_address : ℕ → Memory → Option (Bytes × Memory)
create_address n m = let (ok, m') = alloc m in if ok then some (replicate n 0, m') else none

-- pxCreateGPA of `n` bytes at a pointer: the bytes and a terminator.
unfoldable pub create_gpa : Option Bytes → ℕ → Memory → Option (Option Gpa × Memory)
create_gpa none n m = some (none, m)
create_gpa (some bytes) n m =
    if n == 0
    then some (none, m)
    else let (ok, m1) = alloc m in
      if not ok then some (none, m1) else do
        (block, m2) ← create_address (n + 1) m1
        some (some (record { address = some (take n bytes ++ drop n block); size = n }), m2)

unfoldable pub create_gha : GhaType → Bytes → Memory → Option Gha × Memory
create_gha type mac m =
    let (ok, m1) = alloc m in (if ok then some (record { type = type; mac = mac }) else none, m1)

-- pxNameToGPA: the address is the text of the name.
abbrev pub text_gpa : Option CString → Memory → Option (Option Gpa × Memory)
text_gpa none m = some (none, m)
text_gpa (some text) m = create_gpa (some text) (length text) m

unfoldable pub name_to_gpa : Option Name → Memory → Option (Option Gpa × Memory)
name_to_gpa n m = do (text, m1) ← name_to_string n m; text_gpa text m1

-- xARPAddressGPAGrow.
unfoldable pub grow : Option Gpa → ℕ → ℕ → Memory → Bool × Option Gpa × Memory
grow none n filler m = (false, none, m)
grow (some a) n filler m =
    if not (is_gpa_ok (some a))
    then (false, some a, m)
    else if n == 0 || ltb n a.size
    then (false, some a, m)
    else if a.size == n
    then (true, some a, m)
    else let (ok, m1) = alloc m in
      if not ok then (false, some a, m1) else (
        true,
        some (record { address = some (content a ++ replicate (n - a.size) filler); size = n }),
        m1,
      )

-- FreeRTOS_memscan: how many bytes stand before the first filler, all when there is none.
abbrev pub memscan : ℕ → Bytes → ℕ
memscan filler [] = 0
memscan filler (b ∷ bytes) = let rest = memscan filler bytes in if b == filler then 0 else suc rest

-- xARPAddressGPAShrink.
unfoldable pub shrink : Option Gpa → ℕ → Memory → Bool × Option Gpa × Memory
shrink none filler m = (false, none, m)
shrink (some a) filler m =
    let n = memscan filler (content a) in
    if not (is_gpa_ok (some a))
    then (false, some a, m)
    else if leb a.size n
    then (true, some a, m)
    else let (ok, m1) = alloc m in
      if not ok
      then (false, some a, m1)
      else (true, some (record { address = some (take n (content a)); size = n }), m1)
