-- ===== src/Names.antt =====
-- components/Rina-manager/Common/rina_name.c: the names of application processes, their copies and
-- their texts. A string is the list of the bytes before its terminator, a NULL pointer is `none`.
-- A function that may write through a NULL pointer returns an Option: `none` stands for that fault.
pub mod Copy
pub mod Roundtrip
use rinasensev.Prelude.{
  ℕ, ◌+◌, ◌-◌, Bool, true, false, not, ◌||◌, if◌then◌else◌, is_some, ◌>>=◌, ◌==◌, Option, none,
  some, List, [], ◌∷◌, ◌++◌, length, take,
}
use rinasensev.Memory.{Memory, alloc}
use rinasensev.Strings.{CString, strsep, snprintf}

-- DELIMITER is "/", the other separator is "|".
abbrev pub delimiter : ℕ
delimiter = 47

abbrev pub bar : ℕ
bar = 124

pub record Name : Type 0 where
  pub process_name : Option CString
  pub process_instance : Option CString
  pub entity_name : Option CString
  pub entity_instance : Option CString

abbrev pub name_of : Option CString → Option CString → Option CString → Option CString → Name
name_of pn pi en ei = record {
  process_name = pn;
  process_instance = pi;
  entity_name = en;
  entity_instance = ei;
}

-- What the memset of a new name and vRstrNameFini leave.
abbrev pub null_name : Name
null_name = name_of none none none none

abbrev pub name_create : Memory → Option Name × Memory
name_create m = let (ok, m') = alloc m in (if ok then some null_name else none, m')

-- The block is cleared before it is tested: no block is a fault.
abbrev pub rstr_dup : Option CString → Memory → Option (Option CString × Memory)
rstr_dup none m = some (none, m)
rstr_dup (some s) m = let (ok, m') = alloc m in if ok then some (some s, m') else none

abbrev pub string_dup : Option CString → Memory → Option (Bool × Option CString × Memory)
string_dup none m = some (true, none, m)
string_dup (some s) m = do (dst, m1) ← rstr_dup (some s) m; some (is_some dst, dst, m1)

abbrev pub name_fini : Name → Name
name_fini n = record n {
  process_name = none;
  process_instance = none;
  entity_name = none;
  entity_instance = none;
}

-- The test reads `dup || dup || dup || dup`: the first duplicate that succeeds ends it.
unfoldable pub name_cpy : Option Name → Option Name → Memory → Option (Bool × Option Name × Memory)
name_cpy none dst m = some (false, dst, m)
name_cpy (some src) none m = some (false, none, m)
name_cpy (some src) (some dst) m =
    let n = name_fini dst in
    do
      (ok1, pn, m1) ← string_dup src.process_name m
      if ok1 then some (false, some (name_fini n), m1) else do
        (ok2, pi, m2) ← string_dup src.process_instance m1
        if ok2 then some (false, some (name_fini n), m2) else do
          (ok3, en, m3) ← string_dup src.entity_name m2
          if ok3 then some (false, some (name_fini n), m3) else do
            (ok4, ei, m4) ← string_dup src.entity_instance m3
            if ok4
                then some (false, some (name_fini n), m4)
                else some (true, some (name_of pn pi en ei), m4)

-- pxRstrNameDup: a copy that reports success is destroyed.
unfoldable pub name_dup : Option Name → Memory → Option (Option Name × Memory)
name_dup none m = some (none, m)
name_dup (some src) m =
    let (tmp, m1) = name_create m in
    if not (is_some tmp)
    then some (none, m1)
    else do (copied, dst, m2) ← name_cpy (some src) tmp m1; some (if copied then none else dst, m2)

-- xRINANameInitFrom, where each duplicate must succeed.
unfoldable pub name_init_from :
    Option Name
    → Option CString
    → Option CString
    → Option CString
    → Option CString
    → Memory
    → Option (Option Name × Memory)
name_init_from none pn pi en ei m = some (none, m)
name_init_from (some dst) pn pi en ei m = do
  (ok1, pn', m1) ← string_dup pn m
  if not ok1 then some (none, m1) else do
    (ok2, pi', m2) ← string_dup pi m1
    if not ok2 then some (none, m2) else do
      (ok3, en', m3) ← string_dup en m2
      if not ok3 then some (none, m3) else do
        (ok4, ei', m4) ← string_dup ei m3
        if not ok4 then some (none, m4) else some (some (name_of pn' pi' en' ei'), m4)

-- xRINAstringToName. The copy of the input is the only duplicate that a NULL input leaves out.
unfoldable pub string_to_name : Option CString → Memory → Option (Option Name × Memory)
unfolding name_init_from
string_to_name input m = do
  (tmp, m1) ← rstr_dup input m
  let (pn, r1) = strsep delimiter tmp
  let (pi, r2) = strsep delimiter r1
  let (en, r3) = strsep delimiter r2
  let (ei, r4) = strsep delimiter r3
  let (name, m2) = name_create m1
  name_init_from name pn pi en ei m2

-- The piece when there is one and it is not empty, else "".
abbrev pub piece : Option CString → CString
piece none = []
piece (some []) = []
piece (some (c ∷ s)) = c ∷ s

-- A piece with bytes whose copy is NULL.
abbrev pub lost : Option CString → Option CString → Bool
lost (some (c ∷ s)) none = true
lost _ _ = false

-- xRinaNameFromString, whose tests for a NULL copy come after the copies.
unfoldable pub name_from_string : Option CString → Memory → Option (Bool × Name × Memory)
name_from_string input m = do
  (copy, m0) ← rstr_dup input m
  let (apn, r1) = strsep bar copy
  let (api, r2) = strsep bar r1
  let (aen, r3) = strsep bar r2
  let (aei, r4) = strsep bar r3
  if not (is_some copy)
      then some (false, null_name, m0)
      else if not (is_some apn)
      then some (false, null_name, m0)
      else do
        (pn, m1) ← rstr_dup (some (piece apn)) m0
        (pi, m2) ← rstr_dup (some (piece api)) m1
        (en, m3) ← rstr_dup (some (piece aen)) m2
        (ei, m4) ← rstr_dup (some (piece aei)) m3
        let n = name_of pn pi en ei
        if lost apn pn || lost api pi || lost aen en || lost aei ei
            then some (false, name_fini n, m4)
            else some (true, n, m4)

abbrev pub text_or_none : Option CString → CString
text_or_none none = []
text_or_none (some s) = s

abbrev pub joined : CString → CString → CString → CString → CString
joined pn pi en ei = pn ++ delimiter ∷ (pi ++ delimiter ∷ (en ++ delimiter ∷ ei))

-- pcNameToString. The size counts a delimiter after each of the four, the last one for the
-- terminator.
unfoldable pub name_to_string : Option Name → Memory → Option (Option CString × Memory)
name_to_string none m = some (none, m)
name_to_string (some n) m =
    let pn = text_or_none n.process_name in
    let pi = text_or_none n.process_instance in
    let en = text_or_none n.entity_name in
    let ei = text_or_none n.entity_instance in
    let size = length pn + 1 + (length pi + 1) + (length en + 1) + (length ei + 1) in
    let (ok, m1) = alloc m in
    let (tmp, written) = snprintf size (joined pn pi en ei) in
    if not ok then none else if written == (size - 1) then some (some tmp, m1) else some (none, m1)
