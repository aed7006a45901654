-- ===== src/Names/Copy.antt =====
-- The copies of a name: xRstrNameCpy, pxRstrNameDup and xRINANameInitFrom in
-- components/Rina-manager/Common/rina_name.c.
use rinasensev.Prelude.{ℕ, suc, ◌≡◌, refl, ap, true, Option, none, some, ◌∷◌}
use rinasensev.Memory.{Memory, plenty, plenty-suc}
use rinasensev.Strings.{CString}
use rinasensev.Names.{Name, name_of, null_name, string_dup, name_cpy, name_dup, name_init_from}

name_dup-null_name :
    (pn pi en ei : Option CString) (m : Memory)
    → (rest : Memory) × (name_dup (some (name_of pn pi en ei)) (plenty 2 m)
        ≡ some (some null_name, rest))
unfolding name_dup name_cpy
name_dup-null_name none pi en ei m = (_, refl)
name_dup-null_name (some s) pi en ei m = (_, refl)

-- With a block for the name and one for a string, pxRstrNameDup returns a name whose four fields
-- are NULL, whatever the source holds.
pub name_dup_empties :
    (src : Name) (m : Memory)
    → (rest : Memory) × (name_dup (some src) (plenty 2 m) ≡ some (some null_name, rest))
name_dup_empties src m =
    name_dup-null_name src.process_name src.process_instance src.entity_name src.entity_instance m

-- The answers that follow when a string is copied or a NULL is passed on.
left_after : Option CString → Memory → Memory
left_after none m = true ∷ m
left_after (some s) m = m

string_dup-plenty :
    (o : Option CString) (n : ℕ) (m : Memory)
    → string_dup o (plenty (suc n) m) ≡ some (true, o, plenty n (left_after o m))
unfolding left_after
string_dup-plenty none n m = ap (λ l. some (true, none, l)) (plenty-suc n m)
string_dup-plenty (some s) n m = refl

-- With four blocks, xRINANameInitFrom returns a name with the four strings given to it, NULL where
-- NULL was given.
pub name_init_from_copies :
    (dst : Name) (pn pi en ei : Option CString) (m : Memory)
    → (rest : Memory) × (name_init_from (some dst) pn pi en ei (plenty 4 m)
        ≡ some (some (name_of pn pi en ei), rest))
unfolding name_init_from
name_init_from_copies dst pn pi en ei m =
    let m1 = left_after pn m in
    let m2 = left_after pi m1 in
    let m3 = left_after en m2 in
    (
      left_after ei m3,
      rw
          (
            string_dup-plenty pn 3 m,
            string_dup-plenty pi 2 m1,
            string_dup-plenty en 1 m2,
            string_dup-plenty ei 0 m3,
          )
          refl,
    )
