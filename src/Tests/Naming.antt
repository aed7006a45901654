-- ===== src/Tests/Naming.antt =====
-- Names and protocol addresses on the name "a/1//" and the address "a1".
use rinasensev.Prelude.{◌≡◌, refl, none, some, [], ◌∷◌}
use rinasensev.Memory.{Memory, plenty}
use rinasensev.Names.{name_of, null_name, name_dup}
use rinasensev.Names.Copy.{name_dup_empties}
use rinasensev.Names.Roundtrip.{
  printed_and_read, read_and_printed, printed_and_read_back, read_and_printed_back,
}

printed_and_read_back_example :
    printed_and_read (name_of (some (97 ∷ [])) (some (49 ∷ [])) none (some [])) (plenty 7 [])
    ≡ some (some (name_of (some (97 ∷ [])) (some (49 ∷ [])) (some []) (some [])), [])
printed_and_read_back_example =
    printed_and_read_back (some (97 ∷ [])) (some (49 ∷ [])) none (some []) [] refl refl refl refl

read_and_printed_back_example :
    read_and_printed (97 ∷ 47 ∷ 49 ∷ 47 ∷ 47 ∷ []) (plenty 7 [])
    ≡ some (some (97 ∷ 47 ∷ 49 ∷ 47 ∷ 47 ∷ []), [])
read_and_printed_back_example = read_and_printed_back (97 ∷ 47 ∷ 49 ∷ 47 ∷ 47 ∷ []) [] refl

name_dup_empties_example :
    (rest : Memory) × (name_dup (some (name_of (some (97 ∷ [])) none none none)) (plenty 2 [])
      ≡ some (some null_name, rest))
name_dup_empties_example = name_dup_empties (name_of (some (97 ∷ [])) none none none) []
