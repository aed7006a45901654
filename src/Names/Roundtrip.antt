-- ===== src/Names/Roundtrip.antt =====
-- The text of a name and the name of a text: pcNameToString, xRINAstringToName and
-- xRinaNameFromString in components/Rina-manager/Common/rina_name.c.
use rinasensev.Prelude.{
  ℕ, ◌+◌, ◌-◌, ◌≡◌, refl, sym, ap, subst, ◌∙◌, true, ◌==◌, ==_refl, Option, none, some, [], ◌∷◌,
  ◌++◌, length, length-append, take, take-all, arith, ◌>>=◌, if◌then◌else◌,
}
use rinasensev.Memory.{Memory, plenty}
use rinasensev.Strings.{CString, count, cut-joined, cut-whole, pieces}
use rinasensev.Names.{
  Name, name_of, delimiter, bar, text_or_none, joined, name_to_string, string_to_name,
  name_init_from, name_from_string,
}

length-joined :
    (pn pi en ei : CString)
    → length pn + 1 + (length pi + 1) + (length en + 1) + (length ei + 1) - 1
      ≡ length (joined pn pi en ei)
length-joined pn pi en ei = omega (
  arith,
  length-append pn (delimiter ∷ (pi ++ delimiter ∷ (en ++ delimiter ∷ ei))),
  length-append pi (delimiter ∷ (en ++ delimiter ∷ ei)),
  length-append en (delimiter ∷ ei),
)

fitting :
    (k : ℕ) (text : CString) (m : Memory)
    → k ≡ length text
    → if◌then◌else◌ {A = Option (Option CString × Memory)}
        (length text == k)
        (some (some (take k text), m))
        (some (none, m))
      ≡ some (some text, m)
fitting k text m e = rw (e, ==_refl (length text), take-all (length text) text refl) refl

-- The whole text fits the block of pcNameToString, whatever the fields hold, and is returned.
pub name_to_string_fits :
    (pn pi en ei : Option CString) (m : Memory)
    → name_to_string (some (name_of pn pi en ei)) (plenty 1 m)
      ≡ some
          (some (joined (text_or_none pn) (text_or_none pi) (text_or_none en) (text_or_none ei)), m)
unfolding name_to_string
name_to_string_fits pn pi en ei m =
    let a = text_or_none pn in
    let b = text_or_none pi in
    let c = text_or_none en in
    let d = text_or_none ei in
    fitting (length a + 1 + (length b + 1) + (length c + 1) + (length d + 1) - 1) (joined a b c d) m
      (length-joined a b c d)

-- pcNameToString and then xRINAstringToName on the text.
pub printed_and_read : Name → Memory → Option (Option Name × Memory)
printed_and_read n m = do (text, m1) ← name_to_string (some n) m; string_to_name text m1

-- xRINAstringToName and then pcNameToString on the name.
pub read_and_printed : CString → Memory → Option (Option CString × Memory)
read_and_printed s m = do (name, m1) ← string_to_name (some s) m; name_to_string name m1

string_to_name-joined :
    (a b c d : CString) (m : Memory)
    → count delimiter a ≡ 0
    → count delimiter b ≡ 0
    → count delimiter c ≡ 0
    → count delimiter d ≡ 0
    → string_to_name (some (joined a b c d)) (plenty 6 m)
      ≡ some (some (name_of (some a) (some b) (some c) (some d)), m)
unfolding string_to_name name_init_from
string_to_name-joined a b c d m ha hb hc hd =
    rw
      (
        cut-joined delimiter a (b ++ delimiter ∷ (c ++ delimiter ∷ d)) ha,
        cut-joined delimiter b (c ++ delimiter ∷ d) hb,
        cut-joined delimiter c d hc,
        cut-whole delimiter d hd,
      )
      refl

-- A name whose texts hold no '/', where the seven blocks of memory that are asked for are given, is
-- printed and read back as the name with those four texts, where a NULL field has become the empty
-- text.
pub printed_and_read_back :
    (pn pi en ei : Option CString) (m : Memory)
    → count delimiter (text_or_none pn) ≡ 0
    → count delimiter (text_or_none pi) ≡ 0
    → count delimiter (text_or_none en) ≡ 0
    → count delimiter (text_or_none ei) ≡ 0
    → printed_and_read (name_of pn pi en ei) (plenty 7 m)
      ≡ some (
        some (
            name_of
              (some (text_or_none pn))
              (some (text_or_none pi))
              (some (text_or_none en))
              (some (text_or_none ei))),
        m,
      )
unfolding printed_and_read
printed_and_read_back pn pi en ei m ha hb hc hd =
    rw (name_to_string_fits pn pi en ei (plenty 6 m)) (
      string_to_name-joined (text_or_none pn) (text_or_none pi) (text_or_none en) (text_or_none ei)
        m ha hb hc hd)

-- A text with exactly three '/', where the seven blocks of memory that are asked for are given, is
-- read and printed back as itself.
pub read_and_printed_back :
    (s : CString) (m : Memory)
    → count delimiter s ≡ 3
    → read_and_printed s (plenty 7 m) ≡ some (some s, m)
unfolding read_and_printed
read_and_printed_back s m h =
    let (a, r, ea, ha, h2) = pieces delimiter s 2 h in
    let (b, r', eb, hb, h1) = pieces delimiter r 1 h2 in
    let (c, d, ec, hc, hd) = pieces delimiter r' 0 h1 in
    let whole = sym (ea ∙ ap (λ t. a ++ delimiter ∷ t) (eb ∙ ap (λ t. b ++ delimiter ∷ t) ec)) in
    subst (λ t. read_and_printed t (plenty 7 m) ≡ some (some t, m)) whole
      (rw (string_to_name-joined a b c d (plenty 1 m) ha hb hc hd)
        (name_to_string_fits (some a) (some b) (some c) (some d) m))

-- xRinaNameFromString does not cut at '/': a text without '|' becomes the process name, and the
-- other three fields are empty texts.
pub name_from_string_whole :
    (s : CString) (m : Memory)
    → count bar s ≡ 0
    → name_from_string (some s) (plenty 5 m)
      ≡ some (true, name_of (some s) (some []) (some []) (some []), m)
unfolding name_from_string
name_from_string_whole [] m h = refl
name_from_string_whole (c ∷ s) m h = rw (cut-whole bar (c ∷ s) h) refl
