-- ===== src/Strings.antt =====
-- The C library's functions on strings that the code calls. A string is the list of the bytes
-- before its terminator, a NULL pointer is `none`.
use rinasensev.Prelude.{
  ℕ, suc, inl, inr, ◌-◌, ◌≡◌, refl, ap, ◌∙◌, false, if◌then◌else◌, ◌==◌, ==_iff, ==_refl,
  Bool-cases, Option, none, some, List, [], ◌∷◌, ◌++◌, length, take, arith,
}

abbrev pub CString : Type 0
CString = List ℕ

-- The token before the first separator, and the rest behind it when there is one.
abbrev pub cut : ℕ → CString → CString × Option CString
cut sep [] = ([], none)
cut sep (c ∷ s) =
    let (token, rest) = cut sep s in if c == sep then ([], some s) else (c ∷ token, rest)

-- strsep with one separator: the token, and the pointer it leaves.
abbrev pub strsep : ℕ → Option CString → Option CString × Option CString
strsep sep none = (none, none)
strsep sep (some s) = let (token, rest) = cut sep s in (some token, rest)

-- snprintf of a text into `size` bytes: what the buffer holds, and the length that it returns.
abbrev pub snprintf : ℕ → CString → CString × ℕ
snprintf size text = (take (size - 1) text, length text)

-- How many separators a string holds.
abbrev pub count : ℕ → CString → ℕ
count sep [] = 0
count sep (c ∷ s) = if c == sep then suc (count sep s) else count sep s

cut_other :
    (sep c : ℕ) (s : CString)
    → (c == sep) ≡ false
    → cut sep (c ∷ s) ≡ (c ∷ (cut sep s).0, (cut sep s).1)
cut_other sep c s e = rw e refl

count_other :
    (sep c : ℕ) (s : CString) → count sep (c ∷ s) ≡ 0 → ((c == sep) ≡ false) × (count sep s ≡ 0)
count_other sep c s h = elim (Bool-cases (c == sep)) [
  | inl e ↦ absurd (ground (arith, e, h))
  | inr e ↦ (e, ground (arith, e, h))
]

pub cut-joined :
    (sep : ℕ) (s rest : CString) → count sep s ≡ 0 → cut sep (s ++ sep ∷ rest) ≡ (s, some rest)
cut-joined sep [] rest h = rw (==_refl sep) refl
cut-joined sep (c ∷ s) rest h =
    let (e, k) = count_other sep c s h in
    cut_other sep c (s ++ sep ∷ rest) e ∙ ap (λ p. (c ∷ p.0, p.1)) (cut-joined sep s rest k)

pub cut-whole : (sep : ℕ) (s : CString) → count sep s ≡ 0 → cut sep s ≡ (s, none)
cut-whole sep [] h = refl
cut-whole sep (c ∷ s) h =
    let (e, k) = count_other sep c s h in
    cut_other sep c s e ∙ ap (λ p. (c ∷ p.0, p.1)) (cut-whole sep s k)

-- A string with separators is a piece without one, a separator, and the rest.
abbrev pub Pieces : ℕ → CString → ℕ → Type 0
Pieces sep s k =
    (a : CString) × (r : CString) × (s ≡ a ++ sep ∷ r) × (count sep a ≡ 0) × (count sep r ≡ k)

pub pieces : (sep : ℕ) (s : CString) (k : ℕ) → count sep s ≡ suc k → Pieces sep s k
pieces sep [] k h = absurd (omega (arith, h))
pieces sep (c ∷ s) k h = elim (Bool-cases (c == sep)) [
  | inl e ↦ ([], s, ap (λ x. x ∷ s) ((==_iff c sep).0 e), refl, ground (arith, e, h))
  | inr e ↦
      let (a, r, whole, none_in, rest) = pieces sep s k (ground (arith, e, h)) in
      (c ∷ a, r, ap (λ t. c ∷ t) whole, ground (arith, e, none_in), rest)
]
