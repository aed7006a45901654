-- ===== src/Gpha/Padding.antt =====
-- Padding a protocol address to a length and shrinking it again: xARPAddressGPAGrow and
-- xARPAddressGPAShrink in components/Shim/Arp826/Arp826.c.
use rinasensev.Prelude.{
  ℕ, zero, suc, ◌+◌, ◌-◌, ◌≤◌, ◌<◌, ◌≡◌, ◌≢◌, refl, sym, ap, ◌∙◌, subst, Bool, true, false, ◌==◌,
  ==_ne, ==_refl, Bool-cases, Option, some, inl, inr, [], ◌∷◌, ◌++◌, append-nil, length,
  length-append, length-replicate, take, take-all, take-append, replicate, arith, ltb, leb, le→ltb,
}
use rinasensev.Memory.{Memory, plenty, plenty-suc}
use rinasensev.Gpha.{Gpa, Bytes, grow, shrink, memscan}

-- No byte is the filler.
abbrev pub Without : ℕ → Bytes → Type 0
Without filler [] = Unit {0}
Without filler (b ∷ bytes) = (b ≢ filler) × Without filler bytes

-- An address whose block holds at least one byte and exactly uxLength of them.
abbrev pub plain : Bytes → Gpa
plain bytes = record { address = some bytes; size = length bytes }

memscan-padded :
    (filler : ℕ) (bytes : Bytes) (n : ℕ)
    → Without filler bytes
    → memscan filler (bytes ++ replicate n filler) ≡ length bytes
memscan-padded filler [] zero h = refl
memscan-padded filler [] (suc n) h = rw (==_refl filler) refl
memscan-padded filler (b ∷ bytes) n (h, hs) =
    rw (==_ne b filler h) (ap suc (memscan-padded filler bytes n hs))

-- What shrinking an address leaves whose bytes are `bytes` and `n` fillers behind them.
pub shrink-padded :
    (block bytes : Bytes) (size n filler k : ℕ) (m : Memory)
    → take size block ≡ bytes ++ replicate n filler
    → size ≡ length bytes + n
    → 0 < length bytes
    → Without filler bytes
    → (left : Bytes) × (m' : Memory) × (shrink
          (some (record { address = some block; size = size }))
          filler
          (plenty (suc k) m)
        ≡ (true, some (record { address = some left; size = length bytes }), plenty k m'))
      × (take (length bytes) left ≡ bytes)
unfolding shrink
shrink-padded block bytes size n filler k m e l h w =
    let scan = ap (memscan filler) e ∙ memscan-padded filler bytes n w in
    let nonzero : (size == 0) ≡ false = ==_ne size 0 (λ z. absurd (omega (arith, z, l, h))) in
    elim (Bool-cases (leb size (length bytes))) [
      | inl all ↦
          let none_added : n ≡ 0 = ground (arith, all, l) in
          let sized : size ≡ length bytes = omega (arith, none_added, l) in
          let unpadded =
            e
            ∙ subst (λ k. bytes ++ replicate k filler ≡ bytes) (sym none_added)
                (append-nil bytes) in
          (
            block,
            true ∷ m,
            rw (nonzero, scan, all)
                (ap
                    (λ z.
                      (true, some (record { address = some block; size = z }), plenty (suc k) m))
                    sized
                  ∙ ap (λ l. (true, some (record { address = some block; size = length bytes }), l))
                      (plenty-suc k m)),
            subst (λ z. take z block ≡ bytes) sized unpadded,
          )
      | inr some_added ↦ (
        bytes,
        m,
        rw
            (
              nonzero,
              scan,
              some_added,
              e,
              take-append (length bytes) bytes (replicate n filler) refl,
            )
            refl,
        take-all (length bytes) bytes refl,
      )
    ]

-- xARPAddressGPAGrow and then xARPAddressGPAShrink: both answers, and the address.
pub grown_and_shrunk : Option Gpa → ℕ → ℕ → Memory → Bool × Bool × Option Gpa × Memory
grown_and_shrunk a n filler m =
    let (grew, g, m1) = grow a n filler m in
    let (shrank, g', m2) = shrink g filler m1 in (grew, shrank, g', m2)

-- The bytes that xARPAddressGPAGrow makes of an address, when it has to.
abbrev pub padded : Bytes → ℕ → ℕ → Bytes
padded bytes n filler = bytes ++ replicate (n - length bytes) filler

pub length-padded :
    (bytes : Bytes) (n filler : ℕ) → length bytes ≤ n → length (padded bytes n filler) ≡ n
length-padded bytes n filler h = omega (
  arith,
  length-append bytes (replicate (n - length bytes) filler),
  length-replicate (n - length bytes) filler,
)

-- An address that is padded to a length not below its own and shrunk again has its own bytes, when
-- none of them is the filler and there is memory; both operations answer true.
pub shrink-grow :
    (block : Bytes) (size n filler : ℕ) (m : Memory)
    → length (take size block) ≡ size
    → 0 < size
    → size ≤ n
    → Without filler (take size block)
    → (left : Bytes) × (rest : Memory) × (grown_and_shrunk
          (some (record { address = some block; size = size }))
          n
          filler
          (plenty 2 m)
        ≡ (true, true, some (record { address = some left; size = size }), rest))
      × (take size left ≡ take size block)
unfolding grown_and_shrunk grow
shrink-grow block size n filler m whole positive longer w =
    let bytes = take size block in
    let ok : (size == 0) ≡ false = ==_ne size 0 (λ z. absurd (omega (arith, z, positive))) in
    let n_ok : (n == 0) ≡ false = ==_ne n 0 (λ z. absurd (omega (arith, z, positive, longer))) in
    let n_long : ltb n size ≡ false = le→ltb n size longer in
    elim (Bool-cases (size == n)) [
      | inl same ↦
          let (left, rest, run, kept) =
            shrink-padded block bytes size 0 filler 1 m (sym (append-nil bytes))
              (omega (arith, whole)) (omega (arith, whole, positive)) w in
          (
            left,
            plenty 1 rest,
            rw (ok, n_ok, n_long, same) (ap (λ r. (true, r.0, r.1, r.2)) run)
                ∙ ap
                    (λ l.
                      (true, true, some (record { address = some left; size = l }), plenty 1 rest))
                    whole,
            subst (λ l. take l left ≡ bytes) whole kept,
          )
      | inr other ↦
          let (left, rest, run, kept) =
            shrink-padded (bytes ++ replicate (n - size) filler) bytes n (n - size) filler 0 m
              (take-all n (bytes ++ replicate (n - size) filler) (
                sym (
                  ap (λ l. length (bytes ++ replicate (n - l) filler)) (sym whole)
                  ∙ length-padded bytes n filler (omega (arith, whole, longer)))))
              (omega (arith, whole, longer)) (omega (arith, whole, positive)) w in
          (
            left,
            rest,
            rw (ok, n_ok, n_long, other) (ap (λ r. (true, r.0, r.1, r.2)) run)
                ∙ ap (λ l. (true, true, some (record { address = some left; size = l }), rest))
                    whole,
            subst (λ l. take l left ≡ bytes) whole kept,
          )
    ]
