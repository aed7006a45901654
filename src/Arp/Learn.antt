-- ===== src/Arp/Learn.antt =====
-- What the ARP cache learns from a reply: eARPProcessPacket, vARPAddCacheEntry and eARPLookupGPA in
-- components/Shim/Arp826/Arp826.c.
use rinasensev.Prelude.{
  ℕ, suc, ◌+◌, ◌<◌, ◌≡◌, ◌≢◌, refl, sym, ap, ◌∙◌, subst, true, false, ◌==◌, ==_refl, Bool-cases,
  Option, none, some, inl, inr, List, [], ◌∷◌, ◌++◌, length, take, take-append, get_or-append_one,
  drop, set, get_or, get_or-set_ne, replicate, arith,
}
use rinasensev.Memory.{Memory, plenty}
use rinasensev.Gpha.{Gpa, Gha, Bytes, bytes_eq, is_gpa_ok, is_gha_ok, gpa_cmp, create_gpa}
use rinasensev.Arp.{
  Row, Arp, gpa_at, gha_at, gone_gpa, cache_hit, lookup_rows, lookup_gpa, gpa_destroy, gha_destroy,
}
use rinasensev.Arp.Update.{free_row, one_later, fill_row, add_cache_entry}
use rinasensev.Arp.Packet.{Frame, process_buffer, process_reply}

some_injective : (a b : ℕ) → some a ≡ some b → a ≡ b
some_injective a b h = cc

head_free :
    (r : Row) (rows : List Row) (x : ℕ)
    → (r.valid == 0) ≡ true
    → free_row (r ∷ rows) ≡ some x
    → 0 ≡ x
head_free r rows x free h = some_injective 0 x (sym (rw free refl) ∙ h)

shifted : (o : Option ℕ) (x : ℕ) → one_later o ≡ some x → (i : ℕ) × (x ≡ suc i) × (o ≡ some i)
shifted none x h = absurd (ground (arith, h))
shifted (some i) x h = (i, sym (some_injective (suc i) x h), refl)

tail_free :
    (r : Row) (rows : List Row) (x : ℕ)
    → (r.valid == 0) ≡ false
    → free_row (r ∷ rows) ≡ some x
    → (i : ℕ) × (x ≡ suc i) × (free_row rows ≡ some i)
tail_free r rows x used h = shifted (free_row rows) x (sym (rw used refl) ∙ h)

-- A row written over the first free one is found: the rows before it are valid.
lookup-set :
    (gpas : List Gpa) (rows : List Row) (x : ℕ) (r : Row) (g : Option Gpa)
    → free_row rows ≡ some x
    → (r.age == 0) ≡ false
    → (r.valid == 0) ≡ false
    → gpa_cmp (gpa_at gpas r.pa) g ≡ true
    → lookup_rows gpas (set rows x r) g ≡ cache_hit
lookup-set gpas [] x r g h age valid same = absurd (ground (arith, h))
lookup-set gpas (r0 ∷ rows) x r g h age valid same = elim (Bool-cases (r0.valid == 0)) [
  | inl free ↦
      subst (λ i. lookup_rows gpas (set (r0 ∷ rows) i r) g ≡ cache_hit) (head_free r0 rows x free h)
        (rw (age, same, valid) refl)
  | inr used ↦
      let (i, e, below) = tail_free r0 rows x used h in
      subst (λ i. lookup_rows gpas (set (r0 ∷ rows) i r) g ≡ cache_hit) (sym e)
        (elim (Bool-cases (r0.age == 0)) [
          | inl old ↦ rw old (lookup-set gpas rows i r g below age valid same)
          | inr young ↦ elim (Bool-cases (gpa_cmp (gpa_at gpas r0.pa) g)) [
            | inl found ↦ rw (young, found, used) refl
            | inr other ↦ rw (young, other) (lookup-set gpas rows i r g below age valid same)
          ]
        ])
]

pub bytes_eq_refl : (xs : Bytes) → bytes_eq xs xs ≡ true
bytes_eq_refl [] = refl
bytes_eq_refl (x ∷ xs) = rw (==_refl x) (bytes_eq_refl xs)

gpa_cmp_same :
    (a b : Bytes) (n : ℕ)
    → (n == 0) ≡ false
    → take n a ≡ take n b
    → gpa_cmp
        (some (record { address = some a; size = n }))
        (some (record { address = some b; size = n }))
      ≡ true
gpa_cmp_same a b n positive e = rw (positive, ==_refl n, e) (bytes_eq_refl (take n b))

-- The bytes that pxCreateGPA copies, with the zero behind them.
abbrev pub copied : Bytes → ℕ → Gpa
copied bytes n = record { address = some (take n bytes ++ drop n (replicate (n + 1) 0)); size = n }

pub create_gpa-copied :
    (bytes : Bytes) (n : ℕ) (m : Memory)
    → (n == 0) ≡ false
    → create_gpa (some bytes) n (plenty 2 m) ≡ some (some (copied bytes n), m)
unfolding create_gpa
create_gpa-copied bytes n m positive = rw positive refl

gpa_destroy-gpas :
    (s : Arp) (j i : ℕ)
    → j ≢ i
    → get_or (gpa_destroy s (some j)).gpas i gone_gpa ≡ get_or s.gpas i gone_gpa
gpa_destroy-gpas s j i h = elim (Bool-cases (is_gpa_ok (gpa_at s.gpas (some j)))) [
  | inl ok ↦ rw ok (get_or-set_ne s.gpas j i gone_gpa gone_gpa h)
  | inr bad ↦ rw bad refl
]

pub gpa_destroy-cache : (s : Arp) (j : ℕ) → (gpa_destroy s (some j)).cache ≡ s.cache
gpa_destroy-cache s j = elim (Bool-cases (is_gpa_ok (gpa_at s.gpas (some j)))) [
  | inl ok ↦ rw ok refl
  | inr bad ↦ rw bad refl
]

gha_destroy-lookup :
    (s : Arp) (p : Option ℕ) (g : Option Gpa) → lookup_gpa (gha_destroy s p) g ≡ lookup_gpa s g
unfolding lookup_gpa
gha_destroy-lookup s none g = refl
gha_destroy-lookup s (some p) g = elim (Bool-cases (is_gha_ok (gha_at s (some p)))) [
  | inl ok ↦ rw ok refl
  | inr bad ↦ rw bad refl
]

-- The reply of a sender whose address stands at `i`: it is copied to a row.
pub process_reply-hit :
    (gpas : List Gpa) (ghas : List Gha) (cache : List Row) (m : Memory) (f : Frame) (i j x : ℕ)
    (sha tha : Option ℕ) (block query : Bytes) (n : ℕ)
    → get_or gpas i gone_gpa ≡ record { address = some block; size = n }
    → (n == 0) ≡ false
    → n ≡ length (take n block)
    → take n block ≡ take n query
    → j < length gpas
    → free_row cache ≡ some x
    → (s' : Arp) × (process_reply
          (record { gpas = gpas; ghas = ghas; cache = cache; memory = plenty 3 m })
          f
          (record { spa = some i; sha = sha; tpa = some j; tha = tha })
        ≡ some (process_buffer, f, s'))
      × (lookup_gpa s' (some (record { address = some query; size = n })) ≡ cache_hit)
unfolding process_reply add_cache_entry lookup_gpa
process_reply-hit gpas ghas cache m f i j x sha tha block query n at_i positive whole asked below
      free =
    let g : Gpa = record { address = some query; size = n } in
    let s0 : Arp = record { gpas = gpas; ghas = ghas; cache = cache; memory = plenty 2 m } in
    let added : Arp = record {
      gpas = gpas ++ copied block n ∷ [];
      ghas = ghas;
      cache = set cache x (record { pa = some (length gpas); ha = sha; age = 3; valid = 1 });
      memory = m;
    } in
    let filled : add_cache_entry s0 (some i) sha 3 ≡ some added =
      ap (λ o. fill_row s0 o (some i) sha 3) free
      ∙ rw (at_i, create_gpa-copied block n m positive) refl in
    let destroyed = gpa_destroy added (some j) in
    let stored : get_or destroyed.gpas (length gpas) gone_gpa ≡ copied block n =
      gpa_destroy-gpas added j (length gpas) (λ e. absurd (omega (arith, e, below)))
      ∙ get_or-append_one gpas (copied block n) gone_gpa in
    let same : gpa_cmp (some (get_or destroyed.gpas (length gpas) gone_gpa)) (some g) ≡ true =
      ap (λ c. gpa_cmp (some c) (some g)) stored
      ∙ gpa_cmp_same (take n block ++ drop n (replicate (n + 1) 0)) query n positive
          (take-append n (take n block) (drop n (replicate (n + 1) 0)) whole ∙ asked) in
    (
      gha_destroy destroyed tha,
      rw filled refl,
      gha_destroy-lookup destroyed tha (some g)
          ∙ ap (λ rows. lookup_rows destroyed.gpas rows (some g)) (gpa_destroy-cache added j)
          ∙ lookup-set destroyed.gpas cache x
              (record { pa = some (length gpas); ha = sha; age = 3; valid = 1 }) (some g) free refl
              refl same,
    )
