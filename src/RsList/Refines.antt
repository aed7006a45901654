-- ===== src/RsList/Refines.antt =====
-- The lists of components/Rina-manager/Common/include/common/list.h as sequences of items.
use rinasensev.Prelude.{
  ℕ, zero, suc, ◌^◌, ◌<◌, ◌≡◌, refl, sym, ap, subst, Bool, true, false, ◌==◌, ==_refl, ==_iff,
  Bool-cases, inl, inr, if◌then◌else◌, Option, none, some, List, [], ◌∷◌, ◌++◌, length, is_some,
  ◌>>=◌, arith,
}
use rinasensev.RsList.{
  Heap, init, init_item, insert, insert_end, insert_behind, remove, get_next, contained_from,
  is_contained_within,
}
use rinasensev.RsList.Links.{NotIn, Forward}
use rinasensev.RsList.Ring.{
  IsRing, AllOwned, CanInsert, insert-IsRing, insert_end-IsRing, remove-IsRing, init-IsRing,
  init_item-IsRing,
}

-- What clients do: an item gets its owner and goes into the list, or leaves it.
pub data Operation : Type 0 where
  push push_end : ℕ → ℕ → Operation
  take_out : ℕ → Operation

abbrev pub apply : Operation → Heap → ℕ → Option Heap
apply (push x owner) s l = insert (init_item s x (some owner)) l x
apply (push_end x owner) s l = insert_end (init_item s x (some owner)) l x
apply (take_out x) s l = remove s x

abbrev pub run : List Operation → Heap → ℕ → Option Heap
run [] s l = some s
run (op ∷ ops) s l = do s1 ← apply op s l; run ops s1 l

-- The sequence that a list stands for.
abbrev pub mem : ℕ → List ℕ → Bool
mem x [] = false
mem x (y ∷ ys) = let rest = mem x ys in if y == x then true else rest

abbrev pub erase : ℕ → List ℕ → List ℕ
erase x [] = []
erase x (y ∷ ys) = let rest = erase x ys in if y == x then ys else y ∷ rest

abbrev pub after : Operation → List ℕ → List ℕ
after (push x owner) xs = insert_behind x xs
after (push_end x owner) xs = xs ++ x ∷ []
after (take_out x) xs = erase x xs

abbrev pub after_all : List Operation → List ℕ → List ℕ
after_all [] xs = xs
after_all (op ∷ ops) xs = after_all ops (after op xs)

-- An item that goes in is new and there is room for its count; one that leaves is in the list.
abbrev pub Allowed : ℕ → Operation → List ℕ → Type 0
Allowed l (push x owner) xs = ((l == x) ≡ false) × NotIn x xs × (suc (length xs) < 2 ^ 32)
Allowed l (push_end x owner) xs = ((l == x) ≡ false) × NotIn x xs × (suc (length xs) < 2 ^ 32)
Allowed l (take_out x) xs = mem x xs ≡ true

abbrev pub AllAllowed : ℕ → List Operation → List ℕ → Type 0
AllAllowed l [] xs = Unit {0}
AllAllowed l (op ∷ ops) xs = Allowed l op xs × AllAllowed l ops (after op xs)

-- An item of a sequence, with what stands before and behind it.
mem-split :
    (x : ℕ) (xs : List ℕ)
    → mem x xs ≡ true
    → (ys : List ℕ) × (zs : List ℕ) × (xs ≡ ys ++ x ∷ zs) × (erase x xs ≡ ys ++ zs)
mem-split x [] h = absurd (ground (arith, h))
mem-split x (y ∷ ys) h = elim (Bool-cases (y == x)) [
  | inl same ↦ ([], ys, ap (λ z. z ∷ ys) ((==_iff y x).0 same), rw same refl)
  | inr other ↦
      let (before, behind, e, e') = mem-split x ys (rw other at h) in
      (y ∷ before, behind, ap (λ t. y ∷ t) e, rw other (ap (λ t. y ∷ t) e'))
]

ready :
    (s : Heap) (l x owner : ℕ) (xs : List ℕ)
    → Allowed l (push x owner) xs
    → CanInsert (init_item s x (some owner)) l x xs
ready s l x owner xs (other, new, room) = record {
  other = other;
  new = new;
  owner = rw (==_refl x) refl;
  room = room;
}

apply-IsRing :
    (op : Operation) (s : Heap) (l : ℕ) (xs : List ℕ)
    → Allowed l op xs
    → IsRing s l xs
    → (s' : Heap) × (apply op s l ≡ some s') × IsRing s' l (after op xs)
apply-IsRing (push x owner) s l xs can r =
    insert-IsRing (init_item s x (some owner)) l x xs
      (init_item-IsRing s l x owner xs can.0 can.1 r) (ready s l x owner xs can)
apply-IsRing (push_end x owner) s l xs can r =
    insert_end-IsRing (init_item s x (some owner)) l x xs
      (init_item-IsRing s l x owner xs can.0 can.1 r) (ready s l x owner xs can)
apply-IsRing (take_out x) s l xs can r =
    let (ys, zs, e, e') = mem-split x xs can in
    let (s', ran, ring) = remove-IsRing s l x ys zs (subst (IsRing s l) e r) in
    (s', ran, subst (IsRing s' l) (sym e') ring)

run-IsRing :
    (ops : List Operation) (s : Heap) (l : ℕ) (xs : List ℕ)
    → AllAllowed l ops xs
    → IsRing s l xs
    → (s' : Heap) × (run ops s l ≡ some s') × IsRing s' l (after_all ops xs)
run-IsRing [] s l xs can r = (s, refl, r)
run-IsRing (op ∷ ops) s l xs (can, rest) r =
    let (s1, ran, r1) = apply-IsRing op s l xs can r in
    let (s', ran', r') = run-IsRing ops s1 l (after op xs) rest r1 in (s', rw ran ran', r')

-- The walk over a list from one of its items on.
get_next-last :
    (s : Heap) (l a : ℕ) → s.next a ≡ some l → s.owner l ≡ none → get_next s a ≡ some none
unfolding get_next
get_next-last s l a next headed = rw (next, headed) refl

get_next-item :
    (s : Heap) (a b : ℕ)
    → s.next a ≡ some b
    → is_some (s.owner b) ≡ true
    → get_next s a ≡ some (some b)
unfolding get_next
get_next-item s a b next owned = rw (next, owned) refl

contained_from-mem :
    (fuel : ℕ) (s : Heap) (l x a : ℕ) (xs : List ℕ)
    → Forward s.next a xs l
    → AllOwned s l xs
    → s.owner l ≡ none
    → length xs < fuel
    → contained_from (suc fuel) s x (some a) ≡ some (mem x (a ∷ xs))
unfolding contained_from
contained_from-mem fuel s l x a [] way owned headed enough = elim (Bool-cases (a == x)) [
  | inl same ↦ rw same refl
  | inr other ↦ rw (other, get_next-last s l a way headed) refl
]
contained_from-mem zero s l x a (b ∷ xs) way owned headed enough = absurd (omega arith)
contained_from-mem (suc fuel) s l x a (b ∷ xs) (next, way) (owner, _, owned) headed enough =
    elim (Bool-cases (a == x)) [
      | inl same ↦ rw same refl
      | inr other ↦
          rw (other, get_next-item s a b next owner)
            (contained_from-mem fuel s l x b xs way owned headed (omega arith))
    ]

contained-IsRing :
    (s : Heap) (l x : ℕ) (xs : List ℕ)
    → IsRing s l xs
    → is_contained_within (suc (length xs)) s l x ≡ some (mem x xs)
unfolding is_contained_within contained_from
contained-IsRing s l x [] r = rw r.counts refl
contained-IsRing s l x (a ∷ xs) r =
    let counted : (suc (length xs) == 0) ≡ false = ground arith in
    rw (r.counts, counted, r.forward.0)
      (contained_from-mem (suc (length xs)) s l x a xs r.forward.1 r.owned.2 r.headed (omega arith))

-- From vRsListInit on, in every order of inserting items that are new to the list, each with its
-- owner, at either place, and removing items that are in it, as long as a size_t can count them: no
-- operation faults, the ring of links stands for the sequence of items, in which vRsListInsert puts
-- an item behind the first, and xRsListIsContainedWithin ends and finds just the items of that
-- sequence.
pub operations_refine :
    (s : Heap) (l : ℕ) (ops : List Operation) (x : ℕ)
    → AllAllowed l ops []
    → (s' : Heap) × (run ops (init s l) l ≡ some s')
      × IsRing s' l (after_all ops [])
      × (is_contained_within (suc (length (after_all ops []))) s' l x
          ≡ some (mem x (after_all ops [])))
operations_refine s l ops x can =
    let (s', ran, ring) = run-IsRing ops (init s l) l [] can (init-IsRing s l) in
    (s', ran, ring, contained-IsRing s' l x (after_all ops []) ring)
