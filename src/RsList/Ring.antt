-- ===== src/RsList/Ring.antt =====
-- The heap of components/Rina-manager/Common/include/common/list.h holds a list: a ring of its head
-- and its items. vRsListInsert, vRsListInsertEnd and vRsListRemove keep it.
use rinasensev.Prelude.{
  ℕ, suc, ◌+◌, ◌-◌, ◌%◌, ◌^◌, ◌<◌, ◌≡◌, refl, sym, ap, ◌∙◌, subst, true, false, ◌==◌, ==_refl, none,
  some, List, [], ◌∷◌, ◌++◌, length, length-append, append-nil, is_some, ◌>>=◌, arith,
}
use rinasensev.RsList.{
  Heap, put, init_item, init, list_add, counted, insert, insert_end, insert_behind, remove,
}
use rinasensev.RsList.Links.{
  NotIn, Distinct, Forward, Backward, last_or, first_or, ne_sym, Forward-put, Backward-put,
  Forward-add, Backward-add, Forward-last, Backward-last, Forward-at, Backward-at, Forward-remove,
  Backward-remove, Distinct-middle, NotIn-middle, NotIn-without, NotIn-at, Distinct-without,
}

-- Each item has an owner and names its list.
abbrev pub AllOwned : Heap → ℕ → List ℕ → Type 0
AllOwned s l [] = Unit {0}
AllOwned s l (x ∷ xs) = (is_some (s.owner x) ≡ true) × (s.cont x ≡ some l) × AllOwned s l xs

pub record IsRing (s : Heap) (l : ℕ) (xs : List ℕ) : Type 0 where
  pub forward : Forward s.next l xs l
  pub backward : Backward s.prev l xs l
  pub distinct : Distinct xs
  pub apart : NotIn l xs
  pub counts : s.n_length l ≡ length xs
  pub bounded : length xs < 2 ^ 32
  pub headed : s.owner l ≡ none
  pub owned : AllOwned s l xs

-- Items that keep their owner and their list.
AllOwned-counted :
    (s t : Heap) (l x : ℕ) (xs : List ℕ)
    → ((a : ℕ) → (a == x) ≡ false → t.owner a ≡ s.owner a)
    → ((a : ℕ) → (a == x) ≡ false → t.cont a ≡ s.cont a)
    → NotIn x xs
    → AllOwned s l xs
    → AllOwned t l xs
AllOwned-counted s t l x [] ho hc far owned = tt
AllOwned-counted s t l x (y ∷ ys) ho hc (hy, far) (o, c, rest) =
    (ap is_some (ho y hy) ∙ o, hc y hy ∙ c, AllOwned-counted s t l x ys ho hc far rest)

AllOwned-middle :
    (s : Heap) (l x : ℕ) (ys zs : List ℕ)
    → is_some (s.owner x) ≡ true
    → s.cont x ≡ some l
    → AllOwned s l (ys ++ zs)
    → AllOwned s l (ys ++ x ∷ zs)
AllOwned-middle s l x [] zs o c owned = (o, c, owned)
AllOwned-middle s l x (y ∷ ys) zs o c (oy, cy, owned) =
    (oy, cy, AllOwned-middle s l x ys zs o c owned)

AllOwned-without :
    (s : Heap) (l x : ℕ) (ys zs : List ℕ) → AllOwned s l (ys ++ x ∷ zs) → AllOwned s l (ys ++ zs)
AllOwned-without s l x [] zs (o, c, owned) = owned
AllOwned-without s l x (y ∷ ys) zs (oy, cy, owned) = (oy, cy, AllOwned-without s l x ys zs owned)

AllOwned-at :
    (s : Heap) (l x : ℕ) (ys zs : List ℕ) → AllOwned s l (ys ++ x ∷ zs) → s.cont x ≡ some l
AllOwned-at s l x [] zs (o, c, owned) = c
AllOwned-at s l x (y ∷ ys) zs (oy, cy, owned) = AllOwned-at s l x ys zs owned

-- listADD behind the last of `ys` puts the item between `ys` and `zs`.
pub added : Heap → ℕ → ℕ → List ℕ → List ℕ → Heap
added s l x ys zs =
    counted
      (record s {
        next = put (put s.next x (some (first_or zs l))) (last_or l ys) (some x);
        prev = put (put s.prev (first_or zs l) (some x)) x (some (last_or l ys));
      })
      l x

added-IsRing :
    (s : Heap) (l x : ℕ) (ys zs : List ℕ)
    → IsRing s l (ys ++ zs)
    → (l == x) ≡ false
    → NotIn x (ys ++ zs)
    → is_some (s.owner x) ≡ true
    → suc (length (ys ++ zs)) < 2 ^ 32
    → IsRing (added s l x ys zs) l (ys ++ x ∷ zs)
unfolding added
added-IsRing s l x ys zs r hl hx owner small = record {
  forward = Forward-add s.next x l ys zs l (r.apart, r.distinct) hl hx r.forward;
  backward = Backward-add s.prev x l ys zs l r.distinct r.apart hl hx r.backward;
  distinct = Distinct-middle x ys zs r.distinct hx;
  apart = NotIn-middle l x ys zs r.apart (ne_sym l x hl);
  counts =
      rw (==_refl l)
        (omega (arith, r.counts, small, length-append ys zs, length-append ys (x ∷ zs)));
  bounded = omega (arith, small, length-append ys zs, length-append ys (x ∷ zs));
  headed = r.headed;
  owned = AllOwned-middle (added s l x ys zs) l x ys zs owner (rw (==_refl x) refl) (
      AllOwned-counted s (added s l x ys zs) l x (ys ++ zs) (λ a h. refl) (λ a h. rw h refl) hx
        r.owned);
}

-- The two inserts from the link that they find.
inserted :
    (s : Heap) (l x : ℕ) (ys zs : List ℕ)
    → IsRing s l (ys ++ zs)
    → (do s1 ← list_add s (last_or l ys) x; some (counted s1 l x)) ≡ some (added s l x ys zs)
unfolding added list_add
inserted s l x ys zs r = rw (Forward-last s.next l ys zs l r.forward) refl

-- What a caller of vRsListInsert must see to: the item is new to the list, and has its owner.
pub record CanInsert (s : Heap) (l x : ℕ) (xs : List ℕ) : Type 0 where
  pub other : (l == x) ≡ false
  pub new : NotIn x xs
  pub owner : is_some (s.owner x) ≡ true
  pub room : suc (length xs) < 2 ^ 32

pub insert-IsRing :
    (s : Heap) (l x : ℕ) (xs : List ℕ)
    → IsRing s l xs
    → CanInsert s l x xs
    → (s' : Heap) × (insert s l x ≡ some s') × IsRing s' l (insert_behind x xs)
unfolding insert
insert-IsRing s l x [] r can = (
  added s l x [] [],
  rw r.forward (inserted s l x [] [] r),
  added-IsRing s l x [] [] r can.other can.new can.owner can.room,
)
insert-IsRing s l x (a ∷ xs) r can = (
  added s l x (a ∷ []) xs,
  rw r.forward.0 (inserted s l x (a ∷ []) xs r),
  added-IsRing s l x (a ∷ []) xs r can.other can.new can.owner can.room,
)

pub insert_end-IsRing :
    (s : Heap) (l x : ℕ) (xs : List ℕ)
    → IsRing s l xs
    → CanInsert s l x xs
    → (s' : Heap) × (insert_end s l x ≡ some s') × IsRing s' l (xs ++ x ∷ [])
unfolding insert_end
insert_end-IsRing s l x xs r can =
    let e = append-nil xs in
    let r' = subst (IsRing s l) (sym e) r in
    (
      added s l x xs [],
      rw (Backward-last s.prev l xs l r.backward) (inserted s l x xs [] r'),
      added-IsRing s l x xs [] r' can.other (subst (NotIn x) (sym e) can.new) can.owner
          (subst (λ zs. suc (length zs) < 2 ^ 32) (sym e) can.room),
    )

-- vRsListRemove of an item between `ys` and `zs`.
pub removed : Heap → ℕ → ℕ → List ℕ → List ℕ → Heap
removed s l x ys zs = record s {
  next = put (put s.next (last_or l ys) (some (first_or zs l))) x none;
  prev = put (put s.prev (first_or zs l) (some (last_or l ys))) x none;
  n_length = put s.n_length l ((s.n_length l + 2 ^ 32 - 1) % 2 ^ 32);
}

pub remove-IsRing :
    (s : Heap) (l x : ℕ) (ys zs : List ℕ)
    → IsRing s l (ys ++ x ∷ zs)
    → (s' : Heap) × (remove s x ≡ some s') × IsRing s' l (ys ++ zs)
unfolding remove removed
remove-IsRing s l x ys zs r =
    let (distinct, hx) = Distinct-without x ys zs r.distinct in
    let hl = ne_sym x l (NotIn-at l x ys zs r.apart) in
    let apart = NotIn-without l x ys zs r.apart in
    let next = Forward-at s.next x l ys zs l r.forward in
    let prev = Backward-at s.prev x l ys zs l r.backward in
    (
      removed s l x ys zs,
      rw (AllOwned-at s l x ys zs r.owned, next, prev) refl,
      record {
        forward = Forward-remove s.next x l ys zs l (apart, distinct) hl hx r.forward;
        backward = Backward-remove s.prev x l ys zs l distinct apart hl hx r.backward;
        distinct = distinct;
        apart = apart;
        counts =
            rw (==_refl l)
              (omega (arith, r.counts, r.bounded, length-append ys zs, length-append ys (x ∷ zs)));
        bounded = omega (arith, r.bounded, length-append ys zs, length-append ys (x ∷ zs));
        headed = r.headed;
        owned = AllOwned-without s l x ys zs r.owned;
      },
    )

-- vRsListInit and, for an item that is not in the list, vRsListInitItem.
pub init-IsRing : (s : Heap) (l : ℕ) → IsRing (init s l) l []
init-IsRing s l = record {
  forward = rw (==_refl l) refl;
  backward = rw (==_refl l) refl;
  distinct = tt;
  apart = tt;
  counts = rw (==_refl l) refl;
  bounded = omega arith;
  headed = rw (==_refl l) refl;
  owned = tt;
}

pub init_item-IsRing :
    (s : Heap) (l x w : ℕ) (xs : List ℕ)
    → (l == x) ≡ false
    → NotIn x xs
    → IsRing s l xs
    → IsRing (init_item s x (some w)) l xs
init_item-IsRing s l x w xs hl hx r = record {
  forward = Forward-put s.next x (some x) l xs l hl hx r.forward;
  backward = Backward-put s.prev x (some x) l xs l hl hx r.backward;
  distinct = r.distinct;
  apart = r.apart;
  counts = r.counts;
  bounded = r.bounded;
  headed = rw hl r.headed;
  owned =
      AllOwned-counted s (init_item s x (some w)) l x xs (λ a h. rw h refl) (λ a h. refl) hx
        r.owned;
}
