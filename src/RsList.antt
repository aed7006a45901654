-- ===== src/RsList.antt =====
-- components/Rina-manager/Common/include/common/list.h and list.c with the macros of
-- components/Rina-manager/Common/include/common/private/iot_doubly_linked_list.h that they use:
-- lists of items that are embedded in other structs.  An address is a number and NULL is `none`;
-- the head of a list stands at the list's own address. A read or write through NULL returns `none`.
pub mod Links
pub mod Ring
pub mod Refines
use rinasensev.Prelude.{
  ℕ, zero, suc, ◌+◌, ◌-◌, ◌%◌, ◌^◌, Bool, true, false, if◌then◌else◌, ◌==◌, Option, none, some,
  List, [], ◌∷◌, is_some, ◌>>=◌,
}

-- Link_t, RsListItem_t and RsList_t at each address.
pub record Heap : Type 0 where
  pub prev : ℕ → Option ℕ
  pub next : ℕ → Option ℕ
  pub owner : ℕ → Option ℕ
  pub cont : ℕ → Option ℕ
  pub n_length : ℕ → ℕ

abbrev pub put {ℓ} : {A : Type ℓ} → (ℕ → A) → ℕ → A → ℕ → A
put f a v b = if b == a then v else f b

-- vRsListInitItem, with listINIT_HEAD.
abbrev pub init_item : Heap → ℕ → Option ℕ → Heap
init_item s a owner = record s {
  prev = put s.prev a (some a);
  next = put s.next a (some a);
  owner = put s.owner a owner;
}

-- vRsListInit.
abbrev pub init : Heap → ℕ → Heap
init s l = record (init_item s l none) { n_length = put s.n_length l 0 }

-- listADD of a link behind another.
unfoldable pub list_add : Heap → ℕ → ℕ → Option Heap
list_add s p x = do
  n ← s.next p
  some (record s {
    next = put (put s.next x (some n)) p (some x);
    prev = put (put s.prev n (some x)) x (some p);
  })

-- The end of vRsListInsert and vRsListInsertEnd: a size_t has 32 bits.
abbrev pub counted : Heap → ℕ → ℕ → Heap
counted s l x = record s {
  n_length = put s.n_length l ((s.n_length l + 1) % 2 ^ 32);
  cont = put s.cont x (some l);
}

-- vRsListInsert and vRsListInsertEnd.
unfoldable pub insert : Heap → ℕ → ℕ → Option Heap
insert s l x = do first ← s.next l; s1 ← list_add s first x; some (counted s1 l x)

unfoldable pub insert_end : Heap → ℕ → ℕ → Option Heap
insert_end s l x = do last ← s.prev l; s1 ← list_add s last x; some (counted s1 l x)

-- The links of the two neighbours in listREMOVE, when there are two.
abbrev pub unlink : Heap → Option ℕ → Option ℕ → Heap
unlink s (some p) (some n) = record s { next = put s.next p (some n); prev = put s.prev n (some p) }
unlink s _ _ = s

abbrev pub forget : Heap → ℕ → Heap
forget s x = record s { prev = put s.prev x none; next = put s.next x none }

-- listREMOVE.
abbrev pub list_remove : Heap → ℕ → Heap
list_remove s x = forget (unlink s (s.prev x) (s.next x)) x

-- vRsListRemove. The item still names its list.
unfoldable pub remove : Heap → ℕ → Option Heap
remove s x = do
  l ← s.cont x
  some (
      list_remove (record s { n_length = put s.n_length l ((s.n_length l + 2 ^ 32 - 1) % 2 ^ 32) })
        x)

-- pxRsListGetFirst.
abbrev pub get_first : Heap → ℕ → Option ℕ
get_first s l = if s.n_length l == 0 then none else s.next l

-- pxRsListGetNext: the head ends a list by its owner, which is NULL.
unfoldable pub get_next : Heap → ℕ → Option (Option ℕ)
get_next s x = do n ← s.next x; some (if is_some (s.owner n) then some n else none)

-- The loop of xRsListIsContainedWithin on fuel; `none` is a fault or the end of the fuel.
unfoldable pub contained_from : ℕ → Heap → ℕ → Option ℕ → Option Bool
contained_from fuel s x none = some false
contained_from zero s x (some i) = none
contained_from (suc fuel) s x (some i) =
    let rest = (do n ← get_next s i; contained_from fuel s x n) in
    if i == x then some true else rest

-- xRsListIsContainedWithin.
unfoldable pub is_contained_within : ℕ → Heap → ℕ → ℕ → Option Bool
is_contained_within fuel s l x = contained_from fuel s x (get_first s l)

-- The items of a list after vRsListInsert, which links the new one behind the first.
abbrev pub insert_behind {ℓ} : {A : Type ℓ} → A → List A → List A
insert_behind a [] = a ∷ []
insert_behind a (x ∷ xs) = x ∷ a ∷ xs
