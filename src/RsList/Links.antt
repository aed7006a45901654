-- ===== src/RsList/Links.antt =====
-- Chains of links, and what the writes of listADD and listREMOVE in
-- components/Rina-manager/Common/include/common/private/iot_doubly_linked_list.h do to them.
use rinasensev.Prelude.{
  ℕ, ◌≡◌, refl, false, ◌==◌, ==_refl, Option, none, some, List, [], ◌∷◌, ◌++◌, arith,
}
use rinasensev.RsList.{put}

-- The address does not stand in the list.
abbrev pub NotIn : ℕ → List ℕ → Type 0
NotIn a [] = Unit {0}
NotIn a (x ∷ xs) = ((x == a) ≡ false) × NotIn a xs

abbrev pub Distinct : List ℕ → Type 0
Distinct [] = Unit {0}
Distinct (x ∷ xs) = NotIn x xs × Distinct xs

-- The way from `p` over the items to `q`, and back.
abbrev pub Forward : (ℕ → Option ℕ) → ℕ → List ℕ → ℕ → Type 0
Forward f p [] q = f p ≡ some q
Forward f p (x ∷ xs) q = (f p ≡ some x) × Forward f x xs q

abbrev pub Backward : (ℕ → Option ℕ) → ℕ → List ℕ → ℕ → Type 0
Backward g p [] q = g q ≡ some p
Backward g p (x ∷ xs) q = (g x ≡ some p) × Backward g x xs q

abbrev pub last_or : ℕ → List ℕ → ℕ
last_or p [] = p
last_or p (x ∷ xs) = last_or x xs

abbrev pub first_or : List ℕ → ℕ → ℕ
first_or [] q = q
first_or (x ∷ xs) q = x

pub ne_sym : (a b : ℕ) → (a == b) ≡ false → (b == a) ≡ false
ne_sym a b h = ground (arith, h)

pub NotIn-last :
    (a p : ℕ) (ys zs : List ℕ) → (p == a) ≡ false → NotIn a (ys ++ zs) → (last_or p ys == a) ≡ false
NotIn-last a p [] zs h no' = h
NotIn-last a p (y ∷ ys) zs h (hy, rest) = NotIn-last a y ys zs hy rest

pub NotIn-first :
    (a q : ℕ) (ys zs : List ℕ)
    → (q == a) ≡ false
    → NotIn a (ys ++ zs)
    → (first_or zs q == a) ≡ false
NotIn-first a q [] [] h no' = h
NotIn-first a q [] (z ∷ zs) h (hz, rest) = hz
NotIn-first a q (y ∷ ys) zs h (hy, rest) = NotIn-first a q ys zs h rest

-- A write elsewhere changes no way.
pub Forward-put :
    (f : ℕ → Option ℕ) (a : ℕ) (v : Option ℕ) (p : ℕ) (xs : List ℕ) (q : ℕ)
    → (p == a) ≡ false
    → NotIn a xs
    → Forward f p xs q
    → Forward (put f a v) p xs q
Forward-put f a v p [] q h no' way = rw h way
Forward-put f a v p (x ∷ xs) q h (hx, rest) (step, way) =
    (rw h step, Forward-put f a v x xs q hx rest way)

pub Backward-put :
    (g : ℕ → Option ℕ) (a : ℕ) (v : Option ℕ) (p : ℕ) (xs : List ℕ) (q : ℕ)
    → (q == a) ≡ false
    → NotIn a xs
    → Backward g p xs q
    → Backward (put g a v) p xs q
Backward-put g a v p [] q h no' way = rw h way
Backward-put g a v p (x ∷ xs) q h (hx, rest) (step, way) =
    (rw hx step, Backward-put g a v x xs q h rest way)

-- The new item `x` between the items `ys` and `zs`.
pub Forward-add :
    (f : ℕ → Option ℕ) (x p : ℕ) (ys zs : List ℕ) (q : ℕ)
    → Distinct (p ∷ (ys ++ zs))
    → (p == x) ≡ false
    → NotIn x (ys ++ zs)
    → Forward f p (ys ++ zs) q
    → Forward (put (put f x (some (first_or zs q))) (last_or p ys) (some x)) p (ys ++ x ∷ zs) q
Forward-add f x p [] [] q d hp hx way = (rw (==_refl p) refl, rw (ne_sym p x hp, ==_refl x) refl)
Forward-add f x p [] (z ∷ zs) q ((hz, far), d) hp (hzx, hx) (step, way) = (
  rw (==_refl p) refl,
  (
    rw (ne_sym p x hp, ==_refl x) refl,
    Forward-put (put f x (some z)) p (some x) z zs q hz far
        (Forward-put f x (some z) z zs q hzx hx way),
  ),
)
Forward-add f x p (y ∷ ys) zs q ((hy, far), d) hp (hyx, hx) (step, way) = (
  rw (ne_sym (last_or y ys) p (NotIn-last p y ys zs hy far), hp) step,
  Forward-add f x y ys zs q d hyx hx way,
)

pub Backward-add :
    (g : ℕ → Option ℕ) (x p : ℕ) (ys zs : List ℕ) (q : ℕ)
    → Distinct (ys ++ zs)
    → NotIn q (ys ++ zs)
    → (q == x) ≡ false
    → NotIn x (ys ++ zs)
    → Backward g p (ys ++ zs) q
    → Backward (put (put g (first_or zs q) (some x)) x (some (last_or p ys))) p (ys ++ x ∷ zs) q
Backward-add g x p [] [] q d hq hqx hx way = (rw (==_refl x) refl, rw (hqx, ==_refl q) refl)
Backward-add g x p [] (z ∷ zs) q (far, d) (hzq, hq) hqx (hzx, hx) (step, way) = (
  rw (==_refl x) refl,
  (
    rw (hzx, ==_refl z) refl,
    Backward-put (put g z (some x)) x (some p) z zs q hqx hx
        (Backward-put g z (some x) z zs q (ne_sym z q hzq) far way),
  ),
)
Backward-add g x p (y ∷ ys) zs q (far, d) (hyq, hq) hqx (hyx, hx) (step, way) = (
  rw (hyx, ne_sym (first_or zs q) y (NotIn-first y q ys zs (ne_sym y q hyq) far)) step,
  Backward-add g x y ys zs q d hq hqx hx way,
)

-- What stands behind the last of `ys`, and before the end.
pub Forward-last :
    (f : ℕ → Option ℕ) (p : ℕ) (ys zs : List ℕ) (q : ℕ)
    → Forward f p (ys ++ zs) q
    → f (last_or p ys) ≡ some (first_or zs q)
Forward-last f p [] [] q way = way
Forward-last f p [] (z ∷ zs) q (step, way) = step
Forward-last f p (y ∷ ys) zs q (step, way) = Forward-last f y ys zs q way

pub Backward-last :
    (g : ℕ → Option ℕ) (p : ℕ) (xs : List ℕ) (q : ℕ) → Backward g p xs q → g q ≡ some (last_or p xs)
Backward-last g p [] q way = way
Backward-last g p (x ∷ xs) q (step, way) = Backward-last g x xs q way

-- The neighbours of an item.
pub Forward-at :
    (f : ℕ → Option ℕ) (x p : ℕ) (ys zs : List ℕ) (q : ℕ)
    → Forward f p (ys ++ x ∷ zs) q
    → f x ≡ some (first_or zs q)
Forward-at f x p [] [] q (step, way) = way
Forward-at f x p [] (z ∷ zs) q (step, (next, way)) = next
Forward-at f x p (y ∷ ys) zs q (step, way) = Forward-at f x y ys zs q way

pub Backward-at :
    (g : ℕ → Option ℕ) (x p : ℕ) (ys zs : List ℕ) (q : ℕ)
    → Backward g p (ys ++ x ∷ zs) q
    → g x ≡ some (last_or p ys)
Backward-at g x p [] zs q (step, way) = step
Backward-at g x p (y ∷ ys) zs q (step, way) = Backward-at g x y ys zs q way

-- The item `x` goes, and its own links are forgotten.
pub Forward-remove :
    (f : ℕ → Option ℕ) (x p : ℕ) (ys zs : List ℕ) (q : ℕ)
    → Distinct (p ∷ (ys ++ zs))
    → (p == x) ≡ false
    → NotIn x (ys ++ zs)
    → Forward f p (ys ++ x ∷ zs) q
    → Forward (put (put f (last_or p ys) (some (first_or zs q))) x none) p (ys ++ zs) q
Forward-remove f x p [] [] q d hp hx (step, way) = rw (hp, ==_refl p) refl
Forward-remove f x p [] (z ∷ zs) q ((hz, far), d) hp (hzx, hx) (step, (next, way)) = (
  rw (hp, ==_refl p) refl,
  Forward-put (put f p (some z)) x none z zs q hzx hx (Forward-put f p (some z) z zs q hz far way),
)
Forward-remove f x p (y ∷ ys) zs q ((hy, far), d) hp (hyx, hx) (step, way) = (
  rw (hp, ne_sym (last_or y ys) p (NotIn-last p y ys zs hy far)) step,
  Forward-remove f x y ys zs q d hyx hx way,
)

pub Backward-remove :
    (g : ℕ → Option ℕ) (x p : ℕ) (ys zs : List ℕ) (q : ℕ)
    → Distinct (ys ++ zs)
    → NotIn q (ys ++ zs)
    → (q == x) ≡ false
    → NotIn x (ys ++ zs)
    → Backward g p (ys ++ x ∷ zs) q
    → Backward (put (put g (first_or zs q) (some (last_or p ys))) x none) p (ys ++ zs) q
Backward-remove g x p [] [] q d hq hqx hx (step, way) = rw (hqx, ==_refl q) refl
Backward-remove g x p [] (z ∷ zs) q (far, d) (hzq, hq) hqx (hzx, hx) (step, (back, way)) = (
  rw (hzx, ==_refl z) refl,
  Backward-put (put g z (some p)) x none z zs q hqx hx
      (Backward-put g z (some p) z zs q (ne_sym z q hzq) far way),
)
Backward-remove g x p (y ∷ ys) zs q (far, d) (hyq, hq) hqx (hyx, hx) (step, way) = (
  rw (hyx, ne_sym (first_or zs q) y (NotIn-first y q ys zs (ne_sym y q hyq) far)) step,
  Backward-remove g x y ys zs q d hq hqx hx way,
)

pub NotIn-middle :
    (a x : ℕ) (ys zs : List ℕ) → NotIn a (ys ++ zs) → (x == a) ≡ false → NotIn a (ys ++ x ∷ zs)
NotIn-middle a x [] zs no' hx = (hx, no')
NotIn-middle a x (y ∷ ys) zs (hy, no') hx = (hy, NotIn-middle a x ys zs no' hx)

pub Distinct-middle :
    (x : ℕ) (ys zs : List ℕ) → Distinct (ys ++ zs) → NotIn x (ys ++ zs) → Distinct (ys ++ x ∷ zs)
Distinct-middle x [] zs d no' = (no', d)
Distinct-middle x (y ∷ ys) zs (far, d) (hy, no') =
    (NotIn-middle y x ys zs far (ne_sym y x hy), Distinct-middle x ys zs d no')

-- Without the item `x`.
pub NotIn-without : (a x : ℕ) (ys zs : List ℕ) → NotIn a (ys ++ x ∷ zs) → NotIn a (ys ++ zs)
NotIn-without a x [] zs (hx, no') = no'
NotIn-without a x (y ∷ ys) zs (hy, no') = (hy, NotIn-without a x ys zs no')

pub NotIn-at : (a x : ℕ) (ys zs : List ℕ) → NotIn a (ys ++ x ∷ zs) → (x == a) ≡ false
NotIn-at a x [] zs (hx, no') = hx
NotIn-at a x (y ∷ ys) zs (hy, no') = NotIn-at a x ys zs no'

pub Distinct-without :
    (x : ℕ) (ys zs : List ℕ) → Distinct (ys ++ x ∷ zs) → Distinct (ys ++ zs) × NotIn x (ys ++ zs)
Distinct-without x [] zs (far, d) = (d, far)
Distinct-without x (y ∷ ys) zs (far, d) =
    let (d', no') = Distinct-without x ys zs d in
    ((NotIn-without y x ys zs far, d'), (ne_sym x y (NotIn-at y x ys zs far), no'))
