-- ===== src/Tests/Lists.antt =====
-- A list whose head stands at 1, with the items 10, 11 and 12.
use rinasensev.Prelude.{◌≡◌, refl, true, none, some, List, [], ◌∷◌, arith}
use rinasensev.RsList.{Heap, init, is_contained_within}
use rinasensev.RsList.Ring.{IsRing}
use rinasensev.RsList.Refines.{Operation, push, push_end, take_out, run, operations_refine}

abbrev blank : Heap
blank = record {
  prev = λ a. none;
  next = λ a. none;
  owner = λ a. none;
  cont = λ a. none;
  n_length = λ a. 0;
}

abbrev operations : List Operation
operations = push 10 100 ∷ push 11 101 ∷ push_end 12 102 ∷ take_out 10 ∷ []

operations_refine_example :
    (s' : Heap) × (run operations (init blank 1) 1 ≡ some s')
    × IsRing s' 1 (11 ∷ 12 ∷ [])
    × (is_contained_within 3 s' 1 12 ≡ some true)
operations_refine_example = operations_refine blank 1 operations 12 (
  (refl, tt, omega arith),
  ((refl, (refl, tt), omega arith), ((refl, (refl, (refl, tt)), omega arith), (refl, tt))),
)
