-- ===== src/Tests/Enrolling.antt =====
-- An enrollment with the peer "b" on port 7, with one free row for neighbours.
use rinasensev.Prelude.{◌≡◌, refl, true, false, none, some, [], ◌∷◌, arith}
use rinasensev.Rib.{RibObject, no_ops}
use rinasensev.Ribd.{Ribd, Callback}
use rinasensev.Ribd.Request.{Sender}
use rinasensev.Enrollment.{
  EnrollmentMessage, Nanopb, Neighbors, enrollment_encode, find_neighbor, get_neighbor_address,
  enr_name, new_neighbor, decode_fields,
}
use rinasensev.Enrollment.Complete.{enroll, enrolled_neighbor, enrollment_completes}

abbrev nanopb : Nanopb
nanopb = record {
  encode_enrollment = λ w. some (8 ∷ 1 ∷ []);
  decode_enrollment = λ b. some (record { address = some 3; token = some (116 ∷ []) });
  encode_neighbor = λ w. none;
}

abbrev pub sender : Sender
sender = record { pb_encode = λ w. some (1 ∷ []); has_buffer = true }

abbrev pub unset : Callback
unset = record { start_response = none; stop_response = none; create_response = none }

abbrev blank : EnrollmentMessage
blank = record { address = 0; token = none }

abbrev pub daemon : Ribd
daemon = record { objects = []; handlers = []; connections = []; next_invoke_id = 1 }

abbrev neighbors : Neighbors
neighbors = record { valid = false; item = new_neighbor [] 0 } ∷ []

abbrev object : RibObject
object = record { name = enr_name; inst = 0; displayable_value = none; ops = no_ops }

enrollment_completes_example :
    (rows' : Neighbors) × (enroll nanopb sender unset blank daemon neighbors object
        (98 ∷ [])
        (1 ∷ [])
        5
        7
      ≡ some rows')
    × (find_neighbor rows' (some (98 ∷ []))
        ≡ some (some (enrolled_neighbor (98 ∷ []) 7 (some (116 ∷ [])))))
    × (get_neighbor_address rows' (some (98 ∷ [])) ≡ 255)
unfolding find_neighbor enrollment_encode decode_fields
enrollment_completes_example =
    enrollment_completes nanopb sender unset blank daemon neighbors object (98 ∷ []) (1 ∷ [])
      (some 3) (116 ∷ []) 5 7 refl refl refl (omega arith) (omega arith) refl
