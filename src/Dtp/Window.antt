-- ===== src/Dtp/Window.antt =====
-- xDtpReceive: which data units go up, what the window edge does, and who owns the data unit.
use rinasensev.Prelude.{
  ℕ, zero, suc, ◌+◌, ◌^◌, ◌≤◌, ◌<◌, ◌≡◌, refl, ap, lt→ltb, Bool, true, false, ltb, if◌then◌else◌,
  List, [], ◌∷◌, replicate, bit_and, arith, Bool-cases, ◌∙◌, inl, inr,
}
use rinasensev.Pci.{Pci, pdu_flags_data_run}
use rinasensev.Stack.{DtpSv}
use rinasensev.Dtp.{Action, post, destroy, decide}

-- The rule for going up: the data-run flag while it is awaited, a number above the edge later.
abbrev pub is_accepted : DtpSv → Pci → Bool
is_accepted sv p =
    if sv.drf_required
    then ltb 0 (bit_and p.flags pdu_flags_data_run)
    else ltb sv.rcv_left_window_edge p.sequence_number

-- A data unit is posted exactly when the rule accepts it.
pub decide-is_accepted :
    (sv : DtpSv) (p : Pci) → (decide sv p).1 ≡ (if is_accepted sv p then post else destroy)
unfolding decide
decide-is_accepted sv p = ground arith

-- Once the data run has begun, the edge never falls, and it moves only by one.
pub decide-edge :
    (sv : DtpSv) (p : Pci)
    → sv.drf_required ≡ false
    → p.sequence_number < 2 ^ 32
    → ((decide sv p).0.drf_required ≡ false)
      × (sv.rcv_left_window_edge ≤ (decide sv p).0.rcv_left_window_edge)
      × ((decide sv p).0.rcv_left_window_edge ≤ sv.rcv_left_window_edge + 1)
unfolding decide
decide-edge sv p runs lt = ground arith

-- The sequence numbers that go up from a row of headers, those of the headers whose data unit is
-- posted, and the state behind the row.
abbrev pub goes_up : Action → ℕ → List ℕ → List ℕ
goes_up post n ns = n ∷ ns
goes_up destroy n ns = ns

abbrev pub delivered : DtpSv → List Pci → List ℕ
delivered sv [] = []
delivered sv (p ∷ ps) = goes_up (decide sv p).1 p.sequence_number (delivered (decide sv p).0 ps)

abbrev pub after : DtpSv → List Pci → DtpSv
after sv [] = sv
after sv (p ∷ ps) = after (decide sv p).0 ps

abbrev pub AllAbove : ℕ → List ℕ → Type 0
AllAbove n [] = Unit {0}
AllAbove n (m ∷ ms) = (n < m) × AllAbove n ms

abbrev pub AllInRange : List Pci → Type 0
AllInRange [] = Unit {0}
AllInRange (p ∷ ps) = (p.sequence_number < 2 ^ 32) × AllInRange ps

AllAbove-weaken : (n k : ℕ) (ms : List ℕ) → n ≤ k → AllAbove k ms → AllAbove n ms
AllAbove-weaken n k [] h a = tt
AllAbove-weaken n k (m ∷ ms) h a = (omega arith, AllAbove-weaken n k ms h a.1)

accepted_above :
    (sv : DtpSv) (p : Pci)
    → sv.drf_required ≡ false
    → is_accepted sv p ≡ true
    → sv.rcv_left_window_edge < p.sequence_number
accepted_above sv p runs e = ground arith

-- After the data run has begun, no row of headers whose sequence numbers have 32 bits brings up a
-- number at or below the edge.
pub delivered_above_edge :
    (sv : DtpSv) (ps : List Pci)
    → sv.drf_required ≡ false
    → AllInRange ps
    → AllAbove sv.rcv_left_window_edge (delivered sv ps)
delivered_above_edge sv [] runs r = tt
delivered_above_edge sv (p ∷ ps) runs r =
    let step : ((decide sv p).0.drf_required ≡ false)
        × (sv.rcv_left_window_edge ≤ (decide sv p).0.rcv_left_window_edge)
        × ((decide sv p).0.rcv_left_window_edge ≤ sv.rcv_left_window_edge + 1) =
      decide-edge sv p runs r.0 in
    let later : AllAbove sv.rcv_left_window_edge (delivered (decide sv p).0 ps) =
      AllAbove-weaken sv.rcv_left_window_edge (decide sv p).0.rcv_left_window_edge _ step.1
        (delivered_above_edge (decide sv p).0 ps step.0 r.1) in
    elim (Bool-cases (is_accepted sv p)) [
      | inl e ↦ rw (decide-is_accepted sv p, e) (accepted_above sv p runs e, later)
      | inr e ↦ rw (decide-is_accepted sv p, e) later
    ]

delivered-cons :
    (sv sv' : DtpSv) (p : Pci) (ps : List Pci)
    → (decide sv p).0 ≡ sv'
    → (decide sv p).1 ≡ post
    → (delivered sv (p ∷ ps) ≡ p.sequence_number ∷ delivered sv' ps)
      × (after sv (p ∷ ps) ≡ after sv' ps)
delivered-cons sv sv' p ps e d = rw (e, d) (refl, refl)

-- `n` headers numbered from `s` on, with the flags given.
abbrev pub numbered : Pci → ℕ → ℕ → List Pci
numbered p s zero = []
numbered p s (suc n) = record p { sequence_number = s } ∷ numbered p (s + 1) n

abbrev pub count_up : ℕ → ℕ → List ℕ
count_up s zero = []
count_up s (suc n) = s ∷ count_up (s + 1) n

-- The header that is next in order moves the edge to itself.
decide_next :
    (sv : DtpSv) (p : Pci) (s : ℕ)
    → sv.drf_required ≡ false
    → sv.rcv_left_window_edge + 1 ≡ s
    → s < 2 ^ 32
    → decide sv (record p { sequence_number = s })
      ≡ (record sv { rcv_left_window_edge = s }, post, true)
unfolding decide
decide_next sv p s runs next lt = ground arith

decide_first :
    (sv : DtpSv) (p : Pci) (s : ℕ)
    → sv.drf_required ≡ true
    → 0 < bit_and p.flags pdu_flags_data_run
    → decide sv (record p { sequence_number = s })
      ≡ (record sv { drf_required = false; rcv_left_window_edge = s }, post, true)
unfolding decide
decide_first sv p s waits flag = rw (waits, lt→ltb _ _ flag)

running_in_order :
    (sv : DtpSv) (p : Pci) (s n : ℕ)
    → sv.drf_required ≡ false
    → sv.rcv_left_window_edge + 1 ≡ s
    → s + n ≤ 2 ^ 32
    → (delivered sv (numbered p s n) ≡ count_up s n)
      × ((after sv (numbered p s n)).rcv_left_window_edge + 1 ≡ s + n)
running_in_order sv p s zero runs next fits = (refl, omega arith)
running_in_order sv p s (suc n) runs next fits =
    let moved : decide sv (record p { sequence_number = s })
        ≡ (record sv { rcv_left_window_edge = s }, post, true) =
      decide_next sv p s runs next (omega arith) in
    let rest =
      running_in_order (record sv { rcv_left_window_edge = s }) p (s + 1) n runs refl
        (omega arith) in
    let head =
      delivered-cons sv (record sv { rcv_left_window_edge = s }) (record p { sequence_number = s })
        (numbered p (s + 1) n) (ap (λ x. x.0) moved) (ap (λ x. x.1) moved) in
    (head.0 ∙ ap (λ t. s ∷ t) rest.0, rw (head.1) (omega (arith, rest.1)))

-- A data run that arrives in order, with numbers of 32 bits, goes up whole and in order, and the
-- edge stands at its last number: the state vector is any that awaits the flag, and the headers
-- have it.
pub delivered_in_order :
    (sv : DtpSv) (p : Pci) (s n : ℕ)
    → sv.drf_required ≡ true
    → 0 < bit_and p.flags pdu_flags_data_run
    → s + suc n ≤ 2 ^ 32
    → (delivered sv (numbered p s (suc n)) ≡ count_up s (suc n))
      × ((after sv (numbered p s (suc n))).rcv_left_window_edge ≡ s + n)
delivered_in_order sv p s n waits flag fits =
    let rest =
      running_in_order (record sv { drf_required = false; rcv_left_window_edge = s }) p (s + 1) n
        refl refl (omega arith) in
    let head =
      delivered-cons sv (record sv { drf_required = false; rcv_left_window_edge = s })
        (record p { sequence_number = s }) (numbered p (s + 1) n)
        (ap (λ x. x.0) (decide_first sv p s waits flag))
        (ap (λ x. x.1) (decide_first sv p s waits flag)) in
    (head.0 ∙ ap (λ t. s ∷ t) rest.0, rw (head.1) (omega (arith, rest.1)))

decide_skipped :
    (sv : DtpSv) (p : Pci)
    → sv.drf_required ≡ false
    → sv.rcv_left_window_edge + 1 < p.sequence_number
    → p.sequence_number < 2 ^ 32
    → decide sv p ≡ (sv, post, true)
unfolding decide
decide_skipped sv p runs skip lt = ground arith

-- After the data run has begun, a number of 32 bits that skips the next one goes up every time it
-- arrives.
pub skipped_repeats :
    (sv : DtpSv) (p : Pci) (copies : ℕ)
    → sv.drf_required ≡ false
    → sv.rcv_left_window_edge + 1 < p.sequence_number
    → p.sequence_number < 2 ^ 32
    → delivered sv (replicate copies p) ≡ replicate copies p.sequence_number
skipped_repeats sv p zero runs skip lt = refl
skipped_repeats sv p (suc copies) runs skip lt =
    (delivered-cons sv sv p (replicate copies p) (ap (λ x. x.0) (decide_skipped sv p runs skip lt))
      (ap (λ x. x.1) (decide_skipped sv p runs skip lt))).0
    ∙ ap (λ t. p.sequence_number ∷ t) (skipped_repeats sv p copies runs skip lt)
