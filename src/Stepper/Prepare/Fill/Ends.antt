-- ===== src/Stepper/Prepare/Fill/Ends.antt =====
-- The whole of `st_prep_buffer` (Stepper.cpp): it ends, and the waiting segments stay.
use grbl_esp.Base.{
  ℕ, zero, suc, ◌+◌, ◌-◌, ◌%◌, ◌<◌, ◌≡◌, refl, sym, ◌∙◌, inl, inr, false, Option, some, List, ◌++◌,
  append_assoc, arith, ◌==◌, Bool-cases, if_true, if_false,
}
use grbl_esp.Stepper.{Stepper, Segment, next_segment}
use grbl_esp.Stepper.Segments.{Queued}
use grbl_esp.Stepper.Prepare.{MotionOps, Drive, Motion}
use grbl_esp.Stepper.Prepare.Fill.{
  Round, goes_on, returns, ramps_on, prep_loop, st_prep_buffer, go_on,
}
use grbl_esp.Stepper.Prepare.Fill.Ring.{IsRing}
use grbl_esp.Stepper.Prepare.Fill.Queue.{
  Grows, RoundGrows, prep_round-Grows, next_segment_lt, Holds-refl, Grows-Holds,
}

-- the places that segments can still be put into
abbrev free : Stepper → ℕ
free s = (s.tail + 6 - s.next_head) % 6

-- The function has returned, with the waiting segments kept and others behind them; or the ramps of
-- a segment have not ended.
abbrev pub Ended : {F : Type 0} → List Segment → Stepper → Round F → Type 0
Ended waiting s (goes_on u) = ⊥
Ended waiting s (returns u) = Grows waiting s u.stepper
Ended waiting s ramps_on = Unit

free_less :
    (tail next next' : ℕ)
    → tail < 6
    → next < 6
    → (tail == next) ≡ false
    → next' ≡ next_segment next
    → (tail + 6 - next') % 6 < (tail + 6 - next) % 6
free_less tail next next' h k e n = ground (arith, h, k, e, n)

Grows-trans :
    (waiting : List Segment) (s t u : Stepper) (g : Grows waiting s t)
    → Grows (waiting ++ g.added) t u
    → Grows waiting s u
Grows-trans waiting s t u g h = record {
  ring = h.ring;
  tail_stays = h.tail_stays ∙ g.tail_stays;
  added = g.added ++ h.added;
  queued = rw (sym (append_assoc waiting g.added h.added)) h.queued;
}

Ended-trans :
    {F : Type 0} (waiting : List Segment) (s t : Stepper) (result : Round F) (g : Grows waiting s t)
    → Ended (waiting ++ g.added) t result
    → Ended waiting s result
Ended-trans waiting s t (goes_on u) g h = h
Ended-trans waiting s t (returns u) g h = Grows-trans waiting s t u.stepper g h
Ended-trans waiting s t ramps_on g h = tt

next_head_lt : (s : Stepper) → IsRing s → s.next_head < 6
next_head_lt s r = rw r.next_head_is (next_segment_lt s.head r.head_lt)

free_after :
    (s t : Stepper)
    → IsRing s
    → (s.tail == s.next_head) ≡ false
    → t.tail ≡ s.tail
    → t.next_head ≡ next_segment s.next_head
    → free t < free s
free_after s t r n e k =
    rw e (free_less s.tail s.next_head t.next_head r.tail_lt (next_head_lt s r) n k)

-- a round and what is done behind it, for a rest of the loop that ends
go_on-Ended :
    {F : Type 0} (n : ℕ) (next : Motion F → Option (Round F)) (waiting : List Segment) (s : Stepper)
    (round : Round F)
    → IsRing s
    → (s.tail == s.next_head) ≡ false
    → free s < suc n
    → RoundGrows waiting s round
    → ((u : Motion F) (waiting' : List Segment)
        → IsRing u.stepper
        → Queued u.stepper.segments u.stepper.tail u.stepper.head waiting'
        → free u.stepper < n
        → (result : Round F) × (next u ≡ some result) × Ended waiting' u.stepper result)
    → (result : Round F) × (go_on next round ≡ some result) × Ended waiting s result
go_on-Ended n next waiting s (goes_on u) r e l (g, k) ih =
    let fewer : free u.stepper < n = omega (arith, free_after s u.stepper r e g.tail_stays k, l) in
    let (result, is, ended) = ih u (waiting ++ g.added) g.ring g.queued fewer in
    (result, is, Ended-trans waiting s u.stepper result g ended)
go_on-Ended n next waiting s (returns u) r e l g ih = (returns u, refl, g)
go_on-Ended n next waiting s ramps_on r e l g ih = (ramps_on, refl, tt)

-- The loop, with more fuel than there are free places.
prep_loop-Ended :
    {F : Type 0} (n fuel : ℕ) (o : MotionOps F) (drive : Drive) (waiting : List Segment)
    (m : Motion F)
    → IsRing m.stepper
    → Queued m.stepper.segments m.stepper.tail m.stepper.head waiting
    → free m.stepper < n
    → (result : Round F) × (prep_loop n fuel o drive m ≡ some result)
      × Ended waiting m.stepper result
unfolding prep_loop
prep_loop-Ended zero fuel o drive waiting m r q l = let no : ⊥ = omega (arith, l) in elim no [ ]
prep_loop-Ended (suc n) fuel o drive waiting m r q l =
    elim (Bool-cases (m.stepper.tail == m.stepper.next_head)) [
      | inl h ↦
          (returns m, rw h refl, Grows-Holds waiting m.stepper m.stepper r q (Holds-refl m.stepper))
      | inr h ↦ rw h (
          go_on-Ended n (prep_loop n fuel o drive) waiting m.stepper _ r h l
            (prep_round-Grows fuel o drive waiting m r h q)
            (λ u waiting' ring queue less.
              prep_loop-Ended n fuel o drive waiting' u ring queue less))
    ]

-- `st_prep_buffer` ends within six rounds, whatever the state and the arithmetic, but for the ramps
-- of a segment, which have fuel of their own; and when it returns, the segments that waited in the
-- ring still wait in it, in their order and unchanged, with none in front of them and all new ones
-- behind them, the interrupt's tail is where it was, and the ring's indices are well-formed.
pub st_prep_buffer-Ended :
    {F : Type 0} (fuel : ℕ) (o : MotionOps F) (drive : Drive) (waiting : List Segment)
    (m : Motion F)
    → IsRing m.stepper
    → Queued m.stepper.segments m.stepper.tail m.stepper.head waiting
    → (result : Round F) × (st_prep_buffer 6 fuel o drive m ≡ some result)
      × Ended waiting m.stepper result
unfolding st_prep_buffer
st_prep_buffer-Ended fuel o drive waiting m r q = elim (Bool-cases m.sys.step_control.end_motion) [
  | inl h ↦
      (returns m, if_true _ _ h, Grows-Holds waiting m.stepper m.stepper r q (Holds-refl m.stepper))
  | inr h ↦
      let (result, is, ended) = prep_loop-Ended 6 fuel o drive waiting m r q (omega arith) in
      (result, if_false _ _ h ∙ is, ended)
]
