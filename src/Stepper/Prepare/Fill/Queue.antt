-- ===== src/Stepper/Prepare/Fill/Queue.antt =====
-- The waiting segments under `st_prep_buffer` (Stepper.cpp): the loop only adds to their end, and
-- it ends when the ring is full.
use grbl_esp.Base.{
  ℕ, ◌<◌, ◌≡◌, refl, sym, ap, ◌∙◌, inl, inr, Bool, true, false, List, [], ◌∷◌, ◌++◌, append-nil,
  arith, ◌==◌, Option-cases,
}
use grbl_esp.Stepper.{Stepper, Segment, next_segment}
use grbl_esp.Stepper.Segments.{Queued}
use grbl_esp.Stepper.Prepare.{MotionOps, Drive, Motion}
use grbl_esp.Stepper.Prepare.Profile.{load_plan_block}
use grbl_esp.Stepper.Prepare.Ramp.{ramp_start, ramp_loop, minimum_mm}
use grbl_esp.Stepper.Prepare.Fill.{Round, goes_on, returns, ramps_on, round_of, prep_round}
use grbl_esp.Stepper.Prepare.Fill.Ring.{IsRing, Holds, Pushes, Outcome, fill-Outcome, load-Holds}

Queued-same :
    (f g : ℕ → Segment) (tail head : ℕ) (waiting : List Segment)
    → ((i : ℕ) → (head == i) ≡ false → g i ≡ f i)
    → Queued f tail head waiting
    → Queued g tail head waiting
Queued-same f g tail head [] h q = q
Queued-same f g tail head (x ∷ waiting) h (e, k, q) =
    (e, h tail e ∙ k, Queued-same f g (next_segment tail) head waiting h q)

pub next_segment_lt : (i : ℕ) → i < 6 → next_segment i < 6
next_segment_lt i h = ground (arith, h)

next_segment_ne :
    (i j : ℕ) → i < 6 → j < 6 → (j == i) ≡ false → (next_segment i == next_segment j) ≡ false
next_segment_ne i j h k e = ground (arith, h, k, e)

next_not_self : (i j : ℕ) → i < 6 → j ≡ i → (next_segment i == j) ≡ false
next_not_self i j h e = ground (arith, h, e)

Queued-push :
    (f g : ℕ → Segment) (tail head : ℕ) (waiting : List Segment)
    → tail < 6
    → head < 6
    → (tail == next_segment head) ≡ false
    → ((i : ℕ) → (head == i) ≡ false → g i ≡ f i)
    → Queued f tail head waiting
    → Queued g tail (next_segment head) (waiting ++ g head ∷ [])
Queued-push f g tail head [] t h n same q = (next_not_self head tail h q, ap g q, ap next_segment q)
Queued-push f g tail head (x ∷ waiting) t h n same (e, k, q) = (
  ground (arith, n),
  same tail e ∙ k,
  Queued-push f g (next_segment tail) head waiting (next_segment_lt tail t) h
      (next_segment_ne tail head t h e) same q,
)

-- What waits in the ring stays and may have segments behind it.
pub record Grows (waiting : List Segment) (s t : Stepper) : Type 0 where
  pub ring : IsRing t
  pub tail_stays : t.tail ≡ s.tail
  pub added : List Segment
  pub queued : Queued t.segments t.tail t.head (waiting ++ added)

Holds-Queued :
    (waiting : List Segment) (s t : Stepper)
    → IsRing s
    → Queued s.segments s.tail s.head waiting
    → Holds s t
    → IsRing t × Queued t.segments t.tail t.head waiting
Holds-Queued waiting s t r q h = (
  record {
    tail_lt = rw h.tail_same r.tail_lt;
    head_lt = rw h.head_same r.head_lt;
    next_head_is = h.next_same ∙ r.next_head_is ∙ ap next_segment (sym h.head_same);
  },
  rw (h.tail_same, h.head_same)
      (Queued-same s.segments t.segments s.tail s.head waiting h.others_same q),
)

Pushes-Queued :
    (waiting : List Segment) (s t : Stepper)
    → IsRing s
    → (s.tail == s.next_head) ≡ false
    → Queued s.segments s.tail s.head waiting
    → Pushes s t
    → IsRing t × Queued t.segments t.tail t.head (waiting ++ t.segments s.head ∷ [])
Pushes-Queued waiting s t r n q h = (
  record {
    tail_lt = rw h.tail_kept r.tail_lt;
    head_lt = rw (h.head_moved, r.next_head_is) (next_segment_lt s.head r.head_lt);
    next_head_is = h.next_moved ∙ ap next_segment (sym h.head_moved);
  },
  rw (h.tail_kept, h.head_moved, r.next_head_is)
      (Queued-push s.segments t.segments s.tail s.head waiting r.tail_lt r.head_lt
        (rw (sym r.next_head_is) n) h.others_kept q),
)

-- the outcomes of a round; one that goes on has added a segment
abbrev pub RoundGrows : {F : Type 0} → List Segment → Stepper → Round F → Type 0
RoundGrows waiting s (goes_on u) =
    Grows waiting s u.stepper × (u.stepper.next_head ≡ next_segment s.next_head)
RoundGrows waiting s (returns u) = Grows waiting s u.stepper
RoundGrows waiting s ramps_on = Unit

pub Grows-Holds :
    (waiting : List Segment) (s t : Stepper)
    → IsRing s
    → Queued s.segments s.tail s.head waiting
    → Holds s t
    → Grows waiting s t
Grows-Holds waiting s t r q h =
    let (ring, queue) = Holds-Queued waiting s t r q h in
    record {
      ring = ring;
      tail_stays = h.tail_same;
      added = [];
      queued = rw (append-nil waiting) queue;
    }

Grows-Pushes :
    (waiting : List Segment) (s t : Stepper)
    → IsRing s
    → (s.tail == s.next_head) ≡ false
    → Queued s.segments s.tail s.head waiting
    → Pushes s t
    → Grows waiting s t
Grows-Pushes waiting s t r n q h =
    let (ring, queue) = Pushes-Queued waiting s t r n q h in
    record { ring = ring; tail_stays = h.tail_kept; added = t.segments s.head ∷ []; queued = queue }

round_of-Grows :
    {F : Type 0} (waiting : List Segment) (s : Stepper) (u : Motion F) (more : Bool)
    → IsRing s
    → (s.tail == s.next_head) ≡ false
    → Queued s.segments s.tail s.head waiting
    → Outcome s (u, more)
    → RoundGrows waiting s (round_of (u, more))
round_of-Grows waiting s u more r n q (inl (e, h)) = rw e (Grows-Holds waiting s u.stepper r q h)
round_of-Grows waiting s u true r n q (inr h) =
    (Grows-Pushes waiting s u.stepper r n q h, h.next_moved)
round_of-Grows waiting s u false r n q (inr h) = Grows-Pushes waiting s u.stepper r n q h

pub Holds-refl : (s : Stepper) → Holds s s
Holds-refl s = record {
  tail_same = refl;
  head_same = refl;
  next_same = refl;
  others_same = λ i h. refl;
}

-- the ring that the loading of a block leaves is the same
RoundGrows-load :
    {F : Type 0} (waiting : List Segment) (s t : Stepper) (result : Round F)
    → Holds s t
    → RoundGrows waiting t result
    → RoundGrows waiting s result
RoundGrows-load waiting s t (goes_on u) h (g, e) = (
  record {
    ring = g.ring;
    tail_stays = g.tail_stays ∙ h.tail_same;
    added = g.added;
    queued = g.queued;
  },
  e ∙ ap next_segment h.next_same,
)
RoundGrows-load waiting s t (returns u) h g = record {
  ring = g.ring;
  tail_stays = g.tail_stays ∙ h.tail_same;
  added = g.added;
  queued = g.queued;
}
RoundGrows-load waiting s t ramps_on h g = tt

not_full_at :
    (s t : Stepper) → Holds s t → (s.tail == s.next_head) ≡ false → (t.tail == t.next_head) ≡ false
not_full_at s t h n = rw (h.tail_same, h.next_same) n

pub prep_round-Grows :
    {F : Type 0} (fuel : ℕ) (o : MotionOps F) (drive : Drive) (waiting : List Segment)
    (m : Motion F)
    → IsRing m.stepper
    → (m.stepper.tail == m.stepper.next_head) ≡ false
    → Queued m.stepper.segments m.stepper.tail m.stepper.head waiting
    → RoundGrows waiting m.stepper (prep_round fuel o drive m)
unfolding prep_round
prep_round-Grows fuel o drive waiting m r n q = elim (Option-cases (load_plan_block o drive m)) [
  | inl e ↦ rw (e, RoundGrows) (Grows-Holds waiting m.stepper m.stepper r q (Holds-refl m.stepper))
  | inr (t, e) ↦
      let h = load-Holds o drive m t e in
      let (ring, queue) = Holds-Queued waiting m.stepper t.1.stepper r q h in
      let b = t.1.plan t.0 in
      rw (e, RoundGrows)
        (RoundGrows-load waiting m.stepper t.1.stepper _ h
          (elim (Option-cases
            (ramp_loop fuel o (minimum_mm o b t.1.prep) b t.1.prep (ramp_start o b t.1.prep))) [
              | inl k ↦ rw (k, RoundGrows) tt
              | inr (x, k) ↦ rw k (
                  round_of-Grows waiting t.1.stepper _ _ ring
                    (not_full_at m.stepper t.1.stepper h n) queue (fill-Outcome o t.0 x t.1))
            ]))
]
