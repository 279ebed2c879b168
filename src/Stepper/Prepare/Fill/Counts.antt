-- ===== src/Stepper/Prepare/Fill/Counts.antt =====
-- The events that `st_prep_buffer` (Stepper.cpp) puts into the segments of a block.
use grbl_esp.Base.{
  ℕ, zero, suc, ◌+◌, ◌-◌, ◌*◌, ◌/◌, ◌%◌, ◌^◌, ◌≤◌, ◌<◌, ◌≡◌, refl, sym, ap, ◌∙◌, Bool, false, List,
  [], ◌∷◌, arith, if_false,
}
use grbl_esp.Stepper.{Stepper, Segment, max_amass_level}
use grbl_esp.Stepper.Exact.{ArePartsOf, sum}
use grbl_esp.Stepper.Prepare.{MotionOps, Motion, StPrep}
use grbl_esp.Stepper.Prepare.Ramp.{Ramp, ramped}
use grbl_esp.Stepper.Prepare.Fill.{
  fill_segment, segment_rpm, bails, complete_segment, add_segment, after_segment, new_segment,
  push_segment, write_segment, finished_segment, segment_events, segment_rate, end_motion, amass,
}

-- What the count of steps relies on: a distance in steps has a whole number of steps, rounded up, and
-- the difference of two such numbers below 2 ^ 24, which a float has exactly, is exact as a uint16_t
-- where it fits. (A float of -1 or less and one that is no number count as 2 ^ 24 steps or more, of
-- which nothing is asked.)
pub record Counts (F : Type 0) (o : MotionOps F) : Type 0 where
  pub count : F → ℕ
  pub count_ceil : (x : F) → count (o.ceil x) ≡ count x
  pub count_minus :
      (x y : F)
      → count y ≤ count x
      → count x < 16777216
      → count x < count y + 65536
      → o.to_u16 (o.minus (o.ceil x) (o.ceil y)) ≡ count x - count y
  pub count_uint : (n : ℕ) → n < 16777216 → count (o.of_uint n) ≡ n

-- the segments of a block, made one after the other from the distances that the ramps leave
abbrev pub fill_all : {F : Type 0} → MotionOps F → ℕ → List (Ramp F) → Motion F → Motion F
fill_all o i [] m = m
fill_all o i (r ∷ rs) m = fill_all o i rs (fill_segment o i r m).0

abbrev pub made : {F : Type 0} → MotionOps F → ℕ → List (Ramp F) → Motion F → List Segment
made o i [] m = []
made o i (r ∷ rs) m =
    let t = (fill_segment o i r m).0 in t.stepper.segments m.stepper.head ∷ made o i rs t

-- the steps that are left fall, by less than 8192 for a segment
abbrev pub Falls : {F : Type 0} {o : MotionOps F} → Counts F o → F → ℕ → List (Ramp F) → Type 0
Falls c scale before [] = Unit
Falls {F} {o} c scale before (r ∷ rs) =
    let now = c.count (o.times scale r.mm_remaining) in
    (now ≤ before) × (before < now + 8192) × Falls c scale now rs

amass_le : (n level ticks : ℕ) → (amass n level ticks).0 ≤ level + n
unfolding amass
amass_le zero level ticks = omega arith
amass_le (suc n) level ticks = ground (arith, amass_le n (level + 1) (ticks / 2))

power_le : (l : ℕ) → l ≤ 3 → 2 ^ l ≤ 8
power_le zero h = omega arith
power_le (suc zero) h = omega arith
power_le (suc (suc zero)) h = omega arith
power_le (suc (suc (suc zero))) h = omega arith
power_le (suc (suc (suc (suc l)))) h = omega (arith, h)

product_lt : (m p : ℕ) → m < 8192 → p ≤ 8 → m * p < 65536
product_lt m p h k = grind (arith, h, k)

mod_small : (x : ℕ) → x < 65536 → x % 65536 ≡ x
mod_small x h = omega (arith, h)

-- a segment of so many events
abbrev IsPart : ℕ → Segment → Type 0
IsPart events x = (x.amass_level ≤ 3) × (x.n_step ≡ events * 2 ^ x.amass_level)

IsPart-at :
    (events events' : ℕ) (x y : Segment)
    → events' ≡ events
    → x ≡ y
    → IsPart events' y
    → IsPart events x
IsPart-at events events' x y e f h = rw (f, sym e) h

-- a segment with an event number below 8192 is not cut off by its 16 bits
segment_parts :
    {F : Type 0} (o : MotionOps F) (rate : F) (events : ℕ) (p : StPrep F)
    → events < 8192
    → IsPart events (finished_segment o rate events p)
unfolding finished_segment
segment_parts o rate events p h =
    let ticks = o.to_u32 (o.ceil (o.times o.ticks_per_minute rate)) in
    let level = (amass max_amass_level 0 ticks).0 in
    let le : level ≤ 3 = amass_le 3 0 ticks in
    (le, mod_small (events * 2 ^ level) (product_lt events (2 ^ level) h (power_le level le)))

-- a segment was made: the segment, and what is left of the block
record Makes {F : Type 0} (o : MotionOps F) (r : Ramp F) (m t : Motion F) : Type 0 where
  part : IsPart (segment_events o m.prep r.mm_remaining) (t.stepper.segments m.stepper.head)
  left : t.prep.steps_remaining ≡ o.ceil (o.times m.prep.step_per_mm r.mm_remaining)
  same_scale : t.prep.step_per_mm ≡ m.prep.step_per_mm
  no_hold : t.sys.step_control.execute_hold ≡ false

-- what the spindle's speed leaves alone
record SameSteps {F : Type 0} (m t : Motion F) : Type 0 where
  steps_same : t.prep.steps_remaining ≡ m.prep.steps_remaining
  scale_same : t.prep.step_per_mm ≡ m.prep.step_per_mm
  hold_same : t.sys.step_control.execute_hold ≡ m.sys.step_control.execute_hold
  stepper_same : t.stepper ≡ m.stepper

rpm-SameSteps :
    {F : Type 0} (o : MotionOps F) (i : ℕ) (r : Ramp F) (m : Motion F)
    → SameSteps m (segment_rpm o (m.plan i) (record m { prep = ramped m.prep r }))
unfolding segment_rpm
rpm-SameSteps o i r m = record {
  steps_same = ground arith;
  scale_same = ground arith;
  hold_same = ground arith;
  stepper_same = ground arith;
}

complete_made :
    {F : Type 0} (o : MotionOps F) (i : ℕ) (r : Ramp F) (m : Motion F)
    → (complete_segment o i r m).0.stepper.segments m.stepper.head ≡ new_segment o r m.prep
unfolding complete_segment add_segment push_segment write_segment after_segment end_motion
complete_made o i r m = ground arith

complete-IsPart :
    {F : Type 0} (o : MotionOps F) (i : ℕ) (r : Ramp F) (m : Motion F)
    → segment_events o m.prep r.mm_remaining < 8192
    → IsPart
        (segment_events o m.prep r.mm_remaining)
        ((complete_segment o i r m).0.stepper.segments m.stepper.head)
unfolding new_segment
complete-IsPart o i r m e =
    IsPart-at _ _ _ _ refl (complete_made o i r m)
      (segment_parts o (segment_rate o r m.prep) (segment_events o m.prep r.mm_remaining) m.prep e)

complete-Makes :
    {F : Type 0} (o : MotionOps F) (i : ℕ) (r : Ramp F) (m : Motion F)
    → m.sys.step_control.execute_hold ≡ false
    → segment_events o m.prep r.mm_remaining < 8192
    → Makes o r m (complete_segment o i r m).0
unfolding complete_segment add_segment push_segment write_segment after_segment end_motion
complete-Makes o i r m h e = record {
  part = complete-IsPart o i r m e;
  left = ground arith;
  same_scale = ground arith;
  no_hold = ground (arith, h);
}

events_same :
    {F : Type 0} (o : MotionOps F) (mm : F) (m t : Motion F)
    → SameSteps m t
    → segment_events o t.prep mm ≡ segment_events o m.prep mm
unfolding segment_events
events_same o mm m t h = rw (h.steps_same, h.scale_same) refl

Makes-rpm :
    {F : Type 0} (o : MotionOps F) (r : Ramp F) (m t u : Motion F)
    → SameSteps m t
    → Makes o r t u
    → Makes o r m u
Makes-rpm {F} o r m t u h k = record {
  part =
      IsPart-at _ _ _ _ (events_same o r.mm_remaining m t h)
        (ap (λ (s : Stepper). u.stepper.segments s.head) (sym h.stepper_same)) k.part;
  left = k.left ∙ ap (λ (x : F). o.ceil (o.times x r.mm_remaining)) h.scale_same;
  same_scale = k.same_scale ∙ h.scale_same;
  no_hold = k.no_hold;
}

not_bails :
    {F : Type 0} (o : MotionOps F) (r : Ramp F) (m : Motion F)
    → m.sys.step_control.execute_hold ≡ false
    → bails o r m ≡ false
unfolding bails
not_bails o r m h = ground (arith, h)

Makes-at :
    {F : Type 0} (o : MotionOps F) (r : Ramp F) (m : Motion F) (u v : Motion F × Bool)
    → u ≡ v
    → Makes o r m v.0
    → Makes o r m u.0
Makes-at o r m u v e h = rw e h

fill-Makes :
    {F : Type 0} (o : MotionOps F) (i : ℕ) (r : Ramp F) (m : Motion F)
    → m.sys.step_control.execute_hold ≡ false
    → segment_events o m.prep r.mm_remaining < 8192
    → Makes o r m (fill_segment o i r m).0
unfolding fill_segment
fill-Makes o i r m h e =
    let t = segment_rpm o (m.plan i) (record m { prep = ramped m.prep r }) in
    let same = rpm-SameSteps o i r m in
    let hold : t.sys.step_control.execute_hold ≡ false = same.hold_same ∙ h in
    let events : segment_events o t.prep r.mm_remaining < 8192 =
      rw (events_same o r.mm_remaining m t same) e in
    Makes-rpm o r m t _ same (
      Makes-at o r t (fill_segment o i r m) (complete_segment o i r t)
        (if_false _ _ (not_bails o r t hold)) (complete-Makes o i r t hold events))

-- the events of a segment are the steps by which the rest has fallen
events_fallen :
    {F : Type 0} {o : MotionOps F} (c : Counts F o) (r : Ramp F) (p : StPrep F)
    → c.count (o.times p.step_per_mm r.mm_remaining) ≤ c.count p.steps_remaining
    → c.count p.steps_remaining < c.count (o.times p.step_per_mm r.mm_remaining) + 8192
    → c.count p.steps_remaining < 16777216
    → segment_events o p r.mm_remaining
      ≡ c.count p.steps_remaining - c.count (o.times p.step_per_mm r.mm_remaining)
unfolding segment_events
events_fallen c r p h k b = c.count_minus _ _ h b (omega (arith, k))

left_is :
    {F : Type 0} {o : MotionOps F} (c : Counts F o) (r : Ramp F) (m t : Motion F)
    → Makes o r m t
    → c.count t.prep.steps_remaining ≡ c.count (o.times m.prep.step_per_mm r.mm_remaining)
left_is c r m t h = ap c.count h.left ∙ c.count_ceil _

Falls-at :
    {F : Type 0} {o : MotionOps F} (c : Counts F o) (scale scale' : F) (before before' : ℕ)
    (rs : List (Ramp F))
    → scale' ≡ scale
    → before' ≡ before
    → Falls c scale before rs
    → Falls c scale' before' rs
Falls-at c scale scale' before before' rs e f h = rw (e, f) h

-- The segments that `st_prep_buffer` makes of a block, one for each distance that the ramps leave,
-- with no feed hold: each has a smoothing level up to 3 and n * 2 ^ level steps for n events, and
-- together the events are exactly the steps by which the rest of the block has fallen, so none is
-- lost or made twice where a segment ends in the middle of a step. Less than 2 ^ 24 steps are left of
-- the block, and the distances fall, by less than 8192 steps for a segment.
pub made-ArePartsOf :
    {F : Type 0} (o : MotionOps F) (c : Counts F o) (i : ℕ) (rs : List (Ramp F)) (m : Motion F)
    → m.sys.step_control.execute_hold ≡ false
    → c.count m.prep.steps_remaining < 16777216
    → Falls c m.prep.step_per_mm (c.count m.prep.steps_remaining) rs
    → (ms : List ℕ) × ArePartsOf ms (made o i rs m)
      × (sum ms + c.count (fill_all o i rs m).prep.steps_remaining ≡ c.count m.prep.steps_remaining)
made-ArePartsOf o c i [] m h b f = ([], tt, omega arith)
made-ArePartsOf o c i (r ∷ rs) m h b (le, near, f) =
    let t = (fill_segment o i r m).0 in
    let events = events_fallen c r m.prep le near b in
    let few : segment_events o m.prep r.mm_remaining < 8192 = omega (arith, events, near) in
    let makes = fill-Makes o i r m h few in
    let left = left_is c r m t makes in
    let (ms, parts, total) =
      made-ArePartsOf o c i rs t makes.no_hold (omega (arith, left, le, b))
        (Falls-at c _ _ _ _ rs makes.same_scale left f) in
    (
      segment_events o m.prep r.mm_remaining ∷ ms,
      (makes.part.0, makes.part.1, parts),
      omega (arith, total, left, events, le),
    )
