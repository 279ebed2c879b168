-- ===== src/Stepper/Prepare/Fill/Ring.antt =====
-- The ring of segments under `st_prep_buffer` (Stepper.cpp): segments are only added behind those
-- that wait in it, and the loop ends when it is full.
use grbl_esp.Base.{
  ℕ, ◌<◌, ◌≡◌, refl, sym, ◌⊎◌, inl, inr, Bool, false, some, arith, ◌==◌, if◌then◌else◌, Bool-cases,
}
use grbl_esp.Stepper.{Stepper, Segment, next_segment}
use grbl_esp.Stepper.Prepare.{MotionOps, Drive, Motion, begin_block}
use grbl_esp.Stepper.Prepare.Profile.{load_plan_block, take_block, compute_profile}
use grbl_esp.Stepper.Prepare.Ramp.{Ramp, ramped}
use grbl_esp.Stepper.Prepare.Fill.{
  fill_segment, segment_rpm, write_segment, end_motion, push_segment, after_segment, bails,
  bail_segment, complete_segment, add_segment, new_segment, segment_rate,
}

-- the indices of the ring
pub record IsRing (s : Stepper) : Type 0 where
  pub tail_lt : s.tail < 6
  pub head_lt : s.head < 6
  pub next_head_is : s.next_head ≡ next_segment s.head

-- the ring is left as it is, but for the place at the head
pub record Holds (s t : Stepper) : Type 0 where
  pub tail_same : t.tail ≡ s.tail
  pub head_same : t.head ≡ s.head
  pub next_same : t.next_head ≡ s.next_head
  pub others_same : (i : ℕ) → (s.head == i) ≡ false → t.segments i ≡ s.segments i

-- a segment is added
pub record Pushes (s t : Stepper) : Type 0 where
  pub tail_kept : t.tail ≡ s.tail
  pub head_moved : t.head ≡ s.next_head
  pub next_moved : t.next_head ≡ next_segment s.next_head
  pub others_kept : (i : ℕ) → (s.head == i) ≡ false → t.segments i ≡ s.segments i

pub load-Holds :
    {F : Type 0} (o : MotionOps F) (drive : Drive) (m : Motion F) (t : ℕ × Motion F)
    → load_plan_block o drive m ≡ some t
    → Holds m.stepper t.1.stepper
unfolding load_plan_block take_block begin_block compute_profile
load-Holds o drive m t e = record {
  tail_same = ground (arith, e);
  head_same = ground (arith, e);
  next_same = ground (arith, e);
  others_same = λ i h. ground (arith, e);
}

rpm_keeps :
    {F : Type 0} (o : MotionOps F) (m : Motion F) (i : ℕ)
    → (segment_rpm o (m.plan i) m).stepper ≡ m.stepper
unfolding segment_rpm
rpm_keeps o m i = ground arith

after_keeps :
    {F : Type 0} (o : MotionOps F) (mm : F) (m : Motion F)
    → (after_segment o mm m).0.stepper ≡ m.stepper
unfolding after_segment end_motion
after_keeps o mm m = ground arith

bail-Holds :
    {F : Type 0} (o : MotionOps F) (m : Motion F) → Holds m.stepper (bail_segment o m).stepper
unfolding bail_segment write_segment end_motion
bail-Holds o m = record {
  tail_same = ground arith;
  head_same = ground arith;
  next_same = ground arith;
  others_same = λ j k. ground (arith, k);
}

push-Pushes :
    {F : Type 0} (o : MotionOps F) (i : ℕ) (inv_rate mm : F) (x : Segment) (m : Motion F)
    → Pushes m.stepper (push_segment o i inv_rate mm x m).stepper
unfolding push_segment write_segment
push-Pushes o i inv_rate mm x m = record {
  tail_kept = refl;
  head_moved = refl;
  next_moved = refl;
  others_kept = λ j k. ground (arith, k);
}

Pushes-at : (s s' t t' : Stepper) → s' ≡ s → t' ≡ t → Pushes s' t' → Pushes s t
Pushes-at s s' t t' e f h = rw (sym e, sym f) h

complete-Pushes :
    {F : Type 0} (o : MotionOps F) (i : ℕ) (r : Ramp F) (m : Motion F)
    → Pushes m.stepper (complete_segment o i r m).0.stepper
unfolding complete_segment add_segment
complete-Pushes o i r m =
    Pushes-at _ _ _ _ refl (sym (after_keeps o r.mm_remaining (add_segment o i r m)))
      (push-Pushes o i (segment_rate o r m.prep) r.mm_remaining (new_segment o r m.prep) m)

-- Either outcome of the segment.
abbrev pub Outcome : {F : Type 0} → Stepper → Motion F × Bool → Type 0
Outcome s (m, more) = ((more ≡ false) × Holds s m.stepper) ⊎ Pushes s m.stepper

bail_or_complete :
    {F : Type 0} (o : MotionOps F) (i : ℕ) (r : Ramp F) (m : Motion F)
    → Outcome m.stepper
        (if bails o r m then (bail_segment o m, false) else complete_segment o i r m)
bail_or_complete o i r m = elim (Bool-cases (bails o r m)) [
  | inl h ↦ rw h (inl (refl, bail-Holds o m))
  | inr h ↦ rw h (inr (complete-Pushes o i r m))
]

Outcome-at :
    {F : Type 0} (s s' : Stepper) (u : Motion F × Bool) → s' ≡ s → Outcome s' u → Outcome s u
Outcome-at s s' u e h = rw (sym e) h

pub fill-Outcome :
    {F : Type 0} (o : MotionOps F) (i : ℕ) (r : Ramp F) (m : Motion F)
    → Outcome m.stepper (fill_segment o i r m)
unfolding fill_segment
fill-Outcome o i r m =
    Outcome-at _ _ (fill_segment o i r m) (rpm_keeps o (record m { prep = ramped m.prep r }) i)
      (bail_or_complete o i r (segment_rpm o (m.plan i) (record m { prep = ramped m.prep r })))
