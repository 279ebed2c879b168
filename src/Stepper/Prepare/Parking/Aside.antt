-- ===== src/Stepper/Prepare/Parking/Aside.antt =====
-- What a parking motion leaves of the block that was put aside, in `st_prep_buffer` (Stepper.cpp).
use grbl_esp.Base.{
  ℕ, zero, suc, ◌≡◌, inl, inr, Bool, true, false, Option, none, some, arith, ◌==◌, if◌then◌else◌,
  Bool-cases, Option-cases,
}
use grbl_esp.Planner.{PlanBlock}
use grbl_esp.Stepper.Prepare.{
  MotionOps, Drive, Motion, StPrep, begin_block, recalculated, query_block,
}
use grbl_esp.Stepper.Prepare.Profile.{
  load_plan_block, take_block, compute_profile, hold_profile, normal_profile, decel_profile,
  trapezoid,
}
use grbl_esp.Stepper.Prepare.Ramp.{Ramp, ramp_start, ramp_loop, minimum_mm, ramped}
use grbl_esp.Stepper.Prepare.Fill.{
  Round, goes_on, returns, ramps_on, round_of, go_on, prep_round, prep_loop, st_prep_buffer,
  fill_segment, segment_rpm, write_segment, end_motion, push_segment, add_segment, after_segment,
  complete_segment, bails, bail_segment,
}

-- what is put aside, while a parking motion is in hand
pub record PutAside {F : Type 0} (p q : StPrep F) : Type 0 where
  pub is_parking : q.recalculate_flag.parking ≡ true
  pub partial : q.recalculate_flag.hold_partial_block ≡ p.recalculate_flag.hold_partial_block
  pub index_kept : q.last_st_block_index ≡ p.last_st_block_index
  pub steps_kept : q.last_steps_remaining ≡ p.last_steps_remaining
  pub dt_kept : q.last_dt_remainder ≡ p.last_dt_remainder
  pub scale_kept : q.last_step_per_mm ≡ p.last_step_per_mm

profile_keeps :
    {F : Type 0} (o : MotionOps F) (i : ℕ) (p : StPrep F) (m : Motion F)
    → PutAside p m.prep
    → PutAside p (compute_profile o i m).prep
unfolding compute_profile hold_profile normal_profile decel_profile trapezoid
profile_keeps o i p m h = ground (arith, h)

begin_keeps :
    {F : Type 0} (o : MotionOps F) (drive : Drive) (i : ℕ) (p : StPrep F) (m : Motion F)
    → PutAside p m.prep
    → PutAside p (begin_block o drive i m).prep
unfolding begin_block
begin_keeps o drive i p m h = ground (arith, h)

flag_keeps :
    {F : Type 0} (p q : StPrep F)
    → PutAside p q
    → PutAside p (record q { recalculate_flag = recalculated q.recalculate_flag })
flag_keeps p q h = ground (arith, h)

rpm_keeps :
    {F : Type 0} (o : MotionOps F) (b : PlanBlock F) (p : StPrep F) (m : Motion F)
    → PutAside p m.prep
    → PutAside p (segment_rpm o b m).prep
unfolding segment_rpm
rpm_keeps o b p m h = ground (arith, h)

bail_keeps :
    {F : Type 0} (o : MotionOps F) (p : StPrep F) (m : Motion F)
    → PutAside p m.prep
    → PutAside p (bail_segment o m).prep
unfolding bail_segment write_segment end_motion
bail_keeps o p m h = ground (arith, h)

add_keeps :
    {F : Type 0} (o : MotionOps F) (i : ℕ) (r : Ramp F) (p : StPrep F) (m : Motion F)
    → PutAside p m.prep
    → PutAside p (add_segment o i r m).prep
unfolding add_segment push_segment write_segment
add_keeps o i r p m h = ground (arith, h)

after_keeps :
    {F : Type 0} (o : MotionOps F) (mm : F) (p : StPrep F) (m : Motion F)
    → PutAside p m.prep
    → PutAside p (after_segment o mm m).0.prep
unfolding after_segment end_motion
after_keeps o mm p m h = ground (arith, h)

ramped_keeps : {F : Type 0} (r : Ramp F) (p q : StPrep F) → PutAside p q → PutAside p (ramped q r)
ramped_keeps r p q h = ground (arith, h)

fill_keeps :
    {F : Type 0} (o : MotionOps F) (i : ℕ) (r : Ramp F) (p : StPrep F) (m : Motion F)
    → PutAside p m.prep
    → PutAside p (fill_segment o i r m).0.prep
unfolding fill_segment complete_segment
fill_keeps o i r p m h =
    let t = segment_rpm o (m.plan i) (record m { prep = ramped m.prep r }) in
    let h' : PutAside p t.prep =
      rpm_keeps o (m.plan i) p (record m { prep = ramped m.prep r }) (ramped_keeps r p m.prep h) in
    elim (Bool-cases (bails o r t)) [
      | inl b ↦ rw b (bail_keeps o p t h')
      | inr b ↦ rw b (after_keeps o r.mm_remaining p _ (add_keeps o i r p t h'))
    ]

if_keeps :
    {F : Type 0} (b : Bool) (p : StPrep F) (m t : Motion F)
    → PutAside p m.prep
    → PutAside p t.prep
    → PutAside p (if b then m else t).prep
if_keeps true p m t h k = h
if_keeps false p m t h k = k

take_keeps :
    {F : Type 0} (o : MotionOps F) (drive : Drive) (i : ℕ) (p : StPrep F) (m : Motion F)
    → PutAside p m.prep
    → PutAside p (take_block o drive i m).prep
unfolding take_block
take_keeps o drive i p m h =
    let t = record m { pl_block = some i } in
    if_keeps t.prep.recalculate_flag.recalculate p
      (record t {
        prep = record t.prep { recalculate_flag = recalculated t.prep.recalculate_flag };
      })
      (begin_block o drive i t) (flag_keeps p m.prep h) (begin_keeps o drive i p t h)

abbrev LoadedAside : {F : Type 0} → StPrep F → Option (ℕ × Motion F) → Type 0
LoadedAside p none = Unit
LoadedAside p (some t) = PutAside p t.1.prep

load_keeps :
    {F : Type 0} (o : MotionOps F) (drive : Drive) (p : StPrep F) (m : Motion F)
    → PutAside p m.prep
    → LoadedAside p (load_plan_block o drive m)
unfolding load_plan_block
load_keeps o drive p m h = elim (Option-cases m.pl_block) [
  | inr (i, e) ↦ rw (e, LoadedAside) h
  | inl e ↦ elim (Option-cases (query_block m)) [
    | inl q ↦ rw (e, q, LoadedAside) tt
    | inr (i, q) ↦
        rw (e, q, LoadedAside)
          (profile_keeps o i p (take_block o drive i m) (take_keeps o drive i p m h))
  ]
]

-- the outcomes of a round
abbrev pub RoundAside : {F : Type 0} → StPrep F → Round F → Type 0
RoundAside p (goes_on u) = PutAside p u.prep
RoundAside p (returns u) = PutAside p u.prep
RoundAside p ramps_on = Unit

round_of_keeps :
    {F : Type 0} (p : StPrep F) (u : Motion F) (more : Bool)
    → PutAside p u.prep
    → RoundAside p (round_of (u, more))
round_of_keeps p u true h = h
round_of_keeps p u false h = h

loaded_keeps :
    {F : Type 0} (fuel : ℕ) (o : MotionOps F) (p : StPrep F) (i : ℕ) (m : Motion F)
    → PutAside p m.prep
    → RoundAside p
        (elim (ramp_loop fuel o
          (minimum_mm o (m.plan i) m.prep)
          (m.plan i)
          m.prep
          (ramp_start o (m.plan i) m.prep)) [
            | none ↦ ramps_on
            | some r ↦ round_of (fill_segment o i r m)
          ])
loaded_keeps fuel o p i m h =
    elim (Option-cases (
      ramp_loop fuel o (minimum_mm o (m.plan i) m.prep) (m.plan i) m.prep
        (ramp_start o (m.plan i) m.prep))) [
          | inl e ↦ rw (e, RoundAside) tt
          | inr (r, e) ↦ rw (e, RoundAside) (round_of_keeps p _ _ (fill_keeps o i r p m h))
        ]

LoadedAside-some :
    {F : Type 0} (p : StPrep F) (x : Option (ℕ × Motion F)) (t : ℕ × Motion F)
    → x ≡ some t
    → LoadedAside p x
    → PutAside p t.1.prep
LoadedAside-some p x t e h = rw e at h

round_keeps :
    {F : Type 0} (fuel : ℕ) (o : MotionOps F) (drive : Drive) (p : StPrep F) (m : Motion F)
    → PutAside p m.prep
    → RoundAside p (prep_round fuel o drive m)
unfolding prep_round
round_keeps fuel o drive p m h = elim (Option-cases (load_plan_block o drive m)) [
  | inl e ↦ rw (e, RoundAside) h
  | inr (t, e) ↦
      rw (e, RoundAside)
        (loaded_keeps fuel o p t.0 t.1 (LoadedAside-some p _ t e (load_keeps o drive p m h)))
]

abbrev pub LoopAside : {F : Type 0} → StPrep F → Option (Round F) → Type 0
LoopAside p none = Unit
LoopAside p (some result) = RoundAside p result

go_on_keeps :
    {F : Type 0} (next : Motion F → Option (Round F)) (p : StPrep F) (round : Round F)
    → ((u : Motion F) → PutAside p u.prep → LoopAside p (next u))
    → RoundAside p round
    → LoopAside p (go_on next round)
go_on_keeps next p (goes_on u) ih h = ih u h
go_on_keeps next p (returns u) ih h = h
go_on_keeps next p ramps_on ih h = tt

loop_if :
    {F : Type 0} (b : Bool) (p : StPrep F) (x y : Option (Round F))
    → LoopAside p x
    → LoopAside p y
    → LoopAside p (if b then x else y)
loop_if true p x y h k = h
loop_if false p x y h k = k

loop_keeps :
    {F : Type 0} (n fuel : ℕ) (o : MotionOps F) (drive : Drive) (p : StPrep F) (m : Motion F)
    → PutAside p m.prep
    → LoopAside p (prep_loop n fuel o drive m)
unfolding prep_loop
loop_keeps zero fuel o drive p m h = tt
loop_keeps (suc n) fuel o drive p m h = loop_if (m.stepper.tail == m.stepper.next_head) p _ _ h (
    go_on_keeps (prep_loop n fuel o drive) p (prep_round fuel o drive m)
      (λ u k. loop_keeps n fuel o drive p u k) (round_keeps fuel o drive p m h))

pub prep_keeps :
    {F : Type 0} (n fuel : ℕ) (o : MotionOps F) (drive : Drive) (p : StPrep F) (m : Motion F)
    → PutAside p m.prep
    → LoopAside p (st_prep_buffer n fuel o drive m)
unfolding st_prep_buffer
prep_keeps n fuel o drive p m h =
    loop_if m.sys.step_control.end_motion p _ _ h (loop_keeps n fuel o drive p m h)
