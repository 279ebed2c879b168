-- ===== src/Stepper/Prepare/Fill.antt =====
-- The segment that is put into the ring, and the loop (`st_prep_buffer`, Stepper.cpp).
pub mod Ring
pub mod Queue
pub mod Ends
pub mod Counts
pub mod Block
use grbl_esp.Base.{
  ℕ, zero, suc, ◌+◌, ◌-◌, ◌*◌, ◌/◌, ◌%◌, ◌^◌, ◌≤◌, ◌<◌, min, max, ◌≡◌, refl, sym, ap, ap₂, ◌∙◌, ◌≢◌,
  ◌↔◌, ◌⊎◌, inl, inr, Bool, true, false, not, ◌&&◌, ◌||◌, Option, none, some, List, [], ◌∷◌, ◌++◌,
  map, append-nil, append_assoc, arith, ltb, leb, ◌==◌, if◌then◌else◌, ltb→lt, lt→ltb, leb→le,
  ==_iff, tests, Bool-cases, Option-cases, if_true, if_false, length, get_elem?, set, length-append,
  length-set, get_elem?-set_self, get_elem?-set_ne, get_or, take, drop, replicate, take-append-drop,
  length-take, length-drop, length-replicate, length-map,
}
use grbl_esp.System.{System, StepControl}
use grbl_esp.Planner.{PlanBlock, Indices, plan_discard_current_block}
use grbl_esp.Stepper.{Stepper, StBlock, Segment, next_segment, max_amass_level}
use grbl_esp.Stepper.Prepare.{
  MotionOps, Drive, PrepFlag, StPrep, Motion, put, is_running, amass_threshold,
}
use grbl_esp.Stepper.Prepare.Profile.{load_plan_block}
use grbl_esp.Stepper.Prepare.Ramp.{Ramp, ramp_start, ramp_loop, minimum_mm, ramped}

-- the smoothing level of a rate, with the ticks of a run at that level
unfoldable pub amass : ℕ → ℕ → ℕ → ℕ × ℕ
amass zero level ticks = (level, ticks)
amass (suc n) level ticks =
    let rest = amass n (level + 1) (ticks / 2) in
    if ltb ticks amass_threshold then (level, ticks) else rest

-- the spindle's speed in the segment
unfoldable pub segment_rpm : {F : Type 0} → MotionOps F → PlanBlock F → Motion F → Motion F
segment_rpm o b m =
    let is_adjusted = (m.stepper.blocks m.st_prep_block).is_pwm_rate_adjusted in
    let rpm =
      if is_running b.spindle
      then (if is_adjusted
          then o.times b.spindle_speed (o.times m.prep.current_speed m.prep.inv_rate)
          else b.spindle_speed)
      else o.of_uint 0 in
    if is_adjusted || m.sys.step_control.update_spindle_rpm
    then record m {
      prep = record m.prep { current_spindle_rpm = rpm };
      sys = record m.sys {
        spindle_speed = if is_running b.spindle then m.sys.spindle_speed else 0;
        step_control = record m.sys.step_control { update_spindle_rpm = false };
      };
    }
    else m

-- a field of the segment at the head is written
unfoldable pub write_segment : {F : Type 0} → Segment → Motion F → Motion F
write_segment segment m = record m {
  stepper = record m.stepper { segments = put m.stepper.head segment m.stepper.segments };
}

-- the motion stops in the middle of a block
unfoldable pub end_motion : {F : Type 0} → Motion F → Motion F
end_motion m = record m {
  sys = record m.sys { step_control = record m.sys.step_control { end_motion = true } };
  prep = if m.prep.recalculate_flag.parking then m.prep else record m.prep {
    recalculate_flag = record m.prep.recalculate_flag { hold_partial_block = true };
  };
}

-- `(uint16_t)(last_n_steps_remaining - n_steps_remaining)`
unfoldable pub segment_events : {F : Type 0} → MotionOps F → StPrep F → (mm_remaining : F) → ℕ
segment_events o p mm_remaining =
    o.to_u16 (o.minus (o.ceil p.steps_remaining) (o.ceil (o.times p.step_per_mm mm_remaining)))

-- the segment of `events` steps, in the time `inv_rate` for each
unfoldable pub finished_segment :
    {F : Type 0} → MotionOps F → (inv_rate : F) → ℕ → StPrep F → Segment
unfolding amass
finished_segment o inv_rate events p =
    let (level, ticks) =
      amass max_amass_level 0 (o.to_u32 (o.ceil (o.times o.ticks_per_minute inv_rate))) in
    record {
      n_step = (events * 2 ^ level) % 2 ^ 16;
      isr_period = if ltb 65535 ticks then 65535 else ticks;
      st_block_index = p.st_block_index;
      amass_level = level;
      spindle_rpm = o.to_u16 p.current_spindle_rpm;
    }

-- the segment is counted in, and the block and `prep` are brought up to date
unfoldable pub push_segment :
    {F : Type 0}
    → MotionOps F
    → ℕ
    → (inv_rate : F) → (mm_remaining : F) → Segment
    → Motion F
    → Motion F
unfolding write_segment
push_segment o i inv_rate mm_remaining segment m =
    let t = write_segment segment m in
    let dist = o.times m.prep.step_per_mm mm_remaining in
    record t {
      stepper = record t.stepper {
        head = t.stepper.next_head;
        next_head = next_segment t.stepper.next_head;
      };
      plan = put i (record (t.plan i) { millimeters = mm_remaining }) t.plan;
      prep = record t.prep {
        steps_remaining = o.ceil dist;
        dt_remainder = o.times (o.minus (o.ceil dist) dist) inv_rate;
      };
    }

-- the end of a segment; `true` where the loop goes on
unfoldable pub after_segment :
    {F : Type 0} → MotionOps F → (mm_remaining : F) → Motion F → Motion F × Bool
unfolding end_motion
after_segment o mm_remaining m =
    if o.same mm_remaining m.prep.mm_complete
    then (if o.less (o.of_uint 0) mm_remaining
        then (end_motion m, false)
        else if m.sys.step_control.execute_sys_motion
        then (
          record m {
            sys = record m.sys { step_control = record m.sys.step_control { end_motion = true } };
          },
          false,
        )
        else (record m { pl_block = none; indices = plan_discard_current_block m.indices }, true))
    else (m, true)

-- at the end of a hold there is no step to make
unfoldable pub bails : {F : Type 0} → MotionOps F → Ramp F → Motion F → Bool
unfolding segment_events
bails o r m = (segment_events o m.prep r.mm_remaining == 0) && m.sys.step_control.execute_hold

-- the segment is not generated, although its fields are written
unfoldable pub bail_segment : {F : Type 0} → MotionOps F → Motion F → Motion F
unfolding write_segment end_motion
bail_segment o m = end_motion (
    write_segment
      (record (m.stepper.segments m.stepper.head) {
        st_block_index = m.prep.st_block_index;
        spindle_rpm = o.to_u16 m.prep.current_spindle_rpm;
        n_step = 0;
      })
      m)

-- the time of a step, with the partial step of the segment before
unfoldable pub segment_rate : {F : Type 0} → MotionOps F → Ramp F → StPrep F → F
segment_rate o r p =
    o.over (o.plus r.dt p.dt_remainder)
      (o.minus (o.ceil p.steps_remaining) (o.times p.step_per_mm r.mm_remaining))

unfoldable pub new_segment : {F : Type 0} → MotionOps F → Ramp F → StPrep F → Segment
unfolding segment_events finished_segment segment_rate
new_segment o r p = finished_segment o (segment_rate o r p) (segment_events o p r.mm_remaining) p

unfoldable pub add_segment : {F : Type 0} → MotionOps F → ℕ → Ramp F → Motion F → Motion F
unfolding new_segment segment_rate push_segment
add_segment o i r m =
    push_segment o i (segment_rate o r m.prep) r.mm_remaining (new_segment o r m.prep) m

unfoldable pub complete_segment :
    {F : Type 0} → MotionOps F → ℕ → Ramp F → Motion F → Motion F × Bool
unfolding add_segment after_segment
complete_segment o i r m = after_segment o r.mm_remaining (add_segment o i r m)

-- what the loop does behind the ramps, for the block i
unfoldable pub fill_segment : {F : Type 0} → MotionOps F → ℕ → Ramp F → Motion F → Motion F × Bool
unfolding segment_rpm bails bail_segment complete_segment
fill_segment o i r m =
    let t = segment_rpm o (m.plan i) (record m { prep = ramped m.prep r }) in
    if bails o r t then (bail_segment o t, false) else complete_segment o i r t

-- How a round of the loop ends: the loop goes on, the function returns, or the ramps of the segment
-- take more than the fuel they are given.
pub data Round (F : Type 0) : Type 0 where
  goes_on returns : Motion F → Round F
  ramps_on : Round F

abbrev pub round_of : {F : Type 0} → Motion F × Bool → Round F
round_of (m, more) = if more then goes_on m else returns m

unfoldable pub prep_round : {F : Type 0} → ℕ → MotionOps F → Drive → Motion F → Round F
unfolding load_plan_block fill_segment ramp_loop ramp_start minimum_mm
prep_round fuel o drive m = elim (load_plan_block o drive m) [
  | none ↦ returns m
  | some t ↦
      let b = t.1.plan t.0 in
      elim (ramp_loop fuel o (minimum_mm o b t.1.prep) b t.1.prep (ramp_start o b t.1.prep)) [
        | none ↦ ramps_on
        | some r ↦ round_of (fill_segment o t.0 r t.1)
      ]
]

-- what is done behind a round
abbrev pub go_on : {F : Type 0} → (Motion F → Option (Round F)) → Round F → Option (Round F)
go_on next (goes_on u) = next u
go_on next (returns u) = some (returns u)
go_on next ramps_on = some ramps_on

-- the while loop, on fuel: `none` where it has not ended
unfoldable pub prep_loop : {F : Type 0} → ℕ → ℕ → MotionOps F → Drive → Motion F → Option (Round F)
unfolding prep_round
prep_loop zero fuel o drive m = none
prep_loop (suc n) fuel o drive m =
    if m.stepper.tail == m.stepper.next_head
    then some (returns m)
    else go_on (prep_loop n fuel o drive) (prep_round fuel o drive m)

unfoldable pub st_prep_buffer :
    {F : Type 0} → ℕ → ℕ → MotionOps F → Drive → Motion F → Option (Round F)
unfolding prep_loop
st_prep_buffer n fuel o drive m =
    if m.sys.step_control.end_motion then some (returns m) else prep_loop n fuel o drive m
