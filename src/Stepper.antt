-- ===== src/Stepper.antt =====
-- Stepper.cpp and Stepper.h (Grbl_Esp32/src): the step generator. This file has the interrupt that
-- takes steps, `stepper_pulse_func`, on its ring of segments, with `probe_state_monitor` of Probe.cpp
-- and `st_reset`; Prepare fills the ring. One run of the interrupt is one atomic step. The delays
-- of the pulses are left out; the calls on motors, spindle and timer are logged in their order.
-- Bits by axis are lists of Bool, and the positions, of 32 bits, are integers.
pub mod Bresenham
pub mod Interrupt
pub mod Segments
pub mod Exact
pub mod Arrives
pub mod Probing
pub mod Prepare
mod Tests
use grbl_esp.Base.{
  ℕ, zero, suc, ◌+◌, ◌-◌, ◌*◌, ◌/◌, ◌%◌, ◌^◌, ◌≤◌, ◌<◌, min, max, ◌≡◌, refl, sym, ap, ap₂, ◌∙◌, ◌≢◌,
  ◌↔◌, ◌⊎◌, inl, inr, Bool, true, false, not, ◌&&◌, ◌||◌, Option, none, some, List, [], ◌∷◌, ◌++◌,
  map, append-nil, append_assoc, arith, ltb, leb, ◌==◌, if◌then◌else◌, ltb→lt, lt→ltb, leb→le,
  ==_iff, tests, Bool-cases, Option-cases, if_true, if_false, length, get_elem?, set, length-append,
  length-set, get_elem?-set_self, get_elem?-set_ne, get_or, take, drop, replicate, take-append-drop,
  length-take, length-drop, length-replicate, length-map,
}
use grbl_esp.Base.Int.{ℤ, ◌+ℤ◌, ◌-ℤ◌}
use grbl_esp.System.{State, same_state}

abbrev pub segment_buffer_size : ℕ
segment_buffer_size = 6

abbrev pub max_amass_level : ℕ
max_amass_level = 3

-- `st_block_t`
pub record StBlock : Type 0 where
  pub steps : List ℕ
  pub step_event_count : ℕ
  pub direction_bits : List Bool
  pub is_pwm_rate_adjusted : Bool

-- `segment_t`
pub record Segment : Type 0 where
  pub n_step : ℕ
  pub isr_period : ℕ
  pub st_block_index : ℕ
  pub amass_level : ℕ
  pub spindle_rpm : ℕ

-- what `stepper_t` has for each axis, with the axis' position in steps
pub record Axis : Type 0 where
  pub counter : ℕ
  pub steps : ℕ
  pub position : ℤ

-- the calls of the interrupt
pub data IsrCall : Type 0 where
  motors_direction motors_step : List Bool → IsrCall
  write_period set_rpm : ℕ → IsrCall
  go_idle motors_unstep : IsrCall

-- what the interrupt reads: the machine's state, the axes that homing may move, the probe's pin
-- against the direction of probing, and whether the pulses are timed by software
pub record Inputs : Type 0 where
  pub state : State
  pub homing_axis_lock : List Bool
  pub probe_triggered : Bool
  pub is_timed : Bool

-- `stepper_t st`, the rings, and the globals that the interrupt writes
pub record Stepper : Type 0 where
  pub axes : List Axis
  pub step_outbits : List Bool
  pub dir_outbits : List Bool
  pub step_count : ℕ
  pub exec_block_index : ℕ
  pub exec_block : Option ℕ
  pub exec_segment : Option ℕ
  pub tail : ℕ
  pub head : ℕ
  pub next_head : ℕ
  pub segments : ℕ → Segment
  pub blocks : ℕ → StBlock
  pub probe_active : Bool
  pub probe_position : List ℤ
  pub motion_cancel : Bool
  pub cycle_stop : Bool
  pub calls : List IsrCall

-- what a null `exec_block` would give; a segment is never loaded without one
abbrev pub no_block : StBlock
no_block = record {
  steps = [];
  step_event_count = 0;
  direction_bits = [];
  is_pwm_rate_adjusted = false;
}

abbrev pub exec_block_data : Stepper → StBlock
exec_block_data s = elim s.exec_block [ none ↦ no_block | some i ↦ s.blocks i ]

abbrev pub call : IsrCall → Stepper → Stepper
call c s = record s { calls = s.calls ++ c ∷ [] }

-- the value for an axis of a list that has one for each
abbrev pub first_or {ℓ} : {A : Type ℓ} → A → List A → A
first_or d [] = d
first_or d (x ∷ xs) = x

abbrev pub rest_of {ℓ} : {A : Type ℓ} → List A → List A
rest_of [] = []
rest_of (x ∷ xs) = xs

-- `st.counter[axis] = (st.exec_block->step_event_count >> 1)`
abbrev pub reset_counters : ℕ → List Axis → List Axis
reset_counters count [] = []
reset_counters count (a ∷ others) = record a { counter = count / 2 } ∷ reset_counters count others

-- `st.steps[axis] = st.exec_block->steps[axis] >> st.exec_segment->amass_level`
abbrev pub load_steps : ℕ → List ℕ → List Axis → List Axis
load_steps level steps [] = []
load_steps level steps (a ∷ others) =
    record a { steps = first_or 0 steps / 2 ^ level } ∷ load_steps level (rest_of steps) others

-- a segment of another block than the last one begins that block
unfoldable pub load_block : Segment → Stepper → Stepper
load_block segment s = if s.exec_block_index == segment.st_block_index then s else record s {
  exec_block_index = segment.st_block_index;
  exec_block = some segment.st_block_index;
  axes = reset_counters (s.blocks segment.st_block_index).step_event_count s.axes;
}

-- the segment at the tail is taken
unfoldable pub load_segment : Stepper → Stepper
unfolding load_block
load_segment s =
    let segment = s.segments s.tail in
    let t = load_block segment (
      call (IsrCall.write_period segment.isr_period)
        (record s { exec_segment = some s.tail; step_count = segment.n_step })) in
    let block = exec_block_data t in
    call (IsrCall.set_rpm segment.spindle_rpm) (record t {
      dir_outbits = block.direction_bits;
      axes = load_steps segment.amass_level block.steps t.axes;
    })

-- the ring is empty: the motion is over
unfoldable pub shut_down : Inputs → Stepper → Stepper
shut_down env s =
    let t = record (call IsrCall.go_idle s) { step_outbits = map (λ b. false) s.step_outbits } in
    let u =
      if not (same_state env.state State.jog) && (exec_block_data t).is_pwm_rate_adjusted
      then call (IsrCall.set_rpm 0) t
      else t in
    record u { cycle_stop = true }

-- Probe.cpp `probe_state_monitor`, while a probing cycle is active
unfoldable pub probe_state_monitor : Inputs → Stepper → Stepper
probe_state_monitor env s =
    if s.probe_active && env.probe_triggered
    then record s {
      probe_active = false;
      probe_position = map (λ (a : Axis). a.position) s.axes;
      motion_cancel = true;
    }
    else s

-- one axis of the Bresenham loop, on a uint32_t counter; the flag is its step bit
unfoldable pub axis_tick : ℕ → Bool → Axis → Axis × Bool
axis_tick total negative a =
    let counter = (a.counter + a.steps) % 2 ^ 32 in
    if ltb total counter
    then (
      record a {
        counter = counter - total;
        position = if negative then a.position -ℤ ℤ.pos 1 else a.position +ℤ ℤ.pos 1;
      },
      true,
    )
    else (record a { counter = counter }, false)

unfoldable pub axes_tick : ℕ → List Bool → List Axis → List Axis
unfolding axis_tick
axes_tick total dirs [] = []
axes_tick total dirs (a ∷ others) =
    (axis_tick total (first_or false dirs) a).0 ∷ axes_tick total (rest_of dirs) others

unfoldable pub step_bits : ℕ → List Axis → List Bool
unfolding axis_tick
step_bits total [] = []
step_bits total (a ∷ others) = (axis_tick total false a).1 ∷ step_bits total others

-- `st.step_outbits &= sys.homing_axis_lock`
abbrev pub lock_bits : List Bool → List Bool → List Bool
lock_bits [] lock = []
lock_bits (b ∷ bs) lock = (b && first_or false lock) ∷ lock_bits bs (rest_of lock)

-- the Bresenham loop over the axes, and the lock while homing
unfoldable pub step_axes : Inputs → Stepper → Stepper
unfolding axes_tick step_bits
step_axes env s =
    let block = exec_block_data s in
    let bits = step_bits block.step_event_count s.axes in
    record s {
      axes = axes_tick block.step_event_count block.direction_bits s.axes;
      step_outbits =
          if same_state env.state State.homing then lock_bits bits env.homing_axis_lock else bits;
    }

-- `++segment_buffer_tail == SEGMENT_BUFFER_SIZE`, on a uint8_t
abbrev pub next_segment : ℕ → ℕ
next_segment i = let n = (i + 1) % 2 ^ 8 in if n == segment_buffer_size then 0 else n

-- `st.step_count--` on a uint16_t, and the end of the segment
unfoldable pub count_step : Stepper → Stepper
count_step s =
    let left = (s.step_count + 65535) % 2 ^ 16 in
    if left == 0
    then record s { step_count = left; exec_segment = none; tail = next_segment s.tail }
    else record s { step_count = left }

-- the step behind the loading of a segment
unfoldable pub take_step : Inputs → Stepper → Stepper
unfolding probe_state_monitor step_axes count_step
take_step env s =
    let t = count_step (step_axes env (probe_state_monitor env s)) in
    if env.is_timed then call IsrCall.motors_unstep t else t

-- the pulses of the step before are put out first
unfoldable pub stepper_pulse_func : Inputs → Stepper → Stepper
unfolding take_step load_segment shut_down
stepper_pulse_func env s =
    let t =
      call (IsrCall.motors_step s.step_outbits) (call (IsrCall.motors_direction s.dir_outbits) s) in
    elim t.exec_segment [
      | some i ↦ take_step env t
      | none ↦ if t.head == t.tail then shut_down env t else take_step env (load_segment t)
    ]

-- `st_reset`, as far as the interrupt's state goes
unfoldable pub st_reset : Stepper → Stepper
st_reset s = record s {
  axes = map (λ (a : Axis). record a { counter = 0; steps = 0 }) s.axes;
  step_outbits = map (λ (a : Axis). false) s.axes;
  dir_outbits = map (λ (a : Axis). false) s.axes;
  step_count = 0;
  exec_block_index = 0;
  exec_block = none;
  exec_segment = none;
  tail = 0;
  head = 0;
  next_head = 1;
  calls = s.calls ++ IsrCall.go_idle ∷ [];
}
