-- ===== src/Stepper/Tests.antt =====
-- Runs of the interrupt, on concrete blocks and segments.
use grbl_esp.Base.{ℕ, ◌≡◌, refl, true, false, none, [], ◌∷◌, arith, ◌==◌, if◌then◌else◌}
use grbl_esp.Base.Int.{ℤ, ◌+ℤ◌, ◌-ℤ◌}
use grbl_esp.System.{State}
use grbl_esp.Stepper.{
  Stepper, StBlock, Segment, Axis, Inputs, stepper_pulse_func, st_reset, take_step, load_segment,
  load_block, shut_down, probe_state_monitor, step_axes, count_step, axes_tick, step_bits,
  axis_tick,
}
use grbl_esp.Stepper.Interrupt.{run_isr}
use grbl_esp.Stepper.Arrives.{run_isr-Arrives, Arrives}
use grbl_esp.Stepper.Probing.{Recorded, positions, probe-Recorded, st_reset-positions}

abbrev quiet : Inputs
quiet = record {
  state = State.cycle;
  homing_axis_lock = [];
  probe_triggered = false;
  is_timed = true;
}

abbrev touched : Inputs
touched = record quiet { probe_triggered = true }

-- three events, with three steps on the first axis, and two back on the second
abbrev block : StBlock
block = record {
  steps = 24 ∷ 16 ∷ [];
  step_event_count = 24;
  direction_bits = false ∷ true ∷ [];
  is_pwm_rate_adjusted = false;
}

-- two events at full rate, and one in runs of half an event
abbrev full : Segment
full = record { n_step = 2; isr_period = 400; st_block_index = 1; amass_level = 0; spindle_rpm = 0 }

abbrev half : Segment
half = record { n_step = 2; isr_period = 800; st_block_index = 1; amass_level = 1; spindle_rpm = 0 }

abbrev ring : ℕ → Segment
ring i = if i == 0 then full else half

abbrev axis : Axis
axis = record { counter = 0; steps = 0; position = ℤ.pos 10 }

abbrev start : Stepper
start = record {
  axes = axis ∷ axis ∷ [];
  step_outbits = false ∷ false ∷ [];
  dir_outbits = false ∷ false ∷ [];
  step_count = 0;
  exec_block_index = 0;
  exec_block = none;
  exec_segment = none;
  tail = 0;
  head = 2;
  next_head = 3;
  segments = ring;
  blocks = λ i. block;
  probe_active = true;
  probe_position = [];
  motion_cancel = false;
  cycle_stop = false;
  calls = [];
}

run_isr-Arrives_example :
    let t = run_isr (quiet ∷ quiet ∷ quiet ∷ quiet ∷ []) start in
    (t.exec_segment ≡ none)
    × (t.tail ≡ 2)
    × Arrives 12 (3 ∷ 2 ∷ []) (false ∷ true ∷ []) start.axes t.axes
run_isr-Arrives_example =
    run_isr-Arrives (2 ∷ 1 ∷ []) full (half ∷ []) 3 (3 ∷ 2 ∷ []) quiet (quiet ∷ quiet ∷ quiet ∷ [])
      1 start refl refl (refl, refl, (refl, refl, refl))
      (refl, omega arith, omega arith, (refl, omega arith, omega arith, tt))
      (omega arith, refl, (omega arith, refl, tt)) refl (omega arith) (omega arith)
      (omega arith, (omega arith, tt)) refl refl refl

-- the first axis goes from 10 to 13, the second to 8
arrived :
    positions (run_isr (quiet ∷ quiet ∷ quiet ∷ quiet ∷ []) start).axes ≡ ℤ.pos 13 ∷ ℤ.pos 8 ∷ []
unfolding stepper_pulse_func take_step load_segment load_block shut_down probe_state_monitor
    step_axes count_step axes_tick step_bits axis_tick ◌+ℤ◌ ◌-ℤ◌
arrived = refl

probe-Recorded_example :
    Recorded (ℤ.pos 10 ∷ ℤ.pos 10 ∷ []) (run_isr (touched ∷ quiet ∷ touched ∷ []) start)
probe-Recorded_example = probe-Recorded touched (quiet ∷ touched ∷ []) start refl refl (λ h. refl)

st_reset-positions_example :
    let t = run_isr (quiet ∷ quiet ∷ []) (st_reset start) in
    (t.exec_segment ≡ none) × (positions t.axes ≡ ℤ.pos 10 ∷ ℤ.pos 10 ∷ [])
st_reset-positions_example = st_reset-positions (quiet ∷ quiet ∷ []) start
