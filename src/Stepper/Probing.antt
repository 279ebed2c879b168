-- ===== src/Stepper/Probing.antt =====
-- Probing and the start of motions in the interrupt (`stepper_pulse_func`, Stepper.cpp, with
-- `probe_state_monitor`, Probe.cpp).
use grbl_esp.Base.{
  ℕ, ◌≡◌, refl, sym, ap, ◌∙◌, inl, inr, true, false, none, List, [], ◌∷◌, map, arith, ◌==◌,
  Option-cases,
}
use grbl_esp.Base.Int.{ℤ}
use grbl_esp.Stepper.{
  Stepper, Segment, Axis, Inputs, take_step, load_segment, load_block, shut_down,
  stepper_pulse_func, probe_state_monitor, step_axes, count_step, reset_counters, load_steps,
  st_reset,
}
use grbl_esp.Stepper.Interrupt.{run_isr, pulsed, pulse_load, pulse_on}

abbrev pub positions : List Axis → List ℤ
positions axes = map (λ (a : Axis). a.position) axes

-- the loading of a segment does not move an axis
positions_reset :
    (count : ℕ) (axes : List Axis) → positions (reset_counters count axes) ≡ positions axes
positions_reset count [] = refl
positions_reset count (a ∷ others) =
    ap (λ (xs : List ℤ). a.position ∷ xs) (positions_reset count others)

positions_load :
    (level : ℕ) (steps : List ℕ) (axes : List Axis)
    → positions (load_steps level steps axes) ≡ positions axes
positions_load level steps [] = refl
positions_load level steps (a ∷ others) =
    ap (λ (xs : List ℤ). a.position ∷ xs) (positions_load level _ others)

-- what probing has recorded
pub record Recorded (found : List ℤ) (s : Stepper) : Type 0 where
  pub inactive : s.probe_active ≡ false
  pub cancelled : s.motion_cancel ≡ true
  pub position_is : s.probe_position ≡ found

take_step_records :
    (env : Inputs) (s : Stepper)
    → s.probe_active ≡ true
    → env.probe_triggered ≡ true
    → Recorded (positions s.axes) (take_step env s)
unfolding take_step probe_state_monitor step_axes count_step
take_step_records env s a t = ground (arith, a, t)

pulse_keeps :
    (env : Inputs) (found : List ℤ) (s : Stepper)
    → Recorded found s
    → Recorded found (stepper_pulse_func env s)
unfolding stepper_pulse_func take_step probe_state_monitor step_axes count_step load_segment
    load_block shut_down
pulse_keeps env found s r = ground (arith, r.inactive, r.cancelled, r.position_is)

run_isr_keeps :
    (envs : List Inputs) (found : List ℤ) (s : Stepper)
    → Recorded found s
    → Recorded found (run_isr envs s)
run_isr_keeps [] found s r = r
run_isr_keeps (env ∷ envs) found s r = run_isr_keeps envs found _ (pulse_keeps env found s r)

positions_begin :
    (segment : Segment) (s : Stepper) → positions (load_block segment s).axes ≡ positions s.axes
unfolding load_block
positions_begin segment s =
    ground (arith, positions_reset (s.blocks segment.st_block_index).step_event_count s.axes)

loaded_active : (s : Stepper) → (load_segment (pulsed s)).probe_active ≡ s.probe_active
unfolding load_segment load_block pulsed
loaded_active s = ground arith

loaded_positions : (s : Stepper) → positions (load_segment (pulsed s)).axes ≡ positions s.axes
unfolding load_segment pulsed
loaded_positions s = positions_load _ _ _ ∙ positions_begin (s.segments s.tail) _

-- the positions of the run that finds the probe, whether it goes on with a segment or loads one
pulse_records :
    (env : Inputs) (s : Stepper)
    → s.probe_active ≡ true
    → env.probe_triggered ≡ true
    → (s.exec_segment ≡ none → (s.head == s.tail) ≡ false)
    → Recorded (positions s.axes) (stepper_pulse_func env s)
unfolding pulsed
pulse_records env s a t q = elim (Option-cases s.exec_segment) [
  | inl e ↦
      rw (pulse_load env s e (q e), sym (loaded_positions s))
        (take_step_records env (load_segment (pulsed s)) (loaded_active s ∙ a) t)
  | inr (j, e) ↦ rw (pulse_on env s j e) (take_step_records env (pulsed s) a t)
]

-- While a probing cycle is active, the run of the interrupt that finds the probe triggered records
-- the position of every axis as it is in front of that run's step, ends the probing and asks for the
-- cancelling of the motion; whatever the runs behind it read, the record stays. The run is one that
-- has a segment, or takes one from the ring.
pub probe-Recorded :
    (env : Inputs) (envs : List Inputs) (s : Stepper)
    → s.probe_active ≡ true
    → env.probe_triggered ≡ true
    → (s.exec_segment ≡ none → (s.head == s.tail) ≡ false)
    → Recorded (positions s.axes) (run_isr (env ∷ envs) s)
probe-Recorded env envs s a t q =
    run_isr_keeps envs (positions s.axes) _ (pulse_records env s a t q)

at_rest :
    (env : Inputs) (s : Stepper)
    → s.exec_segment ≡ none
    → (s.head == s.tail) ≡ true
    → let t = stepper_pulse_func env s in
      (t.exec_segment ≡ none) × ((t.head == t.tail) ≡ true) × (positions t.axes ≡ positions s.axes)
unfolding stepper_pulse_func shut_down
at_rest env s e q = ground (arith, e, q)

run_at_rest :
    (envs : List Inputs) (s : Stepper)
    → s.exec_segment ≡ none
    → (s.head == s.tail) ≡ true
    → let t = run_isr envs s in (t.exec_segment ≡ none) × (positions t.axes ≡ positions s.axes)
run_at_rest [] s e q = (e, refl)
run_at_rest (env ∷ envs) s e q =
    let (e', q', same) = at_rest env s e q in
    let (done, all) = run_at_rest envs _ e' q' in (done, all ∙ same)

positions_stopped :
    (axes : List Axis)
    → positions (map (λ (a : Axis). record a { counter = 0; steps = 0 }) axes) ≡ positions axes
positions_stopped [] = refl
positions_stopped (a ∷ axes) = ap (λ (xs : List ℤ). a.position ∷ xs) (positions_stopped axes)

-- After `st_reset` nothing moves: whatever the interrupt reads in any number of runs, no axis changes
-- its position and no segment is in execution.
pub st_reset-positions :
    (envs : List Inputs) (s : Stepper)
    → let t = run_isr envs (st_reset s) in
      (t.exec_segment ≡ none) × (positions t.axes ≡ positions s.axes)
unfolding st_reset
st_reset-positions envs s =
    let (done, all) = run_at_rest envs (st_reset s) refl refl in
    (done, all ∙ positions_stopped s.axes)
