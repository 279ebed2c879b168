-- ===== src/Suspend.antt =====
-- Protocol.cpp (Grbl_Esp32/src): `protocol_exec_rt_suspend`, the loop in which a suspended machine
-- waits, with `mc_parking_motion` (MotionControl.cpp) and `delay_msec` (NutsBolts.cpp).
-- PARKING_ENABLE is defined, as in Config.h. The runs of `protocol_exec_rt_system` inside the loop
-- are given as a list, one function for each run, with the calls that it makes; what the loop reads
-- of the rest of the machine is a value for each round. The calls are logged, the last one first, each
-- with the system as it is at the call. Of a position the parking axis is kept: a type P with
-- ParkingOps.
pub mod Loop
pub mod Calls
pub mod Closed
pub mod Off
mod Tests
use grbl_esp.Base.{
  ℕ, zero, suc, ◌+◌, ◌-◌, ◌*◌, ◌/◌, ◌%◌, ◌^◌, ◌≤◌, ◌<◌, min, max, ◌≡◌, refl, sym, ap, ap₂, ◌∙◌, ◌≢◌,
  ◌↔◌, ◌⊎◌, inl, inr, Bool, true, false, not, ◌&&◌, ◌||◌, Option, none, some, List, [], ◌∷◌, ◌++◌,
  map, append-nil, append_assoc, arith, ltb, leb, ◌==◌, if◌then◌else◌, ltb→lt, lt→ltb, leb→le,
  ==_iff, tests, Bool-cases, Option-cases, if_true, if_false, length, get_elem?, set, length-append,
  length-set, get_elem?-set_self, get_elem?-set_ne, get_or, take, drop, replicate, take-append-drop,
  length-take, length-drop, length-replicate, length-map,
}
use grbl_esp.System.{
  System, State, ExecState, Suspend, SpindleStop, same_state, is_suspended, is_stopping,
  no_spindle_stop,
}

pub record ParkingOps (P : Type 0) : Type 0 where
  pub less : P → P → Bool
  pub leq : P → P → Bool
  pub plus : P → P → P
  pub parking_target : P
  pub pullout_increment : P

-- The calls of a run of `protocol_exec_rt_system` on spindle and coolant, where an override asks for
-- them: `spindle->set_rpm`, which enables the spindle, and `coolant_set_state`.
pub data RtCall : Type 0 where
  spindle_set_rpm coolant_set_state : RtCall

-- a run: what it makes of the system, and its calls, the first one first
abbrev pub Pass : Type 0
Pass = System → System × List RtCall

pub data SuspendCall (P : Type 0) : Type 0 where
  spindle_off spindle_restore coolant_off coolant_restore : SuspendCall P
  -- `coolant_set_state` with no coolant
  coolant_clear : SuspendCall P
  -- the parking motions: the slow retract, the fast one, the fast restore and the slow plunge
  pull_out park pull_back plunge : P → SuspendCall P
  go_idle sleep_message restore_message : SuspendCall P
  parking_setup prep_buffer wake_up parking_restore : SuspendCall P
  -- a call that a run of `protocol_exec_rt_system` makes
  rt : RtCall → SuspendCall P

-- What one round reads: the parking axis' position, `can_park()`, the laser mode, the door, the
-- parser's spindle and coolant, whether the planner takes a parking motion, the coolant's delay in
-- milliseconds, and what a call makes of the system.
pub record Reads (P : Type 0) : Type 0 where
  pub position : P
  pub can_park : Bool
  pub in_laser_mode : Bool
  pub door_ajar : Bool
  pub gc_spindle_on : Bool
  pub gc_coolant_on : Bool
  pub plan_status : Bool
  pub coolant_delay : ℕ
  pub effect : SuspendCall P → System → System

-- The system, the log, the runs of `protocol_exec_rt_system` to come, and the local variables.
pub record Suspended (P : Type 0) : Type 0 where
  pub sys : System
  pub calls : List (SuspendCall P × System)
  pub passes : List Pass
  pub jog_in_flight : Bool
  pub restore_target : P
  pub retract_waypoint : P

-- How far a piece of the loop has come: it is done, or the runs or reads that are given end while it
-- waits.
pub data Progress (P : Type 0) : Type 0 where
  done waits : Suspended P → Progress P

module _ {P : Type 0} where
  abbrev pub log : Reads P → SuspendCall P → Suspended P → Suspended P
  log r c m = record m { calls = (c, m.sys) ∷ m.calls; sys = r.effect c m.sys }

  abbrev pub logged :
      System → List RtCall → List (SuspendCall P × System) → List (SuspendCall P × System)
  logged s [] calls = calls
  logged s (c ∷ cs) calls = logged s cs ((rt c, s) ∷ calls)

  -- a run, with the runs behind it
  abbrev pub run_pass : Pass → List Pass → Suspended P → Suspended P
  run_pass pass rest m = record m {
    sys = (pass m.sys).0;
    calls = logged (pass m.sys).0 (pass m.sys).1 m.calls;
    passes = rest;
  }

  abbrev pub with_sys : (System → System) → Suspended P → Suspended P
  with_sys f m = record m { sys = f m.sys }

  abbrev pub and_then : Progress P → (Suspended P → Progress P) → Progress P
  and_then (waits m) next = waits m
  and_then (done m) next = next m

  -- one run of `protocol_exec_rt_system`; it waits where the list of runs ends
  unfoldable pub exec_rt_system : Suspended P → Progress P
  exec_rt_system m = elim m.passes [ [] ↦ waits m | pass ∷ rest ↦ done (run_pass pass rest m) ]

  -- the loop of `mc_parking_motion`, and the one of a sleeping machine
  unfoldable pub wait_motion : Reads P → List Pass → Suspended P → Progress P
  wait_motion r [] m = waits m
  wait_motion r (pass ∷ rest) m =
      let t = run_pass pass rest m in
      let later = wait_motion r rest t in
      if t.sys.abort
      then done t
      else if t.sys.step_control.execute_sys_motion
      then later
      else done (log r parking_restore t)

  unfoldable pub wait_abort : List Pass → Suspended P → Progress P
  wait_abort [] m = if m.sys.abort then done m else waits m
  wait_abort (pass ∷ rest) m =
      let later = wait_abort rest (run_pass pass rest m) in if m.sys.abort then done m else later

  unfoldable pub mc_parking_motion : Reads P → SuspendCall P → Suspended P → Progress P
  unfolding wait_motion exec_rt_system
  mc_parking_motion r c m =
      if m.sys.abort
      then done m
      else (let t = log r c m in
          if r.plan_status
          then (let u = log r wake_up (
                log r prep_buffer (
                  log r parking_setup (
                    with_sys
                      (λ s. record s {
                        step_control = record s.step_control {
                          execute_sys_motion = true;
                          end_motion = false;
                        };
                      })
                      t))) in
              wait_motion r u.passes u)
          else exec_rt_system (
              with_sys
                (λ s. record s {
                  step_control = record s.step_control { execute_sys_motion = false };
                })
                t))

  -- `delay_msec` in the mode SysSuspend, by the number of its steps
  unfoldable pub delay_msec : ℕ → Suspended P → Progress P
  unfolding exec_rt_system
  delay_msec zero m = done m
  delay_msec (suc n) m =
      if m.sys.abort
      then done m
      else and_then (exec_rt_system m) (λ t.
        let later = delay_msec n t in if t.sys.suspend.restart_retract then done t else later)
