-- ===== src/Protocol/Door.antt =====
-- The safety door in protocol_exec_rt_system (Protocol.cpp).
use grbl_esp.Base.{◌≡◌, ap, ◌∙◌, Bool, true, false, ◌||◌, arith, if_true}
use grbl_esp.System.{System, State, ExecState, same_state, any_exec}
use grbl_esp.Subsystems.{Subsystems, PrepKeeps}
use grbl_esp.Protocol.{status_report, exec_flags, pending_flags, exec_pending}
use grbl_esp.Protocol.Hold.{
  start_hold, idle_hold, motion_cancel, feed_hold, restart_retract, open_door, safety_door,
  hold_flags, exec_sleep, exec_hold,
}
use grbl_esp.Protocol.Cycle.{exec_cycle_start, stop_hold, flush_jog, stop_motion, exec_cycle_stop}
use grbl_esp.Protocol.Transitions.{exec_pending-SameCore}

-- The machine stands in SafetyDoor or Sleep, and remembers that the door is open.
pub record IsOpen (s : System) : Type 0 where
  pub state : (same_state s.state State.safety_door || same_state s.state State.sleep) ≡ true
  pub ajar : s.suspend.safety_door_ajar ≡ true

-- no jog, and no jog cancel under way
pub record NoJog (s : System) : Type 0 where
  pub state : same_state s.state State.jog ≡ false
  pub jog_cancel : s.suspend.jog_cancel ≡ false

module _ {W : Type 0} (sub : Subsystems W) where
  start_hold-NoJog :
      (rt : ExecState) (s : System) (w : W) → NoJog s → NoJog (start_hold sub rt s w).0
  unfolding start_hold
  start_hold-NoJog rt s w h = ground arith

  idle_hold-NoJog : (s : System) → NoJog s → NoJog (idle_hold s)
  unfolding idle_hold
  idle_hold-NoJog s h = ground arith

  motion_cancel-NoJog : (rt : ExecState) (s : System) → NoJog s → NoJog (motion_cancel rt s)
  unfolding motion_cancel
  motion_cancel-NoJog rt s h = ground arith

  feed_hold-NoJog : (rt : ExecState) (s : System) → NoJog s → NoJog (feed_hold rt s)
  unfolding feed_hold
  feed_hold-NoJog rt s h = ground arith

  safety_door-IsOpen :
      (rt : ExecState) (s : System) (w : W)
      → rt.safety_door ≡ true
      → NoJog s
      → IsOpen (safety_door sub rt s w).0
  unfolding safety_door open_door restart_retract
  safety_door-IsOpen rt s w flag h = ground arith

  exec_sleep-IsOpen : (rt : ExecState) (s : System) → IsOpen s → IsOpen (exec_sleep rt s)
  unfolding exec_sleep
  exec_sleep-IsOpen rt s h = ground arith

  hold_flags-IsOpen :
      (rt : ExecState) (s : System) (w : W)
      → rt.safety_door ≡ true
      → (same_state s.state State.alarm || same_state s.state State.check_mode) ≡ false
      → NoJog s
      → IsOpen (hold_flags sub rt s w).0
  unfolding hold_flags
  hold_flags-IsOpen rt s w flag active h =
      let p = start_hold sub rt s w in
      let t = feed_hold rt (motion_cancel rt (idle_hold p.0)) in
      let quiet = feed_hold-NoJog rt (motion_cancel rt (idle_hold p.0)) (
        motion_cancel-NoJog rt (idle_hold p.0) (idle_hold-NoJog p.0 (start_hold-NoJog rt s w h))) in
      rw active (safety_door-IsOpen rt t p.1 flag quiet)

  exec_hold-IsOpen :
      (rt : ExecState) (s : System) (w : W)
      → rt.safety_door ≡ true
      → (same_state s.state State.alarm || same_state s.state State.check_mode) ≡ false
      → NoJog s
      → IsOpen (exec_hold sub rt s w).0
  unfolding exec_hold
  exec_hold-IsOpen rt s w flag active h =
      let asked : (rt.motion_cancel || rt.feed_hold || rt.safety_door || rt.sleep) ≡ true =
        ground arith in
      rw asked
        (exec_sleep-IsOpen rt (hold_flags sub rt s w).0 (hold_flags-IsOpen rt s w flag active h))

  exec_cycle_start-IsOpen :
      (rt : ExecState) (s : System) (w : W)
      → rt.safety_door ≡ true
      → IsOpen s
      → IsOpen (exec_cycle_start sub rt s w).0
  unfolding exec_cycle_start
  exec_cycle_start-IsOpen rt s w flag h = ground arith

  exec_cycle_stop-IsOpen : (s : System) (w : W) → IsOpen s → IsOpen (exec_cycle_stop sub s w).0
  unfolding exec_cycle_stop stop_hold stop_motion flush_jog
  exec_cycle_stop-IsOpen s w h = ground arith

module _ {W : Type 0} (sub : Subsystems W) (flood_pin mist_pin : Bool) where
  status_report-keeps :
      (rt : ExecState) (s : System) (w : W)
      → ((status_report sub flood_pin mist_pin rt s w).0.state ≡ s.state)
        × ((status_report sub flood_pin mist_pin rt s w).0.suspend ≡ s.suspend)
  unfolding status_report
  status_report-keeps rt s w = ground arith

  exec_flags-IsOpen :
      (rt : ExecState) (s : System) (w : W)
      → rt.safety_door ≡ true
      → (same_state s.state State.alarm || same_state s.state State.check_mode) ≡ false
      → NoJog s
      → IsOpen (exec_flags sub flood_pin mist_pin rt s w).0
  unfolding exec_flags
  exec_flags-IsOpen rt s w flag active h =
      let p = status_report sub flood_pin mist_pin rt s w in
      let q = exec_hold sub rt p.0 p.1 in
      let r = exec_cycle_start sub rt q.0 q.1 in
      let (st, sus) = status_report-keeps rt s w in
      exec_cycle_stop-IsOpen sub r.0 r.1 (
        exec_cycle_start-IsOpen sub rt q.0 q.1 flag (
          exec_hold-IsOpen sub rt p.0 p.1 flag
            (ap (λ x. same_state x State.alarm || same_state x State.check_mode) st ∙ active)
            (record {
              state = ap (λ x. same_state x State.jog) st ∙ h.state;
              jog_cancel = ap (λ x. x.jog_cancel) sus ∙ h.jog_cancel;
            })))

  -- An open door stops the machine whatever is pending beside it but a reset: unless it was in alarm,
  -- in check mode, jogging or in a jog cancel, it stands in SafetyDoor or Sleep behind the pass, with
  -- the door marked as ajar. It is assumed that `st_prep_buffer` keeps the machine's state.
  pub exec_pending-IsOpen :
      PrepKeeps sub
      → (s : System) (w : W) → s.rt_exec_state.reset ≡ false
      → s.rt_exec_state.safety_door ≡ true
      → (same_state s.state State.alarm || same_state s.state State.check_mode) ≡ false
      → NoJog s
      → IsOpen (exec_pending sub flood_pin mist_pin s w).0
  exec_pending-IsOpen pk s w live flag active h =
      let core = exec_pending-SameCore sub flood_pin mist_pin pk s w live in
      let open_flags = opened in
      record {
        state =
            ap (λ x. same_state x State.safety_door || same_state x State.sleep) core.state
            ∙ open_flags.state;
        ajar = ap (λ x. x.safety_door_ajar) core.suspend ∙ open_flags.ajar;
      }
    where
      any : (any_exec s.rt_exec_state || s.cycle_stop) ≡ true
      any = ground arith

      opened : IsOpen (pending_flags sub flood_pin mist_pin s w).0
      opened =
          unfold pending_flags in
          rw (if_true _ _ any) (exec_flags-IsOpen s.rt_exec_state s w flag active h)
