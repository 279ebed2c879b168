-- ===== src/Protocol/Safety.antt =====
-- When protocol_exec_rt_system (Protocol.cpp) starts a motion, and when it does not.
use grbl_esp.Base.{
  ◌≡◌, sym, ap, ◌∙◌, ◌≢◌, ◌⊎◌, inl, inr, Bool, true, false, not, ◌&&◌, ◌||◌, arith, Bool-cases,
}
use grbl_esp.System.{System, State, ExecState, same_state, any_exec}
use grbl_esp.Subsystems.{Subsystems, PrepKeeps}
use grbl_esp.Protocol.Hold.{
  start_hold, idle_hold, motion_cancel, feed_hold, restart_retract, open_door, safety_door,
  hold_flags, exec_sleep, exec_hold,
}
use grbl_esp.Protocol.Cycle.{
  resume_door, start_motion, start_cycle, exec_cycle_start, stop_hold, flush_jog, stop_motion,
  exec_cycle_stop,
}
use grbl_esp.Protocol.Transitions.{
  stay, to_hold, to_door, to_sleep, exec_hold-HoldStep, exec_pending-SameCore, exec_pending-reset,
}
use grbl_esp.Protocol.{status_report, exec_flags, pending_flags, exec_pending}

-- at rest, holding with the hold complete, or behind a closed door with the restore complete
abbrev pub can_start : System → Bool
can_start s =
    same_state s.state State.idle
    || same_state s.state State.hold && s.suspend.hold_complete
    || same_state s.state State.safety_door
      && not s.suspend.safety_door_ajar
      && s.suspend.restore_complete

-- a cycle start that no hold, cancel or door flag blocks
abbrev pub start_asked : ExecState → Bool
start_asked rt = rt.cycle_start && not (rt.feed_hold || rt.motion_cancel || rt.safety_door)

can_start_of :
    (s t : System)
    → t.state ≡ s.state
    → t.suspend ≡ s.suspend
    → can_start t ≡ true
    → can_start s ≡ true
can_start_of s t e f h = rw (← e, ← f) h

not_asleep : (s : System) → can_start s ≡ true → s.state ≢ State.sleep
not_asleep s h e = let f : false ≡ true = rw e at h in cc

module _ {W : Type 0} (sub : Subsystems W) where
  not_asked :
      (rt : ExecState) (s : System) (w : W)
      → start_asked rt ≡ false
      → (exec_cycle_start sub rt s w).0.state ≡ s.state
  unfolding exec_cycle_start
  not_asked rt s w h = ground arith

  not_ready :
      (rt : ExecState) (s : System) (w : W)
      → can_start s ≡ false
      → (exec_cycle_start sub rt s w).0.state ≡ s.state
  unfolding exec_cycle_start start_cycle resume_door
  not_ready rt s w h = ground arith

  -- Only a cycle start that is asked for in a state that can start brings the state Cycle about.
  exec_cycle_start-state :
      (rt : ExecState) (s : System) (w : W)
      → (exec_cycle_start sub rt s w).0.state ≡ State.cycle
      → (s.state ≡ State.cycle) ⊎ ((start_asked rt ≡ true) × (can_start s ≡ true))
  exec_cycle_start-state rt s w h = elim (Bool-cases (start_asked rt)) [
    | inl asked ↦ elim (Bool-cases (can_start s)) [
      | inl ready ↦ inr (asked, ready)
      | inr e ↦ inl (sym (not_ready rt s w e) ∙ h)
    ]
    | inr e ↦ inl (sym (not_asked rt s w e) ∙ h)
  ]

  -- A cycle stop never leads to Cycle.
  exec_cycle_stop-state :
      (s : System) (w : W) → (exec_cycle_stop sub s w).0.state ≡ State.cycle → s.state ≡ State.cycle
  unfolding exec_cycle_stop stop_hold stop_motion flush_jog
  exec_cycle_stop-state s w h = ground arith

  -- Without a hold, cancel or door flag, the hold block does nothing or puts the system to sleep.
  no_hold :
      (rt : ExecState) (s : System) (w : W)
      → (rt.feed_hold || rt.motion_cancel || rt.safety_door) ≡ false
      → ((exec_hold sub rt s w).0 ≡ s) ⊎ ((exec_hold sub rt s w).0.state ≡ State.sleep)
  unfolding exec_hold exec_sleep
  no_hold rt s w h = elim (Bool-cases rt.sleep) [
    | inl e ↦ inr (ground arith)
    | inr e ↦ inl (ground arith)
  ]

module _ {W : Type 0} (sub : Subsystems W) (flood_pin mist_pin : Bool) where
  status_report-SameCore :
      (rt : ExecState) (s : System) (w : W)
      → ((status_report sub flood_pin mist_pin rt s w).0.state ≡ s.state)
        × ((status_report sub flood_pin mist_pin rt s w).0.suspend ≡ s.suspend)
  unfolding status_report
  status_report-SameCore rt s w = ground arith

  -- the block of flags
  exec_flags-cycle :
      (rt : ExecState) (s : System) (w : W)
      → (exec_flags sub flood_pin mist_pin rt s w).0.state ≡ State.cycle
      → (s.state ≡ State.cycle) ⊎ ((start_asked rt ≡ true) × (can_start s ≡ true))
  unfolding exec_flags
  exec_flags-cycle rt s w h =
      let p = status_report sub flood_pin mist_pin rt s w in
      let q = exec_hold sub rt p.0 p.1 in
      let r = exec_cycle_start sub rt q.0 q.1 in
      let kept = status_report-SameCore rt s w in
      elim (exec_cycle_start-state sub rt q.0 q.1 (exec_cycle_stop-state sub r.0 r.1 h)) [
        | inl e ↦ elim (exec_hold-HoldStep sub rt p.0 p.1) [
          | stay k ↦ inl (sym (k ∙ kept.0) ∙ e)
          | to_hold f n k ↦ cc (sym k ∙ e)
          | to_door f n k ↦ cc (sym k ∙ e)
          | to_sleep f k ↦ cc (sym k ∙ e)
        ]
        | inr (asked, ready) ↦ elim (no_hold sub rt p.0 p.1 (ground arith)) [
          | inl same ↦ inr (
            asked,
            can_start_of s q.0 (ap (λ t. t.state) same ∙ kept.0) (ap (λ t. t.suspend) same ∙ kept.1)
                ready,
          )
          | inr asleep ↦ absurd (not_asleep q.0 ready asleep)
        ]
      ]

  pending_flags-cycle :
      (s : System) (w : W)
      → (pending_flags sub flood_pin mist_pin s w).0.state ≡ State.cycle
      → (s.state ≡ State.cycle) ⊎ ((start_asked s.rt_exec_state ≡ true) × (can_start s ≡ true))
  unfolding pending_flags
  pending_flags-cycle s w h = elim (Bool-cases (any_exec s.rt_exec_state || s.cycle_stop)) [
    | inl e ↦ exec_flags-cycle s.rt_exec_state s w (rw e at h)
    | inr e ↦ inl (rw e at h)
  ]

  -- Behind the alarms, the machine is running after a pass only if it was running before, or if a
  -- cycle start was asked for with no feed hold, motion cancel or door flag beside it, and the machine
  -- was idle, had completed its hold, or stood behind a closed door with the restore complete.
  pub exec_pending-cycle :
      PrepKeeps sub
      → (s : System) (w : W) → (exec_pending sub flood_pin mist_pin s w).0.state ≡ State.cycle
      → (s.state ≡ State.cycle) ⊎ ((start_asked s.rt_exec_state ≡ true) × (can_start s ≡ true))
  exec_pending-cycle pk s w h = elim (Bool-cases s.rt_exec_state.reset) [
    | inl e ↦ inl (ap (λ p. p.0.state) (sym (exec_pending-reset sub flood_pin mist_pin s w e)) ∙ h)
    | inr e ↦
        pending_flags-cycle s w
          (sym (exec_pending-SameCore sub flood_pin mist_pin pk s w e).state ∙ h)
  ]

-- `sys.abort` passes through the pieces.
module _ {W : Type 0} (sub : Subsystems W) where
  start_motion-abort :
      PrepKeeps sub → (s : System) (w : W) → (start_motion sub s w).0.abort ≡ s.abort
  unfolding start_motion
  start_motion-abort pk s w =
      elim (Bool-cases (sub.plan_has_block w && not s.suspend.motion_cancel)) [
        | inl e ↦ rw e (rw (pk.keeps _ w))
        | inr e ↦ rw e
      ]

  start_cycle-abort : PrepKeeps sub → (s : System) (w : W) → (start_cycle sub s w).0.abort ≡ s.abort
  unfolding start_cycle
  start_cycle-abort pk s w = ground (arith, start_motion-abort pk s w)

  resume_door-abort : (s : System) → (resume_door s).abort ≡ s.abort
  unfolding resume_door
  resume_door-abort s = ground arith

  exec_cycle_start-abort :
      PrepKeeps sub
      → (rt : ExecState) (s : System) (w : W) → (exec_cycle_start sub rt s w).0.abort ≡ s.abort
  unfolding exec_cycle_start
  exec_cycle_start-abort pk rt s w =
      ground (arith, start_cycle-abort pk (resume_door s) w, resume_door-abort s)

  exec_cycle_stop-abort : (s : System) (w : W) → (exec_cycle_stop sub s w).0.abort ≡ s.abort
  unfolding exec_cycle_stop stop_hold stop_motion flush_jog
  exec_cycle_stop-abort s w = ground arith

  start_hold-abort :
      (rt : ExecState) (s : System) (w : W) → (start_hold sub rt s w).0.abort ≡ s.abort
  unfolding start_hold
  start_hold-abort rt s w = ground arith

  idle_hold-abort : (s : System) → (idle_hold s).abort ≡ s.abort
  unfolding idle_hold
  idle_hold-abort s = ground arith

  motion_cancel-abort : (rt : ExecState) (s : System) → (motion_cancel rt s).abort ≡ s.abort
  unfolding motion_cancel
  motion_cancel-abort rt s = ground arith

  feed_hold-abort : (rt : ExecState) (s : System) → (feed_hold rt s).abort ≡ s.abort
  unfolding feed_hold
  feed_hold-abort rt s = ground arith

  safety_door-abort :
      (rt : ExecState) (s : System) (w : W) → (safety_door sub rt s w).0.abort ≡ s.abort
  unfolding safety_door open_door restart_retract
  safety_door-abort rt s w = ground arith

  hold_flags-abort :
      (rt : ExecState) (s : System) (w : W) → (hold_flags sub rt s w).0.abort ≡ s.abort
  unfolding hold_flags
  hold_flags-abort rt s w =
      let p = start_hold sub rt s w in
      let t = motion_cancel rt (idle_hold p.0) in
      ground (
        arith,
        safety_door-abort rt (feed_hold rt t) p.1,
        feed_hold-abort rt t,
        motion_cancel-abort rt (idle_hold p.0),
        idle_hold-abort p.0,
        start_hold-abort rt s w,
      )

  exec_hold-abort : (rt : ExecState) (s : System) (w : W) → (exec_hold sub rt s w).0.abort ≡ s.abort
  unfolding exec_hold exec_sleep
  exec_hold-abort rt s w = ground (arith, hold_flags-abort rt s w)

module _ {W : Type 0} (sub : Subsystems W) (flood_pin mist_pin : Bool) where
  status_report-abort :
      (rt : ExecState) (s : System) (w : W)
      → (status_report sub flood_pin mist_pin rt s w).0.abort ≡ s.abort
  unfolding status_report
  status_report-abort rt s w = ground arith

  exec_flags-abort :
      PrepKeeps sub
      → (rt : ExecState) (s : System) (w : W)
      → (exec_flags sub flood_pin mist_pin rt s w).0.abort ≡ s.abort
  unfolding exec_flags
  exec_flags-abort pk rt s w =
      let p = status_report sub flood_pin mist_pin rt s w in
      let q = exec_hold sub rt p.0 p.1 in
      let r = exec_cycle_start sub rt q.0 q.1 in
      exec_cycle_stop-abort sub r.0 r.1
      ∙ exec_cycle_start-abort sub pk rt q.0 q.1
      ∙ exec_hold-abort sub rt p.0 p.1
      ∙ status_report-abort rt s w

  pending_flags-abort :
      PrepKeeps sub
      → (s : System) (w : W) → (pending_flags sub flood_pin mist_pin s w).0.abort ≡ s.abort
  unfolding pending_flags
  pending_flags-abort pk s w = ground (arith, exec_flags-abort pk s.rt_exec_state s w)

  -- `sys.abort` is set by a pending reset and by nothing else.
  pub abort-exec_pending :
      PrepKeeps sub
      → (s : System) (w : W)
      → (exec_pending sub flood_pin mist_pin s w).0.abort ≡ (s.rt_exec_state.reset || s.abort)
  abort-exec_pending pk s w = elim (Bool-cases s.rt_exec_state.reset) [
    | inl e ↦ rw (exec_pending-reset sub flood_pin mist_pin s w e, e)
    | inr e ↦
        (exec_pending-SameCore sub flood_pin mist_pin pk s w e).abort
        ∙ pending_flags-abort pk s w
        ∙ ground arith
  ]
