-- ===== src/Protocol/Transitions.antt =====
-- The states that each piece of protocol_exec_rt_system (Protocol.cpp) can lead to.
use grbl_esp.Base.{
  ◌≡◌, refl, sym, ap, ◌∙◌, ◌⊎◌, inl, inr, Bool, true, false, ◌||◌, arith, Bool-cases, if_true,
  if_false,
}
use grbl_esp.System.{System, State, ExecState, same_state}
use grbl_esp.Subsystems.{Subsystems, PrepKeeps}
use grbl_esp.Protocol.Hold.{
  start_hold, idle_hold, motion_cancel, feed_hold, restart_retract, open_door, safety_door,
  hold_flags, exec_sleep, exec_hold,
}
use grbl_esp.Protocol.{
  motion_overrides, spindle_override, stop_override, flood_override, mist_override, exec_overrides,
  reload_buffer, pending_flags, exec_pending,
}

-- what the overrides and the segment buffer leave alone
pub record SameCore (s t : System) : Type 0 where
  pub state : t.state ≡ s.state
  pub suspend : t.suspend ≡ s.suspend
  pub abort : t.abort ≡ s.abort
  pub exec_state : t.rt_exec_state ≡ s.rt_exec_state
  pub cycle_stop : t.cycle_stop ≡ s.cycle_stop

SameCore-trans : {s t u : System} → SameCore s t → SameCore t u → SameCore s u
SameCore-trans p q = record {
  state = q.state ∙ p.state;
  suspend = q.suspend ∙ p.suspend;
  abort = q.abort ∙ p.abort;
  exec_state = q.exec_state ∙ p.exec_state;
  cycle_stop = q.cycle_stop ∙ p.cycle_stop;
}

module _ {W : Type 0} (sub : Subsystems W) (flood_pin mist_pin : Bool) where
  motion_overrides-SameCore :
      (s : System) (w : W) → SameCore s (motion_overrides sub flood_pin mist_pin s w).0
  unfolding motion_overrides
  motion_overrides-SameCore s w = ground arith

  spindle_override-SameCore :
      (s : System) (w : W) → SameCore s (spindle_override sub flood_pin mist_pin s w).0
  unfolding spindle_override
  spindle_override-SameCore s w = ground arith

  stop_override-SameCore : (s : System) → SameCore s (stop_override sub flood_pin mist_pin s)
  unfolding stop_override
  stop_override-SameCore s = ground arith

  flood_override-SameCore :
      (s : System) (w : W) → SameCore s (flood_override sub flood_pin mist_pin s w).0
  unfolding flood_override
  flood_override-SameCore s w = ground arith

  mist_override-SameCore :
      (s : System) (w : W) → SameCore s (mist_override sub flood_pin mist_pin s w).0
  unfolding mist_override
  mist_override-SameCore s w = ground arith

  pub exec_overrides-SameCore :
      (s : System) (w : W) → SameCore s (exec_overrides sub flood_pin mist_pin s w).0
  unfolding exec_overrides
  exec_overrides-SameCore s w =
      let p = motion_overrides sub flood_pin mist_pin s w in
      let q = spindle_override sub flood_pin mist_pin p.0 p.1 in
      let t = stop_override sub flood_pin mist_pin q.0 in
      let r = flood_override sub flood_pin mist_pin t q.1 in
      SameCore-trans (motion_overrides-SameCore s w) (
        SameCore-trans (spindle_override-SameCore p.0 p.1) (
          SameCore-trans (stop_override-SameCore q.0)
            (SameCore-trans (flood_override-SameCore t q.1) (mist_override-SameCore r.0 r.1))))

  pub reload_buffer-SameCore :
      PrepKeeps sub → (s : System) (w : W) → SameCore s (reload_buffer sub flood_pin mist_pin s w).0
  unfolding reload_buffer
  reload_buffer-SameCore pk s w = ground (arith, pk.keeps s w)

  exec_pending-running :
      (s : System) (w : W)
      → s.rt_exec_state.reset ≡ false
      → exec_pending sub flood_pin mist_pin s w ≡ (
          let (s₁, w₁) = pending_flags sub flood_pin mist_pin s w in
          let (s₂, w₂) = exec_overrides sub flood_pin mist_pin s₁ w₁ in
          reload_buffer sub flood_pin mist_pin s₂ w₂)
  unfolding exec_pending
  exec_pending-running s w h = if_false _ _ h

  pub exec_pending-reset :
      (s : System) (w : W)
      → s.rt_exec_state.reset ≡ true
      → exec_pending sub flood_pin mist_pin s w ≡ (record s { abort = true }, w)
  unfolding exec_pending
  exec_pending-reset s w h = if_true _ _ h

  -- Without a reset, what the flags leave is the core of the result.
  pub exec_pending-SameCore :
      PrepKeeps sub
      → (s : System) (w : W) → s.rt_exec_state.reset ≡ false
      → SameCore
          (pending_flags sub flood_pin mist_pin s w).0
          (exec_pending sub flood_pin mist_pin s w).0
  exec_pending-SameCore pk s w h =
      let p = pending_flags sub flood_pin mist_pin s w in
      let q = exec_overrides sub flood_pin mist_pin p.0 p.1 in
      rw (exec_pending-running s w h)
        (SameCore-trans (exec_overrides-SameCore p.0 p.1) (reload_buffer-SameCore pk q.0 q.1))

-- no feed hold: the machine is locked, in check mode, or stopped or jogging already
abbrev pub cannot_hold : State → Bool
cannot_hold st =
    same_state st State.alarm
    || same_state st State.check_mode
    || same_state st State.safety_door
    || same_state st State.jog
    || same_state st State.sleep

-- the door has no effect on the state
abbrev pub cannot_open : State → Bool
cannot_open st =
    same_state st State.alarm || same_state st State.check_mode || same_state st State.sleep

-- Where the hold flags can lead a machine: nowhere else, or to the state that one of them asks for,
-- where the state allows it.
pub data HoldStep (rt : ExecState) (from to : State) : Type 0 where
  stay : to ≡ from → HoldStep rt from to
  to_hold : rt.feed_hold ≡ true → cannot_hold from ≡ false → to ≡ State.hold → HoldStep rt from to
  to_door :
      rt.safety_door ≡ true
      → cannot_open from ≡ false
      → to ≡ State.safety_door
      → HoldStep rt from to
  to_sleep : rt.sleep ≡ true → to ≡ State.sleep → HoldStep rt from to

-- one piece of the holds: no change, or its own state under its own conditions
abbrev Piece : Bool → Bool → State → State → State → Type 0
Piece flag blocked target from to =
    (to ≡ from) ⊎ ((flag ≡ true) × (blocked ≡ false) × (to ≡ target))

module _ {W : Type 0} (sub : Subsystems W) where
  start_hold-state :
      (rt : ExecState) (s : System) (w : W) → (start_hold sub rt s w).0.state ≡ s.state
  unfolding start_hold
  start_hold-state rt s w = ground arith

  idle_hold-state : (s : System) → (idle_hold s).state ≡ s.state
  unfolding idle_hold
  idle_hold-state s = ground arith

  motion_cancel-state : (rt : ExecState) (s : System) → (motion_cancel rt s).state ≡ s.state
  unfolding motion_cancel
  motion_cancel-state rt s = ground arith

  feed_hold-Piece :
      (rt : ExecState) (s : System)
      → Piece rt.feed_hold
          (same_state s.state State.safety_door
            || same_state s.state State.jog
            || same_state s.state State.sleep)
          State.hold
          s.state
          (feed_hold rt s).state
  unfolding feed_hold
  feed_hold-Piece rt s = ground arith

  safety_door-Piece :
      (rt : ExecState) (s : System) (w : W)
      → Piece rt.safety_door
          (same_state s.state State.sleep)
          State.safety_door
          s.state
          (safety_door sub rt s w).0.state
  unfolding safety_door open_door restart_retract
  safety_door-Piece rt s w = ground arith

  exec_sleep-Piece :
      (rt : ExecState) (s : System)
      → Piece rt.sleep false State.sleep s.state (exec_sleep rt s).state
  unfolding exec_sleep
  exec_sleep-Piece rt s = ground arith

-- a feed hold and then the door, on a machine that is not locked
HoldStep-pieces :
    (rt : ExecState) (a b c : State)
    → (same_state a State.alarm || same_state a State.check_mode) ≡ false
    → Piece rt.feed_hold
        (same_state a State.safety_door || same_state a State.jog || same_state a State.sleep)
        State.hold
        a
        b
    → Piece rt.safety_door (same_state b State.sleep) State.safety_door b c
    → HoldStep rt a c
HoldStep-pieces rt a b c u (inl d) (inl e) = stay (e ∙ d)
HoldStep-pieces rt a b c u (inl d) (inr (f, n, e)) =
    let m = ap (λ (x : State). same_state x State.sleep) (sym d) ∙ n in to_door f (ground arith) e
HoldStep-pieces rt a b c u (inr (f, n, d)) (inl e) = to_hold f (ground arith) (e ∙ d)
HoldStep-pieces rt a b c u (inr (f, n, d)) (inr (g, m, e)) = to_door g (ground arith) e

HoldStep-sleep :
    (rt : ExecState) (a b c : State)
    → HoldStep rt a b
    → Piece rt.sleep false State.sleep b c
    → HoldStep rt a c
HoldStep-sleep rt a b c p (inr (f, n, e)) = to_sleep f e
HoldStep-sleep rt a b c (stay d) (inl e) = stay (e ∙ d)
HoldStep-sleep rt a b c (to_hold f n d) (inl e) = to_hold f n (e ∙ d)
HoldStep-sleep rt a b c (to_door f n d) (inl e) = to_door f n (e ∙ d)
HoldStep-sleep rt a b c (to_sleep f d) (inl e) = to_sleep f (e ∙ d)

HoldStep-from : {rt : ExecState} {a b c : State} → a ≡ b → HoldStep rt a c → HoldStep rt b c
HoldStep-from e h = rw (sym e) h

module _ {W : Type 0} (sub : Subsystems W) where
  hold_flags-HoldStep :
      (rt : ExecState) (s : System) (w : W) → HoldStep rt s.state (hold_flags sub rt s w).0.state
  unfolding hold_flags
  hold_flags-HoldStep rt s w =
      elim (Bool-cases (same_state s.state State.alarm || same_state s.state State.check_mode)) [
        | inl e ↦ rw (if_true _ _ e) (stay refl)
        | inr e ↦
            let p = start_hold sub rt s w in
            let t = motion_cancel rt (idle_hold p.0) in
            let same : t.state ≡ s.state =
              motion_cancel-state sub rt (idle_hold p.0)
              ∙ idle_hold-state sub p.0
              ∙ start_hold-state sub rt s w in
            let free : (same_state t.state State.alarm || same_state t.state State.check_mode)
                ≡ false =
              ap (λ (x : State). same_state x State.alarm || same_state x State.check_mode) same
              ∙ e in
            rw (if_false _ _ e) (
              HoldStep-from same (
                HoldStep-pieces rt _ _ _ free (feed_hold-Piece sub rt t)
                  (safety_door-Piece sub rt (feed_hold rt t) p.1)))
      ]

  -- The hold flags lead the machine nowhere but into Hold (a feed hold, unless it is in alarm, in
  -- check mode, jogging, asleep or stopped by the door), into SafetyDoor (an open door, unless it is
  -- in alarm, in check mode or asleep) or into Sleep, each only if its flag is pending.
  pub exec_hold-HoldStep :
      (rt : ExecState) (s : System) (w : W) → HoldStep rt s.state (exec_hold sub rt s w).0.state
  unfolding exec_hold
  exec_hold-HoldStep rt s w =
      elim (Bool-cases (rt.motion_cancel || rt.feed_hold || rt.safety_door || rt.sleep)) [
        | inl e ↦ rw e (
            HoldStep-sleep rt _ _ _ (hold_flags-HoldStep rt s w)
              (exec_sleep-Piece sub rt (hold_flags sub rt s w).0))
        | inr e ↦ rw e (stay refl)
      ]
