-- ===== src/Protocol/Critical.antt =====
-- The halt on a hard or soft limit in protocol_exec_rt_system (Protocol.cpp).
use grbl_esp.Base.{
  ◌≡◌, refl, ap, ◌∙◌, inl, inr, Bool, true, false, not, none, some, List, [], ◌∷◌, ◌++◌, Bool-cases,
  if_true, if_false,
}
use grbl_esp.System.{System, State, ExecAlarm, is_critical, is_alarm}
use grbl_esp.Subsystems.{Subsystems, Report}
use grbl_esp.Protocol.{wait_reset, exec_alarm, protocol_exec_rt_system}
use grbl_esp.Protocol.Transitions.{exec_pending-reset}

-- no interrupt of the list sets the reset flag
abbrev pub NoReset : List (System → System) → System → Type 0
NoReset [] s = Unit
NoReset (f ∷ rest) s = ((f s).rt_exec_state.reset ≡ false) × NoReset rest (f s)

wait_reset-none :
    (interrupts : List (System → System)) (s : System)
    → NoReset interrupts s
    → wait_reset interrupts s ≡ none
unfolding wait_reset
wait_reset-none [] s h = refl
wait_reset-none (f ∷ rest) s (h, more) = if_false _ _ h ∙ wait_reset-none rest (f s) more

-- the loop ends at the latest with an interrupt that sets the flag
wait_reset_ends :
    (before after : List (System → System)) (f : System → System) (s : System)
    → ((t : System) → (f t).rt_exec_state.reset ≡ true)
    → (t : System) × (wait_reset (before ++ (f ∷ after)) s ≡ some t)
      × (t.rt_exec_state.reset ≡ true)
unfolding wait_reset
wait_reset_ends [] after f s sets = (f s, if_true _ _ (sets s), sets s)
wait_reset_ends (g ∷ before) after f s sets = elim (Bool-cases (g s).rt_exec_state.reset) [
  | inl e ↦ (g s, if_true _ _ e, e)
  | inr e ↦
      let (t, run, reset) = wait_reset_ends before after f (g s) sets in
      (t, if_false _ _ e ∙ run, reset)
]

-- the state in which the loop is entered
abbrev pub halted : System → System
halted s = record s {
  state = State.alarm;
  rt_exec_state = record s.rt_exec_state { reset = false };
}

critical_is_alarm : (a : ExecAlarm) → is_critical a ≡ true → is_alarm a ≡ true
critical_is_alarm ExecAlarm.no_alarm h = h
critical_is_alarm _ h = refl

module _ {W : Type 0} (sub : Subsystems W) (flood_pin mist_pin : Bool) where
  exec_alarm-critical :
      (interrupts : List (System → System)) (s : System) (w : W)
      → is_critical s.rt_exec_alarm ≡ true
      → exec_alarm sub flood_pin mist_pin interrupts s w ≡ elim (wait_reset interrupts (halted s)) [
        | none ↦ none
        | some t ↦ some (
          record t { rt_exec_alarm = ExecAlarm.no_alarm },
          sub.report Report.critical_event (sub.report (Report.alarm_message s.rt_exec_alarm) w),
        )
      ]
  unfolding exec_alarm
  exec_alarm-critical interrupts s w h =
      let no_bypass : not (is_alarm s.rt_exec_alarm) ≡ false =
        rw (critical_is_alarm s.rt_exec_alarm h) in
      if_false _ _ no_bypass ∙ if_true _ _ h

  -- On a hard or soft limit the pass does not return as long as no interrupt sets the reset flag,
  -- a reset that was pending before included.
  pub critical-waits :
      (interrupts : List (System → System)) (s : System) (w : W)
      → is_critical s.rt_exec_alarm ≡ true
      → NoReset interrupts (halted s)
      → protocol_exec_rt_system sub flood_pin mist_pin interrupts s w ≡ none
  unfolding protocol_exec_rt_system
  critical-waits interrupts s w h quiet = rw (
    exec_alarm-critical interrupts s w h,
    wait_reset-none interrupts (halted s) quiet,
    protocol_exec_rt_system,
  )

  -- Once an interrupt sets the reset flag, the pass on a hard or soft limit returns, with the abort
  -- flag set and the alarm acknowledged.
  pub critical-aborts :
      (before after : List (System → System)) (f : System → System) (s : System) (w : W)
      → is_critical s.rt_exec_alarm ≡ true
      → ((t : System) → (f t).rt_exec_state.reset ≡ true)
      → (t : System) × (v : W) × (protocol_exec_rt_system sub flood_pin mist_pin
            (before ++ (f ∷ after))
            s
            w
          ≡ some (t, v))
        × (t.abort ≡ true)
        × (t.rt_exec_alarm ≡ ExecAlarm.no_alarm)
  unfolding protocol_exec_rt_system
  critical-aborts before after f s w h sets =
      let (t, run, reset) = wait_reset_ends before after f (halted s) sets in
      let t' = record t { rt_exec_alarm = ExecAlarm.no_alarm } in
      let w' =
        sub.report Report.critical_event (sub.report (Report.alarm_message s.rt_exec_alarm) w) in
      (
        record t' { abort = true },
        w',
        rw (exec_alarm-critical (before ++ (f ∷ after)) s w h, run, protocol_exec_rt_system)
            (ap some (exec_pending-reset sub flood_pin mist_pin t' w' reset)),
        refl,
        refl,
      )
