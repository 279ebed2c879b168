-- ===== src/Suspend/Closed.antt =====
-- The safety door while a suspended machine restores itself (`protocol_exec_rt_suspend`,
-- Protocol.cpp).
use grbl_esp.Base.{
  ◌/◌, ◌≡◌, refl, ap, ◌∙◌, inl, inr, Bool, true, false, not, ◌&&◌, ◌||◌, List, [], ◌∷◌, arith,
  if◌then◌else◌, Bool-cases,
}
use grbl_esp.System.{System, State, same_state, is_suspended, no_spindle_stop}
use grbl_esp.Suspend.{
  Progress, done, waits, ParkingOps, SuspendCall, Reads, Suspended, log, with_sys, exec_rt_system,
  mc_parking_motion,
}
use grbl_esp.Suspend.Loop.{
  set_suspend, store_target, park_motion, retract_motion, retract, fast_restore, spindle_restart,
  coolant_restart, slow_restore, end_restore, restore, sleep, door, start_stop, end_stop,
  hold_manager, drop_jog, flagged, suspend_round, suspend_loop, protocol_exec_rt_suspend,
}
use grbl_esp.Suspend.Calls.{
  AllKeep, EffectKeeps, Ensures, all_closed, and_then-Ensures, delay-Ensures, exec-Ensures,
  if-Ensures, is_closed, is_parked, motion-Ensures, reached, reached-Closed, wait_abort-Ensures,
}

module _ {P : Type 0} (ops : ParkingOps P) where
  park-Ensures :
      (r : Reads P) (position : P) (m : Suspended P)
      → all_closed m.calls ≡ true
      → Ensures (park_motion ops r position m)
  unfolding park_motion
  park-Ensures r position m h =
      if-Ensures (ops.less position ops.parking_target) _ _
        (motion-Ensures r (SuspendCall.park ops.parking_target)
          (log r SuspendCall.coolant_clear (log r SuspendCall.spindle_off m)) refl h)
        h

  retract-Ensures :
      (r : Reads P) (m : Suspended P) → all_closed m.calls ≡ true → Ensures (retract_motion ops r m)
  unfolding retract_motion
  retract-Ensures r m h =
      if-Ensures (r.can_park && ops.less r.position ops.parking_target) _ _
        (if-Ensures (ops.less r.position m.retract_waypoint) _ _
          (and_then-Ensures (mc_parking_motion r (SuspendCall.pull_out m.retract_waypoint) m) _
            (motion-Ensures r (SuspendCall.pull_out m.retract_waypoint) m refl h)
            (λ t k. park-Ensures r m.retract_waypoint t k))
          (park-Ensures r r.position m h))
        h

  store_closed :
      (r : Reads P) (m : Suspended P)
      → all_closed m.calls ≡ true
      → all_closed (store_target ops r m).calls ≡ true
  unfolding store_target
  store_closed r m h = ground (arith, h)

  retract_all :
      (r : Reads P) (m : Suspended P) → all_closed m.calls ≡ true → Ensures (retract ops r m)
  unfolding retract
  retract_all r m h =
      let t = with_sys (λ s. record s { spindle_stop_ovr = no_spindle_stop }) m in
      and_then-Ensures (retract_motion ops r (store_target ops r t)) _
        (retract-Ensures r (store_target ops r t) (store_closed r t h)) (λ u k. k)

  fast-Ensures :
      (r : Reads P) (m : Suspended P) → all_closed m.calls ≡ true → Ensures (fast_restore ops r m)
  unfolding fast_restore
  fast-Ensures r m h =
      if-Ensures (r.can_park && ops.leq r.position ops.parking_target) _ (done m)
        (motion-Ensures r (SuspendCall.pull_back m.retract_waypoint) m refl h) h

  spindle_closed :
      (r : Reads P) (m : Suspended P)
      → all_closed m.calls ≡ true
      → all_closed (spindle_restart ops r m).calls ≡ true
  unfolding spindle_restart
  spindle_closed r m h = ground (arith, h)

  -- a call behind the test of the flag
  guarded_closed :
      (c : SuspendCall P) (b : Bool) (s : System)
      → (b && not s.suspend.restart_retract) ≡ true
      → is_closed c s ≡ true
  guarded_closed c b s h = ground (arith, h)

  coolant-Ensures :
      (r : Reads P) (m : Suspended P)
      → all_closed m.calls ≡ true
      → Ensures (coolant_restart ops r m)
  unfolding coolant_restart
  coolant-Ensures r m h = elim (Bool-cases (r.gc_coolant_on && not m.sys.suspend.restart_retract)) [
    | inl e ↦
        rw (e, Ensures)
          (delay-Ensures (r.coolant_delay / 50) (log r SuspendCall.coolant_restore m)
            (ground (arith, e, h)))
    | inr e ↦ rw (e, Ensures) h
  ]

  slow-Ensures :
      (r : Reads P) (m : Suspended P) → all_closed m.calls ≡ true → Ensures (slow_restore ops r m)
  unfolding slow_restore
  slow-Ensures r m h = elim (Bool-cases (r.can_park && not m.sys.suspend.restart_retract)) [
    | inl e ↦
        rw (e, Ensures)
          (motion-Ensures r (SuspendCall.plunge m.restore_target) m
            (guarded_closed (SuspendCall.plunge m.restore_target) r.can_park m.sys e) h)
    | inr e ↦ rw (e, Ensures) h
  ]

  end_calls : (m : Suspended P) → (end_restore ops m).calls ≡ m.calls
  unfolding end_restore
  end_calls m = ground arith

  restore-Ensures :
      (r : Reads P) (m : Suspended P) → all_closed m.calls ≡ true → Ensures (restore ops r m)
  unfolding restore
  restore-Ensures r m h =
      if-Ensures m.sys.suspend.initiate_restore _ (done m)
        (and_then-Ensures (fast_restore ops r m) _ (fast-Ensures r m h) (λ t k.
          and_then-Ensures (coolant_restart ops r (spindle_restart ops r t)) _
            (coolant-Ensures r _ (spindle_closed r t k))
            (λ u l.
              and_then-Ensures (slow_restore ops r u) _ (slow-Ensures r u l)
                (λ v n. ap all_closed (end_calls v) ∙ n))))
        h

  sleep-Ensures :
      (r : Reads P) (m : Suspended P) → all_closed m.calls ≡ true → Ensures (sleep ops r m)
  unfolding sleep
  sleep-Ensures r m h = wait_abort-Ensures m.passes _ h

  door_closed :
      (b : Bool) (m : Suspended P)
      → all_closed m.calls ≡ true
      → all_closed
          (if b then set_suspend ops (λ f. record f { safety_door_ajar = false }) m else m).calls
        ≡ true
  door_closed true m h = h
  door_closed false m h = h

  door-Ensures :
      (r : Reads P) (m : Suspended P) → all_closed m.calls ≡ true → Ensures (door ops r m)
  unfolding door
  door-Ensures r m h =
      restore-Ensures r _
        (door_closed (same_state m.sys.state State.safety_door && not r.door_ajar) m h)

  hold_closed :
      (r : Reads P) (m : Suspended P)
      → EffectKeeps r
      → is_parked m.sys ≡ false
      → all_closed m.calls ≡ true
      → all_closed (hold_manager ops r m).calls ≡ true
  unfolding hold_manager start_stop end_stop
  hold_closed r m e k h = ground (arith, h, k, e.keeps SuspendCall.restore_message m.sys)

  abbrev EnsuresRound : Progress P × Bool → Type 0
  EnsuresRound (x, ended) = Ensures x

  flagged-Ensures : (b : Bool) (x : Progress P) → Ensures x → EnsuresRound (flagged ops b x)
  flagged-Ensures b x h = h

  drop_closed :
      (m : Suspended P) → all_closed m.calls ≡ true → all_closed (drop_jog ops m).calls ≡ true
  unfolding drop_jog
  drop_closed m h = ground (arith, h)

  if_round :
      (b : Bool) (x y : Progress P × Bool)
      → (b ≡ true → EnsuresRound x)
      → (b ≡ false → EnsuresRound y)
      → EnsuresRound (if b then x else y)
  if_round true x y h k = h refl
  if_round false x y h k = k refl

  round-Ensures :
      (r : Reads P) (m : Suspended P)
      → EffectKeeps r
      → all_closed m.calls ≡ true
      → EnsuresRound (suspend_round ops r m)
  unfolding suspend_round
  round-Ensures r m e h =
      let t = drop_jog ops m in
      let k : all_closed t.calls ≡ true = drop_closed m h in
      if_round (not t.sys.suspend.hold_complete) _ _ (λ p. k)
        (λ p.
          if_round (is_parked t.sys) _ _
            (λ q.
              if_round (not t.sys.suspend.retract_complete) _ _
                (λ z. flagged-Ensures false (retract ops r t) (retract_all r t k))
                (λ z.
                  if_round (same_state t.sys.state State.sleep) _ _
                    (λ y. flagged-Ensures true (sleep ops r t) (sleep-Ensures r t k))
                    (λ y. flagged-Ensures false (door ops r t) (door-Ensures r t k))))
            (λ q. hold_closed r t e q k))

  loop-Ensures :
      (rs : List (Reads P)) (m : Suspended P)
      → AllKeep rs
      → all_closed m.calls ≡ true
      → Ensures (suspend_loop ops rs m)
  unfolding suspend_loop
  loop-Ensures [] m e h = if-Ensures (is_suspended m.sys.suspend) (waits m) (done m) h h
  loop-Ensures (r ∷ rs) m (e, es) h =
      if-Ensures (not (is_suspended m.sys.suspend) || m.sys.abort) (done m) _ h (
        and_then-Ensures (suspend_round ops r m).0 _ (round-Ensures r m e h) (λ t k.
          if-Ensures (suspend_round ops r m).1 (done t) _ k (
            and_then-Ensures (exec_rt_system t) (suspend_loop ops rs) (exec-Ensures t k)
              (λ u l. loop-Ensures rs u es l))))

  -- In the suspend loop, from an empty log: whenever the loop itself restores the spindle or the
  -- coolant, or plunges the tool back, in a state of the safety door or of sleep, no retract is asked
  -- for at that moment, as it is when the door was opened again while the machine restored itself. It
  -- holds however far the loop has come, whatever the rounds read and whatever the runs of
  -- `protocol_exec_rt_system` between and inside its steps do to the system, as long as the loop's
  -- calls leave the machine's state alone. The calls that those runs make for an override of the
  -- spindle or the coolant are in the log, but nothing is said of them.
  pub protocol_exec_rt_suspend-Closed :
      (in_laser_mode : Bool) (rs : List (Reads P)) (m : Suspended P)
      → m.calls ≡ []
      → AllKeep rs
      → all_closed (reached (protocol_exec_rt_suspend ops in_laser_mode rs m)).calls ≡ true
  unfolding protocol_exec_rt_suspend
  protocol_exec_rt_suspend-Closed in_laser_mode rs m h e =
      reached-Closed _ (loop-Ensures rs _ e (ap all_closed h))
