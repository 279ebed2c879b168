-- ===== src/Suspend/Calls.antt =====
-- The calls of the suspend loop (`protocol_exec_rt_suspend`, Protocol.cpp) that power the machine up
-- again, and the pieces of the loop that wait.
use grbl_esp.Base.{
  ℕ, zero, suc, ◌≡◌, Bool, true, false, not, ◌&&◌, ◌||◌, List, [], ◌∷◌, arith, if◌then◌else◌,
}
use grbl_esp.System.{System, State, same_state}
use grbl_esp.Suspend.{
  Progress, done, waits, Pass, RtCall, rt, logged, run_pass, SuspendCall, Reads, Suspended,
  and_then, exec_rt_system, wait_motion, wait_abort, mc_parking_motion, delay_msec,
}

-- the calls that power the machine up again or bring the tool back to the work
abbrev pub energises : {P : Type 0} → SuspendCall P → Bool
energises SuspendCall.spindle_restore = true
energises SuspendCall.coolant_restore = true
energises (SuspendCall.plunge target) = true
energises _ = false

abbrev pub is_parked : System → Bool
is_parked s = same_state s.state State.safety_door || same_state s.state State.sleep

-- such a call is not made at an open safety door: in a parking state, no retract is asked for
abbrev pub is_closed : {P : Type 0} → SuspendCall P → System → Bool
is_closed c s = not (energises c && is_parked s && s.suspend.restart_retract)

abbrev pub all_closed : {P : Type 0} → List (SuspendCall P × System) → Bool
all_closed [] = true
all_closed ((c, s) ∷ calls) = is_closed c s && all_closed calls

abbrev pub Ensures : {P : Type 0} → Progress P → Type 0
Ensures (waits m) = all_closed m.calls ≡ true
Ensures (done m) = all_closed m.calls ≡ true

-- A call leaves the machine's state alone.
pub record EffectKeeps {P : Type 0} (r : Reads P) : Type 0 where
  pub keeps : (c : SuspendCall P) (s : System) → (r.effect c s).state ≡ s.state

-- all rounds' calls do
abbrev pub AllKeep : {P : Type 0} → List (Reads P) → Type 0
AllKeep [] = Unit
AllKeep (r ∷ rs) = EffectKeeps r × AllKeep rs

-- the machine as far as it has come
abbrev pub reached : {P : Type 0} → Progress P → Suspended P
reached (done m) = m
reached (waits m) = m

pub reached-Closed : {P : Type 0} (x : Progress P) → Ensures x → all_closed (reached x).calls ≡ true
reached-Closed (done m) h = h
reached-Closed (waits m) h = h

pub and_then-Ensures :
    {P : Type 0} (x : Progress P) (next : Suspended P → Progress P)
    → Ensures x
    → ((m : Suspended P) → all_closed m.calls ≡ true → Ensures (next m))
    → Ensures (and_then x next)
and_then-Ensures (waits m) next h k = h
and_then-Ensures (done m) next h k = k m h

pub if-Ensures :
    {P : Type 0} (b : Bool) (x y : Progress P)
    → Ensures x
    → Ensures y
    → Ensures (if b then x else y)
if-Ensures true x y h k = h
if-Ensures false x y h k = k

-- the calls of a run are none of those
logged_closed :
    {P : Type 0} (s : System) (cs : List RtCall) (calls : List (SuspendCall P × System))
    → all_closed calls ≡ true
    → all_closed (logged s cs calls) ≡ true
logged_closed s [] calls h = h
logged_closed s (c ∷ cs) calls h = logged_closed s cs ((rt c, s) ∷ calls) h

pass_closed :
    {P : Type 0} (pass : Pass) (rest : List Pass) (m : Suspended P)
    → all_closed m.calls ≡ true
    → all_closed (run_pass pass rest m).calls ≡ true
pass_closed pass rest m h = logged_closed (pass m.sys).0 (pass m.sys).1 m.calls h

exec_cases :
    {P : Type 0} (passes : List Pass) (m : Suspended P)
    → all_closed m.calls ≡ true
    → Ensures (elim passes [ [] ↦ waits m | pass ∷ rest ↦ done (run_pass pass rest m) ])
exec_cases [] m h = h
exec_cases (pass ∷ rest) m h = pass_closed pass rest m h

pub exec-Ensures :
    {P : Type 0} (m : Suspended P) → all_closed m.calls ≡ true → Ensures (exec_rt_system m)
unfolding exec_rt_system
exec-Ensures m h = exec_cases m.passes m h

pub wait_motion-Ensures :
    {P : Type 0} (r : Reads P) (passes : List Pass) (m : Suspended P)
    → all_closed m.calls ≡ true
    → Ensures (wait_motion r passes m)
unfolding wait_motion
wait_motion-Ensures r [] m h = h
wait_motion-Ensures r (pass ∷ rest) m h =
    let t = run_pass pass rest m in
    let k : all_closed t.calls ≡ true = pass_closed pass rest m h in
    if-Ensures t.sys.abort (done t) _ k (
      if-Ensures t.sys.step_control.execute_sys_motion (wait_motion r rest t) _
        (wait_motion-Ensures r rest t k) k)

pub wait_abort-Ensures :
    {P : Type 0} (passes : List Pass) (m : Suspended P)
    → all_closed m.calls ≡ true
    → Ensures (wait_abort passes m)
unfolding wait_abort
wait_abort-Ensures [] m h = if-Ensures m.sys.abort (done m) (waits m) h h
wait_abort-Ensures (pass ∷ rest) m h =
    if-Ensures m.sys.abort (done m) _ h
      (wait_abort-Ensures rest (run_pass pass rest m) (pass_closed pass rest m h))

pub motion-Ensures :
    {P : Type 0} (r : Reads P) (c : SuspendCall P) (m : Suspended P)
    → is_closed c m.sys ≡ true
    → all_closed m.calls ≡ true
    → Ensures (mc_parking_motion r c m)
unfolding mc_parking_motion
motion-Ensures r c m h k = if-Ensures m.sys.abort (done m) _ k (
    if-Ensures r.plan_status _ _ (wait_motion-Ensures r m.passes _ (ground (arith, h, k)))
      (exec-Ensures _ (ground (arith, h, k))))

pub delay-Ensures :
    {P : Type 0} (n : ℕ) (m : Suspended P) → all_closed m.calls ≡ true → Ensures (delay_msec n m)
unfolding delay_msec
delay-Ensures zero m h = h
delay-Ensures (suc n) m h = if-Ensures m.sys.abort (done m) _ h (
    and_then-Ensures (exec_rt_system m) _ (exec-Ensures m h)
      (λ t k. if-Ensures t.sys.suspend.restart_retract (done t) _ k (delay-Ensures n t k)))
