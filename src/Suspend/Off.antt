-- ===== src/Suspend/Off.antt =====
-- The retract of a parked machine (`protocol_exec_rt_suspend`, Protocol.cpp).
use grbl_esp.Base.{◌≡◌, Bool, true, false, ◌&&◌, List, [], ◌∷◌}
use grbl_esp.System.{System}
use grbl_esp.Suspend.{Progress, done, waits, Pass, RtCall, ParkingOps, SuspendCall}

-- the last call on the spindle switches it off, and the last one on the coolant too
abbrev pub spindle_is_off : {P : Type 0} → List (SuspendCall P × System) → Bool
spindle_is_off [] = false
spindle_is_off ((SuspendCall.spindle_off, s) ∷ calls) = true
spindle_is_off ((SuspendCall.spindle_restore, s) ∷ calls) = false
spindle_is_off ((SuspendCall.rt RtCall.spindle_set_rpm, s) ∷ calls) = false
spindle_is_off ((c, s) ∷ calls) = spindle_is_off calls

abbrev pub coolant_is_off : {P : Type 0} → List (SuspendCall P × System) → Bool
coolant_is_off [] = false
coolant_is_off ((SuspendCall.coolant_off, s) ∷ calls) = true
coolant_is_off ((SuspendCall.coolant_clear, s) ∷ calls) = true
coolant_is_off ((SuspendCall.coolant_restore, s) ∷ calls) = false
coolant_is_off ((SuspendCall.rt RtCall.coolant_set_state, s) ∷ calls) = false
coolant_is_off ((c, s) ∷ calls) = coolant_is_off calls

abbrev are_off : {P : Type 0} → List (SuspendCall P × System) → Bool
are_off calls = spindle_is_off calls && coolant_is_off calls

-- a list of runs that make no call on spindle or coolant: no override comes in
abbrev pub AreQuiet : List Pass → Type 0
AreQuiet [] = Unit
AreQuiet (pass ∷ rest) = ((s : System) → (pass s).1 ≡ []) × AreQuiet rest

-- a piece is done with both off, or waits for a run that is not given
abbrev Off : {P : Type 0} → Progress P → Type 0
Off (done m) = are_off m.calls ≡ true
Off (waits m) = m.passes ≡ []

-- a piece is done in any way, with quiet runs to come, or waits for a run that is not given
abbrev Runs : {P : Type 0} → Progress P → Type 0
Runs (done m) = AreQuiet m.passes
Runs (waits m) = m.passes ≡ []

module _ {P : Type 0} (ops : ParkingOps P) where
  -- the outcome of the retract
  abbrev pub Retracted : Progress P → Type 0
  Retracted (done m) =
      (spindle_is_off m.calls ≡ true)
      × (coolant_is_off m.calls ≡ true)
      × (m.sys.suspend.retract_complete ≡ true)
      × (m.sys.suspend.restart_retract ≡ false)
  Retracted (waits m) = m.passes ≡ []
