-- ===== src/Stepper/Prepare/Parking/Restore.antt =====
-- The block that a parking motion interrupts (`st_parking_setup_buffer` and
-- `st_parking_restore_buffer`, Stepper.cpp).
use grbl_esp.Base.{◌≡◌, true, Option, none, some, arith}
use grbl_esp.Stepper.Prepare.{MotionOps, Drive, Motion, StPrep}
use grbl_esp.Stepper.Prepare.Fill.{Round, returns}
use grbl_esp.Stepper.Prepare.Parking.{
  st_parking_setup_buffer, st_parking_restore_buffer, Meanwhile, nothing, prepares, updates, others,
  update_plan_block_parameters,
}
use grbl_esp.Stepper.Prepare.Parking.Aside.{PutAside, LoopAside, prep_keeps}

LoopAside-some :
    {F : Type 0} (p : StPrep F) (x : Option (Round F)) (t : Motion F)
    → x ≡ some (returns t)
    → LoopAside p x
    → PutAside p t.prep
LoopAside-some p x t e h = rw e at h

update_keeps :
    {F : Type 0} (o : MotionOps F) (p : StPrep F) (m : Motion F)
    → PutAside p m.prep
    → PutAside p (update_plan_block_parameters o m).prep
unfolding update_plan_block_parameters
update_keeps o p m h = ground (arith, h)

Meanwhile-keeps :
    {F : Type 0} (o : MotionOps F) (drive : Drive) (p : StPrep F) (m u : Motion F)
    → Meanwhile o drive m u
    → PutAside p m.prep
    → PutAside p u.prep
Meanwhile-keeps o drive p m u (nothing _) h = h
Meanwhile-keeps o drive p m u (prepares n fuel _ t _ e more) h =
    Meanwhile-keeps o drive p t u more (LoopAside-some p _ t e (prep_keeps n fuel o drive p m h))
Meanwhile-keeps o drive p m u (updates _ _ more) h =
    Meanwhile-keeps o drive p (update_plan_block_parameters o m) u more (update_keeps o p m h)
Meanwhile-keeps o drive p m u (others _ t _ e more) h = Meanwhile-keeps o drive p t u more (rw e h)

setup-PutAside :
    {F : Type 0} (m : Motion F)
    → PutAside (st_parking_setup_buffer m).prep (st_parking_setup_buffer m).prep
unfolding st_parking_setup_buffer
setup-PutAside m = ground arith

-- what the restoring gives back
pub record Restored {F : Type 0} (m v : Motion F) : Type 0 where
  pub block_index : v.prep.st_block_index ≡ m.prep.st_block_index
  pub stepper_block : v.st_prep_block ≡ m.prep.st_block_index
  pub steps_back : v.prep.steps_remaining ≡ m.prep.steps_remaining
  pub dt_back : v.prep.dt_remainder ≡ m.prep.dt_remainder
  pub scale_back : v.prep.step_per_mm ≡ m.prep.step_per_mm
  pub is_recalculated : v.prep.recalculate_flag.recalculate ≡ true
  pub reloads : v.pl_block ≡ none
  pub still_parking : v.prep.recalculate_flag.parking ≡ true

setup_stored :
    {F : Type 0} (o : MotionOps F) (m u : Motion F)
    → m.prep.recalculate_flag.hold_partial_block ≡ true
    → PutAside (st_parking_setup_buffer m).prep u.prep
    → Restored m (st_parking_restore_buffer o u)
unfolding st_parking_setup_buffer st_parking_restore_buffer
setup_stored o m u h k = ground (arith, h, k)

-- A block that a feed hold has left in the middle is taken up again behind a parking motion: whatever
-- segments `st_prep_buffer` has made meanwhile, however often `st_update_plan_block_parameters` was
-- called, as it is at the cycle stop of the parking motion, and whatever the rest of the program has
-- done outside `prep`, with no reset, `st_parking_restore_buffer` gives back the block's index, its steps that are left, its scale
-- and the time of its partial step as they were when `st_parking_setup_buffer` put them aside, and
-- the planner's block is loaded and planned again. The parking flag is still set behind it.
pub st_parking_restore_buffer-Restored :
    {F : Type 0} (o : MotionOps F) (drive : Drive) (m u : Motion F)
    → m.prep.recalculate_flag.hold_partial_block ≡ true
    → Meanwhile o drive (st_parking_setup_buffer m) u
    → Restored m (st_parking_restore_buffer o u)
st_parking_restore_buffer-Restored o drive m u h w =
    setup_stored o m u h (Meanwhile-keeps o drive _ _ u w (setup-PutAside m))
