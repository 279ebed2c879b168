-- ===== src/Stepper/Prepare/Parking.antt =====
-- Stepper.cpp (Grbl_Esp32/src): `st_parking_setup_buffer` and `st_parking_restore_buffer`, which put
-- the block in hand aside for a parking motion and take it up again.
pub mod Aside
pub mod Restore
use grbl_esp.Base.{
  ℕ, zero, suc, ◌+◌, ◌-◌, ◌*◌, ◌/◌, ◌%◌, ◌^◌, ◌≤◌, ◌<◌, min, max, ◌≡◌, refl, sym, ap, ap₂, ◌∙◌, ◌≢◌,
  ◌↔◌, ◌⊎◌, inl, inr, Bool, true, false, not, ◌&&◌, ◌||◌, Option, none, some, List, [], ◌∷◌, ◌++◌,
  map, append-nil, append_assoc, arith, ltb, leb, ◌==◌, if◌then◌else◌, ltb→lt, lt→ltb, leb→le,
  ==_iff, tests, Bool-cases, Option-cases, if_true, if_false, length, get_elem?, set, length-append,
  length-set, get_elem?-set_self, get_elem?-set_ne, get_or, take, drop, replicate, take-append-drop,
  length-take, length-drop, length-replicate, length-map,
}
use grbl_esp.Stepper.Prepare.{MotionOps, Drive, Motion, StPrep, PrepFlag, no_prep_flag, put}
use grbl_esp.Stepper.Prepare.Fill.{Round, returns, st_prep_buffer}

unfoldable pub st_parking_setup_buffer : {F : Type 0} → Motion F → Motion F
st_parking_setup_buffer m =
    let p =
      if m.prep.recalculate_flag.hold_partial_block
      then record m.prep {
        last_st_block_index = m.prep.st_block_index;
        last_steps_remaining = m.prep.steps_remaining;
        last_dt_remainder = m.prep.dt_remainder;
        last_step_per_mm = m.prep.step_per_mm;
      }
      else m.prep in
    record m {
      prep = record p {
        recalculate_flag = record p.recalculate_flag { parking = true; recalculate = false };
      };
      pl_block = none;
    }

unfoldable pub st_parking_restore_buffer : {F : Type 0} → MotionOps F → Motion F → Motion F
st_parking_restore_buffer o m =
    let p = m.prep in
    if p.recalculate_flag.hold_partial_block
    then record m {
      st_prep_block = p.last_st_block_index;
      prep = record p {
        st_block_index = p.last_st_block_index;
        steps_remaining = p.last_steps_remaining;
        dt_remainder = p.last_dt_remainder;
        step_per_mm = p.last_step_per_mm;
        recalculate_flag = record p.recalculate_flag {
          hold_partial_block = true;
          recalculate = true;
        };
        req_mm_increment = o.over o.req_mm_increment_scalar p.last_step_per_mm;
      };
      pl_block = none;
    }
    else record m { prep = record p { recalculate_flag = no_prep_flag }; pl_block = none }

-- `st_update_plan_block_parameters`, which the planner calls at the cycle stop that ends a parking
-- motion
unfoldable pub update_plan_block_parameters : {F : Type 0} → MotionOps F → Motion F → Motion F
update_plan_block_parameters o m = elim m.pl_block [
  | none ↦ m
  | some i ↦ record m {
    plan =
        put i
          (record (m.plan i) {
            entry_speed_sqr = o.times m.prep.current_speed m.prep.current_speed;
          })
          m.plan;
    prep = record m.prep {
      recalculate_flag = record m.prep.recalculate_flag { recalculate = true };
    };
    pl_block = none;
  }
]

-- What happens during a parking motion: runs of `st_prep_buffer` that return, calls of
-- `st_update_plan_block_parameters`, as at the cycle stop that ends the motion, and steps of the rest
-- of the program, which may write all but `prep`. A reset, which clears `prep`, is none of them.
pub data Meanwhile {F : Type 0} (o : MotionOps F) (drive : Drive)
    : Motion F → Motion F → Type 0 where
  nothing : (m : Motion F) → Meanwhile o drive m m
  prepares :
      (n fuel : ℕ) (m t u : Motion F)
      → st_prep_buffer n fuel o drive m ≡ some (returns t)
      → Meanwhile o drive t u
      → Meanwhile o drive m u
  updates :
      (m u : Motion F)
      → Meanwhile o drive (update_plan_block_parameters o m) u
      → Meanwhile o drive m u
  others : (m t u : Motion F) → t.prep ≡ m.prep → Meanwhile o drive t u → Meanwhile o drive m u
