-- ===== src/Planner/Profiles.antt =====
-- Planner.cpp (Grbl_Esp32/src): `plan_update_velocity_profile_parameters`, which an override calls,
-- `plan_sync_position` and `plan_reset`.
pub mod Limited
use grbl_esp.Base.{
  ℕ, zero, suc, ◌+◌, ◌-◌, ◌*◌, ◌/◌, ◌%◌, ◌^◌, ◌≤◌, ◌<◌, min, max, ◌≡◌, refl, sym, ap, ap₂, ◌∙◌, ◌≢◌,
  ◌↔◌, ◌⊎◌, inl, inr, Bool, true, false, not, ◌&&◌, ◌||◌, Option, none, some, List, [], ◌∷◌, ◌++◌,
  map, append-nil, append_assoc, arith, ltb, leb, ◌==◌, if◌then◌else◌, ltb→lt, lt→ltb, leb→le,
  ==_iff, tests, Bool-cases, Option-cases, if_true, if_false, length, get_elem?, set, length-append,
  length-set, get_elem?-set_self, get_elem?-set_ne, get_or, take, drop, replicate, take-append-drop,
  length-take, length-drop, length-replicate, length-map,
}
use grbl_esp.Base.Int.{ℤ}
use grbl_esp.System.{System}
use grbl_esp.Planner.{PlanBlock, Indices, plan_next_block_index, plan_reset_buffer}
use grbl_esp.Planner.Recalculate.{Plan}
use grbl_esp.Stepper.Prepare.{MotionOps, put}
use grbl_esp.Stepper.Prepare.Profile.{plan_compute_profile_nominal_speed}
use grbl_esp.Planner.Line.{LineOps, Planned, plan_compute_profile_parameters, set_block}

unfoldable pub plan_sync_position : {F : Type 0} → List ℤ → Planned F → Planned F
plan_sync_position sys_position s = record s { position = sys_position }

-- `memset(&pl, 0, …)`, for a number of axes, and the ring
unfoldable pub plan_reset : {F : Type 0} → MotionOps F → ℕ → Planned F → Planned F
plan_reset o n_axis s = record s {
  position = replicate n_axis (ℤ.pos 0);
  previous_unit_vec = replicate n_axis (o.of_uint 0);
  previous_nominal_speed = o.of_uint 0;
  indices = plan_reset_buffer;
}

module _ {F : Type 0} (o : MotionOps F) (l : LineOps F) where
  -- one block of the loop
  unfoldable pub update_block : System → ℕ → (prev_nominal_speed : F) → Planned F → Planned F
  update_block sys i prev_nominal_speed s =
      let b = s.plan.blocks i in
      set_block o l i
        (plan_compute_profile_parameters o l b (plan_compute_profile_nominal_speed o sys b)
          prev_nominal_speed)
        s

  -- the loop from the tail to the head, on fuel: `none` where it has not ended
  unfoldable pub update_loop :
      ℕ → System → ℕ → (prev_nominal_speed : F) → Planned F → Option (Planned F)
  update_loop zero sys i prev_nominal_speed s = none
  update_loop (suc n) sys i prev_nominal_speed s =
      let more =
        update_loop n sys (plan_next_block_index i)
          (plan_compute_profile_nominal_speed o sys (s.plan.blocks i))
          (update_block sys i prev_nominal_speed s) in
      if i == s.indices.head
      then some (record s { previous_nominal_speed = prev_nominal_speed })
      else more

  unfoldable pub plan_update_velocity_profile_parameters : System → Planned F → Option (Planned F)
  unfolding update_loop
  plan_update_velocity_profile_parameters sys s =
      update_loop 16 sys s.indices.tail l.some_large_value s
