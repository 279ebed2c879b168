-- ===== src/Planner/Profiles/Limited.antt =====
-- The junction limits under an override (`plan_update_velocity_profile_parameters`, Planner.cpp).
use grbl_esp.Base.{
  ℕ, zero, suc, ◌<◌, ◌≡◌, refl, ◌∙◌, inl, inr, false, some, arith, ◌==◌, Bool-cases, if_true,
  if_false,
}
use grbl_esp.System.{System}
use grbl_esp.Planner.{PlanBlock, plan_next_block_index}
use grbl_esp.Planner.Ring.{IsValid, distance}
use grbl_esp.Planner.Recalculate.Terminates.{next-distance, distance_lt}
use grbl_esp.Stepper.Prepare.{MotionOps, put}
use grbl_esp.Stepper.Prepare.Profile.{plan_compute_profile_nominal_speed}
use grbl_esp.Planner.Line.{LineOps, Planned, plan_compute_profile_parameters}
use grbl_esp.Planner.Profiles.{update_block, update_loop, plan_update_velocity_profile_parameters}

module _ {F : Type 0} (o : MotionOps F) (l : LineOps F) where
  -- no block's greatest entry speed is above the limit of its junction
  abbrev pub AreLimited : Planned F → Type 0
  AreLimited s =
      (j : ℕ)
      → o.less (s.plan.blocks j).max_junction_speed_sqr (s.plan.blocks j).max_entry_speed_sqr
        ≡ false

  parameters-limited :
      (b : PlanBlock F) (nominal_speed prev_nominal_speed : F)
      → ((a : F) → o.less a a ≡ false)
      → let t = plan_compute_profile_parameters o l b nominal_speed prev_nominal_speed in
        o.less t.max_junction_speed_sqr t.max_entry_speed_sqr ≡ false
  unfolding plan_compute_profile_parameters
  parameters-limited b nominal_speed prev_nominal_speed irreflexive =
      ground (arith, irreflexive b.max_junction_speed_sqr)

  put-limited :
      (i j : ℕ) (b : PlanBlock F) (blocks : ℕ → PlanBlock F)
      → o.less b.max_junction_speed_sqr b.max_entry_speed_sqr ≡ false
      → o.less (blocks j).max_junction_speed_sqr (blocks j).max_entry_speed_sqr ≡ false
      → o.less (put i b blocks j).max_junction_speed_sqr (put i b blocks j).max_entry_speed_sqr
        ≡ false
  put-limited i j b blocks h k = ground (arith, h, k)

  update_block-AreLimited :
      (sys : System) (i : ℕ) (prev_nominal_speed : F) (s : Planned F)
      → ((a : F) → o.less a a ≡ false)
      → AreLimited s
      → AreLimited (update_block o l sys i prev_nominal_speed s)
  unfolding update_block
  update_block-AreLimited sys i prev_nominal_speed s irreflexive h j =
      put-limited i j _ s.plan.blocks
        (parameters-limited (s.plan.blocks i) _ prev_nominal_speed irreflexive) (h j)

  indices_same :
      (sys : System) (i : ℕ) (prev_nominal_speed : F) (s : Planned F)
      → (update_block o l sys i prev_nominal_speed s).indices ≡ s.indices
  unfolding update_block
  indices_same sys i prev_nominal_speed s = refl

  update_loop-AreLimited :
      (n : ℕ) (sys : System) (i : ℕ) (prev_nominal_speed : F) (s : Planned F)
      → ((a : F) → o.less a a ≡ false)
      → AreLimited s
      → i < 16
      → s.indices.head < 16
      → distance i s.indices.head < n
      → (t : Planned F) × (update_loop o l n sys i prev_nominal_speed s ≡ some t)
        × AreLimited t
        × (t.indices ≡ s.indices)
  unfolding update_loop
  update_loop-AreLimited zero sys i prev_nominal_speed s irreflexive h p q k =
      let no : ⊥ = omega (arith, k) in elim no [ ]
  update_loop-AreLimited (suc n) sys i prev_nominal_speed s irreflexive h p q k =
      elim (Bool-cases (i == s.indices.head)) [
        | inl d ↦ (record s { previous_nominal_speed = prev_nominal_speed }, if_true _ _ d, h, refl)
        | inr d ↦
            let (lt, on) = next-distance i s.indices.head p q d in
            let u = update_block o l sys i prev_nominal_speed s in
            let (t, e, limited, same) =
              update_loop-AreLimited n sys (plan_next_block_index i)
                (plan_compute_profile_nominal_speed o sys (s.plan.blocks i)) u irreflexive
                (update_block-AreLimited sys i prev_nominal_speed s irreflexive h) lt
                (rw (indices_same sys i prev_nominal_speed s) q)
                (rw (indices_same sys i prev_nominal_speed s) (omega (arith, on, k))) in
            (t, if_false _ _ d ∙ e, limited, same ∙ indices_same sys i prev_nominal_speed s)
      ]

  -- On valid indices an override's update of the plan comes to its end, with the indices as they
  -- were; and where no block of the ring may enter faster than the limit of its junction, none may
  -- behind the update, whatever the overrides are. Of the order it is used that it is irreflexive.
  pub plan_update_velocity_profile_parameters-AreLimited :
      (sys : System) (s : Planned F)
      → ((a : F) → o.less a a ≡ false)
      → IsValid s.indices
      → AreLimited s
      → (t : Planned F) × (plan_update_velocity_profile_parameters o l sys s ≡ some t)
        × AreLimited t
        × (t.indices ≡ s.indices)
  unfolding plan_update_velocity_profile_parameters
  plan_update_velocity_profile_parameters-AreLimited sys s irreflexive v h =
      update_loop-AreLimited 16 sys s.indices.tail l.some_large_value s irreflexive h v.tail_lt
        v.head_lt (distance_lt s.indices.tail s.indices.head v.tail_lt v.head_lt)
