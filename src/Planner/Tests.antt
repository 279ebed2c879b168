-- ===== src/Planner/Tests.antt =====
-- The planner (Planner.cpp) on three blocks.
use grbl_esp.Base.{
  ℕ, ◌+◌, ◌*◌, ◌≡◌, refl, inl, false, Option, none, some, List, [], ◌∷◌, map, arith, ltb, ◌==◌,
}
use grbl_esp.GCode.{SpindleState}
use grbl_esp.Planner.{
  PlanBlock, Indices, plan_reset_buffer, plan_check_full_buffer, push_block, plan_prev_block_index,
  plan_next_block_index,
}
use grbl_esp.Planner.Ring.{IsValid, Agrees}
use grbl_esp.Planner.Operations.{
  PlanOp, buffer_line, discard_block, reinitialize, run_plan, run_queue, run_plan-Agrees,
}
use grbl_esp.Planner.Recalculate.{SpeedOps, Plan, planner_recalculate, plan_cycle_reinitialize}
use grbl_esp.Planner.Recalculate.Limits.{Order, AreWithin, planner_recalculate-AreWithin}
use grbl_esp.Planner.Recalculate.Planned.{IsPending, planner_recalculate-IsValid}
use grbl_esp.Planner.Recalculate.Speeds.{Replans, planner_recalculate-Replans}
use grbl_esp.Planner.Recalculate.Terminates.{planner_recalculate_ends}

-- speeds that are whole numbers
abbrev whole : SpeedOps ℕ
whole = record {
  less = ltb;
  same = λ a b. a == b;
  plus = λ a b. a + b;
  times = λ a b. a * b;
  two = 2;
}

whole-Order : Order whole
whole-Order = record { irreflexive = λ a. ground arith; transitive = λ a b c h k. ground arith }

-- every block may enter at 50 and gains 20 over its length
abbrev block : PlanBlock ℕ
block = record {
  steps = [];
  step_event_count = 100;
  direction_bits = 0;
  motion = record {
    rapid_motion = false;
    system_motion = false;
    no_feed_override = false;
    inverse_time = false;
  };
  spindle = SpindleState.disable;
  coolant = record { mist = false; flood = false };
  entry_speed_sqr = 0;
  max_entry_speed_sqr = 50;
  acceleration = 10;
  millimeters = 1;
  max_junction_speed_sqr = 50;
  rapid_rate = 100;
  programmed_rate = 100;
  spindle_speed = 0;
}

abbrev start : Plan ℕ
start = record {
  blocks = λ i. block;
  prep = record { pl_block = none; current_speed = 0; recalculate = false };
}

abbrev indices : Indices
indices = record { tail = 0; head = 4; next_head = 5; planned = 0 }

indices-IsValid : IsValid indices
indices-IsValid = ground arith

start-AreWithin : AreWithin whole whole-Order 0 start
start-AreWithin = record { within = λ i other. refl; only = inl refl }

abbrev replanned : Indices × Plan ℕ
replanned = elim (planner_recalculate whole indices start) [ none ↦ (indices, start) | some t ↦ t ]

replanned_is : planner_recalculate whole indices start ≡ some replanned
unfolding planner_recalculate plan_prev_block_index plan_next_block_index
replanned_is = refl

-- the last block enters at 20, and the ones in front of it at 40 and, from rest, at 20
speeds :
    map (λ (i : ℕ). (replanned.1.blocks i).entry_speed_sqr) (0 ∷ 1 ∷ 2 ∷ 3 ∷ [])
    ≡ 0 ∷ 20 ∷ 40 ∷ 20 ∷ []
unfolding planner_recalculate plan_prev_block_index plan_next_block_index
speeds = refl

planner_recalculate-AreWithin_example : AreWithin whole whole-Order 0 replanned.1
planner_recalculate-AreWithin_example =
    planner_recalculate-AreWithin whole whole-Order 0 indices start replanned start-AreWithin
      replanned_is

planner_recalculate_ends_example :
    (t : Indices × Plan ℕ) × (planner_recalculate whole indices start ≡ some t)
planner_recalculate_ends_example = planner_recalculate_ends whole indices start indices-IsValid

-- on an empty ring the loops run over all places, and the planned pointer leaves the tail
abbrev no_blocks : Indices
no_blocks = record { tail = 0; head = 0; next_head = 1; planned = 0 }

planned_after : Option (Indices × Plan ℕ) → ℕ
planned_after none = 0
planned_after (some (r, s)) = r.planned

empty_ring : planned_after (plan_cycle_reinitialize whole no_blocks start) ≡ 13
unfolding planned_after plan_cycle_reinitialize planner_recalculate plan_prev_block_index
    plan_next_block_index
empty_ring = refl

planner_recalculate-IsValid_example :
    IsValid replanned.0 × IsPending indices.tail indices.head replanned.0.planned
planner_recalculate-IsValid_example =
    planner_recalculate-IsValid whole indices start replanned indices-IsValid refl replanned_is

-- lines, a discarded block and an override, from an empty ring
abbrev some_ops : List (PlanOp ℕ)
some_ops =
    buffer_line block ∷ buffer_line block ∷ discard_block ∷ reinitialize ∷ buffer_line block ∷ []

run_plan-Agrees_example :
    (t : Indices × Plan ℕ) × (run_plan whole some_ops (plan_reset_buffer, start) ≡ some t)
    × IsValid t.0
    × Agrees t.0 (run_queue whole some_ops 0)
run_plan-Agrees_example = run_plan-Agrees whole some_ops start (omega arith, tt)

abbrev five_lines : List (PlanOp ℕ)
five_lines =
    buffer_line block
    ∷ buffer_line block
    ∷ buffer_line block
    ∷ buffer_line block
    ∷ buffer_line block
    ∷ []

-- the recalculations have moved the planned pointer off the tail
planned_moves : planned_after (run_plan whole five_lines (plan_reset_buffer, start)) ≡ 2
unfolding planned_after run_plan plan_check_full_buffer plan_reset_buffer planner_recalculate
    plan_prev_block_index push_block plan_next_block_index
planned_moves = refl

planner_recalculate-Replans_example : Replans whole indices start replanned
planner_recalculate-Replans_example =
    planner_recalculate-Replans whole indices start replanned replanned_is
