-- ===== src/Planner/Recalculate.antt =====
-- Planner.cpp (Grbl_Esp32/src): `planner_recalculate`, the look-ahead over the ring, with
-- `plan_cycle_reinitialize` and `st_update_plan_block_parameters` of Stepper.cpp. The array of
-- blocks is a function of the index. The `while` loops have fuel, one unit for each block.
pub mod Limits
pub mod Terminates
pub mod Planned
pub mod Speeds
use grbl_esp.Base.{
  ℕ, zero, suc, ◌+◌, ◌-◌, ◌*◌, ◌/◌, ◌%◌, ◌^◌, ◌≤◌, ◌<◌, min, max, ◌≡◌, refl, sym, ap, ap₂, ◌∙◌, ◌≢◌,
  ◌↔◌, ◌⊎◌, inl, inr, Bool, true, false, not, ◌&&◌, ◌||◌, Option, none, some, List, [], ◌∷◌, ◌++◌,
  map, append-nil, append_assoc, arith, ltb, leb, ◌==◌, if◌then◌else◌, ltb→lt, lt→ltb, leb→le,
  ==_iff, tests, Bool-cases, Option-cases, if_true, if_false, length, get_elem?, set, length-append,
  length-set, get_elem?-set_self, get_elem?-set_ne, get_or, take, drop, replicate, take-append-drop,
  length-take, length-drop, length-replicate, length-map,
}
use grbl_esp.Planner.{PlanBlock, Indices, plan_next_block_index, plan_prev_block_index}

-- the float operations of the planner
pub record SpeedOps (F : Type 0) : Type 0 where
  pub less : F → F → Bool
  pub same : F → F → Bool
  pub plus : F → F → F
  pub times : F → F → F
  pub two : F

-- `prep` and `pl_block` of Stepper.cpp: the block being executed, by its index
pub record Prep (F : Type 0) : Type 0 where
  pub pl_block : Option ℕ
  pub current_speed : F
  pub recalculate : Bool

pub record Plan (F : Type 0) : Type 0 where
  pub blocks : ℕ → PlanBlock F
  pub prep : Prep F

module _ {F : Type 0} (ops : SpeedOps F) where
  open ops use {less, same, plus, times, two}

  -- `block_buffer[i].entry_speed_sqr = v`
  abbrev pub set_entry : ℕ → F → (ℕ → PlanBlock F) → ℕ → PlanBlock F
  set_entry i v blocks j = if i == j then record (blocks j) { entry_speed_sqr = v } else blocks j

  unfoldable pub st_update_plan_block_parameters : Plan F → Plan F
  st_update_plan_block_parameters s = elim s.prep.pl_block [
    | none ↦ s
    | some i ↦ record {
      blocks = set_entry i (times s.prep.current_speed s.prep.current_speed) s.blocks;
      prep = record s.prep { pl_block = none; recalculate = true };
    }
  ]

  -- `2 * acceleration * millimeters`
  abbrev pub speed_gain : PlanBlock F → F
  speed_gain b = times (times two b.acceleration) b.millimeters

  -- the smaller of two values, as MIN computes it
  abbrev pub minimum : F → F → F
  minimum a b = if less a b then a else b

  -- the tail is the block in execution: the stepper takes its speed
  unfoldable pub notify_tail : ℕ → ℕ → Plan F → Plan F
  unfolding st_update_plan_block_parameters
  notify_tail tail i s = if i == tail then st_update_plan_block_parameters s else s

  -- the entry speed of a block, from the entry speed of the next one
  unfoldable pub plan_entry : ℕ → ℕ → Plan F → Plan F
  plan_entry next current s =
      let b = s.blocks current in
      if same b.entry_speed_sqr b.max_entry_speed_sqr then s else record s {
        blocks =
            set_entry current
              (minimum (plus (s.blocks next).entry_speed_sqr (speed_gain b)) b.max_entry_speed_sqr)
              s.blocks;
      }

  -- the `while (block_index != block_buffer_planned)` loop
  unfoldable pub reverse_pass : Indices → ℕ → ℕ → ℕ → Plan F → Option (Plan F)
  unfolding notify_tail plan_entry
  reverse_pass r zero next block_index s = none
  reverse_pass r (suc fuel) next block_index s =
      let before = plan_prev_block_index block_index in
      let more =
        reverse_pass r fuel block_index before
          (plan_entry next block_index (notify_tail r.tail before s)) in
      if block_index == r.planned then some s else more

  -- the last block, which ends at rest, and the blocks in front of it
  unfoldable pub plan_reverse : Indices → Plan F → Option (Plan F)
  unfolding reverse_pass notify_tail
  plan_reverse r s =
      let last = plan_prev_block_index r.head in
      let b = s.blocks last in
      let s' = record s {
        blocks = set_entry last (minimum b.max_entry_speed_sqr (speed_gain b)) s.blocks;
      } in
      let block_index = plan_prev_block_index last in
      if block_index == r.planned
      then some (notify_tail r.tail block_index s')
      else reverse_pass r 16 last block_index s'

  -- one turn of the forward pass: a block that accelerates all the way limits the next one
  unfoldable pub forward_step : ℕ → ℕ → ℕ → Plan F → Plan F × ℕ
  forward_step current next planned s =
      let c = s.blocks current in
      let n = s.blocks next in
      let reached = plus c.entry_speed_sqr (speed_gain c) in
      let limits = less c.entry_speed_sqr n.entry_speed_sqr && less reached n.entry_speed_sqr in
      let s' = if limits then record s { blocks = set_entry next reached s.blocks } else s in
      let n' = s'.blocks next in
      (
        s',
        (if same n'.entry_speed_sqr n'.max_entry_speed_sqr
            then next
            else if limits
            then next
            else planned),
      )

  -- the `while (block_index != block_buffer_head)` loop; it gives the planned pointer too
  unfoldable pub forward_pass : ℕ → ℕ → ℕ → ℕ → ℕ → Plan F → Option (Plan F × ℕ)
  unfolding forward_step
  forward_pass head zero current block_index planned s = none
  forward_pass head (suc fuel) current block_index planned s =
      let (s', planned') = forward_step current block_index planned s in
      let more =
        forward_pass head fuel block_index (plan_next_block_index block_index) planned' s' in
      if block_index == head then some (s, planned) else more

  unfoldable pub planner_recalculate : Indices → Plan F → Option (Indices × Plan F)
  unfolding plan_reverse forward_pass
  planner_recalculate r s =
      if plan_prev_block_index r.head == r.planned then some (r, s) else elim (plan_reverse r s) [
        | none ↦ none
        | some s' ↦
            elim (forward_pass r.head 16 r.planned (plan_next_block_index r.planned) r.planned s') [
              | none ↦ none
              | some (t, planned) ↦ some (record r { planned = planned }, t)
            ]
      ]

  unfoldable pub plan_cycle_reinitialize : Indices → Plan F → Option (Indices × Plan F)
  unfolding planner_recalculate st_update_plan_block_parameters
  plan_cycle_reinitialize r s =
      planner_recalculate (record r { planned = r.tail }) (st_update_plan_block_parameters s)
