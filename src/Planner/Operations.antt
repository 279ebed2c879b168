-- ===== src/Planner/Operations.antt =====
-- What the program does with the planner's ring (Planner.cpp), against a bounded queue.
use grbl_esp.Base.{
  ℕ, ◌+◌, ◌-◌, ◌<◌, min, ◌≡◌, refl, sym, ap, ◌∙◌, inl, inr, true, false, Option, none, some, List,
  [], ◌∷◌, arith, ◌==◌, if◌then◌else◌, Bool-cases,
}
use grbl_esp.Planner.{
  PlanBlock, Indices, plan_reset_buffer, plan_discard_current_block, plan_check_full_buffer,
  push_block, plan_get_block_buffer_count,
}
use grbl_esp.Planner.Ring.{
  IsValid, Agrees, agrees, next_lem, reset-IsValid, discard-IsValid, push-IsValid,
}
use grbl_esp.Planner.Recalculate.{SpeedOps, Plan, planner_recalculate, plan_cycle_reinitialize}
use grbl_esp.Planner.Recalculate.Planned.{planner_recalculate-IsValid}
use grbl_esp.Planner.Recalculate.Terminates.{planner_recalculate_ends}
use grbl_esp.Planner.Recalculate.Speeds.{planner_recalculate-Replans}

-- What the program does with the ring: a motion of the program is buffered, by `plan_buffer_line`
-- behind `mc_line` (MotionControl.cpp), which waits while the ring is full; the current block is
-- discarded; the plan is made anew from the tail; the ring is reset; and the step generator changes
-- `prep`.
pub data PlanOp (F : Type 0) : Type 0 where
  buffer_line : PlanBlock F → PlanOp F
  discard_block reinitialize reset_ring : PlanOp F
  prepare : (Plan F → Plan F) → PlanOp F

module _ {F : Type 0} (ops : SpeedOps F) where
  -- the end of `plan_buffer_line`: the block at the head, the indices, and the plan made anew
  unfoldable pub buffer_block : PlanBlock F → Indices → Plan F → Option (Indices × Plan F)
  buffer_block b r s =
      if plan_check_full_buffer r
      then some (r, s)
      else planner_recalculate ops (push_block r)
          (record s { blocks = λ (j : ℕ). if r.head == j then b else s.blocks j })

  unfoldable pub plan_op : PlanOp F → Indices × Plan F → Option (Indices × Plan F)
  unfolding buffer_block
  plan_op (buffer_line b) (r, s) = buffer_block b r s
  plan_op discard_block (r, s) = some (plan_discard_current_block r, s)
  plan_op reinitialize (r, s) = plan_cycle_reinitialize ops r s
  plan_op reset_ring (r, s) = some (plan_reset_buffer, s)
  plan_op (prepare f) (r, s) = some (r, f s)

  abbrev pub and_next :
      (Indices × Plan F → Option (Indices × Plan F))
      → Option (Indices × Plan F)
      → Option (Indices × Plan F)
  and_next next none = none
  and_next next (some x) = next x

  -- `none` where a recalculation has not ended
  unfoldable pub run_plan : List (PlanOp F) → Indices × Plan F → Option (Indices × Plan F)
  unfolding plan_op
  run_plan [] x = some x
  run_plan (op ∷ rest) x = and_next (run_plan rest) (plan_op op x)

  -- the same on the number of blocks of a queue that holds fifteen
  abbrev pub queue_op : PlanOp F → ℕ → ℕ
  queue_op (buffer_line b) n = min (n + 1) 15
  queue_op discard_block n = n - 1
  queue_op reset_ring n = 0
  queue_op _ n = n

  abbrev pub run_queue : List (PlanOp F) → ℕ → ℕ
  run_queue [] n = n
  run_queue (op ∷ rest) n = run_queue rest (queue_op op n)

  -- the plan is made anew only while a block is queued
  abbrev pub NotEmptyAnew : List (PlanOp F) → ℕ → Type 0
  NotEmptyAnew [] n = Unit
  NotEmptyAnew (reinitialize ∷ rest) n = (0 < n) × NotEmptyAnew rest n
  NotEmptyAnew (op ∷ rest) n = NotEmptyAnew rest (queue_op op n)

  -- an operation ends with valid indices and so many blocks
  pub record Ends (x : Option (Indices × Plan F)) (n : ℕ) : Type 0 where
    pub left : Indices × Plan F
    pub ends : x ≡ some left
    pub valid : IsValid left.0
    pub count : plan_get_block_buffer_count left.0 ≡ n

  count_planned :
      (r t : Indices)
      → t ≡ record r { planned = t.planned }
      → plan_get_block_buffer_count t ≡ plan_get_block_buffer_count r
  unfolding plan_get_block_buffer_count
  count_planned r t e = ground (arith, e)

  recalculated-Ends :
      (r : Indices) (s : Plan F)
      → IsValid r
      → (r.planned == r.head) ≡ false
      → Ends (planner_recalculate ops r s) (plan_get_block_buffer_count r)
  recalculated-Ends r s v f =
      let (t, e) = planner_recalculate_ends ops r s v in
      let (w, pending) = planner_recalculate-IsValid ops r s t v f e in
      record {
        left = t;
        ends = e;
        valid = w;
        count = count_planned r t.0 (planner_recalculate-Replans ops r s t e).same_indices;
      }

  Ends-at : {x : Option (Indices × Plan F)} (n m : ℕ) → n ≡ m → Ends x n → Ends x m
  Ends-at n m e h = rw (sym e) h

  -- behind a push the planned pointer is not at the head
  push_pending :
      (r : Indices)
      → IsValid r
      → plan_check_full_buffer r ≡ false
      → ((push_block r).planned == (push_block r).head) ≡ false
  unfolding push_block plan_check_full_buffer
  push_pending r v free =
      ground (arith, v.tail_lt, v.head_lt, v.planned_lt, v.next_is, v.planned_between)

  push_count :
      (r : Indices)
      → IsValid r
      → plan_check_full_buffer r ≡ false
      → plan_get_block_buffer_count (push_block r) ≡ min (plan_get_block_buffer_count r + 1) 15
  unfolding push_block plan_check_full_buffer plan_get_block_buffer_count
  push_count r v free = ground (arith, v.tail_lt, v.head_lt, v.next_is)

  full_count :
      (r : Indices)
      → IsValid r
      → plan_check_full_buffer r ≡ true
      → plan_get_block_buffer_count r ≡ min (plan_get_block_buffer_count r + 1) 15
  unfolding plan_check_full_buffer plan_get_block_buffer_count
  full_count r v full = ground (arith, v.tail_lt, v.head_lt, v.next_is)

  buffer-Ends :
      (b : PlanBlock F) (r : Indices) (s : Plan F)
      → IsValid r
      → Ends (buffer_block b r s) (min (plan_get_block_buffer_count r + 1) 15)
  unfolding buffer_block
  buffer-Ends b r s v = elim (Bool-cases (plan_check_full_buffer r)) [
    | inl e ↦ rw e (record { left = (r, s); ends = refl; valid = v; count = full_count r v e })
    | inr e ↦ rw e (
        Ends-at _ _ (push_count r v e)
          (recalculated-Ends (push_block r) _ (push-IsValid r v e) (push_pending r v e)))
  ]

  discard_count :
      (r : Indices)
      → IsValid r
      → plan_get_block_buffer_count (plan_discard_current_block r)
        ≡ plan_get_block_buffer_count r - 1
  unfolding plan_discard_current_block plan_get_block_buffer_count
  discard_count r v = ground (arith, next_lem r.tail v.tail_lt, v.tail_lt, v.head_lt, v.next_is)

  -- the planned pointer back at the tail
  back_at_tail :
      (r : Indices)
      → IsValid r
      → 0 < plan_get_block_buffer_count r
      → IsValid (record r { planned = r.tail }) × ((r.tail == r.head) ≡ false)
  unfolding plan_get_block_buffer_count
  back_at_tail r v some_block =
      (ground (arith, v.tail_lt, v.head_lt, v.next_is), ground (arith, v.tail_lt, v.head_lt))

  same_count :
      (r : Indices)
      → plan_get_block_buffer_count (record r { planned = r.tail }) ≡ plan_get_block_buffer_count r
  unfolding plan_get_block_buffer_count
  same_count r = refl

  reinitialize-Ends :
      (r : Indices) (s : Plan F)
      → IsValid r
      → 0 < plan_get_block_buffer_count r
      → Ends (plan_cycle_reinitialize ops r s) (plan_get_block_buffer_count r)
  unfolding plan_cycle_reinitialize
  reinitialize-Ends r s v h =
      let (w, apart) = back_at_tail r v h in
      Ends-at _ _ (same_count r) (recalculated-Ends (record r { planned = r.tail }) _ w apart)

  reset_count : plan_get_block_buffer_count plan_reset_buffer ≡ 0
  unfolding plan_get_block_buffer_count plan_reset_buffer
  reset_count = refl

  -- the outcome of a run
  abbrev pub Runs : List (PlanOp F) → Indices × Plan F → ℕ → Type 0
  Runs os x n =
      (t : Indices × Plan F) × (run_plan os x ≡ some t) × IsValid t.0 × Agrees t.0 (run_queue os n)

  run_next :
      (op : PlanOp F) (os : List (PlanOp F)) (x : Indices × Plan F) (n : ℕ)
      (h : Ends (plan_op op x) (queue_op op n))
      → Runs os h.left (queue_op op n)
      → Runs (op ∷ os) x n
  unfolding run_plan
  run_next op os x n h (t, e, v, rest) = (t, ap (and_next (run_plan os)) h.ends ∙ e, v, rest)

  op-Ends :
      (op : PlanOp F) (os : List (PlanOp F)) (r : Indices) (s : Plan F)
      → IsValid r
      → NotEmptyAnew (op ∷ os) (plan_get_block_buffer_count r)
      → Ends (plan_op op (r, s)) (queue_op op (plan_get_block_buffer_count r))
        × NotEmptyAnew os (queue_op op (plan_get_block_buffer_count r))
  unfolding plan_op
  op-Ends (buffer_line b) os r s v h = (buffer-Ends b r s v, h)
  op-Ends discard_block os r s v h = (
    record {
      left = (plan_discard_current_block r, s);
      ends = refl;
      valid = discard-IsValid r v;
      count = discard_count r v;
    },
    h,
  )
  op-Ends reinitialize os r s v (some_block, h) = (reinitialize-Ends r s v some_block, h)
  op-Ends reset_ring os r s v h = (
    record {
      left = (plan_reset_buffer, s);
      ends = refl;
      valid = reset-IsValid;
      count = reset_count;
    },
    h,
  )
  op-Ends (prepare f) os r s v h =
      (record { left = (r, f s); ends = refl; valid = v; count = refl }, h)

  -- a run, from a number of blocks that the ring has
  run-Agrees :
      (os : List (PlanOp F)) (x : Indices × Plan F) (n : ℕ)
      → IsValid x.0
      → plan_get_block_buffer_count x.0 ≡ n
      → NotEmptyAnew os n
      → Runs os x n
  unfolding run_plan
  run-Agrees [] x n v e h = (x, refl, v, rw (sym e) (agrees x.0 v))
  run-Agrees (op ∷ os) (r, s) n v e h =
      let (step, more) = op-Ends op os r s v (rw e h) in
      let count : plan_get_block_buffer_count step.left.0 ≡ queue_op op n =
        step.count ∙ ap (queue_op op) e in
      run_next op os (r, s) n
        (record { left = step.left; ends = step.ends; valid = step.valid; count = count })
        (run-Agrees os step.left (queue_op op n) step.valid count
          (rw (sym (ap (queue_op op) e)) more))

  -- Whatever sequence of buffered and discarded blocks, of new plans, resets and work of the step
  -- generator follows a reset of the planner, every recalculation in it ends, the indices stay valid,
  -- with the planned pointer between tail and head wherever the recalculations put it, and the ring's
  -- count, available space, full test and current block are those of a queue with room for fifteen
  -- blocks. The plan is made anew (`plan_cycle_reinitialize`) only while a block is queued.
  pub run_plan-Agrees :
      (os : List (PlanOp F)) (s : Plan F)
      → NotEmptyAnew os 0
      → (t : Indices × Plan F) × (run_plan os (plan_reset_buffer, s) ≡ some t)
        × IsValid t.0
        × Agrees t.0 (run_queue os 0)
  run_plan-Agrees os s h = run-Agrees os (plan_reset_buffer, s) 0 reset-IsValid reset_count h
