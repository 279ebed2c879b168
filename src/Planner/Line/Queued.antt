-- ===== src/Planner/Line/Queued.antt =====
-- The whole of `plan_buffer_line` (Planner.cpp): the block that it writes, and the planner behind it.
use grbl_esp.Base.{
  ℕ, ◌+◌, ◌*◌, ◌/◌, ◌%◌, ◌≡◌, refl, ap, ap₂, ◌∙◌, Bool, true, false, not, ◌&&◌, Option, some, List,
  [], ◌∷◌, map, arith, ◌==◌, if◌then◌else◌, length,
}
use grbl_esp.Base.Int.{ℤ}
use grbl_esp.System.{System}
use grbl_esp.Planner.{PlanBlock, push_block, plan_check_full_buffer}
use grbl_esp.Planner.Ring.{IsValid, push-IsValid}
use grbl_esp.Planner.Recalculate.{Plan}
use grbl_esp.Planner.Recalculate.Speeds.{SameBlocks, planner_recalculate-Replans}
use grbl_esp.Planner.Recalculate.Terminates.{planner_recalculate_ends}
use grbl_esp.Stepper.Prepare.{MotionOps, axis_bits}
use grbl_esp.Stepper.Prepare.Profile.{plan_compute_profile_nominal_speed}
use grbl_esp.Stepper.Arrives.{AllLe}
use grbl_esp.Planner.Line.{
  LineOps, AxisSettings, AxisLine, LineData, Planned, axis_lines, direction_mask, speed_ops,
  line_block, queue_line, plan_buffer_line, queued_line, replanned, set_block,
  plan_compute_profile_parameters,
}
use grbl_esp.Planner.Line.Steps.{Leads, AllSigns, AllFit, axis_lines-Leads, AllLe-max}

odd_even :
    (b : Bool) (n : ℕ)
    → ((((if b then 1 else 0) + 2 * n) % 2 == 1) ≡ b) × ((((if b then 1 else 0) + 2 * n) / 2) ≡ n)
odd_even true n = ground arith
odd_even false n = ground arith

module _ {F : Type 0} (o : MotionOps F) (l : LineOps F) where
  -- the stepper reads the directions as they were put into the mask
  axis_bits-mask :
      (axes : List (AxisLine F))
      → axis_bits (length axes) (direction_mask o l axes)
        ≡ map (λ (a : AxisLine F). a.negative) axes
  axis_bits-mask [] = refl
  axis_bits-mask (a ∷ axes) =
      let (bit, rest) = odd_even a.negative (direction_mask o l axes) in
      ap₂ (λ (b : Bool) (n : ℕ). b ∷ axis_bits (length axes) n) bit rest
      ∙ ap (λ (bs : List Bool). a.negative ∷ bs) (axis_bits-mask axes)

  -- What is known of the block that is made of a line.
  pub record IsPlanned (settings : List (AxisSettings F)) (target : List F) (position : List ℤ)
      (axes : List (AxisLine F)) (b : PlanBlock F) : Type 0 where
    pub leads : Leads o l axes target settings position
    pub steps_are : b.steps ≡ map (λ (a : AxisLine F). a.steps) axes
    pub events_most : AllLe b.steps b.step_event_count
    pub directions :
        axis_bits (length axes) b.direction_bits ≡ map (λ (a : AxisLine F). a.negative) axes

  line-IsPlanned :
      (junction_deviation : F) (settings : List (AxisSettings F)) (target : List F)
      (position : List ℤ) (line : LineData F) (s : Planned F)
      → AllSigns o l settings
      → AllFit o l settings target position
      → let axes = axis_lines o l settings target position in
        IsPlanned settings target position axes
          (line_block o l junction_deviation settings line axes s)
  unfolding line_block
  line-IsPlanned junction_deviation settings target position line s h f =
      let axes = axis_lines o l settings target position in
      record {
        leads = axis_lines-Leads o l settings target position h f;
        steps_are = refl;
        events_most = AllLe-max o l 0 axes;
        directions = axis_bits-mask axes;
      }

  -- what becomes of the blocks: the one at the head has the steps of `b`, all others keep theirs
  pub record IsWritten (b : PlanBlock F) (head : ℕ) (s t : Plan F) : Type 0 where
    pub steps_at : (t.blocks head).steps ≡ b.steps
    pub events_at : (t.blocks head).step_event_count ≡ b.step_event_count
    pub directions_at : (t.blocks head).direction_bits ≡ b.direction_bits
    pub others_keep : (j : ℕ) → (head == j) ≡ false → (t.blocks j).steps ≡ (s.blocks j).steps

  set_block-IsWritten :
      (b c : PlanBlock F) (head : ℕ) (s : Planned F)
      → c.steps ≡ b.steps
      → c.step_event_count ≡ b.step_event_count
      → c.direction_bits ≡ b.direction_bits
      → IsWritten b head s.plan (set_block o l head c s).plan
  set_block-IsWritten b c head s steps events directions =
      let here : (head == head) ≡ true = ground arith in
      record {
        steps_at = rw here steps;
        events_at = rw here events;
        directions_at = rw here directions;
        others_keep = λ j e. rw e refl;
      }

  replanned-IsWritten :
      (b : PlanBlock F) (head : ℕ) (s t u : Plan F)
      → IsWritten b head s t
      → SameBlocks t u
      → IsWritten b head s u
  replanned-IsWritten b head s t u h k = record {
    steps_at = ap (λ (c : PlanBlock F). c.steps) (k.only_speeds head) ∙ h.steps_at;
    events_at = ap (λ (c : PlanBlock F). c.step_event_count) (k.only_speeds head) ∙ h.events_at;
    directions_at =
        ap (λ (c : PlanBlock F). c.direction_bits) (k.only_speeds head) ∙ h.directions_at;
    others_keep = λ j e. ap (λ (c : PlanBlock F). c.steps) (k.only_speeds j) ∙ h.others_keep j e;
  }

  -- What is known of the planner behind the call, where `queued` says that the line is queued: the
  -- block at the head, the position, and the indices but for the planned pointer.
  pub record IsQueued (queued : Bool) (axes : List (AxisLine F)) (b : PlanBlock F) (s t : Planned F)
      : Type 0 where
    pub written : IsWritten b s.indices.head s.plan t.plan
    pub position_is :
        t.position ≡ (if queued then map (λ (a : AxisLine F). a.target_steps) axes else s.position)
    pub indices_are : t.indices ≡ record (if queued then push_block s.indices else s.indices) {
      planned = t.indices.planned;
    }

  -- the queueing of a line with a step to make
  queue-IsQueued :
      (sys : System) (unit_vec : List F) (axes : List (AxisLine F)) (b : PlanBlock F)
      (s : Planned F)
      → IsValid (push_block s.indices)
      → (t : Planned F) × (queue_line o l sys unit_vec axes b s ≡ some (t, true))
        × IsQueued true axes b s t
  unfolding queue_line queued_line plan_compute_profile_parameters
  queue-IsQueued sys unit_vec axes b s v =
      let q = queued_line o l sys unit_vec axes b s in
      let (p, e) = planner_recalculate_ends (speed_ops o l) q.indices q.plan v in
      let replans = planner_recalculate-Replans (speed_ops o l) q.indices q.plan p e in
      let c =
        plan_compute_profile_parameters o l b (plan_compute_profile_nominal_speed o sys b)
          s.previous_nominal_speed in
      (
        record q { indices = p.0; plan = p.1 },
        ap (replanned o l q) e,
        record {
          written =
              replanned-IsWritten b s.indices.head s.plan q.plan p.1
                (set_block-IsWritten b c s.indices.head s refl refl refl) replans.same_blocks;
          position_is = refl;
          indices_are = replans.same_indices;
        },
      )

  same-IsQueued :
      (axes : List (AxisLine F)) (b c : PlanBlock F) (s : Planned F)
      → c.steps ≡ b.steps
      → c.step_event_count ≡ b.step_event_count
      → c.direction_bits ≡ b.direction_bits
      → IsQueued false axes b s (set_block o l s.indices.head c s)
  same-IsQueued axes b c s steps events directions = record {
    written = set_block-IsWritten b c s.indices.head s steps events directions;
    position_is = refl;
    indices_are = refl;
  }

  -- the outcome by the tests of the function
  outcome :
      (empty system : Bool) (axes : List (AxisLine F)) (b : PlanBlock F) (s x y : Planned F)
      (z : Option (Planned F × Bool))
      → IsQueued false axes b s x
      → IsQueued false axes b s y
      → ((t : Planned F) × (z ≡ some (t, true)) × IsQueued true axes b s t)
      → (t : Planned F) × ((if empty then some (x, false) else if system then some (y, true) else z)
          ≡ some (t, not empty))
        × IsQueued (not empty && not system) axes b s t
  outcome true system axes b s x y z h k q = (x, refl, h)
  outcome false true axes b s x y z h k q = (y, refl, k)
  outcome false false axes b s x y z h k q = q

  -- `plan_buffer_line` with room in the planner's ring: it ends, and it answers PLAN_OK exactly where
  -- the line has a step to make. The block at the head then has the steps, events and directions of
  -- the line: each axis' steps, in the direction that the stepper reads out of the block's mask, lead
  -- from the position that the line starts at to the target in steps, and no axis has more steps than
  -- the block has events. The other blocks keep their steps. A line with steps that is no system
  -- motion moves the head on, and the planner's position is then the target in steps; an empty line
  -- and a system motion leave indices, but for the planned pointer, and position alone. The indices
  -- are well-formed, the target and the distance in steps are values of an int32_t on each axis, and
  -- a distance is negative exactly where its number of steps is.
  pub plan_buffer_line-IsPlanned :
      (sys : System) (sys_position : List ℤ) (junction_deviation : F)
      (settings : List (AxisSettings F)) (target : List F) (line : LineData F) (s : Planned F)
      → IsValid s.indices
      → plan_check_full_buffer s.indices ≡ false
      → AllSigns o l settings
      → AllFit o l settings target (if line.motion.system_motion then sys_position else s.position)
      → let position = if line.motion.system_motion then sys_position else s.position in
        let axes = axis_lines o l settings target position in
        let b = line_block o l junction_deviation settings line axes s in
        let empty = b.step_event_count == 0 in
        IsPlanned settings target position axes b
        × (t : Planned F) × (plan_buffer_line o l sys sys_position junction_deviation settings
              target line s
            ≡ some (t, not empty))
        × IsQueued (not empty && not line.motion.system_motion) axes b s t
  unfolding plan_buffer_line
  plan_buffer_line-IsPlanned sys sys_position junction_deviation settings target line s v free h f =
      let position = if line.motion.system_motion then sys_position else s.position in
      let axes = axis_lines o l settings target position in
      let b = line_block o l junction_deviation settings line axes s in
      let (t, is, queued) =
        outcome (b.step_event_count == 0) line.motion.system_motion axes b s _ _ _
          (same-IsQueued axes b _ s refl refl refl) (same-IsQueued axes b b s refl refl refl)
          (queue-IsQueued sys _ axes b s (push-IsValid s.indices v free)) in
      (line-IsPlanned junction_deviation settings target position line s h f, t, is, queued)
