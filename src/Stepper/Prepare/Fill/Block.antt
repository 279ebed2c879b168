-- ===== src/Stepper/Prepare/Fill/Block.antt =====
-- A whole block of the planner in `st_prep_buffer` (Stepper.cpp), from its loading to its last
-- segment.
use grbl_esp.Base.{
  ℕ, ◌*◌, ◌<◌, ◌≡◌, refl, ap, ap₂, ◌∙◌, false, none, some, List, [], ◌∷◌, map, arith,
}
use grbl_esp.Planner.{PlanBlock}
use grbl_esp.Stepper.Exact.{ArePartsOf, sum}
use grbl_esp.Stepper.Arrives.{AllLe, shifted}
use grbl_esp.Stepper.Prepare.{
  MotionOps, Drive, Motion, query_block, begin_block, bresenham_block, shift_steps,
}
use grbl_esp.Stepper.Prepare.Profile.{
  load_plan_block, take_block, compute_profile, hold_profile, normal_profile, decel_profile,
  trapezoid,
}
use grbl_esp.Stepper.Prepare.Ramp.{Ramp}
use grbl_esp.Stepper.Prepare.Fill.Counts.{Counts, Falls, made, fill_all, made-ArePartsOf}

-- no bit is shifted out
map_shift :
    (steps : List ℕ) (events : ℕ)
    → AllLe steps events
    → events < 16777216
    → map shift_steps steps ≡ map shifted steps
map_shift [] events h l = refl
map_shift (x ∷ xs) events (h, more) l =
    let exact : shift_steps x ≡ shifted x = omega (arith, h, l) in
    ap₂ (λ (a : ℕ) (b : List ℕ). a ∷ b) exact (map_shift xs events more l)

-- what the loading of a new block puts into `prep` and into the stepper's block
record Loaded {F : Type 0} (o : MotionOps F) (b : PlanBlock F) (t : Motion F) : Type 0 where
  steps_are : t.prep.steps_remaining ≡ o.of_uint b.step_event_count
  count_is :
      (t.stepper.blocks t.prep.st_block_index).step_event_count ≡ shift_steps b.step_event_count
  block_steps : (t.stepper.blocks t.prep.st_block_index).steps ≡ map shift_steps b.steps
  no_hold : t.sys.step_control.execute_hold ≡ false

-- the profile leaves the steps alone
profile_keeps :
    {F : Type 0} (o : MotionOps F) (i : ℕ) (b : PlanBlock F) (m : Motion F)
    → Loaded o b m
    → Loaded o b (compute_profile o i m)
unfolding compute_profile hold_profile normal_profile decel_profile trapezoid
profile_keeps o i b m h = record {
  steps_are = ground (arith, h.steps_are);
  count_is = ground (arith, h.count_is);
  block_steps = ground (arith, h.block_steps);
  no_hold = ground (arith, h.no_hold);
}

begin-Loaded :
    {F : Type 0} (o : MotionOps F) (drive : Drive) (i : ℕ) (m : Motion F)
    → m.sys.step_control.execute_hold ≡ false
    → Loaded o (m.plan i) (begin_block o drive i m)
unfolding begin_block bresenham_block
begin-Loaded o drive i m h = record {
  steps_are = ground arith;
  count_is = ground arith;
  block_steps = ground arith;
  no_hold = ground (arith, h);
}

-- a new block, begun and with its profile
abbrev pub begun : {F : Type 0} → MotionOps F → Drive → ℕ → Motion F → Motion F
begun o drive i m = compute_profile o i (begin_block o drive i (record m { pl_block = some i }))

load_is :
    {F : Type 0} (o : MotionOps F) (drive : Drive) (i : ℕ) (m : Motion F)
    → m.pl_block ≡ none
    → query_block m ≡ some i
    → m.prep.recalculate_flag.recalculate ≡ false
    → load_plan_block o drive m ≡ some (i, begun o drive i m)
unfolding load_plan_block take_block
load_is o drive i m p q r = ground (arith, p, q, r)

-- A new block of the planner: its loading succeeds, the stepper's block gets its steps and events
-- times eight, and the segments that are then made of it, one for each distance that the ramps leave
-- down to the end of the block, share out exactly its events: each has n * 2 ^ level steps for n
-- events at a level up to 3, and the n sum up to the block's events. There is no feed hold, the block
-- has less than 2 ^ 24 events and no axis more steps than those, and the distances fall to no step
-- left, by less than 8192 steps for a segment.
pub load_plan_block-made :
    {F : Type 0} (o : MotionOps F) (c : Counts F o) (drive : Drive) (i : ℕ) (rs : List (Ramp F))
    (m : Motion F)
    → m.pl_block ≡ none
    → query_block m ≡ some i
    → m.prep.recalculate_flag.recalculate ≡ false
    → m.sys.step_control.execute_hold ≡ false
    → (m.plan i).step_event_count < 16777216
    → AllLe (m.plan i).steps (m.plan i).step_event_count
    → Falls c
        (begun o drive i m).prep.step_per_mm
        (c.count (begun o drive i m).prep.steps_remaining)
        rs
    → c.count (fill_all o i rs (begun o drive i m)).prep.steps_remaining ≡ 0
    → let t = begun o drive i m in
      (load_plan_block o drive m ≡ some (i, t))
      × ((t.stepper.blocks t.prep.st_block_index).steps ≡ map shifted (m.plan i).steps)
      × ((t.stepper.blocks t.prep.st_block_index).step_event_count
          ≡ (m.plan i).step_event_count * 8)
      × (ms : List ℕ) × ArePartsOf ms (made o i rs t)
      × (sum ms ≡ (m.plan i).step_event_count)
load_plan_block-made o c drive i rs m p q r h l le falls ended =
    let loaded : Loaded o (m.plan i) (begun o drive i m) =
      profile_keeps o i (m.plan i) _ (begin-Loaded o drive i (record m { pl_block = some i }) h) in
    let events : c.count (begun o drive i m).prep.steps_remaining ≡ (m.plan i).step_event_count =
      ap c.count loaded.steps_are ∙ c.count_uint _ l in
    let (ms, parts, total) =
      made-ArePartsOf o c i rs (begun o drive i m) loaded.no_hold (omega (arith, events, l))
        falls in
    let exact : shift_steps (m.plan i).step_event_count ≡ (m.plan i).step_event_count * 8 =
      omega (arith, l) in
    (
      load_is o drive i m p q r,
      loaded.block_steps ∙ map_shift (m.plan i).steps (m.plan i).step_event_count le l,
      loaded.count_is ∙ exact,
      ms,
      parts,
      omega (arith, total, ended, events),
    )
