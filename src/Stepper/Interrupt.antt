-- ===== src/Stepper/Interrupt.antt =====
-- What the interrupt (`stepper_pulse_func`, Stepper.cpp) does over many runs with the segments that
-- stand in its ring.
use grbl_esp.Base.{
  ℕ, zero, suc, ◌<◌, ◌≡◌, refl, sym, ap, ◌∙◌, Bool, false, none, some, List, [], ◌∷◌, ◌++◌, arith,
  ◌==◌, length,
}
use grbl_esp.Stepper.{
  Stepper, StBlock, Segment, Axis, Inputs, load_block, load_segment, take_step, axes_tick,
  stepper_pulse_func, probe_state_monitor, step_axes, count_step, next_segment, reset_counters,
  load_steps, IsrCall,
}

-- runs of the interrupt, with what each reads
abbrev pub run_isr : List Inputs → Stepper → Stepper
run_isr [] s = s
run_isr (env ∷ envs) s = run_isr envs (stepper_pulse_func env s)

abbrev pub axes_ticks : ℕ → ℕ → List Bool → List Axis → List Axis
axes_ticks zero total dirs axes = axes
axes_ticks (suc n) total dirs axes = axes_ticks n total dirs (axes_tick total dirs axes)

-- what a run leaves alone
pub record Same (s t : Stepper) : Type 0 where
  pub same_head : t.head ≡ s.head
  pub same_segments : t.segments ≡ s.segments
  pub same_blocks : t.blocks ≡ s.blocks

-- in the middle of a segment: the block, the steps left and the axes
pub record Executes (i : ℕ) (n : ℕ) (axes : List Axis) (s : Stepper) : Type 0 where
  pub segment_is : s.exec_segment ≡ some s.tail
  pub block_is : s.exec_block ≡ some i
  pub index_is : s.exec_block_index ≡ i
  pub count_is : s.step_count ≡ n
  pub axes_are : s.axes ≡ axes

-- between two segments
pub record Rests (i : ℕ) (tail : ℕ) (axes : List Axis) (s : Stepper) : Type 0 where
  pub no_segment : s.exec_segment ≡ none
  pub last_block : s.exec_block ≡ some i
  pub last_index : s.exec_block_index ≡ i
  pub tail_is : s.tail ≡ tail
  pub axes_kept : s.axes ≡ axes

-- a step with more behind it
take_step-Executes :
    (env : Inputs) (i n : ℕ) (axes : List Axis) (s : Stepper)
    → n < 65535
    → Executes i (suc (suc n)) axes s
    → Executes i
        (suc n)
        (axes_tick (s.blocks i).step_event_count (s.blocks i).direction_bits axes)
        (take_step env s)
      × Same s (take_step env s)
      × ((take_step env s).tail ≡ s.tail)
unfolding take_step probe_state_monitor step_axes count_step
take_step-Executes env i n axes s b h =
    ground (arith, h.segment_is, h.block_is, h.index_is, h.count_is, h.axes_are)

-- the last step of a segment
take_step-Rests :
    (env : Inputs) (i : ℕ) (axes : List Axis) (s : Stepper)
    → Executes i 1 axes s
    → Rests i
        (next_segment s.tail)
        (axes_tick (s.blocks i).step_event_count (s.blocks i).direction_bits axes)
        (take_step env s)
      × Same s (take_step env s)
unfolding take_step probe_state_monitor step_axes count_step
take_step-Rests env i axes s h =
    ground (arith, h.segment_is, h.block_is, h.index_is, h.count_is, h.axes_are)

-- a run in the middle of a segment, with its pulses put out first
unfoldable pub pulsed : Stepper → Stepper
pulsed s = record s {
  calls =
      (s.calls ++ IsrCall.motors_direction s.dir_outbits ∷ [])
      ++ IsrCall.motors_step s.step_outbits ∷ [];
}

pub pulse_on :
    (env : Inputs) (s : Stepper) (j : ℕ)
    → s.exec_segment ≡ some j
    → stepper_pulse_func env s ≡ take_step env (pulsed s)
unfolding stepper_pulse_func pulsed
pulse_on env s j h = ground (arith, h)

pub pulse_load :
    (env : Inputs) (s : Stepper)
    → s.exec_segment ≡ none
    → (s.head == s.tail) ≡ false
    → stepper_pulse_func env s ≡ take_step env (load_segment (pulsed s))
unfolding stepper_pulse_func pulsed
pulse_load env s h k = ground (arith, h, k)

pulsed-Executes :
    (i n : ℕ) (axes : List Axis) (s : Stepper) → Executes i n axes s → Executes i n axes (pulsed s)
unfolding pulsed
pulsed-Executes i n axes s h =
    ground (arith, h.segment_is, h.block_is, h.index_is, h.count_is, h.axes_are)

-- the axes of a segment that goes on with the block, and of one that begins it
pub load_next :
    (i : ℕ) (axes : List Axis) (s : Stepper) (segment : Segment)
    → Rests i s.tail axes s
    → s.segments s.tail ≡ segment
    → segment.st_block_index ≡ i
    → Executes i segment.n_step
        (load_steps segment.amass_level (s.blocks i).steps axes)
        (load_segment (pulsed s))
unfolding load_segment load_block pulsed
load_next i axes s segment h k b =
    ground (arith, h.no_segment, h.last_block, h.last_index, h.axes_kept, k, b)

pub load_first :
    (axes : List Axis) (s : Stepper) (segment : Segment)
    → s.exec_segment ≡ none
    → s.axes ≡ axes
    → s.segments s.tail ≡ segment
    → (s.exec_block_index == segment.st_block_index) ≡ false
    → let i = segment.st_block_index in
      Executes i segment.n_step
        (load_steps segment.amass_level
          (s.blocks i).steps
          (reset_counters (s.blocks i).step_event_count axes))
        (load_segment (pulsed s))
unfolding load_segment load_block pulsed
load_first axes s segment h e k b = ground (arith, h, e, k, b)

pub load-Same :
    (s : Stepper) → Same s (load_segment (pulsed s)) × ((load_segment (pulsed s)).tail ≡ s.tail)
unfolding load_segment load_block pulsed
load-Same s = ground arith

pub pulsed-Same : (s : Stepper) → Same s (pulsed s) × ((pulsed s).tail ≡ s.tail)
unfolding pulsed
pulsed-Same s = (record { same_head = refl; same_segments = refl; same_blocks = refl }, refl)

pub Same-trans : {s t u : Stepper} → Same s t → Same t u → Same s u
Same-trans h k = record {
  same_head = k.same_head ∙ h.same_head;
  same_segments = k.same_segments ∙ h.same_segments;
  same_blocks = k.same_blocks ∙ h.same_blocks;
}

-- the runs that finish a segment, the first behind its loading
pub finish_segment :
    (env : Inputs) (envs : List Inputs) (i : ℕ) (block : StBlock) (axes : List Axis) (s : Stepper)
    → s.blocks i ≡ block
    → length envs < 65535
    → Executes i (suc (length envs)) axes s
    → Rests i
        (next_segment s.tail)
        (axes_ticks (suc (length envs)) block.step_event_count block.direction_bits axes)
        (run_isr envs (take_step env s))
      × Same s (run_isr envs (take_step env s))
finish_segment env [] i block axes s b n h = rw (sym b) (take_step-Rests env i axes s h)
finish_segment env (next ∷ envs) i block axes s b n h =
    let t = take_step env s in
    let (on, same, tail) = take_step-Executes env i (length envs) axes s (omega (arith, n)) h in
    let (out, tail') = pulsed-Same t in
    let b' : (pulsed t).blocks i ≡ block =
      ap (λ (f : ℕ → StBlock). f i) (out.same_blocks ∙ same.same_blocks) ∙ b in
    let axes' = axes_tick block.step_event_count block.direction_bits axes in
    let on' : Executes i (suc (length envs)) axes' t = rw (sym b) on in
    let (rests, same') =
      finish_segment next envs i block axes' (pulsed t) b' (omega (arith, n))
        (pulsed-Executes i _ _ t on') in
    rw
      (
        pulse_on next t t.tail on.segment_is,
        ap next_segment (sym tail),
        ap next_segment (sym tail'),
      )
      (rests, Same-trans same (Same-trans out same'))
