-- ===== src/Stepper/Arrives.antt =====
-- All axes of the interrupt (`stepper_pulse_func`, Stepper.cpp) over a block.
use grbl_esp.Base.{
  ℕ, zero, suc, ◌+◌, ◌*◌, ◌/◌, ◌^◌, ◌≤◌, ◌<◌, ◌≡◌, refl, ap, ◌∙◌, Bool, false, none, List, [], ◌∷◌,
  map, arith, ◌==◌, length,
}
use grbl_esp.Stepper.{
  Stepper, StBlock, Segment, Axis, Inputs, axes_tick, axis_tick, reset_counters, load_steps,
  first_or, rest_of,
}
use grbl_esp.Stepper.Interrupt.{run_isr, axes_ticks}
use grbl_esp.Stepper.Segments.{block_axes, Queued, AreOf, total_steps, run_block}
use grbl_esp.Stepper.Bresenham.{moved, axis_ticks}
use grbl_esp.Stepper.Exact.{
  ArePartsOf, sum, block_axis, block_axis-Comes, exact_count, counter_back,
}

-- one axis more
axes_ticks_cons :
    (n total : ℕ) (dirs : List Bool) (a : Axis) (others : List Axis)
    → axes_ticks n total dirs (a ∷ others)
      ≡ axis_ticks n total (first_or false dirs) a ∷ axes_ticks n total (rest_of dirs) others
unfolding axes_tick
axes_ticks_cons zero total dirs a others = refl
axes_ticks_cons (suc n) total dirs a others =
    axes_ticks_cons n total dirs (axis_tick total (first_or false dirs) a).0
      (axes_tick total (rest_of dirs) others)

axes_ticks_nil : (n total : ℕ) (dirs : List Bool) → axes_ticks n total dirs [] ≡ []
unfolding axes_tick
axes_ticks_nil zero total dirs = refl
axes_ticks_nil (suc n) total dirs = axes_ticks_nil n total dirs

abbrev rest_block : StBlock → StBlock
rest_block block = record block {
  steps = rest_of block.steps;
  direction_bits = rest_of block.direction_bits;
}

block_axes_cons :
    (block : StBlock) (segments : List Segment) (a : Axis) (others : List Axis)
    → block_axes block segments (a ∷ others)
      ≡ block_axis block.step_event_count
          (first_or 0 block.steps)
          (first_or false block.direction_bits)
          segments
          a
        ∷ block_axes (rest_block block) segments others
block_axes_cons block [] a others = refl
block_axes_cons block (segment ∷ segments) a others =
    rw
      (axes_ticks_cons segment.n_step block.step_event_count block.direction_bits
        (record a { steps = first_or 0 block.steps / 2 ^ segment.amass_level })
        (load_steps segment.amass_level (rest_of block.steps) others))
      (block_axes_cons block segments _ _)

block_axes_nil : (block : StBlock) (segments : List Segment) → block_axes block segments [] ≡ []
block_axes_nil block [] = refl
block_axes_nil block (segment ∷ segments) =
    rw (axes_ticks_nil segment.n_step block.step_event_count block.direction_bits)
      (block_axes_nil block segments)

-- Every axis has made its steps in its direction, and the counters are back in the middle of an
-- event.
abbrev pub Arrives : ℕ → List ℕ → List Bool → List Axis → List Axis → Type 0
Arrives half steps dirs [] [] = Unit
Arrives half steps dirs (a ∷ before) (b ∷ after) =
    (b.position ≡ moved (first_or false dirs) (first_or 0 steps) a.position)
    × (b.counter ≡ half)
    × Arrives half (rest_of steps) (rest_of dirs) before after
Arrives half steps dirs _ _ = ⊥

abbrev pub AllLe : List ℕ → ℕ → Type 0
AllLe [] n = Unit
AllLe (x ∷ xs) n = (x ≤ n) × AllLe xs n

-- `st_prep_buffer` shifts the steps of the planner's block by the highest level
abbrev pub shifted : ℕ → ℕ
shifted x = x * 8

first_shifted : (steps : List ℕ) → first_or 0 (map shifted steps) ≡ first_or 0 steps * 8
first_shifted [] = refl
first_shifted (x ∷ xs) = refl

rest_shifted : (steps : List ℕ) → rest_of (map shifted steps) ≡ map shifted (rest_of steps)
rest_shifted [] = refl
rest_shifted (x ∷ xs) = refl

first_le : (steps : List ℕ) (n : ℕ) → AllLe steps n → first_or 0 steps ≤ n
first_le [] n h = omega arith
first_le (x ∷ xs) n (h, k) = h

rest_le : (steps : List ℕ) (n : ℕ) → AllLe steps n → AllLe (rest_of steps) n
rest_le [] n h = h
rest_le (x ∷ xs) n (h, k) = k

-- one axis
axis_arrives :
    (ms : List ℕ) (segments : List Segment) (events steps : ℕ) (negative : Bool) (a : Axis)
    → ArePartsOf ms segments
    → sum ms ≡ events
    → 0 < events
    → steps ≤ events
    → 2 * (events * 8) < 4294967296
    → let b =
        block_axis
          (events * 8)
          (steps * 8)
          negative
          segments
          (record a { counter = (events * 8) / 2 }) in
      (b.position ≡ moved negative steps a.position) × (b.counter ≡ (events * 8) / 2)
axis_arrives ms segments events steps negative a p e pos h f =
    let start : Axis = record a { counter = (events * 8) / 2 } in
    let (k, comes) = block_axis-Comes ms segments events steps negative start p h f (omega arith) in
    let counted : (block_axis (events * 8) (steps * 8) negative segments start).counter
          + k * (events * 8)
        ≡ (events * 8) / 2 + 8 * (events * steps) =
      comes.counted ∙ ap (λ (x : ℕ). (events * 8) / 2 + 8 * (x * steps)) e in
    let count : k ≡ steps = exact_count events steps k _ pos comes.counter_le counted in
    (
      comes.stepped ∙ ap (λ (x : ℕ). moved negative x a.position) count,
      counter_back events steps k _ count counted,
    )

axis_arrives_at :
    (ms : List ℕ) (segments : List Segment) (events steps total load : ℕ) (negative : Bool)
    (a : Axis)
    → ArePartsOf ms segments
    → sum ms ≡ events
    → 0 < events
    → steps ≤ events
    → 2 * (events * 8) < 4294967296
    → total ≡ events * 8
    → load ≡ steps * 8
    → let b = block_axis total load negative segments (record a { counter = total / 2 }) in
      (b.position ≡ moved negative steps a.position) × (b.counter ≡ (events * 8) / 2)
axis_arrives_at ms segments events steps total load negative a p e pos h f t l =
    rw (t, l) (axis_arrives ms segments events steps negative a p e pos h f)

Arrives-at :
    (half : ℕ) (steps : List ℕ) (dirs : List Bool) (before after later : List Axis)
    → later ≡ after
    → Arrives half steps dirs before after
    → Arrives half steps dirs before later
Arrives-at half steps dirs before after later e h = rw e h

-- all axes of a block
block_axes-Arrives :
    (ms : List ℕ) (segments : List Segment) (events : ℕ) (steps : List ℕ) (block : StBlock)
    (axes : List Axis)
    → ArePartsOf ms segments
    → sum ms ≡ events
    → 0 < events
    → 2 * (events * 8) < 4294967296
    → AllLe steps events
    → block.step_event_count ≡ events * 8
    → block.steps ≡ map shifted steps
    → Arrives
        ((events * 8) / 2)
        steps
        block.direction_bits
        axes
        (block_axes block segments (reset_counters block.step_event_count axes))
block_axes-Arrives ms segments events steps block [] p e pos f le c s =
    rw (block_axes_nil block segments) tt
block_axes-Arrives ms segments events steps block (a ∷ others) p e pos f le c s =
    let first : first_or 0 block.steps ≡ first_or 0 steps * 8 =
      ap (first_or 0) s ∙ first_shifted steps in
    let tail : rest_of block.steps ≡ map shifted (rest_of steps) =
      ap rest_of s ∙ rest_shifted steps in
    let (there, back) =
      axis_arrives_at ms segments events (first_or 0 steps) _ _
        (first_or false block.direction_bits) a p e pos (first_le steps events le) f c first in
    let more =
      block_axes-Arrives ms segments events (rest_of steps) (rest_block block) others p e pos f
        (rest_le steps events le) c tail in
    Arrives-at _ steps block.direction_bits (a ∷ others) _ _
      (block_axes_cons block segments _ (reset_counters block.step_event_count others))
      (there, back, more)

-- A block that the interrupt has not begun and whose segments are all that stands in the ring: after
-- as many runs of the interrupt as its segments have steps, whatever the runs read, no segment is in
-- execution, the tail has reached the head, and every axis has made exactly its steps of the block,
-- in the block's direction, with its counter back in the middle of an event. The block holds its
-- steps and events times eight; the segments share out its events, each with n * 2 ^ level steps
-- for n events, at least one and at most 65535, at a level up to 3; no axis has more steps than the
-- block has events, and twice the event count fits 32 bits.
pub run_isr-Arrives :
    (ms : List ℕ) (segment : Segment) (segments : List Segment) (events : ℕ) (steps : List ℕ)
    (env : Inputs) (envs : List Inputs) (i : ℕ) (s : Stepper)
    → s.exec_segment ≡ none
    → (s.exec_block_index == i) ≡ false
    → Queued s.segments s.tail s.head (segment ∷ segments)
    → AreOf i (segment ∷ segments)
    → ArePartsOf ms (segment ∷ segments)
    → sum ms ≡ events
    → 0 < events
    → 2 * (events * 8) < 4294967296
    → AllLe steps events
    → (s.blocks i).step_event_count ≡ events * 8
    → (s.blocks i).steps ≡ map shifted steps
    → length (env ∷ envs) ≡ total_steps (segment ∷ segments)
    → let t = run_isr (env ∷ envs) s in
      (t.exec_segment ≡ none)
      × (t.tail ≡ s.head)
      × Arrives ((events * 8) / 2) steps (s.blocks i).direction_bits s.axes t.axes
run_isr-Arrives ms segment segments events steps env envs i s idle new q o p e pos f le c l n =
    let block = s.blocks i in
    let rests = run_block segment segments env envs i block s idle new q o refl n in
    (
      rests.no_segment,
      rests.tail_is,
      Arrives-at _ steps block.direction_bits s.axes _ _ rests.axes_kept
          (block_axes-Arrives ms (segment ∷ segments) events steps block s.axes p e pos f le c l),
    )
