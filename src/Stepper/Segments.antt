-- ===== src/Stepper/Segments.antt =====
-- The segments of the ring, as the interrupt (`stepper_pulse_func`, Stepper.cpp) takes them.
use grbl_esp.Base.{
  ℕ, suc, ◌+◌, ◌-◌, ◌<◌, ◌≡◌, refl, sym, ap, ◌∙◌, Bool, false, none, List, [], ◌∷◌, ◌++◌, arith,
  ◌==◌, length, take, drop, take-append-drop, length-take, length-drop,
}
use grbl_esp.Stepper.{
  Stepper, StBlock, Segment, Axis, Inputs, load_segment, next_segment, reset_counters, load_steps,
  stepper_pulse_func,
}
use grbl_esp.Stepper.Interrupt.{
  run_isr, axes_ticks, Same, Same-trans, Executes, Rests, pulsed, load_next, load_first, load-Same,
  finish_segment, pulse_load,
}

-- what a segment of a block does with the axes, and the segments of a block one after the other
abbrev pub segment_axes : StBlock → Segment → List Axis → List Axis
segment_axes block segment axes =
    axes_ticks segment.n_step block.step_event_count block.direction_bits
      (load_steps segment.amass_level block.steps axes)

abbrev pub block_axes : StBlock → List Segment → List Axis → List Axis
block_axes block [] axes = axes
block_axes block (segment ∷ segments) axes =
    block_axes block segments (segment_axes block segment axes)

-- the segments that stand in the ring from its tail to its head
abbrev pub Queued : (ℕ → Segment) → ℕ → ℕ → List Segment → Type 0
Queued ring tail head [] = tail ≡ head
Queued ring tail head (segment ∷ segments) =
    ((head == tail) ≡ false) × (ring tail ≡ segment) × Queued ring (next_segment tail) head segments

-- segments of one block that each take a step
abbrev pub AreOf : ℕ → List Segment → Type 0
AreOf i [] = Unit
AreOf i (segment ∷ segments) =
    (segment.st_block_index ≡ i)
    × (0 < segment.n_step)
    × (segment.n_step < 65536)
    × AreOf i segments

abbrev pub total_steps : List Segment → ℕ
total_steps [] = 0
total_steps (segment ∷ segments) = segment.n_step + total_steps segments

-- all runs of a segment, from the state that its loading leaves
loaded_segment :
    (env : Inputs) (envs : List Inputs) (i : ℕ) (block : StBlock) (axes : List Axis) (s : Stepper)
    → s.exec_segment ≡ none
    → (s.head == s.tail) ≡ false
    → s.blocks i ≡ block
    → length envs < 65535
    → Executes i (suc (length envs)) axes (load_segment (pulsed s))
    → Rests i
        (next_segment s.tail)
        (axes_ticks (suc (length envs)) block.step_event_count block.direction_bits axes)
        (run_isr (env ∷ envs) s)
      × Same s (run_isr (env ∷ envs) s)
loaded_segment env envs i block axes s idle some_left b n h =
    let t = load_segment (pulsed s) in
    let (same, tail) = load-Same s in
    let b' : t.blocks i ≡ block = ap (λ (f : ℕ → StBlock). f i) same.same_blocks ∙ b in
    let (rests, same') = finish_segment env envs i block axes t b' n h in
    rw (pulse_load env s idle some_left, ap next_segment (sym tail)) (rests, Same-trans same same')

run_isr-append :
    (xs ys : List Inputs) (s : Stepper) → run_isr (xs ++ ys) s ≡ run_isr ys (run_isr xs s)
run_isr-append [] ys s = refl
run_isr-append (x ∷ xs) ys s = run_isr-append xs ys (stepper_pulse_func x s)

-- one more segment of the block
next_segment-Rests :
    (envs : List Inputs) (i : ℕ) (block : StBlock) (axes : List Axis) (s : Stepper)
    (segment : Segment)
    → Rests i s.tail axes s
    → (s.head == s.tail) ≡ false
    → s.segments s.tail ≡ segment
    → segment.st_block_index ≡ i
    → s.blocks i ≡ block
    → length envs ≡ segment.n_step
    → 0 < segment.n_step
    → segment.n_step < 65536
    → Rests i (next_segment s.tail) (segment_axes block segment axes) (run_isr envs s)
      × Same s (run_isr envs s)
next_segment-Rests [] i block axes s segment r l k e b n p q = ground (arith, n, p)
next_segment-Rests (env ∷ envs) i block axes s segment r l k e b n p q =
    let loaded : Executes i (suc (length envs)) (load_steps segment.amass_level block.steps axes)
        (load_segment (pulsed s)) =
      rw (n, sym b) (load_next i axes s segment r k e) in
    rw (sym n) (loaded_segment env envs i block _ s r.no_segment l b (omega (arith, n, q)) loaded)

Rests-at :
    {i j k : ℕ} {axes : List Axis} {s : Stepper} → j ≡ k → Rests i j axes s → Rests i k axes s
Rests-at e h = rw (sym e) h

-- the rest of a block's segments
run_rest :
    (segments : List Segment) (envs : List Inputs) (i : ℕ) (block : StBlock) (axes : List Axis)
    (s : Stepper)
    → Rests i s.tail axes s
    → Queued s.segments s.tail s.head segments
    → AreOf i segments
    → s.blocks i ≡ block
    → length envs ≡ total_steps segments
    → Rests i s.head (block_axes block segments axes) (run_isr envs s) × Same s (run_isr envs s)
run_rest [] [] i block axes s r q o b n =
    (Rests-at q r, record { same_head = refl; same_segments = refl; same_blocks = refl })
run_rest [] (env ∷ envs) i block axes s r q o b n = ground arith
run_rest (segment ∷ segments) envs i block axes s r (l, k, q) (e, p, u, o) b n =
    let now = take segment.n_step envs in
    let later = drop segment.n_step envs in
    let now_is : length now ≡ segment.n_step = ground (arith, length-take segment.n_step envs, n) in
    let later_is : length later ≡ total_steps segments =
      ground (arith, length-drop segment.n_step envs, n) in
    let (rests, same) = next_segment-Rests now i block axes s segment r l k e b now_is p u in
    let t = run_isr now s in
    let tail_is : t.tail ≡ next_segment s.tail = rests.tail_is in
    let rests' : Rests i t.tail (segment_axes block segment axes) t =
      Rests-at (sym tail_is) rests in
    let queued : Queued t.segments t.tail t.head segments =
      rw (tail_is, same.same_segments, same.same_head) q in
    let b' : t.blocks i ≡ block = ap (λ (f : ℕ → StBlock). f i) same.same_blocks ∙ b in
    let (done, same') = run_rest segments later i block _ t rests' queued o b' later_is in
    let parts : run_isr envs s ≡ run_isr later t =
      ap (λ (xs : List Inputs). run_isr xs s) (sym (take-append-drop segment.n_step envs))
      ∙ run_isr-append now later s in
    rw parts (Rests-at same.same_head done, Same-trans same same')

Rests-ticks :
    (i k n m total : ℕ) (dirs : List Bool) (axes : List Axis) (s : Stepper)
    → n ≡ m
    → Rests i k (axes_ticks n total dirs axes) s
    → Rests i k (axes_ticks m total dirs axes) s
Rests-ticks i k n m total dirs axes s e h = rw (sym e) h

-- a block that the interrupt has not begun: its first segment resets the counters
pub run_block :
    (segment : Segment) (segments : List Segment) (env : Inputs) (envs : List Inputs) (i : ℕ)
    (block : StBlock) (s : Stepper)
    → s.exec_segment ≡ none
    → (s.exec_block_index == i) ≡ false
    → Queued s.segments s.tail s.head (segment ∷ segments)
    → AreOf i (segment ∷ segments)
    → s.blocks i ≡ block
    → length (env ∷ envs) ≡ total_steps (segment ∷ segments)
    → Rests i s.head
        (block_axes block (segment ∷ segments) (reset_counters block.step_event_count s.axes))
        (run_isr (env ∷ envs) s)
run_block segment segments env envs i block s idle new (l, k, q) (e, p, u, o) b n =
    let m = segment.n_step - 1 in
    let m_is : segment.n_step ≡ suc m = omega (arith, p) in
    let now = take m envs in
    let later = drop m envs in
    let now_is : length now ≡ m = ground (arith, length-take m envs, n, m_is) in
    let later_is : length later ≡ total_steps segments =
      ground (arith, length-drop m envs, n, m_is) in
    let axes =
      load_steps segment.amass_level block.steps (reset_counters block.step_event_count s.axes) in
    let loaded : Executes i (suc (length now)) axes (load_segment (pulsed s)) =
      rw (now_is, sym m_is, sym b, sym e) (load_first s.axes s segment idle refl k (rw e new)) in
    let (rests, same) =
      loaded_segment env now i block axes s idle l b (omega (arith, now_is, m_is, u)) loaded in
    let t = run_isr (env ∷ now) s in
    let rests' : Rests i t.tail
        (segment_axes block segment (reset_counters block.step_event_count s.axes)) t =
      Rests-at (sym rests.tail_is) (
        Rests-ticks i _ (suc (length now)) segment.n_step _ _ axes t (omega (arith, now_is, m_is))
          rests) in
    let queued : Queued t.segments t.tail t.head segments =
      rw (rests.tail_is, same.same_segments, same.same_head) q in
    let b' : t.blocks i ≡ block = ap (λ (f : ℕ → StBlock). f i) same.same_blocks ∙ b in
    let (done, same') = run_rest segments later i block _ t rests' queued o b' later_is in
    let parts : run_isr (env ∷ envs) s ≡ run_isr later t =
      ap (λ (xs : List Inputs). run_isr (env ∷ xs) s) (sym (take-append-drop m envs))
      ∙ run_isr-append (env ∷ now) later s in
    rw parts (Rests-at same.same_head done)
