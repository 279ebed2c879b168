-- ===== src/Stepper/Exact.antt =====
-- The interrupt (`stepper_pulse_func`, Stepper.cpp) makes exactly the steps of a block.
use grbl_esp.Base.{
  ℕ, zero, suc, ◌+◌, ◌-◌, ◌*◌, ◌/◌, ◌^◌, ◌≤◌, ◌<◌, ◌≡◌, sym, ap, ◌∙◌, ◌≢◌, inl, inr, Bool, List, [],
  ◌∷◌, arith, ltb, ltb→lt, Bool-cases,
}
use grbl_esp.Stepper.{Segment, Axis}
use grbl_esp.Stepper.Bresenham.{
  moved, moved_twice, moved_not, axis_ticks, IsSound, axis_ticks-Advances,
}

-- Parts of a block's events, in the segments that `st_prep_buffer` makes of them: at level l each
-- event takes 2 ^ l runs.
abbrev pub ArePartsOf : List ℕ → List Segment → Type 0
ArePartsOf [] [] = Unit
ArePartsOf (m ∷ ms) (segment ∷ segments) =
    (segment.amass_level ≤ 3)
    × (segment.n_step ≡ m * 2 ^ segment.amass_level)
    × ArePartsOf ms segments
ArePartsOf _ _ = ⊥

abbrev pub sum : List ℕ → ℕ
sum [] = 0
sum (x ∷ xs) = x + sum xs

-- how far an axis comes over several segments
pub record Comes (total load k : ℕ) (negative : Bool) (a b : Axis) : Type 0 where
  pub counted : b.counter + k * total ≡ a.counter + load
  pub stepped : b.position ≡ moved negative k a.position
  pub counter_le : b.counter ≤ total

-- the runs of one axis over the segments of a block, by its steps there
abbrev pub block_axis : ℕ → ℕ → Bool → List Segment → Axis → Axis
block_axis total steps negative [] a = a
block_axis total steps negative (segment ∷ segments) a = block_axis total steps negative segments (
    axis_ticks segment.n_step total negative (record a { steps = steps / 2 ^ segment.amass_level }))

-- the increments of a segment: eight for each step and event, at any level
level_load : (l m steps : ℕ) → l ≤ 3 → m * 2 ^ l * ((steps * 8) / 2 ^ l) ≡ 8 * (m * steps)
level_load zero m steps h =
    let all : (steps * 8) / 1 ≡ steps * 8 = omega arith in rw all (grind arith)
level_load (suc zero) m steps h =
    let half : (steps * 8) / 2 ≡ steps * 4 = omega arith in rw half (grind arith)
level_load (suc (suc zero)) m steps h =
    let quarter : (steps * 8) / 4 ≡ steps * 2 = omega arith in rw quarter (grind arith)
level_load (suc (suc (suc zero))) m steps h =
    let eighth : (steps * 8) / 8 ≡ steps = omega arith in rw eighth (grind arith)
level_load (suc (suc (suc (suc l)))) m steps h = omega arith

level_le : (l steps events : ℕ) → l ≤ 3 → steps ≤ events → (steps * 8) / 2 ^ l ≤ events * 8
level_le zero steps events k h = omega arith
level_le (suc zero) steps events k h = omega arith
level_le (suc (suc zero)) steps events k h = omega arith
level_le (suc (suc (suc zero))) steps events k h = omega arith
level_le (suc (suc (suc (suc l)))) steps events k h = omega arith

load_parts : (m rest steps : ℕ) → 8 * (m * steps) + 8 * (rest * steps) ≡ 8 * ((m + rest) * steps)
load_parts m rest steps = grind arith

Comes-trans :
    (total m n k j : ℕ) (negative : Bool) (a b c : Axis)
    → Comes total m k negative a b
    → Comes total n j negative b c
    → Comes total (m + n) (k + j) negative a c
Comes-trans total m n k j negative a b c u v = record {
  counted = grind (arith, u.counted, v.counted);
  stepped = v.stepped ∙ ap (moved negative j) u.stepped ∙ moved_twice negative k j a.position;
  counter_le = v.counter_le;
}

-- one segment of an axis
segment-Comes :
    (segment : Segment) (m events steps : ℕ) (negative : Bool) (a : Axis)
    → segment.amass_level ≤ 3
    → segment.n_step ≡ m * 2 ^ segment.amass_level
    → steps ≤ events
    → 2 * (events * 8) < 4294967296
    → a.counter ≤ events * 8
    → (k : ℕ) × Comes (events * 8) (8 * (m * steps)) k negative a (
        axis_ticks segment.n_step
          (events * 8)
          negative
          (record a { steps = (steps * 8) / 2 ^ segment.amass_level }))
segment-Comes segment m events steps negative a l n h f c =
    let loaded : Axis = record a { steps = (steps * 8) / 2 ^ segment.amass_level } in
    let sound : IsSound (events * 8) loaded = record {
      counter_le = c;
      steps_le = level_le segment.amass_level steps events l h;
      fits = f;
    } in
    let (k, adv) = axis_ticks-Advances segment.n_step (events * 8) negative loaded sound in
    let load : segment.n_step * loaded.steps ≡ 8 * (m * steps) =
      rw n (level_load segment.amass_level m steps l) in
    (
      k,
      record {
        counted = adv.counted ∙ ap (λ (x : ℕ). a.counter + x) load;
        stepped = adv.stepped;
        counter_le = adv.sound.counter_le;
      },
    )

pub block_axis-Comes :
    (ms : List ℕ) (segments : List Segment) (events steps : ℕ) (negative : Bool) (a : Axis)
    → ArePartsOf ms segments
    → steps ≤ events
    → 2 * (events * 8) < 4294967296
    → a.counter ≤ events * 8
    → (k : ℕ) × Comes
        (events * 8)
        (8 * (sum ms * steps))
        k
        negative
        a
        (block_axis (events * 8) (steps * 8) negative segments a)
block_axis-Comes [] [] events steps negative a p h f c = (
  0,
  record { counted = omega arith; stepped = sym (moved_not negative a.position); counter_le = c },
)
block_axis-Comes [] (segment ∷ segments) events steps negative a p h f c = elim p [ ]
block_axis-Comes (m ∷ ms) [] events steps negative a p h f c = elim p [ ]
block_axis-Comes (m ∷ ms) (segment ∷ segments) events steps negative a (l, n, p) h f c =
    let (k, once) = segment-Comes segment m events steps negative a l n h f c in
    let (j, more) = block_axis-Comes ms segments events steps negative _ p h f once.counter_le in
    let all =
      Comes-trans (events * 8) (8 * (m * steps)) (8 * (sum ms * steps)) k j negative a _ _ once
        more in
    (k + j, rw (sym (load_parts m (sum ms) steps)) all)

-- more events than the steps ask for would need more increments, and fewer would leave the counter
-- above a whole event
too_many :
    (total half steps d counter : ℕ)
    → half < total
    → counter + (steps + suc d) * total ≢ half + steps * total
too_many total half steps d counter h e =
    let all : (steps + suc d) * total ≡ steps * total + total + d * total = grind arith in
    omega (arith, all, e, h)

too_few :
    (total half k d counter : ℕ)
    → 0 < half
    → counter ≤ total
    → counter + k * total ≢ half + (k + suc d) * total
too_few total half k d counter h c e =
    let all : (k + suc d) * total ≡ k * total + total + d * total = grind arith in
    omega (arith, all, e, h, c)

exact_at :
    (total half steps k counter : ℕ)
    → 0 < half
    → half < total
    → counter ≤ total
    → counter + k * total ≡ half + steps * total
    → k ≡ steps
exact_at total half steps k counter p h c e = elim (Bool-cases (ltb k steps)) [
  | inl l ↦
      let fewer : steps ≡ k + suc (steps - k - 1) = omega (arith, ltb→lt _ _ l) in
      elim (too_few total half k (steps - k - 1) counter p c
        (e ∙ ap (λ (x : ℕ). half + x * total) fewer)) [ ]
  | inr l ↦ elim (Bool-cases (ltb steps k)) [
    | inl g ↦
        let more : k ≡ steps + suc (k - steps - 1) = omega (arith, ltb→lt _ _ g) in
        elim (too_many total half steps (k - steps - 1) counter h
          (ap (λ (x : ℕ). counter + x * total) (sym more) ∙ e)) [ ]
    | inr g ↦ ground (arith, l, g)
  ]
]

-- The whole block: from the middle of an event, an axis makes exactly its steps.
pub exact_count :
    (events steps k counter : ℕ)
    → 0 < events
    → counter ≤ events * 8
    → counter + k * (events * 8) ≡ (events * 8) / 2 + 8 * (events * steps)
    → k ≡ steps
exact_count events steps k counter p c e =
    let load : 8 * (events * steps) ≡ steps * (events * 8) = grind arith in
    exact_at (events * 8) ((events * 8) / 2) steps k counter (omega (arith, p)) (omega (arith, p)) c
      (e ∙ ap (λ (x : ℕ). (events * 8) / 2 + x) load)

-- the counter is back
pub counter_back :
    (events steps k counter : ℕ)
    → k ≡ steps
    → counter + k * (events * 8) ≡ (events * 8) / 2 + 8 * (events * steps)
    → counter ≡ (events * 8) / 2
counter_back events steps k counter p e =
    let load : 8 * (events * steps) ≡ steps * (events * 8) = grind arith in
    let same : k * (events * 8) ≡ steps * (events * 8) = ap (λ (x : ℕ). x * (events * 8)) p in
    omega (arith, e, load, same)
