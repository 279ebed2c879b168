-- ===== src/Planner/Line/Steps.antt =====
-- Where the steps of a planned motion lead (`plan_buffer_line`, Planner.cpp).
use grbl_esp.Base.{
  ℕ, suc, ◌≤◌, ◌≡◌, refl, ap, true, false, List, [], ◌∷◌, map, arith, ltb, if◌then◌else◌, set,
}
use grbl_esp.Base.Int.{
  ℤ, ◌-ℤ◌, IsInt32, int32_same, eq_of_parts, pos_part, neg_part, int_laws, ltb_ℤ,
}
use grbl_esp.Stepper.Prepare.{MotionOps}
use grbl_esp.Stepper.Bresenham.{moved}
use grbl_esp.Stepper.Arrives.{AllLe}
use grbl_esp.Planner.Line.{LineOps, AxisSettings, AxisLine, labs, axis_line, axis_lines, max_steps}

-- What the direction relies on: the distance of a number of steps in millimeters is negative exactly
-- where the number is.
pub record Signs {F : Type 0} (o : MotionOps F) (l : LineOps F) (settings : AxisSettings F)
    : Type 0 where
  pub sign :
      (i : ℤ) → o.less (o.over (l.of_int i) settings.steps_per_mm) (o.of_uint 0) ≡ ltb_ℤ i (ℤ.pos 0)

-- steps and direction lead from one position to the other
difference_moved : (d t p : ℤ) → d ≡ t -ℤ p → moved (ltb_ℤ d (ℤ.pos 0)) (labs d) p ≡ t
difference_moved (ℤ.pos n) t p h =
    let forward : ltb_ℤ (ℤ.pos n) (ℤ.pos 0) ≡ false = ground arith in
    let up : n ≡ pos_part (t -ℤ p) = ap pos_part h in
    let down : 0 ≡ neg_part (t -ℤ p) = ap neg_part h in
    rw forward (eq_of_parts _ _ (omega (int_laws, up, down)))
difference_moved (ℤ.negsuc n) t p h =
    let back : ltb_ℤ (ℤ.negsuc n) (ℤ.pos 0) ≡ true = ground arith in
    let up : 0 ≡ pos_part (t -ℤ p) = ap pos_part h in
    let down : suc n ≡ neg_part (t -ℤ p) = ap neg_part h in
    rw back (eq_of_parts _ _ (omega (int_laws, up, down)))

module _ {F : Type 0} (o : MotionOps F) (l : LineOps F) where
  max_ge : (count : ℕ) (axes : List (AxisLine F)) → count ≤ max_steps o l count axes
  max_ge count [] = omega arith
  max_ge count (a ∷ axes) =
      ground (arith, max_ge (if ltb a.steps count then count else a.steps) axes)

  pub AllLe-max :
      (count : ℕ) (axes : List (AxisLine F))
      → AllLe (map (λ (a : AxisLine F). a.steps) axes) (max_steps o l count axes)
  AllLe-max count [] = tt
  AllLe-max count (a ∷ axes) =
      let next = if ltb a.steps count then count else a.steps in
      (ground (arith, max_ge next axes), AllLe-max next axes)

  -- every axis comes from its position to its target
  abbrev pub Leads : List (AxisLine F) → List F → List (AxisSettings F) → List ℤ → Type 0
  Leads (a ∷ axes) (t ∷ target) (set ∷ settings) (p ∷ position) =
      (moved a.negative a.steps p ≡ a.target_steps)
      × (a.target_steps ≡ l.lround (o.times t set.steps_per_mm))
      × Leads axes target settings position
  Leads [] _ _ _ = Unit
  Leads _ _ _ _ = ⊥

  abbrev pub AllSigns : List (AxisSettings F) → Type 0
  AllSigns [] = Unit
  AllSigns (a ∷ settings) = Signs o l a × AllSigns settings

  -- the target in steps and the distance to it are values of an int32_t, on each axis
  abbrev pub AllFit : List (AxisSettings F) → List F → List ℤ → Type 0
  AllFit (a ∷ settings) (t ∷ target) (p ∷ position) =
      IsInt32 (l.lround (o.times t a.steps_per_mm))
      × IsInt32 (l.lround (o.times t a.steps_per_mm) -ℤ p)
      × AllFit settings target position
  AllFit _ _ _ = Unit

  axis-moved :
      (a : AxisSettings F) (target : F) (p : ℤ)
      → Signs o l a
      → IsInt32 (l.lround (o.times target a.steps_per_mm))
      → IsInt32 (l.lround (o.times target a.steps_per_mm) -ℤ p)
      → let line = axis_line o l a target p in
        (moved line.negative line.steps p ≡ line.target_steps)
        × (line.target_steps ≡ l.lround (o.times target a.steps_per_mm))
  unfolding axis_line
  axis-moved a target p h f g =
      let fits = int32_same (l.lround (o.times target a.steps_per_mm)) f in
      let close = int32_same (l.lround (o.times target a.steps_per_mm) -ℤ p) g in
      (rw (fits, close, h.sign _) (difference_moved _ _ p refl), fits)

  pub axis_lines-Leads :
      (settings : List (AxisSettings F)) (target : List F) (position : List ℤ)
      → AllSigns settings
      → AllFit settings target position
      → Leads (axis_lines o l settings target position) target settings position
  unfolding axis_lines
  axis_lines-Leads [] target position h f = tt
  axis_lines-Leads (a ∷ settings) [] position h f = tt
  axis_lines-Leads (a ∷ settings) (t ∷ target) [] h f = tt
  axis_lines-Leads (a ∷ settings) (t ∷ target) (p ∷ position) (h, hs) (f, g, fs) =
      let (leads, arrives) = axis-moved a t p h f g in
      (leads, arrives, axis_lines-Leads settings target position hs fs)
