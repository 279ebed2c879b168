-- ===== src/Stepper/Bresenham.antt =====
-- One axis of the Bresenham loop (`stepper_pulse_func`, Stepper.cpp) over many runs of the interrupt.
use grbl_esp.Base.{
  ℕ, zero, suc, ◌+◌, ◌*◌, ◌%◌, ◌≤◌, ◌<◌, ◌≡◌, refl, sym, ap, ◌∙◌, inl, inr, Bool, true, false,
  arith, ltb, if◌then◌else◌, ltb→lt, lt→ltb, Bool-cases,
}
use grbl_esp.Base.Int.{ℤ, ◌+ℤ◌, ◌-ℤ◌, eq_of_parts, int_laws}
use grbl_esp.Stepper.{Axis, axis_tick}

-- a position moved by n steps
abbrev pub moved : Bool → ℕ → ℤ → ℤ
moved negative n p = if negative then p -ℤ ℤ.pos n else p +ℤ ℤ.pos n

-- n runs of the interrupt, for one axis
abbrev pub axis_ticks : ℕ → ℕ → Bool → Axis → Axis
axis_ticks zero total negative a = a
axis_ticks (suc n) total negative a = axis_ticks n total negative (axis_tick total negative a).0

-- the counter stays within the events of the block, and a step adds no more than one event
pub record IsSound (total : ℕ) (a : Axis) : Type 0 where
  pub counter_le : a.counter ≤ total
  pub steps_le : a.steps ≤ total
  pub fits : 2 * total < 4294967296

-- How far an axis has come: it has made k steps out of `load`, the increments of its counter, and
-- what they leave stands in the counter.
pub record Advances (total load k : ℕ) (negative : Bool) (a b : Axis) : Type 0 where
  pub counted : b.counter + k * total ≡ a.counter + load
  pub stepped : b.position ≡ moved negative k a.position
  pub same_steps : b.steps ≡ a.steps
  pub sound : IsSound total b

pub moved_twice :
    (negative : Bool) (k j : ℕ) (p : ℤ)
    → moved negative j (moved negative k p) ≡ moved negative (k + j) p
moved_twice true k j p = eq_of_parts _ _ (omega int_laws)
moved_twice false k j p = eq_of_parts _ _ (omega int_laws)

pub moved_not : (negative : Bool) (p : ℤ) → moved negative 0 p ≡ p
moved_not true p = eq_of_parts _ _ (omega int_laws)
moved_not false p = eq_of_parts _ _ (omega int_laws)

-- one run takes a step or not
tick_steps :
    (total : ℕ) (negative : Bool) (a : Axis)
    → IsSound total a
    → total < a.counter + a.steps
    → Advances total a.steps 1 negative a (axis_tick total negative a).0
unfolding axis_tick
tick_steps total negative a s h =
    let wraps : (a.counter + a.steps) % 4294967296 ≡ a.counter + a.steps =
      omega (arith, s.counter_le, s.steps_le, s.fits) in
    let over : ltb total (a.counter + a.steps) ≡ true = lt→ltb _ _ h in
    record {
      counted = ground (arith, wraps, over);
      stepped = ground (arith, wraps, over);
      same_steps = ground (arith, wraps, over);
      sound = record {
        counter_le = ground (arith, wraps, over, s.steps_le, s.counter_le);
        steps_le = ground (arith, wraps, over, s.steps_le);
        fits = s.fits;
      };
    }

tick_rests :
    (total : ℕ) (negative : Bool) (a : Axis)
    → IsSound total a
    → a.counter + a.steps ≤ total
    → Advances total a.steps 0 negative a (axis_tick total negative a).0
unfolding axis_tick
tick_rests total negative a s h =
    let wraps : (a.counter + a.steps) % 4294967296 ≡ a.counter + a.steps =
      omega (arith, s.counter_le, s.steps_le, s.fits) in
    record {
      counted = ground (arith, wraps, h);
      stepped = ground (arith, wraps, h, moved_not negative a.position);
      same_steps = ground (arith, wraps, h);
      sound = record {
        counter_le = ground (arith, wraps, h);
        steps_le = ground (arith, wraps, h, s.steps_le);
        fits = s.fits;
      };
    }

tick-Advances :
    (total : ℕ) (negative : Bool) (a : Axis)
    → IsSound total a
    → (k : ℕ) × (k ≤ 1) × Advances total a.steps k negative a (axis_tick total negative a).0
tick-Advances total negative a s = elim (Bool-cases (ltb total (a.counter + a.steps))) [
  | inl h ↦ (1, omega arith, tick_steps total negative a s (ltb→lt _ _ h))
  | inr h ↦ (0, omega arith, tick_rests total negative a s (ground arith))
]

Advances-trans :
    (total m n k j : ℕ) (negative : Bool) (a b c : Axis)
    → Advances total m k negative a b
    → Advances total n j negative b c
    → Advances total (m + n) (k + j) negative a c
Advances-trans total m n k j negative a b c u v = record {
  counted = grind (arith, u.counted, v.counted);
  stepped = v.stepped ∙ ap (moved negative j) u.stepped ∙ moved_twice negative k j a.position;
  same_steps = v.same_steps ∙ u.same_steps;
  sound = v.sound;
}

load_suc : (n x y : ℕ) → y ≡ x → x + n * y ≡ suc n * x
load_suc n x y h = rw h (grind arith)

pub axis_ticks-Advances :
    (n total : ℕ) (negative : Bool) (a : Axis)
    → IsSound total a
    → (k : ℕ) × Advances total (n * a.steps) k negative a (axis_ticks n total negative a)
axis_ticks-Advances zero total negative a s = (
  0,
  record {
    counted = omega arith;
    stepped = sym (moved_not negative a.position);
    same_steps = refl;
    sound = s;
  },
)
axis_ticks-Advances (suc n) total negative a s =
    let (k, le, once) = tick-Advances total negative a s in
    let b = (axis_tick total negative a).0 in
    let (j, more) = axis_ticks-Advances n total negative b once.sound in
    let all = Advances-trans total a.steps (n * b.steps) k j negative a b _ once more in
    let load : a.steps + n * b.steps ≡ suc n * a.steps =
      load_suc n a.steps b.steps once.same_steps in
    (k + j, rw (sym load) all)
