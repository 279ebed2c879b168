-- ===== src/Planner/Recalculate/Terminates.antt =====
-- The loops of `planner_recalculate` (Planner.cpp) end within one turn for each place of the ring.
use grbl_esp.Base.{
  ℕ, zero, suc, ◌+◌, ◌<◌, ◌≡◌, refl, ◌∙◌, inl, inr, false, some, arith, ◌==◌, Bool-cases, if_true,
  if_false,
}
use grbl_esp.Planner.{Indices, plan_next_block_index, plan_prev_block_index}
use grbl_esp.Planner.Ring.{distance, next_lem, IsValid}
use grbl_esp.Planner.Recalculate.{
  SpeedOps, Plan, reverse_pass, plan_reverse, forward_step, forward_pass, planner_recalculate,
  notify_tail, plan_entry,
}

-- a step back comes closer to the planned pointer, and a step on to the head
prev-distance :
    (i p : ℕ)
    → i < 16
    → p < 16
    → (i == p) ≡ false
    → (plan_prev_block_index i < 16) × (distance p i ≡ distance p (plan_prev_block_index i) + 1)
unfolding plan_prev_block_index
prev-distance i p h k d = ground arith

prev_lt : (i : ℕ) → i < 16 → plan_prev_block_index i < 16
unfolding plan_prev_block_index
prev_lt i h = ground arith

pub next-distance :
    (i p : ℕ)
    → i < 16
    → p < 16
    → (i == p) ≡ false
    → (plan_next_block_index i < 16) × (distance i p ≡ distance (plan_next_block_index i) p + 1)
next-distance i p h k d = rw (next_lem i h) (ground arith)

next_lt : (i : ℕ) → i < 16 → plan_next_block_index i < 16
next_lt i h = rw (next_lem i h) (ground arith)

pub distance_lt : (i j : ℕ) → i < 16 → j < 16 → distance i j < 16
distance_lt i j h k = ground arith

module _ {F : Type 0} (ops : SpeedOps F) where
  reverse_pass_ends :
      (r : Indices) (fuel next i : ℕ) (s : Plan F)
      → r.planned < 16
      → i < 16
      → distance r.planned i < fuel
      → (t : Plan F) × (reverse_pass ops r fuel next i s ≡ some t)
  unfolding reverse_pass
  reverse_pass_ends r zero next i s p h k = ground arith
  reverse_pass_ends r (suc fuel) next i s p h k = elim (Bool-cases (i == r.planned)) [
    | inl d ↦ (s, if_true _ _ d)
    | inr d ↦
        let back = prev-distance i r.planned h p d in
        let (t, e) =
          reverse_pass_ends r fuel i (plan_prev_block_index i)
            (plan_entry ops next i (notify_tail ops r.tail (plan_prev_block_index i) s)) p back.0
            (omega (arith, back.1)) in
        (t, if_false _ _ d ∙ e)
  ]

  forward_pass_ends :
      (head fuel current i planned : ℕ) (s : Plan F)
      → head < 16
      → i < 16
      → distance i head < fuel
      → (t : Plan F × ℕ) × (forward_pass ops head fuel current i planned s ≡ some t)
  unfolding forward_pass
  forward_pass_ends head zero current i planned s p h k = ground arith
  forward_pass_ends head (suc fuel) current i planned s p h k = elim (Bool-cases (i == head)) [
    | inl d ↦ ((s, planned), if_true _ _ d)
    | inr d ↦
        let on = next-distance i head h p d in
        let (s', planned') = forward_step ops current i planned s in
        let (t, e) =
          forward_pass_ends head fuel i (plan_next_block_index i) planned' s' p on.0
            (omega (arith, on.1)) in
        (t, if_false _ _ d ∙ e)
  ]

  plan_reverse_ends :
      (r : Indices) (s : Plan F)
      → r.planned < 16
      → r.head < 16
      → (t : Plan F) × (plan_reverse ops r s ≡ some t)
  unfolding plan_reverse
  plan_reverse_ends r s p h =
      let last = plan_prev_block_index r.head in
      let i = plan_prev_block_index last in
      let i_lt = prev_lt last (prev_lt r.head h) in
      elim (Bool-cases (i == r.planned)) [
        | inl d ↦ (_, if_true _ _ d)
        | inr d ↦
            let (t, e) = reverse_pass_ends r 16 last i _ p i_lt (distance_lt r.planned i p i_lt) in
            (t, if_false _ _ d ∙ e)
      ]

  -- On valid indices a recalculation comes to its end: both passes stop before their sixteenth turn
  -- is over.
  pub planner_recalculate_ends :
      (r : Indices) (s : Plan F)
      → IsValid r
      → (t : Indices × Plan F) × (planner_recalculate ops r s ≡ some t)
  unfolding planner_recalculate
  planner_recalculate_ends r s v = elim (Bool-cases (plan_prev_block_index r.head == r.planned)) [
    | inl d ↦ ((r, s), if_true _ _ d)
    | inr d ↦
        let (u, n) = plan_reverse_ends r s v.planned_lt v.head_lt in
        let start = next_lt r.planned v.planned_lt in
        let (w, m) =
          forward_pass_ends r.head 16 r.planned (plan_next_block_index r.planned) r.planned u
            v.head_lt start (distance_lt _ r.head start v.head_lt) in
        ((record r { planned = w.1 }, w.0), rw (d, n, m) refl)
  ]
