-- ===== src/Planner/Recalculate/Speeds.antt =====
-- What a recalculation of the plan leaves alone (`planner_recalculate`, Planner.cpp): all of the
-- blocks but their entry speeds, and all indices but the planned pointer.
use grbl_esp.Base.{
  ℕ, zero, suc, ◌≡◌, refl, sym, ap, ◌∙◌, inl, inr, true, ◌&&◌, Option, none, some, arith, ◌==◌,
  Bool-cases, Option-cases, if_true, if_false,
}
use grbl_esp.Planner.{PlanBlock, Indices, plan_next_block_index, plan_prev_block_index}
use grbl_esp.Planner.Recalculate.{
  SpeedOps, Plan, set_entry, notify_tail, plan_entry, reverse_pass, plan_reverse, forward_step,
  forward_pass, planner_recalculate, st_update_plan_block_parameters, speed_gain, minimum,
}

-- the blocks of `t` are those of `s` but for their entry speeds
pub record SameBlocks {F : Type 0} (s t : Plan F) : Type 0 where
  pub only_speeds :
      (j : ℕ) → t.blocks j ≡ record (s.blocks j) { entry_speed_sqr = (t.blocks j).entry_speed_sqr }

module _ {F : Type 0} (ops : SpeedOps F) where
  pub entry-SameBlocks :
      (s t : Plan F) (i : ℕ) (v : F)
      → SameBlocks s t
      → SameBlocks s (record t { blocks = set_entry ops i v t.blocks })
  entry-SameBlocks s t i v h = record {
    only_speeds = λ j. elim (Bool-cases (i == j)) [
      | inl e ↦ rw e (ap (λ (b : PlanBlock F). record b { entry_speed_sqr = v }) (h.only_speeds j))
      | inr e ↦ rw e (h.only_speeds j)
    ];
  }

  update_cases :
      (x : Option ℕ) (s t : Plan F)
      → SameBlocks s t
      → SameBlocks s (elim x [
        | none ↦ t
        | some i ↦ record {
          blocks = set_entry ops i (ops.times t.prep.current_speed t.prep.current_speed) t.blocks;
          prep = record t.prep { pl_block = none; recalculate = true };
        }
      ])
  update_cases none s t h = h
  update_cases (some i) s t h = record {
    only_speeds =
        let same = entry-SameBlocks s t i (ops.times t.prep.current_speed t.prep.current_speed) h in
        same.only_speeds;
  }

  update-SameBlocks :
      (s t : Plan F) → SameBlocks s t → SameBlocks s (st_update_plan_block_parameters ops t)
  unfolding st_update_plan_block_parameters
  update-SameBlocks s t h = update_cases t.prep.pl_block s t h

  notify-SameBlocks :
      (tail i : ℕ) (s t : Plan F) → SameBlocks s t → SameBlocks s (notify_tail ops tail i t)
  unfolding notify_tail
  notify-SameBlocks tail i s t h = elim (Bool-cases (i == tail)) [
    | inl e ↦ rw e (update-SameBlocks s t h)
    | inr e ↦ rw e h
  ]

  plan_entry-SameBlocks :
      (next i : ℕ) (s t : Plan F) → SameBlocks s t → SameBlocks s (plan_entry ops next i t)
  unfolding plan_entry
  plan_entry-SameBlocks next i s t h =
      let b = t.blocks i in
      elim (Bool-cases (ops.same b.entry_speed_sqr b.max_entry_speed_sqr)) [
        | inl e ↦ rw e h
        | inr e ↦ rw e (entry-SameBlocks s t i _ h)
      ]

  some-SameBlocks : (s t u : Plan F) → SameBlocks s t → some t ≡ some u → SameBlocks s u
  some-SameBlocks s t u h e =
      let same : t ≡ u = ap (λ (o : Option (Plan F)). elim o [ none ↦ t | some x ↦ x ]) e in
      rw (sym same) h

  reverse-SameBlocks :
      (r : Indices) (fuel next i : ℕ) (s t u : Plan F)
      → SameBlocks s t
      → reverse_pass ops r fuel next i t ≡ some u
      → SameBlocks s u
  unfolding reverse_pass
  reverse-SameBlocks r zero next i s t u h e = ground arith
  reverse-SameBlocks r (suc fuel) next i s t u h e = elim (Bool-cases (i == r.planned)) [
    | inl d ↦ some-SameBlocks s t u h (sym (if_true _ _ d) ∙ e)
    | inr d ↦
        let before = plan_prev_block_index i in
        reverse-SameBlocks r fuel i before s _ u
          (plan_entry-SameBlocks next i s _ (notify-SameBlocks r.tail before s t h))
          (sym (if_false _ _ d) ∙ e)
  ]

  plan_reverse-SameBlocks :
      (r : Indices) (s u : Plan F) → plan_reverse ops r s ≡ some u → SameBlocks s u
  unfolding plan_reverse
  plan_reverse-SameBlocks r s u e =
      let last = plan_prev_block_index r.head in
      let b = s.blocks last in
      let ended =
        entry-SameBlocks s s last (minimum ops b.max_entry_speed_sqr (speed_gain ops b))
          (record { only_speeds = λ j. refl }) in
      let i = plan_prev_block_index last in
      elim (Bool-cases (i == r.planned)) [
        | inl d ↦
            some-SameBlocks s _ u (notify-SameBlocks r.tail i s _ ended) (sym (if_true _ _ d) ∙ e)
        | inr d ↦ reverse-SameBlocks r 16 last i s _ u ended (sym (if_false _ _ d) ∙ e)
      ]

  step-SameBlocks :
      (current next planned : ℕ) (s t : Plan F)
      → SameBlocks s t
      → SameBlocks s (forward_step ops current next planned t).0
  unfolding forward_step
  step-SameBlocks current next planned s t h =
      let c = t.blocks current in
      let n = t.blocks next in
      let reached = ops.plus c.entry_speed_sqr (speed_gain ops c) in
      elim (Bool-cases
        (ops.less c.entry_speed_sqr n.entry_speed_sqr && ops.less reached n.entry_speed_sqr)) [
          | inl e ↦ rw e (entry-SameBlocks s t next reached h)
          | inr e ↦ rw e h
        ]

  forward-SameBlocks :
      (head fuel current i planned : ℕ) (s t : Plan F) (u : Plan F × ℕ)
      → SameBlocks s t
      → forward_pass ops head fuel current i planned t ≡ some u
      → SameBlocks s u.0
  unfolding forward_pass
  forward-SameBlocks head zero current i planned s t u h e = ground arith
  forward-SameBlocks head (suc fuel) current i planned s t u h e = elim (Bool-cases (i == head)) [
    | inl d ↦ some-SameBlocks s t u.0 h (
        ap (λ (o : Option (Plan F × ℕ)). elim o [ none ↦ some t | some x ↦ some x.0 ])
          (sym (if_true _ _ d) ∙ e))
    | inr d ↦
        let (t', planned') = forward_step ops current i planned t in
        forward-SameBlocks head fuel i (plan_next_block_index i) planned' s t' u
          (step-SameBlocks current i planned s t h) (sym (if_false _ _ d) ∙ e)
  ]

  -- the outcome of a recalculation
  pub record Replans (r : Indices) (s : Plan F) (t : Indices × Plan F) : Type 0 where
    pub same_indices : t.0 ≡ record r { planned = t.0.planned }
    pub same_blocks : SameBlocks s t.1

  some-Replans :
      (r : Indices) (s : Plan F) (x t : Indices × Plan F)
      → Replans r s x
      → some x ≡ some t
      → Replans r s t
  some-Replans r s x t h e =
      let same : x ≡ t =
        ap (λ (o : Option (Indices × Plan F)). elim o [ none ↦ x | some y ↦ y ]) e in
      rw (sym same) h

  -- A recalculation writes no more than it should, whichever way its passes go: behind it each place of
  -- the ring holds the block it held, with its steps, limits and rates, only with another entry speed
  -- perhaps, and of the indices only the planned pointer may have moved.
  pub planner_recalculate-Replans :
      (r : Indices) (s : Plan F) (t : Indices × Plan F)
      → planner_recalculate ops r s ≡ some t
      → Replans r s t
  unfolding planner_recalculate
  planner_recalculate-Replans r s t =
      elim (Bool-cases (plan_prev_block_index r.head == r.planned)) [
        | inl d ↦ rw d (
            some-Replans r s (r, s) t
              (record { same_indices = refl; same_blocks = record { only_speeds = λ j. refl } }))
        | inr d ↦ elim (Option-cases (plan_reverse ops r s)) [
          | inl n ↦ rw (d, n) (λ e. ground arith)
          | inr (u, n) ↦
              elim (Option-cases (
                forward_pass ops r.head 16 r.planned (plan_next_block_index r.planned) r.planned
                  u)) [
                    | inl m ↦ rw (d, n, m) (λ e. ground arith)
                    | inr (v, m) ↦
                        let forwarded =
                          forward-SameBlocks r.head 16 r.planned _ r.planned s u v
                            (plan_reverse-SameBlocks r s u n) m in
                        rw (d, n, m)
                          (some-Replans r s (record r { planned = v.1 }, v.0) t
                            (record { same_indices = refl; same_blocks = forwarded }))
                  ]
        ]
      ]
