-- ===== src/Planner/Recalculate/Limits.antt =====
-- The limits that `planner_recalculate` (Planner.cpp) keeps.
use grbl_esp.Base.{
  ℕ, zero, suc, ◌≡◌, refl, sym, ap, ◌∙◌, ◌≢◌, ◌⊎◌, inl, inr, true, false, ◌&&◌, Option, none, some,
  arith, ◌==◌, Bool-cases, Option-cases, if_true, if_false,
}
use grbl_esp.Planner.{PlanBlock, Indices, plan_next_block_index, plan_prev_block_index}
use grbl_esp.Planner.Recalculate.{
  SpeedOps, Plan, set_entry, st_update_plan_block_parameters, speed_gain, minimum, notify_tail,
  plan_entry, reverse_pass, plan_reverse, forward_step, forward_pass, planner_recalculate,
}

-- What is used of the order on floats: it holds in IEEE arithmetic, NaN included.
pub record Order {F : Type 0} (ops : SpeedOps F) : Type 0 where
  pub irreflexive : (a : F) → ops.less a a ≡ false
  pub transitive : (a b c : F) → ops.less a b ≡ true → ops.less b c ≡ true → ops.less a c ≡ true

module _ {F : Type 0} (ops : SpeedOps F) (order : Order ops) where
  -- a block whose entry speed is not above its maximum
  abbrev pub IsWithin : PlanBlock F → Type 0
  IsWithin b = ops.less b.max_entry_speed_sqr b.entry_speed_sqr ≡ false

  -- every block but the one with index `running`, which is the only one that the stepper can have
  pub record AreWithin (running : ℕ) (s : Plan F) : Type 0 where
    pub within : (i : ℕ) → i ≢ running → IsWithin (s.blocks i)
    pub only : (s.prep.pl_block ≡ none) ⊎ (s.prep.pl_block ≡ some running)

  asymmetric : (a b : F) → ops.less a b ≡ true → ops.less b a ≡ false
  asymmetric a b h = ground (arith, order.transitive a b a, order.irreflexive a)

  -- the minimum is above neither
  minimum_left : (a b : F) → ops.less a (minimum ops a b) ≡ false
  minimum_left a b = ground (arith, order.irreflexive a)

  minimum_right : (a b : F) → ops.less b (minimum ops a b) ≡ false
  minimum_right a b = ground (arith, order.irreflexive b, asymmetric a b)

  -- a value below one that is within the limit is within it too
  lower : (m v w : F) → ops.less v w ≡ true → ops.less m w ≡ false → ops.less m v ≡ false
  lower m v w h k = ground (arith, order.transitive m v w)

  set_entry-AreWithin :
      (running i : ℕ) (v : F) (s : Plan F)
      → (i ≢ running → ops.less (s.blocks i).max_entry_speed_sqr v ≡ false)
      → AreWithin running s
      → AreWithin running (record s { blocks = set_entry ops i v s.blocks })
  set_entry-AreWithin running i v s small h = record { within = at_index; only = h.only }
    where
      at_index : (j : ℕ) → j ≢ running → IsWithin (set_entry ops i v s.blocks j)
      at_index j other = elim (Bool-cases (i == j)) [
        | inl e ↦
            let same : i ≡ j = ground arith in
            rw e (
              ap (λ (x : ℕ). ops.less (s.blocks x).max_entry_speed_sqr v) (sym same)
              ∙ small (λ q. other (sym same ∙ q)))
        | inr e ↦ rw e (h.within j other)
      ]

  update-AreWithin :
      (running : ℕ) (s : Plan F)
      → AreWithin running s
      → AreWithin running (st_update_plan_block_parameters ops s)
  unfolding st_update_plan_block_parameters
  update-AreWithin running s h = go s.prep.pl_block h.only
    where
      speed : F
      speed = ops.times s.prep.current_speed s.prep.current_speed

      at_index : (i j : ℕ) → i ≡ running → j ≢ running → IsWithin (set_entry ops i speed s.blocks j)
      at_index i j same other = elim (Bool-cases (i == j)) [
        | inl e ↦ ground (arith, other)
        | inr e ↦ rw e (h.within j other)
      ]

      go :
          (o : Option ℕ)
          → (o ≡ none) ⊎ (o ≡ some running)
          → AreWithin running (elim o [
            | none ↦ s
            | some i ↦ record {
              blocks =
                  set_entry ops i (ops.times s.prep.current_speed s.prep.current_speed) s.blocks;
              prep = record s.prep { pl_block = none; recalculate = true };
            }
          ])
      go none d = h
      go (some i) (inl d) = ground arith
      go (some i) (inr d) =
          let same : i ≡ running = ground arith in
          record { within = λ j other. at_index i j same other; only = inl refl }

  notify_tail-AreWithin :
      (running tail i : ℕ) (s : Plan F)
      → AreWithin running s
      → AreWithin running (notify_tail ops tail i s)
  unfolding notify_tail
  notify_tail-AreWithin running tail i s h = elim (Bool-cases (i == tail)) [
    | inl e ↦ rw e (update-AreWithin running s h)
    | inr e ↦ rw e h
  ]

  plan_entry-AreWithin :
      (running next current : ℕ) (s : Plan F)
      → AreWithin running s
      → AreWithin running (plan_entry ops next current s)
  unfolding plan_entry
  plan_entry-AreWithin running next current s h =
      let b = s.blocks current in
      elim (Bool-cases (ops.same b.entry_speed_sqr b.max_entry_speed_sqr)) [
        | inl e ↦ rw e h
        | inr e ↦ rw e (set_entry-AreWithin running current _ s (λ _. minimum_right _ _) h)
      ]

  some-AreWithin :
      (running : ℕ) (s t : Plan F) → AreWithin running s → some s ≡ some t → AreWithin running t
  some-AreWithin running s t h e =
      let same : s ≡ t = ap (λ (o : Option (Plan F)). elim o [ none ↦ s | some x ↦ x ]) e in
      rw (sym same) h

  reverse_pass-AreWithin :
      (running : ℕ) (r : Indices) (fuel next i : ℕ) (s t : Plan F)
      → AreWithin running s
      → reverse_pass ops r fuel next i s ≡ some t
      → AreWithin running t
  unfolding reverse_pass
  reverse_pass-AreWithin running r zero next i s t h e = ground arith
  reverse_pass-AreWithin running r (suc fuel) next i s t h e = elim (Bool-cases (i == r.planned)) [
    | inl d ↦ some-AreWithin running s t h (sym (if_true _ _ d) ∙ e)
    | inr d ↦
        reverse_pass-AreWithin running r fuel i (plan_prev_block_index i) _ t
          (plan_entry-AreWithin running next i _ (notify_tail-AreWithin running r.tail _ s h))
          (sym (if_false _ _ d) ∙ e)
  ]

  -- the block that ends at rest
  plan_reverse-AreWithin :
      (running : ℕ) (r : Indices) (s t : Plan F)
      → AreWithin running s
      → plan_reverse ops r s ≡ some t
      → AreWithin running t
  unfolding plan_reverse
  plan_reverse-AreWithin running r s t h e =
      let last = plan_prev_block_index r.head in
      let b = s.blocks last in
      let ended =
        set_entry-AreWithin running last _ s
          (λ _. minimum_left b.max_entry_speed_sqr (speed_gain ops b)) h in
      let i = plan_prev_block_index last in
      elim (Bool-cases (i == r.planned)) [
        | inl d ↦
            some-AreWithin running _ t (notify_tail-AreWithin running r.tail i _ ended)
              (sym (if_true _ _ d) ∙ e)
        | inr d ↦ reverse_pass-AreWithin running r 16 last i _ t ended (sym (if_false _ _ d) ∙ e)
      ]

  -- what the forward pass lowers stays below its maximum
  forward_step-AreWithin :
      (running current next planned : ℕ) (s : Plan F)
      → AreWithin running s
      → AreWithin running (forward_step ops current next planned s).0
  unfolding forward_step
  forward_step-AreWithin running current next planned s h =
      let c = s.blocks current in
      let n = s.blocks next in
      let reached = ops.plus c.entry_speed_sqr (speed_gain ops c) in
      elim (Bool-cases
        (ops.less c.entry_speed_sqr n.entry_speed_sqr && ops.less reached n.entry_speed_sqr)) [
          | inl e ↦ rw e (
              set_entry-AreWithin running next reached s
                (λ q.
                  lower n.max_entry_speed_sqr reached n.entry_speed_sqr (ground arith)
                    (h.within next q))
                h)
          | inr e ↦ rw e h
        ]

  forward_pass-AreWithin :
      (running head fuel current i planned : ℕ) (s : Plan F) (t : Plan F × ℕ)
      → AreWithin running s
      → forward_pass ops head fuel current i planned s ≡ some t
      → AreWithin running t.0
  unfolding forward_pass
  forward_pass-AreWithin running head zero current i planned s t h e = ground arith
  forward_pass-AreWithin running head (suc fuel) current i planned s t h e =
      elim (Bool-cases (i == head)) [
        | inl d ↦
            let stopped = sym (if_true _ _ d) ∙ e in
            let same : s ≡ t.0 =
              ap (λ (o : Option (Plan F × ℕ)). elim o [ none ↦ s | some x ↦ x.0 ]) stopped in
            rw (sym same) h
        | inr d ↦
            let (s', planned') = forward_step ops current i planned s in
            forward_pass-AreWithin running head fuel i (plan_next_block_index i) planned' s' t
              (forward_step-AreWithin running current i planned s h) (sym (if_false _ _ d) ∙ e)
      ]

  -- Planning leaves no entry speed above its maximum: if before a recalculation no block but the one
  -- in execution enters faster than its maximum entry speed, this holds behind it too, whatever the
  -- speed of the executing block has become.
  pub planner_recalculate-AreWithin :
      (running : ℕ) (r : Indices) (s : Plan F) (t : Indices × Plan F)
      → AreWithin running s
      → planner_recalculate ops r s ≡ some t
      → AreWithin running t.1
  unfolding planner_recalculate
  planner_recalculate-AreWithin running r s t h =
      elim (Bool-cases (plan_prev_block_index r.head == r.planned)) [
        | inl d ↦ rw d (λ e.
            let same : s ≡ t.1 =
              ap (λ (o : Option (Indices × Plan F)). elim o [ none ↦ s | some x ↦ x.1 ]) e in
            rw (sym same) h)
        | inr d ↦ elim (Option-cases (plan_reverse ops r s)) [
          | inl n ↦ rw (d, n) (λ e. ground arith)
          | inr (u, n) ↦
              let reversed = plan_reverse-AreWithin running r s u h n in
              elim (Option-cases (
                forward_pass ops r.head 16 r.planned (plan_next_block_index r.planned) r.planned
                  u)) [
                    | inl m ↦ rw (d, n, m) (λ e. ground arith)
                    | inr (v, m) ↦
                        let forwarded =
                          forward_pass-AreWithin running r.head 16 r.planned _ r.planned u v
                            reversed m in
                        rw (d, n, m)
                          (λ e.
                            let same : v.0 ≡ t.1 =
                              ap
                                (λ (o : Option (Indices × Plan F)). elim o [
                                  | none ↦ v.0
                                  | some x ↦ x.1
                                ])
                                e in
                            rw (sym same) forwarded)
                  ]
        ]
      ]
