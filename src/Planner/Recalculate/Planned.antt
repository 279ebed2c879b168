-- ===== src/Planner/Recalculate/Planned.antt =====
-- The planned pointer that `planner_recalculate` (Planner.cpp) leaves.
use grbl_esp.Base.{
  ℕ, zero, suc, ◌+◌, ◌<◌, ◌≡◌, sym, ap, ◌∙◌, ◌⊎◌, inl, inr, false, Option, none, some, arith, ◌==◌,
  if◌then◌else◌, Bool-cases, Option-cases, if_true, if_false,
}
use grbl_esp.Planner.{Indices, plan_next_block_index, plan_prev_block_index}
use grbl_esp.Planner.Ring.{distance, next_lem, IsValid}
use grbl_esp.Planner.Recalculate.{
  SpeedOps, Plan, plan_reverse, forward_step, forward_pass, planner_recalculate,
}

-- places from the tail on, in front of the head
pub record IsPending (tail head i : ℕ) : Type 0 where
  pub index_lt : i < 16
  pub before_head : distance tail i < distance tail head

-- the place behind a pending one is pending too, or it is the head
next-IsPending :
    (tail head i : ℕ)
    → tail < 16
    → head < 16
    → IsPending tail head i
    → (plan_next_block_index i == head) ≡ false
    → IsPending tail head (plan_next_block_index i)
next-IsPending tail head i t h p d =
    let e = next_lem i p.index_lt in
    let d' : ((if i == 15 then 0 else i + 1) == head) ≡ false =
      ap (λ (x : ℕ). x == head) (sym e) ∙ d in
    rw e (ground (arith, t, h, p.index_lt, p.before_head, d'))

module _ {F : Type 0} (ops : SpeedOps F) where
  forward_step-planned :
      (current next planned : ℕ) (s : Plan F)
      → ((forward_step ops current next planned s).1 ≡ planned)
        ⊎ ((forward_step ops current next planned s).1 ≡ next)
  unfolding forward_step
  forward_step-planned current next planned s = ground arith

  forward_pass-IsPending :
      (tail head fuel current i planned : ℕ) (s : Plan F) (t : Plan F × ℕ)
      → tail < 16
      → head < 16
      → IsPending tail head planned
      → ((i == head) ≡ false → IsPending tail head i)
      → forward_pass ops head fuel current i planned s ≡ some t
      → IsPending tail head t.1
  unfolding forward_pass
  forward_pass-IsPending tail head zero current i planned s t a b p q e = ground arith
  forward_pass-IsPending tail head (suc fuel) current i planned s t a b p q e =
      elim (Bool-cases (i == head)) [
        | inl d ↦
            let same : planned ≡ t.1 =
              ap (λ (o : Option (Plan F × ℕ)). elim o [ none ↦ planned | some x ↦ x.1 ])
                (sym (if_true _ _ d) ∙ e) in
            rw (sym same) p
        | inr d ↦
            let (s', planned') = forward_step ops current i planned s in
            let p' : IsPending tail head planned' =
              elim (forward_step-planned current i planned s) [
                | inl k ↦ rw k p
                | inr k ↦ rw k (q d)
              ] in
            forward_pass-IsPending tail head fuel i (plan_next_block_index i) planned' s' t a b p'
              (next-IsPending tail head i a b (q d)) (sym (if_false _ _ d) ∙ e)
      ]

  -- A recalculation keeps the indices valid and the planned pointer in front of the head, if it was
  -- in front of the head; on an empty ring, where it cannot be, nothing is said.
  pub planner_recalculate-IsValid :
      (r : Indices) (s : Plan F) (t : Indices × Plan F)
      → IsValid r
      → (r.planned == r.head) ≡ false
      → planner_recalculate ops r s ≡ some t
      → IsValid t.0 × IsPending r.tail r.head t.0.planned
  unfolding planner_recalculate
  planner_recalculate-IsValid r s t v f =
      let pending : IsPending r.tail r.head r.planned = record {
        index_lt = v.planned_lt;
        before_head = ground (arith, v.planned_between, v.tail_lt, v.head_lt, v.planned_lt);
      } in
      elim (Bool-cases (plan_prev_block_index r.head == r.planned)) [
        | inl d ↦ rw d (λ e.
            let same : r ≡ t.0 =
              ap (λ (o : Option (Indices × Plan F)). elim o [ none ↦ r | some x ↦ x.0 ]) e in
            rw (sym same) (v, pending))
        | inr d ↦ elim (Option-cases (plan_reverse ops r s)) [
          | inl n ↦ rw (d, n) (λ e. ground arith)
          | inr (u, n) ↦
              elim (Option-cases (
                forward_pass ops r.head 16 r.planned (plan_next_block_index r.planned) r.planned
                  u)) [
                    | inl m ↦ rw (d, n, m) (λ e. ground arith)
                    | inr (w, m) ↦
                        let p =
                          forward_pass-IsPending r.tail r.head 16 r.planned _ r.planned u w
                            v.tail_lt v.head_lt pending
                            (next-IsPending r.tail r.head r.planned v.tail_lt v.head_lt pending)
                            m in
                        rw (d, n, m)
                          (λ e.
                            let same : record r { planned = w.1 } ≡ t.0 =
                              ap
                                (λ (o : Option (Indices × Plan F)). elim o [
                                  | none ↦ r
                                  | some x ↦ x.0
                                ])
                                e in
                            rw (sym same) (
                              record {
                                tail_lt = v.tail_lt;
                                head_lt = v.head_lt;
                                planned_lt = p.index_lt;
                                next_is = v.next_is;
                                planned_between = ground (arith, p.before_head);
                              },
                              p,
                            ))
                  ]
        ]
      ]
