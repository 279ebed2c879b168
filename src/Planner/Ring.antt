-- ===== src/Planner/Ring.antt =====
-- The indices of the ring of planned motions (Planner.cpp): when they are well-formed, and what the tests
-- on them say.
use grbl_esp.Base.{
  ℕ, ◌+◌, ◌-◌, ◌≤◌, ◌<◌, ◌≡◌, refl, false, none, some, arith, leb, ◌==◌, if◌then◌else◌,
}
use grbl_esp.Planner.{
  Indices, plan_next_block_index, plan_reset_buffer, plan_discard_current_block,
  plan_get_current_block, plan_check_full_buffer, push_block, plan_get_block_buffer_available,
  plan_get_block_buffer_count,
}

-- how many steps lead from one place of the ring to another
abbrev pub distance : ℕ → ℕ → ℕ
distance i j = if leb i j then j - i else j + 16 - i

-- The indices are places of the ring, `next_head` is behind the head, and the planned pointer is
-- between the tail and the head.
pub record IsValid (r : Indices) : Type 0 where
  pub tail_lt : r.tail < 16
  pub head_lt : r.head < 16
  pub planned_lt : r.planned < 16
  pub next_is : r.next_head ≡ (if r.head == 15 then 0 else r.head + 1)
  pub planned_between : distance r.tail r.planned ≤ distance r.tail r.head

pub next_lem : (i : ℕ) → i < 16 → plan_next_block_index i ≡ (if i == 15 then 0 else i + 1)
unfolding plan_next_block_index
next_lem i h = ground arith

pub reset-IsValid : IsValid plan_reset_buffer
unfolding plan_reset_buffer
reset-IsValid = ground arith

-- the tail moves on; the planned pointer is pushed along, if the tail was there
pub discard-IsValid : (r : Indices) → IsValid r → IsValid (plan_discard_current_block r)
unfolding plan_discard_current_block
discard-IsValid r v = ground (
  arith,
  next_lem r.tail v.tail_lt,
  v.tail_lt,
  v.head_lt,
  v.planned_lt,
  v.next_is,
  v.planned_between,
)

next_head_lt : (r : Indices) → IsValid r → r.next_head < 16
next_head_lt r v = ground (arith, v.head_lt, v.next_is)

pub push-IsValid :
    (r : Indices) → IsValid r → plan_check_full_buffer r ≡ false → IsValid (push_block r)
unfolding push_block plan_check_full_buffer
push-IsValid r v free = ground (
  arith,
  next_lem r.next_head (next_head_lt r v),
  v.tail_lt,
  v.head_lt,
  v.planned_lt,
  v.next_is,
  v.planned_between,
)

-- The tests on the ring say what they should: available and active blocks are fifteen together, the
-- ring is full at fifteen and there is a current block, the one at the tail, unless it is empty.
pub record Agrees (r : Indices) (n : ℕ) : Type 0 where
  pub count_is : plan_get_block_buffer_count r ≡ n
  pub available_is : plan_get_block_buffer_available r + n ≡ 15
  pub full_is : plan_check_full_buffer r ≡ (n == 15)
  pub current_is : plan_get_current_block r ≡ (if n == 0 then none else some r.tail)

pub agrees : (r : Indices) → IsValid r → Agrees r (plan_get_block_buffer_count r)
unfolding plan_get_block_buffer_count plan_get_block_buffer_available plan_check_full_buffer
    plan_get_current_block
agrees r v = record {
  count_is = refl;
  available_is = ground (arith, v.tail_lt, v.head_lt);
  full_is = ground (arith, v.tail_lt, v.head_lt, v.next_is);
  current_is = ground (arith, v.tail_lt, v.head_lt);
}
