-- ===== src/Planner.antt =====
-- Planner.cpp and Planner.h (Grbl_Esp32/src): the ring of planned motions. This file has the ring
-- and its indices, and Recalculate the planning of the entry speeds. Speeds and distances are
-- floats: a type F with the operations of SpeedOps. BLOCK_BUFFER_SIZE is 16.
pub mod Ring
pub mod Operations
pub mod Recalculate
pub mod Line
pub mod Profiles
mod Tests
use grbl_esp.Base.{
  ℕ, zero, suc, ◌+◌, ◌-◌, ◌*◌, ◌/◌, ◌%◌, ◌^◌, ◌≤◌, ◌<◌, min, max, ◌≡◌, refl, sym, ap, ap₂, ◌∙◌, ◌≢◌,
  ◌↔◌, ◌⊎◌, inl, inr, Bool, true, false, not, ◌&&◌, ◌||◌, Option, none, some, List, [], ◌∷◌, ◌++◌,
  map, append-nil, append_assoc, arith, ltb, leb, ◌==◌, if◌then◌else◌, ltb→lt, lt→ltb, leb→le,
  ==_iff, tests, Bool-cases, Option-cases, if_true, if_false, length, get_elem?, set, length-append,
  length-set, get_elem?-set_self, get_elem?-set_ne, get_or, take, drop, replicate, take-append-drop,
  length-take, length-drop, length-replicate, length-map,
}
use grbl_esp.GCode.{SpindleState, CoolantState}

abbrev pub block_buffer_size : ℕ
block_buffer_size = 16

pub record PlMotion : Type 0 where
  pub rapid_motion : Bool
  pub system_motion : Bool
  pub no_feed_override : Bool
  pub inverse_time : Bool

-- `plan_block_t`
pub record PlanBlock (F : Type 0) : Type 0 where
  pub steps : List ℕ
  pub step_event_count : ℕ
  pub direction_bits : ℕ
  pub motion : PlMotion
  pub spindle : SpindleState
  pub coolant : CoolantState
  pub entry_speed_sqr : F
  pub max_entry_speed_sqr : F
  pub acceleration : F
  pub millimeters : F
  pub max_junction_speed_sqr : F
  pub rapid_rate : F
  pub programmed_rate : F
  pub spindle_speed : F

-- `block_buffer_tail`, `block_buffer_head`, `next_buffer_head` and `block_buffer_planned`
pub record Indices : Type 0 where
  pub tail : ℕ
  pub head : ℕ
  pub next_head : ℕ
  pub planned : ℕ

-- `plan_next_block_index` and `plan_prev_block_index`, on a uint8_t
unfoldable pub plan_next_block_index : ℕ → ℕ
plan_next_block_index i =
    let next = (i + 1) % 2 ^ 8 in if next == block_buffer_size then 0 else next

unfoldable pub plan_prev_block_index : ℕ → ℕ
plan_prev_block_index i = if i == 0 then block_buffer_size - 1 else i - 1

unfoldable pub plan_reset_buffer : Indices
plan_reset_buffer = record { tail = 0; head = 0; next_head = 1; planned = 0 }

unfoldable pub plan_discard_current_block : Indices → Indices
plan_discard_current_block r =
    if r.head == r.tail
    then r
    else (let block_index = plan_next_block_index r.tail in
        record r {
          tail = block_index;
          planned = if r.tail == r.planned then block_index else r.planned;
        })

-- the index of the first block, `none` for NULL
unfoldable pub plan_get_current_block : Indices → Option ℕ
plan_get_current_block r = if r.head == r.tail then none else some r.tail

unfoldable pub plan_check_full_buffer : Indices → Bool
plan_check_full_buffer r = r.tail == r.next_head

-- the end of `plan_buffer_line`: the new block at the head is counted in
unfoldable pub push_block : Indices → Indices
push_block r = record r { head = r.next_head; next_head = plan_next_block_index r.next_head }

-- on uint8_t
unfoldable pub plan_get_block_buffer_available : Indices → ℕ
plan_get_block_buffer_available r =
    if leb r.tail r.head then block_buffer_size - 1 - (r.head - r.tail) else r.tail - r.head - 1

unfoldable pub plan_get_block_buffer_count : Indices → ℕ
plan_get_block_buffer_count r =
    if leb r.tail r.head then r.head - r.tail else block_buffer_size - (r.tail - r.head)
