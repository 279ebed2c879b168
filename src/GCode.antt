-- ===== src/GCode.antt =====
-- GCode.h and GCode.cpp (Grbl_Esp32/src): the words of a G-code line. This file has the modes and
-- the values of a block and the state of the parser's word loop; Collapse removes comments,
-- Number reads a number, GWords, MWords and ValueWords carry out one word, Parse is the loop.
-- A float is a type F with the operations of FloatOps; a mask of bits is the list of the numbers of
-- its set bits.
pub mod Collapse
pub mod Number
pub mod GWords
pub mod MWords
pub mod ValueWords
pub mod Parse
use grbl_esp.Base.{
  ℕ, zero, suc, ◌+◌, ◌-◌, ◌*◌, ◌/◌, ◌%◌, ◌^◌, ◌≤◌, ◌<◌, min, max, ◌≡◌, refl, sym, ap, ap₂, ◌∙◌, ◌≢◌,
  ◌↔◌, ◌⊎◌, inl, inr, Bool, true, false, not, ◌&&◌, ◌||◌, Option, none, some, List, [], ◌∷◌, ◌++◌,
  map, append-nil, append_assoc, arith, ltb, leb, ◌==◌, if◌then◌else◌, ltb→lt, lt→ltb, leb→le,
  ==_iff, tests, Bool-cases, Option-cases, if_true, if_false, length, get_elem?, set, length-append,
  length-set, get_elem?-set_self, get_elem?-set_ne, get_or, take, drop, replicate, take-append-drop,
  length-take, length-drop, length-replicate, length-map,
}
use grbl_esp.Errors.{Error}
use grbl_esp.Base.Int.{ℤ}

-- the bit number of a modal group in `command_words`
pub data ModalGroup : Type 0 where
  mg0 mg1 mg2 mg3 mg4 mg5 mg6 mg7 mg8 mg12 mg13 : ModalGroup
  mm4 mm6 mm7 mm8 mm9 mm10 mm11 mm12 : ModalGroup

abbrev pub group_bit : ModalGroup → ℕ
group_bit ModalGroup.mg0 = 0
group_bit ModalGroup.mg1 = 1
group_bit ModalGroup.mg2 = 2
group_bit ModalGroup.mg3 = 3
group_bit ModalGroup.mg4 = 4
group_bit ModalGroup.mg5 = 5
group_bit ModalGroup.mg6 = 6
group_bit ModalGroup.mg7 = 7
group_bit ModalGroup.mg8 = 8
group_bit ModalGroup.mg12 = 9
group_bit ModalGroup.mg13 = 10
group_bit ModalGroup.mm4 = 11
group_bit ModalGroup.mm6 = 14
group_bit ModalGroup.mm7 = 12
group_bit ModalGroup.mm8 = 13
group_bit ModalGroup.mm9 = 14
group_bit ModalGroup.mm10 = 15
group_bit ModalGroup.mm11 = 16
group_bit ModalGroup.mm12 = 17

pub data NonModal : Type 0 where
  no_action dwell set_coordinate_data go_home0 set_home0 go_home1 set_home1 : NonModal
  absolute_override set_coordinate_offset reset_coordinate_offset : NonModal
  kinematics_core_xy kinematics_cartesian kinematics_swap_xy : NonModal

pub data Motion : Type 0 where
  seek linear cw_arc ccw_arc probe_toward probe_toward_no_error : Motion
  probe_away probe_away_no_error no_motion : Motion

pub data Plane : Type 0 where
  xy zx yz : Plane

pub data Distance : Type 0 where
  absolute incremental : Distance

pub data ProgramFlow : Type 0 where
  running paused optional_stop completed_m2 completed_m30 : ProgramFlow

pub data FeedRate : Type 0 where
  units_per_min inverse_time : FeedRate

pub data Units : Type 0 where
  mm inches : Units

pub data SpindleState : Type 0 where
  disable cw ccw : SpindleState

pub data GCodeCoolant : Type 0 where
  no_coolant m7 m8 m9 : GCodeCoolant

pub record CoolantState : Type 0 where
  pub mist : Bool
  pub flood : Bool

pub data IoControl : Type 0 where
  io_none digital_on_sync digital_off_sync digital_on_immediate digital_off_immediate : IoControl
  set_analog_sync set_analog_immediate : IoControl

pub data ToolLengthOffset : Type 0 where
  cancel enable_dynamic : ToolLengthOffset

pub data ToolChange : Type 0 where
  tool_disable tool_enable : ToolChange

pub data CoordIndex : Type 0 where
  g54 g55 g56 g57 g58 g59 : CoordIndex

-- The number of a value word, which is its bit in `value_words`.
abbrev pub word_e : ℕ
word_e = 0

abbrev pub word_f : ℕ
word_f = 1

abbrev pub word_i : ℕ
word_i = 2

abbrev pub word_j : ℕ
word_j = 3

abbrev pub word_k : ℕ
word_k = 4

abbrev pub word_l : ℕ
word_l = 5

abbrev pub word_n : ℕ
word_n = 6

abbrev pub word_p : ℕ
word_p = 7

abbrev pub word_q : ℕ
word_q = 8

abbrev pub word_r : ℕ
word_r = 9

abbrev pub word_s : ℕ
word_s = 10

abbrev pub word_t : ℕ
word_t = 11

abbrev pub word_x : ℕ
word_x = 12

abbrev pub word_y : ℕ
word_y = 13

abbrev pub word_z : ℕ
word_z = 14

abbrev pub word_a : ℕ
word_a = 15

abbrev pub word_b : ℕ
word_b = 16

abbrev pub word_c : ℕ
word_c = 17

pub data AxisCommand : Type 0 where
  no_axis_command non_modal motion_mode tool_length_offset : AxisCommand

-- `axis_command != AxisCommand::None`
abbrev pub has_axis_command : AxisCommand → Bool
has_axis_command AxisCommand.no_axis_command = false
has_axis_command _ = true

-- `gc_modal_t`, without ENABLE_PARKING_OVERRIDE_CONTROL's mode
pub record Modal : Type 0 where
  pub motion : Motion
  pub feed_rate : FeedRate
  pub units : Units
  pub distance : Distance
  pub plane_select : Plane
  pub tool_length : ToolLengthOffset
  pub coord_select : CoordIndex
  pub program_flow : ProgramFlow
  pub coolant : CoolantState
  pub spindle : SpindleState
  pub tool_change : ToolChange
  pub io_control : IoControl

-- `gc_values_t`; `values.t` is never written
pub record Values (F : Type 0) : Type 0 where
  pub e : ℕ
  pub f : F
  pub ijk : List F
  pub l : ℕ
  pub n : ℤ
  pub p : F
  pub q : F
  pub r : F
  pub s : F
  pub xyz : List F

-- `parser_block_t`
pub record Block (F : Type 0) : Type 0 where
  pub non_modal_command : NonModal
  pub modal : Modal
  pub values : Values F
  pub coolant : GCodeCoolant
  pub paper_feed_cmd : ℕ
  pub servo_cmd : ℕ

-- The local variables of the word loop of `gc_execute_line`, and `gc_state.tool`, which the loop
-- writes at once.
pub record Parser (F : Type 0) : Type 0 where
  pub block : Block F
  pub axis_command : AxisCommand
  pub axis_words : List ℕ
  pub ijk_words : List ℕ
  pub command_words : List ℕ
  pub value_words : List ℕ
  pub tool : ℕ

-- `bit_istrue(mask, bit(n))`
abbrev pub bit_istrue : List ℕ → ℕ → Bool
bit_istrue [] n = false
bit_istrue (x ∷ xs) n = x == n || bit_istrue xs n

-- The float operations of the word loop.
pub record FloatOps (F : Type 0) : Type 0 where
  -- `(float)intval`, `fval != 0` negated, `fval *= 0.01`, `fval *= 0.1`, `fval *= 10.0`, `-fval`
  pub of_uint : ℕ → F
  pub is_zero : F → Bool
  pub times_hundredth : F → F
  pub times_tenth : F → F
  pub times_ten : F → F
  pub negate : F → F
  -- `int_value = trunc(value)`, `mantissa = round(100 * (value - int_value))`, `n = trunc(value)`
  pub trunc_u8 : F → ℕ
  pub mantissa : F → ℕ → ℕ
  pub trunc_i32 : F → ℤ
  -- `value < 0.0`, `value > MaxToolNumber`
  pub is_negative : F → Bool
  pub exceeds : F → ℕ → Bool

-- What the build and the machine give: the number of axes, the pins, and whether the spindle can
-- turn backwards or is a laser.
pub record Board : Type 0 where
  pub n_axis : ℕ
  pub has_probe_pin : Bool
  pub has_mist_pin : Bool
  pub has_flood_pin : Bool
  pub has_paper_feed_pin : Bool
  pub has_servo_pin : Bool
  pub allows_m4 : Bool

-- What a word asks for, or the error that ends the line.
pub data Result (A : Type 0) : Type 0 where
  ok : A → Result A
  fail : Error → Result A

abbrev pub bind : {A B : Type 0} → Result A → (A → Result B) → Result B
bind (ok x) f = f x
bind (fail e) f = fail e
