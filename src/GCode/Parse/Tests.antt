-- ===== src/GCode/Parse/Tests.antt =====
-- Lines for the parser of G-code words (GCode.cpp, NutsBolts.cpp).
use grbl_esp.Base.{
  ℕ, ◌+◌, ◌<◌, ◌-◌, ◌*◌, ◌/◌, ◌%◌, ◌^◌, ◌≡◌, refl, true, false, Option, none, some, List, [], ◌∷◌,
  arith, ltb, ◌==◌, length,
}
use grbl_esp.Errors.{Error}
use grbl_esp.GCode.{Parser, Board, FloatOps}
use grbl_esp.GCode.GWords.{g_word}
use grbl_esp.GCode.ValueWords.{value_word}
use grbl_esp.GCode.Number.{read_float}
use grbl_esp.GCode.Parse.{parse_word, gc_parse_line, init_block}
use grbl_esp.GCode.{Modal}
use grbl_esp.GCode.Collapse.{collapse_gcode}
use grbl_esp.GCode.{
  Modal, Motion, Plane, Distance, ProgramFlow, FeedRate, Units, SpindleState, ToolLengthOffset,
  ToolChange, IoControl, CoordIndex,
}
use grbl_esp.GCode.Parse.Terminates.{gc_parse_line_ends}
use grbl_esp.Base.Int.{ℤ}
use grbl_esp.GCode.Collapse.Idempotent.{IsCode, collapse_gcode_twice}
use grbl_esp.GCode.Number.{no_digits, read_digits, add_digit}
use grbl_esp.GCode.Number.Bounds.{Reads, read_digits-Reads}

-- Numbers for the examples: hundredths, without a sign.
abbrev hundredths : FloatOps ℕ
hundredths = record {
  of_uint = λ n. n * 100;
  is_zero = λ v. v == 0;
  times_hundredth = λ v. v / 100;
  times_tenth = λ v. v / 10;
  times_ten = λ v. v * 10;
  negate = λ v. v;
  trunc_u8 = λ v. (v / 100) % 2 ^ 8;
  mantissa = λ v n. v - n * 100;
  trunc_i32 = λ v. ℤ.pos (v / 100);
  is_negative = λ v. false;
  exceeds = λ v n. ltb (n * 100) v;
}

abbrev three_axes : Board
three_axes = record {
  n_axis = 3;
  has_probe_pin = true;
  has_mist_pin = false;
  has_flood_pin = false;
  has_paper_feed_pin = false;
  has_servo_pin = false;
  allows_m4 = true;
}

abbrev reset_modes : Modal
reset_modes = record {
  motion = Motion.seek;
  feed_rate = FeedRate.units_per_min;
  units = Units.mm;
  distance = Distance.absolute;
  plane_select = Plane.xy;
  tool_length = ToolLengthOffset.cancel;
  coord_select = CoordIndex.g54;
  program_flow = ProgramFlow.running;
  coolant = record { mist = false; flood = false };
  spindle = SpindleState.disable;
  tool_change = ToolChange.tool_disable;
  io_control = IoControl.io_none;
}

-- "g1 x2.5 (in)"
abbrev move_line : List ℕ
move_line = b'g' ∷ b'1' ∷ b' ' ∷ b'x' ∷ b'2' ∷ b'.' ∷ b'5' ∷ b' ' ∷ b'(' ∷ b'i' ∷ b'n' ∷ b')' ∷ []

abbrev parsed : Option (Option Error × Parser ℕ) → Parser ℕ
parsed none = init_block hundredths three_axes reset_modes 0
parsed (some (e, p)) = p

abbrev accepted : Option (Option Error × Parser ℕ) → Option (Option Error × Parser ℕ)
accepted none = none
accepted (some (e, p)) = some (none, p)

move_fits : length (collapse_gcode move_line).line + length {A = ℕ} [] < 256
unfolding collapse_gcode
move_fits = omega arith

gc_parse_line_ends_example :
    (r : Option Error × Parser ℕ) × (gc_parse_line hundredths three_axes reset_modes 0 move_line []
      ≡ some r)
gc_parse_line_ends_example =
    gc_parse_line_ends hundredths three_axes reset_modes 0 move_line [] (omega arith) move_fits

-- "G0 G1" has two words of one group, "X1 X2" repeats a letter
abbrev status : Option (Option Error × Parser ℕ) → Option Error
status none = none
status (some (e, p)) = e

two_motions :
    status (gc_parse_line hundredths three_axes reset_modes 0 (b'G' ∷ b'0' ∷ b'G' ∷ b'1' ∷ []) [])
    ≡ some Error.gcode_modal_group_violation
unfolding gc_parse_line read_float parse_word g_word value_word
two_motions = refl

repeated_axis :
    status (gc_parse_line hundredths three_axes reset_modes 0 (b'X' ∷ b'1' ∷ b'X' ∷ b'2' ∷ []) [])
    ≡ some Error.gcode_word_repeated
unfolding gc_parse_line read_float parse_word g_word value_word
repeated_axis = refl

-- "(c)$" collapses to "$", and the word that is parsed is the "$" that its text has left in the buffer
-- behind two NULs
left_over :
    status (
      gc_parse_line hundredths three_axes reset_modes 0
        (b'(' ∷ b'c' ∷ b')' ∷ b'$' ∷ [])
        (0 ∷ b'$' ∷ 0 ∷ []))
    ≡ some Error.expected_command_letter
unfolding gc_parse_line read_float parse_word g_word value_word
left_over = refl

collapse_gcode_twice_example :
    IsCode (collapse_gcode move_line).line
    × (collapse_gcode (collapse_gcode move_line).line
        ≡ record { line = (collapse_gcode move_line).line; comments = [] })
collapse_gcode_twice_example = collapse_gcode_twice move_line

collapsed_move : collapse_gcode move_line ≡ record {
  line = b'G' ∷ b'1' ∷ b'X' ∷ b'2' ∷ b'.' ∷ b'5' ∷ [];
  comments = (b'i' ∷ b'n' ∷ []) ∷ [];
}
unfolding collapse_gcode
collapsed_move = refl

abbrev number_text : List ℕ
number_text = b'2' ∷ b'.' ∷ b'5' ∷ b'X' ∷ []

read_digits-Reads_example :
    Reads no_digits
      (read_digits number_text no_digits).0
      number_text
      (read_digits number_text no_digits).1
read_digits-Reads_example =
    read_digits-Reads number_text no_digits (omega arith) (λ small. omega arith)

-- 25 with the exponent -1
number_read :
    read_digits number_text no_digits
    ≡ (record { intval = 25; exp = 255; ndigit = 2; isdecimal = true }, b'X' ∷ [])
unfolding read_digits add_digit
number_read = refl
