-- ===== src/GCode/Parse.antt =====
-- GCode.cpp (Grbl_Esp32/src): steps 0 to 2 of `gc_execute_line`: the line is collapsed, the block is
-- set up, and the words are read and carried out one by one.
pub mod Accepted
pub mod Terminates
mod Tests
use grbl_esp.Base.{
  ℕ, zero, suc, ◌+◌, ◌-◌, ◌*◌, ◌/◌, ◌%◌, ◌^◌, ◌≤◌, ◌<◌, min, max, ◌≡◌, refl, sym, ap, ap₂, ◌∙◌, ◌≢◌,
  ◌↔◌, ◌⊎◌, inl, inr, Bool, true, false, not, ◌&&◌, ◌||◌, Option, none, some, List, [], ◌∷◌, ◌++◌,
  map, append-nil, append_assoc, arith, ltb, leb, ◌==◌, if◌then◌else◌, ltb→lt, lt→ltb, leb→le,
  ==_iff, tests, Bool-cases, Option-cases, if_true, if_false, length, get_elem?, set, length-append,
  length-set, get_elem?-set_self, get_elem?-set_ne, get_or, take, drop, replicate, take-append-drop,
  length-take, length-drop, length-replicate, length-map,
}
use grbl_esp.Base.Int.{ℤ}
use grbl_esp.Line.{c_string}
use grbl_esp.Errors.{Error}
use grbl_esp.GCode.{
  Parser, Block, Modal, Motion, FeedRate, NonModal, GCodeCoolant, AxisCommand, Board, FloatOps,
  Result, ok, fail, bit_istrue, group_bit,
}
use grbl_esp.GCode.Collapse.{collapse_gcode}
use grbl_esp.GCode.Number.{read_float}
use grbl_esp.GCode.GWords.{Command, g_word}
use grbl_esp.GCode.MWords.{m_word}
use grbl_esp.GCode.ValueWords.{value_word}

module _ {F : Type 0} (ops : FloatOps F) (board : Board) where
  -- The status of a word, and of a line, is `some e` for `FAIL(e)`.
  -- the test for a modal group violation behind `case 'G'` and `case 'M'`
  unfoldable pub flag_command : Result (Command F) → Parser F → Option Error × Parser F
  flag_command (fail e) p = (some e, p)
  flag_command (ok c) p =
      let p' = record p { block = c.block; axis_command = c.axis_command } in
      if bit_istrue p.command_words (group_bit c.group)
      then (some Error.gcode_modal_group_violation, p')
      else (none, record p' { command_words = group_bit c.group ∷ p.command_words })

  -- one word: a letter with its value
  unfoldable pub parse_word : ℕ → F → Parser F → Option Error × Parser F
  unfolding flag_command
  parse_word letter value p =
      let int_value = ops.trunc_u8 value in
      let mantissa = ops.mantissa value int_value in
      if letter == b'G'
      then flag_command (g_word board int_value p.block p.axis_command mantissa) p
      else if letter == b'M'
      then flag_command (m_word board int_value p.block p.axis_command mantissa) p
      else value_word ops board letter value int_value p

  -- the `while (line[char_counter] != 0)` loop; `none` when the fuel is used up
  pub parse_words : ℕ → List ℕ → Parser F → Option (Option Error × Parser F)
  parse_words zero line p = none
  parse_words (suc fuel) [] p = some (none, p)
  parse_words (suc fuel) (letter ∷ line) p =
      if ltb letter b'A' || ltb b'Z' letter
      then some (some Error.expected_command_letter, p)
      else elim (read_float ops line) [
        | none ↦ some (some Error.bad_number_format, p)
        | some (value, rest) ↦
            let (status, p') = parse_word letter value p in
            elim status [ none ↦ parse_words fuel rest p' | some e ↦ some (some e, p') ]
      ]

  -- step 1: the modes are those of the parser's state
  unfoldable pub init_block : Modal → ℕ → Parser F
  init_block modal tool =
      let z = ops.of_uint 0 in
      record {
        block = record {
          non_modal_command = NonModal.no_action;
          modal = modal;
          values = record {
            e = 0;
            f = z;
            ijk = replicate 3 z;
            l = 0;
            n = ℤ.pos 0;
            p = z;
            q = z;
            r = z;
            s = z;
            xyz = replicate 6 z;
          };
          coolant = GCodeCoolant.no_coolant;
          paper_feed_cmd = 0;
          servo_cmd = 0;
        };
        axis_command = AxisCommand.no_axis_command;
        axis_words = [];
        ijk_words = [];
        command_words = [];
        value_words = [];
        tool = tool;
      }

  -- a jog, `$J=`, is parsed as G1 and G94
  unfoldable pub jog_block : Parser F → Parser F
  jog_block p = record p {
    block = record p.block {
      modal = record p.block.modal { motion = Motion.linear; feed_rate = FeedRate.units_per_min };
    };
  }

  -- The text that the word loop reads: the collapsed line or, where that begins with `$`, the buffer
  -- from its fourth byte on. On a line of less than three bytes this is behind the NUL that ends the
  -- line; `behind` is what the buffer holds there.
  abbrev pub parsed_text : (code behind : List ℕ) → List ℕ
  parsed_text code behind =
      if get_or code 0 0 == b'$' then c_string (drop 3 (code ++ (0 ∷ behind))) else code

  -- steps 0 to 2; a line has less than 256 bytes, and each word takes at least two
  unfoldable pub gc_parse_line :
      Modal → ℕ → (line behind : List ℕ) → Option (Option Error × Parser F)
  unfolding parse_words init_block jog_block collapse_gcode
  gc_parse_line modal tool line behind =
      let code = (collapse_gcode line).line in
      let start = init_block modal tool in
      parse_words 257 (parsed_text code behind)
        (if get_or code 0 0 == b'$' then jog_block start else start)
