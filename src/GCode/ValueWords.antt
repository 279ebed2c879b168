-- ===== src/GCode/ValueWords.antt =====
-- GCode.cpp (Grbl_Esp32/src): the default case of the word loop of `gc_execute_line`: the letters
-- that give a value.
use grbl_esp.Base.{ℕ, Bool, ◌&&◌, ◌||◌, Option, none, some, ◌∷◌, ltb, ◌==◌, if◌then◌else◌, set}
use grbl_esp.Errors.{Error}
use grbl_esp.GCode.{
  Parser, Values, Board, FloatOps, Result, ok, fail, bit_istrue, word_e, word_f, word_i, word_j,
  word_k, word_l, word_n, word_p, word_q, word_r, word_s, word_t, word_x, word_y, word_z, word_a,
  word_b, word_c,
}

-- `MaxToolNumber`
abbrev pub max_tool_number : ℕ
max_tool_number = 255

module _ {F : Type 0} (ops : FloatOps F) (board : Board) where
  -- the values of the block changed
  abbrev with_values : (Values F → Values F) → Parser F → Parser F
  with_values f p = record p { block = record p.block { values = f p.block.values } }

  -- an axis word, if the machine has the axis
  unfoldable pub axis_value : ℕ → ℕ → F → Parser F → Result (Parser F × ℕ)
  axis_value axis word value p =
      if ltb axis board.n_axis
      then ok (
        record (with_values (λ (x : Values F). record x { xyz = set x.xyz axis value }) p) {
          axis_words = axis ∷ p.axis_words;
        },
        word,
      )
      else fail Error.gcode_unsupported_command

  abbrev ijk_value : ℕ → ℕ → F → Parser F → Result (Parser F × ℕ)
  ijk_value axis word value p = ok (
    record (with_values (λ (x : Values F). record x { ijk = set x.ijk axis value }) p) {
      ijk_words = axis ∷ p.ijk_words;
    },
    word,
  )

  -- T writes `gc_state.tool` at once
  abbrev tool_value : F → ℕ → Parser F → Result (Parser F × ℕ)
  tool_value value int_value p =
      if ops.exceeds value max_tool_number
      then fail Error.gcode_max_value_exceeded
      else ok (record p { tool = int_value }, word_t)

  -- the switch on the letter: the value is stored, and the letter's bit is given
  unfoldable pub store_value : ℕ → F → ℕ → Parser F → Result (Parser F × ℕ)
  unfolding axis_value
  store_value letter value int_value p =
      if letter == b'A'
      then axis_value 3 word_a value p
      else if letter == b'B'
      then axis_value 4 word_b value p
      else if letter == b'C'
      then axis_value 5 word_c value p
      else if letter == b'E'
      then ok (with_values (λ (x : Values F). record x { e = int_value }) p, word_e)
      else if letter == b'F'
      then ok (with_values (λ (x : Values F). record x { f = value }) p, word_f)
      else if letter == b'I'
      then ijk_value 0 word_i value p
      else if letter == b'J'
      then ijk_value 1 word_j value p
      else if letter == b'K'
      then ijk_value 2 word_k value p
      else if letter == b'L'
      then ok (with_values (λ (x : Values F). record x { l = int_value }) p, word_l)
      else if letter == b'N'
      then ok (with_values (λ (x : Values F). record x { n = ops.trunc_i32 value }) p, word_n)
      else if letter == b'P'
      then ok (with_values (λ (x : Values F). record x { p = value }) p, word_p)
      else if letter == b'Q'
      then ok (with_values (λ (x : Values F). record x { q = value }) p, word_q)
      else if letter == b'R'
      then ok (with_values (λ (x : Values F). record x { r = value }) p, word_r)
      else if letter == b'S'
      then ok (with_values (λ (x : Values F). record x { s = value }) p, word_s)
      else if letter == b'T'
      then tool_value value int_value p
      else if letter == b'X'
      then axis_value 0 word_x value p
      else if letter == b'Y'
      then axis_value 1 word_y value p
      else if letter == b'Z'
      then axis_value 2 word_z value p
      else fail Error.gcode_unsupported_command

  -- the words whose values must not be negative
  abbrev pub is_unsigned : ℕ → Bool
  is_unsigned word =
      word == word_f || word == word_n || word == word_p || word == word_t || word == word_s

  -- the tests behind the switch
  unfoldable pub flag_value : F → ℕ → Parser F → Option Error × Parser F
  flag_value value word p =
      if bit_istrue p.value_words word
      then (some Error.gcode_word_repeated, p)
      else if is_unsigned word && ops.is_negative value
      then (some Error.negative_value, p)
      else (none, record p { value_words = word ∷ p.value_words })

  unfoldable pub value_word : ℕ → F → ℕ → Parser F → Option Error × Parser F
  unfolding store_value flag_value
  value_word letter value int_value p = elim (store_value letter value int_value p) [
    | fail e ↦ (some e, p)
    | ok (p', word) ↦ flag_value value word p'
  ]
