-- ===== src/GCode/Parse/Terminates.antt =====
-- The word loop of `gc_execute_line` (GCode.cpp) ends.
use grbl_esp.Base.{
  ℕ, zero, suc, ◌+◌, ◌≤◌, ◌<◌, ◌≡◌, refl, inl, inr, true, ◌||◌, Option, none, some, List, [], ◌∷◌,
  ◌++◌, arith, ltb, ◌==◌, Bool-cases, Option-cases, length, get_or, drop, length-drop,
}
use grbl_esp.Line.{c_string}
use grbl_esp.Errors.{Error}
use grbl_esp.GCode.{Parser, Board, FloatOps}
use grbl_esp.GCode.Number.{Reading, read_float, read_digits, take_sign, add_digit, no_digits}
use grbl_esp.GCode.Parse.{parse_word, parse_words, gc_parse_line, parsed_text}
use grbl_esp.GCode.{Modal}
use grbl_esp.GCode.Collapse.{collapse_gcode, collapse_from}

-- the digit loop takes no byte back
length-read_digits : (text : List ℕ) (d : Reading) → length (read_digits text d).1 ≤ length text
unfolding read_digits
length-read_digits [] d = omega arith
length-read_digits (c ∷ cs) d = ground (
  arith,
  length-read_digits cs (add_digit c d),
  length-read_digits cs (record d { isdecimal = true }),
)

module _ {F : Type 0} (ops : FloatOps F) where
  length-take_sign : (line : List ℕ) → length (take_sign ops line).1 ≤ length line
  length-take_sign [] = omega arith
  length-take_sign (c ∷ cs) = ground arith

  -- a number that is read leaves no more than it found
  pub length-read_float :
      (line rest : List ℕ) (v : F)
      → read_float ops line ≡ some (v, rest)
      → length rest ≤ length line
  unfolding read_float
  length-read_float line rest v h =
      let signed = length-take_sign line in
      let digits = length-read_digits (take_sign ops line).1 no_digits in ground arith

module _ {F : Type 0} (ops : FloatOps F) (board : Board) where
  -- Fuel for one more turn than the line has bytes is enough: the word loop ends with a status.
  pub parse_words_ends :
      (fuel : ℕ) (line : List ℕ) (p : Parser F)
      → length line < fuel
      → (r : Option Error × Parser F) × (parse_words ops board fuel line p ≡ some r)
  unfolding parse_words
  parse_words_ends zero line p h = ground arith
  parse_words_ends (suc fuel) [] p h = ((none, p), refl)
  parse_words_ends (suc fuel) (letter ∷ line) p h =
      elim (Bool-cases (ltb letter b'A' || ltb b'Z' letter)) [
        | inl e ↦ ((some Error.expected_command_letter, p), rw e refl)
        | inr e ↦ elim (Option-cases (read_float ops line)) [
          | inl n ↦ ((some Error.bad_number_format, p), rw (e, n) refl)
          | inr ((v, rest), r) ↦
              let q = (parse_word ops board letter v p).1 in
              elim (Option-cases (parse_word ops board letter v p).0) [
                | inl s ↦
                    let shorter = length-read_float ops line rest v r in
                    let (t, ends) = parse_words_ends fuel rest q (omega arith) in
                    (t, rw (e, r, s) ends)
                | inr (err, s) ↦ ((some err, q), rw (e, r, s) refl)
              ]
        ]
      ]

length-collapse_from :
    (paren : Option (List ℕ)) (cs : List ℕ) → length (collapse_from paren cs).line ≤ length cs
unfolding collapse_from
length-collapse_from none [] = omega arith
length-collapse_from (some text) [] = omega arith
length-collapse_from none (c ∷ cs) =
    ground (arith, length-collapse_from none cs, length-collapse_from (some []) cs)
length-collapse_from (some text) (c ∷ cs) = ground (
  arith,
  length-collapse_from none cs,
  length-collapse_from (some []) cs,
  length-collapse_from (some (text ++ c ∷ [])) cs,
)

length-c_string : (cs : List ℕ) → length (c_string cs) ≤ length cs
length-c_string [] = omega arith
length-c_string (c ∷ cs) = ground (arith, length-c_string cs)

-- the text up to the NUL that stands behind `xs`
c_string-end : (xs ys : List ℕ) → length (c_string (xs ++ (0 ∷ ys))) ≤ length xs
c_string-end [] ys = omega arith
c_string-end (x ∷ xs) ys = ground (arith, c_string-end xs ys)

-- from any place on, such a text is no longer than `xs` or what stands behind the NUL
c_string-drop :
    (n bound : ℕ) (xs ys : List ℕ)
    → length xs < bound
    → length ys < bound
    → length (c_string (drop n (xs ++ (0 ∷ ys)))) < bound
c_string-drop zero bound xs ys h k = omega (arith, c_string-end xs ys, h)
c_string-drop (suc n) bound [] ys h k =
    omega (arith, length-c_string (drop n ys), length-drop n ys, k)
c_string-drop (suc n) bound (x ∷ xs) ys h k = c_string-drop n bound xs ys (omega (arith, h)) k

length-parsed_text :
    {F : Type 0} (ops : FloatOps F) (board : Board) (code behind : List ℕ)
    → length code < 256
    → length behind < 256
    → length (parsed_text ops board code behind) < 257
length-parsed_text ops board code behind h k = elim (Bool-cases (get_or code 0 0 == b'$')) [
  | inl e ↦ rw e (c_string-drop 3 257 code behind (omega (arith, h)) (omega (arith, k)))
  | inr e ↦ rw e (omega (arith, h))
]

-- The parser comes to an end on every line of less than 256 bytes, with a status: also where the line
-- begins with `$` and has less than three bytes without its comments, so that what is parsed are the
-- bytes behind the collapsed line's NUL. The collapsed line, its NUL and those bytes are 256 at most.
pub gc_parse_line_ends :
    {F : Type 0} (ops : FloatOps F) (board : Board) (modal : Modal) (tool : ℕ)
    (line behind : List ℕ)
    → length line < 256
    → length (collapse_gcode line).line + length behind < 256
    → (r : Option Error × Parser F) × (gc_parse_line ops board modal tool line behind ≡ some r)
unfolding gc_parse_line collapse_gcode
gc_parse_line_ends ops board modal tool line behind h k =
    let code = (collapse_from none line).line in
    parse_words_ends ops board 257 (parsed_text ops board code behind) _ (
      length-parsed_text ops board code behind (omega (arith, length-collapse_from none line, h))
        (omega (arith, k)))
