-- ===== src/GCode/Collapse.antt =====
-- GCode.cpp (Grbl_Esp32/src): `collapseGCode`, which works in place. Here the bytes that have been
-- written at `outPtr` and the comments that have been reported are the result; the comment that is
-- open is `parenPtr`.
pub mod Idempotent
use grbl_esp.Base.{
  ℕ, zero, suc, ◌+◌, ◌-◌, ◌*◌, ◌/◌, ◌%◌, ◌^◌, ◌≤◌, ◌<◌, min, max, ◌≡◌, refl, sym, ap, ap₂, ◌∙◌, ◌≢◌,
  ◌↔◌, ◌⊎◌, inl, inr, Bool, true, false, not, ◌&&◌, ◌||◌, Option, none, some, List, [], ◌∷◌, ◌++◌,
  map, append-nil, append_assoc, arith, ltb, leb, ◌==◌, if◌then◌else◌, ltb→lt, lt→ltb, leb→le,
  ==_iff, tests, Bool-cases, Option-cases, if_true, if_false, length, get_elem?, set, length-append,
  length-set, get_elem?-set_self, get_elem?-set_ne, get_or, take, drop, replicate, take-append-drop,
  length-take, length-drop, length-replicate, length-map,
}

-- the C library's `isspace` and `toupper` in the C locale
abbrev pub isspace : ℕ → Bool
isspace c = c == b' ' || leb 9 c && leb c 13

abbrev pub toupper : ℕ → ℕ
toupper c = if leb b'a' c && leb c b'z' then c - 32 else c

-- the line that is left, and the comments in the order of their reports
pub record Collapsed : Type 0 where
  pub line : List ℕ
  pub comments : List (List ℕ)

abbrev pub no_text : Collapsed
no_text = record { line = []; comments = [] }

-- the character goes to `outPtr`, unless a comment is open
abbrev pub emit : Option (List ℕ) → ℕ → Collapsed → Collapsed
emit none c rest = record rest { line = toupper c ∷ rest.line }
emit (some text) c rest = rest

-- a `)` ends an open comment and reports it
abbrev pub report_comment : Option (List ℕ) → Collapsed → Collapsed
report_comment none rest = rest
report_comment (some text) rest = record rest { comments = text ∷ rest.comments }

-- the text of an open comment grows by every character that it passes, a blank too
abbrev pub grow : Option (List ℕ) → ℕ → Option (List ℕ)
grow none c = none
grow (some text) c = some (text ++ c ∷ [])

-- the loop; REPORT_SEMICOLON_COMMENTS is not defined
unfoldable pub collapse_from : Option (List ℕ) → List ℕ → Collapsed
collapse_from paren [] = report_comment paren no_text
collapse_from paren (c ∷ cs) =
    let skip = collapse_from (grow paren c) cs in
    let open_paren = collapse_from (some []) cs in
    let closed = collapse_from none cs in
    if isspace c
    then skip
    else if c == b')'
    then report_comment paren closed
    else if c == b'('
    then open_paren
    else if c == b';'
    then no_text
    else if c == b'%' || c == b'\r'
    then skip
    else emit paren c skip

unfoldable pub collapse_gcode : List ℕ → Collapsed
unfolding collapse_from
collapse_gcode line = collapse_from none line
