-- ===== src/Line/Editing.antt =====
-- What the line buffer holds after editing: add_char_to_line of Protocol.cpp.
use grbl_esp.Base.{
  ℕ, suc, ◌+◌, ◌-◌, ◌<◌, ◌≡◌, refl, sym, ap, ◌∙◌, ◌≢◌, ◌⊎◌, inl, inr, false, ◌||◌, List, [], ◌∷◌,
  ◌++◌, append_assoc, arith, ltb, ◌==◌, if◌then◌else◌, ltb→lt, ==_iff, Bool-cases, length, set,
  length-append, length-set,
}
use grbl_esp.Errors.{Error}
use grbl_esp.Line.{ClientLine, c_string, empty_line, add_char_to_line}

-- The buffer of `cl` holds the text `q`: its bytes, none of them NUL, and a NUL behind them.
pub record Holds (cl : ClientLine) (q : List ℕ) : Type 0 where
  pub rest : List ℕ
  pub shape : cl.buffer ≡ q ++ (0 ∷ rest)
  pub len_is : cl.len ≡ length q
  pub size : length cl.buffer ≡ 256

abbrev pub NoNul : List ℕ → Type 0
NoNul [] = Unit
NoNul (x ∷ q) = (x ≢ 0) × NoNul q

pub c_string-NoNul : (q rest : List ℕ) → NoNul q → c_string (q ++ (0 ∷ rest)) ≡ q
c_string-NoNul [] rest h = refl
c_string-NoNul (x ∷ q) rest h = ground (arith, c_string-NoNul q rest h.1)

-- the text without its last byte
abbrev pub drop_last : List ℕ → List ℕ
drop_last [] = []
drop_last (x ∷ []) = []
drop_last (x ∷ y ∷ q) = x ∷ drop_last (y ∷ q)

-- the effect of one character on the text that is being edited
abbrev pub edit : List ℕ → ℕ → List ℕ
edit q c = if c == b'\x08' then drop_last q else q ++ c ∷ []

set_append : (q r : List ℕ) (x c : ℕ) → set (q ++ (x ∷ r)) (length q) c ≡ q ++ (c ∷ r)
set_append [] r x c = refl
set_append (y ∷ q) r x c = ap (λ l. y ∷ l) (set_append q r x c)

set_append_next :
    (q r : List ℕ) (x y c : ℕ) → set (q ++ (x ∷ y ∷ r)) (suc (length q)) c ≡ q ++ (x ∷ c ∷ r)
set_append_next [] r x y c = refl
set_append_next (z ∷ q) r x y c = ap (λ l. z ∷ l) (set_append_next q r x y c)

length-drop_last : (q : List ℕ) → length (drop_last q) ≡ length q - 1
length-drop_last [] = omega arith
length-drop_last (x ∷ []) = omega arith
length-drop_last (x ∷ y ∷ q) = omega (arith, length-drop_last (y ∷ q))

-- the last byte of a text that is not empty, written over
set-drop_last :
    (q r : List ℕ) (c : ℕ) → 0 < length q → set (q ++ r) (length q - 1) c ≡ drop_last q ++ (c ∷ r)
set-drop_last [] r c h = absurd (omega arith)
set-drop_last (x ∷ []) r c h = refl
set-drop_last (x ∷ y ∷ q) r c h =
    let e : length (x ∷ y ∷ q) - 1 ≡ suc (length (y ∷ q) - 1) = omega arith in
    rw e (ap (λ l. x ∷ l) (set-drop_last (y ∷ q) r c (omega arith)))

pub NoNul-drop_last : (q : List ℕ) → NoNul q → NoNul (drop_last q)
NoNul-drop_last [] h = tt
NoNul-drop_last (x ∷ []) h = tt
NoNul-drop_last (x ∷ y ∷ q) h = (h.0, NoNul-drop_last (y ∷ q) h.1)

pub NoNul-append : (q : List ℕ) (c : ℕ) → NoNul q → c ≢ 0 → NoNul (q ++ c ∷ [])
NoNul-append [] c h n = (n, tt)
NoNul-append (x ∷ q) c h n = (h.0, NoNul-append q c h.1 n)

pub NoNul-edit : (q : List ℕ) (c : ℕ) → NoNul q → c ≢ 0 → NoNul (edit q c)
NoNul-edit q c h n = elim (Bool-cases (c == b'\x08')) [
  | inl e ↦ rw e (NoNul-drop_last q h)
  | inr e ↦ rw e (NoNul-append q c h n)
]

append_shape :
    (q rest : List ℕ) (c : ℕ)
    → length (q ++ (0 ∷ rest)) ≡ 256
    → length q < 255
    → (r : List ℕ) × (set (set (q ++ (0 ∷ rest)) (length q) c) (length q + 1) 0
        ≡ (q ++ c ∷ []) ++ (0 ∷ r))
append_shape q [] c size h = absurd (omega (arith, length-append q (0 ∷ [])))
append_shape q (y ∷ r) c size h = (
  r,
  rw (set_append q (y ∷ r) 0 c) (
      let e : length q + 1 ≡ suc (length q) = omega arith in
      rw e (set_append_next q r c y 0 ∙ sym (append_assoc q (c ∷ []) (0 ∷ r)))),
)

add_plain :
    {cl : ClientLine} (q : List ℕ) (c : ℕ)
    → Holds cl q
    → length q < 255
    → (c == b'\x08') ≡ false
    → c ≢ b'\r'
    → c ≢ b'\n'
    → ((add_char_to_line c cl).0 ≡ Error.ok) × Holds (add_char_to_line c cl).1 (q ++ c ∷ [])
unfolding add_char_to_line
add_plain {cl} q c h small plain cr lf =
    let (r, e) = append_shape q h.rest c (ap length (sym h.shape) ∙ h.size) small in
    let tests : (cl.len == 255) ≡ false = ground arith in
    let ends : (c == b'\r' || c == b'\n') ≡ false = ground arith in
    rw (plain, tests, ends)
      (
        refl,
        record {
          rest = r;
          shape = rw (h.shape, h.len_is) e;
          len_is = omega (arith, length-append q (c ∷ []));
          size = length-set _ (cl.len + 1) 0 ∙ length-set cl.buffer cl.len c ∙ h.size;
        },
      )

add_backspace :
    {cl : ClientLine} (q : List ℕ)
    → Holds cl q
    → ((add_char_to_line b'\x08' cl).0 ≡ Error.ok)
      × Holds (add_char_to_line b'\x08' cl).1 (drop_last q)
unfolding add_char_to_line
add_backspace {cl} q h = elim (Bool-cases (ltb 0 cl.len)) [
  | inl some_text ↦ rw some_text (
    refl,
    record {
      rest = 0 ∷ h.rest;
      shape =
          let positive : 0 < length q = omega (arith, ltb→lt 0 cl.len some_text, h.len_is) in
          rw (h.shape, h.len_is) (set-drop_last q (0 ∷ h.rest) 0 positive);
      len_is = omega (arith, h.len_is, length-drop_last q);
      size = length-set cl.buffer (cl.len - 1) 0 ∙ h.size;
    },
  )
  | inr no_text ↦ rw no_text (refl, at_start q h (ground arith))
]
  where
    at_start : (q : List ℕ) → Holds cl q → cl.len ≡ 0 → Holds cl (drop_last q)
    at_start [] h e = h
    at_start (x ∷ q) h e = absurd (omega (arith, h.len_is))

-- As long as there is room, a character that is no line end edits the text that the buffer holds:
-- a backspace takes its last byte, any other character is appended.
pub add_char_to_line-edit :
    {cl : ClientLine} (q : List ℕ) (c : ℕ)
    → Holds cl q
    → length q < 255
    → c ≢ b'\r'
    → c ≢ b'\n'
    → ((add_char_to_line c cl).0 ≡ Error.ok) × Holds (add_char_to_line c cl).1 (edit q c)
add_char_to_line-edit {cl} q c h small cr lf = elim (Bool-cases (c == b'\x08')) [
  | inl e ↦ let is : c ≡ b'\x08' = (==_iff c b'\x08').0 e in rw is (add_backspace q h)
  | inr e ↦ rw e (add_plain q c h small e cr lf)
]

-- The end of a line that has room reports it and leaves the text where it is.
pub add_char_to_line_eol :
    {cl : ClientLine} (q : List ℕ) (c : ℕ)
    → Holds cl q
    → length q < 255
    → (c ≡ b'\r') ⊎ (c ≡ b'\n')
    → ((add_char_to_line c cl).0 ≡ Error.eol) × ((add_char_to_line c cl).1.buffer ≡ cl.buffer)
unfolding add_char_to_line
add_char_to_line_eol {cl} q c h small end = ground (arith, h.len_is)

pub empty_line-Holds : (cl : ClientLine) → length cl.buffer ≡ 256 → Holds (empty_line cl) []
unfolding empty_line
empty_line-Holds cl size = emptied cl.buffer size
  where
    emptied :
        (buf : List ℕ) → length buf ≡ 256 → Holds (record cl { len = 0; buffer = set buf 0 0 }) []
    emptied [] e = absurd (omega arith)
    emptied (x ∷ buf) e = record { rest = buf; shape = refl; len_is = refl; size = e }
