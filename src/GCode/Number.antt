-- ===== src/GCode/Number.antt =====
-- NutsBolts.cpp (Grbl_Esp32/src): `read_float`. The digits go into the integer `intval`, a decimal
-- point and digits beyond the eighth into the exponent `exp`, which is an int8_t: here its byte,
-- from 128 on a negative value.
pub mod Bounds
use grbl_esp.Base.{
  ℕ, zero, suc, ◌+◌, ◌-◌, ◌*◌, ◌/◌, ◌%◌, ◌^◌, ◌≤◌, ◌<◌, min, max, ◌≡◌, refl, sym, ap, ap₂, ◌∙◌, ◌≢◌,
  ◌↔◌, ◌⊎◌, inl, inr, Bool, true, false, not, ◌&&◌, ◌||◌, Option, none, some, List, [], ◌∷◌, ◌++◌,
  map, append-nil, append_assoc, arith, ltb, leb, ◌==◌, if◌then◌else◌, ltb→lt, lt→ltb, leb→le,
  ==_iff, tests, Bool-cases, Option-cases, if_true, if_false, length, get_elem?, set, length-append,
  length-set, get_elem?-set_self, get_elem?-set_ne, get_or, take, drop, replicate, take-append-drop,
  length-take, length-drop, length-replicate, length-map,
}
use grbl_esp.GCode.{FloatOps}

abbrev pub max_int_digits : ℕ
max_int_digits = 8

-- the local variables of the digit loop
pub record Reading : Type 0 where
  pub intval : ℕ
  pub exp : ℕ
  pub ndigit : ℕ
  pub isdecimal : Bool

abbrev pub no_digits : Reading
no_digits = record { intval = 0; exp = 0; ndigit = 0; isdecimal = false }

-- `c - '0' <= 9`
abbrev pub is_digit : ℕ → Bool
is_digit c = leb b'0' c && leb c b'9'

-- one digit: the first eight count, of the others only the power of ten
unfoldable pub add_digit : ℕ → Reading → Reading
add_digit c d =
    let n = (d.ndigit + 1) % 2 ^ 8 in
    if leb n max_int_digits
    then record d {
      ndigit = n;
      exp = if d.isdecimal then (d.exp + 255) % 2 ^ 8 else d.exp;
      intval = (d.intval * 10 + (c - b'0')) % 2 ^ 32;
    }
    else record d { ndigit = n; exp = if d.isdecimal then d.exp else (d.exp + 1) % 2 ^ 8 }

-- the digit loop, with the text behind it
unfoldable pub read_digits : List ℕ → Reading → Reading × List ℕ
read_digits [] d = (d, [])
read_digits (c ∷ cs) d =
    let counted = read_digits cs (add_digit c d) in
    let pointed = read_digits cs (record d { isdecimal = true }) in
    if is_digit c then counted else if c == b'.' && not d.isdecimal then pointed else (d, c ∷ cs)

module _ {F : Type 0} (ops : FloatOps F) where
  open ops use {of_uint, is_zero, times_hundredth, times_tenth, times_ten, negate}

  -- `while (exp <= -2) { fval *= 0.01; exp += 2; }` and the test that follows; 64 rounds take any
  -- int8_t there
  scale_down : ℕ → ℕ → F → F
  scale_down zero exp fval = fval
  scale_down (suc fuel) exp fval =
      let rest = scale_down fuel ((exp + 2) % 2 ^ 8) (times_hundredth fval) in
      if leb 128 exp && leb exp 254 then rest else if exp == 255 then times_tenth fval else fval

  -- `do { fval *= 10.0; } while (--exp > 0);`
  scale_up : ℕ → F → F
  scale_up zero fval = fval
  scale_up (suc exp) fval = scale_up exp (times_ten fval)

  unfoldable pub scale : ℕ → F → F
  unfolding scale_down scale_up
  scale exp fval =
      if is_zero fval
      then fval
      else if leb 128 exp
      then scale_down 64 exp fval
      else scale_up exp fval

  -- the sign in front of a number
  abbrev pub take_sign : List ℕ → Bool × List ℕ
  take_sign [] = (false, [])
  take_sign (c ∷ cs) =
      if c == b'-' then (true, cs) else if c == b'+' then (false, cs) else (false, c ∷ cs)

  -- the value and the rest of the line; `none` if the number has no digit
  unfoldable pub read_float : List ℕ → Option (F × List ℕ)
  unfolding read_digits scale add_digit
  read_float line =
      let (isnegative, text) = take_sign line in
      let (d, rest) = read_digits text no_digits in
      if d.ndigit == 0
      then none
      else (let fval = scale d.exp (of_uint d.intval) in
          some ((if isnegative then negate fval else fval), rest))
