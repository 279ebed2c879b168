-- ===== src/Regex.antt =====
-- Regex.cpp (Grbl_Esp32/src/Regex.cpp): the matcher for setting names. A C string is the list of the
-- bytes before its NUL, so `*text == '\0'` is a test for the empty list.
pub mod Matching
mod Tests
use grbl_esp.Base.{ℕ, Bool, true, false, ◌&&◌, List, [], ◌∷◌, ◌==◌, if◌then◌else◌}

abbrev pub is_nil : List ℕ → Bool
is_nil [] = true
is_nil (x ∷ xs) = false

-- the `do … while (*text++ != '\0')` loop: the matcher `here` is tried at every suffix
match_star : (List ℕ → Bool) → List ℕ → Bool
match_star here [] = here []
match_star here (c ∷ text) = if here (c ∷ text) then true else match_star here text

-- the last test of `matchHere`; `here` is the matcher of the rest of the expression
match_literal : ℕ → (List ℕ → Bool) → List ℕ → Bool
match_literal r here [] = false
match_literal r here (c ∷ text) = if r == c then here text else false

match_here : List ℕ → List ℕ → Bool
unfolding match_literal match_star
match_here [] text = true
match_here (r ∷ regexp) text =
    if r == b'*'
    then match_star (match_here regexp) text
    else if r == b'$' && is_nil regexp
    then is_nil text
    else match_literal r (match_here regexp) text

pub regex_match : List ℕ → List ℕ → Bool
regex_match [] text = match_star (match_here []) text
regex_match (r ∷ regexp) text =
    if r == b'^' then match_here regexp text else match_star (match_here (r ∷ regexp)) text
