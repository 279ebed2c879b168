-- ===== src/Regex/Tests.antt =====
-- Runs of the matcher on names of settings.
use grbl_esp.Base.{◌≡◌, refl, ◌↔◌, true, false, [], ◌∷◌}
use grbl_esp.Regex.{match_here, regex_match}
use grbl_esp.Regex.Matching.{Matches, regex_match-Matches}

-- "^a*z$" matches "abcz", and "b$" does not.
anchored : regex_match (b'^' ∷ b'a' ∷ b'*' ∷ b'z' ∷ b'$' ∷ []) (b'a' ∷ b'b' ∷ b'z' ∷ []) ≡ true
unfolding regex_match match_here
anchored = refl

not_at_end : regex_match (b'b' ∷ b'$' ∷ []) (b'a' ∷ b'b' ∷ b'z' ∷ []) ≡ false
unfolding regex_match match_here
not_at_end = refl

regex_match-Matches_example :
    (regex_match (b'a' ∷ b'*' ∷ b'$' ∷ []) (b'x' ∷ b'a' ∷ b'b' ∷ []) ≡ true)
    ↔ Matches (b'a' ∷ b'*' ∷ b'$' ∷ []) (b'x' ∷ b'a' ∷ b'b' ∷ [])
regex_match-Matches_example =
    regex_match-Matches (b'a' ∷ b'*' ∷ b'$' ∷ []) (b'x' ∷ b'a' ∷ b'b' ∷ [])
