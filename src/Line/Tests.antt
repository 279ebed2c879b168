-- ===== src/Line/Tests.antt =====
-- Lines of a client, and the dispatch of a line.
use grbl_esp.Base.{ℕ, ◌≡◌, refl, false, List, [], ◌∷◌, ◌++◌, arith, replicate}
use grbl_esp.Errors.{Error}
use grbl_esp.System.{State}
use grbl_esp.Line.{ClientLine, add_char_to_line, execute_line, line_chars}
use grbl_esp.Line.Editing.{Holds, add_char_to_line-edit}
use grbl_esp.Line.Streaming.{sent, line_chars-executed}

abbrev fresh : ClientLine
fresh = record { buffer = replicate 256 0; len = 0; line_number = 0 }

fresh-Holds : Holds fresh []
fresh-Holds = record { rest = replicate 255 0; shape = refl; len_is = refl; size = refl }

add_char_to_line-edit_example :
    ((add_char_to_line b'G' fresh).0 ≡ Error.ok) × Holds (add_char_to_line b'G' fresh).1 (b'G' ∷ [])
add_char_to_line-edit_example =
    add_char_to_line-edit [] b'G' fresh-Holds (omega arith) (omega arith) (omega arith)

-- "G1", then "X" and a backspace and "M5"
abbrev lines : List (List ℕ)
lines = (b'G' ∷ b'1' ∷ []) ∷ (b'X' ∷ b'\x08' ∷ b'M' ∷ b'5' ∷ []) ∷ []

abbrev log : List ℕ → List (List ℕ) → List (List ℕ)
log l w = w ++ l ∷ []

line_chars-executed_example :
    ((line_chars (λ w. (w, false)) log (λ w. w) fresh [] (sent lines)).1
      ≡ (b'G' ∷ b'1' ∷ []) ∷ (b'M' ∷ b'5' ∷ []) ∷ [])
    × ((line_chars (λ w. (w, false)) log (λ w. w) fresh [] (sent lines)).2 ≡ [])
line_chars-executed_example =
    line_chars-executed (λ w. (w, false)) log (λ w. w) lines fresh [] fresh-Holds (omega arith)
      (λ v. refl)

abbrev answer : List ℕ → List (List ℕ) → Error × List (List ℕ)
answer l w = (Error.ok, w ++ l ∷ [])

-- a system command that hands its line to the parser, as `$J=` does, reaches it while jogging
jog_reaches_parser :
    execute_line (λ parser l w. parser l w) answer State.jog (b'$' ∷ b'J' ∷ b'=' ∷ []) []
    ≡ (Error.ok, (b'$' ∷ b'J' ∷ b'=' ∷ []) ∷ [])
unfolding execute_line
jog_reaches_parser = refl

code_is_locked :
    execute_line (λ parser l w. parser l w) answer State.jog (b'G' ∷ b'0' ∷ []) []
    ≡ (Error.system_gc_lock, [])
unfolding execute_line
code_is_locked = refl
