-- ===== src/Line/Streaming.antt =====
-- The lines that `protocol_main_loop` (Protocol.cpp) executes for the characters of a client.
use grbl_esp.Base.{
  ℕ, ◌<◌, ◌≡◌, refl, ap, ◌∙◌, ◌≢◌, inr, Bool, false, List, [], ◌∷◌, ◌++◌, if◌then◌else◌, length,
}
use grbl_esp.Errors.{Error}
use grbl_esp.Line.{ClientLine, c_string, empty_line, add_char_to_line, line_char, line_chars}
use grbl_esp.Line.Editing.{
  Holds, NoNul, edit, c_string-NoNul, NoNul-edit, add_char_to_line-edit, add_char_to_line_eol,
  empty_line-Holds,
}

-- the text after all characters
abbrev pub edits : List ℕ → List ℕ → List ℕ
edits q [] = q
edits q (c ∷ cs) = edits (edit q c) cs

-- the characters of one line: no NUL and no line end, and the text never fills the buffer
abbrev pub IsLine : List ℕ → List ℕ → Type 0
IsLine q [] = length q < 255
IsLine q (c ∷ cs) = (length q < 255) × (c ≢ 0) × (c ≢ b'\r') × (c ≢ b'\n') × IsLine (edit q c) cs

-- all lines, each sent with a newline behind it
abbrev pub sent : List (List ℕ) → List ℕ
sent [] = []
sent (l ∷ ls) = l ++ (b'\n' ∷ sent ls)

abbrev pub AreLines : List (List ℕ) → Type 0
AreLines [] = Unit
AreLines (l ∷ ls) = IsLine [] l × AreLines ls

module _ {W : Type 0} (checkpoint : W → W × Bool) (execute : List ℕ → W → W)
    (overflow : W → W) where
  -- one line after the other: a check point, then the edited text is executed
  abbrev pub executed : List (List ℕ) → W → W
  executed [] w = w
  executed (l ∷ ls) w = executed ls (execute (edits [] l) (checkpoint w).0)

  line_chars_ok :
      (cl : ClientLine) (w : W) (c : ℕ) (cs : List ℕ)
      → (add_char_to_line c cl).0 ≡ Error.ok
      → line_chars checkpoint execute overflow cl w (c ∷ cs)
        ≡ line_chars checkpoint execute overflow (add_char_to_line c cl).1 w cs
  unfolding line_chars line_char
  line_chars_ok cl w c cs e = rw (e, line_char)

  line_chars_eol :
      (cl : ClientLine) (w : W) (c : ℕ) (cs : List ℕ)
      → (add_char_to_line c cl).0 ≡ Error.eol
      → (checkpoint w).1 ≡ false
      → line_chars checkpoint execute overflow cl w (c ∷ cs)
        ≡ line_chars checkpoint execute overflow
            (empty_line (add_char_to_line c cl).1)
            (execute (c_string (add_char_to_line c cl).1.buffer) (checkpoint w).0)
            cs
  unfolding line_chars line_char
  line_chars_eol cl w c cs e go = rw (e, line_char) (rw (go, if◌then◌else◌))

  -- one line, with `rest` behind its newline
  line_chars_line :
      (l q : List ℕ) (cl : ClientLine) (w : W) (rest : List ℕ)
      → Holds cl q
      → NoNul q
      → IsLine q l
      → (checkpoint w).1 ≡ false
      → (cl' : ClientLine) × Holds cl' []
        × (line_chars checkpoint execute overflow cl w (l ++ (b'\n' ∷ rest))
            ≡ line_chars checkpoint execute overflow cl'
                (execute (edits q l) (checkpoint w).0)
                rest)
  line_chars_line [] q cl w rest h n small go =
      let (is_eol, kept) = add_char_to_line_eol q b'\n' h small (inr refl) in
      let cl' = (add_char_to_line b'\n' cl).1 in
      (
        empty_line cl',
        empty_line-Holds cl' (rw kept h.size),
        line_chars_eol cl w b'\n' rest is_eol go
            ∙ ap
                (λ l.
                  line_chars checkpoint execute overflow (empty_line cl')
                    (execute l (checkpoint w).0) rest)
                (ap c_string (kept ∙ h.shape) ∙ c_string-NoNul q h.rest n),
      )
  line_chars_line (c ∷ l) q cl w rest h n (small, nul, cr, lf, more) go =
      let (is_ok, h') = add_char_to_line-edit q c h small cr lf in
      let (cl', clean, e) =
        line_chars_line l (edit q c) (add_char_to_line c cl).1 w rest h' (NoNul-edit q c n nul) more
          go in
      (cl', clean, line_chars_ok cl w c (l ++ (b'\n' ∷ rest)) is_ok ∙ e)

  -- Every line that is sent is executed once, in order, as the text that its editing leaves (a
  -- backspace takes back a byte), each behind a check point, and no character is left over. The line
  -- buffer begins empty, each line is sent without a NUL and with a line end behind it, its edited
  -- text has less than 255 bytes in front of each of its characters, so that none overflows, and no
  -- check point ends in an abort.
  pub line_chars-executed :
      (ls : List (List ℕ)) (cl : ClientLine) (w : W)
      → Holds cl []
      → AreLines ls
      → ((v : W) → (checkpoint v).1 ≡ false)
      → ((line_chars checkpoint execute overflow cl w (sent ls)).1 ≡ executed ls w)
        × ((line_chars checkpoint execute overflow cl w (sent ls)).2 ≡ [])
  line_chars-executed [] cl w h lines go = unfold line_chars in (refl, refl)
  line_chars-executed (l ∷ ls) cl w h (line, lines) go =
      let (cl', clean, e) = line_chars_line l [] cl w (sent ls) h tt line (go w) in
      let (done, left) =
        line_chars-executed ls cl' (execute (edits [] l) (checkpoint w).0) clean lines go in
      (ap (λ r. r.1) e ∙ done, ap (λ r. r.2) e ∙ left)
