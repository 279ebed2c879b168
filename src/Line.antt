-- ===== src/Line.antt =====
-- Protocol.cpp (Grbl_Esp32/src): `client_line_t` and its functions, `execute_line`, and the part of
-- `protocol_main_loop` that takes a client's characters. A line buffer is an array of bytes with a
-- NUL behind the text; `c_string` is the text that the array holds.
pub mod Editing
pub mod Streaming
mod Tests
use grbl_esp.Base.{
  ℕ, zero, suc, ◌+◌, ◌-◌, ◌*◌, ◌/◌, ◌%◌, ◌^◌, ◌≤◌, ◌<◌, min, max, ◌≡◌, refl, sym, ap, ap₂, ◌∙◌, ◌≢◌,
  ◌↔◌, ◌⊎◌, inl, inr, Bool, true, false, not, ◌&&◌, ◌||◌, Option, none, some, List, [], ◌∷◌, ◌++◌,
  map, append-nil, append_assoc, arith, ltb, leb, ◌==◌, if◌then◌else◌, ltb→lt, lt→ltb, leb→le,
  ==_iff, tests, Bool-cases, Option-cases, length, get_elem?, set, length-append, length-set,
  get_elem?-set_self, get_elem?-set_ne, get_or, take, drop, replicate, take-append-drop,
  length-take, length-drop, length-replicate, length-map,
}
use grbl_esp.Errors.{Error}
use grbl_esp.System.{State, same_state}

abbrev pub line_buffer_size : ℕ
line_buffer_size = 256

pub record ClientLine : Type 0 where
  pub buffer : List ℕ
  pub len : ℕ
  pub line_number : ℕ

abbrev pub c_string : List ℕ → List ℕ
c_string [] = []
c_string (x ∷ xs) = if x == 0 then [] else x ∷ c_string xs

unfoldable pub empty_line : ClientLine → ClientLine
empty_line cl = record cl { len = 0; buffer = set cl.buffer 0 0 }

unfoldable pub empty_lines : List ClientLine → List ClientLine
unfolding empty_line
empty_lines lines = map empty_line lines

-- `add_char_to_line`; the int `len` stays below 256 (see Editing)
unfoldable pub add_char_to_line : ℕ → ClientLine → Error × ClientLine
add_char_to_line c cl =
    if c == b'\x08'
    then (
      Error.ok,
      (if ltb 0 cl.len
          then record cl { len = cl.len - 1; buffer = set cl.buffer (cl.len - 1) 0 }
          else cl),
    )
    else if cl.len == line_buffer_size - 1
    then (Error.overflow, cl)
    else if c == b'\r' || c == b'\n'
    then (Error.eol, record cl { len = 0; line_number = cl.line_number + 1 })
    else (
      Error.ok,
      record cl { len = cl.len + 1; buffer = set (set cl.buffer cl.len c) (cl.len + 1) 0 },
    )

-- `execute_line`: a `$` or `[ESP…]` command goes to `system_execute_line` (ProcessSettings.cpp), which
-- may call the parser itself, as `$J=` does in every state; all else goes to `gc_execute_line`
-- (GCode.cpp), which is blocked in alarm and while jogging
module _ {W : Type 0} (system_execute_line : (List ℕ → W → Error × W) → List ℕ → W → Error × W)
    (gc_execute_line : List ℕ → W → Error × W) where
  pub execute_line : State → List ℕ → W → Error × W
  execute_line state [] w = (Error.ok, w)
  execute_line state (c ∷ line) w =
      if c == b'$' || c == b'['
      then system_execute_line gc_execute_line (c ∷ line) w
      else if same_state state State.alarm || same_state state State.jog
      then (Error.system_gc_lock, w)
      else gc_execute_line (c ∷ line) w

-- The `while ((c = client_read(client)) != -1)` loop of `protocol_main_loop`, over the bytes that
-- the client has sent. `checkpoint` is `protocol_execute_realtime` with `sys.abort` behind it,
-- `execute` and `overflow` run or refuse a line and report the status.
module _ {W : Type 0} (checkpoint : W → W × Bool) (execute : List ℕ → W → W)
    (overflow : W → W) where
  -- a character, by the result of `add_char_to_line`; the flag is `return` on abort
  line_char : Error × ClientLine → W → ClientLine × W × Bool
  line_char (Error.eol, cl) w =
      let (w', aborted) = checkpoint w in
      if aborted then (cl, w', true) else (empty_line cl, execute (c_string cl.buffer) w', false)
  line_char (Error.overflow, cl) w = (empty_line cl, overflow w, false)
  line_char (_, cl) w = (cl, w, false)

  -- the loop; the last part is what is left when it returns on abort
  pub line_chars : ClientLine → W → List ℕ → ClientLine × W × List ℕ
  line_chars cl w [] = (cl, w, [])
  line_chars cl w (c ∷ cs) =
      let (cl', w', aborted) = line_char (add_char_to_line c cl) w in
      let rest = line_chars cl' w' cs in if aborted then (cl', w', cs) else rest
