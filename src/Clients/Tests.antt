-- ===== src/Clients/Tests.antt =====
-- The bytes of the serial client, with a feed hold among them.
use grbl_esp.Base.{
  ℕ, ◌≡◌, refl, inl, inr, true, false, none, [], ◌∷◌, arith, Option-cases, replicate,
}
use grbl_esp.InputBuffer.{InputBuffer}
use grbl_esp.InputBuffer.Contents.{IsValid, contents}
use grbl_esp.System.{System, State, fresh_system}
use grbl_esp.Subsystems.Trace.{World, trace, quiet}
use grbl_esp.Serial.{Cmd, cmd_of_byte, run_cmd, execute_realtime_command}
use grbl_esp.Clients.{
  Sources, client_check, get_client_char, Clients, client_buffer, client_char, client_chars,
}
use grbl_esp.Clients.Stream.{
  line_bytes, contents-client_chars, client_char_other, client_check_ends,
}

abbrev no_bytes : InputBuffer
no_bytes = record { rx_buffer = replicate 256 0; size = 0; pos = 0 }

abbrev start : Clients World
start = record {
  system = fresh_system State.idle;
  world = quiet;
  buffers = replicate 5 no_bytes;
  replies = [];
}

no_bytes-IsValid : IsValid no_bytes
no_bytes-IsValid = record { storage = refl; size_le = omega arith; pos_lt = omega arith }

run_cmd_stays :
    (c : Cmd) (s : System) (w : World)
    → w.printing ≡ false
    → (run_cmd trace c s w).1.printing ≡ false
unfolding run_cmd
run_cmd_stays Cmd.reset s w h = ground arith
run_cmd_stays Cmd.jog_cancel s w h = ground arith
run_cmd_stays _ s w h = h

-- no realtime command starts a print
stays :
    (x : ℕ) (s : System) (w : World)
    → w.printing ≡ false
    → (execute_realtime_command trace x s w).1.printing ≡ false
unfolding execute_realtime_command
stays x s w h = elim (Option-cases (cmd_of_byte x)) [
  | inl e ↦ rw (e, execute_realtime_command) h
  | inr (c, e) ↦ rw (e, execute_realtime_command) (run_cmd_stays c s w h)
]

contents-client_chars_example :
    contents (
      client_buffer
        (client_chars trace (λ w. w.printing) start 0 (b'G' ∷ b'!' ∷ b'4' ∷ [])).buffers
        0)
    ≡ line_bytes (b'G' ∷ b'!' ∷ b'4' ∷ [])
contents-client_chars_example =
    contents-client_chars trace (λ w. w.printing) (b'G' ∷ b'!' ∷ b'4' ∷ []) start 0 stays refl
      (omega arith) no_bytes-IsValid (omega arith)

client_char_other_example :
    client_buffer (client_char trace (λ w. w.printing) start 0 b'G').buffers 3 ≡ no_bytes
client_char_other_example = client_char_other trace (λ w. w.printing) start 0 3 b'G' (omega arith)

abbrev waiting : Sources
waiting = record {
  uart = b'G' ∷ b'0' ∷ [];
  input = [];
  bt = b'?' ∷ [];
  bt_connected = true;
  web = [];
  telnet = b'X' ∷ [];
}

client_check_ends_example :
    let (t', left) = client_check trace (λ w. w.printing) 4 start waiting in
    get_client_char t'.buffers left ≡ none
client_check_ends_example = client_check_ends trace (λ w. w.printing) 4 start waiting (omega arith)
