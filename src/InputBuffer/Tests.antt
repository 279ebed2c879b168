-- ===== src/InputBuffer/Tests.antt =====
-- Calls on a receive buffer with the storage of the firmware.
use grbl_esp.Base.{◌≡◌, refl, List, [], ◌∷◌, arith, set, replicate}
use grbl_esp.InputBuffer.Queue
use grbl_esp.InputBuffer.Contents.{IsValid, contents}
use grbl_esp.InputBuffer.Refinement.{run_refines}
use grbl_esp.InputBuffer.{
  InputBuffer, run, Call, write_call, push_call, read_call, peek_call, available_call,
}

-- two bytes, the second behind the end of the storage
abbrev wrapped : InputBuffer
wrapped = record { rx_buffer = set (replicate 256 0) 255 7; size = 2; pos = 255 }

abbrev script : List Call
script =
    push_call (b'G' ∷ b'1' ∷ [])
    ∷ read_call
    ∷ available_call
    ∷ read_call
    ∷ read_call
    ∷ write_call 9
    ∷ peek_call
    ∷ []

wrapped-IsValid : IsValid wrapped
wrapped-IsValid = record { storage = refl; size_le = omega arith; pos_lt = omega arith }

contents-wrapped : contents wrapped ≡ 7 ∷ 0 ∷ []
contents-wrapped = refl

run_refines_example : run wrapped script ≡ Queue.run (7 ∷ 0 ∷ []) script
run_refines_example = run_refines script wrapped-IsValid
