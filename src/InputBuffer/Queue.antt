-- ===== src/InputBuffer/Queue.antt =====
-- What a client may expect of the ring: a queue of at most 256 bytes, oldest first.
use grbl_esp.Base.{
  ℕ, ◌+◌, true, false, Option, none, some, List, [], ◌∷◌, ◌++◌, leb, if◌then◌else◌, length,
}
use grbl_esp.InputBuffer.{
  rx_buffer_size, Call, write_call, push_call, read_call, peek_call, available_call, begin_call,
  Reply, count, flag, byte,
}

abbrev pub first : List ℕ → Option ℕ
first [] = none
first (x ∷ q) = some x

abbrev pub rest : List ℕ → List ℕ
rest [] = []
rest (x ∷ q) = q

unfoldable pub call : List ℕ → Call → Reply × List ℕ
call q (write_call c) =
    if leb (1 + length q) rx_buffer_size then (count 1, q ++ c ∷ []) else (count 0, q)
call q (push_call text) =
    if leb (length text + length q) rx_buffer_size then (flag true, q ++ text) else (flag false, q)
call q read_call = (byte (first q), rest q)
call q peek_call = (byte (first q), q)
call q available_call = (count (length q), q)
call q begin_call = (count 0, [])

unfoldable pub run : List ℕ → List Call → List Reply
run q [] = []
run q (c ∷ cs) = let (r, q') = call q c in r ∷ run q' cs
