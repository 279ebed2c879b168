-- ===== src/InputBuffer.antt =====
-- WebUI/InputBuffer.cpp and InputBuffer.h (Grbl_Esp32/src/WebUI): the ring of received bytes that
-- each client has. `_RXbufferSize` and `_RXbufferpos` are uint16_t and stay far below 2^16 (see
-- IsValid in Contents), so they are plain numbers. `none` is the -1 that `peek` and `read` return.
pub mod Queue
pub mod Contents
pub mod Refinement
mod Tests
use grbl_esp.Base.{
  ℕ, zero, suc, ◌+◌, ◌-◌, ◌*◌, ◌/◌, ◌%◌, ◌^◌, ◌≤◌, ◌<◌, min, max, ◌≡◌, refl, sym, ap, ap₂, ◌∙◌, ◌≢◌,
  ◌↔◌, ◌⊎◌, inl, inr, Bool, true, false, not, ◌&&◌, ◌||◌, Option, none, some, List, [], ◌∷◌, ◌++◌,
  map, append-nil, append_assoc, arith, ltb, leb, ◌==◌, if◌then◌else◌, ltb→lt, lt→ltb, leb→le,
  ==_iff, tests, Bool-cases, Option-cases, length, get_elem?, set, length-append, length-set,
  get_elem?-set_self, get_elem?-set_ne, get_or, take, drop, replicate, take-append-drop,
  length-take, length-drop, length-replicate, length-map,
}

abbrev pub rx_buffer_size : ℕ
rx_buffer_size = 256

pub record InputBuffer : Type 0 where
  pub rx_buffer : List ℕ
  pub size : ℕ
  pub pos : ℕ

-- `begin()`; the constructor and `end()` have the same body
unfoldable pub begin : InputBuffer → InputBuffer
begin b = record b { size = 0; pos = 0 }

unfoldable pub available : InputBuffer → ℕ
available b = b.size

unfoldable pub available_for_write : InputBuffer → ℕ
available_for_write b = rx_buffer_size - b.size

-- the index behind the last byte, as `write` and `push` begin to compute it
abbrev pub current_index : InputBuffer → ℕ
current_index b =
    let current = b.pos + b.size in
    if ltb rx_buffer_size current then current - rx_buffer_size else current

-- `if (current > (RXBUFFERSIZE - 1)) current = 0;`
abbrev pub wrap_index : ℕ → ℕ
wrap_index current = if ltb (rx_buffer_size - 1) current then 0 else current

-- `write(uint8_t c)`: the new buffer, and the number of bytes written
unfoldable pub write : InputBuffer → ℕ → InputBuffer × ℕ
write b c =
    if leb (1 + b.size) rx_buffer_size
    then (
      record b { rx_buffer = set b.rx_buffer (wrap_index (current_index b)) c; size = b.size + 1 },
      1,
    )
    else (b, 0)

unfoldable pub peek : InputBuffer → Option ℕ
peek b = if ltb 0 b.size then get_elem? b.rx_buffer b.pos else none

-- the loop of `push` over the bytes of `data`
unfoldable pub push_loop : List ℕ → ℕ → List ℕ → List ℕ
push_loop buf current [] = buf
push_loop buf current (d ∷ ds) =
    push_loop (set buf (wrap_index current) d) (wrap_index current + 1) ds

-- `push(const char* data)`: all of the text or nothing
unfoldable pub push : InputBuffer → List ℕ → InputBuffer × Bool
unfolding push_loop
push b text =
    if leb (length text + b.size) rx_buffer_size
    then (
      record b {
        rx_buffer = push_loop b.rx_buffer (current_index b) text;
        size = b.size + length text;
      },
      true,
    )
    else (b, false)

unfoldable pub read : InputBuffer → Option ℕ × InputBuffer
read b =
    if ltb 0 b.size
    then (get_elem? b.rx_buffer b.pos, record b { pos = wrap_index (b.pos + 1); size = b.size - 1 })
    else (none, b)

-- A client's calls in order, and what each returns.
pub data Call : Type 0 where
  write_call : ℕ → Call
  push_call : List ℕ → Call
  read_call peek_call available_call begin_call : Call

pub data Reply : Type 0 where
  count : ℕ → Reply
  flag : Bool → Reply
  byte : Option ℕ → Reply

unfoldable pub call : InputBuffer → Call → Reply × InputBuffer
call b (write_call c) = let (b', n) = write b c in (count n, b')
call b (push_call text) = let (b', done) = push b text in (flag done, b')
call b read_call = let (v, b') = read b in (byte v, b')
call b peek_call = (byte (peek b), b)
call b available_call = (count (available b), b)
call b begin_call = (count 0, begin b)

unfoldable pub run : InputBuffer → List Call → List Reply
run b [] = []
run b (c ∷ cs) = let (r, b') = call b c in r ∷ run b' cs
