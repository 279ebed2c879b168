-- ===== src/InputBuffer/Refinement.antt =====
-- A valid ring answers every sequence of calls as the bounded queue of its contents does.
use grbl_esp.Base.{
  ℕ, ◌+◌, ◌≡◌, refl, ap, ap₂, ◌∙◌, inl, inr, true, false, some, List, [], ◌∷◌, ◌++◌, arith, ltb,
  leb, ltb→lt, leb→le, tests, Bool-cases, length, get_elem?, length-set, get_or,
}
use grbl_esp.InputBuffer.Queue
use grbl_esp.InputBuffer.Contents.{
  IsValid, window, contents, length-window, window_of_ne_zero, get_elem?-get_or, window-push_loop,
  length-push_loop, current_index_lem,
}
use grbl_esp.InputBuffer.{
  InputBuffer, current_index, wrap_index, begin, available, write, peek, push, push_loop, read,
  Call, write_call, push_call, read_call, peek_call, available_call, begin_call, Reply, call, run,
}

pub call-IsValid : {b : InputBuffer} (c : Call) → IsValid b → IsValid (call b c).1
unfolding call write push read begin
call-IsValid {b} (write_call c) v =
    ground (arith, length-set b.rx_buffer (wrap_index (current_index b)) c)
call-IsValid {b} (push_call text) v =
    ground (arith, length-push_loop text b.rx_buffer (current_index b))
call-IsValid read_call v = ground arith
call-IsValid peek_call v = v
call-IsValid available_call v = v
call-IsValid begin_call v = ground arith

pub length-contents : (b : InputBuffer) → length (contents b) ≡ b.size
length-contents b = length-window b.rx_buffer b.pos b.size

-- one byte is a text of one byte
write-push : (b : InputBuffer) (c : ℕ) → (write b c).0 ≡ (push b (c ∷ [])).0
unfolding write push push_loop
write-push b c = ground arith

-- the contents behind an accepted text
contents-push :
    {b : InputBuffer} (text : List ℕ)
    → IsValid b
    → leb (length text + b.size) 256 ≡ true
    → contents (push b text).0 ≡ contents b ++ text
unfolding push
contents-push {b} text v fits = rw fits (
    ap (window (push_loop b.rx_buffer (current_index b) text) b.pos) (omega arith)
    ∙ window-push_loop text b.rx_buffer b.pos b.size (current_index b) v.storage v.pos_lt
        (omega (tests, leb→le (length text + b.size) 256)) (current_index_lem v))

same_pair :
    {r r' : Reply} {q q' : List ℕ} → r ≡ r' → q ≡ q' → ◌≡◌ {A = Reply × List ℕ} (r, q) (r', q')
same_pair p q = λ i. (p i, q i)

write_refines :
    {b : InputBuffer} (c : ℕ)
    → IsValid b
    → ((call b (write_call c)).0, contents (call b (write_call c)).1)
      ≡ Queue.call (contents b) (write_call c)
unfolding call Queue.call
write_refines {b} c v = rw (length-contents b) (elim (Bool-cases (leb (1 + b.size) 256)) [
  | inl e ↦ rw e (same_pair (unfold write in rw e) (rw write-push (contents-push (c ∷ []) v e)))
  | inr e ↦ unfold write in rw e
])

push_refines :
    {b : InputBuffer} (text : List ℕ)
    → IsValid b
    → ((call b (push_call text)).0, contents (call b (push_call text)).1)
      ≡ Queue.call (contents b) (push_call text)
unfolding call Queue.call
push_refines {b} text v =
    rw (length-contents b) (elim (Bool-cases (leb (length text + b.size) 256)) [
      | inl e ↦ rw e (same_pair (unfold push in rw e) (contents-push text v e))
      | inr e ↦ unfold push in rw e
    ])

front :
    {b : InputBuffer}
    → IsValid b
    → (ltb 0 b.size ≡ true)
    → contents b ≡ get_or b.rx_buffer b.pos 0 ∷ contents (read b).1
unfolding read
front {b} v h = rw h (window_of_ne_zero b.rx_buffer b.pos b.size (ltb→lt 0 b.size h))

no_bytes : (b : InputBuffer) → ltb 0 b.size ≡ false → contents b ≡ []
no_bytes b h = let e : b.size ≡ 0 = ground arith in ap (window b.rx_buffer b.pos) e

first_byte :
    {b : InputBuffer} → IsValid b → get_elem? b.rx_buffer b.pos ≡ some (get_or b.rx_buffer b.pos 0)
first_byte {b} v = get_elem?-get_or b.rx_buffer b.pos (omega arith)

read_refines :
    {b : InputBuffer}
    → IsValid b
    → ((call b read_call).0, contents (call b read_call).1) ≡ Queue.call (contents b) read_call
unfolding call Queue.call
read_refines {b} v = elim (Bool-cases (ltb 0 b.size)) [
  | inl e ↦ rw (front v e) (unfold read in rw (e, first_byte v))
  | inr e ↦ rw (no_bytes b e) (unfold read in rw (e, no_bytes b e))
]

peek_refines :
    {b : InputBuffer}
    → IsValid b
    → ((call b peek_call).0, contents (call b peek_call).1) ≡ Queue.call (contents b) peek_call
unfolding call Queue.call
peek_refines {b} v = elim (Bool-cases (ltb 0 b.size)) [
  | inl e ↦ rw (front v e) (unfold peek in rw (e, first_byte v))
  | inr e ↦ rw (no_bytes b e) (unfold peek in rw e)
]

-- One call on a valid ring gives the reply of the same call on the queue of its bytes, and leaves
-- the ring holding the queue that the call leaves.
pub call_refines :
    {b : InputBuffer} (c : Call)
    → IsValid b
    → ((call b c).0, contents (call b c).1) ≡ Queue.call (contents b) c
unfolding call Queue.call
call_refines (write_call c) v = write_refines c v
call_refines (push_call text) v = push_refines text v
call_refines read_call v = read_refines v
call_refines peek_call v = peek_refines v
call_refines {b} available_call v = unfold available in rw (length-contents b)
call_refines begin_call v = unfold begin in refl

-- No sequence of calls tells a valid receive buffer from a queue of at most 256 bytes: `write`
-- takes a byte exactly if there is room, `push` the whole text or nothing, and `read` and `peek`
-- return the oldest byte.
pub run_refines :
    (cs : List Call) {b : InputBuffer} → IsValid b → run b cs ≡ Queue.run (contents b) cs
unfolding run Queue.run
run_refines [] v = refl
run_refines (c ∷ cs) {b} v = ap₂ ◌∷◌ (ap (λ p. p.0) (call_refines c v)) (
    run_refines cs (call-IsValid c v) ∙ ap (λ q. Queue.run q cs) (ap (λ p. p.1) (call_refines c v)))
