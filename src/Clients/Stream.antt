-- ===== src/Clients/Stream.antt =====
-- Where the bytes of a client go: clientCheckTask and getClientChar of Serial.cpp.
use grbl_esp.Base.{
  ℕ, zero, suc, ◌+◌, ◌≤◌, ◌<◌, ◌≡◌, refl, sym, ap, ◌∙◌, ◌≢◌, inl, inr, Bool, true, false, Option,
  none, some, List, [], ◌∷◌, ◌++◌, append-nil, append_assoc, arith, if◌then◌else◌, Bool-cases,
  Option-cases, length, set, length-append, length-set, get_or,
}
use grbl_esp.InputBuffer
use grbl_esp.InputBuffer.{InputBuffer, write_call, call}
use grbl_esp.InputBuffer.Queue
use grbl_esp.InputBuffer.Contents.{IsValid, contents}
use grbl_esp.InputBuffer.Refinement.{call_refines, call-IsValid}
use grbl_esp.System.{System}
use grbl_esp.Subsystems.{Subsystems}
use grbl_esp.Serial.{is_realtime_command, execute_realtime_command}
use grbl_esp.Clients.{
  Clients, Sources, client_buffer, store_char, client_char, client_chars, get_client_char,
  client_check,
}

-- the bytes that are no realtime characters
abbrev pub line_bytes : List ℕ → List ℕ
line_bytes [] = []
line_bytes (c ∷ cs) = if is_realtime_command c then line_bytes cs else c ∷ line_bytes cs

get_or-set {ℓ} :
    {A : Type ℓ} (xs : List A) (i : ℕ) (v d : A) → i < length xs → get_or (set xs i v) i d ≡ v
get_or-set [] i v d h = absurd (omega arith)
get_or-set (x ∷ xs) zero v d h = refl
get_or-set (x ∷ xs) (suc i) v d h = get_or-set xs i v d (omega arith)

get_or-set_ne {ℓ} :
    {A : Type ℓ} (xs : List A) (i j : ℕ) (v d : A) → i ≢ j → get_or (set xs i v) j d ≡ get_or xs j d
get_or-set_ne [] i j v d h = refl
get_or-set_ne (x ∷ xs) zero zero v d h = absurd (h refl)
get_or-set_ne (x ∷ xs) zero (suc j) v d h = refl
get_or-set_ne (x ∷ xs) (suc i) zero v d h = refl
get_or-set_ne (x ∷ xs) (suc i) (suc j) v d h = get_or-set_ne xs i j v d (λ e. h (ap suc e))

-- a byte written where there is room
write_room :
    {b : InputBuffer} (c : ℕ)
    → IsValid b
    → length (contents b) < 256
    → (contents (InputBuffer.write b c).0 ≡ contents b ++ c ∷ [])
      × IsValid (InputBuffer.write b c).0
unfolding call
write_room {b} c v room =
    (ap (λ p. p.1) (call_refines (write_call c) v) ∙ fits, call-IsValid (write_call c) v)
  where
    fits : (Queue.call (contents b) (write_call c)).1 ≡ contents b ++ c ∷ []
    fits = unfold Queue.call in ground arith

module _ {W : Type 0} (sub : Subsystems W) (sd_busy : W → Bool) where
  client_char_realtime :
      (t : Clients W) (client c : ℕ)
      → is_realtime_command c ≡ true
      → (client_char sub sd_busy t client c).buffers ≡ t.buffers
  unfolding client_char
  client_char_realtime t client c h = rw h

  client_char_line :
      (t : Clients W) (client c : ℕ)
      → sd_busy t.world ≡ false
      → is_realtime_command c ≡ false
      → (client_char sub sd_busy t client c).buffers ≡ store_char t.buffers client c
  unfolding client_char
  client_char_line t client c idle h = rw (h, idle)

  length-client_char :
      (t : Clients W) (client c : ℕ)
      → length (client_char sub sd_busy t client c).buffers ≡ length t.buffers
  unfolding client_char store_char
  length-client_char t client c =
      ground (
        arith,
        length-set t.buffers client (InputBuffer.write (client_buffer t.buffers client) c).0,
      )

  stored :
      (bs : List InputBuffer) (client c : ℕ) (b : InputBuffer)
      → client < length bs
      → client_buffer bs client ≡ b
      → client_buffer (store_char bs client c) client ≡ (InputBuffer.write b c).0
  unfolding store_char
  stored bs client c b ok e = get_or-set bs client _ _ ok ∙ ap (λ x. (InputBuffer.write x c).0) e

  -- one byte starts no SD job, if the realtime commands start none
  client_char_idle :
      (t : Clients W) (client c : ℕ)
      → ((x : ℕ) (s : System) (w : W)
          → sd_busy w ≡ false
          → sd_busy (execute_realtime_command sub x s w).1 ≡ false)
      → sd_busy t.world ≡ false
      → sd_busy (client_char sub sd_busy t client c).world ≡ false
  unfolding client_char
  client_char_idle t client c stays idle = ground (arith, stays c t.system t.world idle)

  -- the loop from a buffer `b` on
  chars_from :
      (cs : List ℕ) (t : Clients W) (client : ℕ) (b : InputBuffer)
      → ((x : ℕ) (s : System) (w : W)
          → sd_busy w ≡ false
          → sd_busy (execute_realtime_command sub x s w).1 ≡ false)
      → sd_busy t.world ≡ false
      → client < length t.buffers
      → client_buffer t.buffers client ≡ b
      → IsValid b
      → length (contents b) + length cs ≤ 256
      → contents (client_buffer (client_chars sub sd_busy t client cs).buffers client)
        ≡ contents b ++ line_bytes cs
  unfolding client_chars
  chars_from [] t client b stays idle ok e v fits = ap contents e ∙ sym (append-nil (contents b))
  chars_from (c ∷ cs) t client b stays idle ok e v fits =
      elim (Bool-cases (is_realtime_command c)) [
        | inl rt ↦
            chars_from cs (client_char sub sd_busy t client c) client b stays
              (client_char_idle t client c stays idle) (rw (length-client_char t client c) ok)
              (ap (λ bs. client_buffer bs client) (client_char_realtime t client c rt) ∙ e) v
              (omega arith)
            ∙ rw rt
        | inr plain ↦
            let (grown, valid) = write_room c v (omega arith) in
            chars_from cs (client_char sub sd_busy t client c) client (InputBuffer.write b c).0
              stays (client_char_idle t client c stays idle) (rw (length-client_char t client c) ok)
              (ap (λ bs. client_buffer bs client) (client_char_line t client c idle plain)
                ∙ stored t.buffers client c b ok e)
              valid (rw grown (omega (arith, length-append (contents b) (c ∷ []))))
            ∙ rw (grown, plain, append_assoc)
      ]

  -- Of the bytes of one client, exactly those that are no realtime characters reach its receive
  -- buffer, in order, as long as they
  -- fit, no SD job runs and the realtime commands start none.
  pub contents-client_chars :
      (cs : List ℕ) (t : Clients W) (client : ℕ)
      → ((x : ℕ) (s : System) (w : W)
          → sd_busy w ≡ false
          → sd_busy (execute_realtime_command sub x s w).1 ≡ false)
      → sd_busy t.world ≡ false
      → client < length t.buffers
      → IsValid (client_buffer t.buffers client)
      → length (contents (client_buffer t.buffers client)) + length cs ≤ 256
      → contents (client_buffer (client_chars sub sd_busy t client cs).buffers client)
        ≡ contents (client_buffer t.buffers client) ++ line_bytes cs
  contents-client_chars cs t client stays idle ok v fits =
      chars_from cs t client (client_buffer t.buffers client) stays idle ok refl v fits

  -- A byte of one client never touches the receive buffer of another.
  pub client_char_other :
      (t : Clients W) (client other c : ℕ)
      → client ≢ other
      → client_buffer (client_char sub sd_busy t client c).buffers other
        ≡ client_buffer t.buffers other
  unfolding client_char store_char
  client_char_other t client other c ne = ground (
    arith,
    get_or-set_ne t.buffers client other (InputBuffer.write (client_buffer t.buffers client) c).0
        (client_buffer [] other) ne,
  )

-- the bytes that still wait
abbrev pub pending : Sources → ℕ
pending src =
    length src.uart + length src.input + length src.bt + length src.web + length src.telnet

-- what `get_client_char` takes is one byte of one source
abbrev TakesOne : Sources → Option (ℕ × ℕ × Sources) → Type 0
TakesOne src none = Unit
TakesOne src (some (client, c, left)) = pending src ≡ suc (pending left)

get_client_char_takes :
    (buffers : List InputBuffer) (u i b w t : List ℕ) (connected : Bool)
    → let src : Sources = record {
      uart = u;
      input = i;
      bt = b;
      bt_connected = connected;
      web = w;
      telnet = t;
    } in
      TakesOne src (get_client_char buffers src)
unfolding get_client_char
get_client_char_takes buffers [] [] [] [] [] connected = ground arith
get_client_char_takes buffers _ _ _ _ _ connected = ground arith

module _ {W : Type 0} (sub : Subsystems W) (sd_busy : W → Bool) where
  taken : (buffers : List InputBuffer) (src : Sources) → TakesOne src (get_client_char buffers src)
  taken buffers src =
      get_client_char_takes buffers src.uart src.input src.bt src.web src.telnet src.bt_connected

  no_pending :
      (buffers : List InputBuffer) (src : Sources)
      → pending src ≤ 0
      → get_client_char buffers src ≡ none
  no_pending buffers src h = elim (Option-cases (get_client_char buffers src)) [
    | inl e ↦ e
    | inr ((client, c, left), e) ↦ absurd (omega (arith, rw e at (taken buffers src)))
  ]

  -- The inner loop of the receiving task ends: after at most as many turns as bytes wait,
  -- `getClientChar` finds no byte that it could take.
  pub client_check_ends :
      (fuel : ℕ) (t : Clients W) (src : Sources)
      → pending src ≤ fuel
      → let (t', left) = client_check sub sd_busy fuel t src in
        get_client_char t'.buffers left ≡ none
  unfolding client_check
  client_check_ends zero t src h = no_pending t.buffers src h
  client_check_ends (suc fuel) t src h = elim (Option-cases (get_client_char t.buffers src)) [
    | inl e ↦ rw (e, client_check) e
    | inr ((client, c, left), e) ↦
        rw (e, client_check)
          (client_check_ends fuel (client_char sub sd_busy t client c) left
            (omega (arith, rw e at (taken t.buffers src))))
  ]
