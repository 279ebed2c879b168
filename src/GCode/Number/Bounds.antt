-- ===== src/GCode/Number/Bounds.antt =====
-- What the digit loop of `read_float` (NutsBolts.cpp) computes.
use grbl_esp.Base.{
  ℕ, zero, suc, ◌+◌, ◌-◌, ◌*◌, ◌≤◌, ◌<◌, ◌≡◌, refl, sym, ap, ap₂, ◌∙◌, inl, inr, true, false, not,
  ◌&&◌, List, [], ◌∷◌, ◌++◌, arith, ltb, ◌==◌, if◌then◌else◌, ltb→lt, Bool-cases, length, get_or,
  take,
}
use grbl_esp.GCode.Number.{Reading, add_digit, read_digits, is_digit}

-- the digits of a number, as values; other characters, the decimal point, are left out
abbrev pub digits_of : List ℕ → List ℕ
digits_of [] = []
digits_of (c ∷ cs) = if is_digit c then (c - b'0') ∷ digits_of cs else digits_of cs

-- the value of decimal digits behind those that gave `v`
abbrev pub decimal : ℕ → List ℕ → ℕ
decimal v [] = v
decimal v (d ∷ ds) = decimal (v * 10 + d) ds

-- the bound of a number of so many digits
abbrev pub ten_to : ℕ → ℕ
ten_to n = get_or (1 ∷ 10 ∷ 100 ∷ 1000 ∷ 10000 ∷ 100000 ∷ 1000000 ∷ 10000000 ∷ 100000000 ∷ []) n 0

-- fewer than eight digits leave room for one more in the uint32_t
ten_to_next : (n v d : ℕ) → n < 8 → v < ten_to n → d ≤ 9 → v * 10 + d < ten_to (n + 1)
ten_to_next zero v d h k u = omega arith
ten_to_next (suc zero) v d h k u = omega arith
ten_to_next (suc (suc zero)) v d h k u = omega arith
ten_to_next (suc (suc (suc zero))) v d h k u = omega arith
ten_to_next (suc (suc (suc (suc zero)))) v d h k u = omega arith
ten_to_next (suc (suc (suc (suc (suc zero))))) v d h k u = omega arith
ten_to_next (suc (suc (suc (suc (suc (suc zero)))))) v d h k u = omega arith
ten_to_next (suc (suc (suc (suc (suc (suc (suc zero))))))) v d h k u = omega arith
ten_to_next (suc (suc (suc (suc (suc (suc (suc (suc n)))))))) v d h k u = omega arith

ten_to_le : (n : ℕ) → ten_to n ≤ 100000000
ten_to_le zero = omega arith
ten_to_le (suc zero) = omega arith
ten_to_le (suc (suc zero)) = omega arith
ten_to_le (suc (suc (suc zero))) = omega arith
ten_to_le (suc (suc (suc (suc zero)))) = omega arith
ten_to_le (suc (suc (suc (suc (suc zero))))) = omega arith
ten_to_le (suc (suc (suc (suc (suc (suc zero)))))) = omega arith
ten_to_le (suc (suc (suc (suc (suc (suc (suc zero))))))) = omega arith
ten_to_le (suc (suc (suc (suc (suc (suc (suc (suc zero)))))))) = omega arith
ten_to_le (suc (suc (suc (suc (suc (suc (suc (suc (suc n))))))))) = omega arith

-- Where the digits stand that the loop has read: the text is a number and what is left, and the
-- integer is the value of the first eight digits.
pub record Reads (d d' : Reading) (text rest : List ℕ) : Type 0 where
  pub number : List ℕ
  pub splits : text ≡ number ++ rest
  pub counted : d'.ndigit ≡ d.ndigit + length (digits_of number)
  pub valued : d'.intval ≡ decimal d.intval (take (8 - d.ndigit) (digits_of number))

-- the integer is small enough for the digits that it has taken
abbrev pub IsSmall : Reading → Type 0
IsSmall d = d.ndigit < 9 → d.intval < ten_to d.ndigit

add_digit-intval :
    (c : ℕ) (d : Reading)
    → d.ndigit < 8
    → d.intval * 10 + (c - b'0') < 4294967296
    → (add_digit c d).intval ≡ d.intval * 10 + (c - b'0')
unfolding add_digit
add_digit-intval c d n h = ground arith

-- one of the first eight digits
add_digit_low :
    (c : ℕ) (d : Reading)
    → d.ndigit < 8
    → is_digit c ≡ true
    → IsSmall d
    → ((add_digit c d).ndigit ≡ d.ndigit + 1)
      × ((add_digit c d).intval ≡ d.intval * 10 + (c - b'0'))
      × IsSmall (add_digit c d)
unfolding add_digit
add_digit_low c d n h k =
    let digit : c - b'0' ≤ 9 = ground arith in
    let small : d.intval < ten_to d.ndigit = k (omega arith) in
    let next : d.intval * 10 + (c - b'0') < ten_to (d.ndigit + 1) =
      ten_to_next d.ndigit d.intval (c - b'0') n small digit in
    let bound : ten_to (d.ndigit + 1) ≤ 100000000 = ten_to_le (d.ndigit + 1) in
    let count : (add_digit c d).ndigit ≡ d.ndigit + 1 = ground arith in
    let value : (add_digit c d).intval ≡ d.intval * 10 + (c - b'0') =
      add_digit-intval c d n (omega (arith, next, bound)) in
    (count, value, λ _. rw (count, value) next)

-- a digit beyond the eighth
add_digit_high :
    (c : ℕ) (d : Reading)
    → 8 ≤ d.ndigit
    → d.ndigit < 255
    → ((add_digit c d).ndigit ≡ d.ndigit + 1) × ((add_digit c d).intval ≡ d.intval)
unfolding add_digit
add_digit_high c d n h = ground arith

add_digit-ndigit : (c : ℕ) (d : Reading) → d.ndigit < 255 → (add_digit c d).ndigit ≡ d.ndigit + 1
unfolding add_digit
add_digit-ndigit c d n = ground arith

add_digit-IsSmall :
    (c : ℕ) (d : Reading) → d.ndigit < 255 → is_digit c ≡ true → IsSmall d → IsSmall (add_digit c d)
add_digit-IsSmall c d n h k = elim (Bool-cases (ltb d.ndigit 8)) [
  | inl low ↦ (add_digit_low c d (ltb→lt d.ndigit 8 low) h k).2
  | inr high ↦ λ small. ground (arith, add_digit-ndigit c d n)
]

take_nil : (m : ℕ) → take {A = ℕ} m [] ≡ []
take_nil zero = refl
take_nil (suc m) = refl

-- nothing is read
stop-Reads : (d : Reading) (rest : List ℕ) → Reads d d rest rest
stop-Reads d rest = record {
  number = [];
  splits = refl;
  counted = omega arith;
  valued = sym (ap (decimal d.intval) (take_nil (8 - d.ndigit)));
}

-- the decimal point is no digit
point-Reads :
    (c : ℕ) (d d' : Reading) (text rest : List ℕ)
    → is_digit c ≡ false
    → Reads (record d { isdecimal = true }) d' text rest
    → Reads d d' (c ∷ text) rest
point-Reads c d d' text rest h a = record {
  number = c ∷ a.number;
  splits = ap (λ (t : List ℕ). c ∷ t) a.splits;
  counted = rw h a.counted;
  valued = rw h a.valued;
}

-- a digit in front of what the loop reads
digit-Reads :
    (c : ℕ) (d d' : Reading) (text rest : List ℕ)
    → is_digit c ≡ true
    → d.ndigit < 255
    → IsSmall d
    → Reads (add_digit c d) d' text rest
    → Reads d d' (c ∷ text) rest
digit-Reads c d d' text rest h n k a = elim (Bool-cases (ltb d.ndigit 8)) [
  | inl low ↦
      let (count, value, small) = add_digit_low c d (ltb→lt d.ndigit 8 low) h k in
      record {
        number = c ∷ a.number;
        splits = ap (λ (t : List ℕ). c ∷ t) a.splits;
        counted = rw h (omega (arith, a.counted, count));
        valued =
            let room : 8 - d.ndigit ≡ suc (8 - (d.ndigit + 1)) = ground arith in
            rw (h, room)
              (a.valued
                ∙ ap₂ (λ (v m : ℕ). decimal v (take (8 - m) (digits_of a.number))) value count);
      }
  | inr high ↦
      let (count, value) = add_digit_high c d (ground arith) n in
      record {
        number = c ∷ a.number;
        splits = ap (λ (t : List ℕ). c ∷ t) a.splits;
        counted = rw h (omega (arith, a.counted, count));
        valued =
            let full : 8 - d.ndigit ≡ 0 = ground arith in
            let still : 8 - (add_digit c d).ndigit ≡ 0 = ground (arith, count) in
            rw (h, full)
              (a.valued
                ∙ ap (λ (m : ℕ). decimal (add_digit c d).intval (take m (digits_of a.number))) still
                ∙ value);
      }
]

-- The digit loop of a line that fits the line buffer: the text splits into a number and the rest, as
-- many digits as the number has are counted, and `intval`, in spite of its 32 bits, is exactly the
-- value of the first eight of them.
pub read_digits-Reads :
    (text : List ℕ) (d : Reading)
    → d.ndigit + length text < 256
    → IsSmall d
    → Reads d (read_digits text d).0 text (read_digits text d).1
unfolding read_digits
read_digits-Reads [] d n k = stop-Reads d []
read_digits-Reads (c ∷ cs) d n k = elim (Bool-cases (is_digit c)) [
  | inl h ↦ rw h (
      digit-Reads c d _ cs _ h (omega (arith, n)) k (
        read_digits-Reads cs (add_digit c d)
          (let count = add_digit-ndigit c d (omega (arith, n)) in omega (arith, n, count))
          (add_digit-IsSmall c d (omega (arith, n)) h k)))
  | inr h ↦ elim (Bool-cases (c == b'.' && not d.isdecimal)) [
    | inl p ↦
        rw (h, p)
          (point-Reads c d _ cs _ h
            (read_digits-Reads cs (record d { isdecimal = true }) (omega (arith, n)) k))
    | inr p ↦ rw (h, p) (stop-Reads d (c ∷ cs))
  ]
]
