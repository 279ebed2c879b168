-- ===== src/GCode/Parse/Accepted.antt =====
-- What the words of an accepted line are (word loop of `gc_execute_line`, GCode.cpp).
use grbl_esp.Base.{
  ℕ, zero, suc, ◌+◌, ◌≡◌, refl, sym, ap, ◌∙◌, inl, inr, false, ◌&&◌, ◌||◌, Option, none, some, List,
  [], ◌∷◌, arith, ltb, ◌==◌, Bool-cases, Option-cases, length,
}
use grbl_esp.Errors.{Error}
use grbl_esp.GCode.{Parser, Board, FloatOps, Result, ok, fail, bit_istrue, group_bit}
use grbl_esp.GCode.GWords.{Command}
use grbl_esp.GCode.ValueWords.{value_word, store_value, flag_value, axis_value, is_unsigned}
use grbl_esp.GCode.Number.{read_float}
use grbl_esp.GCode.Parse.{flag_command, parse_word, parse_words}

-- a mask whose bits were each set once
abbrev pub Distinct : List ℕ → Type 0
Distinct [] = Unit
Distinct (x ∷ xs) = (bit_istrue xs x ≡ false) × Distinct xs

-- a word that was accepted sets one new bit, in one of the two masks
pub data Flagged {F : Type 0} (p p' : Parser F) : Type 0 where
  command_flag :
      (g : ℕ)
      → bit_istrue p.command_words g ≡ false
      → p'.command_words ≡ g ∷ p.command_words
      → p'.value_words ≡ p.value_words
      → Flagged p p'
  value_flag :
      (w : ℕ)
      → bit_istrue p.value_words w ≡ false
      → p'.value_words ≡ w ∷ p.value_words
      → p'.command_words ≡ p.command_words
      → Flagged p p'

-- `store_value` touches neither mask
pub record SameMasks {F : Type 0} (p p' : Parser F) : Type 0 where
  pub same_commands : p'.command_words ≡ p.command_words
  pub same_values : p'.value_words ≡ p.value_words

-- the same of a result, where it has one
abbrev KeepsMasks : {F : Type 0} → Parser F → Result (Parser F × ℕ) → Type 0
KeepsMasks p (fail e) = Unit
KeepsMasks p (ok (p', w)) = SameMasks p p'

module _ {F : Type 0} (ops : FloatOps F) (board : Board) where
  flag_command-Flagged :
      (r : Result (Command F)) (p : Parser F)
      → (flag_command ops board r p).0 ≡ none
      → Flagged p (flag_command ops board r p).1
  unfolding flag_command
  flag_command-Flagged (fail e) p h = ground arith
  flag_command-Flagged (ok c) p h =
      elim (Bool-cases (bit_istrue p.command_words (group_bit c.group))) [
        | inl e ↦ ground arith
        | inr e ↦ rw e (command_flag (group_bit c.group) e refl refl)
      ]

  store_value-KeepsMasks :
      (letter : ℕ) (v : F) (n : ℕ) (p : Parser F)
      → KeepsMasks p (store_value ops board letter v n p)
  unfolding store_value axis_value
  store_value-KeepsMasks letter v n p = ground arith

  flag_value-Flagged :
      (v : F) (w : ℕ) (p q : Parser F)
      → SameMasks p q
      → (flag_value ops board v w q).0 ≡ none
      → Flagged p (flag_value ops board v w q).1
  unfolding flag_value
  flag_value-Flagged v w p q same h = elim (Bool-cases (bit_istrue q.value_words w)) [
    | inl e ↦ ground arith
    | inr e ↦ elim (Bool-cases (is_unsigned ops board w && ops.is_negative v)) [
      | inl u ↦ ground arith
      | inr u ↦
          rw (e, u)
            (value_flag w (ap (λ (m : List ℕ). bit_istrue m w) (sym same.same_values) ∙ e)
              (ap (λ (m : List ℕ). w ∷ m) same.same_values) same.same_commands)
    ]
  ]

  -- the second step of `value_word`, on a result of the first
  after_store : F → Parser F → Result (Parser F × ℕ) → Option Error × Parser F
  after_store v p (fail e) = (some e, p)
  after_store v p (ok (p', w)) = flag_value ops board v w p'

  after_store-Flagged :
      (v : F) (p : Parser F) (r : Result (Parser F × ℕ))
      → KeepsMasks p r
      → (after_store v p r).0 ≡ none
      → Flagged p (after_store v p r).1
  unfolding after_store
  after_store-Flagged v p (fail e) k h = ground arith
  after_store-Flagged v p (ok (p', w)) k h = flag_value-Flagged v w p p' k h

  after_store_lem :
      (letter : ℕ) (v : F) (n : ℕ) (p : Parser F)
      → value_word ops board letter v n p ≡ after_store v p (store_value ops board letter v n p)
  unfolding value_word after_store
  after_store_lem letter v n p = go (store_value ops board letter v n p)
    where
      go :
          (r : Result (Parser F × ℕ))
          → elim r [ fail e ↦ (some e, p) | ok (p', word) ↦ flag_value ops board v word p' ]
            ≡ after_store v p r
      go (fail e) = refl
      go (ok (p', w)) = refl

  value_word-Flagged :
      (letter : ℕ) (v : F) (n : ℕ) (p : Parser F)
      → (value_word ops board letter v n p).0 ≡ none
      → Flagged p (value_word ops board letter v n p).1
  value_word-Flagged letter v n p = rw (after_store_lem letter v n p) (
      after_store-Flagged v p (store_value ops board letter v n p)
        (store_value-KeepsMasks letter v n p))

  parse_word-Flagged :
      (letter : ℕ) (v : F) (p : Parser F)
      → (parse_word ops board letter v p).0 ≡ none
      → Flagged p (parse_word ops board letter v p).1
  unfolding parse_word
  parse_word-Flagged letter v p = elim (Bool-cases (letter == b'G')) [
    | inl e ↦ rw e (flag_command-Flagged _ p)
    | inr e ↦ elim (Bool-cases (letter == b'M')) [
      | inl m ↦ rw (e, m) (flag_command-Flagged _ p)
      | inr m ↦ rw (e, m) (value_word-Flagged letter v _ p)
    ]
  ]

-- the masks of a parser have no bit twice
pub record AreDistinct {F : Type 0} (p : Parser F) : Type 0 where
  pub commands : Distinct p.command_words
  pub values : Distinct p.value_words

-- how many words the two masks count
abbrev pub count_words : {F : Type 0} → Parser F → ℕ
count_words p = length p.command_words + length p.value_words

Flagged-AreDistinct :
    {F : Type 0} {p p' : Parser F}
    → Flagged p p'
    → AreDistinct p
    → AreDistinct p' × (count_words p' ≡ count_words p + 1)
Flagged-AreDistinct (command_flag g new c v) d =
    (record { commands = rw c (new, d.commands); values = rw v d.values }, rw (c, v) (omega arith))
Flagged-AreDistinct (value_flag w new v c) d =
    (record { commands = rw c d.commands; values = rw v (new, d.values) }, rw (c, v) (omega arith))

module _ {F : Type 0} (ops : FloatOps F) (board : Board) where
  -- an accepted line as a list of words: letters with the numbers behind them
  pub data Words : List ℕ → List (ℕ × F) → Type 0 where
    no_words : Words [] []
    next_word :
        {letter : ℕ} {line rest : List ℕ} {v : F} {ws : List (ℕ × F)}
        → (ltb letter b'A' || ltb b'Z' letter) ≡ false
        → read_float ops line ≡ some (v, rest)
        → Words rest ws
        → Words (letter ∷ line) ((letter, v) ∷ ws)

  -- what acceptance by the loop means for a line
  pub record Accepts (line : List ℕ) (p p' : Parser F) : Type 0 where
    pub words : List (ℕ × F)
    pub spelled : Words line words
    pub distinct : AreDistinct p'
    pub counted : count_words p' ≡ count_words p + length words

  accept_word :
      (letter : ℕ) (line rest : List ℕ) (v : F) (p q p' : Parser F)
      → (ltb letter b'A' || ltb b'Z' letter) ≡ false
      → read_float ops line ≡ some (v, rest)
      → count_words q ≡ count_words p + 1
      → Accepts rest q p'
      → Accepts (letter ∷ line) p p'
  accept_word letter line rest v p q p' l r c a = record {
    words = (letter, v) ∷ a.words;
    spelled = next_word l r a.spelled;
    distinct = a.distinct;
    counted = a.counted ∙ omega (arith, c);
  }

  accept_nil : (p : Parser F) → AreDistinct p → Accepts [] p p
  accept_nil p d = record { words = []; spelled = no_words; distinct = d; counted = omega arith }

  -- the loop behind a word that is accepted
  parse_words_next :
      (fuel letter : ℕ) (line rest : List ℕ) (v : F) (p : Parser F)
      → (ltb letter b'A' || ltb b'Z' letter) ≡ false
      → read_float ops line ≡ some (v, rest)
      → (parse_word ops board letter v p).0 ≡ none
      → parse_words ops board (suc fuel) (letter ∷ line) p
        ≡ parse_words ops board fuel rest (parse_word ops board letter v p).1
  unfolding parse_words
  parse_words_next fuel letter line rest v p e r s = rw (e, r, s) refl

  -- A line that the word loop accepts consists of letters with numbers, and each of its words sets a
  -- bit of its own: no two commands are of one modal group, and no value letter is repeated.
  pub parse_words-Accepts :
      (fuel : ℕ) (line : List ℕ) (p p' : Parser F)
      → AreDistinct p
      → parse_words ops board fuel line p ≡ some (none, p')
      → Accepts line p p'
  unfolding parse_words
  parse_words-Accepts zero line p p' d h = ground arith
  parse_words-Accepts (suc fuel) [] p p' d h =
      let same : p ≡ p' =
        ap (λ (o : Option (Option Error × Parser F)). elim o [ none ↦ p | some (x, y) ↦ y ]) h in
      rw (sym same) (accept_nil p d)
  parse_words-Accepts (suc fuel) (letter ∷ line) p p' d h =
      elim (Bool-cases (ltb letter b'A' || ltb b'Z' letter)) [
        | inl e ↦ ground arith
        | inr e ↦ elim (Option-cases (read_float ops line)) [
          | inl n ↦ ground arith
          | inr ((v, rest), r) ↦ elim (Option-cases (parse_word ops board letter v p).0) [
            | inl s ↦
                let q = (parse_word ops board letter v p).1 in
                let flagged = Flagged-AreDistinct (parse_word-Flagged ops board letter v p s) d in
                accept_word letter line rest v p q p' e r flagged.1 (
                  parse_words-Accepts fuel rest q p' flagged.0
                    (sym (parse_words_next fuel letter line rest v p e r s) ∙ h))
            | inr (err, s) ↦ ground arith
          ]
        ]
      ]
