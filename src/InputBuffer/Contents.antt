-- ===== src/InputBuffer/Contents.antt =====
-- The bytes that a ring holds, and the effect of the writes on them.
use grbl_esp.Base.{
  ℕ, zero, suc, ◌+◌, ◌-◌, ◌%◌, ◌≤◌, ◌<◌, ◌≡◌, refl, ap, ap₂, ◌∙◌, ◌≢◌, some, List, [], ◌∷◌, ◌++◌,
  append-nil, append_assoc, arith, length, get_elem?, set, length-set, get_or,
}
use grbl_esp.InputBuffer.{InputBuffer, current_index, wrap_index, push_loop}

pub record IsValid (b : InputBuffer) : Type 0 where
  pub storage : length b.rx_buffer ≡ 256
  pub size_le : b.size ≤ 256
  pub pos_lt : b.pos < 256

-- the `n` bytes from index `h` on
abbrev pub window : List ℕ → ℕ → ℕ → List ℕ
window buf h zero = []
window buf h (suc n) = get_or buf h 0 ∷ window buf (wrap_index (h + 1)) n

abbrev pub contents : InputBuffer → List ℕ
contents b = window b.rx_buffer b.pos b.size

pub length-window : (buf : List ℕ) (h n : ℕ) → length (window buf h n) ≡ n
length-window buf h zero = refl
length-window buf h (suc n) = ap suc (length-window buf (wrap_index (h + 1)) n)

pub window_of_ne_zero :
    (buf : List ℕ) (h n : ℕ)
    → 0 < n
    → window buf h n ≡ get_or buf h 0 ∷ window buf (wrap_index (h + 1)) (n - 1)
window_of_ne_zero buf h zero p = absurd (omega arith)
window_of_ne_zero buf h (suc n) p = ap (λ k. window buf h (suc k)) (omega arith)

get_or-set_self : (xs : List ℕ) (i v : ℕ) → i < length xs → get_or (set xs i v) i 0 ≡ v
get_or-set_self [] i v h = absurd (omega arith)
get_or-set_self (x ∷ xs) zero v h = refl
get_or-set_self (x ∷ xs) (suc i) v h = get_or-set_self xs i v (omega arith)

get_or-set_ne : (xs : List ℕ) (i j v : ℕ) → i ≢ j → get_or (set xs i v) j 0 ≡ get_or xs j 0
get_or-set_ne [] i j v h = refl
get_or-set_ne (x ∷ xs) zero zero v h = absurd (h refl)
get_or-set_ne (x ∷ xs) zero (suc j) v h = refl
get_or-set_ne (x ∷ xs) (suc i) zero v h = refl
get_or-set_ne (x ∷ xs) (suc i) (suc j) v h = get_or-set_ne xs i j v (λ e. h (ap suc e))

pub get_elem?-get_or : (xs : List ℕ) (i : ℕ) → i < length xs → get_elem? xs i ≡ some (get_or xs i 0)
get_elem?-get_or [] i h = absurd (omega arith)
get_elem?-get_or (x ∷ xs) zero h = refl
get_elem?-get_or (x ∷ xs) (suc i) h = get_elem?-get_or xs i (omega arith)

-- Writing just behind a window extends it by that byte.
window-set :
    (buf : List ℕ) (x n h i : ℕ)
    → length buf ≡ 256
    → h < 256
    → n < 256
    → i ≡ (h + n) % 256
    → window (set buf i x) h (suc n) ≡ window buf h n ++ x ∷ []
window-set buf x zero h i len hh hn e =
    let ih : i ≡ h = omega arith in rw ih (ap (λ v. v ∷ []) (get_or-set_self buf h x (omega arith)))
window-set buf x (suc n) h i len hh hn e =
    ap₂ ◌∷◌ (get_or-set_ne buf i h x (omega arith))
      (window-set buf x n (wrap_index (h + 1)) i len (ground arith) (omega arith) (ground arith))

-- The loop of `push` appends the text to the window.
pub window-push_loop :
    (text buf : List ℕ) (h n current : ℕ)
    → length buf ≡ 256
    → h < 256
    → n + length text ≤ 256
    → wrap_index current ≡ (h + n) % 256
    → window (push_loop buf current text) h (n + length text) ≡ window buf h n ++ text
unfolding push_loop
window-push_loop [] buf h n current len hh hn e = rw append-nil (ap (window buf h) (omega arith))
window-push_loop (d ∷ ds) buf h n current len hh hn e =
    ap (window (push_loop (set buf (wrap_index current) d) (wrap_index current + 1) ds) h)
      (omega arith)
    ∙ window-push_loop ds (set buf (wrap_index current) d) h (suc n) (wrap_index current + 1)
        (length-set buf (wrap_index current) d ∙ len) hh (omega arith) (ground arith)
    ∙ ap (λ w. w ++ ds) (window-set buf d n h (wrap_index current) len hh (omega arith) e)
    ∙ append_assoc (window buf h n) (d ∷ []) ds

pub length-push_loop :
    (text buf : List ℕ) (current : ℕ) → length (push_loop buf current text) ≡ length buf
unfolding push_loop
length-push_loop [] buf current = refl
length-push_loop (d ∷ ds) buf current =
    length-push_loop ds (set buf (wrap_index current) d) (wrap_index current + 1)
    ∙ length-set buf (wrap_index current) d

pub current_index_lem :
    {b : InputBuffer} → IsValid b → wrap_index (current_index b) ≡ (b.pos + b.size) % 256
current_index_lem v = ground arith
