-- ===== src/Regex/Matching.antt =====
-- The expressions as a relation on texts, and the proof that the matcher decides it.
use grbl_esp.Base.{
  ℕ, ◌≡◌, refl, sym, ◌∙◌, ◌≢◌, ◌↔◌, ◌⊎◌, inl, inr, Bool, true, false, ◌&&◌, List, [], ◌∷◌, arith,
  ◌==◌, ==_iff, Bool-cases,
}
use grbl_esp.Regex.{is_nil, match_star, match_literal, match_here, regex_match}

-- The expression matches some beginning of the text.
pub data Here : List ℕ → List ℕ → Type 0 where
  done : {text : List ℕ} → Here [] text
  star_stop : {r : ℕ} {regexp text : List ℕ} → r ≡ b'*' → Here regexp text → Here (r ∷ regexp) text
  star_skip :
      {r c : ℕ} {regexp text : List ℕ}
      → r ≡ b'*'
      → Here (r ∷ regexp) text
      → Here (r ∷ regexp) (c ∷ text)
  at_end : {r : ℕ} → r ≡ b'$' → Here (r ∷ []) []
  literal :
      {r c : ℕ} {regexp text : List ℕ}
      → r ≢ b'*'
      → (r ≢ b'$') ⊎ (regexp ≢ [])
      → r ≡ c
      → Here regexp text
      → Here (r ∷ regexp) (c ∷ text)

-- `here` holds of a suffix of the text
pub data Within (P : List ℕ → Type 0) : List ℕ → Type 0 where
  at : {text : List ℕ} → P text → Within P text
  later : {c : ℕ} {text : List ℕ} → Within P text → Within P (c ∷ text)

match_star_sound :
    (P : List ℕ → Type 0) (here : List ℕ → Bool)
    → ((t : List ℕ) → here t ≡ true → P t)
    → (text : List ℕ) → match_star here text ≡ true
    → Within P text
unfolding match_star
match_star_sound P here sound [] h = at (sound [] h)
match_star_sound P here sound (c ∷ text) h = elim (Bool-cases (here (c ∷ text))) [
  | inl now ↦ at (sound (c ∷ text) now)
  | inr not_now ↦ later (match_star_sound P here sound text (rw not_now at h))
]

match_star_complete :
    (P : List ℕ → Type 0) (here : List ℕ → Bool)
    → ((t : List ℕ) → P t → here t ≡ true)
    → {text : List ℕ} → Within P text
    → match_star here text ≡ true
unfolding match_star
match_star_complete P here complete {text = []} (at p) = complete [] p
match_star_complete P here complete {text = c ∷ text} (at p) = rw (complete (c ∷ text) p)
match_star_complete P here complete (later {c} {text} w) =
    ground (arith, match_star_complete P here complete w)

Here-star :
    (r : ℕ) (regexp : List ℕ) {text : List ℕ}
    → r ≡ b'*'
    → Within (Here regexp) text
    → Here (r ∷ regexp) text
Here-star r regexp e (at h) = star_stop e h
Here-star r regexp e (later w) = star_skip e (Here-star r regexp e w)

literal_sound :
    (r : ℕ) (regexp text : List ℕ)
    → ((t : List ℕ) → match_here regexp t ≡ true → Here regexp t)
    → r ≢ b'*'
    → (r ≢ b'$') ⊎ (regexp ≢ [])
    → match_literal r (match_here regexp) text ≡ true
    → Here (r ∷ regexp) text
unfolding match_literal
literal_sound r regexp [] sound p q h = cc
literal_sound r regexp (c ∷ text) sound p q h = elim (Bool-cases (r == c)) [
  | inl e ↦ literal p q ((==_iff r c).0 e) (sound text (rw e at h))
  | inr e ↦ cc (rw e at h)
]

dollar_sound :
    (r : ℕ) (regexp text : List ℕ)
    → (r == b'$' && is_nil regexp) ≡ true
    → is_nil text ≡ true
    → Here (r ∷ regexp) text
dollar_sound r [] [] d e = at_end (ground arith)
dollar_sound r [] (c ∷ text) d e = cc
dollar_sound r (x ∷ regexp) text d e = let f : false ≡ true = ground arith in cc

not_dollar :
    (r : ℕ) (regexp : List ℕ) → (r == b'$' && is_nil regexp) ≡ false → (r ≢ b'$') ⊎ (regexp ≢ [])
not_dollar r [] h = inl (ground arith)
not_dollar r (x ∷ regexp) h = inr (ground arith)

match_here_sound : (regexp text : List ℕ) → match_here regexp text ≡ true → Here regexp text
unfolding match_here
match_here_sound [] text h = done
match_here_sound (r ∷ regexp) text h = elim (Bool-cases (r == b'*')) [
  | inl star ↦ Here-star r regexp ((==_iff r b'*').0 star) (
      match_star_sound (Here regexp) (match_here regexp) (match_here_sound regexp) text
        (rw star at h))
  | inr plain ↦ elim (Bool-cases (r == b'$' && is_nil regexp)) [
    | inl d ↦ dollar_sound r regexp text d (rw (plain, d) at h)
    | inr d ↦
        literal_sound r regexp text (match_here_sound regexp) (ground arith) (not_dollar r regexp d)
          (rw (plain, d) at h)
  ]
]

literal_complete :
    (r : ℕ) (regexp text : List ℕ)
    → r ≢ b'*'
    → (r ≢ b'$') ⊎ (regexp ≢ [])
    → match_literal r (match_here regexp) text ≡ true
    → match_here (r ∷ regexp) text ≡ true
unfolding match_here
literal_complete r [] text p q h = ground arith
literal_complete r (x ∷ regexp) text p q h = ground arith

match_star_here :
    (r : ℕ) (regexp text : List ℕ)
    → r ≡ b'*'
    → match_here (r ∷ regexp) text ≡ match_star (match_here regexp) text
unfolding match_here
match_star_here r regexp text e = ground arith

-- a skipped byte, and a stop, keep the star loop true
match_star_skip :
    (here : List ℕ → Bool) (c : ℕ) (text : List ℕ)
    → match_star here text ≡ true
    → match_star here (c ∷ text) ≡ true
unfolding match_star
match_star_skip here c text h = ground arith

match_star_stop :
    (here : List ℕ → Bool) (text : List ℕ) → here text ≡ true → match_star here text ≡ true
unfolding match_star
match_star_stop here [] h = h
match_star_stop here (c ∷ text) h = rw h

match_here_complete : {regexp text : List ℕ} → Here regexp text → match_here regexp text ≡ true
unfolding match_here
match_here_complete done = refl
match_here_complete (star_stop {r} {regexp} {text} e h) =
    match_star_here r regexp text e
    ∙ match_star_stop (match_here regexp) text (match_here_complete h)
match_here_complete (star_skip {r} {c} {regexp} {text} e h) =
    match_star_here r regexp (c ∷ text) e
    ∙ match_star_skip (match_here regexp) c text
        (sym (match_star_here r regexp text e) ∙ match_here_complete h)
match_here_complete (at_end e) = ground arith
match_here_complete (literal {r} {c} {regexp} {text} p q e h) =
    literal_complete r regexp (c ∷ text) p q
      (unfold match_literal in ground (arith, match_here_complete h))

-- What `regexMatch` promises: `^` binds the expression to the beginning of the text, and without
-- it the expression may match from any place of the text on.
abbrev pub Matches : List ℕ → List ℕ → Type 0
Matches [] text = Within (Here []) text
Matches (r ∷ regexp) text =
    ((r ≡ b'^') × Here regexp text) ⊎ ((r ≢ b'^') × Within (Here (r ∷ regexp)) text)

Matches-sound : (regexp text : List ℕ) → regex_match regexp text ≡ true → Matches regexp text
unfolding regex_match
Matches-sound [] text h = match_star_sound (Here []) (match_here []) (match_here_sound []) text h
Matches-sound (r ∷ regexp) text h = elim (Bool-cases (r == b'^')) [
  | inl e ↦ inl ((==_iff r b'^').0 e, match_here_sound regexp text (rw e at h))
  | inr e ↦ inr (
    ground arith,
    match_star_sound (Here (r ∷ regexp)) (match_here (r ∷ regexp)) (match_here_sound (r ∷ regexp))
        text (rw e at h),
  )
]

Matches-complete : (regexp text : List ℕ) → Matches regexp text → regex_match regexp text ≡ true
unfolding regex_match
Matches-complete [] text m =
    match_star_complete (Here []) (match_here []) (λ t. match_here_complete) m
Matches-complete (r ∷ regexp) text (inl (e, h)) = ground (arith, match_here_complete h)
Matches-complete (r ∷ regexp) text (inr (e, w)) = ground (
  arith,
  match_star_complete (Here (r ∷ regexp)) (match_here (r ∷ regexp)) (λ t. match_here_complete) w,
)

-- `regexMatch` returns true exactly for the texts that the expression matches: an expression that
-- begins with `^` from the beginning of the text, any other from some place of the text on, where
-- `*` stands for any run of bytes and a final `$` for the end of the text.
pub regex_match-Matches :
    (regexp text : List ℕ) → (regex_match regexp text ≡ true) ↔ Matches regexp text
regex_match-Matches regexp text = (Matches-sound regexp text, Matches-complete regexp text)
