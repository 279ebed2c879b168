-- ===== src/GCode/Collapse/Idempotent.antt =====
-- What is left of a line by `collapseGCode` (GCode.cpp).
use grbl_esp.Base.{
  ℕ, ◌≡◌, refl, ap₂, ◌∙◌, Bool, true, false, not, ◌&&◌, ◌||◌, Option, none, some, List, [], ◌∷◌,
  arith, leb, ◌==◌, if◌then◌else◌, if_false,
}
use grbl_esp.GCode.Collapse.{
  Collapsed, collapse_from, collapse_gcode, emit, report_comment, isspace, toupper,
}

-- a character that may stand in a collapsed line: no blank, no lower case letter, none of ( ) ; %
abbrev pub is_code : ℕ → Bool
is_code c =
    not (isspace c)
    && not (leb b'a' c && leb c b'z')
    && not (c == b'(')
    && not (c == b')')
    && not (c == b';')
    && not (c == b'%')

abbrev pub IsCode : List ℕ → Type 0
IsCode [] = Unit
IsCode (c ∷ cs) = (is_code c ≡ true) × IsCode cs

toupper-is_code :
    (c : ℕ)
    → isspace c ≡ false
    → (c == b')') ≡ false
    → (c == b'(') ≡ false
    → (c == b';') ≡ false
    → (c == b'%' || c == b'\r') ≡ false
    → is_code (toupper c) ≡ true
toupper-is_code c h₁ h₂ h₃ h₄ h₅ = ground arith

-- a character of code passes the loop unchanged
is_code-kept :
    (c : ℕ)
    → is_code c ≡ true
    → (isspace c ≡ false)
      × ((c == b')') ≡ false)
      × ((c == b'(') ≡ false)
      × ((c == b';') ≡ false)
      × ((c == b'%' || c == b'\r') ≡ false)
      × (toupper c ≡ c)
is_code-kept c h = ground arith

report_comment-IsCode :
    (paren : Option (List ℕ)) (rest : Collapsed)
    → IsCode rest.line
    → IsCode (report_comment paren rest).line
report_comment-IsCode none rest h = h
report_comment-IsCode (some text) rest h = h

emit-IsCode :
    (paren : Option (List ℕ)) (c : ℕ) (rest : Collapsed)
    → is_code (toupper c) ≡ true
    → IsCode rest.line
    → IsCode (emit paren c rest).line
emit-IsCode none c rest u h = (u, h)
emit-IsCode (some text) c rest u h = h

if-IsCode :
    (b : Bool) (x y : Collapsed)
    → (b ≡ true → IsCode x.line)
    → (b ≡ false → IsCode y.line)
    → IsCode (if b then x else y).line
if-IsCode true x y h k = h refl
if-IsCode false x y h k = k refl

collapse_from-IsCode :
    (paren : Option (List ℕ)) (cs : List ℕ) → IsCode (collapse_from paren cs).line
unfolding collapse_from
collapse_from-IsCode paren [] = report_comment-IsCode paren _ tt
collapse_from-IsCode paren (c ∷ cs) =
    let ih = λ (q : Option (List ℕ)). collapse_from-IsCode q cs in
    if-IsCode _ _ _ (λ _. ih _)
      (λ h₁.
        if-IsCode _ _ _ (λ _. report_comment-IsCode paren _ (ih _))
          (λ h₂.
            if-IsCode _ _ _ (λ _. ih _)
              (λ h₃.
                if-IsCode _ _ _ (λ _. tt)
                  (λ h₄.
                    if-IsCode _ _ _ (λ _. ih _)
                      (λ h₅. emit-IsCode paren c _ (toupper-is_code c h₁ h₂ h₃ h₄ h₅) (ih _))))))

code-collapse :
    (cs : List ℕ) → IsCode cs → collapse_from none cs ≡ record { line = cs; comments = [] }
unfolding collapse_from
code-collapse [] h = refl
code-collapse (c ∷ cs) (code, h) =
    let (h₁, h₂, h₃, h₄, h₅, h₆) = is_code-kept c code in
    if_false _ _ h₁
    ∙ if_false _ _ h₂
    ∙ if_false _ _ h₃
    ∙ if_false _ _ h₄
    ∙ if_false _ _ h₅
    ∙ ap₂ (λ (x : ℕ) (t : Collapsed). record t { line = x ∷ t.line }) h₆ (code-collapse cs h)

-- What is left of any line has no blank, no lower case letter and none of the characters `(`, `)`,
-- `;` and `%`; collapsing it again changes nothing and reports no comment.
pub collapse_gcode_twice :
    (line : List ℕ)
    → IsCode (collapse_gcode line).line
      × (collapse_gcode (collapse_gcode line).line
          ≡ record { line = (collapse_gcode line).line; comments = [] })
unfolding collapse_gcode
collapse_gcode_twice line =
    let code = collapse_from-IsCode none line in (code, code-collapse _ code)
