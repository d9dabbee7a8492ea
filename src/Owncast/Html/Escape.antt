-- ===== src/Owncast/Html/Escape.antt =====
-- html.ts: the six replacements of `escapeText` as one pass.
use livelier.Base.{ℕ, ◌≡◌, refl, [], ◌∷◌, ◌++◌, eqb, if◌then◌else◌, arith, ap, sym, ◌∙◌}
use mathlib.Core.List.{append_assoc}
use livelier.Base.Text.{codes}
use livelier.Owncast.Liveness.{Text}
use livelier.Owncast.Html.{replace_char, escape_text}

-- What stands for a character.
unfoldable pub entity_of : ℕ → Text
unfolding codes
entity_of c =
    if eqb c 38
    then codes "&amp;"
    else if eqb c 60
    then codes "&lt;"
    else if eqb c 62
    then codes "&gt;"
    else if eqb c 34
    then codes "&quot;"
    else if eqb c 39
    then codes "&#39;"
    else if eqb c 10
    then codes "<br/>"
    else c ∷ []

replace_char-append :
    (c : ℕ) (by xs ys : Text)
    → replace_char c by (xs ++ ys) ≡ replace_char c by xs ++ replace_char c by ys
unfolding replace_char
replace_char-append c by [] ys = refl
replace_char-append c by (x ∷ xs) ys =
    ap (λ t. (if eqb x c then by else x ∷ []) ++ t) (replace_char-append c by xs ys)
    ∙ sym (
        append_assoc (if eqb x c then by else x ∷ []) (replace_char c by xs) (replace_char c by ys))

escape_text-append : (xs ys : Text) → escape_text (xs ++ ys) ≡ escape_text xs ++ escape_text ys
unfolding escape_text
escape_text-append xs ys = simp replace_char-append refl

escape_text-char : (c : ℕ) → escape_text (c ∷ []) ≡ entity_of c
unfolding escape_text entity_of replace_char
escape_text-char c = ground arith

-- The escaped text, character by character.
pub escape_text-cons : (c : ℕ) (s : Text) → escape_text (c ∷ s) ≡ entity_of c ++ escape_text s
escape_text-cons c s =
    escape_text-append (c ∷ []) s ∙ ap (λ t. t ++ escape_text s) (escape_text-char c)
