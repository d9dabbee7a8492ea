-- ===== src/Client/Signing/Hash.antt =====
-- client.service.ts: requests that `hashEventRequest` does not tell apart.
use Prim.Native.Char.{code}
use text.Mathlib.TextLemmas.{nil-append, cons-append, append_assoc}
use mathlib.Core.List.{append_assoc as list_append_assoc}
use livelier.Base.{ℕ, String, ◌≡◌, refl, List, [], ◌∷◌, ◌++◌, arith, ap, ◌∙◌, sym}
use livelier.Base.Text.{cat, decimal}
use livelier.Client.Signing.{
  hash_step, hash_from, units, units_of, escape, escape_char, json_text, json_tags, hash_input,
  hash_event_request, SigningRequest,
}

-- The two letters "Aa" and "BB" have one hash, from wherever it starts.
hash_from-pair : (h : ℕ) → hash_from h (65 ∷ 97 ∷ []) ≡ hash_from h (66 ∷ 66 ∷ [])
unfolding hash_from hash_step
hash_from-pair h = omega arith

hash_from-append : (h : ℕ) (xs ys : List ℕ) → hash_from h (xs ++ ys) ≡ hash_from (hash_from h xs) ys
unfolding hash_from
hash_from-append h [] ys = refl
hash_from-append h (x ∷ xs) ys = hash_from-append (hash_step h x) xs ys

units-cat : (s t : String) → units (cat s t) ≡ units s ++ units t
unfolding units
units-cat String.[] t = ap units (nil-append t)
units-cat (String.◌∷◌ c s) t =
    ap units (cons-append c s t)
    ∙ ap (λ us. units_of (code c) ++ us) (units-cat s t)
    ∙ sym (list_append_assoc (units_of (code c)) (units s) (units t))

escape-cat : (s t : String) → escape (cat s t) ≡ cat (escape s) (escape t)
unfolding escape
escape-cat String.[] t = ap escape (nil-append t) ∙ sym (nil-append (escape t))
escape-cat (String.◌∷◌ c s) t =
    ap escape (cons-append c s t)
    ∙ ap (cat (escape_char c)) (escape-cat s t)
    ∙ sym (append_assoc (escape_char c) (escape s) (escape t))

-- Two texts that no hash tells apart, whatever stands before and after them.
SameHash : String → String → Type 0
SameHash s t = (h : ℕ) → hash_from h (units s) ≡ hash_from h (units t)

hash_from-cat :
    (h : ℕ) (s t : String)
    → hash_from h (units (cat s t)) ≡ hash_from (hash_from h (units s)) (units t)
hash_from-cat h s t = ap (hash_from h) (units-cat s t) ∙ hash_from-append h (units s) (units t)

SameHash-before : (p s t : String) → SameHash s t → SameHash (cat p s) (cat p t)
unfolding SameHash
SameHash-before p s t e h =
    hash_from-cat h p s ∙ e (hash_from h (units p)) ∙ sym (hash_from-cat h p t)

SameHash-after : (s t q : String) → SameHash s t → SameHash (cat s q) (cat t q)
unfolding SameHash
SameHash-after s t q e h =
    hash_from-cat h s q ∙ ap (λ k. hash_from k (units q)) (e h) ∙ sym (hash_from-cat h t q)

SameHash-pair : SameHash (escape "Aa") (escape "BB")
unfolding SameHash units escape
SameHash-pair = hash_from-pair

SameHash-escape :
    (p q : String) → SameHash (escape (cat p (cat "Aa" q))) (escape (cat p (cat "BB" q)))
SameHash-escape p q =
    let both = λ (x : String). escape-cat p (cat x q) ∙ ap (cat (escape p)) (escape-cat x q) in
    rw (both "Aa", both "BB")
      (SameHash-before (escape p) (cat (escape "Aa") (escape q)) (cat (escape "BB") (escape q))
        (SameHash-after (escape "Aa") (escape "BB") (escape q) SameHash-pair))

-- Two requests that differ only in a "Aa" of the one where the content of the other has "BB" have the
-- same hash.
pub hash_event_request-collides :
    (r : SigningRequest) (p q : String)
    → hash_event_request (record r { content = cat p (cat "Aa" q) })
      ≡ hash_event_request (record r { content = cat p (cat "BB" q) })
unfolding hash_event_request hash_input json_text SameHash
hash_event_request-collides r p q =
    let a = escape (cat p (cat "Aa" q)) in
    let b = escape (cat p (cat "BB" q)) in
    let tail =
      cat ",\"tags\":["
        (cat (json_tags r.tags) (cat "],\"pubkey\":" (cat (json_text r.pubkey) "}"))) in
    let quoted = λ (x : String). cat (cat "\"" (cat x "\"")) tail in
    let named = λ (x : String). cat ",\"content\":" (quoted x) in
    let whole = λ (x : String). cat (decimal r.kind) (named x) in
    SameHash-before "{\"kind\":" (whole a) (whole b)
      (SameHash-before (decimal r.kind) (named a) (named b) (
        SameHash-before ",\"content\":" (quoted a) (quoted b) (
          SameHash-after (cat "\"" (cat a "\"")) (cat "\"" (cat b "\"")) tail (
            SameHash-before "\"" (cat a "\"") (cat b "\"")
              (SameHash-after a b "\"" (SameHash-escape p q))))))
      0
