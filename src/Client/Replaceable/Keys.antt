-- ===== src/Client/Replaceable/Keys.antt =====
-- client.service.ts: `parseKey`, and that it reads back what `toKey` writes.
use Prim.Native.Char.{code}
use text.Mathlib.TextLemmas.{nil-append, cons-append}
use livelier.Base.{
  ℕ, zero, suc, ◌+◌, ◌*◌, ◌-◌, ◌/◌, ◌%◌, ◌<◌, String, ◌&&◌, ◌≡◌, refl, Option, none, some, sym,
  or_else, Bool-cases, inl, inr, ltb, leb, eqb, ◌==◌, if◌then◌else◌, arith, ap, ◌∙◌,
}
use livelier.Base.Text.{cat, decimal, decimal_from, digit, glyph_at}
use livelier.Client.Replaceable.{ReplaceableEventRequest, to_key}

-- The text before the first colon, and what follows it, if there is one.
unfoldable pub break_colon : String → String × Option String
break_colon String.[] = ("", none)
break_colon (String.◌∷◌ c s) =
    if eqb (code c) 58 then ("", some s) else (String.◌∷◌ c (break_colon s).0, (break_colon s).1)

-- `Number(s)` on decimal digits; `none` is NaN.
unfoldable pub read_digits : String → Option ℕ → Option ℕ
read_digits String.[] n = n
read_digits (String.◌∷◌ c s) none = none
read_digits (String.◌∷◌ c s) (some n) =
    read_digits s
      (if leb 48 (code c) && leb (code c) 57 then some (10 * n + (code c - 48)) else none)

-- `parseKey`. The `split` at every colon, with the tail joined by colons again, is a break at the
-- first two; `none` is a key whose author is undefined or whose kind is not a number.
unfoldable pub parse_rest : Option ℕ → String × Option String → Option ReplaceableEventRequest
parse_rest none _ = none
parse_rest (some kind) (pubkey, none) = some record { pubkey = pubkey; kind = kind; d = none }
parse_rest (some kind) (pubkey, some d) =
    some record { pubkey = pubkey; kind = kind; d = if d == "" then none else some d }

unfoldable pub parse_front : String × Option String → Option ReplaceableEventRequest
unfolding parse_rest break_colon read_digits
parse_front (kind_str, none) = none
parse_front (kind_str, some tail) = parse_rest (read_digits kind_str (some 0)) (break_colon tail)

unfoldable pub parse_key : String → Option ReplaceableEventRequest
unfolding parse_front
parse_key key = parse_front (break_colon key)

-- A text without a colon.
abbrev pub Plain : String → Type 0
Plain s = (break_colon s).1 ≡ none

colon-cat : (t : String) → cat ":" t ≡ String.◌∷◌ ":" t
colon-cat t = cons-append ":" String.[] t ∙ ap (String.◌∷◌ ":") (nil-append t)

break_colon-cat : (s t : String) → Plain s → break_colon (cat s (cat ":" t)) ≡ (s, some t)
unfolding break_colon
break_colon-cat String.[] t h = rw (nil-append (cat ":" t), colon-cat t) refl
break_colon-cat (String.◌∷◌ c s) t h =
    rw (cons-append c s (cat ":" t)) (elim (Bool-cases (eqb (code c) 58)) [
      | inl y ↦ absurd (ground (arith, y))
      | inr n ↦ rw n (
          ap (λ (p : String × Option String). (String.◌∷◌ c p.0, p.1))
            (break_colon-cat s t (ground (arith, n))))
    ])

break_colon-Plain : (s : String) → Plain s → break_colon s ≡ (s, none)
unfolding break_colon
break_colon-Plain String.[] h = refl
break_colon-Plain (String.◌∷◌ c s) h = elim (Bool-cases (eqb (code c) 58)) [
  | inl y ↦ absurd (ground (arith, y))
  | inr n ↦ rw n (
      ap (λ (p : String × Option String). (String.◌∷◌ c p.0, p.1))
        (break_colon-Plain s (ground (arith, n))))
]

Plain-cat : (s t : String) → Plain s → Plain t → Plain (cat s t)
unfolding break_colon
Plain-cat String.[] t h k = rw (nil-append t) k
Plain-cat (String.◌∷◌ c s) t h k = rw (cons-append c s t) (ground (arith, Plain-cat s t))

read_digits-none : (u : String) → read_digits u none ≡ none
unfolding read_digits
read_digits-none String.[] = refl
read_digits-none (String.◌∷◌ c u) = refl

read_digits-cat :
    (s t : String) (n : Option ℕ) → read_digits (cat s t) n ≡ read_digits t (read_digits s n)
unfolding read_digits
read_digits-cat String.[] t n = ap (λ u. read_digits u n) (nil-append t)
read_digits-cat (String.◌∷◌ c s) t none =
    ap (λ u. read_digits u none) (cons-append c s t) ∙ sym (read_digits-none t)
read_digits-cat (String.◌∷◌ c s) t (some n) =
    ap (λ u. read_digits u (some n)) (cons-append c s t) ∙ read_digits-cat s t _

-- A digit is plain and reads as its number.
digit_lem :
    (d n : ℕ) → d < 10 → Plain (digit d) × (read_digits (digit d) (some n) ≡ some (10 * n + d))
unfolding break_colon read_digits digit glyph_at
digit_lem zero n h = (refl, refl)
digit_lem (suc zero) n h = (refl, refl)
digit_lem (suc (suc zero)) n h = (refl, refl)
digit_lem (suc (suc (suc zero))) n h = (refl, refl)
digit_lem (suc (suc (suc (suc zero)))) n h = (refl, refl)
digit_lem (suc (suc (suc (suc (suc zero))))) n h = (refl, refl)
digit_lem (suc (suc (suc (suc (suc (suc zero)))))) n h = (refl, refl)
digit_lem (suc (suc (suc (suc (suc (suc (suc zero))))))) n h = (refl, refl)
digit_lem (suc (suc (suc (suc (suc (suc (suc (suc zero)))))))) n h = (refl, refl)
digit_lem (suc (suc (suc (suc (suc (suc (suc (suc (suc zero))))))))) n h = (refl, refl)
digit_lem (suc (suc (suc (suc (suc (suc (suc (suc (suc (suc d)))))))))) n h = absurd (omega arith)

decimal_from_lem :
    (fuel n : ℕ)
    → n < fuel
    → Plain (decimal_from fuel n) × (read_digits (decimal_from fuel n) (some 0) ≡ some n)
unfolding decimal_from
decimal_from_lem zero n h = absurd (omega arith)
decimal_from_lem (suc fuel) n h = elim (Bool-cases (ltb n 10)) [
  | inl y ↦
      let (plain, value) = digit_lem n 0 (ground (arith, y)) in
      rw y (plain, value ∙ ap some (omega arith))
  | inr m ↦
      let small : n / 10 < fuel = let big : 9 < n = ground (arith, m) in omega arith in
      let (plain, value) = decimal_from_lem fuel (n / 10) small in
      let (plain', value') = digit_lem (n % 10) (n / 10) (omega arith) in
      rw m (
        Plain-cat (decimal_from fuel (n / 10)) (digit (n % 10)) plain plain',
        read_digits-cat (decimal_from fuel (n / 10)) (digit (n % 10)) (some 0)
            ∙ ap (read_digits (digit (n % 10))) value
            ∙ value'
            ∙ ap some (omega arith),
      )
]

-- The digits of a number read as that number, and there are some.
pub read_digits-decimal : (n : ℕ) → read_digits (decimal n) (some 0) ≡ some n
unfolding decimal
read_digits-decimal n = (decimal_from_lem (suc n) n (omega arith)).1

-- `d || undefined`
abbrev pub nonempty : Option String → Option String
nonempty none = none
nonempty (some d) = if d == "" then none else some d

some-or_else : (o : Option String) → nonempty (some (or_else o "")) ≡ nonempty o
some-or_else none = refl
some-or_else (some d) = refl

-- A key reads back as the request that it was made from, but that an empty `d` is none at all: the
-- colons of a `d` value are kept, and the author has none.
pub parse_key-to_key :
    (r : ReplaceableEventRequest)
    → Plain r.pubkey
    → parse_key (to_key r) ≡ some (record r { d = nonempty r.d })
unfolding parse_key to_key decimal parse_rest
parse_key-to_key r plain =
    let (digits, value) = decimal_from_lem (suc r.kind) r.kind (omega arith) in
    let tail = cat r.pubkey (cat ":" (or_else r.d "")) in
    ap parse_front (break_colon-cat (decimal_from (suc r.kind) r.kind) tail digits)
    ∙ ap (λ o. parse_rest o (break_colon tail)) value
    ∙ ap (parse_rest (some r.kind)) (break_colon-cat r.pubkey (or_else r.d "") plain)
    ∙ ap (λ o. some (record r { d = o })) (some-or_else r.d)
