-- ===== src/Rendering/Unquoted.antt =====
-- src/render.hpp, `display` of a text: a reader of texts in quotes, and the code points that it reads.
use genia_cpp.Base.{
  ℕ, zero, suc, ◌+◌, ◌-◌, ◌*◌, ◌/◌, ◌%◌, ◌≤◌, ◌<◌, ◌≡◌, ◌≢◌, refl, sym, ap, subst, ◌∙◌, Bool, true,
  false, arith, if◌then◌else◌, ◌==◌, ltb, Option, none, some, [], ◌∷◌, ◌++◌, All, Bool-cases, inl,
  inr, dec_lt,
}
use genia_cpp.Utf8.{encode_codepoint}
use genia_cpp.Utf8.Bytes.{encode_one, encode_two, encode_three, encode_four}
use genia_cpp.Values.Value.{Text}
use genia_cpp.Rendering.Display.{hex_char, hex4, is_control, escaped_scalar}
use mathlib.Core.List.{append_assoc}

-- Where a reader of a text in quotes stands: in plain text, behind a backslash, or in the digits of a
-- code point, with how many follow the next one and the value of those before it.
pub data Mode : Type 0 where
  plain : Mode
  escaped : Mode
  hex : ℕ → ℕ → Mode

abbrev digit : ℕ → ℕ
digit c = if ltb c 58 then c - 48 else c - 87

-- The byte that a letter behind a backslash stands for.
abbrev unescaped : ℕ → ℕ
unescaped c = if c == b'n' then 10 else if c == b'r' then 13 else if c == b't' then 9 else c

-- The next mode, and the bytes that a byte completes.
abbrev pub read_byte : Mode → ℕ → Mode × Text
read_byte Mode.plain c = if c == 92 then (Mode.escaped, []) else (Mode.plain, c ∷ [])
read_byte Mode.escaped c = if c == b'u' then (Mode.hex 3 0, []) else (Mode.plain, unescaped c ∷ [])
read_byte (Mode.hex zero value) c = (Mode.plain, encode_codepoint (value * 16 + digit c))
read_byte (Mode.hex (suc left) value) c = (Mode.hex left (value * 16 + digit c), [])

abbrev is_end : Mode → ℕ → Bool
is_end Mode.plain c = c == 34
is_end mode c = false

abbrev pub add : Text → Option (Text × Text) → Option (Text × Text)
add front none = none
add front (some (text, rest)) = some (front ++ text, rest)

-- The text up to the quote that ends it, and what follows the quote.
unfoldable pub unquote : Mode → Text → Option (Text × Text)
unquote mode [] = none
unquote mode (c ∷ text) =
    let behind = unquote (read_byte mode c).0 text in
    if is_end mode c then some ([], text) else add (read_byte mode c).1 behind

unfoldable pub read_quoted : Text → Option (Text × Text)
read_quoted [] = none
read_quoted (c ∷ text) = let inner = unquote Mode.plain text in if c == 34 then inner else none

add-nil : (o : Option (Text × Text)) → add [] o ≡ o
add-nil none = refl
add-nil (some (text, rest)) = refl

add-append : (a b : Text) (o : Option (Text × Text)) → add a (add b o) ≡ add (a ++ b) o
add-append a b none = refl
add-append a b (some (text, rest)) = ap (λ t. some (t, rest)) (sym (append_assoc a b text))

-- A byte that stands for itself.
abbrev pub IsPlain : ℕ → Type 0
IsPlain c = (c ≢ 34) × (c ≢ 92)

pub plain_byte :
    (c : ℕ) (text : Text)
    → IsPlain c
    → unquote Mode.plain (c ∷ text) ≡ add (c ∷ []) (unquote Mode.plain text)
unfolding unquote
plain_byte c text h =
    let no_quote : (c == 34) ≡ false = ground (arith, h.0) in
    let no_escape : (c == 92) ≡ false = ground (arith, h.1) in rw (no_quote, no_escape) refl

plain_bytes :
    (front text : Text)
    → All IsPlain front
    → unquote Mode.plain (front ++ text) ≡ add front (unquote Mode.plain text)
plain_bytes [] text h = sym (add-nil (unquote Mode.plain text))
plain_bytes (c ∷ front) text h =
    plain_byte c (front ++ text) h.0
    ∙ ap (add (c ∷ [])) (plain_bytes front text h.1)
    ∙ add-append (c ∷ []) front (unquote Mode.plain text)

escape_lem :
    (c : ℕ) (text : Text)
    → (c == b'u') ≡ false
    → unquote Mode.plain (92 ∷ c ∷ text) ≡ add (unescaped c ∷ []) (unquote Mode.plain text)
unfolding unquote
escape_lem c text h = rw h (add-nil _)

digit-hex_char : (d : ℕ) → d < 16 → digit (hex_char d) ≡ d
digit-hex_char d h = ground arith

digits_value :
    (c : ℕ) → c < 65536 → ((c / 4096 % 16 * 16 + c / 256 % 16) * 16 + c / 16 % 16) * 16 + c % 16 ≡ c
digits_value c h = omega arith

hex_lem :
    (c : ℕ) (text : Text)
    → c < 65536
    → unquote Mode.plain (92 ∷ b'u' ∷ hex4 c ++ text)
      ≡ add (encode_codepoint c) (unquote Mode.plain text)
unfolding unquote
hex_lem c text h =
    let value : (((0 * 16 + digit (hex_char (c / 4096 % 16))) * 16
                  + digit (hex_char (c / 256 % 16)))
                * 16
              + digit (hex_char (c / 16 % 16)))
            * 16
          + digit (hex_char (c % 16))
        ≡ c =
      omega (
        arith,
        digit-hex_char (c / 4096 % 16) (omega arith),
        digit-hex_char (c / 256 % 16) (omega arith),
        digit-hex_char (c / 16 % 16) (omega arith),
        digit-hex_char (c % 16) (omega arith),
        digits_value c h,
      ) in
    five_times _ ∙ ap (λ v. add (encode_codepoint v) (unquote Mode.plain text)) value
  where
    five_times : (o : Option (Text × Text)) → add [] (add [] (add [] (add [] (add [] o)))) ≡ o
    five_times none = refl
    five_times (some (t, r)) = refl

high_byte : (x : ℕ) → 128 ≤ x → IsPlain x
high_byte x h = (ground (arith, h), ground (arith, h))

encode_codepoint-IsPlain :
    (c : ℕ)
    → c ≤ 0x10FFFF
    → (c == 92) ≡ false
    → (c == 34) ≡ false
    → All IsPlain (encode_codepoint c)
encode_codepoint-IsPlain c hi h k = elim (dec_lt c 0x80) [
  | yes l ↦ rw (encode_one c l) ((ground (arith, k), ground (arith, h)), tt)
  | no l ↦ elim (dec_lt c 0x800) [
    | yes m ↦
        rw (encode_two c (omega (arith, l)) m)
          (high_byte _ (omega arith), (high_byte _ (omega arith), tt))
    | no m ↦ elim (dec_lt c 0x10000) [
      | yes n ↦
          rw (encode_three c (omega (arith, m)) n) (
            high_byte _ (omega arith),
            (high_byte _ (omega arith), (high_byte _ (omega arith), tt)),
          )
      | no n ↦ rw (encode_four c (omega (arith, n)) hi) (
        high_byte _ (omega arith),
        (high_byte _ (omega arith), (high_byte _ (omega arith), (high_byte _ (omega arith), tt))),
      )
    ]
  ]
]

module _ (text : Text) where
  -- A code point that is written is read back as its bytes.
  abbrev pub IsReadBack : ℕ → Type 0
  IsReadBack c =
      unquote Mode.plain (escaped_scalar c (encode_codepoint c) ++ text)
      ≡ add (encode_codepoint c) (unquote Mode.plain text)

  at_value : (c d : ℕ) → (c == d) ≡ true → IsReadBack d → IsReadBack c
  at_value c d e = subst IsReadBack (ground (arith, e))

  control_lem : (c : ℕ) → is_control c ≡ true → c < 65536
  control_lem c h = ground (arith, h)

  other_scalar :
      (c : ℕ)
      → c ≤ 0x10FFFF
      → (c == 92) ≡ false
      → (c == 34) ≡ false
      → (c == 10) ≡ false
      → (c == 13) ≡ false
      → (c == 9) ≡ false
      → IsReadBack c
  other_scalar c hi h1 h2 h3 h4 h5 = elim (Bool-cases (is_control c)) [
    | inl k ↦ rw (h1, h2, h3, h4, h5, k) (hex_lem c text (control_lem c k))
    | inr k ↦
        rw (h1, h2, h3, h4, h5, k)
          (plain_bytes (encode_codepoint c) text (encode_codepoint-IsPlain c hi h1 h2))
  ]

  pub scalar_lem : (c : ℕ) → c ≤ 0x10FFFF → IsReadBack c
  scalar_lem c hi = elim (Bool-cases (c == 92)) [
    | inl e ↦ at_value c 92 e (rw (encode_one 92 (omega arith)) (escape_lem 92 text refl))
    | inr h1 ↦ elim (Bool-cases (c == 34)) [
      | inl e ↦ at_value c 34 e (rw (encode_one 34 (omega arith)) (escape_lem 34 text refl))
      | inr h2 ↦ elim (Bool-cases (c == 10)) [
        | inl e ↦ at_value c 10 e (rw (encode_one 10 (omega arith)) (escape_lem b'n' text refl))
        | inr h3 ↦ elim (Bool-cases (c == 13)) [
          | inl e ↦ at_value c 13 e (rw (encode_one 13 (omega arith)) (escape_lem b'r' text refl))
          | inr h4 ↦ elim (Bool-cases (c == 9)) [
            | inl e ↦ at_value c 9 e (rw (encode_one 9 (omega arith)) (escape_lem b't' text refl))
            | inr h5 ↦ other_scalar c hi h1 h2 h3 h4 h5
          ]
        ]
      ]
    ]
  ]
