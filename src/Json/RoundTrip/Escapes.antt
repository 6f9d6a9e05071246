-- ===== src/Json/RoundTrip/Escapes.antt =====
-- src/json.hpp, `escape_string`: what is written for each character.
use genia_cpp.Base.{
  ℕ, ◌+◌, ◌*◌, ◌/◌, ◌%◌, ◌≤◌, ◌<◌, ◌≡◌, ◌≢◌, refl, sym, subst, Bool, true, false, ◌==◌, ◌||◌,
  ==_iff, some, List, [], ◌∷◌, ◌++◌, length, length-append, codes, All, arith, Bool-cases, ◌⊎◌, inl,
  inr, dec_lt,
}
use genia_cpp.Utf8.{encode_codepoint}
use genia_cpp.Utf8.Bytes.{encode_two, encode_three, encode_four}
use genia_cpp.Utf8.Validate.{IsScalar, encode_text}
use genia_cpp.Values.Value.{Text}
use genia_cpp.Rendering.Display.{hex_char}
use genia_cpp.Json.Encoder.{escape_char, escape_chars}
use genia_cpp.Json.Decoder.Position.{Cursor, advance_times}
use genia_cpp.Json.Decoder.Strings.{hex_digit, read_hex, read_hex4, short_escape}
use mathlib.Core.List.{append_assoc, append-nil}

pub hex_digit-hex_char : (d : ℕ) → d < 16 → hex_digit (hex_char d) ≡ some d
hex_digit-hex_char d h = ground arith

pub escape_chars-append : (a b : Text) → escape_chars (a ++ b) ≡ escape_chars a ++ escape_chars b
unfolding escape_chars
escape_chars-append [] b = refl
escape_chars-append (c ∷ a) b = simp (escape_chars-append a b, append_assoc)

-- A character that is not escaped.
abbrev pub IsPlain : ℕ → Type 0
IsPlain c = (0x20 ≤ c) × (c ≢ 34) × (c ≢ 92)

pub escape_char_plain : (c : ℕ) → IsPlain c → escape_char c ≡ c ∷ []
unfolding escape_char
escape_char_plain c (h, q, b) = ground arith

pub escape_chars_high : (text : Text) → All (λ b. 128 ≤ b) text → escape_chars text ≡ text
unfolding escape_chars
escape_chars_high [] h = refl
escape_chars_high (c ∷ text) h =
    rw
      (
        escape_char_plain c (omega arith, (λ e. absurd (omega arith)), (λ e. absurd (omega arith))),
        escape_chars_high text h.1,
      )
      refl

pub encode_codepoint_high : (c : ℕ) → IsScalar c → 128 ≤ c → All (λ b. 128 ≤ b) (encode_codepoint c)
encode_codepoint_high c (h, s) lo = elim (dec_lt c 0x800) [
  | yes two ↦ rw (encode_two c lo two) (omega arith)
  | no not_two ↦ elim (dec_lt c 0x10000) [
    | yes three ↦ rw (encode_three c (omega arith) three) (omega arith)
    | no not_three ↦ rw (encode_four c (omega arith) h) (omega arith)
  ]
]

pub encode_codepoint_nonempty : (c : ℕ) → 0 < length (encode_codepoint c)
unfolding encode_codepoint
encode_codepoint_nonempty c = ground arith

pub escape_chars_one : (c : ℕ) → escape_chars (c ∷ []) ≡ escape_char c
unfolding escape_chars
escape_chars_one c = append-nil (escape_char c)

pub escape_char_nonempty : (c : ℕ) → 0 < length (escape_char c)
unfolding escape_char
escape_char_nonempty c = ground arith

pub read_hex4_control :
    (c : ℕ) (tail : Text) (line column : ℕ)
    → c < 32
    → (let at : Cursor = record {
      rest = codes "00" ++ hex_char (c / 16) ∷ hex_char (c % 16) ∷ tail;
      line = line;
      column = column;
    } in
        read_hex4 at ≡ some (c, advance_times 4 at))
unfolding read_hex
read_hex4_control c tail line column lt =
    let high = hex_digit-hex_char (c / 16) (omega arith) in
    let low = hex_digit-hex_char (c % 16) (omega arith) in
    let whole : ((0 * 16 + 0) * 16 + c / 16) * 16 + c % 16 ≡ c = omega arith in
    rw (high, low, whole) refl

-- The characters that have a short escape, and `/` has none that is written.
abbrev pub HasShort : ℕ → Type 0
HasShort c = (e : ℕ) × (short_escape e ≡ some c) × (escape_char c ≡ 92 ∷ e ∷ [])

abbrev pub has_short : ℕ → Bool
has_short c = c == 34 || (c == 92 || (c == 8 || (c == 12 || (c == 10 || (c == 13 || c == 9)))))

pub HasShort-of :
    (k e c : ℕ)
    → short_escape e ≡ some k
    → escape_char k ≡ 92 ∷ e ∷ []
    → (c == k) ≡ true
    → HasShort c
HasShort-of k e c h w same = subst HasShort (sym (((==_iff c k).0 same))) (e, h, w)

pub short_or_not : (c : ℕ) → HasShort c ⊎ (has_short c ≡ false)
unfolding escape_char
short_or_not c = elim (Bool-cases (c == 34)) [
  | inl p ↦ inl (HasShort-of 34 34 c refl refl p)
  | inr a ↦ elim (Bool-cases (c == 92)) [
    | inl p ↦ inl (HasShort-of 92 92 c refl refl p)
    | inr b ↦ elim (Bool-cases (c == 8)) [
      | inl p ↦ inl (HasShort-of 8 b'b' c refl refl p)
      | inr d ↦ elim (Bool-cases (c == 12)) [
        | inl p ↦ inl (HasShort-of 12 b'f' c refl refl p)
        | inr f ↦ elim (Bool-cases (c == 10)) [
          | inl p ↦ inl (HasShort-of 10 b'n' c refl refl p)
          | inr g ↦ elim (Bool-cases (c == 13)) [
            | inl p ↦ inl (HasShort-of 13 b'r' c refl refl p)
            | inr h ↦ elim (Bool-cases (c == 9)) [
              | inl p ↦ inl (HasShort-of 9 b't' c refl refl p)
              | inr k ↦ inr (rw (a, b, d, f, g, h, k) refl)
            ]
          ]
        ]
      ]
    ]
  ]
]

pub escape_char_control :
    (c : ℕ)
    → c < 32
    → has_short c ≡ false
    → escape_char c ≡ codes "\\u00" ++ hex_char (c / 16) ∷ hex_char (c % 16) ∷ []
unfolding escape_char
escape_char_control c lt h = ground arith

pub IsPlain-intro : (c : ℕ) → 32 ≤ c → has_short c ≡ false → IsPlain c
IsPlain-intro c lo h = (lo, (λ e. ground arith), (λ e. ground arith))

pub length-escape_chars : (text : Text) → length text ≤ length (escape_chars text)
unfolding escape_chars
length-escape_chars [] = omega arith
length-escape_chars (c ∷ text) = omega (
  arith,
  length-escape_chars text,
  length-append (escape_char c) (escape_chars text),
  escape_char_nonempty c,
)

pub length-encode_text : (cs : List ℕ) → length cs ≤ length (encode_text cs)
unfolding encode_text
length-encode_text [] = omega arith
length-encode_text (c ∷ cs) = omega (
  arith,
  length-encode_text cs,
  length-append (encode_codepoint c) (encode_text cs),
  encode_codepoint_nonempty c,
)
