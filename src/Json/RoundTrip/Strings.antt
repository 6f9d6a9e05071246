-- ===== src/Json/RoundTrip/Strings.antt =====
-- src/json.hpp: `parse_string` reads what `escape_string` writes.
use genia_cpp.Base.{
  ℕ, zero, suc, ◌/◌, ◌%◌, ◌≤◌, ◌<◌, ◌≡◌, refl, sym, subst, ap, ◌∙◌, false, some, List, [], ◌∷◌,
  ◌++◌, length, length-append, take, codes, All, arith, inl, inr, dec_lt,
}
use genia_cpp.Utf8.{decode_one_permissive, is_surrogate, encode_codepoint}
use genia_cpp.Utf8.Bytes.{encode_one}
use genia_cpp.Utf8.Decode.{decode-encode}
use genia_cpp.Utf8.Validate.{IsScalar, encode_text}
use genia_cpp.Values.Value.{Text}
use genia_cpp.Rendering.Display.{hex_char}
use genia_cpp.Json.Encoder.{escape_char, escape_chars, escape_string}
use genia_cpp.Json.Decoder.Position.{
  Cursor, Decoded, advance_ascii, advance_times, advance_codepoint,
}
use genia_cpp.Json.Decoder.Strings.{
  read_hex4, second_half, short_escape, string_round, string_loop, parse_string,
}
use genia_cpp.Json.Decoder.Progress.{rest-advance_ascii}
use genia_cpp.Json.RoundTrip.Reads.{Reads, reads, at_cursor, take-append, drop-append}
use mathlib.Core.List.{append_assoc, append-nil}
use genia_cpp.Json.RoundTrip.Escapes.{
  escape_chars-append, IsPlain, escape_char_plain, escape_chars_high, encode_codepoint_high,
  encode_codepoint_nonempty, escape_chars_one, read_hex4_control, short_or_not, escape_char_control,
  IsPlain-intro, length-escape_chars, length-encode_text,
}

-- A round of the loop that takes a text off, and goes on with a character more.
abbrev Takes : (Text → Cursor → Decoded Text) → Cursor → Text → Text → Text → Text → ℕ → ℕ → Type 0
Takes again open_at out taken char tail line column =
    (d : Cursor) × (d.rest ≡ tail)
    × (string_round again open_at out
          (record { rest = taken ++ tail; line = line; column = column }) (taken ++ tail)
        ≡ again (out ++ char) d)

module _ (again : Text → Cursor → Decoded Text) (open_at : Cursor) (out tail : Text)
    (line column : ℕ) where
  Takes-short :
      (c e : ℕ)
      → short_escape e ≡ some c
      → Takes again open_at out (92 ∷ e ∷ []) (c ∷ []) tail line column
  Takes-short c e h =
      let at : Cursor = record { rest = 92 ∷ e ∷ tail; line = line; column = column } in
      (advance_ascii (advance_ascii at), refl, rw h refl)

  Takes-plain :
      (c : ℕ) → IsPlain c → c < 128 → Takes again open_at out (c ∷ []) (c ∷ []) tail line column
  Takes-plain c (lo, q, b) lt =
      let decoded : decode_one_permissive (c ∷ tail) ≡ some (record { codepoint = c; length = 1 }) =
        unfold decode_one_permissive in ground arith in
      let at : Cursor = record { rest = c ∷ tail; line = line; column = column } in
      (advance_codepoint c 1 at, refl, rw decoded (ground arith))

  Takes-control :
      (c : ℕ)
      → c < 32
      → Takes again open_at out
          (codes "\\u00" ++ hex_char (c / 16) ∷ hex_char (c % 16) ∷ [])
          (c ∷ [])
          tail
          line
          column
  Takes-control c lt =
      let at : Cursor = record {
        rest = codes "\\u00" ++ hex_char (c / 16) ∷ hex_char (c % 16) ∷ tail;
        line = line;
        column = column;
      } in
      let behind : Cursor = advance_ascii (advance_ascii at) in
      let end : Cursor = advance_times 4 behind in
      let read : read_hex4 behind ≡ some (c, end) = read_hex4_control c tail _ _ lt in
      let half : second_half c end ≡ (c, end) = ground arith in
      let char : encode_codepoint c ≡ c ∷ [] = encode_one c (omega arith) in
      (end, refl, rw (read, half, char) (ground arith))

  high_round :
      (text : Text) (c : ℕ)
      → All (λ b. 128 ≤ b) text
      → 0 < length text
      → decode_one_permissive (text ++ tail) ≡ some (record { codepoint = c; length = length text })
      → is_surrogate c ≡ false
      → Takes again open_at out text text tail line column
  high_round [] c h l e s = absurd (omega arith)
  high_round (b ∷ text) c h l e s =
      let at : Cursor = record { rest = b ∷ text ++ tail; line = line; column = column } in
      let end : Cursor = advance_codepoint c (suc (length text)) at in
      let whole : take (suc (length text)) (b ∷ text ++ tail) ≡ b ∷ text =
        take-append (b ∷ text) tail in
      (end, drop-append (b ∷ text) tail, rw (e, s, whole) (ground arith))

  Takes-high :
      (c : ℕ)
      → IsScalar c
      → 128 ≤ c
      → Takes again open_at out (encode_codepoint c) (encode_codepoint c) tail line column
  Takes-high c s lo =
      high_round (encode_codepoint c) c (encode_codepoint_high c s lo) (encode_codepoint_nonempty c)
        (decode-encode c tail s.0) s.1

  -- A character of seven bits is taken as it is written.
  Takes-char : (c : ℕ) → c < 128 → Takes again open_at out (escape_char c) (c ∷ []) tail line column
  Takes-char c lt = elim (short_or_not c) [
    | inl (e, short, written) ↦ rw written (Takes-short c e short)
    | inr not_short ↦ elim (dec_lt c 32) [
      | yes control ↦ rw (escape_char_control c control not_short) (Takes-control c control)
      | no printed ↦
          let plain : IsPlain c = IsPlain-intro c (omega arith) not_short in
          rw (escape_char_plain c plain) (Takes-plain c plain lt)
    ]
  ]

  Takes-scalar :
      (c : ℕ)
      → IsScalar c
      → Takes again open_at out
          (escape_chars (encode_codepoint c))
          (encode_codepoint c)
          tail
          line
          column
  Takes-scalar c s = elim (dec_lt c 128) [
    | yes low ↦ rw (encode_one c low, escape_chars_one c) (Takes-char c low)
    | no high ↦
        rw (escape_chars_high (encode_codepoint c) (encode_codepoint_high c s (omega arith)))
          (Takes-high c s (omega arith))
  ]

string_loop-Reads :
    (cs : List ℕ) (fuel : ℕ) (open_at : Cursor) (out rest : Text) (c : Cursor)
    → All IsScalar cs
    → length cs < fuel
    → c.rest ≡ escape_chars (encode_text cs) ++ 34 ∷ rest
    → Reads (out ++ encode_text cs) rest (string_loop fuel open_at out c)
unfolding string_loop encode_text escape_chars
string_loop-Reads cs zero open_at out rest c h enough e = absurd (omega arith)
string_loop-Reads [] (suc fuel) open_at out rest c h enough e =
    at_cursor (λ d. Reads (out ++ []) rest (string_loop (suc fuel) open_at out d)) (34 ∷ rest)
      (λ line column. rw (append-nil out) (reads refl)) c e
string_loop-Reads (x ∷ cs) (suc fuel) open_at out rest c h enough e =
    let tail : Text = escape_chars (encode_text cs) ++ 34 ∷ rest in
    let split : escape_chars (encode_codepoint x ++ encode_text cs) ++ 34 ∷ rest
        ≡ escape_chars (encode_codepoint x) ++ tail =
      rw (escape_chars-append (encode_codepoint x) (encode_text cs)) (
        append_assoc (escape_chars (encode_codepoint x)) (escape_chars (encode_text cs))
          (34 ∷ rest)) in
    let again : Text → Cursor → Decoded Text = λ more d. string_loop fuel open_at more d in
    at_cursor
      (λ d.
        Reads (out ++ (encode_codepoint x ++ encode_text cs)) rest
          (string_loop (suc fuel) open_at out d))
      (escape_chars (encode_codepoint x) ++ tail)
      (λ line column.
        let (d, behind, round) = Takes-scalar again open_at out tail line column x h.0 in
        subst (Reads (out ++ (encode_codepoint x ++ encode_text cs)) rest) (sym round) (
          subst (λ t. Reads t rest (again (out ++ encode_codepoint x) d))
            (append_assoc out (encode_codepoint x) (encode_text cs))
            (string_loop-Reads cs fuel open_at (out ++ encode_codepoint x) rest d h.1 (omega arith)
              behind)))
      c (e ∙ split)

-- Behind any text in UTF-8 that `escape_string` writes, `parse_string` has read the text.
pub parse_string-escape_string :
    (cs : List ℕ) (rest : Text) (c : Cursor)
    → All IsScalar cs
    → c.rest ≡ escape_string (encode_text cs) ++ rest
    → Reads (encode_text cs) rest (parse_string c)
unfolding parse_string
parse_string-escape_string cs rest c h e =
    let text : Text = encode_text cs in
    let whole : escape_string text ++ rest ≡ 34 ∷ escape_chars text ++ 34 ∷ rest =
      unfold escape_string in append_assoc (34 ∷ escape_chars text) (34 ∷ []) rest in
    let all : c.rest ≡ 34 ∷ escape_chars text ++ 34 ∷ rest = e ∙ whole in
    string_loop-Reads cs (length c.rest) c [] rest (advance_ascii c) h
      (omega (
        arith,
        ap length all,
        length-append (escape_chars text) (34 ∷ rest),
        length-escape_chars text,
        length-encode_text cs,
      ))
      (rest-advance_ascii c 34 _ all)
