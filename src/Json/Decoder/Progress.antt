-- ===== src/Json/Decoder/Progress.antt =====
-- src/json.hpp, `parse_string`: its loop ends, as every round takes some text.
use genia_cpp.Base.{
  ℕ, zero, suc, ◌+◌, ◌*◌, ◌≤◌, ◌<◌, ◌≡◌, refl, ◌==◌, ltb, >>=-some, Option, none, some, List, [],
  ◌∷◌, length, drop, arith, Option-cases, inl, inr, ap,
}
use genia_cpp.Utf8.{DecodedCodepoint, decode_form, decode_one_permissive, lead_form, is_surrogate}
use genia_cpp.Values.Value.{Text}
use genia_cpp.Json.Decoder.Position.{
  Cursor, Decoded, advance_over, advance_ascii, next_line, next_column,
}
use genia_cpp.Json.Decoder.Ensures.{
  Ensures, holds, rejected, Ensures-if, Ensures-weaken, Left, length-drop,
}
use genia_cpp.Json.Decoder.Strings.{
  hex_digit, read_hex, read_hex4, paired, second_half, push_codepoint, unicode_escape, short_escape,
  escape_by, escape_at, push_scalar, string_round, string_loop, parse_string,
}

decode_form_pos :
    (form : _) (bytes : List ℕ) (d : DecodedCodepoint)
    → decode_form form bytes ≡ some d
    → 0 < d.length
unfolding decode_form
decode_form_pos form bytes d e = ground arith

decode_one_pos :
    (text : Text) (d : DecodedCodepoint) → decode_one_permissive text ≡ some d → 0 < d.length
unfolding decode_one_permissive
decode_one_pos [] d e = cc
decode_one_pos (ch ∷ text) d e = elim (Option-cases (lead_form ch)) [
  | inl f ↦ ground arith
  | inr (form, f) ↦ ground (arith, decode_form_pos form text d)
]

read_hex_left :
    (k value : ℕ) (text : Text) (line column : ℕ) (r : ℕ × Cursor)
    → read_hex k value (record { rest = text; line = line; column = column }) text ≡ some r
    → length r.1.rest ≤ length text
unfolding read_hex
read_hex_left zero value text line column r e = ground arith
read_hex_left (suc k) value [] line column r e = cc
read_hex_left (suc k) value (h ∷ text) line column r e =
    let (d, e1, e2) = >>=-some (hex_digit h) _ r e in
    omega
      (arith, read_hex_left k (value * 16 + d) text (next_line h line) (next_column h column) r e2)

read_hex4_left :
    (c : Cursor) (r : ℕ × Cursor) → read_hex4 c ≡ some r → length r.1.rest ≤ length c.rest
read_hex4_left c r e = read_hex_left 4 0 c.rest c.line c.column r e

advance_over_left :
    (text : Text) (line column : ℕ) → length (advance_over text line column).rest ≤ length text
advance_over_left [] line column = omega arith
advance_over_left (ch ∷ text) line column = omega arith

pub rest-advance_ascii :
    (c : Cursor) (ch : ℕ) (text : Text) → c.rest ≡ ch ∷ text → (advance_ascii c).rest ≡ text
rest-advance_ascii c ch text e = ap (λ (t : Text). (advance_over t c.line c.column).rest) e

pub advance_ascii_left : (c : Cursor) → length (advance_ascii c).rest ≤ length c.rest
advance_ascii_left c = advance_over_left c.rest c.line c.column

paired_left :
    (first : ℕ) (c : Cursor) (o : Option (ℕ × Cursor)) (n : ℕ)
    → length c.rest ≤ n
    → ((r : ℕ × Cursor) → o ≡ some r → length r.1.rest ≤ n)
    → length (paired first c o).1.rest ≤ n
paired_left first c none n h k = h
paired_left first c (some (second, d)) n h k = ground (arith, k (second, d) refl)

second_half_left : (first : ℕ) (c : Cursor) → length (second_half first c).1.rest ≤ length c.rest
second_half_left first c =
    let pair =
      paired_left first c (read_hex4 (advance_ascii (advance_ascii c))) (length c.rest)
        (omega arith)
        (λ r e. omega (
          arith,
          read_hex4_left _ r e,
          advance_ascii_left c,
          advance_ascii_left (advance_ascii c),
        )) in
    ground (arith, pair)

-- A loop that ends wherever less text is left.
abbrev Continues : ℕ → (Text → Cursor → Decoded Text) → Type 0
Continues n again = (out : Text) (d : Cursor) → length d.rest < n → Ensures (Left n) (again out d)

module _ (n : ℕ) (again : Text → Cursor → Decoded Text) (ends : Continues n again) where
  push_codepoint-Ensures :
      (out : Text) (r : ℕ × Cursor)
      → length r.1.rest < n
      → Ensures (Left n) (push_codepoint again out r)
  push_codepoint-Ensures out (codepoint, c) h =
      Ensures-if (is_surrogate codepoint) (λ e. rejected) (λ e. ends _ c h)

  unicode_escape-Ensures :
      (at : Cursor) (out : Text) (o : Option (ℕ × Cursor))
      → ((r : ℕ × Cursor) → o ≡ some r → length r.1.rest < n)
      → Ensures (Left n) (unicode_escape again at out o)
  unicode_escape-Ensures at out none h = rejected
  unicode_escape-Ensures at out (some (first, c)) h =
      push_codepoint-Ensures out (second_half first c)
        (omega (arith, second_half_left first c, h (first, c) refl))

  escape_by-Ensures :
      (at : Cursor) (out : Text) (c : Cursor) (esc : ℕ) (o : Option ℕ)
      → length c.rest < n
      → Ensures (Left n) (escape_by again at out c esc o)
  escape_by-Ensures at out c esc (some d) h =
      ends _ (advance_ascii c) (omega (arith, advance_ascii_left c))
  escape_by-Ensures at out c esc none h =
      Ensures-if (esc == b'u')
        (λ e.
          unicode_escape-Ensures at out (read_hex4 (advance_ascii c))
            (λ r f. omega (arith, read_hex4_left _ r f, advance_ascii_left c)))
        (λ e. rejected)

  escape_at-Ensures :
      (at : Cursor) (out : Text) (c : Cursor) (text : Text)
      → length c.rest < n
      → Ensures (Left n) (escape_at again at out c text)
  escape_at-Ensures at out c [] h = rejected
  escape_at-Ensures at out c (esc ∷ text) h = escape_by-Ensures at out c esc (short_escape esc) h

  push_scalar-Ensures :
      (out : Text) (c : Cursor) (o : Option DecodedCodepoint)
      → ((d : DecodedCodepoint) → o ≡ some d → length (drop d.length c.rest) < n)
      → Ensures (Left n) (push_scalar again out c o)
  push_scalar-Ensures out c none h = rejected
  push_scalar-Ensures out c (some d) h =
      Ensures-if (is_surrogate d.codepoint) (λ e. rejected) (λ e. ends _ _ (h d refl))

drop_left :
    {A : Type 0} (n : ℕ) (x : A) (xs : List A) → 0 < n → length (drop n (x ∷ xs)) ≤ length xs
drop_left zero x xs h = absurd (omega arith)
drop_left (suc n) x xs h = length-drop n xs

string_round-Ensures :
    (again : Text → Cursor → Decoded Text) (open_at : Cursor) (out text : Text) (line column n : ℕ)
    → length text ≤ n
    → Continues n again
    → Ensures
        (Left n)
        (string_round again open_at out (record { rest = text; line = line; column = column }) text)
string_round-Ensures again open_at out [] line column n h ends = rejected
string_round-Ensures again open_at out (ch ∷ text) line column n h ends =
    Ensures-if (ch == 34) (λ e. holds (omega arith))
      (λ e.
        Ensures-if (ch == 92)
          (λ f.
            let at : Cursor = record { rest = ch ∷ text; line = line; column = column } in
            escape_at-Ensures n again ends at out (advance_ascii at) text (omega arith))
          (λ f.
            Ensures-if (ltb ch 0x20) (λ g. rejected)
              (λ g.
                push_scalar-Ensures n again ends out _ (decode_one_permissive (ch ∷ text)) (λ d k.
                  omega (arith, drop_left d.length ch text (decode_one_pos (ch ∷ text) d k))))))

string_loop-Ensures :
    (fuel : ℕ) (open_at : Cursor) (out : Text) (c : Cursor)
    → length c.rest < fuel
    → Ensures (Left (length c.rest)) (string_loop fuel open_at out c)
unfolding string_loop
string_loop-Ensures zero open_at out c h = absurd (omega arith)
string_loop-Ensures (suc fuel) open_at out c h =
    string_round-Ensures (λ more d. string_loop fuel open_at more d) open_at out c.rest c.line
      c.column (length c.rest) (omega arith)
      (λ more d k.
        Ensures-weaken (string_loop-Ensures fuel open_at more d (omega arith))
          (λ a e l. omega arith))

-- Behind the quote that comes first, `parse_string` ends, and takes some text.
pub parse_string-Ensures :
    (c : Cursor) (ch : ℕ) (text : Text)
    → c.rest ≡ ch ∷ text
    → Ensures (Left (length text)) (parse_string c)
unfolding parse_string
parse_string-Ensures c ch text e =
    let behind : (advance_ascii c).rest ≡ text = rest-advance_ascii c ch text e in
    Ensures-weaken
      (string_loop-Ensures (length c.rest) c [] (advance_ascii c)
        (omega (arith, ap length e, ap length behind)))
      (λ a d l. omega (arith, ap length behind))
