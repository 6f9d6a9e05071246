-- ===== src/Rendering/Quoted.antt =====
-- src/render.hpp, `display` of a text: what stands between the quotes is read back.
use genia_cpp.Base.{
  ℕ, zero, suc, ◌≤◌, ◌≡◌, refl, sym, ap, ◌∙◌, arith, none, some, [], ◌∷◌, ◌++◌, length, take, drop,
  All, Option-cases, inl, inr,
}
use genia_cpp.Utf8.{DecodedCodepoint, decode_one_permissive, encode_codepoint}
use genia_cpp.Utf8.Bytes.{IsByte}
use genia_cpp.Utf8.Inverse.{IsDecoded, decode_one_permissive-IsDecoded}
use genia_cpp.Values.Value.{Text, Value}
use genia_cpp.Rendering.Numbers.{ToChars}
use genia_cpp.Rendering.Display.{escaped_scalar, quote_step, quote_loop, quoted, display}
use genia_cpp.Rendering.Unquoted.{Mode, add, unquote, read_quoted, plain_byte, scalar_lem}
use mathlib.Core.List.{append_assoc}

take-length : (xs ys : Text) → take (length xs) (xs ++ ys) ≡ xs
take-length [] ys = refl
take-length (x ∷ xs) ys = ap (λ t. x ∷ t) (take-length xs ys)

take-drop : (n : ℕ) (xs : Text) → take n xs ++ drop n xs ≡ xs
take-drop zero xs = refl
take-drop (suc n) [] = refl
take-drop (suc n) (x ∷ xs) = ap (λ t. x ∷ t) (take-drop n xs)

length-drop-le : (n : ℕ) (xs : Text) → length (drop n xs) ≤ length xs
length-drop-le zero xs = omega arith
length-drop-le (suc n) [] = omega arith
length-drop-le (suc n) (x ∷ xs) = omega (arith, length-drop-le n xs)

shorter : (n c : ℕ) (xs : Text) → 1 ≤ n → length (drop n (c ∷ xs)) ≤ length xs
shorter zero c xs h = absurd (omega (arith, h))
shorter (suc n) c xs h = length-drop-le n xs

drop-All : (n : ℕ) (xs : Text) → All IsByte xs → All IsByte (drop n xs)
drop-All zero xs h = h
drop-All (suc n) [] h = tt
drop-All (suc n) (x ∷ xs) h = drop-All n xs h.1

length-encode_codepoint : (c : ℕ) → 1 ≤ length (encode_codepoint c)
unfolding encode_codepoint
length-encode_codepoint c = ground arith

refused_byte : (c : ℕ) (text : Text) → decode_one_permissive (c ∷ text) ≡ none → 128 ≤ c
unfolding decode_one_permissive
refused_byte c text e = ground (arith, e)

-- What a round writes is read as the bytes that it takes, of which there is one at least.
abbrev IsRound : Text → ℕ × Text → Type 0
IsRound text s =
    (1 ≤ s.0)
    × ((rest : Text)
        → unquote Mode.plain (s.1 ++ rest) ≡ add (take s.0 text) (unquote Mode.plain rest))

decoded-IsRound :
    (c : ℕ) (text : Text) (d : DecodedCodepoint)
    → IsDecoded (c ∷ text) d
    → IsRound (c ∷ text) (d.length, escaped_scalar d.codepoint (take d.length (c ∷ text)))
decoded-IsRound c text d h =
    let front : take d.length (c ∷ text) ≡ encode_codepoint d.codepoint =
      ap (λ n. take n (c ∷ text)) h.size
      ∙ ap (take (length (encode_codepoint d.codepoint))) h.split
      ∙ take-length (encode_codepoint d.codepoint) h.rest in
    (
      omega (arith, h.size, length-encode_codepoint d.codepoint),
      λ rest.
          ap (λ t. unquote Mode.plain (escaped_scalar d.codepoint t ++ rest)) front
          ∙ scalar_lem rest d.codepoint h.bound
          ∙ ap (λ t. add t (unquote Mode.plain rest)) (sym front),
    )

quote_step-IsRound :
    (c : ℕ) (text : Text)
    → All IsByte (c ∷ text)
    → IsRound (c ∷ text) (quote_step c text (decode_one_permissive (c ∷ text)))
quote_step-IsRound c text h = elim (Option-cases (decode_one_permissive (c ∷ text))) [
  | inl e ↦
      let high = refused_byte c text e in
      rw e (omega arith, λ rest. plain_byte c rest (ground (arith, high), ground (arith, high)))
  | inr (d, e) ↦ rw e (decoded-IsRound c text d (decode_one_permissive-IsDecoded (c ∷ text) d h e))
]

quote_loop_lem :
    (fuel : ℕ) (text rest : Text)
    → length text ≤ fuel
    → All IsByte text
    → unquote Mode.plain (quote_loop fuel text ++ b'"' ∷ rest) ≡ some (text, rest)
unfolding quote_loop unquote
quote_loop_lem zero [] rest l h = refl
quote_loop_lem (suc fuel) [] rest l h = refl
quote_loop_lem zero (c ∷ text) rest l h = absurd (omega (arith, l))
quote_loop_lem (suc fuel) (c ∷ text) rest l h =
    let s = quote_step c text (decode_one_permissive (c ∷ text)) in
    let round = quote_step-IsRound c text h in
    let others = drop s.0 (c ∷ text) in
    ap (unquote Mode.plain) (append_assoc s.1 (quote_loop fuel others) (b'"' ∷ rest))
    ∙ round.1 (quote_loop fuel others ++ b'"' ∷ rest)
    ∙ ap (add (take s.0 (c ∷ text))) (
        quote_loop_lem fuel others rest (omega (arith, shorter s.0 c text round.0, l))
          (drop-All s.0 (c ∷ text) h))
    ∙ ap (λ t. some (t, rest)) (take-drop s.0 (c ∷ text))

read_quoted-quoted :
    (text rest : Text) → All IsByte text → read_quoted (quoted text ++ rest) ≡ some (text, rest)
unfolding read_quoted quoted
read_quoted-quoted text rest h =
    ap (unquote Mode.plain) (append_assoc (quote_loop (length text) text) (b'"' ∷ []) rest)
    ∙ quote_loop_lem (length text) text rest (omega arith) h

-- `display` of a text of bytes, well-formed or not, has a result, and a reader that knows the escapes
-- reads the text back from it, and stops at its last quote, whatever follows.
pub read_quoted-display :
    (to_chars : ToChars) (text rest : Text)
    → All IsByte text
    → (written : Text) × (display to_chars (Value.string text) ≡ some written)
      × (read_quoted (written ++ rest) ≡ some (text, rest))
unfolding display
read_quoted-display to_chars text rest h = (quoted text, refl, read_quoted-quoted text rest h)
