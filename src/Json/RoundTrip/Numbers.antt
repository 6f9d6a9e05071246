-- ===== src/Json/RoundTrip/Numbers.antt =====
-- src/json.hpp: `parse_number` reads the integers that `encode_at` writes.
use genia_cpp.Base.{
  zero, suc, ◌≤◌, ◌≡◌, ◌⊎◌, refl, sym, subst, ap, ◌∙◌, ==_iff, Bool, true, false, not, ◌==◌, ◌&&◌,
  ◌||◌, some, [], ◌∷◌, ◌++◌, arith, Bool-cases, inl, inr,
}
use genia_cpp.Base.Int.{ℤ, pos, negsuc, ◌-ℤ◌}
use genia_cpp.Bignum.{Integer, negate}
use genia_cpp.Bignum.Signed.{to_ℤ, to_ℤ-negate, positive-negate}
use genia_cpp.Bignum.Words.{to_ℤ-injective}
use genia_cpp.Bignum.Limbs.{magnitude}
use genia_cpp.Bignum.Canonical.{IsCanonical, negate-IsCanonical}
use genia_cpp.Bignum.Decimal.{is_digit, all_digits, from_unsigned_decimal, to_decimal_string}
use genia_cpp.Bignum.Decimal.RoundTrip.{
  to_decimal_string-IsText, to_decimal_string-negate, from_unsigned_decimal-to_decimal_string,
  zero_text,
}
use genia_cpp.Bignum.Decimal.Leading.{HasLeading, to_decimal_string-HasLeading}
use genia_cpp.Values.Value.{Text, Value}
use genia_cpp.Rendering.Numbers.{ToChars}
use genia_cpp.Json.Numbers.{span_digits, signed_value, safe_integer}
use genia_cpp.Json.Decoder.Position.{Cursor}
use genia_cpp.Json.Decoder.Tokens.{
  scan_sign, scan_integer, scan_fraction, scan_exponent, Token, scan_number, is_nonempty,
  number_value, parse_number,
}
use genia_cpp.Json.RoundTrip.Reads.{Reads, reads}

-- The text does not go on with what a number could have there.
abbrev pub ends_number : Text → Bool
ends_number [] = true
ends_number (c ∷ text) = not (is_digit c) && (not (c == b'.') && not (c == b'e' || c == b'E'))

-- An integer's digits as `scan_number` takes them: one zero, or digits with another one in front.
abbrev IsInteger : Text → Type 0
IsInteger [] = ⊥
IsInteger (c ∷ digits) =
    ((c ≡ b'0') × (digits ≡ [])) ⊎ ((b'1' ≤ c) × (all_digits (c ∷ digits) ≡ true))

span_digits_all :
    (digits rest : Text)
    → all_digits digits ≡ true
    → ends_number rest ≡ true
    → span_digits (digits ++ rest) ≡ (digits, rest)
unfolding span_digits all_digits
span_digits_all [] [] h e = refl
span_digits_all [] (c ∷ rest) h e = ground arith
span_digits_all (d ∷ digits) rest h e = ground (arith, span_digits_all digits rest)

scan_integer_all :
    (digits rest : Text)
    → IsInteger digits
    → ends_number rest ≡ true
    → scan_integer (digits ++ rest) ≡ some (digits, rest)
scan_integer_all [] rest h e = elim h [ ]
scan_integer_all (c ∷ digits) rest (inl (z, nothing)) e = rw (z, nothing) refl
scan_integer_all (c ∷ digits) rest (inr (lo, h)) e =
    let span = span_digits_all (c ∷ digits) rest h e in rw span (ground arith)

scan_fraction_none : (rest : Text) → ends_number rest ≡ true → scan_fraction rest ≡ some ([], rest)
scan_fraction_none [] e = refl
scan_fraction_none (c ∷ rest) e = ground arith

scan_exponent_none : (rest : Text) → ends_number rest ≡ true → scan_exponent rest ≡ some ([], rest)
scan_exponent_none [] e = refl
scan_exponent_none (c ∷ rest) e = ground arith

-- The token of an integer.
abbrev integer_token : Text → Text → Text → Token
integer_token sign digits rest = record {
  sign = sign;
  digits = digits;
  fraction = [];
  exponent = [];
  behind = rest;
}

scan_number_integer :
    (sign digits rest : Text)
    → scan_sign (sign ++ (digits ++ rest)) ≡ (sign, digits ++ rest)
    → IsInteger digits
    → ends_number rest ≡ true
    → scan_number (sign ++ (digits ++ rest)) ≡ some (integer_token sign digits rest)
unfolding scan_number
scan_number_integer sign digits rest s h e =
    rw (s, scan_integer_all digits rest h e, scan_fraction_none rest e, scan_exponent_none rest e)
      refl

scan_sign_none :
    (digits rest : Text) → IsInteger digits → scan_sign (digits ++ rest) ≡ ([], digits ++ rest)
unfolding all_digits
scan_sign_none [] rest h = elim h [ ]
scan_sign_none (c ∷ digits) rest (inl (z, nothing)) = rw z refl
scan_sign_none (c ∷ digits) rest (inr (lo, h)) = ground arith

-- The digits of a value that is not negative.
to_decimal_string-IsInteger :
    (a : Integer) → IsCanonical a → a.positive ≡ true → IsInteger (to_decimal_string a)
to_decimal_string-IsInteger a c p = elim (Bool-cases (magnitude a.limbs == 0)) [
  | inl z ↦ rw (zero_text a c ((==_iff _ _).0 z)) (inl (refl, refl))
  | inr z ↦
      IsInteger-intro (to_decimal_string a) (to_decimal_string-IsText a c p).are_digits
        (to_decimal_string-HasLeading a c p (ground arith))
]
  where
    IsInteger-intro : (text : Text) → all_digits text ≡ true → HasLeading text → IsInteger text
    IsInteger-intro [] h l = elim l [ ]
    IsInteger-intro (x ∷ text) h l = inr (l, h)

zero_minus_twice : (x : ℤ) → pos 0 -ℤ (pos 0 -ℤ x) ≡ x
unfolding ◌-ℤ◌
zero_minus_twice (pos zero) = refl
zero_minus_twice (pos (suc n)) = ground arith
zero_minus_twice (negsuc n) = ground arith

negate_twice : (a : Integer) → IsCanonical a → negate (negate a) ≡ a
negate_twice a c =
    to_ℤ-injective (negate (negate a)) a (negate-IsCanonical (negate a) (negate-IsCanonical a c)) c
      (to_ℤ-negate (negate a) (negate-IsCanonical a c)
        ∙ rw (to_ℤ-negate a c) (zero_minus_twice (to_ℤ a)))

positive_opposite : (a : Integer) → IsCanonical a → a.positive ≡ false → (negate a).positive ≡ true
positive_opposite a c p = elim (Bool-cases (magnitude a.limbs == 0)) [
  | inl z ↦ cc (c.zero_positive ((==_iff _ _).0 z), p)
  | inr z ↦ positive-negate a c ∙ rw (z, p) refl
]

module _ (to_chars : ToChars) (rest : Text) (ends : ends_number rest ≡ true) where
  number_value-Reads :
      (c : Cursor) (sign digits : Text) (n : Integer)
      → safe_integer n ≡ true
      → ((a : Integer) × (from_unsigned_decimal digits ≡ some a)
          × (signed_value (is_nonempty sign) a ≡ n))
      → Reads
          (Value.integer n)
          rest
          (number_value to_chars c (some (integer_token sign digits rest)))
  number_value-Reads c sign digits n safe (a, read, same) = rw (read, same, safe) (reads refl)

  token-Reads :
      (c : Cursor) (sign digits : Text) (n : Integer)
      → c.rest ≡ sign ++ (digits ++ rest)
      → scan_sign (sign ++ (digits ++ rest)) ≡ (sign, digits ++ rest)
      → IsInteger digits
      → safe_integer n ≡ true
      → ((a : Integer) × (from_unsigned_decimal digits ≡ some a)
          × (signed_value (is_nonempty sign) a ≡ n))
      → Reads (Value.integer n) rest (parse_number to_chars c)
  unfolding parse_number
  token-Reads c sign digits n e s h safe read =
      subst (λ o. Reads (Value.integer n) rest (number_value to_chars c o))
        (sym (ap scan_number e ∙ scan_number_integer sign digits rest s h ends))
        (number_value-Reads c sign digits n safe read)

  -- The text of a safe integer is read as the integer, where no other part of a number follows.
  pub parse_number-to_decimal_string :
      (a : Integer) (c : Cursor)
      → IsCanonical a
      → safe_integer a ≡ true
      → c.rest ≡ to_decimal_string a ++ rest
      → Reads (Value.integer a) rest (parse_number to_chars c)
  parse_number-to_decimal_string a c h safe e = elim (Bool-cases a.positive) [
    | inl p ↦
        let digits = to_decimal_string-IsInteger a h p in
        token-Reads c [] (to_decimal_string a) a e
          (scan_sign_none (to_decimal_string a) rest digits) digits safe
          (a, from_unsigned_decimal-to_decimal_string a h p, refl)
    | inr p ↦
        let opposite : Integer = negate a in
        let k : IsCanonical opposite = negate-IsCanonical a h in
        let q : opposite.positive ≡ true = positive_opposite a h p in
        token-Reads c (b'-' ∷ []) (to_decimal_string opposite) a
          (e ∙ ap (λ (t : Text). t ++ rest) (to_decimal_string-negate a h p)) refl
          (to_decimal_string-IsInteger opposite k q) safe
          (opposite, from_unsigned_decimal-to_decimal_string opposite k q, negate_twice a h)
  ]

-- A text whose first character a number starts with.
abbrev pub StartsNumber : Text → Type 0
StartsNumber [] = ⊥
StartsNumber (c ∷ text) = (c == b'-' || is_digit c) ≡ true

IsInteger-StartsNumber : (digits : Text) → IsInteger digits → StartsNumber digits
unfolding all_digits
IsInteger-StartsNumber [] h = elim h [ ]
IsInteger-StartsNumber (c ∷ digits) (inl (z, nothing)) = rw z refl
IsInteger-StartsNumber (c ∷ digits) (inr (lo, h)) = ground arith

pub to_decimal_string-StartsNumber :
    (a : Integer) → IsCanonical a → StartsNumber (to_decimal_string a)
to_decimal_string-StartsNumber a c = elim (Bool-cases a.positive) [
  | inl p ↦ IsInteger-StartsNumber (to_decimal_string a) (to_decimal_string-IsInteger a c p)
  | inr p ↦ rw (to_decimal_string-negate a c p) refl
]
