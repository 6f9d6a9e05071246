-- ===== src/Json/Exchange/Numbers.antt =====
-- src/json.hpp, `parse_number`: the number that it returns is exchanged by the encoder.
use genia_cpp.Base.{
  ℕ, ◌≤◌, ◌≡◌, refl, sym, subst, ap, Bool, true, false, ◌||◌, ◌==◌, ◌>>=◌, >>=-some, Option, none,
  some, Bool-cases, inl, inr, [], ◌∷◌, ◌++◌, length, arith,
}
use genia_cpp.Base.Int.{ℤ, pos, ◌-ℤ◌, as_i64}
use genia_cpp.Bignum.{Integer}
use genia_cpp.Bignum.Decimal.{from_unsigned_decimal, to_decimal_string}
use genia_cpp.Values.Value.{Text, Value}
use genia_cpp.Numbers.Arithmetic.{canonicalize_decimal, make_decimal}
use genia_cpp.Rendering.Numbers.{ToChars, render_decimal}
use genia_cpp.Json.Result.{Result}
use genia_cpp.Json.Numbers.{
  span_digits, some_digits, signed_value, integer_digits, fraction_digits, exponent_part,
  or_empty_text, or_zero_exponent, is_some, token_decimal, unsigned_token, parse_decimal_token,
  stable_decimal, safe_integer,
}
use genia_cpp.Json.Encoder.{encode_at}
use genia_cpp.Json.Decoder.Position.{Cursor}
use genia_cpp.Json.Decoder.Tokens.{
  scan_sign, scan_integer, scan_fraction, scan_signed, scan_exponent, Token, scan_number,
  token_text, is_nonempty, integer_value, decimal_value, behind_token, number_value, parse_number,
}
use genia_cpp.Json.Decoder.Ensures.{Ensures, holds, rejected, Ensures-if}

-- A result that is no failure.
abbrev pub Succeeds : {A : Type 0} → Result A → Type 0
Succeeds {A} r = (a : A) × (r ≡ Result.ok a)

-- The encoder takes the value at a depth.
abbrev pub IsEncodable : ToChars → Value → ℕ → Type 0
IsEncodable to_chars v depth = Succeeds (encode_at to_chars v depth)

length-span_digits : (text : Text) → length (span_digits text).1 ≤ length text
unfolding span_digits
length-span_digits [] = omega arith
length-span_digits (c ∷ text) = ground (arith, length-span_digits text)

some_digits_left :
    (text : Text) (r : Text × Text)
    → some_digits (span_digits text) ≡ some r
    → length r.1 ≤ length text
some_digits_left text r e =
    omega (arith, length-span_digits text, ap length (behind (span_digits text) e))
  where
    behind : (s : Text × Text) → some_digits s ≡ some r → r.1 ≡ s.1
    behind ([], rest) f = cc
    behind (c ∷ digits, rest) f = cc

scan_sign_left : (text : Text) → length (scan_sign text).1 ≤ length text
scan_sign_left [] = omega arith
scan_sign_left (c ∷ text) = ground arith

scan_integer_left :
    (text : Text) (r : Text × Text) → scan_integer text ≡ some r → length r.1 ≤ length text
scan_integer_left [] r e = cc
scan_integer_left (c ∷ text) r e = ground (arith, some_digits_left (c ∷ text) r)

rest_of_some : {a r : Text × Text} → ◌≡◌ {A = Option (Text × Text)} (some a) (some r) → a.1 ≡ r.1
rest_of_some e = cc

digits_left :
    (text front : Text) (r : Text × Text)
    → (some_digits (span_digits text) >>= λ ds. some (front ++ ds.0, ds.1)) ≡ some r
    → length r.1 ≤ length text
digits_left text front r e =
    let (digits, found, made) =
      >>=-some (some_digits (span_digits text)) (λ ds. some (front ++ ds.0, ds.1)) r e in
    omega (arith, some_digits_left text digits found, ap length (rest_of_some made))

scan_fraction_left :
    (text : Text) (r : Text × Text) → scan_fraction text ≡ some r → length r.1 ≤ length text
scan_fraction_left [] r e = ground arith
scan_fraction_left (c ∷ text) r e = elim (Bool-cases (c == b'.')) [
  | inl p ↦ omega (arith, digits_left text (c ∷ []) r (rw p at e))
  | inr p ↦ omega (arith, ap length (rest_of_some (rw p at e)))
]

scan_signed_left :
    (e : ℕ) (text : Text) (r : Text × Text) → scan_signed e text ≡ some r → length r.1 ≤ length text
scan_signed_left e [] r h = cc
scan_signed_left e (c ∷ text) r h = elim (Bool-cases (c == b'+' || c == b'-')) [
  | inl p ↦ omega (arith, digits_left text (e ∷ c ∷ []) r (rw p at h))
  | inr p ↦ omega (arith, digits_left (c ∷ text) (e ∷ []) r (rw p at h))
]

scan_exponent_left :
    (text : Text) (r : Text × Text) → scan_exponent text ≡ some r → length r.1 ≤ length text
scan_exponent_left [] r e = ground arith
scan_exponent_left (c ∷ text) r e = elim (Bool-cases (c == b'e' || c == b'E')) [
  | inl p ↦ omega (arith, scan_signed_left c text r (rw p at e))
  | inr p ↦ omega (arith, ap length (rest_of_some (rw p at e)))
]

scan_number_left :
    (text : Text) (t : Token) → scan_number text ≡ some t → length t.behind ≤ length text
unfolding scan_number
scan_number_left text t e =
    let (digits, e1, f1) = >>=-some (scan_integer (scan_sign text).1) _ t e in
    let (fraction, e2, f2) = >>=-some (scan_fraction digits.1) _ t f1 in
    let (exponent, e3, f3) = >>=-some (scan_exponent fraction.1) _ t f2 in
    let last : t.behind ≡ exponent.1 = ground arith in
    omega (
      arith,
      ap length last,
      scan_exponent_left fraction.1 exponent e3,
      scan_fraction_left digits.1 fraction e2,
      scan_integer_left (scan_sign text).1 digits e1,
      scan_sign_left text,
    )

-- What `parse_decimal_token` returns is a decimal.
abbrev IsDecimal : Value → Type 0
IsDecimal v = (decimal : Integer × ℤ) × (v ≡ make_decimal decimal)

token_decimal-IsDecimal :
    (negative : Bool) (digits : Text) (fraction : Option Text) (exponent : Option ℤ) (text : Text)
    (v : Value)
    → token_decimal negative digits fraction exponent text ≡ some v
    → IsDecimal v
token_decimal-IsDecimal negative digits fraction exponent (c ∷ text) v e = cc
token_decimal-IsDecimal negative digits fraction exponent [] v e =
    elim (Bool-cases (is_some fraction || is_some exponent)) [
      | inl p ↦
          let (coefficient, found, made) =
            >>=-some (from_unsigned_decimal (digits ++ or_empty_text fraction)) _ v (rw p at e) in
          (
            canonicalize_decimal (signed_value negative coefficient)
                (as_i64 (or_zero_exponent exponent -ℤ pos (length (or_empty_text fraction)))),
            cc,
          )
      | inr p ↦ cc (rw p at e)
    ]

unsigned_token-IsDecimal :
    (negative : Bool) (text : Text) (v : Value)
    → unsigned_token negative text ≡ some v
    → IsDecimal v
unsigned_token-IsDecimal negative text v e =
    let (digits, e1, f1) = >>=-some (integer_digits text) _ v e in
    let (fraction, e2, f2) = >>=-some (fraction_digits digits.1) _ v f1 in
    let (exponent, e3, f3) = >>=-some (exponent_part fraction.1) _ v f2 in
    token_decimal-IsDecimal negative digits.0 fraction.0 exponent.0 exponent.1 v f3

parse_decimal_token-IsDecimal :
    (text : Text) (v : Value) → parse_decimal_token text ≡ some v → IsDecimal v
unfolding parse_decimal_token
parse_decimal_token-IsDecimal [] v e = cc
parse_decimal_token-IsDecimal (c ∷ text) v e = elim (Bool-cases (c == b'-')) [
  | inl p ↦ unsigned_token-IsDecimal true text v (rw p at e)
  | inr p ↦ unsigned_token-IsDecimal false (c ∷ text) v (rw p at e)
]

module _ (to_chars : ToChars) where
  -- A value that the encoder takes at every depth, in front of no more than so much text.
  abbrev IsScalarValue : ℕ → Value → Cursor → Type 0
  IsScalarValue n v c = (length c.rest ≤ n) × ((depth : ℕ) → IsEncodable to_chars v depth)

  integer_value-Ensures :
      (n : ℕ) (at c : Cursor) (negative : Bool) (o : Option Integer)
      → length c.rest ≤ n
      → Ensures (IsScalarValue n) (integer_value at c negative o)
  unfolding encode_at
  integer_value-Ensures n at c negative none h = rejected
  integer_value-Ensures n at c negative (some m) h =
      Ensures-if (safe_integer (signed_value negative m))
        (λ e. holds (h, λ depth. (to_decimal_string (signed_value negative m), rw e refl)))
        (λ e. rejected)

  decimal-IsEncodable :
      (coefficient : Integer) (exponent : ℤ) (depth : ℕ)
      → stable_decimal to_chars (make_decimal (coefficient, exponent)) ≡ true
      → IsEncodable to_chars (make_decimal (coefficient, exponent)) depth
  unfolding encode_at
  decimal-IsEncodable coefficient exponent depth e =
      (render_decimal coefficient exponent, rw e refl)

  decimal_value-Ensures :
      (n : ℕ) (at c : Cursor) (o : Option Value)
      → length c.rest ≤ n
      → ((v : Value) → o ≡ some v → (decimal : Integer × ℤ) × (v ≡ make_decimal decimal))
      → Ensures (IsScalarValue n) (decimal_value to_chars at c o)
  decimal_value-Ensures n at c none h k = rejected
  decimal_value-Ensures n at c (some v) h k =
      let (decimal, made) = k v refl in
      Ensures-if (stable_decimal to_chars v)
        (λ e. holds (
          h,
          λ depth.
              subst (λ w. IsEncodable to_chars w depth) (sym made)
                (decimal-IsEncodable decimal.0 decimal.1 depth (rw made at e)),
        ))
        (λ e. rejected)

  number_value-Ensures :
      (n : ℕ) (c : Cursor) (o : Option Token)
      → ((t : Token) → o ≡ some t → length t.behind ≤ n)
      → Ensures (IsScalarValue n) (number_value to_chars c o)
  number_value-Ensures n c none h = rejected
  number_value-Ensures n c (some t) h =
      Ensures-if (is_nonempty t.fraction || is_nonempty t.exponent)
        (λ e.
          decimal_value-Ensures n c (behind_token c t) (parse_decimal_token (token_text t))
            (h t refl) (parse_decimal_token-IsDecimal (token_text t)))
        (λ e.
          integer_value-Ensures n c (behind_token c t) (is_nonempty t.sign)
            (from_unsigned_decimal t.digits) (h t refl))

  pub parse_number-Ensures :
      (c : Cursor)
      → Ensures
          (λ v d. (length d.rest ≤ length c.rest) × ((depth : ℕ) → IsEncodable to_chars v depth))
          (parse_number to_chars c)
  unfolding parse_number
  parse_number-Ensures c =
      number_value-Ensures (length c.rest) c (scan_number c.rest) (scan_number_left c.rest)
