-- ===== src/Bignum/Decimal/RoundTrip.antt =====
-- src/bignum.hpp: a printed number is read back as itself.
use genia_cpp.Base.{
  ℕ, zero, suc, ◌+◌, ◌-◌, ◌*◌, ◌≤◌, ◌<◌, ◌≡◌, ◌≢◌, refl, sym, ap, ◌∙◌, subst, Bool, true, false,
  some, List, [], ◌∷◌, ◌++◌, length, length-append, length-replicate, replicate, All, arith, ◌==◌,
  inl, inr, Bool-cases,
}
use genia_cpp.Bignum.{Integer, is_zero, is_empty, negate}
use genia_cpp.Bignum.Limbs.{IsLimb, magnitude}
use genia_cpp.Bignum.Canonical.{IsCanonical, is_zero_lem}
use genia_cpp.Bignum.Signed.{to_ℤ}
use genia_cpp.Bignum.Words.{to_ℤ-injective}
use genia_cpp.Bignum.Decimal.{
  chunk_base, all_digits, read_digits, split_chunks, chunk_text, join_chunks, to_decimal_string,
  from_unsigned_decimal,
}
use genia_cpp.Bignum.Decimal.Read.{
  ten_pow_nine, read_digits-append, read_digits-shift, from_unsigned_decimal_lem, IsRead,
}
use genia_cpp.Bignum.Decimal.Print.{
  chunks_value, chunk_pow, split_chunks_lem, print_digits_lem, all_digits-append,
}
use mathlib.Core.List.{append-nil}

zeros_text :
    (n : ℕ) → (all_digits (replicate n b'0') ≡ true) × (read_digits 0 (replicate n b'0') ≡ 0)
unfolding all_digits read_digits
zeros_text zero = (refl, refl)
zeros_text (suc n) = (ground (arith, zeros_text n), (zeros_text n).1)

-- A text of digits with its number.
pub record IsText (n : ℕ) (text : List ℕ) : Type 0 where
  pub are_digits : all_digits text ≡ true
  pub value : read_digits 0 text ≡ n

chunk_text_lem : (c : ℕ) → c < chunk_base → IsText c (chunk_text c) × (length (chunk_text c) ≤ 9)
chunk_text_lem c h =
    let printed = print_digits_lem 9 c [] (omega (arith, ten_pow_nine, h)) in
    let same : chunk_text c ≡ printed.digits = printed.split ∙ append-nil printed.digits in
    subst (λ t. IsText c t × (length t ≤ 9)) (sym same)
      (record { are_digits = printed.are_digits; value = printed.value }, printed.short)

-- Below the highest chunk, every chunk takes 9 characters.
padded_chunk :
    (c : ℕ) (front : List ℕ) (n : ℕ)
    → c < chunk_base
    → IsText n front
    → IsText
        (c + chunk_base * n)
        (front ++ (replicate (9 - length (chunk_text c)) b'0' ++ chunk_text c))
padded_chunk c front n h t =
    let (text, short) = chunk_text_lem c h in
    let count : ℕ = 9 - length (chunk_text c) in
    let pad : List ℕ = replicate count b'0' in
    let (digits, nothing) = zeros_text count in
    let all_nine : length (pad ++ chunk_text c) ≡ 9 =
      omega (arith, length-append pad (chunk_text c), length-replicate {A = ℕ} count b'0', short) in
    let low : read_digits 0 (pad ++ chunk_text c) ≡ c =
      read_digits-append 0 pad (chunk_text c) ∙ rw nothing text.value in
    record {
      are_digits =
          all_digits-append front (pad ++ chunk_text c) t.are_digits
            (all_digits-append pad (chunk_text c) digits text.are_digits);
      value =
          read_digits-append 0 front (pad ++ chunk_text c)
          ∙ read_digits-shift (read_digits 0 front) (pad ++ chunk_text c)
          ∙ rw (t.value, all_nine, low, ten_pow_nine) (omega arith);
    }

join_chunks_lem :
    (cs : List ℕ) → All (λ c. c < chunk_base) cs → IsText (chunks_value cs) (join_chunks cs)
unfolding join_chunks chunks_value
join_chunks_lem [] h = record {
  are_digits = unfold all_digits in refl;
  value = unfold read_digits in refl;
}
join_chunks_lem (c ∷ []) h =
    subst (λ n. IsText n (chunk_text c)) (omega arith) (chunk_text_lem c h.0).0
join_chunks_lem (c ∷ d ∷ ds) h = padded_chunk c _ _ h.0 (join_chunks_lem (d ∷ ds) h.1)

-- Two chunks cover a limb.
pub fuel_enough : (xs : List ℕ) → All IsLimb xs → magnitude xs < chunk_pow (2 * length xs)
unfolding magnitude chunk_pow
fuel_enough [] h = omega arith
fuel_enough (x ∷ xs) h =
    let two : 2 * suc (length xs) ≡ suc (suc (2 * length xs)) = omega arith in
    rw two (omega (arith, fuel_enough xs h.1, h.0))

IsText-zero : IsText 0 (b'0' ∷ [])
unfolding all_digits read_digits
IsText-zero = record { are_digits = refl; value = refl }

chunks-IsText :
    (xs : List ℕ)
    → All IsLimb xs
    → IsText (magnitude xs) (join_chunks (split_chunks (suc (2 * length xs)) xs))
chunks-IsText xs h =
    let enough : magnitude xs < chunk_pow (suc (2 * length xs)) =
      unfold chunk_pow in omega (arith, fuel_enough xs h) in
    let (value, small) = split_chunks_lem (suc (2 * length xs)) xs h enough in
    subst (λ n. IsText n (join_chunks (split_chunks (suc (2 * length xs)) xs))) value
      (join_chunks_lem _ small)

-- The text of a canonical value that is not negative is the digits of its number. The fuel for its
-- chunks is enough.
pub to_decimal_string-IsText :
    (a : Integer)
    → IsCanonical a
    → a.positive ≡ true
    → IsText (magnitude a.limbs) (to_decimal_string a)
unfolding to_decimal_string
to_decimal_string-IsText a c p = elim (Bool-cases (magnitude a.limbs == 0)) [
  | inl e ↦
      rw (is_zero_lem a c, e) (subst (λ n. IsText n (b'0' ∷ [])) (ground (arith, e)) IsText-zero)
  | inr e ↦ rw (is_zero_lem a c, e, p) (chunks-IsText a.limbs c.limbs_fit)
]

negative_text :
    (s : Bool) (xs : List ℕ)
    → (magnitude xs ≡ 0 → s ≡ true)
    → s ≡ false
    → to_decimal_string (record { limbs = xs; positive = s })
      ≡ b'-' ∷ to_decimal_string (negate (record { limbs = xs; positive = s }))
unfolding to_decimal_string negate is_zero is_empty magnitude
negative_text s [] z p = cc (z refl)
negative_text true (x ∷ xs) z p = cc
negative_text false (x ∷ xs) z p = refl

-- A negative value prints as `-` and the text of its negation.
pub to_decimal_string-negate :
    (a : Integer)
    → IsCanonical a
    → a.positive ≡ false
    → to_decimal_string a ≡ b'-' ∷ to_decimal_string (negate a)
to_decimal_string-negate a c p = negative_text a.positive a.limbs c.zero_positive p

positive_equal :
    (a r : Integer) → IsCanonical a → a.positive ≡ true → IsRead (magnitude a.limbs) r → r ≡ a
positive_equal a r c p h =
    to_ℤ-injective r a h.canonical c (unfold to_ℤ in rw (p, h.positive, h.value) refl)

read_back :
    (a : Integer) (text : List ℕ)
    → IsCanonical a
    → a.positive ≡ true
    → IsText (magnitude a.limbs) text
    → text ≢ []
    → from_unsigned_decimal text ≡ some a
read_back a [] c p t h = absurd (h refl)
read_back a (d ∷ ds) c p t h =
    let (r, e, read) = from_unsigned_decimal_lem d ds t.are_digits in
    e ∙ ap some (positive_equal a r c p (subst (λ n. IsRead n r) t.value read))

pub zero_text :
    (a : Integer) → IsCanonical a → magnitude a.limbs ≡ 0 → to_decimal_string a ≡ b'0' ∷ []
unfolding to_decimal_string
zero_text a c e = rw (is_zero_lem a c, e) refl

empty_value : read_digits 0 [] ≡ 0
unfolding read_digits
empty_value = refl

pub text_nonempty : (a : Integer) → IsCanonical a → a.positive ≡ true → to_decimal_string a ≢ []
text_nonempty a c p h =
    let value : read_digits 0 [] ≡ magnitude a.limbs =
      rw h at (to_decimal_string-IsText a c p).value in
    cc (zero_text a c (sym value ∙ empty_value), h)

-- Printing a canonical value that is not negative, and reading the text, gives the value.
pub from_unsigned_decimal-to_decimal_string :
    (a : Integer)
    → IsCanonical a
    → a.positive ≡ true
    → from_unsigned_decimal (to_decimal_string a) ≡ some a
from_unsigned_decimal-to_decimal_string a c p =
    read_back a (to_decimal_string a) c p (to_decimal_string-IsText a c p) (text_nonempty a c p)
