-- ===== src/Bignum/Decimal/Print.antt =====
-- src/bignum.hpp, `to_decimal_string`: the text stands for the number, and `from_unsigned_decimal`
-- reads it back.
use genia_cpp.Base.{
  ℕ, zero, suc, ◌+◌, ◌*◌, ◌/◌, ◌%◌, ◌≤◌, ◌<◌, ◌≡◌, refl, sym, ap, ◌∙◌, true, List, [], ◌∷◌, ◌++◌,
  length, length-append, All, arith, ◌==◌, inl, inr, Bool-cases,
}
use genia_cpp.Bignum.Limbs.{IsLimb, magnitude}
use genia_cpp.Bignum.Magnitude.{magnitude-pop_zeros, pop_zeros-All}
use genia_cpp.Bignum.Decimal.{
  chunk_base, digit_char, all_digits, read_digits, divide_chunk, pop_high_zeros, is_done,
  split_chunks, print_digits,
}
use genia_cpp.Bignum.Decimal.Read.{ten_pow, read_digits-append}
use mathlib.Core.List.{append_assoc}

-- Division of a limb vector by 10^9.
pub record ChunkDivision (xs : List ℕ) (result : List ℕ × ℕ) : Type 0 where
  pub limbs_fit : All IsLimb result.0
  pub same_length : length result.0 ≡ length xs
  pub below : result.1 < chunk_base
  pub value : magnitude xs ≡ magnitude result.0 * chunk_base + result.1

pub divide_chunk_lem : (xs : List ℕ) → All IsLimb xs → ChunkDivision xs (divide_chunk xs)
unfolding divide_chunk magnitude
divide_chunk_lem [] h = record {
  limbs_fit = tt;
  same_length = refl;
  below = omega arith;
  value = omega arith;
}
divide_chunk_lem (x ∷ xs) h =
    let rest = divide_chunk_lem xs h.1 in
    record {
      limbs_fit = (omega arith, rest.limbs_fit);
      same_length = ap suc rest.same_length;
      below = omega arith;
      value = omega (arith, rest.value, rest.below, h.0);
    }

-- The number that a list of chunks stands for.
unfoldable pub chunks_value : List ℕ → ℕ
chunks_value [] = 0
chunks_value (c ∷ cs) = c + chunk_base * chunks_value cs

unfoldable pub chunk_pow : ℕ → ℕ
chunk_pow zero = 1
chunk_pow (suc n) = chunk_base * chunk_pow n

pub magnitude-pop_high_zeros : (xs : List ℕ) → magnitude (pop_high_zeros xs) ≡ magnitude xs
unfolding pop_high_zeros magnitude
magnitude-pop_high_zeros [] = refl
magnitude-pop_high_zeros (x ∷ xs) = omega (arith, magnitude-pop_zeros xs)

pub pop_high_zeros-All : (xs : List ℕ) → All IsLimb xs → All IsLimb (pop_high_zeros xs)
unfolding pop_high_zeros
pop_high_zeros-All [] h = h
pop_high_zeros-All (x ∷ xs) h = (h.0, pop_zeros-All xs h.1)

pub is_done-magnitude : (xs : List ℕ) → is_done xs ≡ true → magnitude xs ≡ 0
unfolding magnitude
is_done-magnitude [] h = refl
is_done-magnitude (x ∷ []) h = ground arith
is_done-magnitude (x ∷ y ∷ ys) h = cc

-- The chunks stand for the number, where the fuel covers it.
pub split_chunks_lem :
    (fuel : ℕ) (work : List ℕ)
    → All IsLimb work
    → magnitude work < chunk_pow fuel
    → (chunks_value (split_chunks fuel work) ≡ magnitude work)
      × All (λ c. c < chunk_base) (split_chunks fuel work)
unfolding split_chunks chunks_value chunk_pow
split_chunks_lem zero work h low = (omega (arith, low), tt)
split_chunks_lem (suc fuel) work h low = elim (Bool-cases (is_done work)) [
  | inl e ↦ rw e (sym (is_done-magnitude work e), tt)
  | inr e ↦
      let division = divide_chunk_lem work h in
      let quotient : List ℕ = (divide_chunk work).0 in
      let same = magnitude-pop_high_zeros quotient in
      let (value, small) =
        split_chunks_lem fuel (pop_high_zeros quotient)
          (pop_high_zeros-All quotient division.limbs_fit)
          (omega (arith, division.value, same, low)) in
      rw e (omega (arith, division.value, same, value), (division.below, small))
]

-- The digits of a number, in front of what follows.
pub record Printed (k n : ℕ) (rest out : List ℕ) : Type 0 where
  pub digits : List ℕ
  pub split : out ≡ digits ++ rest
  pub are_digits : all_digits digits ≡ true
  pub short : length digits ≤ k
  pub value : read_digits 0 digits ≡ n

pub all_digits-append :
    (xs ys : List ℕ) → all_digits xs ≡ true → all_digits ys ≡ true → all_digits (xs ++ ys) ≡ true
unfolding all_digits
all_digits-append [] ys hx hy = hy
all_digits-append (x ∷ xs) ys hx hy = ground (arith, all_digits-append xs ys)

digit_char-digits : (d : ℕ) → d < 10 → all_digits (digit_char d ∷ []) ≡ true
unfolding all_digits
digit_char-digits d h = ground arith

digit_char-value : (acc d : ℕ) → d < 10 → read_digits acc (digit_char d ∷ []) ≡ acc * 10 + d
unfolding read_digits
digit_char-value acc d h = omega arith

one_digit :
    (k n : ℕ) (rest : List ℕ) → n / 10 ≡ 0 → Printed (suc k) n rest (digit_char (n % 10) ∷ rest)
one_digit k n rest e = record {
  digits = digit_char (n % 10) ∷ [];
  split = refl;
  are_digits = digit_char-digits (n % 10) (omega arith);
  short = omega arith;
  value = digit_char-value 0 (n % 10) (omega arith) ∙ omega (arith, e);
}

pub print_digits_lem :
    (k n : ℕ) (rest : List ℕ) → n < ten_pow k → Printed k n rest (print_digits k n rest)
unfolding print_digits ten_pow
print_digits_lem zero n rest h = record {
  digits = [];
  split = refl;
  are_digits = unfold all_digits in refl;
  short = omega arith;
  value = unfold read_digits in omega (arith, h);
}
print_digits_lem (suc k) n rest h = elim (Bool-cases (n / 10 == 0)) [
  | inl e ↦ rw e (one_digit k n rest (ground arith))
  | inr e ↦
      let last : List ℕ = digit_char (n % 10) ∷ [] in
      let front = print_digits_lem k (n / 10) (digit_char (n % 10) ∷ rest) (omega (arith, h)) in
      rw e (record {
        digits = front.digits ++ last;
        split = front.split ∙ sym (append_assoc front.digits last rest);
        are_digits =
            all_digits-append front.digits last front.are_digits
              (digit_char-digits (n % 10) (omega arith));
        short = omega (arith, length-append front.digits last, front.short);
        value =
            read_digits-append 0 front.digits last
            ∙ digit_char-value _ (n % 10) (omega arith)
            ∙ omega (arith, front.value);
      })
]
