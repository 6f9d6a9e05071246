-- ===== src/Bignum/Decimal/Leading.antt =====
-- src/bignum.hpp, `to_decimal_string`: the first digit of a number that is not zero.
use genia_cpp.Base.{
  ℕ, zero, suc, ◌*◌, ◌/◌, ◌%◌, ◌≤◌, ◌<◌, ◌≡◌, ◌≢◌, refl, true, false, List, [], ◌∷◌, ◌++◌, length,
  All, arith, ◌==◌, inl, inr, Bool-cases, ==_iff,
}
use genia_cpp.Bignum.{Integer}
use genia_cpp.Bignum.Limbs.{IsLimb, magnitude, pop_zeros}
use genia_cpp.Bignum.Canonical.{IsCanonical, is_zero_lem}
use genia_cpp.Bignum.Decimal.{
  chunk_base, digit_char, divide_chunk, pop_high_zeros, is_done, split_chunks, print_digits,
  join_chunks, to_decimal_string,
}
use genia_cpp.Bignum.Decimal.Read.{ten_pow, ten_pow_nine}
use genia_cpp.Bignum.Decimal.Print.{
  chunk_pow, divide_chunk_lem, magnitude-pop_high_zeros, pop_high_zeros-All, is_done-magnitude,
}
use genia_cpp.Bignum.Decimal.RoundTrip.{fuel_enough}

-- A text whose first digit is not zero.
abbrev pub HasLeading : List ℕ → Type 0
HasLeading [] = ⊥
HasLeading (c ∷ text) = b'1' ≤ c

HasLeading-append : (xs ys : List ℕ) → HasLeading xs → HasLeading (xs ++ ys)
HasLeading-append [] ys h = elim h [ ]
HasLeading-append (x ∷ xs) ys h = h

print_digits-HasLeading :
    (k n : ℕ) (rest : List ℕ) → n < ten_pow k → 0 < n → HasLeading (print_digits k n rest)
unfolding print_digits ten_pow
print_digits-HasLeading zero n rest h p = absurd (omega arith)
print_digits-HasLeading (suc k) n rest h p = elim (Bool-cases (n / 10 == 0)) [
  | inl e ↦ let none : n / 10 ≡ 0 = (==_iff _ _).0 e in rw e (omega (arith, none))
  | inr e ↦
      let some : n / 10 ≢ 0 = λ z. cc (e, (==_iff (n / 10) 0).1 z) in
      rw e (
        print_digits-HasLeading k (n / 10) (digit_char (n % 10) ∷ rest) (omega arith)
          (omega (arith, some)))
]

-- The most significant chunk is not zero.
abbrev LastPositive : List ℕ → Type 0
LastPositive [] = ⊥
LastPositive (c ∷ []) = (0 < c) × (c < chunk_base)
LastPositive (c ∷ d ∷ ds) = LastPositive (d ∷ ds)

join_chunks-HasLeading : (cs : List ℕ) → LastPositive cs → HasLeading (join_chunks cs)
unfolding join_chunks
join_chunks-HasLeading [] h = elim h [ ]
join_chunks-HasLeading (c ∷ []) h = print_digits-HasLeading 9 c [] (omega (arith, ten_pow_nine)) h.0
join_chunks-HasLeading (c ∷ d ∷ ds) h =
    HasLeading-append (join_chunks (d ∷ ds)) _ (join_chunks-HasLeading (d ∷ ds) h)

pop_zeros_zero : (xs : List ℕ) → magnitude xs ≡ 0 → pop_zeros xs ≡ []
unfolding pop_zeros magnitude
pop_zeros_zero [] h = refl
pop_zeros_zero (x ∷ xs) h = rw (pop_zeros_zero xs (omega arith)) (ground arith)

is_done-pop_high_zeros : (xs : List ℕ) → magnitude xs ≡ 0 → is_done (pop_high_zeros xs) ≡ true
unfolding pop_high_zeros magnitude
is_done-pop_high_zeros [] h = refl
is_done-pop_high_zeros (x ∷ xs) h = rw (pop_zeros_zero xs (omega arith)) (ground arith)

split_chunks_done : (fuel : ℕ) (work : List ℕ) → is_done work ≡ true → split_chunks fuel work ≡ []
unfolding split_chunks
split_chunks_done zero work h = refl
split_chunks_done (suc fuel) work h = rw h refl

LastPositive-cons : (c : ℕ) (cs : List ℕ) → LastPositive cs → LastPositive (c ∷ cs)
LastPositive-cons c [] h = elim h [ ]
LastPositive-cons c (d ∷ ds) h = h

split_chunks-LastPositive :
    (fuel : ℕ) (work : List ℕ)
    → All IsLimb work
    → magnitude work < chunk_pow fuel
    → 0 < magnitude work
    → LastPositive (split_chunks fuel work)
unfolding split_chunks chunk_pow
split_chunks-LastPositive zero work h low p = absurd (omega arith)
split_chunks-LastPositive (suc fuel) work h low p = elim (Bool-cases (is_done work)) [
  | inl e ↦ absurd (omega (arith, is_done-magnitude work e))
  | inr e ↦
      let division = divide_chunk_lem work h in
      let quotient : List ℕ = (divide_chunk work).0 in
      let same = magnitude-pop_high_zeros quotient in
      elim (Bool-cases (magnitude quotient == 0)) [
        | inl z ↦
            let none : magnitude quotient ≡ 0 = (==_iff _ _).0 z in
            rw
              (
                e,
                split_chunks_done fuel (pop_high_zeros quotient)
                    (is_done-pop_high_zeros quotient none),
              )
              (omega (arith, division.value, none), division.below)
        | inr z ↦
            let some : magnitude quotient ≢ 0 = λ q. cc (z, (==_iff (magnitude quotient) 0).1 q) in
            rw e (
              LastPositive-cons (divide_chunk work).1 (split_chunks fuel (pop_high_zeros quotient))
                (split_chunks-LastPositive fuel (pop_high_zeros quotient)
                  (pop_high_zeros-All quotient division.limbs_fit)
                  (omega (arith, division.value, same)) (omega (arith, same, some))))
      ]
]

-- The text of a value that is not zero and not negative has no zero in front.
pub to_decimal_string-HasLeading :
    (a : Integer)
    → IsCanonical a
    → a.positive ≡ true
    → 0 < magnitude a.limbs
    → HasLeading (to_decimal_string a)
unfolding to_decimal_string
to_decimal_string-HasLeading a c p h =
    let not_zero : (magnitude a.limbs == 0) ≡ false = ground arith in
    let enough : magnitude a.limbs < chunk_pow (suc (2 * length a.limbs)) =
      unfold chunk_pow in omega (arith, fuel_enough a.limbs c.limbs_fit) in
    rw (is_zero_lem a c, not_zero, p)
      (join_chunks-HasLeading (split_chunks (suc (2 * length a.limbs)) a.limbs)
        (split_chunks-LastPositive (suc (2 * length a.limbs)) a.limbs c.limbs_fit enough h))
