-- ===== src/Bignum/Words.antt =====
-- src/bignum.hpp: canonical values are determined by their integer; conversions to and from 64-bit
-- words; shifts and the bit length.
use genia_cpp.Base.{
  ℕ, zero, suc, ◌+◌, ◌-◌, ◌*◌, ◌/◌, ◌^◌, ◌≤◌, ◌<◌, ◌≡◌, refl, ap, ◌∙◌, Bool, true, false, Option,
  none, some, List, [], ◌∷◌, length, All, arith, ltb, ◌==◌, if◌then◌else◌, inl, inr, Bool-cases,
  ◌||◌,
}
use genia_cpp.Bignum.{
  Integer, is_zero, is_empty, absolute, from_u64, to_u64, bit_width, bit_length, shift_left_one_bit,
  shift_times, shift_left,
}
use genia_cpp.Bignum.Limbs.{base, IsLimb, magnitude, last_limb}
use genia_cpp.Bignum.Magnitude.{IsTrimmed}
use genia_cpp.Bignum.Canonical.{
  IsCanonical, trimmed_pos, is_zero_lem, absolute-IsCanonical, shift_left_one_bit-IsCanonical,
  magnitude-shift_left_one_bit,
}
use genia_cpp.Bignum.Signed.{signed, to_ℤ}
use native.Mathlib.Nat.{
  pow-suc, pow-zero, add-zero, zero-add, add-suc, eq-zero-or-pos, mul-suc, one-le-pow,
}

IsTrimmed-tail : (x : ℕ) (xs : List ℕ) → IsTrimmed (x ∷ xs) → IsTrimmed xs
IsTrimmed-tail x [] h = tt
IsTrimmed-tail x (y ∷ ys) h = h

-- Trimmed vectors of limbs with one number are equal.
pub limbs_unique :
    (a b : List ℕ)
    → All IsLimb a
    → All IsLimb b
    → IsTrimmed a
    → IsTrimmed b
    → magnitude a ≡ magnitude b
    → a ≡ b
unfolding magnitude
limbs_unique [] [] ha hb ta tb e = refl
limbs_unique [] (y ∷ b) ha hb ta tb e = absurd (omega (arith, trimmed_pos y b tb, e))
limbs_unique (x ∷ a) [] ha hb ta tb e = absurd (omega (arith, trimmed_pos x a ta, e))
limbs_unique (x ∷ a) (y ∷ b) ha hb ta tb e =
    let heads : x ≡ y = omega (arith, e, ha.0, hb.0) in
    let tails =
      limbs_unique a b ha.1 hb.1 (IsTrimmed-tail x a ta) (IsTrimmed-tail y b tb)
        (omega (arith, e, ha.0, hb.0)) in
    cc (heads, tails)

signed_sign :
    (s t : Bool) (m n : ℕ)
    → (m ≡ 0 → s ≡ true)
    → (n ≡ 0 → t ≡ true)
    → signed s m ≡ signed t n
    → (s ≡ t) × (m ≡ n)
signed_sign true true m n hs ht e = ground arith
signed_sign true false m n hs ht e = ground arith
signed_sign false true m n hs ht e = ground arith
signed_sign false false m n hs ht e = ground arith

-- A canonical value is determined by the integer that it stands for.
pub to_ℤ-injective : (a b : Integer) → IsCanonical a → IsCanonical b → to_ℤ a ≡ to_ℤ b → a ≡ b
unfolding to_ℤ
to_ℤ-injective a b ca cb e =
    let (s, m) = signed_sign a.positive b.positive _ _ ca.zero_positive cb.zero_positive e in
    let l = limbs_unique a.limbs b.limbs ca.limbs_fit cb.limbs_fit ca.trimmed cb.trimmed m in
    λ i. record { limbs = l i; positive = s i }

-- `to_u64` gives back the word that `from_u64` took.
pub to_u64-from_u64 : (value : ℕ) → value < 2 ^ 64 → to_u64 (from_u64 value) ≡ some value
unfolding to_u64 from_u64
to_u64-from_u64 value h = ground arith

to_u64_limbs :
    (xs : List ℕ)
    → All IsLimb xs
    → IsTrimmed xs
    → (if ltb 2 (length xs) then none else elim xs as (λ _. Option ℕ) [
      | [] ↦ some 0
      | x ∷ [] ↦ some x
      | x ∷ y ∷ _ ↦ some (x + y * base)
    ])
      ≡ (if ltb (magnitude xs) (2 ^ 64) then some (magnitude xs) else none)
unfolding magnitude
to_u64_limbs [] h t = ground arith
to_u64_limbs (x ∷ []) h t = ground (arith, h.0)
to_u64_limbs (x ∷ y ∷ []) h t = ground (arith, h.0, h.1.0)
to_u64_limbs (x ∷ y ∷ z ∷ xs) h t = ground (arith, trimmed_pos z xs t)

to_u64_signed :
    (s : Bool) (xs : List ℕ)
    → All IsLimb xs
    → IsTrimmed xs
    → to_u64 (record { limbs = xs; positive = s })
      ≡ (if s then if ltb (magnitude xs) (2 ^ 64) then some (magnitude xs) else none else none)
unfolding to_u64
to_u64_signed true xs h t = ground (arith, to_u64_limbs xs h t)
to_u64_signed false xs h t = refl

-- `to_u64` of a canonical value: the number where it is not negative and fits 64 bits.
pub to_u64_lem :
    (a : Integer)
    → IsCanonical a
    → to_u64 a ≡ (
        if a.positive
        then if ltb (magnitude a.limbs) (2 ^ 64) then some (magnitude a.limbs) else none
        else none)
to_u64_lem a c = to_u64_signed a.positive a.limbs c.limbs_fit c.trimmed

shift_times_lem :
    (n : ℕ) (a : Integer)
    → IsCanonical a
    → IsCanonical (shift_times n a)
      × (magnitude (shift_times n a).limbs ≡ magnitude a.limbs * 2 ^ n)
unfolding shift_times
shift_times_lem zero a c = (c, omega arith)
shift_times_lem (suc n) a c =
    let (c', e) = shift_times_lem n (shift_left_one_bit a) (shift_left_one_bit-IsCanonical a c) in
    (
      c',
      omega (
        arith,
        e,
        ap (λ (t : ℕ). t * 2 ^ n) (magnitude-shift_left_one_bit a c),
        ap (λ (t : ℕ). magnitude a.limbs * t) (pow-suc 2 n),
      ),
    )

kept_sign :
    (n m p : ℕ) (s t : Bool) → 1 ≤ p → n ≡ m * p → ((m == 0) || t) ≡ false → n ≡ 0 → s ≡ true
kept_sign n m zero s t h e f z = absurd (omega (arith, h))
kept_sign n zero (suc p) s t h e f z = absurd (ground (arith, f))
kept_sign n (suc m) (suc p) s t h e f z = absurd (omega (arith, e, z, mul-suc (suc m) p))

pub shift_left-IsCanonical :
    (a : Integer) (bits : ℕ) → IsCanonical a → IsCanonical (shift_left a bits)
unfolding shift_left absolute
shift_left-IsCanonical a bits c = elim (Bool-cases (is_zero a || bits == 0)) [
  | inl e ↦ rw e c
  | inr e ↦
      let shifted = shift_times_lem bits (absolute a) (absolute-IsCanonical a c) in
      rw e (record {
        limbs_fit = shifted.0.limbs_fit;
        trimmed = shifted.0.trimmed;
        zero_positive =
            kept_sign _ _ (2 ^ bits) a.positive (bits == 0) (one-le-pow bits 2 (omega arith))
              shifted.1 (rw (is_zero_lem a c) at e);
      })
]

-- `shift_left` multiplies the magnitude by a power of two and keeps the sign.
pub to_ℤ-shift_left :
    (a : Integer) (bits : ℕ)
    → IsCanonical a
    → to_ℤ (shift_left a bits) ≡ signed a.positive (magnitude a.limbs * 2 ^ bits)
unfolding shift_left to_ℤ
to_ℤ-shift_left a bits c = elim (Bool-cases (is_zero a || bits == 0)) [
  | inl e ↦
      rw e (ap (signed a.positive) (unchanged (magnitude a.limbs) bits (rw (is_zero_lem a c) at e)))
  | inr e ↦ rw e (
      ap (signed a.positive) (
        (shift_times_lem bits (absolute a) (absolute-IsCanonical a c)).1
        ∙ (unfold absolute in refl)))
]
  where
    unchanged : (m n : ℕ) → ((m == 0) || (n == 0)) ≡ true → m ≡ m * 2 ^ n
    unchanged zero n h = omega arith
    unchanged (suc m) zero h = omega arith
    unchanged (suc m) (suc n) h = absurd (ground arith)

pub pow_add : (b m n : ℕ) → b ^ (m + n) ≡ b ^ m * b ^ n
pow_add b m zero = rw (add-zero, pow-zero) (omega arith)
pow_add b m (suc n) =
    rw (add-suc, pow-suc b (m + n), pow-suc b n)
      (omega (arith, ap (λ (t : ℕ). t * b) (pow_add b m n)))

-- The width of a number: it is below that power of two, and twice it is not.
abbrev IsWidth : ℕ → ℕ → Type 0
IsWidth w x = (x < 2 ^ w) × (2 ^ w ≤ 2 * x)

bit_width_zero : (k : ℕ) → bit_width k 0 ≡ 0
unfolding bit_width
bit_width_zero zero = refl
bit_width_zero (suc k) = refl

bit_width_lem : (k x : ℕ) → x < 2 ^ k → 0 < x → IsWidth (bit_width k x) x
unfolding bit_width
bit_width_lem zero x h p = absurd (omega arith)
bit_width_lem (suc k) x h p =
    let nonzero : (x == 0) ≡ false = ground arith in
    elim (eq-zero-or-pos (x / 2)) [
      | inl e ↦ rw (nonzero, e, bit_width_zero) (omega (arith, e), omega (arith, p))
      | inr q ↦
          let half = bit_width_lem k (x / 2) (omega (arith, pow-suc 2 k)) q in
          let twice = pow-suc 2 (bit_width k (x / 2)) in
          rw nonzero (omega (arith, half.0, twice), omega (arith, half.1, twice))
    ]

IsWidth-limbs :
    (x : ℕ) (xs : List ℕ)
    → All IsLimb (x ∷ xs)
    → IsTrimmed (x ∷ xs)
    → IsWidth (length xs * 32 + bit_width 32 (last_limb (x ∷ xs))) (magnitude (x ∷ xs))
unfolding magnitude last_limb
IsWidth-limbs x [] h t = rw (zero-add, add-zero) (bit_width_lem 32 x h.0 t)
IsWidth-limbs x (y ∷ ys) h t =
    let high : ℕ = length ys * 32 + bit_width 32 (last_limb (y ∷ ys)) in
    let (upper, lower) = IsWidth-limbs y ys h.1 t in
    let exponent : suc (length ys) * 32 + bit_width 32 (last_limb (y ∷ ys)) ≡ 32 + high =
      omega arith in
    rw (exponent, pow_add 2 32 high) (omega (arith, upper, h.0), omega (arith, lower))

IsWidth-canonical :
    (xs : List ℕ)
    → All IsLimb xs
    → IsTrimmed xs
    → 0 < magnitude xs
    → IsWidth
        (if is_empty xs then 0 else (length xs - 1) * 32 + bit_width 32 (last_limb xs))
        (magnitude xs)
unfolding is_empty
IsWidth-canonical [] h t p = absurd (unfold magnitude in omega arith)
IsWidth-canonical (x ∷ xs) h t p =
    let size : suc (length xs) - 1 ≡ length xs = omega arith in rw size (IsWidth-limbs x xs h t)

-- The bit length of a value that is not zero: its magnitude is below that power of two, and twice
-- the magnitude is not.
pub bit_length_lem :
    (a : Integer)
    → IsCanonical a
    → 0 < magnitude a.limbs
    → (magnitude a.limbs < 2 ^ bit_length a) × (2 ^ bit_length a ≤ 2 * magnitude a.limbs)
unfolding bit_length
bit_length_lem a c h = IsWidth-canonical a.limbs c.limbs_fit c.trimmed h
