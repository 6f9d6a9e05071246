-- ===== src/Bignum/Division/Quotient.antt =====
-- src/bignum.hpp, `divmod_magnitude`: the bit-by-bit loop computes quotient and remainder.
use genia_cpp.Base.{
  ℕ, zero, suc, ◌+◌, ◌-◌, ◌*◌, ◌/◌, ◌%◌, ◌^◌, ◌≤◌, ◌<◌, ◌≡◌, refl, ap, ◌∙◌, true, List, [], ◌∷◌,
  All, arith, ◌==◌, inl, inr, Bool-cases,
}
use genia_cpp.Bignum.{Integer, normalize, from_u64, absolute, sub_magnitude, shift_left_one_bit}
use genia_cpp.Bignum.Limbs.{IsLimb, magnitude}
use genia_cpp.Bignum.Canonical.{
  IsCanonical, magnitude-normalize, positive-normalize, normalize-IsCanonical, zero-IsCanonical,
  absolute-IsCanonical, from_u64-IsCanonical, magnitude-from_u64, add_magnitude-IsCanonical,
  magnitude-add_magnitude, sub_magnitude-IsCanonical, magnitude-sub_magnitude,
  shift_left_one_bit-IsCanonical, magnitude-shift_left_one_bit,
}
use genia_cpp.Bignum.Signed.{at_least_lem}
use genia_cpp.Bignum.Division.{push_bit, divide_bit, divide_limb, divide_limbs, divmod_magnitude}
use native.Mathlib.Nat.{
  div-add-mod, mod-lt, mod-eq_of_lt, add-mul-mod_self_left, one-le-pow, pow-suc, mod-one,
  mul-le-mul_right,
}

-- A remainder is canonical and below the divisor.
pub record IsRemainder (divisor current : Integer) : Type 0 where
  pub canonical : IsCanonical current
  pub below : magnitude current.limbs < magnitude divisor.limbs

push_bit-IsCanonical : (c : Integer) (b : ℕ) → IsCanonical c → IsCanonical (push_bit c b)
unfolding push_bit
push_bit-IsCanonical c b h = elim (Bool-cases (b == 0)) [
  | inl e ↦ rw e (shift_left_one_bit-IsCanonical c h)
  | inr e ↦ rw e (add_magnitude-IsCanonical _ _)
]

magnitude-push_bit :
    (c : Integer) (b : ℕ)
    → b ≤ 1
    → IsCanonical c
    → magnitude (push_bit c b).limbs ≡ 2 * magnitude c.limbs + b
unfolding push_bit
magnitude-push_bit c b hb h = ground (
  arith,
  magnitude-shift_left_one_bit c h,
  magnitude-add_magnitude (shift_left_one_bit c) (from_u64 1) (shift_left_one_bit-IsCanonical c h)
      (from_u64-IsCanonical 1 (omega arith)),
  magnitude-from_u64 1 (omega arith),
)

-- One round: the digit is 1 where the divisor is taken off.
record BitRound (divisor : Integer) (weight bit : ℕ) (before after : Integer × ℕ) : Type 0 where
  digit : ℕ
  digit_le : digit ≤ 1
  remainder : IsRemainder divisor after.0
  added : after.1 ≡ before.1 + digit * weight
  value :
      2 * magnitude before.0.limbs + bit ≡ digit * magnitude divisor.limbs + magnitude after.0.limbs

divide_bit_lem :
    (d : Integer) (weight bit : ℕ) (c : Integer) (q : ℕ)
    → IsCanonical d
    → IsRemainder d c
    → bit ≤ 1
    → BitRound d weight bit (c, q) (divide_bit d weight bit (c, q))
unfolding divide_bit
divide_bit_lem d weight bit c q hd hc hb =
    elim (at_least_lem (push_bit c bit) (absolute d) pushed (absolute-IsCanonical d hd)) [
      | inl (e, le) ↦ rw e (record {
        digit = 1;
        digit_le = omega arith;
        remainder = record {
          canonical = sub_magnitude-IsCanonical _ _ pushed (absolute-IsCanonical d hd);
          below = omega (arith, took le, same_size, size, hc.below, le);
        };
        added = omega arith;
        value = omega (arith, took le, same_size, size, le);
      })
      | inr (e, lt) ↦ rw e (record {
        digit = 0;
        digit_le = omega arith;
        remainder = record { canonical = pushed; below = omega (arith, same_size, lt) };
        added = omega arith;
        value = omega (arith, size);
      })
    ]
  where
    pushed : IsCanonical (push_bit c bit)
    pushed = push_bit-IsCanonical c bit hc.canonical

    size : magnitude (push_bit c bit).limbs ≡ 2 * magnitude c.limbs + bit
    size = magnitude-push_bit c bit hb hc.canonical

    same_size : magnitude (absolute d).limbs ≡ magnitude d.limbs
    same_size = unfold absolute in refl

    took :
        magnitude (absolute d).limbs ≤ magnitude (push_bit c bit).limbs
        → magnitude (sub_magnitude (push_bit c bit) (absolute d)).limbs
          ≡ magnitude (push_bit c bit).limbs - magnitude (absolute d).limbs
    took le = magnitude-sub_magnitude _ _ pushed (absolute-IsCanonical d hd) le

-- A number below twice `m` from its bit at `m` and the bits under it.
mod_split : (x m : ℕ) → 0 < m → x % (m * 2) ≡ x / m % 2 * m + x % m
mod_split x m h =
    ap (λ (t : ℕ). t % (m * 2)) whole
    ∙ add-mul-mod_self_left (x / m % 2 * m + x % m) (m * 2) (x / m / 2)
    ∙ mod-eq_of_lt (omega (arith, low, mod-lt x h))
  where
    whole : x ≡ x / m % 2 * m + x % m + m * 2 * (x / m / 2)
    whole = omega (arith, div-add-mod x m, ap (λ (t : ℕ). m * t) (div-add-mod (x / m) 2))

    low : x / m % 2 * m ≤ 1 * m
    low = mul-le-mul_right m (omega arith)

record LimbRounds (divisor : Integer) (bits limb : ℕ) (before after : Integer × ℕ) : Type 0 where
  digit : ℕ
  digit_lt : digit < 2 ^ bits
  remainder : IsRemainder divisor after.0
  added : after.1 ≡ before.1 + digit
  value :
      magnitude before.0.limbs * 2 ^ bits + limb % 2 ^ bits
      ≡ digit * magnitude divisor.limbs + magnitude after.0.limbs

divide_limb_lem :
    (d : Integer) (bits limb : ℕ) (c : Integer) (q : ℕ)
    → IsCanonical d
    → IsRemainder d c
    → LimbRounds d bits limb (c, q) (divide_limb d bits limb (c, q))
unfolding divide_limb
divide_limb_lem d zero limb c q hd hc = record {
  digit = 0;
  digit_lt = omega arith;
  remainder = hc;
  added = omega arith;
  value = omega (arith, mod-one limb);
}
divide_limb_lem d (suc k) limb c q hd hc =
    let round = divide_bit_lem d (2 ^ k) (limb / 2 ^ k % 2) c q hd hc (omega arith) in
    let next = divide_bit d (2 ^ k) (limb / 2 ^ k % 2) (c, q) in
    let rest = divide_limb_lem d k limb next.0 next.1 hd round.remainder in
    let top : round.digit * 2 ^ k ≤ 1 * 2 ^ k = mul-le-mul_right (2 ^ k) round.digit_le in
    record {
      digit = round.digit * 2 ^ k + rest.digit;
      digit_lt = omega (arith, pow-suc 2 k, top, rest.digit_lt);
      remainder = rest.remainder;
      added = rest.added ∙ omega (arith, round.added);
      value = omega (
        arith,
        rw (← pow-suc 2 k) at (mod_split limb (2 ^ k) (one-le-pow k 2 (omega arith))),
        pow-suc 2 k,
        ap (λ (t : ℕ). t * magnitude c.limbs) (pow-suc 2 k),
        ap (λ (t : ℕ). t * 2 ^ k) round.value,
        rest.value,
      );
    }

-- The loop over the limbs: the quotient limbs and the remainder of what was read.
record AllRounds (divisor : Integer) (xs : List ℕ) (after : Integer × List ℕ) : Type 0 where
  remainder : IsRemainder divisor after.0
  limbs_fit : All IsLimb after.1
  value : magnitude xs ≡ magnitude after.1 * magnitude divisor.limbs + magnitude after.0.limbs

divide_limbs_lem :
    (d : Integer) (xs : List ℕ)
    → IsCanonical d
    → 0 < magnitude d.limbs
    → All IsLimb xs
    → AllRounds d xs (divide_limbs d xs)
unfolding divide_limbs magnitude
divide_limbs_lem d [] hd h hx = record {
  remainder = record { canonical = zero-IsCanonical; below = h };
  limbs_fit = tt;
  value = omega arith;
}
divide_limbs_lem d (x ∷ xs) hd h hx =
    let before = divide_limbs d xs in
    let rest = divide_limbs_lem d xs hd h hx.1 in
    let round = divide_limb_lem d 32 x before.0 0 hd rest.remainder in
    let low : x % 2 ^ 32 ≡ x = mod-eq_of_lt hx.0 in
    record {
      remainder = round.remainder;
      limbs_fit = (omega (arith, round.added, round.digit_lt), rest.limbs_fit);
      value =
          omega (
            arith,
            ap (λ (t : ℕ). t * magnitude d.limbs) round.added,
            round.value,
            low,
            rest.value,
          );
    }

-- What `divmod_magnitude` returns: magnitudes with `dividend = quotient * divisor + remainder` and a
-- remainder below the divisor.
pub record IsDivMod (dividend divisor : Integer) (result : Integer × Integer) : Type 0 where
  pub quotient_canonical : IsCanonical result.0
  pub remainder_canonical : IsCanonical result.1
  pub positive : (result.0.positive ≡ true) × (result.1.positive ≡ true)
  pub below : magnitude result.1.limbs < magnitude divisor.limbs
  pub value :
      magnitude dividend.limbs
      ≡ magnitude result.0.limbs * magnitude divisor.limbs + magnitude result.1.limbs

normalize_positive : (a : Integer) → a.positive ≡ true → (normalize a).positive ≡ true
normalize_positive a h = rw (positive-normalize a, h) (ground arith)

-- Division of a canonical value by one that is not zero.
pub divmod_magnitude-IsDivMod :
    (a b : Integer)
    → IsCanonical a
    → IsCanonical b
    → 0 < magnitude b.limbs
    → IsDivMod a b (divmod_magnitude a b)
unfolding divmod_magnitude
divmod_magnitude-IsDivMod a b ca cb h = elim (at_least_lem a b ca cb) [
  | inl (e, le) ↦
      let rounds = divide_limbs_lem b a.limbs cb h ca.limbs_fit in
      let all = divide_limbs b a.limbs in
      let rest = absolute-IsCanonical all.0 rounds.remainder.canonical in
      rw e (record {
        quotient_canonical = normalize-IsCanonical _ rounds.limbs_fit;
        remainder_canonical = normalize-IsCanonical _ rest.limbs_fit;
        positive = (normalize_positive _ refl, normalize_positive _ (unfold absolute in refl));
        below = rw magnitude-normalize (unfold absolute in rounds.remainder.below);
        value =
            rw (magnitude-normalize (absolute all.0), magnitude-normalize)
              (unfold absolute in rounds.value);
      })
  | inr (e, lt) ↦ rw e (record {
    quotient_canonical = zero-IsCanonical;
    remainder_canonical = absolute-IsCanonical a ca;
    positive = (refl, unfold absolute in refl);
    below = unfold absolute in lt;
    value = unfold absolute magnitude in omega arith;
  })
]
