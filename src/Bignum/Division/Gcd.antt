-- ===== src/Bignum/Division/Gcd.antt =====
-- src/bignum.hpp, `gcd`: Euclid's loop ends and gives the greatest common divisor.
use genia_cpp.Base.{
  ℕ, zero, suc, ◌+◌, ◌-◌, ◌*◌, ◌<◌, ◌≡◌, refl, sym, ap, subst, Bool, true, false, arith, ◌==◌,
  if◌then◌else◌, inl, inr, Bool-cases,
}
use genia_cpp.Bignum.{Integer, zero_integer, normalize, negate}
use genia_cpp.Bignum.Limbs.{magnitude}
use genia_cpp.Bignum.Canonical.{
  IsCanonical, is_zero_lem, magnitude-normalize, positive-normalize, normalize-IsCanonical,
  zero-IsCanonical, negate-IsCanonical, magnitude-negate,
}
use genia_cpp.Bignum.Division.{
  divmod_magnitude, floor_sign, floor_remainder, value_or, gcd_loop, gcd,
}
use genia_cpp.Bignum.Division.Quotient.{IsDivMod, divmod_magnitude-IsDivMod}
use genia_cpp.Bignum.Signed.{positive-negate}
use mathlib.Core.Path.{subst₂}
use native.Mathlib.Nat.{mul-sub}

abbrev pub Divides : ℕ → ℕ → Type 0
Divides d n = (k : ℕ) × (n ≡ d * k)

-- `g` divides both, and every common divisor divides `g`.
pub record IsGcd (a b g : ℕ) : Type 0 where
  pub divides_left : Divides g a
  pub divides_right : Divides g b
  pub greatest : (d : ℕ) → Divides d a → Divides d b → Divides d g

-- One round on positive values.
record Round (a b r : Integer) : Type 0 where
  quotient : ℕ
  canonical : IsCanonical r
  is_positive : r.positive ≡ true
  below : magnitude r.limbs < magnitude b.limbs
  value : magnitude a.limbs ≡ quotient * magnitude b.limbs + magnitude r.limbs

module _ (a b : Integer) (ca : IsCanonical a) (cb : IsCanonical b) (pa : a.positive ≡ true)
    (pb : b.positive ≡ true) (nonzero : 0 < magnitude b.limbs) where
  division : IsDivMod a b (divmod_magnitude a b)
  division = divmod_magnitude-IsDivMod a b ca cb nonzero

  abbrev truncated : Integer
  truncated = normalize (record (divmod_magnitude a b).1 { positive = a.positive })

  floor_sign_positive : floor_sign a b truncated ≡ truncated
  unfolding floor_sign
  floor_sign_positive = rw (pa, pb) (ground arith)

  Round-truncated : Round a b truncated
  Round-truncated = record {
    quotient = magnitude (divmod_magnitude a b).0.limbs;
    canonical = normalize-IsCanonical _ division.remainder_canonical.limbs_fit;
    is_positive = rw positive-normalize (rw pa (ground arith));
    below = rw magnitude-normalize division.below;
    value = rw magnitude-normalize division.value;
  }

  gcd-Round : Round a b (value_or (floor_remainder a b) zero_integer)
  unfolding floor_remainder
  gcd-Round = elim (Bool-cases (magnitude a.limbs == 0)) [
    | inl e ↦
        rw (is_zero_lem b cb, is_zero_lem a ca, e, divisor)
          (record {
            quotient = 0;
            canonical = zero-IsCanonical;
            is_positive = refl;
            below = unfold magnitude in nonzero;
            value = unfold magnitude in ground arith;
          })
    | inr e ↦
        rw (is_zero_lem b cb, is_zero_lem a ca, e, divisor, floor_sign_positive) Round-truncated
  ]
    where
      divisor : (magnitude b.limbs == 0) ≡ false
      divisor = ground arith

Divides-sum : (d q n r : ℕ) → Divides d n → Divides d r → Divides d (q * n + r)
Divides-sum d q n r (k, e) (l, f) = (q * k + l, omega (arith, ap (λ (t : ℕ). q * t) e, f))

Divides-rest : (d q n r : ℕ) → Divides d n → Divides d (q * n + r) → Divides d r
Divides-rest d q n r (k, e) (l, f) =
    (l - q * k, rw mul-sub (omega (arith, ap (λ (t : ℕ). q * t) e, f)))

-- Euclid's step keeps the greatest common divisor.
IsGcd-step : (a b r q g : ℕ) → a ≡ q * b + r → IsGcd b r g → IsGcd a b g
IsGcd-step a b r q g e h = record {
  divides_left = subst (Divides g) (sym e) (Divides-sum g q b r h.divides_left h.divides_right);
  divides_right = h.divides_left;
  greatest = λ d da db. h.greatest d db (Divides-rest d q b r db (subst (Divides d) e da));
}

IsGcd-base : (a : ℕ) → IsGcd a 0 a
IsGcd-base a = record {
  divides_left = (1, omega arith);
  divides_right = (0, omega arith);
  greatest = λ d da db. da;
}

gcd_loop_lem :
    (fuel : ℕ) (a b : Integer)
    → IsCanonical a
    → IsCanonical b
    → a.positive ≡ true
    → b.positive ≡ true
    → magnitude b.limbs < fuel
    → IsGcd (magnitude a.limbs) (magnitude b.limbs) (magnitude (gcd_loop fuel a b).limbs)
      × IsCanonical (gcd_loop fuel a b)
      × ((gcd_loop fuel a b).positive ≡ true)
unfolding gcd_loop
gcd_loop_lem zero a b ca cb pa pb h = absurd (omega arith)
gcd_loop_lem (suc fuel) a b ca cb pa pb h = elim (Bool-cases (magnitude b.limbs == 0)) [
  | inl e ↦
      rw (is_zero_lem b cb, e)
        (
          subst (λ n. IsGcd (magnitude a.limbs) n (magnitude a.limbs)) (sym (ground arith))
              (IsGcd-base _),
          ca,
          pa,
        )
  | inr e ↦
      let round = gcd-Round a b ca cb pa pb (ground arith) in
      let next = value_or (floor_remainder a b) zero_integer in
      let (h', c', p') =
        gcd_loop_lem fuel b next cb round.canonical pb round.is_positive
          (omega (arith, round.below)) in
      rw (is_zero_lem b cb, e) (IsGcd-step _ _ _ round.quotient _ round.value h', c', p')
]

-- `a` or `-a`, whichever is not negative.
positive_part :
    (s : Bool) (a : Integer)
    → IsCanonical a
    → a.positive ≡ s
    → IsCanonical (if s then a else negate a)
      × ((if s then a else negate a).positive ≡ true)
      × (magnitude (if s then a else negate a).limbs ≡ magnitude a.limbs)
positive_part true a c e = (c, e, refl)
positive_part false a c e = (
  negate-IsCanonical a c,
  rw (positive-negate a c) (ground (arith, c.zero_positive)),
  magnitude-negate a,
)

-- `gcd` of canonical values is canonical and not negative, and its magnitude is the greatest common
-- divisor of theirs. The fuel of the loop is enough.
pub gcd_lem :
    (a b : Integer)
    → IsCanonical a
    → IsCanonical b
    → IsGcd (magnitude a.limbs) (magnitude b.limbs) (magnitude (gcd a b).limbs)
      × IsCanonical (gcd a b)
      × ((gcd a b).positive ≡ true)
unfolding gcd
gcd_lem a b ca cb =
    let (ca', pa', ma) = positive_part a.positive a ca refl in
    let (cb', pb', mb) = positive_part b.positive b cb refl in
    let (h, c, p) = gcd_loop_lem _ _ _ ca' cb' pa' pb' (omega arith) in
    (subst₂ (λ m n. IsGcd m n (magnitude (gcd a b).limbs)) ma mb h, c, p)
