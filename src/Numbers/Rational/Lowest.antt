-- ===== src/Numbers/Rational/Lowest.antt =====
-- src/rational.hpp: `construct_rational` gives the fraction in lowest terms.
use genia_cpp.Base.{
  ℕ, zero, suc, ◌*◌, ◌<◌, ◌≡◌, refl, sym, ap, subst, ◌∙◌, Bool, true, false, not, arith, Option,
  none, some, inl, inr, Bool-cases, ◌==◌, if◌then◌else◌,
}
use genia_cpp.Base.Int.{pos, ◌*ℤ◌}
use genia_cpp.Bignum.{Integer, from_u64, same, negate, compare_integer}
use genia_cpp.Bignum.Limbs.{magnitude}
use genia_cpp.Bignum.Canonical.{
  IsCanonical, is_zero_lem, magnitude-negate, negate-IsCanonical, from_u64-IsCanonical,
}
use genia_cpp.Bignum.Signed.{signed, to_ℤ, positive-negate}
use genia_cpp.Bignum.Division.{gcd, exact_divide}
use genia_cpp.Bignum.Division.Exact.{ExactDivision, exact_divide_lem}
use genia_cpp.Bignum.Division.Gcd.{Divides, IsGcd, gcd_lem}
use genia_cpp.Values.Value.{Value}
use mathlib.Core.Path.{subst₂}
use native.Mathlib.Nat.{mul_comm, mul_assoc, mul-suc}
use genia_cpp.Numbers.Signs.{
  to_ℤ-mul_signed, mulℤ_comm, mulℤ_assoc, size_signed, negated_products, compare_equal,
}
use genia_cpp.Numbers.Fractions.{one, is_equal, exact_family_numerator_denominator}
use genia_cpp.Numbers.Rational.{collapsed, oriented, construct_rational}

-- A quotient by a divisor of the value.
record Quotient (a g q : Integer) : Type 0 where
  canonical : IsCanonical q
  value : to_ℤ q *ℤ to_ℤ g ≡ to_ℤ a

divided :
    (a g : Integer)
    → IsCanonical a
    → IsCanonical g
    → 0 < magnitude g.limbs
    → Divides (magnitude g.limbs) (magnitude a.limbs)
    → (q : Integer) × (exact_divide a g ≡ some q) × Quotient a g q
divided a g ca cg nonzero (k, e) =
    found (exact_divide a g) refl (exact_divide_lem a g ca cg nonzero)
  where
    found :
        (r : Option Integer)
        → exact_divide a g ≡ r
        → ExactDivision a g ca cg nonzero r
        → (q : Integer) × (exact_divide a g ≡ some q) × Quotient a g q
    found none h x = absurd (x k (omega (arith, e, mul_comm (magnitude g.limbs) k)))
    found (some q) h x = (q, h, record { canonical = x.0; value = x.1 })

Quotient-magnitude :
    (a g q : Integer) → Quotient a g q → magnitude q.limbs * magnitude g.limbs ≡ magnitude a.limbs
unfolding to_ℤ
Quotient-magnitude a g q h =
    size_signed (same q.positive g.positive) a.positive _ _ (sym (to_ℤ-mul_signed q g) ∙ h.value)

shuffle : (d k g : ℕ) → d * k * g ≡ d * g * k
shuffle d k g = mul_assoc d k g ∙ ap (λ t. d * t) (mul_comm k g) ∙ sym (mul_assoc d g k)

two_more : (g t : ℕ) → 0 < g → g ≡ g * suc (suc t) → ⊥
two_more g t h e = omega (arith, h, e, mul-suc g (suc t), mul-suc g t)

one_factor : (g t : ℕ) → 0 < g → g ≡ g * t → 1 ≡ t
one_factor g zero h e = absurd (omega (arith, h, e))
one_factor g (suc zero) h e = refl
one_factor g (suc (suc t)) h e = absurd (two_more g t h e)

-- Numbers times `g` whose greatest common divisor is `g` have none but 1.
lowest : (m n a b g : ℕ) → 0 < g → m * g ≡ a → n * g ≡ b → IsGcd a b g → IsGcd m n 1
lowest m n a b g nonzero ea eb h = record {
  divides_left = (m, omega arith);
  divides_right = (n, omega arith);
  greatest = λ d (k, em) (l, en).
      let (j, eg) =
        h.greatest (d * g) (k, sym ea ∙ ap (λ t. t * g) em ∙ shuffle d k g)
          (l, sym eb ∙ ap (λ t. t * g) en ∙ shuffle d l g) in
      (j, one_factor g (d * j) nonzero (eg ∙ ap (λ t. t * j) (mul_comm d g) ∙ mul_assoc g d j));
}

-- What stands for a fraction in lowest terms: an integer, or a rational with a denominator above 1.
abbrev pub IsLowest : Value → Type 0
IsLowest (Value.integer n) = IsCanonical n
IsLowest (Value.rational p q) =
    IsCanonical p
    × IsCanonical q
    × (q.positive ≡ true)
    × (1 < magnitude q.limbs)
    × IsGcd (magnitude p.limbs) (magnitude q.limbs) 1
IsLowest v = ⊥

-- A value is the fraction of two integers.
abbrev pub IsFraction : Integer → Integer → Value → Type 0
IsFraction n d v =
    to_ℤ (exact_family_numerator_denominator v).0 *ℤ to_ℤ d
    ≡ to_ℤ n *ℤ to_ℤ (exact_family_numerator_denominator v).1

one-IsCanonical : IsCanonical one
one-IsCanonical = from_u64-IsCanonical 1 (omega arith)

to_ℤ-one : to_ℤ one ≡ pos 1
unfolding to_ℤ from_u64 magnitude
to_ℤ-one = refl

is_one : (q : Integer) → q.positive ≡ true → magnitude q.limbs ≡ 1 → to_ℤ q ≡ pos 1
unfolding to_ℤ
is_one q s e = ap (λ b. signed b (magnitude q.limbs)) s ∙ ap pos e

false-true : false ≡ true → ⊥
false-true e = ground (arith, e)

above_one :
    (q : Integer)
    → IsCanonical q
    → q.positive ≡ true
    → 0 < magnitude q.limbs
    → is_equal (compare_integer q one) ≡ false
    → 1 < magnitude q.limbs
above_one q cq pq nonzero f = elim (Bool-cases (magnitude q.limbs == 1)) [
  | inl e ↦ absurd (
      false-true (
        sym f
        ∙ (compare_equal q one cq one-IsCanonical).1
            (is_one q pq (ground (arith, e)) ∙ sym to_ℤ-one)))
  | inr e ↦ ground (arith, e, nonzero)
]

divisor_positive : (g n : ℕ) → 0 < n → Divides g n → 0 < g
divisor_positive zero n h (k, e) = absurd (omega (arith, h, e))
divisor_positive (suc g) n h x = omega arith

not_zero : (n : ℕ) → 0 < n → (n == 0) ≡ false
not_zero n h = ground arith

-- The quotients by a common divisor are in the same ratio.
cross :
    (n d g p q : Integer) → Quotient n g p → Quotient d g q → to_ℤ p *ℤ to_ℤ d ≡ to_ℤ n *ℤ to_ℤ q
cross n d g p q hp hq =
    ap (λ z. to_ℤ p *ℤ z) (sym hq.value ∙ mulℤ_comm (to_ℤ q) (to_ℤ g))
    ∙ sym (mulℤ_assoc (to_ℤ p) (to_ℤ g) (to_ℤ q))
    ∙ ap (λ z. z *ℤ to_ℤ q) hp.value

collapsed-IsFraction :
    (n d p q : Integer)
    → IsCanonical p
    → IsCanonical q
    → q.positive ≡ true
    → 0 < magnitude q.limbs
    → IsGcd (magnitude p.limbs) (magnitude q.limbs) 1
    → to_ℤ p *ℤ to_ℤ d ≡ to_ℤ n *ℤ to_ℤ q
    → IsLowest (collapsed p q) × IsFraction n d (collapsed p q)
unfolding exact_family_numerator_denominator
collapsed-IsFraction n d p q cp cq pq nonzero g e =
    elim (Bool-cases (is_equal (compare_integer q one))) [
      | inl f ↦ rw f (cp, e ∙ ap (λ z. to_ℤ n *ℤ z) ((compare_equal q one cq one-IsCanonical).0 f))
      | inr f ↦ rw f ((cp, cq, pq, above_one q cq pq nonzero f, g), e)
    ]

if_property :
    (P : Value → Type 0) (b : Bool) (x y : Value)
    → (b ≡ true → P x)
    → (b ≡ false → P y)
    → P (if b then x else y)
if_property P true x y h k = h refl
if_property P false x y h k = k refl

turned : (n : ℕ) (s : Bool) → 0 < n → s ≡ false → (if n == 0 then s else not s) ≡ true
turned n s h e = ground arith

oriented-IsFraction :
    (n d p q : Integer)
    → IsCanonical p
    → IsCanonical q
    → 0 < magnitude q.limbs
    → IsGcd (magnitude p.limbs) (magnitude q.limbs) 1
    → to_ℤ p *ℤ to_ℤ d ≡ to_ℤ n *ℤ to_ℤ q
    → IsLowest (oriented p q) × IsFraction n d (oriented p q)
oriented-IsFraction n d p q cp cq nonzero g e =
    if_property (λ v. IsLowest v × IsFraction n d v) q.positive (collapsed p q)
      (collapsed (negate p) (negate q)) (λ s. collapsed-IsFraction n d p q cp cq s nonzero g e)
      (λ s.
        collapsed-IsFraction n d (negate p) (negate q) (negate-IsCanonical p cp)
          (negate-IsCanonical q cq)
          (positive-negate q cq ∙ turned (magnitude q.limbs) q.positive nonzero s)
          (subst (λ m. 0 < m) (sym (magnitude-negate q)) nonzero)
          (subst₂ (λ a b. IsGcd a b 1) (sym (magnitude-negate p)) (sym (magnitude-negate q)) g)
          (negated_products p d n q cp cq e))

-- `construct_rational` of canonical values with a denominator that is not zero has a result, which is
-- their fraction in lowest terms: an integer, or a rational whose denominator is above 1 and has no
-- common divisor with the numerator.
pub construct_rational_lem :
    (n d : Integer)
    → IsCanonical n
    → IsCanonical d
    → 0 < magnitude d.limbs
    → (v : Value) × (construct_rational n d ≡ some v) × IsLowest v × IsFraction n d v
unfolding construct_rational
construct_rational_lem n d cn cd nonzero =
    let (h, cg, pg) = gcd_lem n d cn cd in
    let above =
      divisor_positive (magnitude (gcd n d).limbs) (magnitude d.limbs) nonzero h.divides_right in
    let (p, ep, qp) = divided n (gcd n d) cn cg above h.divides_left in
    let (q, eq, qq) = divided d (gcd n d) cd cg above h.divides_right in
    let mp = Quotient-magnitude n (gcd n d) p qp in
    let mq = Quotient-magnitude d (gcd n d) q qq in
    let result =
      oriented-IsFraction n d p q qp.canonical qq.canonical
        (divisor_positive (magnitude q.limbs) (magnitude d.limbs) nonzero
          (magnitude (gcd n d).limbs, sym mq))
        (lowest (magnitude p.limbs) (magnitude q.limbs) (magnitude n.limbs) (magnitude d.limbs)
          (magnitude (gcd n d).limbs) above mp mq h)
        (cross n d (gcd n d) p q qp qq) in
    (
      oriented p q,
      rw (is_zero_lem d cd, not_zero (magnitude d.limbs) nonzero, ep, eq) refl,
      result.0,
      result.1,
    )
