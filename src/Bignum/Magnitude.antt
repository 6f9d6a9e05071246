-- ===== src/Bignum/Magnitude.antt =====
-- src/bignum.hpp: the numbers that limb vectors stand for, through the loops of addition,
-- subtraction and shift. No `uint64_t` sum of these loops wraps.
use genia_cpp.Base.{
  ℕ, zero, suc, ◌+◌, ◌-◌, ◌*◌, ◌/◌, ◌^◌, ◌≤◌, ◌<◌, ◌≡◌, refl, List, [], ◌∷◌, length, All, arith,
  ltb, if◌then◌else◌,
}
use genia_cpp.Bignum.Limbs.{
  base, u64, IsLimb, magnitude, head_limb, tail_limbs, keep_limb, pop_zeros, add_limbs, sub_limbs,
  shift_limbs,
}

-- No high zero limb.
abbrev pub IsTrimmed : List ℕ → Type 0
IsTrimmed [] = Unit {0}
IsTrimmed (x ∷ []) = 0 < x
IsTrimmed (x ∷ y ∷ ys) = IsTrimmed (y ∷ ys)

pub magnitude_split : (xs : List ℕ) → magnitude xs ≡ head_limb xs + base * magnitude (tail_limbs xs)
unfolding magnitude
magnitude_split [] = refl
magnitude_split (x ∷ xs) = refl

pub head-IsLimb : (xs : List ℕ) → All IsLimb xs → IsLimb (head_limb xs)
head-IsLimb [] h = omega arith
head-IsLimb (x ∷ xs) h = h.0

pub tail-All : (xs : List ℕ) → All IsLimb xs → All IsLimb (tail_limbs xs)
tail-All [] h = h
tail-All (x ∷ xs) h = h.1

pub length-tail : (xs : List ℕ) → length (tail_limbs xs) ≡ length xs - 1
length-tail [] = omega arith
length-tail (x ∷ xs) = omega arith

magnitude-keep_limb : (x : ℕ) (xs : List ℕ) → magnitude (keep_limb x xs) ≡ x + base * magnitude xs
unfolding magnitude
magnitude-keep_limb x [] = ground arith
magnitude-keep_limb x (y ∷ ys) = refl

pub magnitude-pop_zeros : (xs : List ℕ) → magnitude (pop_zeros xs) ≡ magnitude xs
unfolding pop_zeros magnitude
magnitude-pop_zeros [] = refl
magnitude-pop_zeros (x ∷ xs) =
    omega (arith, magnitude-keep_limb x (pop_zeros xs), magnitude-pop_zeros xs)

keep_limb-IsTrimmed : (x : ℕ) (xs : List ℕ) → IsTrimmed xs → IsTrimmed (keep_limb x xs)
keep_limb-IsTrimmed x [] h = ground arith
keep_limb-IsTrimmed x (y ∷ ys) h = h

pub pop_zeros-IsTrimmed : (xs : List ℕ) → IsTrimmed (pop_zeros xs)
unfolding pop_zeros
pop_zeros-IsTrimmed [] = tt
pop_zeros-IsTrimmed (x ∷ xs) = keep_limb-IsTrimmed x (pop_zeros xs) (pop_zeros-IsTrimmed xs)

keep_limb-All : (x : ℕ) (xs : List ℕ) → IsLimb x → All IsLimb xs → All IsLimb (keep_limb x xs)
keep_limb-All x [] h hs = ground arith
keep_limb-All x (y ∷ ys) h hs = (h, hs)

pub pop_zeros-All : (xs : List ℕ) → All IsLimb xs → All IsLimb (pop_zeros xs)
unfolding pop_zeros
pop_zeros-All [] h = h
pop_zeros-All (x ∷ xs) h = keep_limb-All x (pop_zeros xs) h.0 (pop_zeros-All xs h.1)

length-keep_limb : (x : ℕ) (xs : List ℕ) → length (keep_limb x xs) ≤ suc (length xs)
length-keep_limb x [] = ground arith
length-keep_limb x (y ∷ ys) = omega arith

pub length-pop_zeros : (xs : List ℕ) → length (pop_zeros xs) ≤ length xs
unfolding pop_zeros
length-pop_zeros [] = omega arith
length-pop_zeros (x ∷ xs) = omega (arith, length-keep_limb x (pop_zeros xs), length-pop_zeros xs)

-- Addition.
pub add_limbs-All : (n c : ℕ) (a b : List ℕ) → All IsLimb (add_limbs n c a b)
unfolding add_limbs
add_limbs-All zero c a b = tt
add_limbs-All (suc n) c a b = (omega arith, add_limbs-All n _ (tail_limbs a) (tail_limbs b))

empty_of_length : (xs : List ℕ) → length xs ≤ 0 → magnitude xs ≡ 0
unfolding magnitude
empty_of_length [] h = refl
empty_of_length (x ∷ xs) h = absurd (omega arith)

pub magnitude-add_limbs :
    (n c : ℕ) (a b : List ℕ)
    → All IsLimb a
    → All IsLimb b
    → length a ≤ n
    → length b ≤ n
    → c ≤ 1
    → magnitude (add_limbs (suc n) c a b) ≡ magnitude a + magnitude b + c
unfolding add_limbs magnitude
magnitude-add_limbs zero c a b ha hb la lb hc =
    omega (arith, empty_of_length a la, empty_of_length b lb, magnitude_split a, magnitude_split b)
magnitude-add_limbs (suc n) c a b ha hb la lb hc =
    let sum : ℕ = u64 (head_limb a + head_limb b + c) in
    let small : head_limb a + head_limb b + c < 2 ^ 64 =
      omega (arith, head-IsLimb a ha, head-IsLimb b hb) in
    let rest =
      magnitude-add_limbs n (sum / base) (tail_limbs a) (tail_limbs b) (tail-All a ha)
        (tail-All b hb) (omega (arith, length-tail a)) (omega (arith, length-tail b))
        (omega (arith, head-IsLimb a ha, head-IsLimb b hb)) in
    omega (arith, rest, small, magnitude_split a, magnitude_split b)

-- Subtraction, of a number that is not larger.
pub sub_limbs-All :
    (c : ℕ) (a b : List ℕ) → All IsLimb a → All IsLimb b → c ≤ 1 → All IsLimb (sub_limbs c a b)
unfolding sub_limbs
sub_limbs-All c [] b ha hb hc = tt
sub_limbs-All c (x ∷ a) b ha hb hc = (
  ground (arith, head-IsLimb b hb),
  sub_limbs-All (if ltb x (head_limb b + c) then 1 else 0) a (tail_limbs b) ha.1 (tail-All b hb)
      (ground arith),
)

pub magnitude-sub_limbs :
    (c : ℕ) (a b : List ℕ)
    → All IsLimb a
    → All IsLimb b
    → c ≤ 1
    → magnitude b + c ≤ magnitude a
    → magnitude (sub_limbs c a b) + magnitude b + c ≡ magnitude a
unfolding sub_limbs magnitude
magnitude-sub_limbs c [] b ha hb hc h = omega arith
magnitude-sub_limbs c (x ∷ a) b ha hb hc h = ground (
  arith,
  head-IsLimb b hb,
  magnitude_split b,
  magnitude-sub_limbs 0 a (tail_limbs b) ha.1 (tail-All b hb),
  magnitude-sub_limbs 1 a (tail_limbs b) ha.1 (tail-All b hb),
)

-- Shift by one bit.
pub shift_limbs-All : (c : ℕ) (a : List ℕ) → c ≤ 1 → All IsLimb a → All IsLimb (shift_limbs c a)
unfolding shift_limbs
shift_limbs-All c [] hc h = omega arith
shift_limbs-All c (x ∷ xs) hc h =
    (omega arith, shift_limbs-All (x / 2 ^ 31) xs (omega (arith, h.0)) h.1)

pub magnitude-shift_limbs :
    (c : ℕ) (a : List ℕ) → c ≤ 1 → All IsLimb a → magnitude (shift_limbs c a) ≡ 2 * magnitude a + c
unfolding shift_limbs magnitude
magnitude-shift_limbs c [] hc h = omega arith
magnitude-shift_limbs c (x ∷ xs) hc h =
    omega (arith, h.0, magnitude-shift_limbs (x / 2 ^ 31) xs (omega (arith, h.0)) h.1)
