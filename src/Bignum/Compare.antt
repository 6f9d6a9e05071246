-- ===== src/Bignum/Compare.antt =====
-- src/bignum.hpp, `compare_magnitude`: on vectors without high zeros it compares the numbers.
use genia_cpp.Base.{ℕ, ◌<◌, ◌≡◌, refl, List, [], ◌∷◌, length, All, arith, compare}
use genia_cpp.Bignum.{Integer, compare_magnitude}
use genia_cpp.Bignum.Limbs.{IsLimb, magnitude, compare_limbs}
use genia_cpp.Bignum.Magnitude.{IsTrimmed}
use genia_cpp.Bignum.Canonical.{IsCanonical, trimmed_pos}

tail-IsTrimmed : (x : ℕ) (xs : List ℕ) → IsTrimmed (x ∷ xs) → IsTrimmed xs
tail-IsTrimmed x [] h = tt
tail-IsTrimmed x (y ∷ ys) h = h

-- A longer trimmed vector is the larger number.
pub shorter_lt :
    (a b : List ℕ) → All IsLimb a → IsTrimmed b → length a < length b → magnitude a < magnitude b
unfolding magnitude
shorter_lt [] [] ha tb h = absurd (omega arith)
shorter_lt [] (y ∷ b) ha tb h = trimmed_pos y b tb
shorter_lt (x ∷ a) [] ha tb h = absurd (omega arith)
shorter_lt (x ∷ a) (y ∷ b) ha tb h =
    omega (arith, shorter_lt a b ha.1 (tail-IsTrimmed y b tb) (omega arith), ha.0)

pub compare_limbs_lem :
    (a b : List ℕ)
    → All IsLimb a
    → All IsLimb b
    → length a ≡ length b
    → compare_limbs a b ≡ compare (magnitude a) (magnitude b)
unfolding compare_limbs magnitude
compare_limbs_lem [] [] ha hb h = refl
compare_limbs_lem [] (y ∷ b) ha hb h = absurd (omega arith)
compare_limbs_lem (x ∷ a) [] ha hb h = absurd (omega arith)
compare_limbs_lem (x ∷ a) (y ∷ b) ha hb h =
    rw (compare_limbs_lem a b ha.1 hb.1 (omega arith)) (ground (arith, ha.0, hb.0))

pub compare_magnitude_lem :
    (a b : Integer)
    → IsCanonical a
    → IsCanonical b
    → compare_magnitude a b ≡ compare (magnitude a.limbs) (magnitude b.limbs)
unfolding compare_magnitude
compare_magnitude_lem a b na nb = ground (
  arith,
  compare_limbs_lem a.limbs b.limbs na.limbs_fit nb.limbs_fit,
  shorter_lt a.limbs b.limbs na.limbs_fit nb.trimmed,
  shorter_lt b.limbs a.limbs nb.limbs_fit na.trimmed,
)
