-- ===== src/Json/Bounds.antt =====
-- src/json.hpp, `safe_integer`: the integers that are exchanged.
use genia_cpp.Base.{◌≡◌, ◌↔◌, refl, true, not, ◌&&◌, arith}
use genia_cpp.Base.Int.{ℤ, pos, negsuc, ◌≤ℤ◌}
use genia_cpp.Bignum.{Integer, from_u64, negate, is_zero, is_empty}
use genia_cpp.Bignum.Limbs.{magnitude}
use genia_cpp.Bignum.Canonical.{IsCanonical, from_u64-IsCanonical, negate-IsCanonical}
use genia_cpp.Bignum.Signed.{to_ℤ, compare_ℤ, compare_integer-to_ℤ}
use genia_cpp.Numbers.Float64.{is_above, is_below}
use genia_cpp.Json.Numbers.{safe_bound, safe_integer}

bound_value : to_ℤ safe_bound ≡ pos 9007199254740991
unfolding to_ℤ from_u64 magnitude
bound_value = refl

negated_bound_value : to_ℤ (negate safe_bound) ≡ negsuc 9007199254740990
unfolding to_ℤ from_u64 negate magnitude is_zero is_empty
negated_bound_value = refl

within :
    (x : ℤ)
    → ((not (is_above (compare_ℤ x (pos 9007199254740991)))
          && not (is_below (compare_ℤ x (negsuc 9007199254740990))))
        ≡ true)
      ↔ (negsuc 9007199254740990 ≤ℤ x) × (x ≤ℤ pos 9007199254740991)
within (pos n) = ground arith
within (negsuc n) = ground arith

-- A canonical integer is safe exactly from -(2^53 - 1) to 2^53 - 1.
pub safe_integer_iff :
    (n : Integer)
    → IsCanonical n
    → (safe_integer n ≡ true)
      ↔ (negsuc 9007199254740990 ≤ℤ to_ℤ n) × (to_ℤ n ≤ℤ pos 9007199254740991)
unfolding safe_integer
safe_integer_iff n c =
    let bound : IsCanonical safe_bound = from_u64-IsCanonical 9007199254740991 (omega arith) in
    rw
      (
        compare_integer-to_ℤ n safe_bound c bound,
        compare_integer-to_ℤ n (negate safe_bound) c (negate-IsCanonical safe_bound bound),
        bound_value,
        negated_bound_value,
      )
      (within (to_ℤ n))
