-- ===== src/Bignum.antt =====
-- src/bignum.hpp, class `Integer`: sign and magnitude, with the operations on signed values.
-- The loops over the limb vector are in Bignum/Limbs, and each is called here as its method calls it.
pub mod Limbs
pub mod Magnitude
pub mod Multiply
pub mod Canonical
pub mod Compare
pub mod Signed
pub mod Words
mod Tests
pub mod Division
pub mod Decimal
use genia_cpp.Base.{
  ℕ, zero, suc, ◌+◌, ◌-◌, ◌*◌, ◌/◌, ◌%◌, ◌<◌, Bool, true, false, not, Option, none, some, List, [],
  ◌∷◌, length, ltb, leb, ◌==◌, if◌then◌else◌, compare, Ordering, ◌&&◌, ◌||◌,
}
use Limbs.{
  base, magnitude, pop_zeros, add_limbs, sub_limbs, shift_limbs, mul_limb, mul_rows, zeros,
  compare_limbs, size_max, last_limb,
}

-- `limbs_` (least significant first) and `positive_`.
pub record Integer : Type 0 where
  pub limbs : List ℕ
  pub positive : Bool

-- `Integer()`.
abbrev pub zero_integer : Integer
zero_integer = record { limbs = []; positive = true }

unfoldable pub is_empty {ℓ} : {A : Type ℓ} → List A → Bool
is_empty [] = true
is_empty (x ∷ xs) = false

unfoldable pub is_zero : Integer → Bool
is_zero a = is_empty a.limbs

-- `normalize`: high zero limbs are popped, and zero takes the positive sign.
unfoldable pub normalize : Integer → Integer
normalize a =
    let limbs = pop_zeros a.limbs in
    record { limbs = limbs; positive = if is_empty limbs then true else a.positive }

unfoldable pub from_u64 : ℕ → Integer
from_u64 value =
    if value == 0
    then zero_integer
    else if (value / base) == 0
    then record { limbs = (value % base) ∷ []; positive = true }
    else record { limbs = (value % base) ∷ (value / base) ∷ []; positive = true }

unfoldable pub absolute : Integer → Integer
absolute a = record a { positive = true }

unfoldable pub negate : Integer → Integer
negate a = if is_zero a then a else record a { positive = not a.positive }

unfoldable pub to_u64 : Integer → Option ℕ
to_u64 a =
    if not a.positive || ltb 2 (length a.limbs)
    then none
    else elim a.limbs [ [] ↦ some 0 | x ∷ [] ↦ some x | x ∷ y ∷ _ ↦ some (x + y * base) ]

-- The number of bits below and with the highest one: 32 - `__builtin_clz`, for a word that is not 0.
unfoldable pub bit_width : ℕ → ℕ → ℕ
bit_width zero x = 0
bit_width (suc k) x = let rest = bit_width k (x / 2) in if x == 0 then 0 else suc rest

unfoldable pub bit_length : Integer → ℕ
bit_length a =
    if is_empty a.limbs then 0 else (length a.limbs - 1) * 32 + bit_width 32 (last_limb a.limbs)

unfoldable pub compare_magnitude : Integer → Integer → Ordering
compare_magnitude a b =
    if length a.limbs == length b.limbs
    then compare_limbs a.limbs b.limbs
    else if ltb (length a.limbs) (length b.limbs)
    then Ordering.lt
    else Ordering.gt

abbrev pub flip_ordering : Ordering → Ordering
flip_ordering Ordering.lt = Ordering.gt
flip_ordering Ordering.eq = Ordering.eq
flip_ordering Ordering.gt = Ordering.lt

abbrev pub same : Bool → Bool → Bool
same true b = b
same false b = not b

-- `Integer::compare`: -1, 0 and 1 are `lt`, `eq` and `gt`.
unfoldable pub compare_integer : Integer → Integer → Ordering
compare_integer a b =
    if is_zero a && is_zero b
    then Ordering.eq
    else if not (same a.positive b.positive)
    then (if is_zero a && not b.positive
        then Ordering.gt
        else if is_zero b && not a.positive
        then Ordering.lt
        else if a.positive
        then Ordering.gt
        else Ordering.lt)
    else if a.positive
    then compare_magnitude a b
    else flip_ordering (compare_magnitude a b)

-- `a >= b` on the int that `compare_magnitude` returns.
abbrev pub at_least : Ordering → Bool
at_least Ordering.lt = false
at_least Ordering.eq = true
at_least Ordering.gt = true

-- One limb more than the longer operand is always enough.
unfoldable pub add_magnitude : Integer → Integer → Integer
add_magnitude a b = normalize (record {
  limbs = add_limbs (suc (size_max a.limbs b.limbs)) 0 a.limbs b.limbs;
  positive = true;
})

unfoldable pub sub_magnitude : Integer → Integer → Integer
sub_magnitude a b = normalize (record { limbs = sub_limbs 0 a.limbs b.limbs; positive = true })

unfoldable pub shift_left_one_bit : Integer → Integer
shift_left_one_bit a = normalize (record { limbs = shift_limbs 0 a.limbs; positive = true })

unfoldable pub mul_u32 : Integer → ℕ → Integer
mul_u32 a value =
    if is_zero a || value == 0
    then zero_integer
    else normalize (record { limbs = mul_limb value 0 a.limbs; positive = a.positive })

unfoldable pub add : Integer → Integer → Integer
add a b =
    if same a.positive b.positive
    then normalize (record (add_magnitude a b) { positive = a.positive })
    else if at_least (compare_magnitude a b)
    then normalize (record (sub_magnitude a b) { positive = a.positive })
    else normalize (record (sub_magnitude b a) { positive = b.positive })

unfoldable pub sub : Integer → Integer → Integer
sub a b = add a (negate b)

unfoldable pub mul : Integer → Integer → Integer
mul a b =
    if is_zero a || is_zero b
    then zero_integer
    else normalize (record {
      limbs = mul_rows a.limbs b.limbs (zeros (length a.limbs + length b.limbs));
      positive = same a.positive b.positive;
    })

unfoldable pub shift_times : ℕ → Integer → Integer
shift_times zero a = a
shift_times (suc bits) a = shift_times bits (shift_left_one_bit a)

unfoldable pub shift_left : Integer → ℕ → Integer
shift_left a bits =
    if is_zero a || bits == 0
    then a
    else record (shift_times bits (absolute a)) { positive = a.positive }
