-- ===== src/Bignum/Limbs.antt =====
-- src/bignum.hpp: the loops over the vector of base 2^32 limbs, least significant first.
-- A `uint64_t` sum is written with its wrap-around, and an index of a `size_t` loop is a position of
-- the list. A limb beyond the end of an operand counts as 0, as in the source.
use genia_cpp.Base.{
  ℕ, zero, suc, ◌+◌, ◌-◌, ◌*◌, ◌/◌, ◌%◌, ◌^◌, ◌<◌, List, [], ◌∷◌, length, replicate, ltb, ◌==◌,
  if◌then◌else◌, compare, Ordering, max,
}

abbrev pub base : ℕ
base = 4294967296

abbrev pub u64 : ℕ → ℕ
u64 x = x % 2 ^ 64

abbrev pub IsLimb : ℕ → Type 0
IsLimb x = x < base

-- The number that a limb vector stands for.
unfoldable pub magnitude : List ℕ → ℕ
magnitude [] = 0
magnitude (x ∷ xs) = x + base * magnitude xs

abbrev pub head_limb : List ℕ → ℕ
head_limb [] = 0
head_limb (x ∷ xs) = x

abbrev pub tail_limbs : List ℕ → List ℕ
tail_limbs [] = []
tail_limbs (x ∷ xs) = xs

-- `limbs_.back()`.
unfoldable pub last_limb : List ℕ → ℕ
last_limb [] = 0
last_limb (x ∷ []) = x
last_limb (x ∷ y ∷ ys) = last_limb (y ∷ ys)

abbrev pub zeros : ℕ → List ℕ
zeros n = replicate n 0

abbrev pub size_max : List ℕ → List ℕ → ℕ
size_max a b = max (length a) (length b)

-- A limb goes with what is left above it.
abbrev pub keep_limb : ℕ → List ℕ → List ℕ
keep_limb x [] = if x == 0 then [] else x ∷ []
keep_limb x (y ∷ ys) = x ∷ y ∷ ys

-- `while (!limbs_.empty() && limbs_.back() == 0) limbs_.pop_back();`
unfoldable pub pop_zeros : List ℕ → List ℕ
pop_zeros [] = []
pop_zeros (x ∷ xs) = keep_limb x (pop_zeros xs)

-- The loop of `add_magnitude`, with the rounds left and the carry.
unfoldable pub add_limbs : ℕ → ℕ → List ℕ → List ℕ → List ℕ
add_limbs zero carry a b = []
add_limbs (suc n) carry a b =
    let sum = u64 (head_limb a + head_limb b + carry) in
    (sum % base) ∷ add_limbs n (sum / base) (tail_limbs a) (tail_limbs b)

-- The loop of `sub_magnitude`. `diff` is signed in the source: below 0 it gets 2^32 and borrows.
unfoldable pub sub_limbs : ℕ → List ℕ → List ℕ → List ℕ
sub_limbs borrow [] b = []
sub_limbs borrow (x ∷ a) b =
    let negative = ltb x (head_limb b + borrow) in
    (if negative then x + base - (head_limb b + borrow) else x - (head_limb b + borrow))
    ∷ sub_limbs (if negative then 1 else 0) a (tail_limbs b)

-- The loop of `shift_left_one_bit` and the limb for the last carry. `value << 1` is a 32-bit shift,
-- whose lowest bit is 0, so that `| carry` adds.
unfoldable pub shift_limbs : ℕ → List ℕ → List ℕ
shift_limbs carry [] = carry ∷ []
shift_limbs carry (x ∷ xs) = (x * 2 % base + carry) ∷ shift_limbs (x / 2 ^ 31) xs

-- The loop of `mul_u32` and the limb for the last carry.
unfoldable pub mul_limb : ℕ → ℕ → List ℕ → List ℕ
mul_limb value carry [] = (carry % base) ∷ []
mul_limb value carry (x ∷ xs) =
    let product = u64 (x * value + carry) in (product % base) ∷ mul_limb value (product / base) xs

-- The inner loop of `mul`: `a` times the limbs `bs`, and then the carry, is added to the result
-- from the position of `a` on. The result never ends before the carry does (Bignum/Multiply).
unfoldable pub mul_row : ℕ → ℕ → List ℕ → List ℕ → List ℕ
mul_row a carry bs [] = []
mul_row a carry [] (r ∷ rs) =
    let rest = mul_row a (u64 (r + a * 0 + carry) / base) [] rs in
    if carry == 0 then r ∷ rs else (u64 (r + a * 0 + carry) % base) ∷ rest
mul_row a carry (b ∷ bs) (r ∷ rs) =
    let sum = u64 (r + a * b + carry) in (sum % base) ∷ mul_row a (sum / base) bs rs

-- The outer loop of `mul`: after its row a limb of the result is final.
unfoldable pub mul_rows : List ℕ → List ℕ → List ℕ → List ℕ
mul_rows [] bs rs = rs
mul_rows (a ∷ rest) bs rs =
    let row = mul_row a 0 bs rs in head_limb row ∷ mul_rows rest bs (tail_limbs row)

abbrev pub first_difference : Ordering → Ordering → Ordering
first_difference Ordering.eq o = o
first_difference Ordering.lt o = Ordering.lt
first_difference Ordering.gt o = Ordering.gt

-- The loop of `compare_magnitude` from the highest limb down, over vectors of one length: the
-- highest limbs that differ decide.
unfoldable pub compare_limbs : List ℕ → List ℕ → Ordering
compare_limbs [] b = Ordering.eq
compare_limbs (x ∷ a) b =
    first_difference (compare_limbs a (tail_limbs b)) (compare x (head_limb b))
