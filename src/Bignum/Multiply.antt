-- ===== src/Bignum/Multiply.antt =====
-- src/bignum.hpp, `mul` and `mul_u32`: the loops give the product, no 64-bit sum wraps, and the result
-- vector is long enough for every carry.
use genia_cpp.Base.{
  ℕ, zero, suc, ◌+◌, ◌-◌, ◌*◌, ◌/◌, ◌^◌, ◌≤◌, ◌<◌, ◌≡◌, refl, List, [], ◌∷◌, length, All, arith,
  ◌==◌, ap, length-replicate, Bool-cases, inl, inr,
}
use genia_cpp.Bignum.Limbs.{
  base, u64, IsLimb, magnitude, tail_limbs, zeros, mul_row, mul_rows, mul_limb,
}
use genia_cpp.Bignum.Magnitude.{magnitude_split, head-IsLimb, tail-All, length-tail}
use native.Mathlib.Nat.{mul-le-mul, zero-add, suc-add, le_trans}

-- What the limb at a position counts for.
abbrev pub place : ℕ → ℕ
place zero = 1
place (suc n) = base * place n

pub magnitude-lt-place : (xs : List ℕ) → All IsLimb xs → magnitude xs < place (length xs)
unfolding magnitude
magnitude-lt-place [] h = omega arith
magnitude-lt-place (x ∷ xs) h = omega (arith, magnitude-lt-place xs h.1, h.0)

place-pos : (n : ℕ) → 1 ≤ place n
place-pos zero = omega arith
place-pos (suc n) = omega (arith, place-pos n)

place-add_le : (m n : ℕ) → place n ≤ place (m + n)
place-add_le zero n = rw zero-add (omega arith)
place-add_le (suc m) n = rw suc-add (omega (arith, place-add_le m n))

-- A product of limbs, a limb and a carry fit 64 bits.
pub product_fits : (a b : ℕ) → a < base → b < base → a * b ≤ 18446744065119617025
product_fits a b ha hb =
    le_trans
      (mul-le-mul {n₁ = a} {m₁ = b} {n₂ = 4294967295} {m₂ = 4294967295} (omega arith) (omega arith))
      (omega arith)

mul_row-All : (a : ℕ) (bs rs : List ℕ) (c : ℕ) → All IsLimb rs → All IsLimb (mul_row a c bs rs)
unfolding mul_row
mul_row-All a [] [] c h = tt
mul_row-All a (b ∷ bs) [] c h = tt
mul_row-All a [] (r ∷ rs) c h = elim (Bool-cases (c == 0)) [
  | inl e ↦ rw e h
  | inr e ↦ rw e (omega arith, mul_row-All a [] rs (u64 (r + a * 0 + c) / base) h.1)
]
mul_row-All a (b ∷ bs) (r ∷ rs) c h =
    (omega arith, mul_row-All a bs rs (u64 (r + a * b + c) / base) h.1)

length-mul_row : (a : ℕ) (bs rs : List ℕ) (c : ℕ) → length (mul_row a c bs rs) ≡ length rs
unfolding mul_row
length-mul_row a [] [] c = refl
length-mul_row a (b ∷ bs) [] c = refl
length-mul_row a [] (r ∷ rs) c = elim (Bool-cases (c == 0)) [
  | inl e ↦ rw e refl
  | inr e ↦ rw e (ap suc (length-mul_row a [] rs (u64 (r + a * 0 + c) / base)))
]
length-mul_row a (b ∷ bs) (r ∷ rs) c = ap suc (length-mul_row a bs rs (u64 (r + a * b + c) / base))

-- A row adds `a` times the limbs and the carry, where that fits the vector.
magnitude-mul_row :
    (a : ℕ) (bs rs : List ℕ) (c : ℕ)
    → a < base
    → c < base
    → All IsLimb bs
    → All IsLimb rs
    → magnitude rs + a * magnitude bs + c < place (length rs)
    → magnitude (mul_row a c bs rs) ≡ magnitude rs + a * magnitude bs + c
unfolding mul_row magnitude
magnitude-mul_row a [] [] c ha hc hb hr h = omega arith
magnitude-mul_row a (b ∷ bs) [] c ha hc hb hr h = omega arith
magnitude-mul_row a [] (r ∷ rs) c ha hc hb hr h =
    ground (arith, magnitude-mul_row a [] rs (u64 (r + a * 0 + c) / base) ha (omega arith) tt hr.1)
magnitude-mul_row a (b ∷ bs) (r ∷ rs) c ha hc hb hr h =
    let fits = product_fits a b ha hb.0 in
    let small : r + a * b + c < 2 ^ 64 = omega (arith, fits, hr.0) in
    let rest = magnitude-mul_row a bs rs (u64 (r + a * b + c) / base) ha (omega arith) hb.1 hr.1 in
    omega (arith, rest (omega (arith, small)), small)

-- The rows add the product of the operands, where the vector has a limb for each of theirs.
magnitude-mul_rows :
    (xs bs rs : List ℕ)
    → All IsLimb xs
    → All IsLimb bs
    → All IsLimb rs
    → length rs ≡ length xs + length bs
    → magnitude rs < place (length bs)
    → magnitude (mul_rows xs bs rs) ≡ magnitude rs + magnitude xs * magnitude bs
unfolding mul_rows magnitude
magnitude-mul_rows [] bs rs hx hb hr hl h = omega arith
magnitude-mul_rows (a ∷ xs) bs rs hx hb hr hl h =
    let row : List ℕ = mul_row a 0 bs rs in
    let low = magnitude-lt-place bs hb in
    let room : base * place (length bs) ≤ place (length rs) =
      rw (hl, suc-add) (omega (arith, place-add_le (length xs) (length bs))) in
    let scaled : a * magnitude bs ≤ 4294967295 * (place (length bs) - 1) =
      mul-le-mul {n₁ = a} {m₁ = magnitude bs} {n₂ = 4294967295} {m₂ = place (length bs) - 1}
        (omega (arith, hx.0)) (omega (arith, low)) in
    let row_value = magnitude-mul_row a bs rs 0 hx.0 (omega arith) hb hr in
    let value : magnitude row ≡ magnitude rs + a * magnitude bs + 0 =
      row_value (omega (arith, room, scaled, h)) in
    let rest =
      magnitude-mul_rows xs bs (tail_limbs row) hx.1 hb (tail-All row (mul_row-All a bs rs 0 hr))
        (omega (arith, length-tail row, length-mul_row a bs rs 0, hl))
        (omega (arith, magnitude_split row, value, scaled, h)) in
    omega (arith, rest, value, magnitude_split row)

zeros-All : (n : ℕ) → All IsLimb (zeros n)
zeros-All zero = tt
zeros-All (suc n) = (omega arith, zeros-All n)

magnitude-zeros : (n : ℕ) → magnitude (zeros n) ≡ 0
unfolding magnitude
magnitude-zeros zero = refl
magnitude-zeros (suc n) = omega (arith, magnitude-zeros n)

-- The loops of `mul` compute the product.
pub magnitude-mul_limbs :
    (xs ys : List ℕ)
    → All IsLimb xs
    → All IsLimb ys
    → magnitude (mul_rows xs ys (zeros (length xs + length ys))) ≡ magnitude xs * magnitude ys
magnitude-mul_limbs xs ys hx hy =
    let size : ℕ = length xs + length ys in
    omega (
      arith,
      magnitude-mul_rows xs ys (zeros size) hx hy (zeros-All size) (length-replicate size 0)
          (omega (arith, magnitude-zeros size, place-pos (length ys))),
      magnitude-zeros size,
    )

pub mul_rows-All : (xs ys rs : List ℕ) → All IsLimb rs → All IsLimb (mul_rows xs ys rs)
unfolding mul_rows
mul_rows-All [] ys rs h = h
mul_rows-All (a ∷ xs) ys rs h =
    let row : List ℕ = mul_row a 0 ys rs in
    (
      head-IsLimb row (mul_row-All a ys rs 0 h),
      mul_rows-All xs ys (tail_limbs row) (tail-All row (mul_row-All a ys rs 0 h)),
    )

pub mul_limbs-All : (xs ys : List ℕ) → All IsLimb (mul_rows xs ys (zeros (length xs + length ys)))
mul_limbs-All xs ys = mul_rows-All xs ys _ (zeros-All (length xs + length ys))

-- The same for `mul_u32`, which multiplies by one word.
pub mul_limb-All : (value c : ℕ) (xs : List ℕ) → All IsLimb (mul_limb value c xs)
unfolding mul_limb
mul_limb-All value c [] = omega arith
mul_limb-All value c (x ∷ xs) = (omega arith, mul_limb-All value (u64 (x * value + c) / base) xs)

pub magnitude-mul_limb :
    (value c : ℕ) (xs : List ℕ)
    → value < base
    → c < base
    → All IsLimb xs
    → magnitude (mul_limb value c xs) ≡ magnitude xs * value + c
unfolding mul_limb magnitude
magnitude-mul_limb value c [] hv hc h = omega arith
magnitude-mul_limb value c (x ∷ xs) hv hc h =
    let fits = product_fits x value h.0 hv in
    let small : x * value + c < 2 ^ 64 = omega (arith, fits) in
    let rest = magnitude-mul_limb value (u64 (x * value + c) / base) xs hv (omega arith) h.1 in
    omega (arith, rest, small)
