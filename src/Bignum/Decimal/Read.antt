-- ===== src/Bignum/Decimal/Read.antt =====
-- src/bignum.hpp, `from_unsigned_decimal`: the chunks of 9 digits give the number that the whole string
-- stands for.
use genia_cpp.Base.{
  ℕ, zero, suc, ◌+◌, ◌-◌, ◌*◌, ◌/◌, ◌≤◌, ◌<◌, ◌≡◌, refl, sym, ap, ◌∙◌, true, false, none, some,
  List, [], ◌∷◌, ◌++◌, length, take, drop, arith, ◌⊎◌, inl, inr,
}
use genia_cpp.Bignum.{Integer, normalize, from_u64, mul_u32, add_magnitude}
use genia_cpp.Bignum.Limbs.{base, magnitude}
use genia_cpp.Bignum.Canonical.{
  IsCanonical, magnitude-normalize, positive-normalize, normalize-IsCanonical, from_u64-IsCanonical,
  magnitude-from_u64, add_magnitude-IsCanonical, magnitude-add_magnitude, mul_u32-IsCanonical,
  magnitude-mul_u32,
}
use genia_cpp.Bignum.Decimal.{
  chunk_base, all_digits, read_digits, read_chunks, first_length, from_unsigned_decimal,
}
use native.Mathlib.Nat.{mul-le-mul_right}

unfoldable pub ten_pow : ℕ → ℕ
ten_pow zero = 1
ten_pow (suc n) = 10 * ten_pow n

pub read_digits-append :
    (acc : ℕ) (xs ys : List ℕ) → read_digits acc (xs ++ ys) ≡ read_digits (read_digits acc xs) ys
unfolding read_digits
read_digits-append acc [] ys = refl
read_digits-append acc (c ∷ xs) ys = read_digits-append (acc * 10 + (c - b'0')) xs ys

-- A number read in front moves up by the digits that follow.
pub read_digits-shift :
    (acc : ℕ) (xs : List ℕ) → read_digits acc xs ≡ acc * ten_pow (length xs) + read_digits 0 xs
unfolding read_digits ten_pow
read_digits-shift acc [] = omega arith
read_digits-shift acc (c ∷ xs) = omega (
  arith,
  read_digits-shift (acc * 10 + (c - b'0')) xs,
  read_digits-shift (0 * 10 + (c - b'0')) xs,
)

pub all_digits_cons :
    (c : ℕ) (cs : List ℕ) → all_digits (c ∷ cs) ≡ true → (c < 58) × (all_digits cs ≡ true)
unfolding all_digits
all_digits_cons c cs h = ground arith

pub read_digits-lt : (xs : List ℕ) → all_digits xs ≡ true → read_digits 0 xs < ten_pow (length xs)
unfolding read_digits ten_pow
read_digits-lt [] h = omega arith
read_digits-lt (c ∷ xs) h =
    let (low, rest) = all_digits_cons c xs h in
    let digit : 0 * 10 + (c - b'0') ≤ 9 = omega (arith, low) in
    let scaled = mul-le-mul_right (ten_pow (length xs)) digit in
    omega (arith, scaled, read_digits-shift (0 * 10 + (c - b'0')) xs, read_digits-lt xs rest)

all_digits-take : (n : ℕ) (xs : List ℕ) → all_digits xs ≡ true → all_digits (take n xs) ≡ true
unfolding all_digits
all_digits-take zero xs h = refl
all_digits-take (suc n) [] h = refl
all_digits-take (suc n) (c ∷ xs) h = ground (arith, all_digits-take n xs)

all_digits-drop : (n : ℕ) (xs : List ℕ) → all_digits xs ≡ true → all_digits (drop n xs) ≡ true
unfolding all_digits
all_digits-drop zero xs h = h
all_digits-drop (suc n) [] h = refl
all_digits-drop (suc n) (c ∷ xs) h = all_digits-drop n xs (ground arith)

take-append-drop : (n : ℕ) (xs : List ℕ) → take n xs ++ drop n xs ≡ xs
take-append-drop zero xs = refl
take-append-drop (suc n) [] = refl
take-append-drop (suc n) (x ∷ xs) = rw (take-append-drop n xs)

length-take : (n : ℕ) (xs : List ℕ) → n ≤ length xs → length (take n xs) ≡ n
length-take zero xs h = refl
length-take (suc n) [] h = absurd (omega arith)
length-take (suc n) (x ∷ xs) h = ap suc (length-take n xs (omega arith))

length-drop : (n : ℕ) (xs : List ℕ) → length (drop n xs) ≡ length xs - n
length-drop zero xs = omega arith
length-drop (suc n) [] = omega arith
length-drop (suc n) (x ∷ xs) = omega (arith, length-drop n xs)

read_split :
    (acc n : ℕ) (xs : List ℕ)
    → read_digits acc xs ≡ read_digits (read_digits acc (take n xs)) (drop n xs)
read_split acc n xs =
    ap (read_digits acc) (sym (take-append-drop n xs))
    ∙ read_digits-append acc (take n xs) (drop n xs)

ten_pow_mono : (m n : ℕ) → m ≤ n → ten_pow m ≤ ten_pow n
unfolding ten_pow
ten_pow_mono zero zero h = omega arith
ten_pow_mono zero (suc n) h = omega (arith, ten_pow_mono zero n (omega arith))
ten_pow_mono (suc m) zero h = absurd (omega arith)
ten_pow_mono (suc m) (suc n) h = omega (arith, ten_pow_mono m n (omega arith))

pub ten_pow_nine : ten_pow 9 ≡ 1000000000
unfolding ten_pow
ten_pow_nine = refl

-- At most 9 digits are below 10^9, and so fit a 32-bit word.
chunk_lt :
    (n : ℕ) (xs : List ℕ)
    → n ≤ 9
    → n ≤ length xs
    → all_digits xs ≡ true
    → read_digits 0 (take n xs) < chunk_base
chunk_lt n xs hn hl h =
    let low = read_digits-lt (take n xs) (all_digits-take n xs h) in
    omega (arith, rw (length-take n xs hl) at low, ten_pow_mono n 9 hn, ten_pow_nine)

positive-from_u64 : (n : ℕ) → (from_u64 n).positive ≡ true
unfolding from_u64
positive-from_u64 n = ground arith

positive-add_magnitude : (a b : Integer) → (add_magnitude a b).positive ≡ true
unfolding add_magnitude
positive-add_magnitude a b = positive-normalize _ ∙ ground arith

-- What the reading has produced so far: a canonical value that is not negative.
pub record IsRead (n : ℕ) (result : Integer) : Type 0 where
  pub canonical : IsCanonical result
  pub positive : result.positive ≡ true
  pub value : magnitude result.limbs ≡ n

from_u64-IsRead : (n : ℕ) → n < base → IsRead n (from_u64 n)
from_u64-IsRead n h = record {
  canonical = from_u64-IsCanonical n (omega arith);
  positive = positive-from_u64 n;
  value = magnitude-from_u64 n (omega arith);
}

next_chunk :
    (m : ℕ) (result : Integer) (digits : List ℕ)
    → IsRead m result
    → 9 ≤ length digits
    → all_digits digits ≡ true
    → IsRead
        (read_digits m (take 9 digits))
        (add_magnitude (mul_u32 result chunk_base) (from_u64 (read_digits 0 (take 9 digits))))
next_chunk m result digits r hl h =
    let chunk =
      from_u64-IsRead (read_digits 0 (take 9 digits))
        (omega (arith, chunk_lt 9 digits (omega arith) hl h)) in
    record {
      canonical = add_magnitude-IsCanonical _ _;
      positive = positive-add_magnitude _ _;
      value =
          rw
            (
              magnitude-add_magnitude _ _ (mul_u32-IsCanonical result chunk_base) chunk.canonical,
              magnitude-mul_u32 result chunk_base r.canonical (omega arith),
              chunk.value,
              r.value,
              read_digits-shift m (take 9 digits),
              length-take 9 digits hl,
              ten_pow_nine,
            )
            refl;
    }

read_chunks_lem :
    (n m : ℕ) (result : Integer) (digits : List ℕ)
    → IsRead m result
    → all_digits digits ≡ true
    → length digits ≡ n * 9
    → IsRead (read_digits m digits) (read_chunks n result digits)
unfolding read_chunks
read_chunks_lem zero m result [] r h l = unfold read_digits in r
read_chunks_lem zero m result (d ∷ ds) r h l = absurd (omega arith)
read_chunks_lem (suc n) m result digits r h l = rw (read_split m 9 digits) (
    read_chunks_lem n _ _ (drop 9 digits) (next_chunk m result digits r (omega arith) h)
      (all_digits-drop 9 digits h) (omega (arith, length-drop 9 digits)))

normalize-IsRead : (n : ℕ) (a : Integer) → IsRead n a → IsRead n (normalize a)
normalize-IsRead n a r = record {
  canonical = normalize-IsCanonical a r.canonical.limbs_fit;
  positive = rw (positive-normalize a, r.positive) (ground arith);
  value = magnitude-normalize a ∙ r.value;
}

first_length_lem :
    (size : ℕ)
    → 0 < size
    → (first_length size ≤ 9)
      × (first_length size ≤ size)
      × (size - first_length size ≡ (size - first_length size) / 9 * 9)
first_length_lem size h = (ground arith, ground arith, ground arith)

-- A digit string that is not empty is read as the number that it stands for.
pub from_unsigned_decimal_lem :
    (c : ℕ) (cs : List ℕ)
    → all_digits (c ∷ cs) ≡ true
    → (r : Integer) × (from_unsigned_decimal (c ∷ cs) ≡ some r) × IsRead (read_digits 0 (c ∷ cs)) r
unfolding from_unsigned_decimal
from_unsigned_decimal_lem c cs h =
    let digits : List ℕ = c ∷ cs in
    let first : ℕ = first_length (length digits) in
    let (nine, short, whole) = first_length_lem (length digits) (omega arith) in
    let start =
      from_u64-IsRead (read_digits 0 (take first digits))
        (omega (arith, chunk_lt first digits nine short h)) in
    let rest =
      read_chunks_lem ((length digits - first) / 9) _ _ (drop first digits) start
        (all_digits-drop first digits h) (omega (arith, length-drop first digits, whole)) in
    (
      normalize (
          read_chunks ((length digits - first) / 9) (from_u64 (read_digits 0 (take first digits)))
            (drop first digits)),
      rw h refl,
      rw (read_split 0 first digits) (normalize-IsRead _ _ rest),
    )

-- Any other string is refused.
pub from_unsigned_decimal_refused :
    (text : List ℕ) → (text ≡ []) ⊎ (all_digits text ≡ false) → from_unsigned_decimal text ≡ none
unfolding from_unsigned_decimal
from_unsigned_decimal_refused [] h = refl
from_unsigned_decimal_refused (c ∷ cs) (inl e) = cc
from_unsigned_decimal_refused (c ∷ cs) (inr e) = rw e refl
