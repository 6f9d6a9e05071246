-- ===== src/Bignum/Decimal.antt =====
-- src/bignum.hpp: `from_unsigned_decimal` and `to_decimal_string`. A `std::string` is the list of its
-- bytes. `std::to_string` and `std::stoul` are modelled on the digits that the code hands them.
pub mod Read
pub mod Print
pub mod RoundTrip
pub mod Leading
use genia_cpp.Base.{
  ℕ, zero, suc, ◌+◌, ◌-◌, ◌*◌, ◌/◌, ◌%◌, Bool, true, false, Option, none, some, List, [], ◌∷◌, ◌++◌,
  length, take, drop, replicate, leb, ◌==◌, if◌then◌else◌, ◌&&◌,
}
use genia_cpp.Bignum.{Integer, zero_integer, is_zero, normalize, from_u64, mul_u32, add_magnitude}
use genia_cpp.Bignum.Limbs.{base, pop_zeros}

abbrev pub chunk_base : ℕ
chunk_base = 1000000000

abbrev pub is_digit : ℕ → Bool
is_digit c = leb b'0' c && leb c b'9'

unfoldable pub all_digits : List ℕ → Bool
all_digits [] = true
all_digits (c ∷ cs) = is_digit c && all_digits cs

-- The number that a digit string stands for, read from the left: `std::stoul` on at most 9 digits.
unfoldable pub read_digits : ℕ → List ℕ → ℕ
read_digits acc [] = acc
read_digits acc (c ∷ cs) = read_digits (acc * 10 + (c - b'0')) cs

-- The loop over the whole chunks of 9 digits, with the number of them left.
unfoldable pub read_chunks : ℕ → Integer → List ℕ → Integer
read_chunks zero result digits = result
read_chunks (suc n) result digits =
    read_chunks n
      (add_magnitude (mul_u32 result chunk_base) (from_u64 (read_digits 0 (take 9 digits))))
      (drop 9 digits)

abbrev pub first_length : ℕ → ℕ
first_length size = if size % 9 == 0 then 9 else size % 9

unfoldable pub from_unsigned_decimal : List ℕ → Option Integer
from_unsigned_decimal [] = none
from_unsigned_decimal (c ∷ cs) =
    let digits = c ∷ cs in
    let first = first_length (length digits) in
    if all_digits digits
    then some (
        normalize (
          read_chunks ((length digits - first) / 9) (from_u64 (read_digits 0 (take first digits)))
            (drop first digits)))
    else none

-- The inner loop of `to_decimal_string`, from the highest limb down: the quotient limbs and the
-- remainder. The remainder is below 10^9, so that its shift by 32 fits 64 bits.
unfoldable pub divide_chunk : List ℕ → List ℕ × ℕ
divide_chunk [] = ([], 0)
divide_chunk (x ∷ xs) =
    let (quotient, remainder) = divide_chunk xs in
    let current = remainder * base + x in
    ((current / chunk_base % base) ∷ quotient, current % chunk_base)

-- `while (work.size() > 1 && work.back() == 0) work.pop_back();`
unfoldable pub pop_high_zeros : List ℕ → List ℕ
pop_high_zeros [] = []
pop_high_zeros (x ∷ xs) = x ∷ pop_zeros xs

-- The loop's test: `work` is one zero limb, or empty.
abbrev pub is_done : List ℕ → Bool
is_done [] = true
is_done (x ∷ []) = x == 0
is_done (x ∷ y ∷ ys) = false

-- The chunks, least significant first. A round takes more than 29 bits off, so that two rounds for
-- each limb and one to see the end are enough (Bignum/Print).
unfoldable pub split_chunks : ℕ → List ℕ → List ℕ
split_chunks zero work = []
split_chunks (suc fuel) work =
    let (quotient, remainder) = divide_chunk work in
    let rest = remainder ∷ split_chunks fuel (pop_high_zeros quotient) in
    if is_done work then [] else rest

abbrev pub digit_char : ℕ → ℕ
digit_char d = b'0' + d

-- `std::to_string` of a number below 10^9: its digits, with no leading zero. `rest` follows.
unfoldable pub print_digits : ℕ → ℕ → List ℕ → List ℕ
print_digits zero n rest = rest
print_digits (suc k) n rest =
    let more = print_digits k (n / 10) (digit_char (n % 10) ∷ rest) in
    if n / 10 == 0 then digit_char (n % 10) ∷ rest else more

abbrev pub chunk_text : ℕ → List ℕ
chunk_text n = print_digits 9 n []

-- Every chunk but the most significant one is padded with zeros to 9 digits.
unfoldable pub join_chunks : List ℕ → List ℕ
join_chunks [] = []
join_chunks (c ∷ []) = chunk_text c
join_chunks (c ∷ d ∷ ds) =
    join_chunks (d ∷ ds) ++ (replicate (9 - length (chunk_text c)) b'0' ++ chunk_text c)

unfoldable pub to_decimal_string : Integer → List ℕ
to_decimal_string a =
    let digits = join_chunks (split_chunks (suc (2 * length a.limbs)) a.limbs) in
    if is_zero a then b'0' ∷ [] else if a.positive then digits else b'-' ∷ digits
