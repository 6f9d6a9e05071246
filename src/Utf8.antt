-- ===== src/Utf8.antt =====
-- src/utf8.hpp: UTF-8 validation, permissive decoding of one code point, and encoding.
-- A byte string is a list of numbers below 256, and an offset into it is the list from there on.
-- A mask of the lowest bits, `x & (2^k - 1)`, is `x % 2^k`, and a shift by `k` is a factor of `2^k`.
pub mod Bytes
pub mod Decode
pub mod Inverse
pub mod Validate
mod Tests
use genia_cpp.Base.{
  ℕ, zero, suc, ◌+◌, ◌*◌, ◌/◌, ◌%◌, Bool, true, false, Option, none, some, List, [], ◌∷◌, length,
  drop, ltb, leb, ◌==◌, if◌then◌else◌, ◌&&◌, ◌||◌, bit_and, bit_or,
}

-- The locals that the ladder over the lead byte sets.
pub record LeadForm : Type 0 where
  pub extra_bytes : ℕ
  pub codepoint : ℕ
  pub min_codepoint : ℕ

-- The ladder over a lead byte from 0x80 on; `none` is an invalid lead byte.
unfoldable pub lead_form : ℕ → Option LeadForm
lead_form lead =
    if bit_and lead 0xE0 == 0xC0
    then some (record { extra_bytes = 1; codepoint = lead % 32; min_codepoint = 0x80 })
    else if bit_and lead 0xF0 == 0xE0
    then some (record { extra_bytes = 2; codepoint = lead % 16; min_codepoint = 0x800 })
    else if bit_and lead 0xF8 == 0xF0
    then some (record { extra_bytes = 3; codepoint = lead % 8; min_codepoint = 0x10000 })
    else none

-- The loop over the continuation bytes. The truncation test before it excludes the empty list.
unfoldable pub read_continuations : ℕ → ℕ → List ℕ → Option ℕ
read_continuations zero codepoint bytes = some codepoint
read_continuations (suc k) codepoint [] = none
read_continuations (suc k) codepoint (b ∷ bytes) =
    let rest = read_continuations k (codepoint * 64 + b % 64) bytes in
    if bit_and b 0xC0 == 0x80 then rest else none

abbrev pub is_surrogate : ℕ → Bool
is_surrogate codepoint = leb 0xD800 codepoint && leb codepoint 0xDFFF

-- The three tests of `is_well_formed` on a code point that was read.
abbrev pub is_rejected : ℕ → ℕ → Bool
is_rejected codepoint min_codepoint =
    ltb codepoint min_codepoint || (is_surrogate codepoint || ltb 0x10FFFF codepoint)

-- The body of the `while` loop behind the ladder: where the next round goes on, or `none` for
-- `return false`.
unfoldable pub form_rest : LeadForm → List ℕ → Option (List ℕ)
form_rest form bytes =
    if ltb (length bytes) form.extra_bytes
    then none
    else elim (read_continuations form.extra_bytes form.codepoint bytes) [
      | none ↦ none
      | some codepoint ↦
          if is_rejected codepoint form.min_codepoint
          then none
          else some (drop form.extra_bytes bytes)
    ]

-- One round of the loop.
unfoldable pub sequence_rest : ℕ → List ℕ → Option (List ℕ)
sequence_rest lead bytes =
    if ltb lead 0x80
    then some bytes
    else elim (lead_form lead) [ none ↦ none | some form ↦ form_rest form bytes ]

-- The `while` loop. Each round takes a byte at least, so that a round for each byte is enough
-- (Utf8/Validate).
unfoldable pub well_formed_loop : ℕ → List ℕ → Bool
well_formed_loop fuel [] = true
well_formed_loop zero (lead ∷ bytes) = false
well_formed_loop (suc fuel) (lead ∷ bytes) = elim (sequence_rest lead bytes) [
  | none ↦ false
  | some rest ↦ well_formed_loop fuel rest
]

unfoldable pub is_well_formed : List ℕ → Bool
is_well_formed bytes = well_formed_loop (length bytes) bytes

pub record DecodedCodepoint : Type 0 where
  pub codepoint : ℕ
  pub length : ℕ

-- The tail of the function, behind the ladder.
unfoldable pub decode_form : LeadForm → List ℕ → Option DecodedCodepoint
decode_form form bytes =
    if ltb (length bytes) form.extra_bytes
    then none
    else elim (read_continuations form.extra_bytes form.codepoint bytes) [
      | none ↦ none
      | some codepoint ↦
          if ltb codepoint form.min_codepoint || ltb 0x10FFFF codepoint
          then none
          else some (record { codepoint = codepoint; length = form.extra_bytes + 1 })
    ]

-- The caller's offset is inside the string: the empty list does not come up.
unfoldable pub decode_one_permissive : List ℕ → Option DecodedCodepoint
decode_one_permissive [] = none
decode_one_permissive (lead ∷ bytes) =
    if ltb lead 0x80
    then some (record { codepoint = lead; length = 1 })
    else elim (lead_form lead) [ none ↦ none | some form ↦ decode_form form bytes ]

-- `static_cast<char>`.
abbrev pub byte : ℕ → ℕ
byte x = x % 256

-- The bytes that `encode_codepoint` appends.
unfoldable pub encode_codepoint : ℕ → List ℕ
encode_codepoint codepoint =
    if ltb codepoint 0x80
    then byte codepoint ∷ []
    else if ltb codepoint 0x800
    then byte (bit_or 0xC0 (codepoint / 64)) ∷ byte (bit_or 0x80 (codepoint % 64)) ∷ []
    else if ltb codepoint 0x10000
    then byte (bit_or 0xE0 (codepoint / 4096))
      ∷ byte (bit_or 0x80 (codepoint / 64 % 64))
      ∷ byte (bit_or 0x80 (codepoint % 64))
      ∷ []
    else byte (bit_or 0xF0 (codepoint / 262144))
      ∷ byte (bit_or 0x80 (codepoint / 4096 % 64))
      ∷ byte (bit_or 0x80 (codepoint / 64 % 64))
      ∷ byte (bit_or 0x80 (codepoint % 64))
      ∷ []
