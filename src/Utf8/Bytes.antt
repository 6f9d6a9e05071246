-- ===== src/Utf8/Bytes.antt =====
-- src/utf8.hpp: the bit tests of lead and continuation bytes, and the bytes that are written, in plain
-- arithmetic.
use genia_cpp.Base.{
  ℕ, ◌+◌, ◌-◌, ◌/◌, ◌%◌, ◌≤◌, ◌<◌, ◌≡◌, none, some, [], ◌∷◌, ltb, leb, ◌==◌, if◌then◌else◌, ◌&&◌,
  bit_and, arith,
}
use genia_cpp.Base.Bits.{
  bit_and_e0, bit_and_f0, bit_and_f8, bit_and_c0, bit_or_c0, bit_or_e0, bit_or_f0, bit_or_80,
}
use genia_cpp.Utf8.{lead_form, encode_codepoint}

abbrev pub IsByte : ℕ → Type 0
IsByte b = b < 256

pub lead_form_lem :
    (b : ℕ)
    → IsByte b
    → lead_form b ≡ (
        if ltb b 192
        then none
        else if ltb b 224
        then some (record { extra_bytes = 1; codepoint = b - 192; min_codepoint = 0x80 })
        else if ltb b 240
        then some (record { extra_bytes = 2; codepoint = b - 224; min_codepoint = 0x800 })
        else if ltb b 248
        then some (record { extra_bytes = 3; codepoint = b - 240; min_codepoint = 0x10000 })
        else none)
unfolding lead_form
lead_form_lem b h = rw (bit_and_e0 b h, bit_and_f0 b h, bit_and_f8 b h) (ground arith)

pub is_continuation : (b : ℕ) → IsByte b → (bit_and b 0xC0 == 0x80) ≡ (leb 128 b && ltb b 192)
is_continuation b h = rw (bit_and_c0 b h) (ground arith)

-- The four forms.
pub encode_one : (c : ℕ) → c < 0x80 → encode_codepoint c ≡ c ∷ []
unfolding encode_codepoint
encode_one c h = ground arith

pub encode_two :
    (c : ℕ) → 0x80 ≤ c → c < 0x800 → encode_codepoint c ≡ (192 + c / 64) ∷ (128 + c % 64) ∷ []
unfolding encode_codepoint
encode_two c h k =
    rw (bit_or_c0 (c / 64) (omega arith), bit_or_80 (c % 64) (omega arith)) (ground arith)

pub encode_three :
    (c : ℕ)
    → 0x800 ≤ c
    → c < 0x10000
    → encode_codepoint c ≡ (224 + c / 4096) ∷ (128 + c / 64 % 64) ∷ (128 + c % 64) ∷ []
unfolding encode_codepoint
encode_three c h k =
    ground (arith, bit_or_e0 (c / 4096), bit_or_80 (c / 64 % 64), bit_or_80 (c % 64))

pub encode_four :
    (c : ℕ)
    → 0x10000 ≤ c
    → c ≤ 0x10FFFF
    → encode_codepoint c
      ≡ (240 + c / 262144) ∷ (128 + c / 4096 % 64) ∷ (128 + c / 64 % 64) ∷ (128 + c % 64) ∷ []
unfolding encode_codepoint
encode_four c h k = ground (
  arith,
  bit_or_f0 (c / 262144),
  bit_or_80 (c / 4096 % 64),
  bit_or_80 (c / 64 % 64),
  bit_or_80 (c % 64),
)
