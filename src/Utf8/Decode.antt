-- ===== src/Utf8/Decode.antt =====
-- src/utf8.hpp: `decode_one_permissive` is the inverse of `encode_codepoint`, and accepts nothing else.
use genia_cpp.Base.{
  ℕ, suc, ◌+◌, ◌*◌, ◌/◌, ◌%◌, ◌≤◌, ◌<◌, ◌≡◌, refl, ◌∙◌, some, List, ◌∷◌, ◌++◌, length, arith,
  dec_lt,
}
use genia_cpp.Utf8.{
  lead_form, read_continuations, decode_form, decode_one_permissive, encode_codepoint,
}
use genia_cpp.Utf8.Bytes.{
  lead_form_lem, is_continuation, encode_one, encode_two, encode_three, encode_four,
}

-- A continuation byte of six bits.
pub continue_with :
    (k c x : ℕ) (bytes : List ℕ)
    → x < 64
    → read_continuations (suc k) c ((128 + x) ∷ bytes) ≡ read_continuations k (c * 64 + x) bytes
unfolding read_continuations
continue_with k c x bytes h =
    let low : (128 + x) % 64 ≡ x = omega arith in
    rw (is_continuation (128 + x) (omega arith), low) (ground arith)

pub read_none : (c : ℕ) (bytes : List ℕ) → read_continuations 0 c bytes ≡ some c
unfolding read_continuations
read_none c bytes = refl

pub lead_two :
    (x : ℕ)
    → x < 32
    → lead_form (192 + x) ≡ some (record { extra_bytes = 1; codepoint = x; min_codepoint = 0x80 })
lead_two x h = rw (lead_form_lem (192 + x) (omega arith)) (ground arith)

pub lead_three :
    (x : ℕ)
    → x < 16
    → lead_form (224 + x) ≡ some (record { extra_bytes = 2; codepoint = x; min_codepoint = 0x800 })
lead_three x h = rw (lead_form_lem (224 + x) (omega arith)) (ground arith)

pub lead_four :
    (x : ℕ)
    → x < 8
    → lead_form (240 + x)
      ≡ some (record { extra_bytes = 3; codepoint = x; min_codepoint = 0x10000 })
lead_four x h = rw (lead_form_lem (240 + x) (omega arith)) (ground arith)

decode_two :
    (x y : ℕ) (rest : List ℕ)
    → x < 32
    → y < 64
    → 0x80 ≤ x * 64 + y
    → decode_one_permissive ((192 + x) ∷ (128 + y) ∷ rest)
      ≡ some (record { codepoint = x * 64 + y; length = 2 })
unfolding decode_one_permissive decode_form
decode_two x y rest hx hy h =
    rw (lead_two x hx, continue_with 0 x y rest hy, read_none) (ground arith)

decode_three :
    (x y z : ℕ) (rest : List ℕ)
    → x < 16
    → y < 64
    → z < 64
    → 0x800 ≤ (x * 64 + y) * 64 + z
    → decode_one_permissive ((224 + x) ∷ (128 + y) ∷ (128 + z) ∷ rest)
      ≡ some (record { codepoint = (x * 64 + y) * 64 + z; length = 3 })
unfolding decode_one_permissive decode_form
decode_three x y z rest hx hy hz h =
    rw
      (
        lead_three x hx,
        continue_with 1 x y ((128 + z) ∷ rest) hy,
        continue_with 0 (x * 64 + y) z rest hz,
        read_none,
      )
      (ground arith)

decode_four :
    (w x y z : ℕ) (rest : List ℕ)
    → w < 8
    → x < 64
    → y < 64
    → z < 64
    → 0x10000 ≤ ((w * 64 + x) * 64 + y) * 64 + z
    → ((w * 64 + x) * 64 + y) * 64 + z ≤ 0x10FFFF
    → decode_one_permissive ((240 + w) ∷ (128 + x) ∷ (128 + y) ∷ (128 + z) ∷ rest)
      ≡ some (record { codepoint = ((w * 64 + x) * 64 + y) * 64 + z; length = 4 })
unfolding decode_one_permissive decode_form
decode_four w x y z rest hw hx hy hz lo hi =
    rw
      (
        lead_four w hw,
        continue_with 2 w x ((128 + y) ∷ (128 + z) ∷ rest) hx,
        continue_with 1 (w * 64 + x) y ((128 + z) ∷ rest) hy,
        continue_with 0 ((w * 64 + x) * 64 + y) z rest hz,
        read_none,
      )
      (ground arith)

-- What `encode_codepoint` writes for a code point up to U+10FFFF, a surrogate included, decodes to it
-- and its number of bytes, whatever follows.
pub decode-encode :
    (c : ℕ) (rest : List ℕ)
    → c ≤ 0x10FFFF
    → decode_one_permissive (encode_codepoint c ++ rest)
      ≡ some (record { codepoint = c; length = length (encode_codepoint c) })
decode-encode c rest h = elim (dec_lt c 0x80) [
  | yes one ↦ rw (encode_one c one) (unfold decode_one_permissive in ground arith)
  | no not_one ↦ elim (dec_lt c 0x800) [
    | yes two ↦
        let whole : c / 64 * 64 + c % 64 ≡ c = omega arith in
        rw (encode_two c (omega arith) two) (
          decode_two (c / 64) (c % 64) rest (omega arith) (omega arith) (omega arith)
          ∙ rw whole refl)
    | no not_two ↦ elim (dec_lt c 0x10000) [
      | yes three ↦
          let whole : (c / 4096 * 64 + c / 64 % 64) * 64 + c % 64 ≡ c = omega arith in
          rw (encode_three c (omega arith) three) (
            decode_three (c / 4096) (c / 64 % 64) (c % 64) rest (omega arith) (omega arith)
              (omega arith) (omega arith)
            ∙ rw whole refl)
      | no not_three ↦
          let whole : ((c / 262144 * 64 + c / 4096 % 64) * 64 + c / 64 % 64) * 64 + c % 64 ≡ c =
            omega arith in
          rw (encode_four c (omega arith) h) (
            decode_four (c / 262144) (c / 4096 % 64) (c / 64 % 64) (c % 64) rest (omega arith)
              (omega arith) (omega arith) (omega arith) (omega arith) (omega arith)
            ∙ rw whole refl)
    ]
  ]
]
