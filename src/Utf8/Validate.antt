-- ===== src/Utf8/Validate.antt =====
-- src/utf8.hpp: `is_well_formed` accepts exactly the encodings of sequences of Unicode scalar values.
use genia_cpp.Base.{
  ℕ, zero, suc, ◌+◌, ◌*◌, ◌/◌, ◌%◌, ◌≤◌, ◌<◌, ◌≡◌, refl, sym, ap, ◌∙◌, subst, true, false, Option,
  none, some, List, [], ◌∷◌, ◌++◌, length, length-append, drop, arith, All, inl, inr, dec_lt,
  Option-cases, ◌↔◌,
}
use genia_cpp.Utf8.{
  LeadForm, lead_form, read_continuations, is_surrogate, form_rest, sequence_rest, well_formed_loop,
  is_well_formed, encode_codepoint,
}
use genia_cpp.Utf8.Bytes.{IsByte, encode_one, encode_two, encode_three, encode_four}
use genia_cpp.Utf8.Decode.{continue_with, read_none, lead_two, lead_three, lead_four}
use genia_cpp.Utf8.Inverse.{IsEncoded-form}

-- A code point that is no surrogate.
abbrev pub IsScalar : ℕ → Type 0
IsScalar c = (c ≤ 0x10FFFF) × (is_surrogate c ≡ false)

unfoldable pub encode_text : List ℕ → List ℕ
encode_text [] = []
encode_text (c ∷ cs) = encode_codepoint c ++ encode_text cs

-- One round of the loop takes one encoded scalar value.
rest_two :
    (x y : ℕ) (rest : List ℕ)
    → x < 32
    → y < 64
    → 0x80 ≤ x * 64 + y
    → sequence_rest (192 + x) ((128 + y) ∷ rest) ≡ some rest
unfolding sequence_rest form_rest
rest_two x y rest hx hy h =
    rw (lead_two x hx, continue_with 0 x y rest hy, read_none) (ground arith)

rest_three :
    (x y z : ℕ) (rest : List ℕ)
    → x < 16
    → y < 64
    → z < 64
    → 0x800 ≤ (x * 64 + y) * 64 + z
    → is_surrogate ((x * 64 + y) * 64 + z) ≡ false
    → sequence_rest (224 + x) ((128 + y) ∷ (128 + z) ∷ rest) ≡ some rest
unfolding sequence_rest form_rest
rest_three x y z rest hx hy hz h s =
    rw
      (
        lead_three x hx,
        continue_with 1 x y ((128 + z) ∷ rest) hy,
        continue_with 0 (x * 64 + y) z rest hz,
        read_none,
      )
      (ground arith)

rest_four :
    (w x y z : ℕ) (rest : List ℕ)
    → w < 8
    → x < 64
    → y < 64
    → z < 64
    → 0x10000 ≤ ((w * 64 + x) * 64 + y) * 64 + z
    → ((w * 64 + x) * 64 + y) * 64 + z ≤ 0x10FFFF
    → sequence_rest (240 + w) ((128 + x) ∷ (128 + y) ∷ (128 + z) ∷ rest) ≡ some rest
unfolding sequence_rest form_rest
rest_four w x y z rest hw hx hy hz lo hi =
    rw
      (
        lead_four w hw,
        continue_with 2 w x ((128 + y) ∷ (128 + z) ∷ rest) hx,
        continue_with 1 (w * 64 + x) y ((128 + z) ∷ rest) hy,
        continue_with 0 ((w * 64 + x) * 64 + y) z rest hz,
        read_none,
      )
      (ground arith)

-- The rest of a list behind its first byte, as `sequence_rest` sees it.
abbrev rest_of : List ℕ → Option (List ℕ)
rest_of [] = none
rest_of (lead ∷ bytes) = sequence_rest lead bytes

rest-encode_codepoint :
    (c : ℕ) (rest : List ℕ) → IsScalar c → rest_of (encode_codepoint c ++ rest) ≡ some rest
rest-encode_codepoint c rest (h, s) = elim (dec_lt c 0x80) [
  | yes one ↦ rw (encode_one c one) (unfold sequence_rest in ground arith)
  | no not_one ↦ elim (dec_lt c 0x800) [
    | yes two ↦
        rw (encode_two c (omega arith) two)
          (rest_two (c / 64) (c % 64) rest (omega arith) (omega arith) (omega arith))
    | no not_two ↦ elim (dec_lt c 0x10000) [
      | yes three ↦
          let whole : (c / 4096 * 64 + c / 64 % 64) * 64 + c % 64 ≡ c = omega arith in
          rw (encode_three c (omega arith) three) (
            rest_three (c / 4096) (c / 64 % 64) (c % 64) rest (omega arith) (omega arith)
              (omega arith) (omega arith) (rw whole s))
      | no not_three ↦ rw (encode_four c (omega arith) h) (
          rest_four (c / 262144) (c / 4096 % 64) (c / 64 % 64) (c % 64) rest (omega arith)
            (omega arith) (omega arith) (omega arith) (omega arith) (omega arith))
    ]
  ]
]

loop_step :
    (fuel : ℕ) (bytes rest : List ℕ)
    → rest_of bytes ≡ some rest
    → well_formed_loop (suc fuel) bytes ≡ well_formed_loop fuel rest
unfolding well_formed_loop
loop_step fuel [] rest e = cc
loop_step fuel (lead ∷ bytes) rest e =
    let f : sequence_rest lead bytes ≡ some rest = e in rw (f, well_formed_loop) refl

encode_codepoint-nonempty : (c : ℕ) → 1 ≤ length (encode_codepoint c)
unfolding encode_codepoint
encode_codepoint-nonempty c = ground arith

loop-encode_text :
    (cs : List ℕ) (fuel : ℕ)
    → All IsScalar cs
    → length (encode_text cs) ≤ fuel
    → well_formed_loop fuel (encode_text cs) ≡ true
unfolding encode_text
loop-encode_text [] fuel h enough = unfold well_formed_loop in refl
loop-encode_text (c ∷ cs) zero h enough = absurd (
    omega (arith, encode_codepoint-nonempty c, length-append (encode_codepoint c) (encode_text cs)))
loop-encode_text (c ∷ cs) (suc fuel) h enough =
    loop_step fuel _ (encode_text cs) (rest-encode_codepoint c (encode_text cs) h.0)
    ∙ loop-encode_text cs fuel h.1 (
        omega
          (arith, encode_codepoint-nonempty c, length-append (encode_codepoint c) (encode_text cs)))

-- A text that the loop accepts.
abbrev pub Encoded : List ℕ → Type 0
Encoded bytes = (cs : List ℕ) × All IsScalar cs × (bytes ≡ encode_text cs)

Encoded-cons :
    (c : ℕ) (bytes rest : List ℕ)
    → IsScalar c
    → bytes ≡ encode_codepoint c ++ rest
    → Encoded rest
    → Encoded bytes
unfolding encode_text
Encoded-cons c bytes rest s e (cs, all, f) =
    (c ∷ cs, (s, all), e ∙ ap (◌++◌ (encode_codepoint c)) f)

drop-All : (n : ℕ) (bytes : List ℕ) → All IsByte bytes → All IsByte (drop n bytes)
drop-All zero bytes h = h
drop-All (suc n) [] h = h
drop-All (suc n) (b ∷ bytes) h = drop-All n bytes h.1

record Accepted (form : LeadForm) (bytes rest : List ℕ) : Type 0 where
  codepoint : ℕ
  read : read_continuations form.extra_bytes form.codepoint bytes ≡ some codepoint
  lower : form.min_codepoint ≤ codepoint
  scalar : IsScalar codepoint
  next : rest ≡ drop form.extra_bytes bytes

accepted :
    (form : LeadForm) (bytes rest : List ℕ)
    → form_rest form bytes ≡ some rest
    → Accepted form bytes rest
unfolding form_rest
accepted form bytes rest e =
    elim (Option-cases (read_continuations form.extra_bytes form.codepoint bytes)) [
      | inl r ↦ absurd (ground arith)
      | inr (c, r) ↦ record {
        codepoint = c;
        read = r;
        lower = ground arith;
        scalar = (ground arith, ground arith);
        next = ground arith;
      }
    ]

-- One round takes the encoding of a scalar value.
record Taken (lead : ℕ) (bytes rest : List ℕ) : Type 0 where
  codepoint : ℕ
  scalar : IsScalar codepoint
  split : lead ∷ bytes ≡ encode_codepoint codepoint ++ rest
  rest_bytes : All IsByte rest

Taken-form :
    (lead : ℕ) (form : LeadForm) (bytes rest : List ℕ)
    → All IsByte (lead ∷ bytes)
    → lead_form lead ≡ some form
    → form_rest form bytes ≡ some rest
    → Taken lead bytes rest
Taken-form lead form bytes rest h f e =
    let a = accepted form bytes rest e in
    let encoded = IsEncoded-form lead bytes a.codepoint h.1 a.scalar.0 form h.0 f a.read a.lower in
    record {
      codepoint = a.codepoint;
      scalar = a.scalar;
      split = encoded.split ∙ ap (◌++◌ (encode_codepoint a.codepoint)) (encoded.after ∙ sym a.next);
      rest_bytes = rw a.next (drop-All form.extra_bytes bytes h.1);
    }

Taken-ascii :
    (lead : ℕ) (bytes : List ℕ) → lead < 0x80 → All IsByte (lead ∷ bytes) → Taken lead bytes bytes
Taken-ascii lead bytes low h = record {
  codepoint = lead;
  scalar = (omega arith, ground arith);
  split = rw (encode_one lead low) refl;
  rest_bytes = h.1;
}

taken :
    (lead : ℕ) (bytes rest : List ℕ)
    → All IsByte (lead ∷ bytes)
    → sequence_rest lead bytes ≡ some rest
    → Taken lead bytes rest
unfolding sequence_rest
taken lead bytes rest h e = elim (dec_lt lead 0x80) [
  | yes low ↦ subst (Taken lead bytes) (ground arith) (Taken-ascii lead bytes low h)
  | no high ↦ elim (Option-cases (lead_form lead)) [
    | inl f ↦ absurd (ground arith)
    | inr (form, f) ↦ Taken-form lead form bytes rest h f (ground arith)
  ]
]

loop_sound :
    (fuel : ℕ) (bytes : List ℕ)
    → All IsByte bytes
    → well_formed_loop fuel bytes ≡ true
    → Encoded bytes
unfolding well_formed_loop
loop_sound fuel [] h e = ([], tt, unfold encode_text in refl)
loop_sound zero (lead ∷ bytes) h e = cc
loop_sound (suc fuel) (lead ∷ bytes) h e = elim (Option-cases (sequence_rest lead bytes)) [
  | inl r ↦ cc (rw (r, well_formed_loop) at e)
  | inr (rest, r) ↦
      let step = taken lead bytes rest h r in
      let accepts : well_formed_loop fuel rest ≡ true = ground arith in
      Encoded-cons step.codepoint (lead ∷ bytes) rest step.scalar step.split
        (loop_sound fuel rest step.rest_bytes accepts)
]

-- A byte string is well formed exactly if it encodes some sequence of scalar values.
pub is_well_formed_iff :
    (bytes : List ℕ)
    → All IsByte bytes
    → (is_well_formed bytes ≡ true) ↔ ((cs : List ℕ) × All IsScalar cs × (bytes ≡ encode_text cs))
unfolding is_well_formed
is_well_formed_iff bytes h = (
  loop_sound (length bytes) bytes h,
  λ (cs, all, e). rw e (loop-encode_text cs (length (encode_text cs)) all (omega arith)),
)
