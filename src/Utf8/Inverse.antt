-- ===== src/Utf8/Inverse.antt =====
-- src/utf8.hpp: what is decoded was an encoding, in shortest form.
use genia_cpp.Base.{
  ℕ, suc, ◌+◌, ◌-◌, ◌*◌, ◌/◌, ◌%◌, ◌≤◌, ◌<◌, ◌≡◌, refl, sym, ap, ◌∙◌, subst, none, some, List, [],
  ◌∷◌, ◌++◌, length, drop, ltb, leb, if◌then◌else◌, ◌&&◌, arith, All, inl, inr, dec_lt,
  Option-cases,
}
use genia_cpp.Utf8.{
  LeadForm, DecodedCodepoint, lead_form, read_continuations, decode_form, decode_one_permissive,
  encode_codepoint,
}
use genia_cpp.Utf8.Bytes.{
  IsByte, lead_form_lem, is_continuation, encode_one, encode_two, encode_three, encode_four,
}

-- The other direction: a continuation that was read.
record Continued (k c : ℕ) (bytes : List ℕ) (result : ℕ) : Type 0 where
  bits : ℕ
  rest : List ℕ
  bits_lt : bits < 64
  rest_bytes : All IsByte rest
  split : bytes ≡ (128 + bits) ∷ rest
  next : read_continuations k (c * 64 + bits) rest ≡ some result

continued :
    (k c : ℕ) (bytes : List ℕ) (result : ℕ)
    → All IsByte bytes
    → read_continuations (suc k) c bytes ≡ some result
    → Continued k c bytes result
unfolding read_continuations
continued k c [] result h e = cc
continued k c (b ∷ bytes) result h e =
    let (in_range, next) = test (rw (is_continuation b h.0) at e) in
    record {
      bits = b % 64;
      rest = bytes;
      bits_lt = omega arith;
      rest_bytes = h.1;
      split = ap (λ (t : ℕ). t ∷ bytes) (omega (arith, in_range.0, in_range.1));
      next = next;
    }
  where
    test :
        (if leb 128 b && ltb b 192 then read_continuations k (c * 64 + b % 64) bytes else none)
          ≡ some result
        → ((128 ≤ b) × (b < 192)) × (read_continuations k (c * 64 + b % 64) bytes ≡ some result)
    test e = ((ground arith, ground arith), ground arith)

read_done :
    (c : ℕ) (bytes : List ℕ) {result : ℕ} → read_continuations 0 c bytes ≡ some result → c ≡ result
unfolding read_continuations
read_done c bytes e = cc

-- A form that was read is the encoding of its code point, in front of the rest.
pub record IsEncoded (extra lead : ℕ) (bytes : List ℕ) (c : ℕ) : Type 0 where
  pub rest : List ℕ
  pub split : lead ∷ bytes ≡ encode_codepoint c ++ rest
  pub after : rest ≡ drop extra bytes
  pub size : length (encode_codepoint c) ≡ extra + 1

IsEncoded-two :
    (x : ℕ) (bytes : List ℕ) (c : ℕ)
    → All IsByte bytes
    → x < 32
    → read_continuations 1 x bytes ≡ some c
    → 0x80 ≤ c
    → IsEncoded 1 (192 + x) bytes c
IsEncoded-two x bytes c hb hx e lo =
    let one = continued 0 x bytes c hb e in
    let value : x * 64 + one.bits ≡ c = read_done _ one.rest one.next in
    let bound = one.bits_lt in
    let code = encode_two c lo (omega (arith, value, bound)) in
    let high : c / 64 ≡ x = omega (arith, value, bound) in
    let low : c % 64 ≡ one.bits = omega (arith, value, bound) in
    record {
      rest = one.rest;
      split = ap (λ t. (192 + x) ∷ t) one.split ∙ rw (code, high, low) refl;
      after = ap (drop 1) (sym one.split);
      size = rw code (omega arith);
    }

IsEncoded-three :
    (x : ℕ) (bytes : List ℕ) (c : ℕ)
    → All IsByte bytes
    → x < 16
    → read_continuations 2 x bytes ≡ some c
    → 0x800 ≤ c
    → IsEncoded 2 (224 + x) bytes c
IsEncoded-three x bytes c hb hx e lo =
    let one = continued 1 x bytes c hb e in
    let two = continued 0 _ one.rest c one.rest_bytes one.next in
    let value : (x * 64 + one.bits) * 64 + two.bits ≡ c = read_done _ two.rest two.next in
    let bounds : (one.bits < 64) × (two.bits < 64) = (one.bits_lt, two.bits_lt) in
    let code = encode_three c lo (omega (arith, value, bounds)) in
    let high : c / 4096 ≡ x = omega (arith, value, bounds) in
    let middle : c / 64 % 64 ≡ one.bits = omega (arith, value, bounds) in
    let low : c % 64 ≡ two.bits = omega (arith, value, bounds) in
    let all : bytes ≡ (128 + one.bits) ∷ (128 + two.bits) ∷ two.rest =
      one.split ∙ ap (λ t. (128 + one.bits) ∷ t) two.split in
    record {
      rest = two.rest;
      split = ap (λ t. (224 + x) ∷ t) all ∙ rw (code, high, middle, low) refl;
      after = ap (drop 2) (sym all);
      size = rw code (omega arith);
    }

IsEncoded-four :
    (x : ℕ) (bytes : List ℕ) (c : ℕ)
    → All IsByte bytes
    → x < 8
    → read_continuations 3 x bytes ≡ some c
    → 0x10000 ≤ c
    → c ≤ 0x10FFFF
    → IsEncoded 3 (240 + x) bytes c
IsEncoded-four x bytes c hb hx e lo hi =
    let one = continued 2 x bytes c hb e in
    let two = continued 1 _ one.rest c one.rest_bytes one.next in
    let three = continued 0 _ two.rest c two.rest_bytes two.next in
    let value : ((x * 64 + one.bits) * 64 + two.bits) * 64 + three.bits ≡ c =
      read_done _ three.rest three.next in
    let bounds : (one.bits < 64) × (two.bits < 64) × (three.bits < 64) =
      (one.bits_lt, two.bits_lt, three.bits_lt) in
    let code = encode_four c lo hi in
    let high : c / 262144 ≡ x = omega (arith, value, bounds) in
    let upper : c / 4096 % 64 ≡ one.bits = omega (arith, value, bounds) in
    let lower : c / 64 % 64 ≡ two.bits = omega (arith, value, bounds) in
    let low : c % 64 ≡ three.bits = omega (arith, value, bounds) in
    let all : bytes ≡ (128 + one.bits) ∷ (128 + two.bits) ∷ (128 + three.bits) ∷ three.rest =
      one.split
      ∙ ap (λ t. (128 + one.bits) ∷ t) (two.split ∙ ap (λ t. (128 + two.bits) ∷ t) three.split) in
    record {
      rest = three.rest;
      split = ap (λ t. (240 + x) ∷ t) all ∙ rw (code, high, upper, lower, low) refl;
      after = ap (drop 3) (sym all);
      size = rw code (omega arith);
    }

data LeadCase (lead : ℕ) (form : LeadForm) : Type 0 where
  two :
      (x : ℕ)
      → x < 32
      → 192 + x ≡ lead
      → record { extra_bytes = 1; codepoint = x; min_codepoint = 0x80 } ≡ form
      → LeadCase lead form
  three :
      (x : ℕ)
      → x < 16
      → 224 + x ≡ lead
      → record { extra_bytes = 2; codepoint = x; min_codepoint = 0x800 } ≡ form
      → LeadCase lead form
  four :
      (x : ℕ)
      → x < 8
      → 240 + x ≡ lead
      → record { extra_bytes = 3; codepoint = x; min_codepoint = 0x10000 } ≡ form
      → LeadCase lead form

lead_cases :
    (lead : ℕ) (form : LeadForm) → IsByte lead → lead_form lead ≡ some form → LeadCase lead form
lead_cases lead form h f =
    let f' = rw (lead_form_lem lead h) at f in
    elim (dec_lt lead 192) [
      | yes low ↦ absurd (ground (arith, f'))
      | no not_low ↦ elim (dec_lt lead 224) [
        | yes is_two ↦ two (lead - 192) (omega arith) (omega arith) (ground (arith, f'))
        | no not_two ↦ elim (dec_lt lead 240) [
          | yes is_three ↦ three (lead - 224) (omega arith) (omega arith) (ground (arith, f'))
          | no not_three ↦
              let bound : lead < 248 = ground (arith, f') in
              four (lead - 240) (omega arith) (omega arith) (ground (arith, f'))
        ]
      ]
    ]

module _ (lead : ℕ) (bytes : List ℕ) (c : ℕ) (hb : All IsByte bytes) (hi : c ≤ 0x10FFFF) where
  abbrev FormReads : LeadForm → Type 0
  FormReads form =
      read_continuations form.extra_bytes form.codepoint bytes ≡ some c
      → form.min_codepoint ≤ c
      → IsEncoded form.extra_bytes lead bytes c

  case_reads : (form : LeadForm) → LeadCase lead form → FormReads form
  case_reads form (two x hx l f) =
      subst FormReads f
        λ e lo. subst (λ t. IsEncoded 1 t bytes c) l (IsEncoded-two x bytes c hb hx e lo)
  case_reads form (three x hx l f) =
      subst FormReads f
        λ e lo. subst (λ t. IsEncoded 2 t bytes c) l (IsEncoded-three x bytes c hb hx e lo)
  case_reads form (four x hx l f) =
      subst FormReads f
        λ e lo. subst (λ t. IsEncoded 3 t bytes c) l (IsEncoded-four x bytes c hb hx e lo hi)

  -- A lead byte with its continuations, and the tests on the code point.
  pub IsEncoded-form :
      (form : LeadForm)
      → IsByte lead
      → lead_form lead ≡ some form
      → read_continuations form.extra_bytes form.codepoint bytes ≡ some c
      → form.min_codepoint ≤ c
      → IsEncoded form.extra_bytes lead bytes c
  IsEncoded-form form h f = case_reads form (lead_cases lead form h f)

-- A code point that was decoded is at most U+10FFFF, and the bytes that it was read from are its
-- encoding, of the length that is reported: no overlong form is accepted.
pub record IsDecoded (bytes : List ℕ) (d : DecodedCodepoint) : Type 0 where
  pub bound : d.codepoint ≤ 0x10FFFF
  pub rest : List ℕ
  pub split : bytes ≡ encode_codepoint d.codepoint ++ rest
  pub size : d.length ≡ length (encode_codepoint d.codepoint)

decode_form-some :
    (form : LeadForm) (bytes : List ℕ) (d : DecodedCodepoint)
    → decode_form form bytes ≡ some d
    → (read_continuations form.extra_bytes form.codepoint bytes ≡ some d.codepoint)
      × (form.min_codepoint ≤ d.codepoint)
      × (d.codepoint ≤ 0x10FFFF)
      × (d.length ≡ form.extra_bytes + 1)
unfolding decode_form
decode_form-some form bytes d e = (ground arith, ground arith, ground arith, ground arith)

decode_form_inverse :
    (lead : ℕ) (bytes : List ℕ) (form : LeadForm) (d : DecodedCodepoint)
    → IsByte lead
    → All IsByte bytes
    → lead_form lead ≡ some form
    → decode_form form bytes ≡ some d
    → IsDecoded (lead ∷ bytes) d
decode_form_inverse lead bytes form d h hb f e =
    let (read, lo, hi, size) = decode_form-some form bytes d e in
    let encoded = IsEncoded-form lead bytes d.codepoint hb hi form h f read lo in
    record {
      bound = hi;
      rest = encoded.rest;
      split = encoded.split;
      size = size ∙ sym encoded.size;
    }

decode_ascii :
    (lead : ℕ) (bytes : List ℕ)
    → lead < 0x80
    → IsDecoded (lead ∷ bytes) (record { codepoint = lead; length = 1 })
decode_ascii lead bytes h = record {
  bound = omega arith;
  rest = bytes;
  split = rw (encode_one lead h) refl;
  size = rw (encode_one lead h) refl;
}

-- What `decode_one_permissive` accepts is an encoding that starts the bytes.
pub decode_one_permissive-IsDecoded :
    (bytes : List ℕ) (d : DecodedCodepoint)
    → All IsByte bytes
    → decode_one_permissive bytes ≡ some d
    → IsDecoded bytes d
unfolding decode_one_permissive
decode_one_permissive-IsDecoded [] d h e = cc
decode_one_permissive-IsDecoded (lead ∷ bytes) d h e = elim (dec_lt lead 0x80) [
  | yes low ↦ subst (IsDecoded (lead ∷ bytes)) (ground arith) (decode_ascii lead bytes low)
  | no high ↦ elim (Option-cases (lead_form lead)) [
    | inl none_form ↦ absurd (ground arith)
    | inr (form, f) ↦ decode_form_inverse lead bytes form d h.0 h.1 f (ground arith)
  ]
]
