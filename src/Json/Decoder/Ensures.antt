-- ===== src/Json/Decoder/Ensures.antt =====
-- src/json.hpp, class `Decoder`: what holds of a result and of the position behind it.
use genia_cpp.Base.{
  ℕ, zero, suc, ◌≤◌, ◌≡◌, ◌≢◌, refl, subst, Bool, true, false, if◌then◌else◌, List, [], ◌∷◌, length,
  arith, drop,
}
use genia_cpp.Values.Value.{Text}
use genia_cpp.Json.Result.{Failure}
use genia_cpp.Json.Decoder.Position.{
  Cursor, Decoded, then_decode, skip_from, next_line, next_column,
}

-- A failure ensures everything, and a run without fuel nothing.
pub data Ensures {A : Type 0} (P : A → Cursor → Type 0) : Decoded A → Type 0 where
  holds : {a : A} {c : Cursor} → P a c → Ensures P (Decoded.done a c)
  rejected : {failure : Failure} → Ensures P (Decoded.failed failure)

module _ {A : Type 0} {P : A → Cursor → Type 0} where
  pub Ensures-if :
      {x y : Decoded A} (b : Bool)
      → (b ≡ true → Ensures P x)
      → (b ≡ false → Ensures P y)
      → Ensures P (if b then x else y)
  Ensures-if true f g = f refl
  Ensures-if false f g = g refl

  pub Ensures-no_fuel : {r : Decoded A} → Ensures P r → r ≢ Decoded.no_fuel
  Ensures-no_fuel (holds h) = cc
  Ensures-no_fuel rejected = cc

  pub Ensures-done :
      {r : Decoded A} {a : A} {c : Cursor} → Ensures P r → r ≡ Decoded.done a c → P a c
  Ensures-done {r} {a} {c} h e = extract (subst (Ensures P) e h)
    where
      extract : Ensures P (Decoded.done a c) → P a c
      extract (holds p) = p

  pub Ensures-weaken :
      {Q : A → Cursor → Type 0} {r : Decoded A}
      → Ensures P r
      → ((a : A) (c : Cursor) → P a c → Q a c)
      → Ensures Q r
  Ensures-weaken (holds {a} {c} h) f = holds (f a c h)
  Ensures-weaken rejected f = rejected

  pub Ensures-bind :
      {B : Type 0} {Q : B → Cursor → Type 0} {r : Decoded A} {f : A → Cursor → Decoded B}
      → Ensures P r
      → ((a : A) (c : Cursor) → P a c → Ensures Q (f a c))
      → Ensures Q (then_decode r f)
  Ensures-bind (holds {a} {c} h) k = k a c h
  Ensures-bind rejected k = rejected

-- No more than so much text is left.
abbrev pub Left : {A : Type 0} → ℕ → A → Cursor → Type 0
Left n a c = length c.rest ≤ n

pub length-drop : {A : Type 0} (n : ℕ) (xs : List A) → length (drop n xs) ≤ length xs
length-drop zero xs = omega arith
length-drop (suc n) [] = omega arith
length-drop (suc n) (x ∷ xs) = omega (arith, length-drop n xs)

pub length-skip_from :
    (text : Text) (line column : ℕ) → length (skip_from text line column).rest ≤ length text
unfolding skip_from
length-skip_from [] line column = omega arith
length-skip_from (ch ∷ text) line column =
    ground (arith, length-skip_from text (next_line ch line) (next_column ch column))
