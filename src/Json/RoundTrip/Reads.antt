-- ===== src/Json/RoundTrip/Reads.antt =====
-- src/json.hpp, class `Decoder`: a result that is a given value, with a given text behind it.
use genia_cpp.Base.{ℕ, ◌≡◌, refl, sym, subst, ap, List, [], ◌∷◌, ◌++◌, length, take, drop}
use genia_cpp.Values.Value.{Text}
use genia_cpp.Json.Decoder.Position.{Cursor, Decoded, then_decode}

pub data Reads {A : Type 0} (v : A) (rest : Text) : Decoded A → Type 0 where
  reads : {c : Cursor} → c.rest ≡ rest → Reads v rest (Decoded.done v c)

-- The value, where it stands behind the text.
pub Reads-done :
    {A : Type 0} {v : A} {rest : Text} {r : Decoded A}
    → Reads v rest r
    → (c : Cursor) × (r ≡ Decoded.done v c) × (c.rest ≡ rest)
Reads-done (reads {c} e) = (c, refl, e)

pub Reads-bind :
    {A B : Type 0} {v : A} {w : B} {middle rest : Text} {r : Decoded A}
    → Reads v middle r
    → (f : A → Cursor → Decoded B) → ((c : Cursor) → c.rest ≡ middle → Reads w rest (f v c))
    → Reads w rest (then_decode r f)
Reads-bind (reads {c} e) f k = k c e

-- What holds at every line and column holds at every cursor with the text.
pub at_cursor :
    (P : Cursor → Type 0) (text : Text)
    → ((line column : ℕ) → P (record { rest = text; line = line; column = column }))
    → (c : Cursor) → c.rest ≡ text
    → P c
at_cursor P text h c e =
    subst (λ (t : Text). P (record { rest = t; line = c.line; column = c.column })) (sym e)
      (h c.line c.column)

module _ {A : Type 0} where
  pub take-append : (xs ys : List A) → take (length xs) (xs ++ ys) ≡ xs
  take-append [] ys = refl
  take-append (x ∷ xs) ys = ap (λ (l : List A). x ∷ l) (take-append xs ys)

  pub drop-append : (xs ys : List A) → drop (length xs) (xs ++ ys) ≡ ys
  drop-append [] ys = refl
  drop-append (x ∷ xs) ys = drop-append xs ys
