-- ===== src/Json/RoundTrip/Layout.antt =====
-- src/json.hpp: the lines that the encoder writes, and the space that the decoder skips.
use genia_cpp.Base.{
  ℕ, zero, suc, ◌≡◌, refl, sym, ap, ◌∙◌, false, ◌==◌, List, [], ◌∷◌, ◌++◌, replicate,
}
use genia_cpp.Values.Value.{Text}
use genia_cpp.Json.Encoder.{indent, join_lines, encode_container_items}
use genia_cpp.Json.Decoder.Position.{Cursor, skip_from, skip_ws, is_space}
use genia_cpp.Json.RoundTrip.Reads.{at_cursor}
use mathlib.Core.List.{append_assoc}

-- A text that a value starts with: no space, and no end of a container.
abbrev pub HasStart : Text → Type 0
HasStart [] = ⊥
HasStart (c ∷ text) = (is_space c ≡ false) × ((c == b']') ≡ false) × ((c == b'}') ≡ false)

skip_from_blanks :
    (n c : ℕ) (text : Text) (line column : ℕ)
    → is_space c ≡ false
    → (skip_from (replicate n b' ' ++ c ∷ text) line column).rest ≡ c ∷ text
unfolding skip_from
skip_from_blanks zero c text line column h = rw h refl
skip_from_blanks (suc n) c text line column h = skip_from_blanks n c text _ _ h

-- Blanks are skipped, also behind a line's end.
pub skip_ws_blanks :
    (n c : ℕ) (text : Text) (at : Cursor)
    → is_space c ≡ false
    → at.rest ≡ replicate n b' ' ++ c ∷ text
    → (skip_ws at).rest ≡ c ∷ text
skip_ws_blanks n c text at h e =
    at_cursor (λ d. (skip_ws d).rest ≡ c ∷ text) (replicate n b' ' ++ c ∷ text)
      (λ line column. skip_from_blanks n c text line column h) at e

pub skip_ws_line :
    (n c : ℕ) (text : Text) (at : Cursor)
    → is_space c ≡ false
    → at.rest ≡ b'\n' ∷ replicate n b' ' ++ c ∷ text
    → (skip_ws at).rest ≡ c ∷ text
unfolding skip_from
skip_ws_line n c text at h e =
    at_cursor (λ d. (skip_ws d).rest ≡ c ∷ text) (b'\n' ∷ replicate n b' ' ++ c ∷ text)
      (λ line column. skip_from_blanks n c text _ _ h) at e

-- What stands behind the first line of a container: the other lines, and its end.
unfoldable pub behind_line : ℕ → ℕ → List Text → Text → Text
behind_line closing depth [] rest = b'\n' ∷ indent depth ++ closing ∷ rest
behind_line closing depth (line ∷ lines) rest =
    b',' ∷ b'\n' ∷ indent (suc depth) ++ (line ++ behind_line closing depth lines rest)

join_lines-behind_line :
    (closing depth : ℕ) (line : Text) (lines : List Text) (rest : Text)
    → join_lines depth (line ∷ lines) ++ (indent depth ++ closing ∷ rest)
      ≡ indent (suc depth) ++ (line ++ behind_line closing depth lines rest)
unfolding join_lines behind_line
join_lines-behind_line closing depth line [] rest = simp append_assoc
join_lines-behind_line closing depth line (next ∷ lines) rest =
    simp (append_assoc, sym (join_lines-behind_line closing depth next lines rest))

pub encode_container_items-behind_line :
    (opening closing depth : ℕ) (line : Text) (lines : List Text) (rest : Text)
    → encode_container_items (line ∷ lines) opening closing depth ++ rest
      ≡ opening ∷ b'\n' ∷ indent (suc depth) ++ (line ++ behind_line closing depth lines rest)
unfolding encode_container_items
encode_container_items-behind_line opening closing depth line lines rest =
    ap (λ (t : Text). opening ∷ b'\n' ∷ t)
      (append_assoc (join_lines depth (line ∷ lines) ++ indent depth) (closing ∷ []) rest
        ∙ append_assoc (join_lines depth (line ∷ lines)) (indent depth) (closing ∷ rest)
        ∙ join_lines-behind_line closing depth line lines rest)
