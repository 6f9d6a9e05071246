-- ===== src/Json/Decoder/Position.antt =====
-- src/json.hpp, class `Decoder`: the position in the text.
use genia_cpp.Base.{
  ℕ, zero, suc, Bool, true, false, ◌||◌, if◌then◌else◌, ◌==◌, Option, none, some, [], ◌∷◌, length,
  drop,
}
use genia_cpp.Values.Value.{Text}
use genia_cpp.Json.Result.{Error, Failure, failure_of}

-- The text from `pos_` on, and the line and the column.
pub record Cursor : Type 0 where
  pub rest : Text
  pub line : ℕ
  pub column : ℕ

abbrev pub start : Text → Cursor
start text = record { rest = text; line = 1; column = 1 }

-- What a member function returns, with the position behind it, or a model that ran out of fuel.
pub data Decoded (A : Type 0) : Type 0 where
  done : A → Cursor → Decoded A
  failed : Failure → Decoded A
  no_fuel : Decoded A

abbrev pub then_decode : {A B : Type 0} → Decoded A → (A → Cursor → Decoded B) → Decoded B
then_decode (Decoded.done a c) f = f a c
then_decode (Decoded.failed failure) f = Decoded.failed failure
then_decode Decoded.no_fuel f = Decoded.no_fuel

-- `invalid_here`.
abbrev pub invalid_at : Cursor → Failure
invalid_at c = record (failure_of Error.invalid_json) { position = some (c.line, c.column) }

abbrev pub next_line : ℕ → ℕ → ℕ
next_line codepoint line = if codepoint == 10 then suc line else line

abbrev pub next_column : ℕ → ℕ → ℕ
next_column codepoint column = if codepoint == 10 then 1 else suc column

abbrev pub advance_codepoint : ℕ → ℕ → Cursor → Cursor
advance_codepoint codepoint size c = record {
  rest = drop size c.rest;
  line = next_line codepoint c.line;
  column = next_column codepoint c.column;
}

-- Over the first character.
abbrev pub advance_over : Text → ℕ → ℕ → Cursor
advance_over [] line column = record { rest = []; line = line; column = column }
advance_over (ch ∷ text) line column = record {
  rest = text;
  line = next_line ch line;
  column = next_column ch column;
}

abbrev pub advance_ascii : Cursor → Cursor
advance_ascii c = advance_over c.rest c.line c.column

abbrev pub is_space : ℕ → Bool
is_space c = c == b' ' || (c == 9 || (c == 10 || c == 13))

unfoldable pub skip_from : Text → ℕ → ℕ → Cursor
skip_from [] line column = record { rest = []; line = line; column = column }
skip_from (ch ∷ text) line column =
    let behind = skip_from text (next_line ch line) (next_column ch column) in
    if is_space ch then behind else record { rest = ch ∷ text; line = line; column = column }

abbrev pub skip_ws : Cursor → Cursor
skip_ws c = skip_from c.rest c.line c.column

-- The text starts with the literal.
abbrev pub starts_with : Text → Text → Bool
starts_with [] text = true
starts_with (d ∷ literal) [] = false
starts_with (d ∷ literal) (ch ∷ text) = if ch == d then starts_with literal text else false

abbrev pub advance_times : ℕ → Cursor → Cursor
advance_times zero c = c
advance_times (suc n) c = advance_times n (advance_ascii c)

unfoldable pub consume_literal : Text → Cursor → Option Cursor
consume_literal literal c =
    if starts_with literal c.rest then some (advance_times (length literal) c) else none
