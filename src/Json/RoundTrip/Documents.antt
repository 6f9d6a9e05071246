-- ===== src/Json/RoundTrip/Documents.antt =====
-- src/json.hpp: `decode_document` reads what `encode_at` writes for the values that JSON stands for.
use genia_cpp.Base.{ℕ, ◌+◌, ◌*◌, ◌<◌, ◌≡◌, refl, sym, ap, ◌∙◌, [], ◌++◌, length, arith}
use genia_cpp.Values.Value.{Text, Value}
use genia_cpp.Rendering.Numbers.{ToChars}
use genia_cpp.Json.Result.{Result}
use genia_cpp.Json.Encoder.{encode_value, encode_at}
use genia_cpp.Json.Decoder.{at_document_end, parse_document, decode_document}
use genia_cpp.Json.Decoder.Position.{skip_from, Cursor, start, Decoded, skip_ws}
use genia_cpp.Json.RoundTrip.Reads.{Reads-done, Reads, reads, Reads-bind, at_cursor}
use genia_cpp.Json.RoundTrip.Plain.{IsPlain, encode_at-HasStart}
use genia_cpp.Json.RoundTrip.Values.{value-Reads}
use genia_cpp.Json.RoundTrip.Steps.{skip_ws_start}
use mathlib.Core.List.{append-nil}

-- `decode_document` reads what `encode_value` writes.
encode_value-IsPlain :
    (to_chars : ToChars) (v : Value) → IsPlain v → encode_value to_chars v ≡ encode_at to_chars v 0
unfolding encode_value
encode_value-IsPlain to_chars (Value.represented facet v) h = elim h [ ]
encode_value-IsPlain to_chars _ h = refl

document-Reads :
    (to_chars : ToChars) (fuel : ℕ) (v : Value) (text : Text)
    → IsPlain v
    → encode_at to_chars v 0 ≡ Result.ok text
    → 2 * length text < fuel
    → Reads v [] (parse_document to_chars fuel (start text))
unfolding parse_document
document-Reads to_chars fuel v text h e enough =
    let starts = encode_at-HasStart to_chars v 0 text h e in
    let whole : text ≡ text ++ [] = sym (append-nil text) in
    let once = skip_ws_start text [] (start text) starts whole in
    let twice = skip_ws_start text [] (skip_ws (start text)) starts once in
    Reads-bind
      (value-Reads to_chars v 0 fuel text [] h e refl (omega (arith, ap length whole, enough))
        (skip_ws (start text)) twice)
      _
      (λ d g.
        at_cursor (λ c. Reads v [] (at_document_end to_chars v (skip_ws c) (skip_ws c).rest)) []
          (λ line column. unfold skip_from in reads refl) d g)

-- Where `encode_value` returns a text for null, a Boolean, a canonical integer, a text in UTF-8, a list of
-- these, or a map that `put` made of these under texts, in order and once each, at any depth,
-- `decode_document` on the text returns the value, and has read all of the text.
pub decode_document-encode_value :
    (to_chars : ToChars) (v : Value) (text : Text)
    → IsPlain v
    → encode_value to_chars v ≡ Result.ok text
    → (c : Cursor) × (decode_document to_chars text ≡ Decoded.done v c) × (c.rest ≡ [])
unfolding decode_document
decode_document-encode_value to_chars v text h e = Reads-done (
    document-Reads to_chars (2 * length text + 3) v text h
      (sym (encode_value-IsPlain to_chars v h) ∙ e) (omega arith))
