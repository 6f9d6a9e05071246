-- ===== src/Json/Result.antt =====
-- src/json.hpp: failures, and the contexts made of them.
use genia_cpp.Base.{ℕ, Bool, true, false, if◌then◌else◌, Option, none, some, [], ◌∷◌, codes, ◌||◌}
use genia_cpp.Bignum.{from_u64}
use genia_cpp.Values.Value.{Text, Value}
use genia_cpp.Json.Maps.{HostMap, empty_host_map, put_text, make_map}

pub data Error : Type 0 where
  invalid_json duplicate_key number_out_of_range invalid_unicode : Error
  nesting_too_deep unsupported_value : Error

-- The line and the column, where there are any.
pub record Failure : Type 0 where
  pub error : Error
  pub position : Option (ℕ × ℕ)
  pub key : Text
  pub value_type : Text

abbrev pub failure_of : Error → Failure
failure_of error = record { error = error; position = none; key = []; value_type = [] }

-- A value, or a failure.
pub data Result (A : Type 0) : Type 0 where
  ok : A → Result A
  fail : Failure → Result A

abbrev pub and_then : {A B : Type 0} → Result A → (A → Result B) → Result B
and_then (Result.ok a) f = f a
and_then (Result.fail failure) f = Result.fail failure

unfoldable pub reason : Error → Text
reason Error.invalid_json = codes "invalid_json"
reason Error.duplicate_key = codes "duplicate_json_key"
reason Error.number_out_of_range = codes "json_number_out_of_range"
reason Error.invalid_unicode = codes "invalid_json_unicode"
reason Error.nesting_too_deep = codes "json_nesting_too_deep"
reason Error.unsupported_value = codes "unsupported_json_value"

abbrev pub max_nesting : ℕ
max_nesting = 128

abbrev pub put_string : Text → Text → HostMap → HostMap
put_string key text m = put_text key (Value.string text) m

-- The entries that every context has.
abbrev pub base_context : Text → Text → Text → HostMap
base_context operation status cause = put_string (codes "reason") cause (
    put_string (codes "status") status (
      put_string (codes "operation") operation
        (put_string (codes "kind") (codes "json") empty_host_map)))

abbrev pub put_position : Option (ℕ × ℕ) → HostMap → HostMap
put_position none m = m
put_position (some (line, column)) m =
    put_text (codes "column") (Value.integer (from_u64 column))
      (put_text (codes "line") (Value.integer (from_u64 line)) m)

abbrev pub is_nonempty : Text → Bool
is_nonempty [] = false
is_nonempty (c ∷ text) = true

abbrev pub is_duplicate : Error → Bool
is_duplicate Error.duplicate_key = true
is_duplicate error = false

abbrev pub put_key : Failure → HostMap → HostMap
put_key failure m =
    if is_nonempty failure.key || is_duplicate failure.error
    then put_string (codes "key") failure.key m
    else m

abbrev pub put_value_type : Text → HostMap → HostMap
put_value_type [] m = m
put_value_type (c ∷ text) m = put_string (codes "value_type") (c ∷ text) m

unfoldable pub build_context : Text → Text → Failure → Value
build_context operation status failure = make_map (
    put_value_type failure.value_type (
      put_key failure
        (put_position failure.position (base_context operation status (reason failure.error)))))

unfoldable pub success_context : Text → Text → Value
success_context operation status = make_map (base_context operation status status)
