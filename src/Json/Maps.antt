-- ===== src/Json/Maps.antt =====
-- src/value.hpp: `OrderedMap` on the values of the host, whose maps hold their entries and their index.
use genia_cpp.Base.{ℕ, zero, suc, Bool, true, false, Option, none, some, List, [], ◌∷◌}
use genia_cpp.Values.Value.{Text, Value, ValueEntries}
use genia_cpp.Numbers.Fractions.{map_key_encoding}
use genia_cpp.Matching.Equality.{position, count_entries}

-- Behind all entries.
unfoldable pub push_entry : Value → Value → ValueEntries → ValueEntries
push_entry key value ValueEntries.end = ValueEntries.entry key value ValueEntries.end
push_entry key value (ValueEntries.entry k v entries) =
    ValueEntries.entry k v (push_entry key value entries)

-- `entries_[i] = ...`.
unfoldable pub assign_entry : ℕ → Value → Value → ValueEntries → ValueEntries
assign_entry i key value ValueEntries.end = ValueEntries.end
assign_entry zero key value (ValueEntries.entry k v entries) = ValueEntries.entry key value entries
assign_entry (suc i) key value (ValueEntries.entry k v entries) =
    ValueEntries.entry k v (assign_entry i key value entries)

-- The entries and the index of a map.
abbrev pub HostMap : Type 0
HostMap = ValueEntries × List (Text × ℕ)

abbrev pub empty_host_map : HostMap
empty_host_map = (ValueEntries.end, [])

abbrev pub is_some_position : Option ℕ → Bool
is_some_position none = false
is_some_position (some i) = true

-- `has`.
unfoldable pub map_has : Text → HostMap → Bool
map_has encoding m = is_some_position (position encoding m.1)

abbrev pub put_at : Text → Value → Value → HostMap → Option ℕ → HostMap
put_at encoding key value (entries, index) none =
    (push_entry key value entries, (encoding, count_entries entries) ∷ index)
put_at encoding key value (entries, index) (some i) = (assign_entry i key value entries, index)

-- `put`.
unfoldable pub map_put : Text → Value → Value → HostMap → HostMap
map_put encoding key value m = put_at encoding key value m (position encoding m.1)

-- `put` of a text under a text.
abbrev pub put_text : Text → Value → HostMap → HostMap
put_text key value m = map_put (map_key_encoding (Value.string key)) (Value.string key) value m

abbrev pub make_map : HostMap → Value
make_map (entries, index) = Value.map entries index
