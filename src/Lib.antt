-- ===== src/Lib.antt =====
-- The C++ host of Genia: its integers and exact numbers, its text encoding, its ordered maps and
-- scopes, the entities that work concurrently, its lazy flows, the matching of patterns, and the
-- lowering of programs to Core IR.
--
-- Bignum models src/bignum.hpp. `Integer` is a sign and a list of limbs in base 2^32, lowest first.
-- The operations stand in Bignum, Bignum/Division and Bignum/Decimal under the names of the member
-- functions; Bignum/Limbs has their loops. A result in 32 or 64 bits is a remainder by 2^32 or 2^64.
-- The loops of `gcd` and of `to_decimal_string` run on fuel: the sum of the numbers, and two rounds
-- for a limb, which the theorems show to be enough.
--
-- Utf8 models src/utf8.hpp: `is_well_formed`, `decode_one_permissive` and `encode_codepoint`, on a
-- list of numbers below 256. The loop of `is_well_formed` runs on a round for each byte.
--
-- Concurrency models src/r25_quiescence.hpp, src/ref.hpp, src/cell.hpp and src/process.hpp. A step
-- is a section that the source runs under a lock, and every order of the steps of all threads is a
-- path of the step relations CellStep, ProcessStep and WorldStep. The callbacks of cells and
-- processes are arguments: they give the sends that they stage, and a value, none, or an exception.
-- The count of accepted work is shared by all entities (Concurrency/World). Locks, condition
-- variables and the joining of threads are not modelled but for the sections and the tests that they
-- guard, nor is a failure to allocate.
--
-- Values models `OrderedMap` of src/value.hpp and src/environment.hpp. A map has its entries in the
-- order of insertion and an index into them; the encodings of keys are texts. Scopes stand in a list
-- and point to their parents by number, since closures share them. The search through the scopes
-- runs on the number of the scope, which is enough since parents are older.
--
-- Values/Value models the sum of values of src/value.hpp.
--
-- Flow models src/flow.hpp. Flows stand in a list in a store, with the flag that they were consumed;
-- a factory is what it captures (Flow/Store), and a pull function is the state of its closure, which
-- a pull gives anew (Flow/Pull). A stage that is `lazy` consumes its upstream on its first pull. The
-- operations, the terminals and the routing of calls stand in Flow/Operations. The callback of the
-- evaluator is an argument: it may change the store, give a value or none, or throw. A pull runs on
-- fuel, since a stage pulls its upstream and `filter` and `drop` loop; the theorems name how much
-- fuel is enough.
--
-- Numbers models the exact numbers: src/rational.hpp, src/arithmetic.hpp and the numbers of
-- src/equality.hpp. Decimal exponents are integers whose arithmetic wraps around to 64 bits
-- (`as_i64`), as that of `int` does to 32 (`as_int`); in C++ such an overflow has no meaning, and the
-- theorems on exponents say in which range they hold. The counts of the factors of a number are not
-- cut to 64 bits, since a number in memory has fewer. The loops that divide by a factor run on the
-- magnitude of the number, which is shown to be enough. A double is its 64 bits, which the source
-- decodes.
--
-- Syntax models src/pattern.hpp, src/ast.hpp, src/core_ir.hpp and src/lowering.hpp: trees with a
-- constructor for each factory, and the lowering from one to the other. The source line of a pattern
-- is left out. `lower_node` and the flattening of pipelines are one structural recursion;
-- Syntax/Lowering/Pipeline has the two steps of the source, and chains of stages. A chain in front
-- of a chain is the reason that lowering can be undone only on what it gives.
--
-- Matching models `structural_equal` of src/equality.hpp and src/pattern_match.hpp. Equality and
-- matching are structural recursions with their loops. A list pattern of the wrong length is refused
-- at the end of the list and not before its start, which gives no match in either case. A `String`
-- of a pattern stands for its bytes.
--
-- Numbers/Float64 models src/float64.hpp on the bits of a double; the operations of the hardware on
-- two doubles are an argument (`Binary64`). Numbers/StandsFor and Numbers/Float64/Decimals say which
-- number an integer and a fraction are, and Numbers/Float64/Widths how large. The children of
-- Numbers/Float64 follow `fraction_to_binary64`: the exponent of the leading bit (Leading), the
-- scale and an exact quotient (Scaled, Bits, RoundTrip), and any quotient, which goes to the nearest
-- of the multiples that doubles are (Multiples, Grid, Rounded, Encoded, Nearest, Rounding).
--
-- Rendering models src/render.hpp. `std::to_chars`, which gives the shortest text of a double, is an
-- argument there and in Json (`ToChars`). Rendering/Unquoted has a reader of quoted texts, by
-- which Rendering/Quoted judges them.
--
-- Json models src/json.hpp. A cursor is the text from the position on, with its line and column, which
-- are not bounded here. `then_decode` passes a failure on as the early returns do. The recursion of
-- `parse_value` and the loops of arrays and objects run on fuel, two units for each byte of the
-- document and three, and the loop of a string on a round for each byte (Json/Exchange). A map of the
-- host holds its entries and its index (Json/Maps).
--
-- Base has what the parts share: Boolean tests and lists over the native numbers, the integers, and
-- the bits of numbers.
--
-- Not modelled: the parser, the evaluator and its native functions, the fields of format texts, the
-- projections of the trees, and the protocol of the adapter.
pub mod Base
pub mod Bignum
pub mod Utf8
pub mod Concurrency
pub mod Flow
pub mod Values
pub mod Syntax
pub mod Numbers
pub mod Matching
pub mod Rendering
pub mod Json
