-- ===== src/Concurrency/Quiescence.antt =====
-- src/r25_quiescence.hpp: the shared count of accepted work. Each function is the part of the member
-- function that runs under the lock; waiting is a step that is taken only where the test holds.
use genia_cpp.Base.{ℕ, ◌+◌, ◌-◌, ◌%◌, ◌^◌, ◌==◌, Bool, ◌≡◌, arith}

-- The width of `std::size_t` and `std::uint64_t`.
abbrev pub counter : ℕ → ℕ
counter n = n % 2 ^ 64

unfoldable pub accept : ℕ → ℕ
accept pending = counter (pending + 1)

-- `pending_ -= count`.
unfoldable pub complete : ℕ → ℕ → ℕ
complete count pending = counter (pending + 2 ^ 64 - counter count)

-- The test that `await_idle` waits for.
unfoldable pub is_settled : ℕ → Bool
is_settled pending = pending == 0

-- Retiring a part of the work leaves the count of the rest.
pub complete_lem : (count rest p : ℕ) → p ≡ counter (rest + count) → complete count p ≡ counter rest
unfolding complete
complete_lem count rest p h = omega (arith, h)
