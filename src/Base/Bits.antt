-- ===== src/Base/Bits.antt =====
-- Masks on a byte as arithmetic, each checked by evaluation over the range where it is used.
use Prim.Native.Nat.{ℕ, zero, suc, ◌+◌, ◌*◌, ◌/◌, ◌%◌, ◌<◌, bit_and, bit_or}
use mathlib.Core.Path.{◌≡◌, refl}
use mathlib.Core.Bool.{Bool, true, false}
use mathlib.Core.Logic.{ite}
use native.Mathlib.Decide.{ℕ_discrete}
use native.Mathlib.Omega.{arith}

module _ (f g : ℕ → ℕ) where
  agree_below : ℕ → Bool
  unfolding ℕ_discrete
  agree_below zero = true
  agree_below (suc n) = ite (ℕ_discrete (f n) (g n)) (agree_below n) false

  agree_below→eq : (n : ℕ) → agree_below n ≡ true → (i : ℕ) → i < n → f i ≡ g i
  unfolding agree_below
  agree_below→eq zero e i h = elim h [ ]
  agree_below→eq (suc n) e i h = ground (arith, agree_below→eq n (ground arith) i)

pub bit_and_e0 : (b : ℕ) → b < 256 → bit_and b 0xE0 ≡ b / 32 * 32
unfolding agree_below
bit_and_e0 = agree_below→eq _ _ 256 refl

pub bit_and_f0 : (b : ℕ) → b < 256 → bit_and b 0xF0 ≡ b / 16 * 16
unfolding agree_below
bit_and_f0 = agree_below→eq _ _ 256 refl

pub bit_and_f8 : (b : ℕ) → b < 256 → bit_and b 0xF8 ≡ b / 8 * 8
unfolding agree_below
bit_and_f8 = agree_below→eq _ _ 256 refl

pub bit_and_c0 : (b : ℕ) → b < 256 → bit_and b 0xC0 ≡ b / 64 * 64
unfolding agree_below
bit_and_c0 = agree_below→eq _ _ 256 refl

pub bit_and_1f : (b : ℕ) → b < 256 → bit_and b 0x1F ≡ b % 32
unfolding agree_below
bit_and_1f = agree_below→eq _ _ 256 refl

pub bit_and_0f : (b : ℕ) → b < 256 → bit_and b 0x0F ≡ b % 16
unfolding agree_below
bit_and_0f = agree_below→eq _ _ 256 refl

pub bit_and_07 : (b : ℕ) → b < 256 → bit_and b 0x07 ≡ b % 8
unfolding agree_below
bit_and_07 = agree_below→eq _ _ 256 refl

pub bit_and_3f : (b : ℕ) → b < 256 → bit_and b 0x3F ≡ b % 64
unfolding agree_below
bit_and_3f = agree_below→eq _ _ 256 refl

pub bit_or_c0 : (b : ℕ) → b < 64 → bit_or 0xC0 b ≡ 192 + b
unfolding agree_below
bit_or_c0 = agree_below→eq _ _ 64 refl

pub bit_or_e0 : (b : ℕ) → b < 32 → bit_or 0xE0 b ≡ 224 + b
unfolding agree_below
bit_or_e0 = agree_below→eq _ _ 32 refl

pub bit_or_f0 : (b : ℕ) → b < 16 → bit_or 0xF0 b ≡ 240 + b
unfolding agree_below
bit_or_f0 = agree_below→eq _ _ 16 refl

pub bit_or_80 : (b : ℕ) → b < 128 → bit_or 0x80 b ≡ 128 + b
unfolding agree_below
bit_or_80 = agree_below→eq _ _ 128 refl
