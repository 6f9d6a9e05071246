-- ===== src/Concurrency/Ref.antt =====
-- src/ref.hpp: storage that is unset or holds a value. An operation is one step under the lock.
use genia_cpp.Base.{Bool, true, false, Option, none, some}

-- A call waits for a value, ends in an exception, or returns.
pub data Call {ℓ} (A : Type ℓ) : Type ℓ where
  blocks : Call A
  raises : Call A
  returns : A → Call A

module _ {ℓ} {V : Type ℓ} where
  -- `value_`.
  unfoldable pub get : Option V → Call V
  get none = Call.blocks
  get (some value) = Call.returns value

  -- The result, and the new storage.
  unfoldable pub set : V → Option V → V × Option V
  set replacement value = (replacement, some replacement)

  unfoldable pub is_set : Option V → Bool
  is_set none = false
  is_set (some value) = true

  -- The updater answers `none` where it raises an exception.
  unfoldable pub update : (V → Option V) → Option V → Call V × Option V
  update updater none = (Call.blocks, none)
  update updater (some value) = elim (updater value) [
    | none ↦ (Call.raises, some value)
    | some replacement ↦ (Call.returns replacement, some replacement)
  ]
