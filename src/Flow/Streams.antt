-- ===== src/Flow/Streams.antt =====
-- src/flow.hpp: the stages as functions on the sequence of items.
use genia_cpp.Base.{ℕ, zero, suc, ◌≤◌, ◌≡◌, refl, ap, ◌∙◌, List, [], ◌∷◌, arith}
use genia_cpp.Values.Value.{Value}
use genia_cpp.Flow.Store.{Store, Invoke}
use genia_cpp.Flow.Pull.{
  Stage, Pull, Pulled, Reaction, Result, react, reacted, received, at_end, pull,
}

module _ {H : Type 0} (invoke : Invoke H) where
  -- One call has this result, with any fuel from a bound on.
  abbrev pub Answers : ℕ → Pull → Store H → Pulled → Pull → Store H → Type 0
  Answers bound p s r q t = (n : ℕ) → bound ≤ n → pull invoke n p s ≡ (r, q, t)

  -- One call gives an item.
  abbrev pub GivesOne : ℕ → Pull → Store H → Value → Pull → Store H → Type 0
  GivesOne bound p s x q t = Answers bound p s (Pulled.item x) q t

  -- Calls in a row give these items, and leave that function and that store.
  abbrev pub Gives : ℕ → Pull → Store H → List Value → Pull → Store H → Type 0
  Gives bound p s [] q t = (p ≡ q) × (s ≡ t)
  Gives bound p s (x ∷ xs) q t =
      (p' : Pull) × (s' : Store H) × GivesOne bound p s x p' s' × Gives bound p' s' xs q t

  -- A call tells the end.
  abbrev pub Ends : ℕ → Pull → Store H → Store H → Type 0
  Ends bound p s t = (q : Pull) × Answers bound p s Pulled.ended q t

  abbrev loop : ℕ → Stage → Pull → Store H → Result invoke
  loop n st q t = pull invoke n (Pull.running st q) t

  -- A stage other than `take` at its limit asks for an item.
  abbrev pub Asks : Stage → Type 0
  Asks (Stage.taking zero) = ⊥
  Asks stage = Unit

  pub pull_running :
      (n : ℕ) (stage : Stage) (p : Pull) (s : Store H)
      → Asks stage
      → pull invoke (suc n) (Pull.running stage p) s
        ≡ received invoke (loop n) stage (pull invoke n p s)
  unfolding pull
  pull_running n Stage.strings p s h = refl
  pull_running n (Stage.mapping fn) p s h = refl
  pull_running n (Stage.filtering predicate) p s h = refl
  pull_running n (Stage.taking zero) p s h = absurd h
  pull_running n (Stage.taking (suc k)) p s h = refl
  pull_running n (Stage.dropping k) p s h = refl
  pull_running n (Stage.scanning step state) p s h = refl
  pull_running n Stage.keeping p s h = refl
  pull_running n (Stage.each effect) p s h = refl

  -- A stage that emits one item for each: an item in, an item out.
  pub stage_emits :
      (bound : ℕ) (stage next : Stage) (p q : Pull) (s t u : Store H) (x y : Value)
      → Asks stage
      → GivesOne bound p s x q t
      → react invoke stage x t ≡ (Reaction.emits y next, u)
      → GivesOne (suc bound) (Pull.running stage p) s y (Pull.running next q) u
  stage_emits bound stage next p q s t u x y asks gives e zero h = absurd (omega (arith, h))
  stage_emits bound stage next p q s t u x y asks gives e (suc n) h =
      pull_running n stage p s asks
      ∙ ap (received invoke (loop n) stage) (gives n (omega (arith, h)))
      ∙ ap (reacted invoke (loop n) q) e

  -- A stage that skips an item goes on.
  pub stage_skips :
      (bound : ℕ) (stage next : Stage) (p q r : Pull) (s t u v : Store H) (x : Value) (y : Pulled)
      → Asks stage
      → GivesOne bound p s x q t
      → react invoke stage x t ≡ (Reaction.skips next, u)
      → Answers bound (Pull.running next q) u y r v
      → Answers (suc bound) (Pull.running stage p) s y r v
  stage_skips bound stage next p q r s t u v x y asks gives e rest zero h =
      absurd (omega (arith, h))
  stage_skips bound stage next p q r s t u v x y asks gives e rest (suc n) h =
      pull_running n stage p s asks
      ∙ ap (received invoke (loop n) stage) (gives n (omega (arith, h)))
      ∙ ap (reacted invoke (loop n) q) e
      ∙ rest n (omega (arith, h))

  pub stage-Ends :
      (bound : ℕ) (stage : Stage) (p : Pull) (s t : Store H)
      → Asks stage
      → Ends bound p s t
      → Ends (suc bound) (Pull.running stage p) s t
  stage-Ends bound stage p s t asks (q, e) = (Pull.running (at_end stage) q, go)
    where
      go :
          (n : ℕ)
          → suc bound ≤ n
          → pull invoke n (Pull.running stage p) s
            ≡ (Pulled.ended, Pull.running (at_end stage) q, t)
      go zero h = absurd (omega (arith, h))
      go (suc n) h =
          pull_running n stage p s asks
          ∙ ap (received invoke (loop n) stage) (e n (omega (arith, h)))
