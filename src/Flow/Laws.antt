-- ===== src/Flow/Laws.antt =====
-- src/flow.hpp: `take` and `drop` on the items that calls give.
use genia_cpp.Base.{ℕ, zero, suc, ◌+◌, ◌≤◌, ◌≡◌, refl, ap, ◌∙◌, List, [], ◌∷◌, length, arith}
use genia_cpp.Values.Value.{Value}
use genia_cpp.Flow.Store.{Store, Invoke}
use genia_cpp.Flow.Pull.{Stage, Pull, Pulled, react, pull}
use genia_cpp.Flow.Streams.{GivesOne, Gives, Ends, stage_emits, stage_skips}

module _ {H : Type 0} (invoke : Invoke H) where
  taking_zero :
      (q : Pull) (t : Store H) (n : ℕ)
      → 1 ≤ n
      → pull invoke n (Pull.running (Stage.taking 0) q) t
        ≡ (Pulled.ended, Pull.running (Stage.taking 0) q, t)
  unfolding pull
  taking_zero q t zero h = absurd (omega (arith, h))
  taking_zero q t (suc n) h = refl

  taking_passes :
      (bound : ℕ) (p q : Pull) (s t : Store H) (xs : List Value)
      → Gives invoke bound p s xs q t
      → Gives invoke
          (suc bound)
          (Pull.running (Stage.taking (length xs)) p)
          s
          xs
          (Pull.running (Stage.taking 0) q)
          t
  unfolding react
  taking_passes bound p q s t [] g = (ap (Pull.running (Stage.taking 0)) g.0, g.1)
  taking_passes bound p q s t (x ∷ xs) (p', s', one, rest) = (
    Pull.running (Stage.taking (length xs)) p',
    s',
    stage_emits invoke bound (Stage.taking (suc (length xs))) (Stage.taking (length xs)) p p' s s'
        s' x x tt one refl,
    taking_passes bound p' q s' t xs rest,
  )

  -- `take` of as many items as are given passes them on. It then tells the end with no further pull,
  -- and leaves the store, whatever there is left to pull.
  pub taking-Gives :
      (bound : ℕ) (p q : Pull) (s t : Store H) (xs : List Value)
      → Gives invoke bound p s xs q t
      → Gives invoke
          (suc bound)
          (Pull.running (Stage.taking (length xs)) p)
          s
          xs
          (Pull.running (Stage.taking 0) q)
          t
        × Ends invoke 1 (Pull.running (Stage.taking 0) q) t t
  taking-Gives bound p q s t xs g =
      (taking_passes bound p q s t xs g, (Pull.running (Stage.taking 0) q, taking_zero q t))

  -- `drop` pulls and forgets as many items, and then passes on the next one.
  pub dropping-Gives :
      (bound : ℕ) (p q r : Pull) (s t u : Store H) (xs : List Value) (y : Value)
      → Gives invoke bound p s xs q t
      → GivesOne invoke bound q t y r u
      → GivesOne invoke
          (suc (length xs + bound))
          (Pull.running (Stage.dropping (length xs)) p)
          s
          y
          (Pull.running (Stage.dropping 0) r)
          u
  unfolding react
  dropping-Gives bound p q r s t u [] y g one n h =
      stage_emits invoke bound (Stage.dropping 0) (Stage.dropping 0) p r s u u y y tt
        (λ n h. ap (λ z. pull invoke n z s) g.0 ∙ ap (pull invoke n q) g.1 ∙ one n h) refl n
        (omega (arith, h))
  dropping-Gives bound p q r s t u (x ∷ xs) y (p', s', gives, rest) one n h =
      stage_skips invoke (suc (length xs + bound)) (Stage.dropping (suc (length xs)))
        (Stage.dropping (length xs)) p p' (Pull.running (Stage.dropping 0) r) s s' s' u x
        (Pulled.item y) tt (λ n h. gives n (omega (arith, h))) refl
        (dropping-Gives bound p' q r s' t u xs y rest one) n (omega (arith, h))
