-- ===== src/Flow/Yields.antt =====
-- src/flow.hpp: flows as the sequence of the items they give before they end.
use genia_cpp.Base.{
  ℕ, zero, suc, ◌≤◌, ◌≡◌, refl, ap, ◌∙◌, Bool, if◌then◌else◌, some, List, [], ◌∷◌, map, All, arith,
}
use genia_cpp.Values.Value.{Value}
use genia_cpp.Flow.Store.{Source, Store, Invoke, Applied, apply, consume}
use genia_cpp.Flow.Pull.{Stage, Pull, Pulled, Reaction, react, on_map, start, started, pull}
use genia_cpp.Flow.Streams.{Answers, GivesOne, Ends, Asks, stage_emits, stage_skips, stage-Ends}

-- The items on which a test is true.
unfoldable pub kept : (Value → Bool) → List Value → List Value
kept test [] = []
kept test (x ∷ xs) = let rest = kept test xs in if test x then x ∷ rest else rest

module _ {H : Type 0} (invoke : Invoke H) where
  -- Calls of a pull function give these items and then the end.
  abbrev pub Yields : ℕ → Pull → Store H → List Value → Store H → Type 0
  Yields bound p s [] t = Ends invoke bound p s t
  Yields bound p s (x ∷ xs) t =
      (p' : Pull) × (s' : Store H) × GivesOne invoke bound p s x p' s' × Yields bound p' s' xs t

  -- An open flow, by its number, whose pull function gives these items and then the end.
  abbrev pub FlowYields : ℕ → ℕ → Store H → List Value → Store H → Type 0
  FlowYields bound id s xs t =
      (source : Source) × (s' : Store H) × (consume id s ≡ (some source, s'))
      × Yields bound (start source) s' xs t

  -- A callback gives this value for an item and leaves the store.
  abbrev pub Maps : Value → Value → Value → Type 0
  Maps fn x y = (s : Store H) → apply invoke fn (x ∷ []) s ≡ (Applied.gives y, s)

  pub Yields-mono :
      (bound larger : ℕ) (p : Pull) (s t : Store H) (xs : List Value)
      → bound ≤ larger
      → Yields bound p s xs t
      → Yields larger p s xs t
  Yields-mono bound larger p s t [] h (q, e) = (q, λ n k. e n (omega (arith, h, k)))
  Yields-mono bound larger p s t (x ∷ xs) h (p', s', one, rest) =
      (p', s', (λ n k. one n (omega (arith, h, k))), Yields-mono bound larger p' s' t xs h rest)

  pub Answers-lazy :
      (bound : ℕ) (stage : Stage) (id : ℕ) (source : Source) (s s' t : Store H) (r : Pulled)
      (q : Pull)
      → consume id s ≡ (some source, s')
      → Answers invoke bound (Pull.running stage (start source)) s' r q t
      → Answers invoke (suc bound) (Pull.lazy_pull stage id) s r q t
  unfolding pull
  Answers-lazy bound stage id source s s' t r q e answers zero h = absurd (omega (arith, h))
  Answers-lazy bound stage id source s s' t r q e answers (suc n) h =
      ap (started invoke (λ st p u. pull invoke n (Pull.running st p) u) stage id) e
      ∙ answers n (omega (arith, h))

  -- The first call starts what a lazy function holds.
  pub Yields-lazy :
      (bound : ℕ) (stage : Stage) (id : ℕ) (source : Source) (s s' t : Store H) (xs : List Value)
      → consume id s ≡ (some source, s')
      → Yields bound (Pull.running stage (start source)) s' xs t
      → Yields (suc bound) (Pull.lazy_pull stage id) s xs t
  Yields-lazy bound stage id source s s' t [] e (q, ends) =
      (q, Answers-lazy bound stage id source s s' t Pulled.ended q e ends)
  Yields-lazy bound stage id source s s' t (x ∷ xs) e (p, u, one, rest) = (
    p,
    u,
    Answers-lazy bound stage id source s s' u (Pulled.item x) p e one,
    Yields-mono bound (suc bound) p u t xs (omega arith) rest,
  )

  list-Answers :
      (xs : List Value) (s : Store H) (n : ℕ)
      → 1 ≤ n
      → pull invoke n (Pull.list_pull xs) s ≡ elim xs [
        | [] ↦ (Pulled.ended, Pull.list_pull [], s)
        | x ∷ rest ↦ (Pulled.item x, Pull.list_pull rest, s)
      ]
  unfolding pull
  list-Answers xs s zero h = absurd (omega (arith, h))
  list-Answers [] s (suc n) h = refl
  list-Answers (x ∷ xs) s (suc n) h = refl

  -- A list gives its items.
  pub Yields-list : (xs : List Value) (s : Store H) → Yields 1 (Pull.list_pull xs) s xs s
  Yields-list [] s = (Pull.list_pull [], list-Answers [] s)
  Yields-list (x ∷ xs) s = (Pull.list_pull xs, s, list-Answers (x ∷ xs) s, Yields-list xs s)

  pub running_map-Yields :
      (bound : ℕ) (fn : Value) (f : Value → Value) (p : Pull) (s t : Store H) (xs : List Value)
      → All (λ x. Maps fn x (f x)) xs
      → Yields bound p s xs t
      → Yields (suc bound) (Pull.running (Stage.mapping fn) p) s (map f xs) t
  unfolding react
  running_map-Yields bound fn f p s t [] h y = stage-Ends invoke bound (Stage.mapping fn) p s t tt y
  running_map-Yields bound fn f p s t (x ∷ xs) h (p', s', one, rest) = (
    Pull.running (Stage.mapping fn) p',
    s',
    stage_emits invoke bound (Stage.mapping fn) (Stage.mapping fn) p p' s s' s' x (f x) tt one
        (ap (λ r. (on_map fn r.0, r.1)) (h.0 s')),
    running_map-Yields bound fn f p' s' t xs h.1 rest,
  )

  pub skips-Yields :
      (bound : ℕ) (stage next : Stage) (p q : Pull) (s t u v : Store H) (x : Value)
      (ys : List Value)
      → Asks invoke stage
      → GivesOne invoke bound p s x q t
      → react invoke stage x t ≡ (Reaction.skips next, u)
      → Yields bound (Pull.running next q) u ys v
      → Yields (suc bound) (Pull.running stage p) s ys v
  skips-Yields bound stage next p q s t u v x [] asks one e (r, ends) =
      (r, stage_skips invoke bound stage next p q r s t u v x Pulled.ended asks one e ends)
  skips-Yields bound stage next p q s t u v x (y ∷ ys) asks one e (r, w, first, rest) = (
    r,
    w,
    stage_skips invoke bound stage next p q r s t u w x (Pulled.item y) asks one e first,
    Yields-mono bound (suc bound) r w v ys (omega arith) rest,
  )
