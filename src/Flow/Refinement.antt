-- ===== src/Flow/Refinement.antt =====
-- src/flow.hpp: the stages and the terminals, on the items a flow gives.
use genia_cpp.Base.{
  ℕ, zero, suc, ◌+◌, ◌<◌, ◌≡◌, ap, sym, subst, ◌∙◌, Bool, true, false, if◌then◌else◌, some, List,
  [], ◌∷◌, ◌++◌, length, map, All, arith, inl, inr, Bool-cases,
}
use genia_cpp.Values.Value.{Value, from_list}
use genia_cpp.Flow.Store.{Source, Store, Invoke, Applied, consume}
use genia_cpp.Flow.Pull.{Stage, Pull, react, on_filter, start}
use genia_cpp.Flow.Operations.{
  Outcome, Drained, drain, drain_pulled, drain_consumed, push_item, collect, collected,
}
use genia_cpp.Flow.Streams.{stage_emits, stage-Ends}
use genia_cpp.Flow.Yields.{
  kept, Yields, FlowYields, Maps, Yields-mono, Yields-lazy, running_map-Yields, skips-Yields,
}
use mathlib.Core.List.{append-nil, append_assoc}

kept-true :
    (test : Value → Bool) (x : Value) (xs : List Value)
    → test x ≡ true
    → kept test (x ∷ xs) ≡ x ∷ kept test xs
unfolding kept
kept-true test x xs e = ap (λ b. if b then x ∷ kept test xs else kept test xs) e

kept-false :
    (test : Value → Bool) (x : Value) (xs : List Value)
    → test x ≡ false
    → kept test (x ∷ xs) ≡ kept test xs
unfolding kept
kept-false test x xs e = ap (λ b. if b then x ∷ kept test xs else kept test xs) e

module _ {H : Type 0} (invoke : Invoke H) where
  filter-react :
      (predicate x : Value) (b c : Bool) (s : Store H)
      → Maps invoke predicate x (Value.boolean b)
      → b ≡ c
      → react invoke (Stage.filtering predicate) x s
        ≡ (on_filter predicate x (Applied.gives (Value.boolean c)), s)
  unfolding react
  filter-react predicate x b c s h e =
      ap (λ r. (on_filter predicate x r.0, r.1))
        (h s ∙ ap (λ d. (Applied.gives (Value.boolean d), s)) e)

  nil-Yields :
      (bound : ℕ) (predicate : Value) (test : Value → Bool) (p : Pull) (s t : Store H)
      → Yields invoke bound p s [] t
      → Yields invoke
          (suc (bound + 0))
          (Pull.running (Stage.filtering predicate) p)
          s
          (kept test [])
          t
  unfolding kept
  nil-Yields bound predicate test p s t y =
      Yields-mono invoke (suc bound) (suc (bound + 0)) (Pull.running (Stage.filtering predicate) p)
        s t [] (omega arith) (stage-Ends invoke bound (Stage.filtering predicate) p s t tt y)

  running_filter-Yields :
      (bound : ℕ) (predicate : Value) (test : Value → Bool) (p : Pull) (s t : Store H)
      → (xs : List Value) → All (λ x. Maps invoke predicate x (Value.boolean (test x))) xs
      → Yields invoke bound p s xs t
      → Yields invoke
          (suc (bound + length xs))
          (Pull.running (Stage.filtering predicate) p)
          s
          (kept test xs)
          t
  running_filter-Yields bound predicate test p s t [] h y = nil-Yields bound predicate test p s t y
  running_filter-Yields bound predicate test p s t (x ∷ xs) h (p', s', one, rest) =
      let stage = Stage.filtering predicate in
      let more = suc (bound + length xs) in
      let tail = running_filter-Yields bound predicate test p' s' t xs h.1 rest in
      elim (Bool-cases (test x)) [
        | inl e ↦
            subst
              (λ ys. Yields invoke (suc (bound + length (x ∷ xs))) (Pull.running stage p) s ys t)
              (sym (kept-true test x xs e))
              (
                Pull.running stage p',
                s',
                (λ n k.
                    stage_emits invoke bound stage stage p p' s s' s' x x tt one
                      (filter-react predicate x (test x) true s' (h.0) e) n (omega (arith, k))),
                Yields-mono invoke more (suc (bound + length (x ∷ xs))) (Pull.running stage p') s' t
                    (kept test xs) (omega arith) tail,
              )
        | inr e ↦
            subst
              (λ ys. Yields invoke (suc (bound + length (x ∷ xs))) (Pull.running stage p) s ys t)
              (sym (kept-false test x xs e))
              (Yields-mono invoke (suc more) (suc (bound + length (x ∷ xs))) (Pull.running stage p)
                s t (kept test xs) (omega arith)
                (skips-Yields invoke more stage stage p p' s s' s' t x (kept test xs) tt
                  (λ n k. one n (omega (arith, k)))
                  (filter-react predicate x (test x) false s' (h.0) e) tail))
      ]

  -- The flow that `map` makes gives the function of each item, in order, and ends with its upstream,
  -- where the callback is a function on the items that changes nothing.
  pub map-FlowYields :
      (bound id upstream : ℕ) (fn : Value) (f : Value → Value) (s s' t : Store H) (xs : List Value)
      → consume id s ≡ (some (Source.map_of fn upstream), s')
      → FlowYields invoke bound upstream s' xs t
      → All (λ x. Maps invoke fn x (f x)) xs
      → FlowYields invoke (suc (suc bound)) id s (map f xs) t
  unfolding start
  map-FlowYields bound id upstream fn f s s' t xs e (source, u, opened, yields) h = (
    Source.map_of fn upstream,
    s',
    e,
    Yields-lazy invoke (suc bound) (Stage.mapping fn) upstream source s' u t (map f xs) opened
        (running_map-Yields invoke bound fn f (start source) u t xs h yields),
  )

  pub filter-FlowYields :
      (bound id upstream : ℕ) (predicate : Value) (test : Value → Bool) (s s' t : Store H)
      → (xs : List Value) → consume id s ≡ (some (Source.filter_of predicate upstream), s')
      → FlowYields invoke bound upstream s' xs t
      → All (λ x. Maps invoke predicate x (Value.boolean (test x))) xs
      → FlowYields invoke (suc (suc (bound + length xs))) id s (kept test xs) t
  unfolding start
  filter-FlowYields bound id upstream predicate test s s' t xs e (source, u, opened, yields) h = (
    Source.filter_of predicate upstream,
    s',
    e,
    Yields-lazy invoke (suc (bound + length xs)) (Stage.filtering predicate) upstream source s' u t
        (kept test xs) opened
        (running_filter-Yields bound predicate test (start source) u t xs h yields),
  )

  drain-Yields :
      (bound fuel : ℕ) (p : Pull) (s t : Store H) (acc xs : List Value)
      → Yields invoke bound p s xs t
      → bound + length xs < fuel
      → drain invoke fuel (push_item invoke) p acc s ≡ (Drained.finished (acc ++ xs), t)
  unfolding drain
  drain-Yields bound zero p s t acc xs y h = absurd (omega (arith, h))
  drain-Yields bound (suc fuel) p s t acc [] y h =
      ap (drain_pulled (λ q a t. drain invoke fuel (push_item invoke) q a t) (push_item invoke) acc)
        (y.1 fuel (omega (arith, h)))
      ∙ ap (λ z. (Drained.finished z, t)) (sym (append-nil acc))
  drain-Yields bound (suc fuel) p s t acc (x ∷ xs) (p', s', one, rest) h =
      ap (drain_pulled (λ q a t. drain invoke fuel (push_item invoke) q a t) (push_item invoke) acc)
        (one fuel (omega (arith, h)))
      ∙ drain-Yields bound fuel p' s' t (acc ++ x ∷ []) xs rest (omega (arith, h))
      ∙ ap (λ z. (Drained.finished z, t)) (append_assoc acc (x ∷ []) xs)

  -- `collect` of a flow that gives some items and ends is the list of them, with fuel for each.
  pub collect-FlowYields :
      (bound fuel id : ℕ) (s t : Store H) (xs : List Value)
      → FlowYields invoke bound id s xs t
      → bound + length xs < fuel
      → collect invoke fuel (Value.flow id) s ≡ (Outcome.value (Value.list (from_list xs)), t)
  unfolding collect
  collect-FlowYields bound fuel id s t xs (source, s', opened, yields) h =
      ap (λ r. collected invoke (drain_consumed invoke fuel (push_item invoke) [] r)) opened
      ∙ ap (collected invoke) (drain-Yields bound fuel (start source) s' t [] xs yields h)
