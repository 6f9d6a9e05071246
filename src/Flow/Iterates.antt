-- ===== src/Flow/Iterates.antt =====
-- src/flow.hpp: `evolve`, `take` and `collect` together.
use genia_cpp.Base.{
  ℕ, zero, suc, ◌+◌, ◌-◌, ◌<◌, ◌≡◌, refl, ap, sym, subst, ◌∙◌, true, false, if◌then◌else◌, none,
  some, List, [], ◌∷◌, ◌++◌, length, All, arith, length-append, get_elem?,
}
use genia_cpp.Base.Int.{ℤ, pos}
use genia_cpp.Values.Value.{Value, from_list}
use genia_cpp.Values.OrderedMap.{assign_at}
use genia_cpp.Values.OrderedMap.Index.{get_elem?-append_last, get_elem?-assign_at}
use genia_cpp.Flow.Store.{
  Failure, Source, Flow, Store, Invoke, consume, consume_flow, make_flow, is_closure, count_of,
}
use genia_cpp.Flow.Pull.{Stage, Pull, start, pull, evolved}
use genia_cpp.Flow.Operations.{Outcome, collect, evolve, take, flow_from}
use genia_cpp.Flow.Streams.{GivesOne, Gives, Ends}
use genia_cpp.Flow.Yields.{Yields, FlowYields, Maps, Yields-lazy}
use genia_cpp.Flow.Laws.{taking-Gives}
use genia_cpp.Flow.Refinement.{collect-FlowYields}

-- The first so many of `x`, `f x`, `f (f x)` and so on.
unfoldable pub iterates : (Value → Value) → Value → ℕ → List Value
iterates f x zero = []
iterates f x (suc n) = x ∷ iterates f (f x) n

length-iterates : (f : Value → Value) (x : Value) (n : ℕ) → length (iterates f x n) ≡ n
unfolding iterates
length-iterates f x zero = refl
length-iterates f x (suc n) = ap suc (length-iterates f (f x) n)

-- Lists with one more at the end.
length_snoc : (xs : List Flow) (a : Flow) → length (xs ++ a ∷ []) ≡ suc (length xs)
length_snoc xs a = let e = length-append xs (a ∷ []) in ground (arith, e)

last_elem : (xs : List Flow) (a : Flow) → get_elem? (xs ++ a ∷ []) (length xs) ≡ some a
last_elem xs a = ground (arith, get_elem?-append_last xs a (length xs))

earlier_elem :
    (xs : List Flow) (a : Flow) (i : ℕ)
    → i < length xs
    → get_elem? (xs ++ a ∷ []) i ≡ get_elem? xs i
earlier_elem xs a i h = ground (arith, get_elem?-append_last xs a i)

other_elem :
    (xs : List Flow) (a : Flow) (i j : ℕ)
    → i < length xs
    → j < i
    → get_elem? (assign_at i a xs) j ≡ get_elem? xs j
other_elem xs a i j h k = ground (arith, get_elem?-assign_at i j a xs h)

last_of_two :
    (xs : List Flow) (a b : Flow) → get_elem? ((xs ++ a ∷ []) ++ b ∷ []) (suc (length xs)) ≡ some b
last_of_two xs a b =
    subst (λ n. get_elem? ((xs ++ a ∷ []) ++ b ∷ []) n ≡ some b) (length_snoc xs a)
      (last_elem (xs ++ a ∷ []) b)

first_of_two :
    (xs : List Flow) (a b c : Flow)
    → get_elem? (assign_at (suc (length xs)) c ((xs ++ a ∷ []) ++ b ∷ [])) (length xs) ≡ some a
first_of_two xs a b c =
    let one = length_snoc xs a in
    let two = length_snoc (xs ++ a ∷ []) b in
    other_elem ((xs ++ a ∷ []) ++ b ∷ []) c (suc (length xs)) (length xs) (omega (arith, one, two))
      (omega arith)
    ∙ earlier_elem (xs ++ a ∷ []) b (length xs) (omega (arith, one))
    ∙ last_elem xs a

module _ {H : Type 0} where
  marked : ℕ → Source → Store H → Store H
  marked id source s = record s {
    flows = assign_at id (record { source = source; consumed = true }) s.flows;
  }

  consume-fresh :
      (id : ℕ) (source : Source) (s : Store H)
      → get_elem? s.flows id ≡ some (record { source = source; consumed = false })
      → consume id s ≡ (some source, marked id source s)
  unfolding consume marked
  consume-fresh id source s e = ap (consume_flow id s) e

module _ {H : Type 0} (invoke : Invoke H) where
  Gives-Yields :
      (bound : ℕ) (p q : Pull) (s t u : Store H) (xs : List Value)
      → Gives invoke bound p s xs q t
      → Ends invoke bound q t u
      → Yields invoke bound p s xs u
  Gives-Yields bound p q s t u [] g (r, e) =
      (r, λ n h. ap (λ z. pull invoke n z s) g.0 ∙ ap (pull invoke n q) g.1 ∙ e n h)
  Gives-Yields bound p q s t u (x ∷ xs) (p', s', one, rest) e =
      (p', s', one, Gives-Yields bound p' q s' t u xs rest e)

  -- The flow that `take` makes gives as many items as its limit where its upstream gives as many, and
  -- ends with no further pull: whether the upstream ends does not matter.
  pub take-FlowYields :
      (bound id upstream : ℕ) (source : Source) (q : Pull) (s s' u t : Store H) (xs : List Value)
      → consume id s ≡ (some (Source.take_of (pos (length xs)) upstream), s')
      → consume upstream s' ≡ (some source, u)
      → Gives invoke bound (start source) u xs q t
      → FlowYields invoke (suc (suc bound)) id s xs t
  unfolding start
  take-FlowYields bound id upstream source q s s' u t xs e opened g =
      let law = taking-Gives invoke bound (start source) q u t xs g in
      (
        Source.take_of (pos (length xs)) upstream,
        s',
        e,
        Yields-lazy invoke (suc bound) (Stage.taking (length xs)) upstream source s' u t xs opened (
            Gives-Yields (suc bound) (Pull.running (Stage.taking (length xs)) (start source))
              (Pull.running (Stage.taking 0) q) u t t xs law.0
              (law.1.0, λ n h. law.1.1 n (omega (arith, h)))),
      )

  later_one :
      (step x y : Value) (s : Store H)
      → Maps invoke step x y
      → GivesOne invoke 1 (Pull.evolve_pull step false x) s y (Pull.evolve_pull step false y) s
  unfolding pull
  later_one step x y s h zero k = absurd (omega (arith, k))
  later_one step x y s h (suc n) k = ap (evolved invoke step x) (h s)

  first_one :
      (step x : Value) (s : Store H)
      → GivesOne invoke 1 (Pull.evolve_pull step true x) s x (Pull.evolve_pull step false x) s
  unfolding pull
  first_one step x s zero k = absurd (omega (arith, k))
  first_one step x s (suc n) k = refl

  later-Gives :
      (step : Value) (f : Value → Value) (x : Value) (s : Store H) (n : ℕ)
      → All (λ y. Maps invoke step y (f y)) (iterates f x n)
      → (q : Pull) × Gives invoke 1 (Pull.evolve_pull step false x) s (iterates f (f x) n) q s
  unfolding iterates
  later-Gives step f x s zero h = (Pull.evolve_pull step false x, (refl, refl))
  later-Gives step f x s (suc n) h =
      let rest = later-Gives step f (f x) s n h.1 in
      (rest.0, (Pull.evolve_pull step false (f x), s, later_one step x (f x) s h.0, rest.1))

  -- `evolve` gives the iterates of a step that is a function, from the first on, and as many as are
  -- pulled. The step is not called on the last of them.
  pub evolve-Gives :
      (step : Value) (f : Value → Value) (x : Value) (s : Store H) (n : ℕ)
      → All (λ y. Maps invoke step y (f y)) (iterates f x (n - 1))
      → (q : Pull) × Gives invoke 1 (Pull.evolve_pull step true x) s (iterates f x n) q s
  unfolding iterates
  evolve-Gives step f x s zero h = (Pull.evolve_pull step true x, (refl, refl))
  evolve-Gives step f x s (suc n) h =
      let less =
        subst (λ k. All (λ y. Maps invoke step y (f y)) (iterates f x k)) (omega arith) h in
      let rest = later-Gives step f x s n less in
      (rest.0, (Pull.evolve_pull step false x, s, first_one step x s, rest.1))

  -- The store behind `evolve` and `take`.
  two_flows : Source → Source → Store H → Store H
  two_flows below above s = record s {
    flows =
        (s.flows ++ record { source = below; consumed = false } ∷ [])
        ++ record { source = above; consumed = false } ∷ [];
  }

  above-consume :
      (below above : Source) (s : Store H)
      → consume (suc (length s.flows)) (two_flows below above s)
        ≡ (some above, marked (suc (length s.flows)) above (two_flows below above s))
  unfolding two_flows
  above-consume below above s =
      consume-fresh (suc (length s.flows)) above (two_flows below above s) (
        last_of_two s.flows (record { source = below; consumed = false })
          (record { source = above; consumed = false }))

  below-consume :
      (below above : Source) (s : Store H)
      → let s' = marked (suc (length s.flows)) above (two_flows below above s) in
        consume (length s.flows) s' ≡ (some below, marked (length s.flows) below s')
  unfolding two_flows marked
  below-consume below above s =
      consume-fresh (length s.flows) below
        (marked (suc (length s.flows)) above (two_flows below above s))
        (first_of_two s.flows (record { source = below; consumed = false })
          (record { source = above; consumed = false })
          (record { source = above; consumed = true }))

  chain-FlowYields :
      (init step : Value) (f : Value → Value) (s : Store H) (xs : List Value)
      → All (λ y. Maps invoke step y (f y)) (iterates f init (length xs - 1))
      → iterates f init (length xs) ≡ xs
      → (t : Store H) × FlowYields invoke 3
          (suc (length s.flows))
          (two_flows
            (Source.evolving init step)
            (Source.take_of (pos (length xs)) (length s.flows))
            s)
          xs
          t
  unfolding start
  chain-FlowYields init step f s xs h e =
      let below = Source.evolving init step in
      let above = Source.take_of (pos (length xs)) (length s.flows) in
      let s1 = marked (suc (length s.flows)) above (two_flows below above s) in
      let s2 = marked (length s.flows) below s1 in
      let given = evolve-Gives step f init s2 (length xs) h in
      (
        s2,
        take-FlowYields 1 (suc (length s.flows)) (length s.flows) below given.0
            (two_flows below above s) s1 s2 s2 xs (above-consume below above s)
            (below-consume below above s)
            (subst (λ ys. Gives invoke 1 (Pull.evolve_pull step true init) s2 ys given.0 s2) e
              given.1),
      )

  evolve-closure :
      (init step : Value) (s : Store H)
      → is_closure step ≡ true
      → evolve init step s ≡ flow_from (Source.evolving init step) s
  unfolding evolve
  evolve-closure init step s e =
      ap
        (λ b.
          if b
          then flow_from (Source.evolving init step) s
          else (Outcome.error Failure.unsupported, s))
        e

  take-count :
      (count : Value) (limit : ℤ) (id : ℕ) (s : Store H)
      → count_of count ≡ some limit
      → take count id s ≡ flow_from (Source.take_of limit id) s
  unfolding take
  take-count count limit id s e =
      ap
        (λ c. elim c [
          | none ↦ (Outcome.error Failure.unsupported, s)
          | some k ↦ flow_from (Source.take_of k id) s
        ])
        e

  two-flows :
      (below above : Source) (s : Store H)
      → flow_from above (flow_from below s).1
        ≡ (Outcome.value (Value.flow (suc (length s.flows))), two_flows below above s)
  unfolding make_flow two_flows
  two-flows below above s =
      ap (λ n. (Outcome.value (Value.flow n), two_flows below above s))
        (length_snoc s.flows (record { source = below; consumed = false }))

  first-flow :
      (below : Source) (s : Store H)
      → (flow_from below s).0 ≡ Outcome.value (Value.flow (length s.flows))
  unfolding make_flow
  first-flow below s = refl

  -- With a step that is a function on the items before the last one and changes nothing, `evolve`,
  -- `take` of a limit and `collect` give the list of as many iterates as the limit: `collect` returns,
  -- though the flow of `evolve` has no end, with fuel for each item and four calls.
  pub collect-take-evolve :
      (fuel limit : ℕ) (init step count : Value) (f : Value → Value) (s : Store H)
      → is_closure step ≡ true
      → All (λ y. Maps invoke step y (f y)) (iterates f init (limit - 1))
      → count_of count ≡ some (pos limit)
      → 3 + limit < fuel
      → let made = evolve init step s in
        let taken = take count (length s.flows) made.1 in
        let last = suc (length s.flows) in
        (made.0 ≡ Outcome.value (Value.flow (length s.flows)))
        × (taken.0 ≡ Outcome.value (Value.flow last))
        × ((collect invoke fuel (Value.flow last) taken.1).0
            ≡ Outcome.value (Value.list (from_list (iterates f init limit))))
  collect-take-evolve fuel limit init step count f s closure h counted enough =
      let xs = iterates f init limit in
      let size = length-iterates f init limit in
      let below = Source.evolving init step in
      let above = Source.take_of (pos (length xs)) (length s.flows) in
      let one = evolve-closure init step s closure in
      let two =
        take-count count (pos (length xs)) (length s.flows) (evolve init step s).1
          (counted ∙ ap (λ n. some (pos n)) (sym size))
        ∙ ap (λ r. flow_from above r.1) one
        ∙ two-flows below above s in
      let chain =
        chain-FlowYields init step f s xs
          (subst (λ k. All (λ y. Maps invoke step y (f y)) (iterates f init (k - 1))) (sym size) h)
          (ap (iterates f init) size) in
      (
        ap (λ r. r.0) one ∙ first-flow below s,
        ap (λ r. r.0) two,
        ap (λ r. (collect invoke fuel (Value.flow (suc (length s.flows))) r.1).0) two
            ∙ ap (λ r. r.0)
                (collect-FlowYields invoke 3 fuel (suc (length s.flows)) (two_flows below above s)
                  chain.0 xs chain.1 (omega (arith, enough, size))),
      )
