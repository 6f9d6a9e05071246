-- ===== src/Flow/Single.antt =====
-- src/flow.hpp: a flow is used once.
use genia_cpp.Base.{
  ℕ, zero, suc, ◌≡◌, ◌⊎◌, refl, ap, sym, subst, Bool, true, false, if◌then◌else◌, Option, none,
  some, List, [], ◌∷◌, ◌++◌, arith, inl, inr, get_elem?,
}
use genia_cpp.Values.Value.{Value, Text}
use genia_cpp.Values.OrderedMap.{assign_at}
use genia_cpp.Flow.Store.{
  Failure, Source, Flow, Store, Invoke, Applied, applied, apply, is_closure, any_none, consume,
  consume_flow, already_consumed,
}
use genia_cpp.Flow.Pull.{
  Stage, Pull, Pulled, Reaction, Result, react, reacted, received, start, started, pull, evolved,
  visited, read_line,
}
use genia_cpp.Flow.Streams.{Asks, pull_running}
use genia_cpp.Flow.Operations.{
  Outcome, Drained, drain, drain_pulled, drain_consumed, push_item, collect, collected,
}

abbrev flag : Option Flow → Bool
flag none = false
flag (some f) = f.consumed

set_flag :
    (i : ℕ) (a f : Flow) (xs : List Flow)
    → a.consumed ≡ true
    → get_elem? xs i ≡ some f
    → flag (get_elem? (assign_at i a xs) i) ≡ true
unfolding assign_at
set_flag i a f [] h e = absurd (ground (arith, e))
set_flag zero a f (x ∷ xs) h e = h
set_flag (suc i) a f (x ∷ xs) h e = set_flag i a f xs h e

keep_flag :
    (i j : ℕ) (a : Flow) (xs : List Flow)
    → a.consumed ≡ true
    → flag (get_elem? xs j) ≡ true
    → flag (get_elem? (assign_at i a xs) j) ≡ true
unfolding assign_at
keep_flag i j a [] h e = e
keep_flag zero zero a (x ∷ xs) h e = h
keep_flag zero (suc j) a (x ∷ xs) h e = e
keep_flag (suc i) zero a (x ∷ xs) h e = e
keep_flag (suc i) (suc j) a (x ∷ xs) h e = keep_flag i j a xs h e

if-both : {A : Type 0} (P : A → Type 0) (b : Bool) (x y : A) → P x → P y → P (if b then x else y)
if-both P true x y h k = h
if-both P false x y h k = k

Asks-cases :
    {H : Type 0} (invoke : Invoke H) (stage : Stage) → (stage ≡ Stage.taking 0) ⊎ Asks invoke stage
Asks-cases invoke (Stage.taking zero) = inl refl
Asks-cases invoke (Stage.taking (suc k)) = inr tt
Asks-cases invoke Stage.strings = inr tt
Asks-cases invoke (Stage.mapping fn) = inr tt
Asks-cases invoke (Stage.filtering fn) = inr tt
Asks-cases invoke (Stage.dropping k) = inr tt
Asks-cases invoke (Stage.scanning step state) = inr tt
Asks-cases invoke Stage.keeping = inr tt
Asks-cases invoke (Stage.each fn) = inr tt

module _ {H : Type 0} where
  -- The flow of this number was consumed.
  abbrev pub IsConsumed : ℕ → Store H → Type 0
  IsConsumed id s = flag (get_elem? s.flows id) ≡ true

  -- A callback leaves a consumed flow consumed.
  abbrev pub IsKept : Invoke H → Type 0
  IsKept invoke =
      (fn : Value) (args : List Value) (s : Store H) (id : ℕ)
      → IsConsumed id s
      → IsConsumed id (invoke fn args s).1

  abbrev marked : ℕ → Flow → Store H → Store H
  marked id f s = record s {
    flows = assign_at id (record { source = f.source; consumed = true }) s.flows;
  }

  consume_flow-IsConsumed :
      (id j : ℕ) (s : Store H) (f : Option Flow)
      → IsConsumed j s
      → IsConsumed j (consume_flow id s f).1
  consume_flow-IsConsumed id j s none h = h
  consume_flow-IsConsumed id j s (some f) h =
      if-both (λ (r : Option Source × Store H). IsConsumed j r.1) f.consumed (none, s)
        (some f.source, marked id f s) h
        (keep_flag id j (record { source = f.source; consumed = true }) s.flows refl h)

  consume-IsConsumed : (id j : ℕ) (s : Store H) → IsConsumed j s → IsConsumed j (consume id s).1
  unfolding consume
  consume-IsConsumed id j s h = consume_flow-IsConsumed id j s (get_elem? s.flows id) h

  flow-refused :
      (id : ℕ) (s : Store H) (f : Option Flow) → flag f ≡ true → consume_flow id s f ≡ (none, s)
  flow-refused id s none h = refl
  flow-refused id s (some f) h = ap (λ b. if b then (none, s) else (some f.source, marked id f s)) h

  -- A flow that is consumed is not consumed again, and nothing changes.
  pub consume-refused : (id : ℕ) (s : Store H) → IsConsumed id s → consume id s ≡ (none, s)
  unfolding consume
  consume-refused id s h = flow-refused id s (get_elem? s.flows id) h

  abbrev Attempt : ℕ → Store H → Option Source × Store H → Type 0
  Attempt id s r =
      (r ≡ (none, s))
      ⊎ ((source : Source) × (t : Store H) × (r ≡ (some source, t)) × IsConsumed id t)

  flow-cases :
      (id : ℕ) (s : Store H) (f : Option Flow)
      → get_elem? s.flows id ≡ f
      → Attempt id s (consume_flow id s f)
  flow-cases id s none e = inl refl
  flow-cases id s (some f) e =
      if-both (Attempt id s) f.consumed (none, s) (some f.source, marked id f s) (inl refl)
        (inr (
          f.source,
          marked id f s,
          refl,
          set_flag id (record { source = f.source; consumed = true }) f s.flows refl e,
        ))

  -- `consume` gives nothing and leaves the store, or leaves the flow consumed.
  pub consume-cases : (id : ℕ) (s : Store H) → Attempt id s (consume id s)
  unfolding consume
  consume-cases id s = flow-cases id s (get_elem? s.flows id) refl

module _ {H : Type 0} (invoke : Invoke H) (kept : IsKept invoke) (id : ℕ) where
  apply-IsConsumed :
      (fn : Value) (args : List Value) (s : Store H)
      → IsConsumed id s
      → IsConsumed id (apply invoke fn args s).1
  unfolding apply
  apply-IsConsumed fn args s h =
      if-both (λ (r : Applied × Store H). IsConsumed id r.1) (is_closure fn)
        (if any_none args
          then (Applied.fails Failure.unsupported, s)
          else (applied (invoke fn args s).0, (invoke fn args s).1))
        (Applied.fails Failure.unsupported, s)
        (if-both (λ (r : Applied × Store H). IsConsumed id r.1) (any_none args)
          (Applied.fails Failure.unsupported, s)
          (applied (invoke fn args s).0, (invoke fn args s).1) h (kept fn args s id h))
        h

  react-IsConsumed :
      (stage : Stage) (x : Value) (s : Store H)
      → IsConsumed id s
      → IsConsumed id (react invoke stage x s).1
  unfolding react
  react-IsConsumed Stage.strings x s h = h
  react-IsConsumed (Stage.mapping fn) x s h = apply-IsConsumed fn (x ∷ []) s h
  react-IsConsumed (Stage.filtering predicate) x s h = apply-IsConsumed predicate (x ∷ []) s h
  react-IsConsumed (Stage.taking zero) x s h = h
  react-IsConsumed (Stage.taking (suc k)) x s h = h
  react-IsConsumed (Stage.dropping zero) x s h = h
  react-IsConsumed (Stage.dropping (suc k)) x s h = h
  react-IsConsumed (Stage.scanning step state) x s h = apply-IsConsumed step (state ∷ x ∷ []) s h
  react-IsConsumed Stage.keeping x s h = h
  react-IsConsumed (Stage.each effect) x s h = apply-IsConsumed effect (x ∷ []) s h

  -- What a loop of the stage does.
  abbrev Loops : (Stage → Pull → Store H → Result invoke) → Type 0
  Loops again =
      (stage : Stage) (p : Pull) (s : Store H) → IsConsumed id s → IsConsumed id (again stage p s).2

  reacted-IsConsumed :
      (again : Stage → Pull → Store H → Result invoke) (p : Pull) (r : Reaction × Store H)
      → Loops again
      → IsConsumed id r.1
      → IsConsumed id (reacted invoke again p r).2
  reacted-IsConsumed again p (Reaction.emits value stage, s) loops h = h
  reacted-IsConsumed again p (Reaction.skips stage, s) loops h = loops stage p s h
  reacted-IsConsumed again p (Reaction.fails failure stage, s) loops h = h

  received-IsConsumed :
      (again : Stage → Pull → Store H → Result invoke) (stage : Stage) (r : Result invoke)
      → Loops again
      → IsConsumed id r.2
      → IsConsumed id (received invoke again stage r).2
  received-IsConsumed again stage (Pulled.item x, p, s) loops h =
      reacted-IsConsumed again p (react invoke stage x s) loops (react-IsConsumed stage x s h)
  received-IsConsumed again stage (Pulled.ended, p, s) loops h = h
  received-IsConsumed again stage (Pulled.stopped failure, p, s) loops h = h

  evolved-IsConsumed :
      (step current : Value) (r : Applied × Store H)
      → IsConsumed id r.1
      → IsConsumed id (evolved invoke step current r).2
  evolved-IsConsumed step current (Applied.gives next, s) h = h
  evolved-IsConsumed step current (Applied.fails failure, s) h = h

  visited-IsConsumed :
      (effect x : Value) (items : List Value) (r : Applied × Store H)
      → IsConsumed id r.1
      → IsConsumed id (visited invoke effect x items r).2
  visited-IsConsumed effect x items (Applied.gives ignored, s) h = h
  visited-IsConsumed effect x items (Applied.fails failure, s) h = h

  read_line-IsConsumed :
      (lines : List Text) (s : Store H)
      → IsConsumed id s
      → IsConsumed id (read_line invoke lines s).2
  read_line-IsConsumed [] s h = h
  read_line-IsConsumed (line ∷ lines) s h = h

  started-IsConsumed :
      (again : Stage → Pull → Store H → Result invoke) (stage : Stage) (i : ℕ)
      → (r : Option Source × Store H) → Loops again
      → IsConsumed id r.1
      → IsConsumed id (started invoke again stage i r).2
  started-IsConsumed again stage i (none, s) loops h = h
  started-IsConsumed again stage i (some source, s) loops h = loops stage (start source) s h

  -- A call of any pull function leaves a consumed flow consumed, where callbacks do.
  pub pull-IsConsumed :
      (fuel : ℕ) (p : Pull) (s : Store H) → IsConsumed id s → IsConsumed id (pull invoke fuel p s).2
  unfolding pull
  pull-IsConsumed zero p s h = h
  pull-IsConsumed (suc fuel) Pull.stdin_pull s h = read_line-IsConsumed s.stdin s h
  pull-IsConsumed (suc fuel) (Pull.list_pull []) s h = h
  pull-IsConsumed (suc fuel) (Pull.list_pull (x ∷ items)) s h = h
  pull-IsConsumed (suc fuel) (Pull.evolve_pull step true current) s h = h
  pull-IsConsumed (suc fuel) (Pull.evolve_pull step false current) s h =
      evolved-IsConsumed step current (apply invoke step (current ∷ []) s)
        (apply-IsConsumed step (current ∷ []) s h)
  pull-IsConsumed (suc fuel) (Pull.each_list_pull effect []) s h = h
  pull-IsConsumed (suc fuel) (Pull.each_list_pull effect (x ∷ items)) s h =
      visited-IsConsumed effect x items (apply invoke effect (x ∷ []) s)
        (apply-IsConsumed effect (x ∷ []) s h)
  pull-IsConsumed (suc fuel) (Pull.lazy_pull stage i) s h =
      started-IsConsumed (λ st p t. pull invoke fuel (Pull.running st p) t) stage i (consume i s)
        (λ st p t k. pull-IsConsumed fuel (Pull.running st p) t k) (consume-IsConsumed i id s h)
  pull-IsConsumed (suc fuel) (Pull.running stage p) s h = elim (Asks-cases invoke stage) [
    | inl e ↦ subst (λ st. IsConsumed id (pull invoke (suc fuel) (Pull.running st p) s).2) (sym e) h
    | inr asks ↦
        subst (λ r. IsConsumed id r.2) (sym (pull_running invoke fuel stage p s asks))
          (received-IsConsumed (λ st q t. pull invoke fuel (Pull.running st q) t) stage
            (pull invoke fuel p s) (λ st q t k. pull-IsConsumed fuel (Pull.running st q) t k)
            (pull-IsConsumed fuel p s h))
  ]

  drain_pulled-IsConsumed :
      (again : Pull → List Value → Store H → Drained (List Value) × Store H) (acc : List Value)
      → (r : Result invoke)
      → ((p : Pull) (a : List Value) (s : Store H)
          → IsConsumed id s
          → IsConsumed id (again p a s).1)
      → IsConsumed id r.2
      → IsConsumed id (drain_pulled again (push_item invoke) acc r).1
  drain_pulled-IsConsumed again acc (Pulled.item x, p, s) loops h = loops p (acc ++ x ∷ []) s h
  drain_pulled-IsConsumed again acc (Pulled.ended, p, s) loops h = h
  drain_pulled-IsConsumed again acc (Pulled.stopped failure, p, s) loops h = h

  drain-IsConsumed :
      (fuel : ℕ) (p : Pull) (acc : List Value) (s : Store H)
      → IsConsumed id s
      → IsConsumed id (drain invoke fuel (push_item invoke) p acc s).1
  unfolding drain
  drain-IsConsumed zero p acc s h = h
  drain-IsConsumed (suc fuel) p acc s h =
      drain_pulled-IsConsumed (λ q a t. drain invoke fuel (push_item invoke) q a t) acc
        (pull invoke fuel p s) (λ q a t k. drain-IsConsumed fuel q a t k)
        (pull-IsConsumed fuel p s h)

  collected-IsConsumed :
      (r : Drained (List Value) × Store H)
      → IsConsumed id r.1
      → IsConsumed id (collected invoke r).1
  collected-IsConsumed (Drained.finished items, s) h = h
  collected-IsConsumed (Drained.broken failure, s) h = h

  -- `collect` of a flow that is consumed is refused, and nothing changes.
  collect-refused :
      (fuel : ℕ) (s : Store H)
      → consume id s ≡ (none, s)
      → collect invoke fuel (Value.flow id) s ≡ (Outcome.error already_consumed, s)
  unfolding collect
  collect-refused fuel s e =
      ap (λ r. collected invoke (drain_consumed invoke fuel (push_item invoke) [] r)) e

  collect-IsConsumed :
      (fuel : ℕ) (source : Source) (s t : Store H)
      → consume id s ≡ (some source, t)
      → IsConsumed id t
      → IsConsumed id (collect invoke fuel (Value.flow id) s).1
  unfolding collect
  collect-IsConsumed fuel source s t e h =
      subst
        (λ r.
          IsConsumed id (collected invoke (drain_consumed invoke fuel (push_item invoke) [] r)).1)
        (sym e)
        (collected-IsConsumed (drain invoke fuel (push_item invoke) (start source) [] t)
          (drain-IsConsumed fuel (start source) [] t h))

  -- A second `collect` of a flow is the error that the flow was consumed, and changes nothing,
  -- whatever became of the first one, where callbacks leave consumed flows consumed.
  pub collect-collect :
      (fuel again : ℕ) (s : Store H)
      → let t = (collect invoke fuel (Value.flow id) s).1 in
        collect invoke again (Value.flow id) t ≡ (Outcome.error already_consumed, t)
  collect-collect fuel again s = elim (consume-cases id s) [
    | inl e ↦
        let same = ap (λ r. r.1) (collect-refused fuel s e) in
        collect-refused again (collect invoke fuel (Value.flow id) s).1
          (subst (λ t. consume id t ≡ (none, t)) (sym same) e)
    | inr (source, t, e, h) ↦
        let done = (collect invoke fuel (Value.flow id) s).1 in
        collect-refused again done
          (consume-refused id done (collect-IsConsumed fuel source s t e h))
  ]
