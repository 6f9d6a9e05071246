-- ===== src/Concurrency/World/Pending.antt =====
-- src/r25_quiescence.hpp: the shared count is that of all outstanding work, and the causal barrier
-- opens only where there is none.
use genia_cpp.Base.{
  ℕ, zero, suc, ◌+◌, ◌^◌, ◌<◌, ◌≡◌, ◌↔◌, refl, ap, ◌∙◌, true, Option, none, some, List, [], ◌∷◌,
  ◌++◌, get_elem?, arith, inl, inr, Option-cases, ==_iff,
}
use genia_cpp.Concurrency.Quiescence.{counter, is_settled}
use genia_cpp.Concurrency.Cell.{
  CallbackResult, Cell, in_flight, create_with_state, send as cell_send,
}
use genia_cpp.Concurrency.Cell.Steps.{outstanding}
use genia_cpp.Concurrency.Cell.Count.{CellStep-count, destroy-count, send-count}
use genia_cpp.Concurrency.Process.{Process, in_hand, create, send as process_send}
use genia_cpp.Concurrency.Process.Steps.{ProcessStep, unsettled, ProcessStep-count}
use genia_cpp.Concurrency.Process.Steps
use genia_cpp.Concurrency.World.{
  Action, World, WorldStep, Reachable, set_elem, size_of, total, all_outstanding, run_action,
  with_cell, with_process,
}

-- The entries but one, and the total of them.
record Others {A : Type 0} (size : A → ℕ) (xs : List (Option A)) (i : ℕ) (o : Option A)
    : Type 0 where
  rest : ℕ
  before : total size xs ≡ rest + size_of size o
  after : (n : Option A) → total size (set_elem i n xs) ≡ rest + size_of size n

module _ {A : Type 0} (size : A → ℕ) where
  others :
      (xs : List (Option A)) (i : ℕ) (o : Option A) → get_elem? xs i ≡ some o → Others size xs i o
  unfolding total set_elem
  others [] i o e = cc
  others (x ∷ xs) zero o e =
      let e_size : size_of size x ≡ size_of size o = ground arith in
      record { rest = total size xs; before = omega (arith, e_size); after = λ n. omega arith }
  others (x ∷ xs) (suc i) o e =
      let tail = others xs i o e in
      record {
        rest = size_of size x + tail.rest;
        before = omega (arith, tail.before);
        after = λ n. omega (arith, tail.after n);
      }

  total-append :
      (xs : List (Option A)) (x : A) → size x ≡ 0 → total size (xs ++ some x ∷ []) ≡ total size xs
  unfolding total
  total-append [] x h = omega (arith, h)
  total-append (y ∷ xs) x h = omega (arith, total-append xs x h)

-- The count is that of all outstanding work.
abbrev pub IsCounted : {V U : Type 0} → World V U → Type 0
IsCounted w = w.pending ≡ counter (all_outstanding w)

module _ {V U : Type 0} where
  run_action-IsCounted : (a : Action V U) (w : World V U) → IsCounted w → IsCounted (run_action a w)
  unfolding run_action
  run_action-IsCounted (Action.send_cell i u) w h = elim (Option-cases (get_elem? w.cells i)) [
    | inl e ↦ rw e h
    | inr (none, e) ↦ rw e h
    | inr (some c, e) ↦
        let o = others outstanding w.cells i (some c) e in
        let rest : ℕ = o.rest + total unsettled w.processes in
        let n = send-count rest u c w.pending (omega (arith, h, o.before)) in
        rw e (omega (arith, n, o.after (some (cell_send u c w.pending).1)))
  ]
  run_action-IsCounted (Action.send_process i m) w h =
      elim (Option-cases (get_elem? w.processes i)) [
        | inl e ↦ rw e h
        | inr (none, e) ↦ rw e h
        | inr (some p, e) ↦
            let o = others unsettled w.processes i (some p) e in
            let rest : ℕ = total outstanding w.cells + o.rest in
            let n = Steps.send-count rest m p w.pending (omega (arith, h, o.before)) in
            rw e (omega (arith, n, o.after (some (process_send m p w.pending).1)))
      ]

  -- A cell is replaced, or destroyed, and the count follows it.
  cell-IsCounted :
      (w : World V U) (i : ℕ) (c : Cell V U (Action V U)) (d : Option (Cell V U (Action V U)))
      (n : ℕ)
      → get_elem? w.cells i ≡ some (some c)
      → IsCounted w
      → ((rest : ℕ)
          → w.pending ≡ counter (rest + outstanding c)
          → n ≡ counter (rest + size_of outstanding d))
      → IsCounted (with_cell i d w n)
  cell-IsCounted w i c d n e h follows =
      let o = others outstanding w.cells i (some c) e in
      let rest : ℕ = o.rest + total unsettled w.processes in
      omega (arith, follows rest (omega (arith, h, o.before)), o.after d)

  process-IsCounted :
      (w : World V U) (i : ℕ) (p : Process V (Action V U)) (r : Option (Process V (Action V U)))
      (n : ℕ)
      → get_elem? w.processes i ≡ some (some p)
      → IsCounted w
      → ((rest : ℕ)
          → w.pending ≡ counter (rest + unsettled p)
          → n ≡ counter (rest + size_of unsettled r))
      → IsCounted (with_process i r w n)
  process-IsCounted w i p r n e h follows =
      let o = others unsettled w.processes i (some p) e in
      let rest : ℕ = total outstanding w.cells + o.rest in
      omega (arith, follows rest (omega (arith, h, o.before)), o.after r)

  -- Every step of every thread keeps the shared count that of all outstanding work.
  pub WorldStep-IsCounted :
      {call : U → V → CallbackResult V (Action V U)} {w x : World V U}
      → WorldStep call w x
      → IsCounted w
      → IsCounted x
  WorldStep-IsCounted {w = w} (WorldStep.cell_created state) h = omega (
    arith,
    h,
    total-append outstanding w.cells (create_with_state state) (unfold create_with_state in refl),
  )
  WorldStep-IsCounted {w = w} (WorldStep.process_created handler) h =
      omega (arith, h, total-append unsettled w.processes (create handler) (unfold create in refl))
  WorldStep-IsCounted {w = w} (WorldStep.cell_stepped i c d n e step f) h =
      cell-IsCounted w i c (some d) n e h (λ rest. CellStep-count rest step)
  WorldStep-IsCounted {w = w} (WorldStep.process_stepped i p r n e step f) h =
      process-IsCounted w i p (some r) n e h (λ rest. ProcessStep-count rest step)
  WorldStep-IsCounted {w = w} (WorldStep.cell_dispatched i c action staged e f) h =
      run_action-IsCounted action _
        (cell-IsCounted w i c _ w.pending e h (λ rest g. omega (arith, g, ap in_flight f)))
  WorldStep-IsCounted {w = w} (WorldStep.process_dispatched i p action staged e f) h =
      run_action-IsCounted action _
        (process-IsCounted w i p _ w.pending e h (λ rest g. omega (arith, g, ap in_hand f)))
  WorldStep-IsCounted {w = w} (WorldStep.cell_destroyed i c e f) h =
      cell-IsCounted w i c none _ e h (λ rest g. destroy-count rest c w.pending f g ∙ omega arith)
  WorldStep-IsCounted {w = w} (WorldStep.process_destroyed i p e f) h =
      process-IsCounted w i p none _ e h
        (λ rest g. Steps.destroy-count rest p w.pending f g ∙ omega arith)

  Reachable-IsCounted :
      {call : U → V → CallbackResult V (Action V U)} {w : World V U}
      → Reachable call w
      → IsCounted w
  Reachable-IsCounted Reachable.start = unfold total in refl
  Reachable-IsCounted (Reachable.next r step) = WorldStep-IsCounted step (Reachable-IsCounted r)

  -- In every state that is reached, the causal barrier opens exactly where no entity has work that is
  -- accepted and not retired, as long as there are fewer than 2^64 pieces of it.
  pub Reachable-is_settled :
      {call : U → V → CallbackResult V (Action V U)} (w : World V U)
      → Reachable call w
      → all_outstanding w < 2 ^ 64
      → (is_settled w.pending ≡ true) ↔ (all_outstanding w ≡ 0)
  unfolding is_settled
  Reachable-is_settled w r bound =
      let counted = Reachable-IsCounted r in
      (
        λ e. omega (arith, counted, bound, (==_iff w.pending 0).0 e),
        λ e. (==_iff w.pending 0).1 (omega (arith, counted, e)),
      )
