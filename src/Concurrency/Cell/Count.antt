-- ===== src/Concurrency/Cell/Count.antt =====
-- src/cell.hpp: the shared count follows each step of a cell.
use genia_cpp.Base.{
  ℕ, ◌+◌, ◌==◌, ◌≡◌, ap, Option, List, [], ◌∷◌, length, length-append, arith, inl, inr, Bool-cases,
  Option-cases,
}
use genia_cpp.Concurrency.Quiescence.{counter, accept, complete_lem}
use genia_cpp.Concurrency.Cell.{
  CallbackResult, Work, Worker, Cell, in_flight, is_ready, send, stop, restart, request_end, commit,
  retire, destroy,
}
use genia_cpp.Concurrency.Cell.Steps.{CellStep, outstanding, take_work-cases, invoke-cases}

module _ {ℓ} {V U A : Type ℓ} where
  pub send-count :
      (rest : ℕ) (u : U) (c : Cell V U A) (p : ℕ)
      → p ≡ counter (rest + outstanding c)
      → (send u c p).2 ≡ counter (rest + outstanding (send u c p).1)
  unfolding send
  send-count rest u c p h = elim (Bool-cases (is_ready c.status)) [
    | inr e ↦ rw e h
    | inl e ↦ rw e (
        unfold accept in
        omega
          (arith, h, length-append c.queue (record { generation = c.generation; update = u } ∷ [])))
  ]

  stop-count : (c : Cell V U A) → outstanding (stop c) ≡ outstanding c
  unfolding stop
  stop-count c = ground arith

  commit-count :
      (rest : ℕ) (work : Work U) (staged : List A) (replacement : Option V) (c : Cell V U A) (p : ℕ)
      → c.worker ≡ Worker.called work staged replacement
      → p ≡ counter (rest + outstanding c)
      → (commit work staged replacement c p).1
        ≡ counter (rest + outstanding (commit work staged replacement c p).0)
  unfolding commit
  commit-count rest work staged replacement c p e h =
      elim (Bool-cases (work.generation == c.generation)) [
        | inr g ↦ rw g (complete_lem 1 _ p (omega (arith, h, ap in_flight e)))
        | inl g ↦ elim (Option-cases replacement) [
          | inl r ↦
              rw (g, r) (complete_lem (1 + length c.queue) _ p (omega (arith, h, ap in_flight e)))
          | inr (value, r) ↦ rw (g, r) (omega (arith, h, ap in_flight e))
        ]
      ]

  -- However much other work there is: where the count is that of the outstanding work before a step,
  -- it is so behind the step.
  pub CellStep-count :
      {call : U → V → CallbackResult V A} {c : Cell V U A} {p : ℕ} {d : Cell V U A} {q : ℕ}
      (rest : ℕ)
      → CellStep call c p d q
      → p ≡ counter (rest + outstanding c)
      → q ≡ counter (rest + outstanding d)
  CellStep-count rest (CellStep.sent c p update) h = send-count rest update c p h
  CellStep-count rest (CellStep.stopped c p) h = rw (stop-count c) h
  CellStep-count rest (CellStep.restarted c p new_state) h =
      unfold restart in complete_lem (length c.queue) _ p (omega (arith, h))
  CellStep-count rest (CellStep.ref_set c p value) h = h
  CellStep-count rest (CellStep.end_requested c p) h = unfold request_end in h
  CellStep-count rest (CellStep.taken c d p e f) h = elim (take_work-cases c d f) [
    | inl (t, g) ↦ rw g (omega (arith, h, ap in_flight e))
    | inr (work, queue, t, q, g) ↦ rw g (omega (arith, h, ap in_flight e, ap length q))
  ]
  CellStep-count rest (CellStep.invoked c d p work e f) h =
      let (value, s, g) = invoke-cases _ work c d f in rw g (omega (arith, h, ap in_flight e))
  CellStep-count rest (CellStep.committed c p work staged replacement e) h =
      commit-count rest work staged replacement c p e h
  CellStep-count rest (CellStep.dispatched c p action staged e) h = omega (arith, h, ap in_flight e)
  CellStep-count rest (CellStep.retired c p e) h =
      unfold retire in complete_lem 1 _ p (omega (arith, h, ap in_flight e))

  -- The destructor retires what is queued.
  pub destroy-count :
      (rest : ℕ) (c : Cell V U A) (p : ℕ)
      → c.worker ≡ Worker.ended
      → p ≡ counter (rest + outstanding c)
      → destroy c p ≡ counter rest
  unfolding destroy
  destroy-count rest c p e h =
      complete_lem (length c.queue) rest p (omega (arith, h, ap in_flight e))
