-- ===== src/Concurrency/Cell/History.antt =====
-- src/cell.hpp: the order of the work, and what a restart does to work that is under way.
use genia_cpp.Base.{
  ℕ, ◌+◌, ◌==◌, ◌≡◌, refl, sym, ◌∙◌, false, not, if◌then◌else◌, Option, none, some, List, [], ◌∷◌,
  ◌++◌, arith, inl, inr, Bool-cases, Option-cases,
}
use genia_cpp.Concurrency.Quiescence.{counter}
use genia_cpp.Concurrency.Cell.{
  CallbackResult, Work, Worker, Cell, is_ready, create_with_state, send, stop, restart, request_end,
  commit, retire,
}
use genia_cpp.Concurrency.Cell.Steps.{CellStep, take_work-cases, invoke-cases}
use mathlib.Core.List.{append-nil, append_assoc}

next_generation : (g : ℕ) → (g == counter (g + 1)) ≡ false
next_generation g = ground arith

module _ {ℓ} {V U A : Type ℓ} where
  -- The work in the hands of a worker that has just come back from the queue.
  abbrev pub held : Worker V U A → List (Work U)
  held (Worker.holding work) = work ∷ []
  held worker = []

  -- Work that the worker holds behind a step and did not hold before it.
  unfoldable pub now_taken :
      {call : U → V → CallbackResult V A} {c : Cell V U A} {p : ℕ} {d : Cell V U A} {q : ℕ}
      → CellStep call c p d q
      → List (Work U)
  now_taken (CellStep.sent c p update) = []
  now_taken (CellStep.stopped c p) = []
  now_taken (CellStep.restarted c p new_state) = []
  now_taken (CellStep.ref_set c p value) = []
  now_taken (CellStep.end_requested c p) = []
  now_taken (CellStep.taken c d p e f) = held d.worker
  now_taken (CellStep.invoked c d p work e f) = []
  now_taken (CellStep.committed c p work staged replacement e) = []
  now_taken (CellStep.dispatched c p action staged e) = []
  now_taken (CellStep.retired c p e) = []

  -- The work admitted and not discarded behind a step: before it this was `admitted`, and `taken`
  -- was taken. A restart and a failure discard what waits.
  unfoldable pub now_admitted :
      {call : U → V → CallbackResult V A} {c : Cell V U A} {p : ℕ} {d : Cell V U A} {q : ℕ}
      → CellStep call c p d q
      → List (Work U)
      → List (Work U)
      → List (Work U)
  now_admitted (CellStep.sent c p update) admitted taken =
      if is_ready c.status
      then admitted ++ record { generation = c.generation; update = update } ∷ []
      else admitted
  now_admitted (CellStep.stopped c p) admitted taken = admitted
  now_admitted (CellStep.restarted c p new_state) admitted taken = taken
  now_admitted (CellStep.ref_set c p value) admitted taken = admitted
  now_admitted (CellStep.end_requested c p) admitted taken = admitted
  now_admitted (CellStep.taken c d p e f) admitted taken = admitted
  now_admitted (CellStep.invoked c d p work e f) admitted taken = admitted
  now_admitted (CellStep.committed c p work staged replacement e) admitted taken =
      if not (work.generation == c.generation)
      then admitted
      else elim replacement [ none ↦ taken | some value ↦ admitted ]
  now_admitted (CellStep.dispatched c p action staged e) admitted taken = admitted
  now_admitted (CellStep.retired c p e) admitted taken = admitted

  -- The cells that come about, with the work admitted and not discarded, and the work taken.
  pub data History (call : U → V → CallbackResult V A)
      : Cell V U A → ℕ → List (Work U) → List (Work U) → Type ℓ where
    created : (state : Option V) (p : ℕ) → History call (create_with_state state) p [] []
    -- Other entities change the count.
    counted :
        {c : Cell V U A} {p : ℕ} {ws ts : List (Work U)} (q : ℕ)
        → History call c p ws ts
        → History call c q ws ts
    stepped :
        {c : Cell V U A} {p : ℕ} {ws ts : List (Work U)} {d : Cell V U A} {q : ℕ}
        → History call c p ws ts
        → (step : CellStep call c p d q)
        → History call d q (now_admitted step ws ts) (ts ++ now_taken step)

  step-order :
      {call : U → V → CallbackResult V A} {c : Cell V U A} {p : ℕ} {d : Cell V U A} {q : ℕ}
      (ws ts : List (Work U)) (step : CellStep call c p d q)
      → ws ≡ ts ++ c.queue
      → now_admitted step ws ts ≡ (ts ++ now_taken step) ++ d.queue
  unfolding now_admitted now_taken
  step-order ws ts (CellStep.sent c p update) h = elim (Bool-cases (is_ready c.status)) [
    | inl e ↦ unfold send in rw (e, append-nil ts, h) (append_assoc ts c.queue _)
    | inr e ↦ unfold send in rw (e, append-nil ts) h
  ]
  step-order ws ts (CellStep.stopped c p) h = elim (Bool-cases (is_ready c.status)) [
    | inl e ↦ unfold stop in rw (e, append-nil ts) h
    | inr e ↦ unfold stop in rw (e, append-nil ts) h
  ]
  step-order ws ts (CellStep.restarted c p new_state) h =
      unfold restart in sym (append-nil _ ∙ append-nil ts)
  step-order ws ts (CellStep.ref_set c p value) h = rw (append-nil ts) h
  step-order ws ts (CellStep.end_requested c p) h = unfold request_end in rw (append-nil ts) h
  step-order ws ts (CellStep.taken c d p e f) h = elim (take_work-cases c d f) [
    | inl (t, g) ↦ rw (g, append-nil ts) h
    | inr (work, queue, t, q, g) ↦ rw g (h ∙ rw q (sym (append_assoc ts _ queue)))
  ]
  step-order ws ts (CellStep.invoked c d p work e f) h =
      let (value, s, g) = invoke-cases _ work c d f in rw (g, append-nil ts) h
  step-order ws ts (CellStep.committed c p work staged replacement e) h =
      elim (Bool-cases (work.generation == c.generation)) [
        | inr g ↦ unfold commit in rw (g, append-nil ts) h
        | inl g ↦ elim (Option-cases replacement) [
          | inl r ↦ unfold commit in rw (g, r) (sym (append-nil _ ∙ append-nil ts))
          | inr (value, r) ↦ unfold commit in rw (g, r, append-nil ts) h
        ]
      ]
  step-order ws ts (CellStep.dispatched c p action staged e) h = rw (append-nil ts) h
  step-order ws ts (CellStep.retired c p e) h = unfold retire in rw (append-nil ts) h

  -- Work comes into the hands of the worker in the order in which it was admitted: what was admitted
  -- and not discarded is what the worker has held, in the order in which it came to hold it, and then
  -- the queue.
  pub History-order :
      {call : U → V → CallbackResult V A} {c : Cell V U A} {p : ℕ} {ws ts : List (Work U)}
      → History call c p ws ts
      → ws ≡ ts ++ c.queue
  History-order (History.created state p) = unfold create_with_state in refl
  History-order (History.counted q h) = History-order h
  History-order (History.stepped h step) = step-order _ _ step (History-order h)

  -- What a restart finds under way is discarded: whatever it gives, the state, the status, the
  -- queue and the error text stay those of the restart, and no staged action is dispatched.
  pub commit-restart :
      (work : Work U) (staged : List A) (replacement : Option V) (new_state : V) (c : Cell V U A)
      (p q : ℕ)
      → work.generation ≡ c.generation
      → (commit work staged replacement (restart new_state c p).0 q).0
        ≡ record (restart new_state c p).0 {
          completed = counter ((restart new_state c p).0.completed + 1);
          worker = Worker.waiting;
        }
  unfolding commit restart
  commit-restart work staged replacement new_state c p q e =
      rw (e, next_generation c.generation) refl
