-- ===== src/Concurrency/Cell/Steps.antt =====
-- src/cell.hpp: the steps of a cell among other threads, and what every step keeps.
use genia_cpp.Base.{
  ℕ, ◌<◌, ◌↔◌, ==_iff, ◌+◌, ◌^◌, ◌==◌, ◌≡◌, refl, ap, subst, ◌∙◌, ◌⊎◌, true, false, if◌then◌else◌,
  Option, none, some, List, [], ◌∷◌, length, length-append, All, All-append, arith, inl, inr,
  Bool-cases, Option-cases,
}
use genia_cpp.Concurrency.Quiescence.{counter}
use genia_cpp.Concurrency.Ref.{Call, get}
use genia_cpp.Concurrency.Cell.{
  Status, CallbackResult, Work, Worker, Cell, in_flight, is_ready, is_failed, replacement_of,
  create_with_state, send, stop, restart, request_end, take_work, invoke, commit, retire, is_idle,
}

-- Work that is accepted and not retired.
abbrev pub outstanding {ℓ} : {V U A : Type ℓ} → Cell V U A → ℕ
outstanding c = length c.queue + in_flight c.worker

ready-not_failed : (s : Status) → is_ready s ≡ true → is_failed s ≡ false
ready-not_failed Status.ready e = refl
ready-not_failed Status.stopped e = refl
ready-not_failed Status.failed e = cc

pub List-cases {ℓ} :
    {A : Type ℓ} (xs : List A) → (xs ≡ []) ⊎ ((x : A) × (ys : List A) × (xs ≡ x ∷ ys))
List-cases [] = inl refl
List-cases (x ∷ ys) = inr (x, ys, refl)

module _ {ℓ} {V U A : Type ℓ} where
  -- One step, from a cell and a count to a cell and a count. `ref_set` is a thread that shares the
  -- backing Ref.
  pub data CellStep (call : U → V → CallbackResult V A)
      : Cell V U A → ℕ → Cell V U A → ℕ → Type ℓ where
    sent :
        (c : Cell V U A) (p : ℕ) (update : U)
        → CellStep call c p (send update c p).1 (send update c p).2
    stopped : (c : Cell V U A) (p : ℕ) → CellStep call c p (stop c) p
    restarted :
        (c : Cell V U A) (p : ℕ) (new_state : V)
        → CellStep call c p (restart new_state c p).0 (restart new_state c p).1
    ref_set :
        (c : Cell V U A) (p : ℕ) (value : V) → CellStep call c p (record c { state = some value }) p
    end_requested : (c : Cell V U A) (p : ℕ) → CellStep call c p (request_end c) p
    taken :
        (c d : Cell V U A) (p : ℕ)
        → c.worker ≡ Worker.waiting
        → take_work c ≡ some d
        → CellStep call c p d p
    invoked :
        (c d : Cell V U A) (p : ℕ) (work : Work U)
        → c.worker ≡ Worker.holding work
        → invoke call work c ≡ Call.returns d
        → CellStep call c p d p
    committed :
        (c : Cell V U A) (p : ℕ) (work : Work U) (staged : List A) (replacement : Option V)
        → c.worker ≡ Worker.called work staged replacement
        → CellStep call c p
            (commit work staged replacement c p).0
            (commit work staged replacement c p).1
    dispatched :
        (c : Cell V U A) (p : ℕ) (action : A) (staged : List A)
        → c.worker ≡ Worker.dispatching (action ∷ staged)
        → CellStep call c p (record c { worker = Worker.dispatching staged }) p
    retired :
        (c : Cell V U A) (p : ℕ)
        → c.worker ≡ Worker.dispatching []
        → CellStep call c p (retire c p).0 (retire c p).1

  -- The counters agree with the work there is, a failed cell has its text and no queue, and all that
  -- is queued is of the current generation.
  pub record IsValid (c : Cell V U A) : Type ℓ where
    pub accounted : c.accepted ≡ counter (c.completed + outstanding c)
    pub failed_text : c.error ≡ (if is_failed c.status then some "cell update failed" else none)
    pub failed_empty : is_failed c.status ≡ true → c.queue ≡ []
    pub current : All (λ work. work.generation ≡ c.generation) c.queue

  pub create-IsValid : (state : Option V) → IsValid (create_with_state state)
  unfolding create_with_state
  create-IsValid state = record {
    accounted = refl;
    failed_text = refl;
    failed_empty = λ e. refl;
    current = tt;
  }

  send-IsValid : (u : U) (c : Cell V U A) (p : ℕ) → IsValid c → IsValid (send u c p).1
  unfolding send
  send-IsValid u c p v = elim (Bool-cases (is_ready c.status)) [
    | inr e ↦ rw e v
    | inl e ↦ rw e (record {
      accounted = omega (
        arith,
        v.accounted,
        length-append c.queue (record { generation = c.generation; update = u } ∷ []),
      );
      failed_text = v.failed_text;
      failed_empty = λ f. ground arith;
      current = All-append _ c.queue _ v.current (refl, tt);
    })
  ]

  stop-IsValid : (c : Cell V U A) → IsValid c → IsValid (stop c)
  unfolding stop
  stop-IsValid c v = elim (Bool-cases (is_ready c.status)) [
    | inr e ↦ rw e v
    | inl e ↦ rw e (record {
      accounted = v.accounted;
      failed_text = v.failed_text ∙ rw (ready-not_failed c.status e) refl;
      failed_empty = λ f. ground arith;
      current = v.current;
    })
  ]

  restart-IsValid : (s : V) (c : Cell V U A) (p : ℕ) → IsValid c → IsValid (restart s c p).0
  unfolding restart
  restart-IsValid s c p v = record {
    accounted = omega (arith, v.accounted);
    failed_text = refl;
    failed_empty = λ e. refl;
    current = tt;
  }

  -- What the worker finds when it wakes.
  pub take_work-cases :
      (c d : Cell V U A)
      → take_work c ≡ some d
      → ((c.terminate ≡ true) × (d ≡ record c { worker = Worker.ended }))
        ⊎ ((work : Work U) × (queue : List (Work U)) × (c.terminate ≡ false)
            × (c.queue ≡ work ∷ queue)
            × (d ≡ record c { queue = queue; worker = Worker.holding work }))
  unfolding take_work
  take_work-cases c d e = elim (Bool-cases c.terminate) [
    | inl t ↦ inl (t, ground arith)
    | inr t ↦ elim (List-cases c.queue) [
      | inl q ↦ absurd (ground arith)
      | inr (work, queue, q) ↦ inr (work, queue, t, q, ground arith)
    ]
  ]

  -- The Ref is set where the callback was called.
  pub invoke-cases :
      (call : U → V → CallbackResult V A) (work : Work U) (c d : Cell V U A)
      → invoke call work c ≡ Call.returns d
      → (value : V) × (c.state ≡ some value)
        × (d ≡ record c {
          worker =
              Worker.called work
                (call work.update value).staged
                (replacement_of (call work.update value).outcome);
        })
  unfolding invoke get
  invoke-cases call work c d e = elim (Option-cases c.state) [
    | inl s ↦ absurd (ground arith)
    | inr (value, s) ↦ (value, s, ground arith)
  ]

  take_work-IsValid :
      (c d : Cell V U A) → c.worker ≡ Worker.waiting → take_work c ≡ some d → IsValid c → IsValid d
  unfolding take_work
  take_work-IsValid c d e f v = elim (take_work-cases c d f) [
    | inl (t, g) ↦ rw g (record {
      accounted = omega (arith, v.accounted, ap in_flight e);
      failed_text = v.failed_text;
      failed_empty = v.failed_empty;
      current = v.current;
    })
    | inr (work, queue, t, q, g) ↦ rw g (record {
      accounted = omega (arith, v.accounted, ap in_flight e, ap length q);
      failed_text = v.failed_text;
      failed_empty = λ h. absurd (ground (arith, v.failed_empty h, q));
      current = (subst (All _) q v.current).1;
    })
  ]

  commit-IsValid :
      (work : Work U) (staged : List A) (replacement : Option V) (c : Cell V U A) (p : ℕ)
      → c.worker ≡ Worker.called work staged replacement
      → IsValid c
      → IsValid (commit work staged replacement c p).0
  unfolding commit
  commit-IsValid work staged replacement c p e v =
      elim (Bool-cases (work.generation == c.generation)) [
        | inr g ↦ rw g (record {
          accounted = omega (arith, v.accounted, ap in_flight e);
          failed_text = v.failed_text;
          failed_empty = v.failed_empty;
          current = v.current;
        })
        | inl g ↦ elim (Option-cases replacement) [
          | inl r ↦
              rw (g, r)
                (record {
                  accounted = omega (arith, v.accounted, ap in_flight e);
                  failed_text = refl;
                  failed_empty = λ h. refl;
                  current = tt;
                })
          | inr (value, r) ↦
              rw (g, r)
                (record {
                  accounted = omega (arith, v.accounted, ap in_flight e);
                  failed_text = v.failed_text;
                  failed_empty = v.failed_empty;
                  current = v.current;
                })
        ]
      ]

  retire-IsValid :
      (c : Cell V U A) (p : ℕ)
      → c.worker ≡ Worker.dispatching []
      → IsValid c
      → IsValid (retire c p).0
  unfolding retire
  retire-IsValid c p e v = record {
    accounted = omega (arith, v.accounted, ap in_flight e);
    failed_text = v.failed_text;
    failed_empty = v.failed_empty;
    current = v.current;
  }

  -- Every step of a cell keeps it valid.
  pub CellStep-IsValid :
      {call : U → V → CallbackResult V A} {c : Cell V U A} {p : ℕ} {d : Cell V U A} {q : ℕ}
      → CellStep call c p d q
      → IsValid c
      → IsValid d
  CellStep-IsValid (CellStep.sent c p update) v = send-IsValid update c p v
  CellStep-IsValid (CellStep.stopped c p) v = stop-IsValid c v
  CellStep-IsValid (CellStep.restarted c p new_state) v = restart-IsValid new_state c p v
  CellStep-IsValid (CellStep.ref_set c p value) v = record {
    accounted = v.accounted;
    failed_text = v.failed_text;
    failed_empty = v.failed_empty;
    current = v.current;
  }
  CellStep-IsValid (CellStep.end_requested c p) v =
      unfold request_end in
      record {
        accounted = v.accounted;
        failed_text = v.failed_text;
        failed_empty = v.failed_empty;
        current = v.current;
      }
  CellStep-IsValid (CellStep.taken c d p e f) v = take_work-IsValid c d e f v
  CellStep-IsValid (CellStep.invoked c d p work e f) v =
      let (value, s, g) = invoke-cases _ work c d f in
      rw g (record {
        accounted = omega (arith, v.accounted, ap in_flight e);
        failed_text = v.failed_text;
        failed_empty = v.failed_empty;
        current = v.current;
      })
  CellStep-IsValid (CellStep.committed c p work staged replacement e) v =
      commit-IsValid work staged replacement c p e v
  CellStep-IsValid (CellStep.dispatched c p action staged e) v = record {
    accounted = v.accounted ∙ rw e refl;
    failed_text = v.failed_text;
    failed_empty = v.failed_empty;
    current = v.current;
  }
  CellStep-IsValid (CellStep.retired c p e) v = retire-IsValid c p e v

  -- Where less than 2^64 work is outstanding, the cell's own wait ends exactly where none is.
  pub is_idle_iff :
      (c : Cell V U A)
      → IsValid c
      → c.completed < 2 ^ 64
      → outstanding c < 2 ^ 64
      → (is_idle c ≡ true) ↔ (outstanding c ≡ 0)
  unfolding is_idle
  is_idle_iff c v width bound = (
    λ e. omega (arith, v.accounted, width, bound, (==_iff c.accepted c.completed).0 e),
    λ e. (==_iff c.accepted c.completed).1 (omega (arith, v.accounted, width, e)),
  )
