-- ===== src/Concurrency/Process/Steps.antt =====
-- src/process.hpp: the steps of a process among other threads, and what every step keeps.
use genia_cpp.Base.{
  ℕ, ◌+◌, ◌≡◌, refl, ap, ◌∙◌, ◌⊎◌, true, if◌then◌else◌, Option, none, some, List, [], ◌∷◌, length,
  length-append, arith, inl, inr, Bool-cases,
}
use genia_cpp.Concurrency.Quiescence.{counter, accept, complete_lem}
use genia_cpp.Concurrency.Cell.{CallbackResult}
use genia_cpp.Concurrency.Cell.Steps.{List-cases}
use genia_cpp.Concurrency.Process.{
  Handling, Process, in_hand, create, send, request_end, take_message, invoke, settle, retire,
  destroy,
}

-- Messages that are accepted and not retired.
abbrev pub unsettled {ℓ} : {V A : Type ℓ} → Process V A → ℕ
unsettled p = length p.messages + in_hand p.worker

module _ {ℓ} {V A : Type ℓ} where
  -- One step, from a process and a count to a process and a count.
  pub data ProcessStep : Process V A → ℕ → Process V A → ℕ → Type ℓ where
    sent :
        (p : Process V A) (n : ℕ) (message : V)
        → ProcessStep p n (send message p n).1 (send message p n).2
    end_requested : (p : Process V A) (n : ℕ) → ProcessStep p n (request_end p) n
    taken :
        (p r : Process V A) (n : ℕ)
        → p.worker ≡ Handling.waiting
        → take_message p ≡ some r
        → ProcessStep p n r n
    invoked :
        (p : Process V A) (n : ℕ) (message : V)
        → p.worker ≡ Handling.holding message
        → ProcessStep p n (invoke message p) n
    settled :
        (p : Process V A) (n : ℕ) (staged : List A) (result : Option V)
        → p.worker ≡ Handling.called staged result
        → ProcessStep p n (settle staged result p n).0 (settle staged result p n).1
    dispatched :
        (p : Process V A) (n : ℕ) (action : A) (staged : List A)
        → p.worker ≡ Handling.dispatching (action ∷ staged)
        → ProcessStep p n (record p { worker = Handling.dispatching staged }) n
    retired :
        (p : Process V A) (n : ℕ)
        → p.worker ≡ Handling.dispatching []
        → ProcessStep p n (retire p n).0 (retire p n).1

  -- The counters agree with the messages there are, and a failed process has its text and an empty
  -- mailbox.
  pub record IsValid (p : Process V A) : Type ℓ where
    pub accounted : p.accepted ≡ counter (p.completed + unsettled p)
    pub failed_text : p.error ≡ (if p.failed then some "process handler failed" else none)
    pub failed_empty : p.failed ≡ true → p.messages ≡ []

  pub create-IsValid : (handler : V → CallbackResult V A) → IsValid (create handler)
  unfolding create
  create-IsValid handler = record { accounted = refl; failed_text = refl; failed_empty = λ e. refl }

  send-IsValid : (m : V) (p : Process V A) (n : ℕ) → IsValid p → IsValid (send m p n).1
  unfolding send
  send-IsValid m p n v = elim (Bool-cases p.failed) [
    | inl e ↦ rw e (record {
      accounted = v.accounted;
      failed_text = v.failed_text ∙ rw e refl;
      failed_empty = λ f. v.failed_empty e;
    })
    | inr e ↦ rw e (record {
      accounted = omega (arith, v.accounted, length-append p.messages (m ∷ []));
      failed_text = v.failed_text ∙ rw e refl;
      failed_empty = λ f. cc;
    })
  ]

  -- What the worker finds when it wakes.
  pub take_message-cases :
      (p r : Process V A)
      → take_message p ≡ some r
      → (r ≡ record p { worker = Handling.ended })
        ⊎ ((message : V) × (messages : List V) × (p.messages ≡ message ∷ messages)
            × (r ≡ record p { messages = messages; worker = Handling.holding message }))
  unfolding take_message
  take_message-cases p r e = elim (Bool-cases p.terminate) [
    | inl t ↦ inl (ground arith)
    | inr t ↦ elim (List-cases p.messages) [
      | inl q ↦ absurd (ground arith)
      | inr (message, messages, q) ↦ inr (message, messages, q, ground arith)
    ]
  ]

  -- Every step of a process keeps it valid.
  pub ProcessStep-IsValid :
      {p : Process V A} {n : ℕ} {r : Process V A} {m : ℕ}
      → ProcessStep p n r m
      → IsValid p
      → IsValid r
  ProcessStep-IsValid (ProcessStep.sent p n message) v = send-IsValid message p n v
  ProcessStep-IsValid (ProcessStep.end_requested p n) v =
      unfold request_end in
      record { accounted = v.accounted; failed_text = v.failed_text; failed_empty = v.failed_empty }
  ProcessStep-IsValid (ProcessStep.taken p r n e f) v = elim (take_message-cases p r f) [
    | inl g ↦ rw g (record {
      accounted = omega (arith, v.accounted, ap in_hand e);
      failed_text = v.failed_text;
      failed_empty = v.failed_empty;
    })
    | inr (message, messages, q, g) ↦ rw g (record {
      accounted = omega (arith, v.accounted, ap in_hand e, ap length q);
      failed_text = v.failed_text;
      failed_empty = λ h. absurd (ground (arith, v.failed_empty h, q));
    })
  ]
  ProcessStep-IsValid (ProcessStep.invoked p n message e) v =
      unfold invoke in
      record {
        accounted = omega (arith, v.accounted, ap in_hand e);
        failed_text = v.failed_text;
        failed_empty = v.failed_empty;
      }
  ProcessStep-IsValid (ProcessStep.settled p n staged none e) v =
      unfold settle in
      record {
        accounted = omega (arith, v.accounted, ap in_hand e);
        failed_text = refl;
        failed_empty = λ h. refl;
      }
  ProcessStep-IsValid (ProcessStep.settled p n staged (some value) e) v =
      unfold settle in
      record {
        accounted = omega (arith, v.accounted, ap in_hand e);
        failed_text = v.failed_text;
        failed_empty = v.failed_empty;
      }
  ProcessStep-IsValid (ProcessStep.dispatched p n action staged e) v = record {
    accounted = omega (arith, v.accounted, ap in_hand e);
    failed_text = v.failed_text;
    failed_empty = v.failed_empty;
  }
  ProcessStep-IsValid (ProcessStep.retired p n e) v =
      unfold retire in
      record {
        accounted = omega (arith, v.accounted, ap in_hand e);
        failed_text = v.failed_text;
        failed_empty = v.failed_empty;
      }

  pub send-count :
      (rest : ℕ) (m : V) (p : Process V A) (n : ℕ)
      → n ≡ counter (rest + unsettled p)
      → (send m p n).2 ≡ counter (rest + unsettled (send m p n).1)
  unfolding send
  send-count rest m p n h = elim (Bool-cases p.failed) [
    | inl e ↦ rw e h
    | inr e ↦ rw e (unfold accept in omega (arith, h, length-append p.messages (m ∷ [])))
  ]

  -- However much other work there is: where the count is that of the outstanding work before a step,
  -- it is so behind the step.
  pub ProcessStep-count :
      {p : Process V A} {n : ℕ} {r : Process V A} {m : ℕ} (rest : ℕ)
      → ProcessStep p n r m
      → n ≡ counter (rest + unsettled p)
      → m ≡ counter (rest + unsettled r)
  ProcessStep-count rest (ProcessStep.sent p n message) h = send-count rest message p n h
  ProcessStep-count rest (ProcessStep.end_requested p n) h = unfold request_end in h
  ProcessStep-count rest (ProcessStep.taken p r n e f) h = elim (take_message-cases p r f) [
    | inl g ↦ rw g (omega (arith, h, ap in_hand e))
    | inr (message, messages, q, g) ↦ rw g (omega (arith, h, ap in_hand e, ap length q))
  ]
  ProcessStep-count rest (ProcessStep.invoked p n message e) h =
      unfold invoke in omega (arith, h, ap in_hand e)
  ProcessStep-count rest (ProcessStep.settled p n staged none e) h =
      unfold settle in complete_lem (1 + length p.messages) _ n (omega (arith, h, ap in_hand e))
  ProcessStep-count rest (ProcessStep.settled p n staged (some value) e) h =
      unfold settle in omega (arith, h, ap in_hand e)
  ProcessStep-count rest (ProcessStep.dispatched p n action staged e) h =
      omega (arith, h, ap in_hand e)
  ProcessStep-count rest (ProcessStep.retired p n e) h =
      unfold retire in complete_lem 1 _ n (omega (arith, h, ap in_hand e))

  -- The destructor retires what is queued.
  pub destroy-count :
      (rest : ℕ) (p : Process V A) (n : ℕ)
      → p.worker ≡ Handling.ended
      → n ≡ counter (rest + unsettled p)
      → destroy p n ≡ counter rest
  unfolding destroy
  destroy-count rest p n e h =
      complete_lem (length p.messages) rest n (omega (arith, h, ap in_hand e))
