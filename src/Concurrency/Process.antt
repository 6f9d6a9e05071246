-- ===== src/Concurrency/Process.antt =====
-- src/process.hpp: the process, its mailbox and its worker. An operation is one step under the lock,
-- on the process and the shared count of accepted work.
pub mod Steps
use genia_cpp.Base.{
  ℕ, ◌+◌, ◌==◌, Bool, true, false, not, if◌then◌else◌, Option, none, some, List, [], ◌∷◌, ◌++◌,
  length,
}
use genia_cpp.Concurrency.Quiescence.{counter, accept, complete}
use genia_cpp.Concurrency.Cell.{CallbackResult, replacement_of}
use Prim.Native.String.{String}

-- Where the worker stands between two sections under a lock.
pub data Handling {ℓ} (V A : Type ℓ) : Type ℓ where
  waiting : Handling V A
  holding : V → Handling V A
  called : List A → Option V → Handling V A
  dispatching : List A → Handling V A
  ended : Handling V A

pub record Process {ℓ} (V A : Type ℓ) : Type ℓ where
  pub handler : V → CallbackResult V A
  pub messages : List V
  pub failed : Bool
  pub terminate : Bool
  pub error : Option String
  pub accepted : ℕ
  pub completed : ℕ
  pub worker : Handling V A

-- The message that a worker has taken and not retired.
abbrev pub in_hand {ℓ} : {V A : Type ℓ} → Handling V A → ℕ
in_hand Handling.waiting = 0
in_hand (Handling.holding message) = 1
in_hand (Handling.called staged result) = 1
in_hand (Handling.dispatching staged) = 1
in_hand Handling.ended = 0

module _ {ℓ} {V A : Type ℓ} where
  unfoldable pub create : (V → CallbackResult V A) → Process V A
  create handler = record {
    handler = handler;
    messages = [];
    failed = false;
    terminate = false;
    error = none;
    accepted = 0;
    completed = 0;
    worker = Handling.waiting;
  }

  -- Accepted or not, the process and the count.
  unfoldable pub send : V → Process V A → ℕ → Bool × Process V A × ℕ
  send message p pending = if p.failed then (false, p, pending) else (
    true,
    record p { messages = p.messages ++ message ∷ []; accepted = counter (p.accepted + 1) },
    accept pending,
  )

  unfoldable pub alive : Process V A → Bool
  alive p = not p.failed

  -- The test that `await_idle` waits for.
  unfoldable pub is_idle : Process V A → Bool
  is_idle p = p.accepted == p.completed

  -- The destructor: the request, and what it retires when the worker has ended.
  unfoldable pub request_end : Process V A → Process V A
  request_end p = record p { terminate = true }

  unfoldable pub destroy : Process V A → ℕ → ℕ
  destroy p pending = complete (length p.messages) pending

  -- `run` from a wait to the next: `none` while it waits.
  unfoldable pub take_message : Process V A → Option (Process V A)
  take_message p =
      if p.terminate then some (record p { worker = Handling.ended }) else elim p.messages [
        | [] ↦ none
        | message ∷ messages ↦
            some (record p { messages = messages; worker = Handling.holding message })
      ]

  -- The handler. What it raises is caught.
  unfoldable pub invoke : V → Process V A → Process V A
  invoke message p =
      let result = p.handler message in
      record p { worker = Handling.called result.staged (replacement_of result.outcome) }

  -- The section behind the handler. A failure is final and discards the mailbox.
  unfoldable pub settle : List A → Option V → Process V A → ℕ → Process V A × ℕ
  settle staged none p pending = (
    record p {
      failed = true;
      error = some "process handler failed";
      completed = counter (p.completed + (1 + length p.messages));
      messages = [];
      worker = Handling.waiting;
    },
    complete (1 + length p.messages) pending,
  )
  settle staged (some value) p pending =
      (record p { worker = Handling.dispatching staged }, pending)

  -- Behind the staged actions, the message is retired.
  unfoldable pub retire : Process V A → ℕ → Process V A × ℕ
  retire p pending = (
    record p { completed = counter (p.completed + 1); worker = Handling.waiting },
    complete 1 pending,
  )
