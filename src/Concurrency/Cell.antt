-- ===== src/Concurrency/Cell.antt =====
-- src/cell.hpp: the cell, its operations and its worker. An operation is one step under the lock, on
-- the cell and the shared count of accepted work; the worker's loop is cut where it takes or leaves
-- the lock. The backing Ref is the field `state`; whoever shares it may set it between two steps.
pub mod Steps
pub mod Count
pub mod History
use genia_cpp.Base.{
  ℕ, ◌+◌, ◌==◌, Bool, true, false, not, if◌then◌else◌, Option, none, some, List, [], ◌∷◌, ◌++◌,
  length,
}
use genia_cpp.Concurrency.Quiescence.{counter, accept, complete}
use genia_cpp.Concurrency.Ref.{Call, get}
use Prim.Native.String.{String}

pub data Status : Type 0 where
  ready : Status
  stopped : Status
  failed : Status

-- What an update gives: the actions that it staged, and a replacement, `nullopt` or an exception.
pub data Outcome {ℓ} (V : Type ℓ) : Type ℓ where
  returned : Option V → Outcome V
  raised : Outcome V

pub record CallbackResult {ℓ} (V A : Type ℓ) : Type ℓ where
  pub staged : List A
  pub outcome : Outcome V

pub record Work {ℓ} (U : Type ℓ) : Type ℓ where
  pub generation : ℕ
  pub update : U

-- Where the worker stands between two sections under a lock.
pub data Worker {ℓ} (V U A : Type ℓ) : Type ℓ where
  waiting : Worker V U A
  holding : Work U → Worker V U A
  called : Work U → List A → Option V → Worker V U A
  dispatching : List A → Worker V U A
  ended : Worker V U A

pub record Cell {ℓ} (V U A : Type ℓ) : Type ℓ where
  pub state : Option V
  pub queue : List (Work U)
  pub status : Status
  pub error : Option String
  pub generation : ℕ
  pub accepted : ℕ
  pub completed : ℕ
  pub terminate : Bool
  pub worker : Worker V U A

-- The work that a worker has taken and not retired.
abbrev pub in_flight {ℓ} : {V U A : Type ℓ} → Worker V U A → ℕ
in_flight Worker.waiting = 0
in_flight (Worker.holding work) = 1
in_flight (Worker.called work staged replacement) = 1
in_flight (Worker.dispatching staged) = 1
in_flight Worker.ended = 0

-- `replacement` behind the `try` block.
abbrev pub replacement_of {ℓ} : {V : Type ℓ} → Outcome V → Option V
replacement_of (Outcome.returned replacement) = replacement
replacement_of Outcome.raised = none

abbrev pub is_ready : Status → Bool
is_ready Status.ready = true
is_ready Status.stopped = false
is_ready Status.failed = false

abbrev pub is_failed : Status → Bool
is_failed Status.ready = false
is_failed Status.stopped = false
is_failed Status.failed = true

module _ {ℓ} {V U A : Type ℓ} where
  unfoldable pub create_with_state : Option V → Cell V U A
  create_with_state state = record {
    state = state;
    queue = [];
    status = Status.ready;
    error = none;
    generation = 0;
    accepted = 0;
    completed = 0;
    terminate = false;
    worker = Worker.waiting;
  }

  unfoldable pub create : V → Cell V U A
  create initial = create_with_state (some initial)

  -- Accepted or not, the cell and the count.
  unfoldable pub send : U → Cell V U A → ℕ → Bool × Cell V U A × ℕ
  send update c pending = if not (is_ready c.status) then (false, c, pending) else (
    true,
    record c {
      queue = c.queue ++ record { generation = c.generation; update = update } ∷ [];
      accepted = counter (c.accepted + 1);
    },
    accept pending,
  )

  -- `get`: `none` where the cell has failed, else the Ref's value, for which it waits.
  unfoldable pub read : Cell V U A → Call (Option V)
  read c = if is_failed c.status then Call.returns none else elim (get c.state) [
    | Call.blocks ↦ Call.blocks
    | Call.raises ↦ Call.raises
    | Call.returns value ↦ Call.returns (some value)
  ]

  unfoldable pub stop : Cell V U A → Cell V U A
  stop c = if is_ready c.status then record c { status = Status.stopped } else c

  unfoldable pub restart : V → Cell V U A → ℕ → Cell V U A × ℕ
  restart new_state c pending = (
    record c {
      generation = counter (c.generation + 1);
      completed = counter (c.completed + length c.queue);
      queue = [];
      state = some new_state;
      status = Status.ready;
      error = none;
    },
    complete (length c.queue) pending,
  )

  -- The test that `await_idle` waits for.
  unfoldable pub is_idle : Cell V U A → Bool
  is_idle c = c.accepted == c.completed

  -- The destructor: the request, and what it retires when the worker has ended.
  unfoldable pub request_end : Cell V U A → Cell V U A
  request_end c = record c { terminate = true }

  unfoldable pub destroy : Cell V U A → ℕ → ℕ
  destroy c pending = complete (length c.queue) pending

  -- `run` from a wait to the next: `none` while it waits.
  unfoldable pub take_work : Cell V U A → Option (Cell V U A)
  take_work c = if c.terminate then some (record c { worker = Worker.ended }) else elim c.queue [
    | [] ↦ none
    | work ∷ queue ↦ some (record c { queue = queue; worker = Worker.holding work })
  ]

  -- The callback, on the value that the Ref holds when it is called. What it raises is caught.
  unfoldable pub invoke : (U → V → CallbackResult V A) → Work U → Cell V U A → Call (Cell V U A)
  invoke call work c = elim (get c.state) [
    | Call.blocks ↦ Call.blocks
    | Call.raises ↦ Call.raises
    | Call.returns value ↦
        let result = call work.update value in
        Call.returns
          (record c { worker = Worker.called work result.staged (replacement_of result.outcome) })
  ]

  -- The section that commits a replacement, a failure, or nothing.
  unfoldable pub commit : Work U → List A → Option V → Cell V U A → ℕ → Cell V U A × ℕ
  commit work staged replacement c pending =
      if not (work.generation == c.generation)
      then (
        record c { completed = counter (c.completed + 1); worker = Worker.waiting },
        complete 1 pending,
      )
      else elim replacement [
        | none ↦ (
          record c {
            status = Status.failed;
            error = some "cell update failed";
            completed = counter (c.completed + (1 + length c.queue));
            queue = [];
            worker = Worker.waiting;
          },
          complete (1 + length c.queue) pending,
        )
        | some value ↦
            (record c { state = some value; worker = Worker.dispatching staged }, pending)
      ]

  -- Behind the staged actions, the parent is retired.
  unfoldable pub retire : Cell V U A → ℕ → Cell V U A × ℕ
  retire c pending = (
    record c { completed = counter (c.completed + 1); worker = Worker.waiting },
    complete 1 pending,
  )
