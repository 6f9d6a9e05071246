-- ===== src/Concurrency/World.antt =====
-- src/cell.hpp, src/process.hpp, src/r25_quiescence.hpp together: cells and processes that share one
-- count of accepted work, and send to each other when they dispatch what their callbacks staged.
pub mod Pending
use genia_cpp.Base.{
  ℕ, zero, suc, ◌+◌, ◌==◌, ◌≡◌, Bool, true, false, Option, none, some, List, [], ◌∷◌, ◌++◌, length,
  get_elem?,
}
use genia_cpp.Concurrency.Quiescence.{counter}
use genia_cpp.Concurrency.Cell.{
  CallbackResult, Worker, Cell, create_with_state, send as cell_send, destroy as cell_destroy,
}
use genia_cpp.Concurrency.Cell.Steps.{CellStep, outstanding}
use genia_cpp.Concurrency.Process.{
  Handling, Process, create, send as process_send, destroy as process_destroy,
}
use genia_cpp.Concurrency.Process.Steps.{ProcessStep, unsettled}

-- A staged send, to the entity of that index.
pub data Action (V U : Type 0) : Type 0 where
  send_cell : ℕ → U → Action V U
  send_process : ℕ → V → Action V U

-- An entity that was destroyed leaves its place empty.
pub record World (V U : Type 0) : Type 0 where
  pub cells : List (Option (Cell V U (Action V U)))
  pub processes : List (Option (Process V (Action V U)))
  pub pending : ℕ

module _ {A : Type 0} where
  unfoldable pub set_elem : ℕ → A → List A → List A
  set_elem i a [] = []
  set_elem zero a (x ∷ xs) = a ∷ xs
  set_elem (suc i) a (x ∷ xs) = x ∷ set_elem i a xs

  abbrev pub size_of : (A → ℕ) → Option A → ℕ
  size_of size none = 0
  size_of size (some x) = size x

  unfoldable pub total : (A → ℕ) → List (Option A) → ℕ
  total size [] = 0
  total size (x ∷ xs) = size_of size x + total size xs

module _ {V U : Type 0} where
  -- All the work that is accepted and not retired.
  abbrev pub all_outstanding : World V U → ℕ
  all_outstanding w = total outstanding w.cells + total unsettled w.processes

  abbrev pub with_cell : ℕ → Option (Cell V U (Action V U)) → World V U → ℕ → World V U
  with_cell i c w n = record w { cells = set_elem i c w.cells; pending = n }

  abbrev pub with_process : ℕ → Option (Process V (Action V U)) → World V U → ℕ → World V U
  with_process i p w n = record w { processes = set_elem i p w.processes; pending = n }

  abbrev pub send_to_cell : ℕ → U → World V U → Option (Option (Cell V U (Action V U))) → World V U
  send_to_cell i u w (some (some c)) =
      with_cell i (some (cell_send u c w.pending).1) w (cell_send u c w.pending).2
  send_to_cell i u w (some none) = w
  send_to_cell i u w none = w

  abbrev pub send_to_process :
      ℕ → V → World V U → Option (Option (Process V (Action V U))) → World V U
  send_to_process i m w (some (some p)) =
      with_process i (some (process_send m p w.pending).1) w (process_send m p w.pending).2
  send_to_process i m w (some none) = w
  send_to_process i m w none = w

  -- `action()`: a send under the target's lock. The action keeps its target alive.
  unfoldable pub run_action : Action V U → World V U → World V U
  run_action (Action.send_cell i u) w = send_to_cell i u w (get_elem? w.cells i)
  run_action (Action.send_process i m) w = send_to_process i m w (get_elem? w.processes i)

  -- The step is the call of a staged action.
  abbrev pub is_dispatch :
      {call : U → V → CallbackResult V (Action V U)} {c : Cell V U (Action V U)} {p : ℕ}
      {d : Cell V U (Action V U)} {q : ℕ}
      → CellStep call c p d q
      → Bool
  is_dispatch (CellStep.sent c p update) = false
  is_dispatch (CellStep.stopped c p) = false
  is_dispatch (CellStep.restarted c p new_state) = false
  is_dispatch (CellStep.ref_set c p value) = false
  is_dispatch (CellStep.end_requested c p) = false
  is_dispatch (CellStep.taken c d p e f) = false
  is_dispatch (CellStep.invoked c d p work e f) = false
  is_dispatch (CellStep.committed c p work staged replacement e) = false
  is_dispatch (CellStep.dispatched c p action staged e) = true
  is_dispatch (CellStep.retired c p e) = false

  abbrev pub is_process_dispatch :
      {p : Process V (Action V U)} {n : ℕ} {r : Process V (Action V U)} {m : ℕ}
      → ProcessStep p n r m
      → Bool
  is_process_dispatch (ProcessStep.sent p n message) = false
  is_process_dispatch (ProcessStep.end_requested p n) = false
  is_process_dispatch (ProcessStep.taken p r n e f) = false
  is_process_dispatch (ProcessStep.invoked p n message e) = false
  is_process_dispatch (ProcessStep.settled p n staged result e) = false
  is_process_dispatch (ProcessStep.dispatched p n action staged e) = true
  is_process_dispatch (ProcessStep.retired p n e) = false

  -- One thread takes one step.
  pub data WorldStep (call : U → V → CallbackResult V (Action V U)) (w : World V U)
      : World V U → Type 0 where
    cell_created :
        (state : Option V)
        → WorldStep call w (record w { cells = w.cells ++ some (create_with_state state) ∷ [] })
    process_created :
        (handler : V → CallbackResult V (Action V U))
        → WorldStep call w (record w { processes = w.processes ++ some (create handler) ∷ [] })
    cell_stepped :
        (i : ℕ) (c d : Cell V U (Action V U)) (n : ℕ)
        → get_elem? w.cells i ≡ some (some c)
        → (step : CellStep call c w.pending d n) → is_dispatch step ≡ false
        → WorldStep call w (with_cell i (some d) w n)
    process_stepped :
        (i : ℕ) (p r : Process V (Action V U)) (n : ℕ)
        → get_elem? w.processes i ≡ some (some p)
        → (step : ProcessStep p w.pending r n) → is_process_dispatch step ≡ false
        → WorldStep call w (with_process i (some r) w n)
    -- A staged action runs, and its parent is still outstanding.
    cell_dispatched :
        (i : ℕ) (c : Cell V U (Action V U)) (action : Action V U) (staged : List (Action V U))
        → get_elem? w.cells i ≡ some (some c)
        → c.worker ≡ Worker.dispatching (action ∷ staged)
        → WorldStep call w (
            run_action action
              (with_cell i (some (record c { worker = Worker.dispatching staged })) w w.pending))
    process_dispatched :
        (i : ℕ) (p : Process V (Action V U)) (action : Action V U) (staged : List (Action V U))
        → get_elem? w.processes i ≡ some (some p)
        → p.worker ≡ Handling.dispatching (action ∷ staged)
        → WorldStep call w (
            run_action action (
              with_process i
                (some (record p { worker = Handling.dispatching staged }))
                w
                w.pending))
    cell_destroyed :
        (i : ℕ) (c : Cell V U (Action V U))
        → get_elem? w.cells i ≡ some (some c)
        → c.worker ≡ Worker.ended
        → WorldStep call w (with_cell i none w (cell_destroy c w.pending))
    process_destroyed :
        (i : ℕ) (p : Process V (Action V U))
        → get_elem? w.processes i ≡ some (some p)
        → p.worker ≡ Handling.ended
        → WorldStep call w (with_process i none w (process_destroy p w.pending))

  abbrev pub empty_world : World V U
  empty_world = record { cells = []; processes = []; pending = 0 }

  pub data Reachable (call : U → V → CallbackResult V (Action V U)) : World V U → Type 0 where
    start : Reachable call empty_world
    next : {w x : World V U} → Reachable call w → WorldStep call w x → Reachable call x
