-- ===== src/Concurrency/Tests.antt =====
-- src/cell.hpp, src/process.hpp, src/r25_quiescence.hpp: the theorems on concrete entities.
use genia_cpp.Base.{ℕ, ◌+◌, ◌<◌, ◌^◌, ◌≡◌, ◌↔◌, refl, true, some, [], ◌∷◌, ◌++◌, arith}
use genia_cpp.Concurrency.Quiescence.{counter, is_settled}
use genia_cpp.Concurrency.Cell.{
  Outcome, CallbackResult, Work, Worker, Cell, create_with_state, send, restart, commit,
}
use genia_cpp.Concurrency.Cell.Steps.{
  CellStep, outstanding, IsValid, create-IsValid, CellStep-IsValid,
}
use genia_cpp.Concurrency.Cell.History.{
  History, now_admitted, now_taken, History-order, commit-restart,
}
use genia_cpp.Concurrency.Process.{Process, create as process_create}
use genia_cpp.Concurrency.World.{
  Action, World, WorldStep, Reachable, all_outstanding, empty_world, total,
}
use genia_cpp.Concurrency.World.Pending.{WorldStep-IsCounted, Reachable-is_settled, IsCounted}

abbrev Act : Type 0
Act = Action ℕ ℕ

-- An update adds to the state.
abbrev add_update : ℕ → ℕ → CallbackResult ℕ Act
add_update u v = record { staged = []; outcome = Outcome.returned (some (u + v)) }

abbrev fresh : Cell ℕ ℕ Act
fresh = create_with_state (some 5)

abbrev loaded : Cell ℕ ℕ Act
loaded = (send 7 fresh 0).1

abbrev seven : Work ℕ
seven = record { generation = 0; update = 7 }

loaded_step : CellStep add_update fresh 0 loaded (send 7 fresh 0).2
loaded_step = CellStep.sent fresh 0 7

loaded-IsValid : IsValid loaded
loaded-IsValid = CellStep-IsValid loaded_step (create-IsValid (some 5))

fresh_count : 0 ≡ counter (0 + outstanding fresh)
unfolding create_with_state
fresh_count = refl

loaded_completed : loaded.completed < 2 ^ 64
unfolding create_with_state send
loaded_completed = omega arith

loaded-outstanding : outstanding loaded < 2 ^ 64
unfolding create_with_state send
loaded-outstanding = omega arith

loaded_generation : seven.generation ≡ loaded.generation
unfolding create_with_state send
loaded_generation = refl

CellStep-IsValid_example : IsValid loaded
CellStep-IsValid_example = CellStep-IsValid loaded_step (create-IsValid (some 5))

loaded-History :
    History add_update loaded
      (send 7 fresh 0).2
      (now_admitted loaded_step [] [])
      ([] ++ now_taken loaded_step)
loaded-History = History.stepped (History.created (some 5) 0) loaded_step

History-order_example :
    now_admitted loaded_step [] [] ≡ ([] ++ now_taken loaded_step) ++ loaded.queue
History-order_example = History-order loaded-History

commit-restart_example :
    (commit seven [] (some 12) (restart 1 loaded 1).0 1).0 ≡ record (restart 1 loaded 1).0 {
      completed = counter ((restart 1 loaded 1).0.completed + 1);
      worker = Worker.waiting;
    }
commit-restart_example = commit-restart seven [] (some 12) 1 loaded 1 1 loaded_generation

abbrev handler : ℕ → CallbackResult ℕ Act
handler m = record { staged = []; outcome = Outcome.raised }

abbrev quiet : Process ℕ Act
quiet = process_create handler

abbrev one_cell : World ℕ ℕ
one_cell = record { cells = some fresh ∷ []; processes = []; pending = 0 }

nothing-IsCounted : IsCounted (empty_world {V = ℕ} {U = ℕ})
unfolding total
nothing-IsCounted = refl

one_cell_bound : all_outstanding one_cell < 2 ^ 64
unfolding total create_with_state
one_cell_bound = omega arith

one_cell_step : WorldStep add_update empty_world one_cell
one_cell_step = WorldStep.cell_created (some 5)

WorldStep-IsCounted_example : IsCounted one_cell
WorldStep-IsCounted_example = WorldStep-IsCounted one_cell_step nothing-IsCounted

Reachable-is_settled_example : (is_settled one_cell.pending ≡ true) ↔ (all_outstanding one_cell ≡ 0)
Reachable-is_settled_example =
    Reachable-is_settled one_cell (Reachable.next Reachable.start one_cell_step) one_cell_bound
