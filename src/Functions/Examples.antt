-- ===== src/Functions/Examples.antt =====
-- Runs of the system in Functions/System.antt, and the theorems at their states.
use node_gemfire.Base.{ℕ, ◌≤◌, ◌≡◌, refl, inl, Bool, [], ◌∷◌, ◌==◌}
use node_gemfire.Functions.Stream.{end_turn, results_processed, push_result, send_results, send_end}
use node_gemfire.Functions.Worker.{
  data_event, end_event, new_worker, end, execute_complete, emit_results,
}
use node_gemfire.Functions.System.{
  emitted_all, System, Step, adds, sends, enters_end, tests, announces, returns, fails, takes,
  emits, signals, ends, completes, Reach, begin, then_step, take_batch,
}
use node_gemfire.Functions.Log.{told, failures}
use node_gemfire.Functions.Safety.{end_follows_all, exception_reported_once, no-Step_after_delete}
use node_gemfire.Functions.Progress.{Finish, finishes, Runs, stop, go}
use node_gemfire.Functions.Termination.{steps, steps_left, GoesOn, terminates}
use node_gemfire.Functions.Channel.{opened, Served}
use node_gemfire.Functions.Refinement.{channel, Reach-Served}

-- The result 9 stands for an error.
abbrev is_nine : ℕ → Bool
is_nine n = n == 9

record Run : Type 0 where
  last : System ℕ ℕ
  reach : Reach is_nine last

infixl 20 ◌▸◌
abbrev ◌▸◌ : {s t : System ℕ ℕ} → Reach is_nine s → Step is_nine s t → Reach is_nine t
r ▸ st = then_step r st

-- A result is added, and `endResults` is called and sleeps.
abbrev waiting : Run
unfolding end_turn push_result send_results new_worker
waiting = record {
  last = _;
  reach = begin ▸ adds 5 refl ▸ sends 0 refl ▸ enters_end refl refl ▸ tests refl;
}

-- The result is emitted, the end is announced and told, and the worker is deleted.
abbrev finished : Run
unfolding waiting results_processed take_batch send_end end execute_complete emit_results
finished = record {
  last = _;
  reach =
      waiting.reach
      ▸ takes refl refl refl
      ▸ emits _ refl
      ▸ signals refl
      ▸ tests refl
      ▸ announces refl
      ▸ returns refl
      ▸ ends refl refl refl
      ▸ completes refl refl refl;
}

-- `execute` throws 7 before any result.
abbrev thrown : Run
unfolding new_worker execute_complete
thrown = record { last = _; reach = begin ▸ fails 7 refl refl ▸ completes refl refl refl }

end_follows_all_example :
    (told finished.last.worker.emitted ≡ data_event 5 ∷ end_event ∷ [])
    × (finished.last.worker.stream.results ≡ [])
unfolding finished
end_follows_all_example = end_follows_all finished.reach refl

finished_log : finished.last.worker.emitted ≡ data_event 5 ∷ end_event ∷ []
unfolding finished
finished_log = refl

thrown_once : failures thrown.last.worker.emitted ≡ 7 ∷ []
unfolding thrown
thrown_once = exception_reported_once 7 thrown.reach (inl refl) refl

no-Step_after_delete_example : ¬ Step is_nine finished.last finished.last
unfolding finished
no-Step_after_delete_example = no-Step_after_delete finished.reach refl

finishes_example : Finish is_nine waiting.last
unfolding waiting
finishes_example = finishes waiting.last waiting.reach refl

-- The loop takes the result and emits it.
abbrev emitting : System ℕ ℕ
unfolding waiting take_batch emit_results
emitting = record (take_batch waiting.last) {
  worker = record ((take_batch waiting.last).worker) { emitted = data_event 5 ∷ [] };
  loop = emitted_all;
}

two_steps : Runs is_nine waiting.last emitting
unfolding emitting
two_steps = go (takes refl refl refl) refl (go (emits (5 ∷ []) refl) refl stop)

terminates_example : (steps two_steps ≤ steps_left waiting.last) × GoesOn is_nine emitting
unfolding waiting
terminates_example = terminates waiting.reach refl two_steps

Reach-Served_example : Served is_nine opened (channel finished.last)
Reach-Served_example = Reach-Served finished.reach
