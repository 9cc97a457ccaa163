-- ===== src/Guard/Tests/Ledgers.antt =====
-- A server that is run beside the ledger: a policy is created twice, and an event is evaluated twice.
use averlock.Prelude.{◌≡◌, some, [], ◌∷◌, List, codes, length, ◌==◌, if◌then◌else◌}
use averlock.Ethereum.Words.{of_bytes}
use averlock.Store.Memory.{MemoryStore}
use averlock.Guard.State.{Calls, Action}
use averlock.Guard.Dispatch.{Server, new_with_dependencies}
use averlock.Guard.Ledger.{empty_ledger, answers, ledger_answers}
use averlock.Guard.Ledger.Refines.{on_memory, answers-ledger_answers}
use averlock.Guard.Tests.Coding.{flat_gob-IsGob}
use averlock.Guard.Tests.World.{server, json, calls, create, request}

-- a message of one byte creates, a longer one evaluates
abbrev base : Server MemoryStore
base = record server {
  json = record json { evaluate_guard = λ bs. some (request (length bs), []) };
  tee = record {
    parse_fixed = λ message. some (record {
      op_type = of_bytes (codes "AVERLOCK_GUARD");
      op_command =
          if length message == 1
          then of_bytes (codes "CREATE_POLICY")
          else of_bytes (codes "EVALUATE_GUARD");
      timestamp = 50;
      original_message = message;
    });
    to_hash = of_bytes;
  };
}

abbrev evaluate : Calls × Action
evaluate = (calls, record { id = 2; submission_tag = []; message = 5 ∷ 5 ∷ [] })

abbrev actions : List (Calls × Action)
actions = create ∷ create ∷ evaluate ∷ evaluate ∷ []

answers-ledger_answers_example :
    answers (on_memory base) actions (new_with_dependencies [])
    ≡ ledger_answers (on_memory base) actions empty_ledger
answers-ledger_answers_example = answers-ledger_answers base flat_gob-IsGob actions
