-- ===== src/Live/Tests/Resumes.antt =====
-- A run of the live test that resumes an action, at concrete values.
use averlock.Prelude.{ℕ, ◌≡◌, ◌>>=◌, ap, refl, true, false, none, some, List, [], ◌∷◌, ok, codes}
use averlock.Ethereum.Static.{words}
use averlock.Validate.{has_prefix}
use averlock.Live.Answers.{Manager}
use averlock.Live.Evaluation.{Instructions, Clock}
use averlock.Live.Machines.{
  Chain, Target, validate_live_tee, positive_hex, is_answer, trim_right_slash,
}
use averlock.Live.Scenario.{World, Turn}
use averlock.Live.Main.{Flags, Site, run_test, run_mode, restore_mode, restores}
use averlock.Live.Resumed.{sends_otherwise, run_test-resumed}
use averlock.Live.Tests.Restores.{hex, signing, formats, surroundings, restored, resumed}

abbrev target : Target
target = record {
  sender = codes "0x03";
  extension = codes "0x4";
  tee = [];
  proxy_url = codes "http://proxy/";
}

-- a state is the list of the banned machines
abbrev chain : Chain (List ℕ)
chain = record {
  get_active_tee_machines = λ banned n. some (6 ∷ []);
  get_tee_machine_owner = λ banned tee. some 3;
  get_extension_id = λ banned tee. some 4;
  get_tee_machine_status = λ banned tee. some 2;
  get_tee_machine = λ banned tee. some (6, codes "http://proxy");
  transactor = true;
  ban = λ tee banned. (true, tee ∷ banned);
  check_tx = λ banned. some 1;
}

abbrev clock : Clock
clock = record { started = 990; finished = 1_010; unix_nano = 5 }

abbrev silent : Instructions
silent = record { send_evaluate_guard = λ rule event nonce. none; action_result = λ id. none }

abbrev sending : Instructions
sending = record {
  send_evaluate_guard = λ rule event nonce. some (1, 2);
  action_result = λ id. none;
}

abbrev world : Instructions → World
world instructions =
    let turn : Turn = record { instructions = instructions; clock = clock } in
    record {
      set_extension_id = none;
      create_id = none;
      create_answer = none;
      malformed_id = none;
      malformed_answer = none;
      trigger_turn = turn;
      replay_turn = turn;
      cooldown_turn = turn;
      non_trigger_turn = turn;
    }

abbrev manager : Manager
manager = record { code = none; call = λ bytes. none }

abbrev site : Site (List ℕ)
site = record {
  geth = words;
  hex = hex;
  signing = signing;
  formats = formats;
  chain = chain;
  info = some (record { chain = 114; derived_tee = some 6 });
  tx_chain = some 114;
  owner = 3;
  ready = λ tee extension_id. false;
  manager = manager;
  instructions = silent;
  clock = clock;
  writes = true;
  surroundings = surroundings;
  world = world silent;
  fresh = record { rule_id = 1; trigger_event = 2; cooldown_event = 3; non_trigger_event = 4 };
  base_timestamp = 1_000;
}

abbrev flags : Flags
flags = record {
  target = target;
  create_policy_only = false;
  evaluate_guard_snapshot = false;
  snapshot = record { manager_text = []; rule_text = []; event_text = []; artifact_path = [] };
  restore_policy_artifact = codes "policy.json";
  retire_stale_tees = true;
  restored = restored;
}

ran : run_test site flags [] ≡ (ok tt, [])
unfolding run_test run_mode restore_mode restores validate_live_tee positive_hex is_answer
    trim_right_slash has_prefix
ran = ap (λ r. (r >>= (λ _. ok tt), [])) resumed

run_test-resumed_example :
    let otherwise =
      sends_otherwise site flags
        (world sending)
        sending
        (λ bytes. some bytes)
        (λ bytes. some (1, 2)) in
    ((run_test site flags []).1 ≡ []) × (run_test site flags [] ≡ run_test otherwise flags [])
run_test-resumed_example =
    run_test-resumed site flags (world sending) sending (λ bytes. some bytes) (λ bytes. some (1, 2))
      [] refl refl refl
