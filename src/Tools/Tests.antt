-- ===== src/Tools/Tests.antt =====
-- The tools at concrete values: a registration whose production fails, the governance and a poll.
use averlock.Prelude.{
  ℕ, zero, suc, ◌+◌, ◌≡◌, refl, true, some, none, List, [], ◌∷◌, ◌++◌, Bytes, codes, ok, err, arith,
  if◌then◌else◌,
}
use averlock.Tools.Consistency.{check_consistency}
use averlock.Tools.Registration.{
  RegistrationState, transaction_failed, no_file, saved, World, Chain, pre_registration,
  request_availability_check, get_proof, to_production,
}
use averlock.Tools.Registration.Node.{
  Request, has_step, load_state, prepare, finish, register_node, register_step, request_step,
  availability_step, production_step,
}
use averlock.Tools.Governance.{Registry, set_tee_governance, set_tee_governance_idempotent}
use averlock.Tools.Polling.{
  Answer, request_error, response, poll, start, failed_request, not_found, server_error, nothing,
  further, ArePending, result_found, last_request_failed, last_status_was, has_failed_request,
  statuses, last_or, poll-pending,
}
use averlock.Tools.Registration.Resume.{register_node-resumes}

-- every request is answered with two logs, and the last transaction fails
abbrev chain : Chain (Unit {0})
chain = record {
  transactor = true;
  transform_signature = λ signature. some signature;
  register = λ v. (some 1, v);
  request_attestation = λ v. (some 2, v);
  request_availability = λ attestation v. (some 3, v);
  to_production_tx = λ proof v. (none, v);
  check_tx = λ tx v. (some (tx ∷ 9 ∷ []), v);
  instruction_of = λ log. some (log + 100);
  attestation_of = λ log. some log;
  get_tee_machine = λ id v. none;
  reward_epoch = λ v. some (some 7);
  proxy_policy = λ v. some 8;
  action_result = λ id v. (some [], v);
  decode_proof = λ text. some (record { tee_id = 5; content = [] });
  write_file = λ st w. saved st;
}

abbrev signature : ℕ → Bytes
signature zero = []
signature (suc n) = 1 ∷ signature n

abbrev q : Request
q = record { tee_id = 5; data_signature = signature 65; command = codes "rap"; instruction_id = 0 }

abbrev world : World (Unit {0})
world = record { chain = tt; file = no_file }

abbrev fresh : RegistrationState
fresh = record { completed_steps = []; tee_attest_instruction_id = 0; instruction_id = 0 }

abbrev prepared : RegistrationState
prepared = record {
  completed_steps = codes "ra";
  tee_attest_instruction_id = 101;
  instruction_id = 103;
}

abbrev left : World (Unit {0})
left = record { chain = tt; file = saved prepared }

loaded : load_state chain no_file ≡ ok fresh
unfolding load_state
loaded = refl

ready : prepare chain q (fresh, world) ≡ (ok 103, (prepared, left))
unfolding prepare register_step request_step availability_step has_step pre_registration
    request_availability_check check_consistency
ready = refl

stopped : register_node chain q world ≡ (err transaction_failed, left)
unfolding register_node prepare register_step request_step availability_step has_step
    pre_registration request_availability_check check_consistency finish production_step get_proof
    to_production
stopped = refl

register_node-resumes_example :
    register_node chain q left ≡ finish chain q (ok 103, (prepared, left))
register_node-resumes_example =
    register_node-resumes chain (λ st w. refl) q world left fresh 103 (prepared, left)
      transaction_failed loaded ready stopped

-- a chain that keeps the latest governance hash, here the threshold
abbrev registry : Registry ℕ
registry = record {
  transactor = true;
  governance_hash = λ signers threshold. some threshold;
  latest_hash = λ v. some v;
  set_new = λ signers threshold v. (true, threshold);
  check_tx = λ v. true;
}

first_set : (set_tee_governance registry (1 ∷ 2 ∷ []) 2 0).0 ≡ ok tt
unfolding set_tee_governance
first_set = refl

set_tee_governance_idempotent_example :
    let v' = (set_tee_governance registry (1 ∷ 2 ∷ []) 2 0).1 in
    set_tee_governance registry (1 ∷ 2 ∷ []) 2 v' ≡ (ok tt, v')
set_tee_governance_idempotent_example =
    set_tee_governance_idempotent registry (λ signers threshold v done. refl) (1 ∷ 2 ∷ []) 2 0
      first_set

abbrev waiting : List Answer
waiting = response 404 none ∷ request_error ∷ response 502 none ∷ []

are_pending : ArePending waiting
are_pending = further (response 404 none) _ (not_found none) (
    further request_error _ failed_request
      (further (response 502 none) [] (server_error 502 none (omega arith) (omega arith)) nothing))

poll-pending_example :
    (poll start (waiting ++ response 200 (some []) ∷ request_error ∷ []) ≡ ok [])
    × (poll start waiting
        ≡ err (
            if has_failed_request waiting
            then last_request_failed
            else last_status_was (last_or 0 (statuses waiting))))
poll-pending_example =
    poll-pending waiting (response 200 (some [])) (request_error ∷ []) (ok []) are_pending
      (result_found [])
