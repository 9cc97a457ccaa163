-- ===== src/Tools/Registration/Node.antt =====
-- RegisterNode of packages/fcc-extension/tools/pkg/fccutils/registration.go: its steps, the state in
-- memory and the state file.
use averlock.Prelude.{
  ℕ, Bool, false, ◌||◌, not, [], ◌∷◌, ◌++◌, Bytes, ◌==◌, if◌then◌else◌, Result, ok, err, and_then,
}
use averlock.Ethereum.{Hash}
use averlock.Tools.Consistency.{check_consistency}
use averlock.Tools.Registration.{
  RegistrationState, RegistrationError, unreadable_file, unparsable_file, out_of_sync, StateFile,
  no_file, unreadable, unparsable, saved, World, Chain, pre_registration, request_tee_attestation,
  request_availability_check, get_proof, to_production, is_registered,
}

-- `strings.Contains(s, "x")` for one letter
unfoldable pub has_step : ℕ → Bytes → Bool
has_step x [] = false
has_step x (y ∷ s) = x == y || has_step x s

-- the arguments of RegisterNode
pub record Request : Type 0 where
  pub tee_id : Hash
  pub data_signature : Bytes
  pub command : Bytes
  pub instruction_id : Hash

module _ {V : Type 0} (c : Chain V) where
  -- an action on the chain, in the world
  abbrev pub on_chain :
      {A : Type 0}
      → (V → Result RegistrationError A × V)
      → World V
      → Result RegistrationError A × World V
  on_chain f w = let (r, v) = f w.chain in (r, record w { chain = v })

  -- saveState; a failed write is only logged
  abbrev pub save_state : RegistrationState → World V → World V
  save_state st w = record w { file = c.write_file st w }

  -- The state of a run: the registrationState in memory, and the world.
  abbrev pub Run : Type 0
  Run = RegistrationState × World V

  -- run an action, and then note its step with its instruction
  abbrev pub noting :
      (Hash → RegistrationState → RegistrationState)
      → RegistrationState
      → Result RegistrationError Hash × World V
      → Result RegistrationError Hash × Run
  noting mark st (err e, w) = (err e, (st, w))
  noting mark st (ok id, w) = let st' = mark id st in (ok id, (st', save_state st' w))

  abbrev pub mark_attestation : ℕ → Hash → RegistrationState → RegistrationState
  mark_attestation x id st = record st {
    completed_steps = st.completed_steps ++ x ∷ [];
    tee_attest_instruction_id = id;
  }

  abbrev pub mark_availability : Hash → RegistrationState → RegistrationState
  mark_availability id st = record st {
    completed_steps = st.completed_steps ++ b'a' ∷ [];
    instruction_id = id;
  }

  -- the step `r`
  unfoldable pub register_step : Request → Run → Result RegistrationError Hash × Run
  unfolding is_registered
  register_step q (st, w) =
      if not (has_step b'r' q.command)
      then (ok 0, (st, w))
      else if has_step b'r' st.completed_steps
      then (ok st.tee_attest_instruction_id, (st, w))
      else noting (mark_attestation b'r') st (
          if is_registered c q.tee_id w.chain
          then on_chain (request_tee_attestation c) w
          else on_chain (pre_registration c q.data_signature) w)

  -- the step `R`
  unfoldable pub request_step : Request → Hash → Run → Result RegistrationError Hash × Run
  request_step q attestation (st, w) =
      if not (has_step b'R' q.command)
      then (ok attestation, (st, w))
      else if has_step b'R' st.completed_steps
      then (ok st.tee_attest_instruction_id, (st, w))
      else noting (mark_attestation b'R') st (on_chain (request_tee_attestation c) w)

  -- CheckFTDCProxyPolicyConsistency and then the request
  abbrev pub checked_request : Hash → World V → Result RegistrationError Hash × World V
  checked_request attestation w =
      elim (check_consistency (c.reward_epoch w.chain) (c.proxy_policy w.chain)) [
        | err e ↦ (err (out_of_sync e), w)
        | ok _ ↦ on_chain (request_availability_check c attestation) w
      ]

  -- the step `a`
  unfoldable pub availability_step : Request → Hash → Run → Result RegistrationError Hash × Run
  availability_step q attestation (st, w) =
      if not (has_step b'a' q.command)
      then (ok q.instruction_id, (st, w))
      else if has_step b'a' st.completed_steps
      then (ok st.instruction_id, (st, w))
      else noting mark_availability st (checked_request attestation w)

  -- the step `p`
  unfoldable pub production_step :
      Request → Hash → World V → Result RegistrationError (Unit {0}) × World V
  production_step q id w =
      if has_step b'p' q.command
      then and_then (on_chain (get_proof c id) w) (λ proof w'. on_chain (to_production c proof) w')
      else (ok tt, w)

  -- loadState
  unfoldable pub load_state : StateFile → Result RegistrationError RegistrationState
  load_state no_file =
      ok (record { completed_steps = []; tee_attest_instruction_id = 0; instruction_id = 0 })
  load_state unreadable = err unreadable_file
  load_state unparsable = err unparsable_file
  load_state (saved st) = ok st

  -- the steps before production
  unfoldable pub prepare : Request → Run → Result RegistrationError Hash × Run
  prepare q run = and_then (register_step q run) (λ attestation run1.
      and_then (request_step q attestation run1)
        (λ attestation' run2. availability_step q attestation' run2))

  -- production, and removing the file after it
  unfoldable pub finish :
      Request → Result RegistrationError Hash × Run → Result RegistrationError (Unit {0}) × World V
  finish q (err e, (st, w)) = (err e, w)
  finish q (ok id, (st, w)) =
      and_then (production_step q id w) (λ _ w'. (ok tt, record w' { file = no_file }))

  -- RegisterNode, for TEE information that names the machine
  unfoldable pub register_node : Request → World V → Result RegistrationError (Unit {0}) × World V
  unfolding load_state
  register_node q w = elim (load_state w.file) [
    | err e ↦ (err e, w)
    | ok st ↦ finish q (prepare q (st, w))
  ]
