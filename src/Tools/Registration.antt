-- ===== src/Tools/Registration.antt =====
-- The registration of a TEE machine: packages/fcc-extension/tools/pkg/fccutils/registration.go. What
-- the chain, the proxies and the file system answer is a parameter.
pub mod Node
pub mod Resume
use averlock.Prelude.{
  ℕ, ◌+◌, Bool, true, false, ◌||◌, ◌&&◌, not, Option, none, some, List, [], ◌∷◌, ◌++◌, Bytes,
  length, ltb, ◌==◌, get_elem?, if◌then◌else◌, Result, ok, err, or_err, fail_if, ◌>>=◌, ◌>>◌,
  and_then,
}
use averlock.Ethereum.{Hash}
use averlock.Tools.Consistency.{ConsistencyError, check_consistency}

-- registrationState
pub record RegistrationState : Type 0 where
  pub completed_steps : Bytes
  pub tee_attest_instruction_id : Hash
  pub instruction_id : Hash

pub data RegistrationError : Type 0 where
  unreadable_file : RegistrationError
  unparsable_file : RegistrationError
  no_transactor : RegistrationError
  signature_error : RegistrationError
  transaction_failed : RegistrationError
  receipt_failed : RegistrationError
  unexpected_logs : RegistrationError
  bad_event : RegistrationError
  out_of_sync : ConsistencyError → RegistrationError
  no_result : RegistrationError
  bad_proof : RegistrationError
  machine_query_failed : RegistrationError
  not_set_up : RegistrationError

-- the state file
pub data StateFile : Type 0 where
  no_file : StateFile
  unreadable : StateFile
  unparsable : StateFile
  saved : RegistrationState → StateFile

-- ITeeAvailabilityCheckProof, by the machine that its request names
pub record Proof : Type 0 where
  pub tee_id : Hash
  pub content : Bytes

-- The world: the chain and the proxies in the state `V`, and the state file.
pub record World (V : Type 0) : Type 0 where
  pub chain : V
  pub file : StateFile

-- What the chain and the proxies answer. A transaction is a number, and so is a log of a receipt.
pub record Chain (V : Type 0) : Type 0 where
  pub transactor : Bool
  pub transform_signature : Bytes → Option Bytes
  pub register : V → Option ℕ × V
  pub request_attestation : V → Option ℕ × V
  pub request_availability : Hash → V → Option ℕ × V
  pub to_production_tx : Proof → V → Option ℕ × V
  pub check_tx : ℕ → V → Option (List ℕ) × V
  pub instruction_of : ℕ → Option Hash
  pub attestation_of : ℕ → Option Hash
  pub get_tee_machine : Hash → V → Option Hash
  pub reward_epoch : V → Option (Option ℕ)
  pub proxy_policy : V → Option ℕ
  pub action_result : Hash → V → Option Bytes × V
  pub decode_proof : Bytes → Option Proof
  pub write_file : RegistrationState → World V → StateFile

module _ {V : Type 0} (c : Chain V) where
  -- the transaction's receipt, through support.CheckTx
  abbrev pub logs_of : Option ℕ × V → Result RegistrationError (List ℕ) × V
  logs_of (none, v) = (err transaction_failed, v)
  logs_of (some tx, v) = let (logs, v') = c.check_tx tx v in (or_err receipt_failed logs, v')

  -- the instruction of the first log, where there have to be `n` logs
  abbrev pub instruction : ℕ → List ℕ → Result RegistrationError Hash
  instruction n logs = do
    fail_if (ltb (length logs) n) unexpected_logs
    log ← or_err unexpected_logs (get_elem? logs 0)
    or_err bad_event (c.instruction_of log)

  -- the two events of a registration
  abbrev pub registration_events : List ℕ → Result RegistrationError Hash
  registration_events logs = do
    fail_if (ltb (length logs) 2) unexpected_logs
    second ← or_err unexpected_logs (get_elem? logs 1)
    challenge ← or_err bad_event (c.attestation_of second)
    instruction 2 logs

  -- PreRegistration, by its instruction
  unfoldable pub pre_registration : Bytes → V → Result RegistrationError Hash × V
  pre_registration signature v =
      if not c.transactor
      then (err no_transactor, v)
      else if not (length signature == 65)
      then (err signature_error, v)
      else elim (c.transform_signature signature) [
        | none ↦ (err signature_error, v)
        | some vrs ↦ and_then (logs_of (c.register v)) (λ logs v'. (registration_events logs, v'))
      ]

  -- RequestTeeAttestation
  unfoldable pub request_tee_attestation : V → Result RegistrationError Hash × V
  request_tee_attestation v =
      if not c.transactor
      then (err no_transactor, v)
      else and_then (logs_of (c.request_attestation v)) (λ logs v'. (instruction 2 logs, v'))

  -- RequestFTDCAvailabilityCheck
  unfoldable pub request_availability_check : Hash → V → Result RegistrationError Hash × V
  request_availability_check attestation v =
      if not c.transactor
      then (err no_transactor, v)
      else and_then (logs_of (c.request_availability attestation v))
          (λ logs v'. (instruction 1 logs, v'))

  -- GetFTDCAvailabilityCheckResult
  unfoldable pub get_proof : Hash → V → Result RegistrationError Proof × V
  get_proof id v =
      let (result, v') = c.action_result id v in
      (or_err no_result result >>= λ text. or_err bad_proof (c.decode_proof text), v')

  -- the machine that is then read back
  abbrev pub check_machine : Proof → V → Result RegistrationError (Unit {0})
  check_machine proof v = do
    machine ← or_err machine_query_failed (c.get_tee_machine proof.tee_id v)
    fail_if (not (machine == proof.tee_id)) not_set_up

  -- ToProduction
  unfoldable pub to_production : Proof → V → Result RegistrationError (Unit {0}) × V
  to_production proof v =
      if not c.transactor
      then (err no_transactor, v)
      else and_then (logs_of (c.to_production_tx proof v)) (λ logs v'. (check_machine proof v', v'))

  -- `machineErr == nil && machineInfo.TeeId != (common.Address{})`
  unfoldable pub is_registered : Hash → V → Bool
  is_registered tee_id v = elim (c.get_tee_machine tee_id v) [
    | none ↦ false
    | some id ↦ not (id == 0)
  ]
