-- ===== src/Live/Restored.antt =====
-- What restoreExistingPolicy in packages/fcc-extension/tools/cmd/run-test/main.go has made sure of.
use averlock.Prelude.{
  ◌≡◌, ◌<◌, refl, false, Option, some, Bytes, is_empty, arith, ok, Result-cases, Option-cases, inl,
  inr,
}
use averlock.Ethereum.{Hash, Geth}
use averlock.Policy.{Policy}
use averlock.Validate.{Address}
use averlock.Live.{HexText, must_policy_commitment}
use averlock.Live.Answers.{Signing}
use averlock.Live.Restore.{
  Formats, Surroundings, Restored, guard_call, on_chain_commitment, restore_action, restorable,
  restore_existing_policy, confirm_live_policy_count,
}

module _ (g : Geth) (hex : HexText) (signing : Signing) (formats : Formats) (s : Surroundings)
    (tee : Address) (args : Restored) where
  -- A policy that may be restored: it is the artifact's, has the expected commitment, which the contract
  -- holds for its rule too, and has not expired.
  pub record IsRestorable (p : Policy) : Type 0 where
    pub private_bytes : Bytes
    pub output : Bytes
    pub read : args.artifact ≡ some private_bytes
    pub parsed : formats.policy private_bytes ≡ some p
    pub committed : must_policy_commitment g p ≡ ok (hex.hex_to_hash args.expected_text)
    pub called : s.get_guard (guard_call g p.rule_id) ≡ some output
    pub on_chain : on_chain_commitment output ≡ hex.hex_to_hash args.expected_text
    pub alive : s.now < p.expires_at

  restorable-IsRestorable :
      (bytes : Bytes) (p : Policy)
      → restorable g hex signing formats s tee args ≡ ok (bytes, p)
      → IsRestorable p
  unfolding restorable
  restorable-IsRestorable private_bytes p h = elim (Option-cases args.artifact) [
    | inl missing ↦ absurd (ground (arith, h, missing))
    | inr (bytes, read) ↦ elim (Option-cases (formats.policy bytes)) [
      | inl malformed ↦ absurd (ground (arith, h, read, malformed))
      | inr (q, parsed) ↦ elim (Option-cases (s.get_guard (guard_call g q.rule_id))) [
        | inl failed ↦ absurd (ground (arith, h, read, parsed, failed))
        | inr (output, called) ↦
            let same : q ≡ p = ground (arith, h, read, parsed, called) in
            let committed : must_policy_commitment g q ≡ ok (hex.hex_to_hash args.expected_text) =
              ground (arith, h, read, parsed, called) in
            let on_chain : on_chain_commitment output ≡ hex.hex_to_hash args.expected_text =
              ground (arith, h, read, parsed, called) in
            let alive : s.now < q.expires_at = ground (arith, h, read, parsed, called) in
            rw (← same) (record {
              private_bytes = bytes;
              output = output;
              read = read;
              parsed = parsed;
              committed = committed;
              called = called;
              on_chain = on_chain;
              alive = alive;
            })
      ]
    ]
  ]

  restored_lem :
      (rule : Hash)
      → restore_existing_policy g hex signing formats s tee args ≡ ok rule
      → (bytes : Bytes) × (p : Policy) × (restorable g hex signing formats s tee args
          ≡ ok (bytes, p))
        × (rule ≡ p.rule_id)
        × (s.live_policy_count ≡ some 1)
  unfolding restore_existing_policy confirm_live_policy_count
  restored_lem rule h = elim (Result-cases (restorable g hex signing formats s tee args)) [
    | inr (e, failed) ↦ absurd (ground (arith, h, failed))
    | inl ((bytes, p), passed) ↦
        (bytes, p, passed, ground (arith, h, passed), ground (arith, h, passed))
  ]

  -- When the restoring of a policy succeeds, the policy in the artifact has the expected commitment, the
  -- contract holds that commitment for the policy's rule, the policy has not expired, and the server
  -- tells of exactly one policy; the rule that is reported is the policy's.
  pub restore_existing_policy-IsRestorable :
      (rule : Hash)
      → restore_existing_policy g hex signing formats s tee args ≡ ok rule
      → (p : Policy) × IsRestorable p × (rule ≡ p.rule_id) × (s.live_policy_count ≡ some 1)
  restore_existing_policy-IsRestorable rule h =
      let (bytes, p, passed, own, counted) = restored_lem rule h in
      (p, restorable-IsRestorable bytes p passed, own, counted)

  -- A restoring that resumes an action sends nothing: whatever ECIES and the instruction sender would
  -- answer, the outcome is the same.
  pub resumed_sends_nothing :
      (encrypt : Bytes → Option Bytes) (send : Bytes → Option (Hash × Hash))
      → is_empty args.existing_action_text ≡ false
      → restore_existing_policy g hex signing formats s tee args
        ≡ restore_existing_policy g hex signing formats
            (record s { encrypt = encrypt; send_create_policy = send })
            tee
            args
  unfolding restore_existing_policy restorable confirm_live_policy_count restore_action
  resumed_sends_nothing encrypt send resumed = rw (resumed) refl
