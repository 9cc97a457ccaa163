-- ===== src/Validate/Register/Verdict.antt =====
-- When RegisterRegistrationChecks in packages/fcc-extension/tools/pkg/validate/checks.go reports a
-- failure.
use averlock.Prelude.{
  ℕ, ◌≡◌, ◌↔◌, refl, Bool, true, false, ◌&&◌, Option, none, some, [], ◌∷◌, ◌++◌, Bytes, is_empty,
  arith, Result, ok, err, Bool-cases, inl, inr,
}
use averlock.Tools.Report.{has_failures}
use averlock.Validate.{
  Address, AddressText, Site, Client, ExtensionManager, OwnerAllowlist, address_regex,
  extension_id_regex,
}
use averlock.Validate.EnvFile.{parse_extension_env}
use averlock.Validate.Register.{
  Given, connected, r1, r2, r3, r4, r7, results_r1, results_r2, results_r3, results_r4, results_r7,
  malformed, extension_id_of, on_chain_results, entry_results, registration_results,
}
use averlock.Validate.Order.{has_failures-append}

abbrev pub IsAnswered : {A : Type 0} → Result Bytes A → Type 0
IsAnswered {A} r = (a : A) × (r ≡ ok a)

module _ (addr : AddressText) where
  r1-passes :
      (counter : Result Bytes ℕ) → (has_failures (r1 counter ∷ []) ≡ false) ↔ IsAnswered counter
  unfolding r1 has_failures
  r1-passes (ok n) = (λ h. (n, refl), λ h. ground arith)
  r1-passes (err e) = (λ h. absurd (ground (arith, h)), λ h. absurd (cc (h.1)))

  r2-passes :
      (sender : Bytes) (on_chain : Result Bytes Address)
      → (has_failures (r2 addr sender on_chain ∷ []) ≡ false)
        ↔ (on_chain ≡ ok (addr.hex_to_address sender))
  unfolding r2 has_failures
  r2-passes sender (ok a) = (λ h. ground (arith, h), λ h. ground (arith, h))
  r2-passes sender (err e) = (λ h. absurd (ground (arith, h)), λ h. absurd (cc h))

  r3-passes :
      (allowed : Result Bytes Bool) → (has_failures (r3 allowed ∷ []) ≡ false) ↔ (allowed ≡ ok true)
  unfolding r3 has_failures
  r3-passes (ok true) = ground arith
  r3-passes (ok false) = ground arith
  r3-passes (err e) = ground arith

  r4-passes :
      (supported : Result Bytes Bool)
      → (has_failures (r4 supported ∷ []) ≡ false) ↔ (supported ≡ ok true)
  unfolding r4 has_failures
  r4-passes (ok true) = ground arith
  r4-passes (ok false) = ground arith
  r4-passes (err e) = ground arith

  r7-passes :
      (sender : Bytes) (registry : Option ExtensionManager)
      → has_failures (results_r7 addr sender registry) ≡ false
  unfolding results_r7 r7 has_failures
  r7-passes sender none = refl
  r7-passes sender (some registry) = ground arith

  -- What the contracts say of an extension whose id has been read, for the sender that extension.env
  -- names and the deployer.
  pub record IsRegistered (registry : ExtensionManager) (allowlist : OwnerAllowlist)
      (evm_type : Bytes) (deployer : Address) (id : ℕ) (sender : Bytes) : Type 0 where
    pub sender_matches :
        address_regex sender ≡ true
        → registry.get_tee_extension_instructions_sender id ≡ ok (addr.hex_to_address sender)
    pub owner_allowed : allowlist.is_allowed_tee_machine_owner id deployer ≡ ok true
    pub key_type_supported : registry.is_key_type_supported id evm_type ≡ ok true

  results_r2-passes :
      (sender : Bytes) (id : ℕ) (registry : ExtensionManager)
      → (has_failures (results_r2 addr sender id (some registry)) ≡ false) ↔ (
          address_regex sender ≡ true
          → registry.get_tee_extension_instructions_sender id ≡ ok (addr.hex_to_address sender))
  unfolding results_r2
  results_r2-passes sender id registry =
      let own = r2-passes sender (registry.get_tee_extension_instructions_sender id) in
      elim (Bool-cases (address_regex sender)) [
        | inl good ↦ rw good (λ h g. own.0 h, λ h. own.1 (h refl))
        | inr bad ↦ rw bad (λ h g. absurd (cc g), λ h. unfold has_failures in refl)
      ]

  module _ (client : Client) (registry : ExtensionManager) (allowlist : OwnerAllowlist)
      (deployer : Address) (evm_type : Bytes) where
    abbrev pub given : Given
    given = record {
      client = some client;
      key = some deployer;
      registry = some registry;
      allowlist = some allowlist;
      evm_type = evm_type;
    }

    on_chain_passes :
        (id : ℕ) (sender : Bytes)
        → (has_failures (on_chain_results addr given id sender) ≡ false)
          ↔ IsRegistered registry allowlist evm_type deployer id sender
    unfolding on_chain_results results_r3 results_r4 connected
    on_chain_passes id sender =
        let two = results_r2 addr sender id (some registry) in
        let three = r3 (allowlist.is_allowed_tee_machine_owner id deployer) ∷ [] in
        let four = r4 (registry.is_key_type_supported id evm_type) ∷ [] in
        let seven = results_r7 addr sender (some registry) in
        let split = has_failures-append two (three ++ (four ++ seven)) in
        let split' = has_failures-append three (four ++ seven) in
        let split'' = has_failures-append four seven in
        let last = r7-passes sender (some registry) in
        let p = results_r2-passes sender id registry in
        let q = r3-passes (allowlist.is_allowed_tee_machine_owner id deployer) in
        let r = r4-passes (registry.is_key_type_supported id evm_type) in
        (
          λ h. record {
            sender_matches = p.0 (ground (arith, h, split));
            owner_allowed = q.0 (ground (arith, h, split, split'));
            key_type_supported = r.0 (ground (arith, h, split, split', split''));
          },
          λ h.
              let a = p.1 h.sender_matches in
              let b = q.1 h.owner_allowed in
              let c = r.1 h.key_type_supported in
              ground (arith, split, split', split'', last, a, b, c),
        )

    -- With a client, both bindings and a key, and a path to a file with at least one of the two values,
    -- RegisterRegistrationChecks adds no failure exactly when EXTENSION_ID is well-formed, the chain
    -- answers with its next extension id, it has the instruction sender of extension.env for the
    -- extension, if that is an address, the deployer among the owners, and supports the EVM key type.
    pub registration_results_iff :
        (site : Site) (path : Bytes)
        → let e = parse_extension_env site path in
          is_empty path ≡ false
          → (is_empty e.extension_id && is_empty e.instruction_sender) ≡ false
          → (has_failures (registration_results addr site given path) ≡ false) ↔ (
              (extension_id_regex e.extension_id ≡ true)
              × IsAnswered registry.next_public_extension_id
              × IsRegistered registry allowlist evm_type deployer
                  (extension_id_of e.extension_id)
                  e.instruction_sender)
    unfolding registration_results entry_results results_r1 connected
    registration_results_iff site path given_path some_value =
        let e = parse_extension_env site path in
        let counted = r1-passes registry.next_public_extension_id in
        let chain = on_chain_passes (extension_id_of e.extension_id) e.instruction_sender in
        rw (given_path, some_value)
          (elim (Bool-cases (extension_id_regex e.extension_id)) [
            | inl good ↦
                let split = has_failures-append (r1 registry.next_public_extension_id ∷ []) (
                  on_chain_results addr given (extension_id_of e.extension_id)
                    e.instruction_sender) in
                rw good (
                  λ h. (
                    refl,
                    counted.0 (ground (arith, split, h)),
                    chain.0 (ground (arith, split, h)),
                  ),
                  λ h. let a = counted.1 h.1 in let b = chain.1 h.2 in ground (arith, split, a, b),
                )
            | inr bad ↦
                let split =
                  has_failures-append (r1 registry.next_public_extension_id ∷ [])
                    (malformed e.extension_id ∷ []) in
                rw bad (
                  λ h. absurd (unfold malformed has_failures in ground (arith, split, h)),
                  λ h. absurd (cc (h.0)),
                )
          ])
