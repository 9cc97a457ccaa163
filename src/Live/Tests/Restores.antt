-- ===== src/Live/Tests/Restores.antt =====
-- A restoring that resumes an action, at concrete values.
use averlock.Prelude.{◌≡◌, ◌++◌, refl, true, none, some, [], ok, codes}
use averlock.Ethereum.{Hash}
use averlock.Ethereum.Words.{to_bytes}
use averlock.Ethereum.Static.{words, fold_hash, pack_words, word}
use averlock.Uint256.{set_string, scan_nat, scan, to_string, digits}
use averlock.Policy.{Policy, commitment_fields, policy_domain}
use averlock.Validate.{has_prefix}
use averlock.Live.{
  HexText, uint_value, uint256_of, contains_text, assert_private_fields_absent,
  commitment_arguments, must_policy_commitment,
}
use averlock.Live.Answers.{Signing, must_result}
use averlock.Live.Restore.{
  Formats, Surroundings, Restored, guard_call, on_chain_commitment, restore_action, restorable,
  restore_existing_policy, check_acknowledgment, confirm_live_policy_count,
}
use averlock.Live.Restored.{IsRestorable, restore_existing_policy-IsRestorable}
use averlock.Live.Tests.{wire, normal}

abbrev commitment : Hash
commitment = fold_hash (pack_words (commitment_fields words normal))

-- every text is the commitment of the policy
abbrev pub hex : HexText
hex = record {
  is_hex_address = λ text. true;
  hex_to_address = λ text. 3;
  hex_to_hash = λ text. commitment;
}

abbrev pub signing : Signing
signing = record {
  hash = λ response. response.id;
  payload_hash = some;
  verify_signature = λ payload signature tee. true;
}

abbrev pub formats : Formats
formats = record {
  policy = λ bytes. some wire;
  created = λ bytes. some (record { rule_id = 7; accepted = true; policy_commitment = commitment });
}

abbrev pub surroundings : Surroundings
surroundings = record {
  get_guard = λ call. some (to_bytes 32 0 ++ to_bytes 32 0 ++ to_bytes 32 commitment);
  now = 1_000;
  encrypt = λ bytes. none;
  send_create_policy = λ bytes. none;
  action_result = λ action_id.
      some (record { id = action_id; status = 1; log = []; result_data = []; signature = [] });
  live_policy_count = some 1;
}

abbrev pub restored : Restored
restored = record {
  artifact = some (codes "{}");
  expected_text = codes "0x0000000000000000000000000000000000000000000000000000000000000007";
  manager_text = codes "0x03";
  existing_action_text = codes "0x0000000000000000000000000000000000000000000000000000000000000005";
}

pub resumed : restore_existing_policy words hex signing formats surroundings 6 restored ≡ ok 7
unfolding restore_existing_policy restorable restore_action must_policy_commitment uint_value
    commitment_arguments commitment_fields on_chain_commitment guard_call must_result
    check_acknowledgment assert_private_fields_absent confirm_live_policy_count set_string scan_nat
    scan has_prefix fold_hash to_string digits policy_domain uint256_of contains_text pack_words
    to_bytes word
resumed = refl

restore_existing_policy-IsRestorable_example :
    (p : Policy) × IsRestorable words hex signing formats surroundings 6 restored p
    × (7 ≡ p.rule_id)
    × (surroundings.live_policy_count ≡ some 1)
restore_existing_policy-IsRestorable_example =
    restore_existing_policy-IsRestorable words hex signing formats surroundings 6 restored 7 resumed
