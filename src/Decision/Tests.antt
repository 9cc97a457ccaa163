-- ===== src/Decision/Tests.antt =====
-- Decisions encoded and decoded at concrete values, with one word for each field.
use averlock.Prelude.{ℕ, ◌≡◌, ◌⊎◌, refl, true, some, pos, Bytes, length, ok, arith}
use averlock.Ethereum.{Hash}
use averlock.Ethereum.Words.{of_bytes, to_bytes}
use averlock.Ethereum.Static.{words, words-IsGeth, word, pack_words, unpack_words, read, fold_hash}
use averlock.Decision.{
  FccDecision, decision_domain, encode, decode, result_hash, fields, from_fields, hash_fields,
  validate, bad_uint256, bad_chain, magnitude,
}
use averlock.Decision.Codec.{IsWellFormed, decode-encode, encode-decode}
use averlock.Decision.Binding.{Collision, result_hash-binds}

abbrev decision : FccDecision
decision = record {
  domain = decision_domain words;
  rule_id = 7;
  event_hash = 9;
  triggered = true;
  protected_usd18 = some (pos 10);
  protect_bps = 5_000;
  schedule_id = 1;
  event_value_usd18 = some (pos 21);
  evaluated_at = 100;
  nonce = some (pos 1);
  result_expiry = 700;
}

decision-IsWellFormed : IsWellFormed words decision
decision-IsWellFormed = record {
  in_domain = refl;
  rule_fits = omega arith;
  event_fits = omega arith;
  protected = (10, refl, omega arith);
  bps_fits = omega arith;
  schedule_fits = omega arith;
  event_value = (21, refl, omega arith);
  at_fits = omega arith;
  nonce_fits = (1, refl, omega arith);
  expiry_fits = omega arith;
}

decode-encode_example :
    (bytes : Bytes) × (encode words decision ≡ ok bytes)
    × (length bytes ≡ 352)
    × (decode words bytes ≡ ok decision)
decode-encode_example = decode-encode words words-IsGeth decision decision-IsWellFormed

abbrev encoded : Bytes
encoded = pack_words (fields decision)

decoded : decode words encoded ≡ ok decision
unfolding decode from_fields validate encode fields pack_words unpack_words word read fold_hash
    decision_domain of_bytes magnitude bad_uint256 to_bytes
decoded = refl

encode-decode_example :
    (encode words decision ≡ ok encoded)
    × (length encoded ≡ 352)
    × (decision.domain ≡ decision_domain words)
encode-decode_example = encode-decode words encoded decision decoded

abbrev hash : Hash
hash = fold_hash (pack_words (hash_fields words (some (pos 114)) decision))

hashed : result_hash words (some (pos 114)) decision ≡ ok hash
unfolding result_hash hash_fields validate bad_chain bad_uint256 decision_domain fold_hash
hashed = refl

result_hash-binds_example :
    Collision words
      (hash_fields words (some (pos 114)) decision)
      (hash_fields words (some (pos 114)) decision)
    ⊎ ((◌≡◌ {A = ℕ} 114 114) × (decision ≡ decision))
result_hash-binds_example =
    result_hash-binds words words-IsGeth 114 114 decision decision hash (omega arith, omega arith)
      (omega arith, omega arith) decision-IsWellFormed decision-IsWellFormed hashed hashed
