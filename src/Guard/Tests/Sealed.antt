-- ===== src/Guard/Tests/Sealed.antt =====
-- A concrete platform for the Redis store, which is not code of the program: sealing that keeps the
-- additional data in the open, and a network that answers every command with one stored value.
use averlock.Text.{trim_left}
use averlock.Prelude.{
  ◌≡◌, ◌≢◌, refl, sym, true, false, Option, none, some, [], ◌∷◌, ◌++◌, Bytes, codes, length, take,
  drop, take-append, drop-append, bytes_eq, bytes_eq→eq, bytes_eq_refl, if◌then◌else◌, arith,
  Result, ok, err, Bool-cases, inl, inr,
}
use averlock.Ethereum.Words.{to_bytes}
use averlock.Uint256.{to_string}
use averlock.Ethereum.Static.{word, words, fold_hash, pack_words}
use averlock.Policy.{PolicyState, policy_commitment, commitment_fields, policy_domain}
use averlock.Store.{deref, StoreError, authentication_failed}
use averlock.Store.Resp.{bulk, parse_reply}
use averlock.Store.Redis.{
  Envelope, Platform, RedisStore, seal_state, open_envelope, load, do_command, aad, hex,
}
use averlock.Store.Redis.Sealing.{
  IsPlatform, IsSealable, open_envelope-seal_state, moved_envelope_refused,
}
use averlock.Store.Redis.Loads.{load_bound}
use averlock.Guard.Tests.Coding.{flat_gob, flat_gob-IsGob}

abbrev open_seal : Bytes → Bytes → Option Bytes
open_seal [] b = none
open_seal (k ∷ t) b = if bytes_eq (take k t) b then some (drop k t) else none

abbrev join : Envelope → Bytes
join e = length e.version ∷ length e.nonce ∷ (e.version ++ (e.nonce ++ e.ciphertext))

abbrev split : Bytes → Option Envelope
split (v ∷ n ∷ t) =
    some (record { version = take v t; nonce = take n (drop v t); ciphertext = drop n (drop v t) })
split _ = none

abbrev platform : Bytes → Platform (Unit {0})
platform stored = record {
  nonce_size = 2;
  seal = λ n p a. length a ∷ (a ++ p);
  unseal = λ n c b. open_seal c b;
  base64_encode = λ b. b;
  base64_decode = λ b. some b;
  marshal = λ e. some (join e);
  unmarshal = split;
  read_nonce = λ w. (some (1 ∷ 2 ∷ []), w);
  dial = λ tls address w. (true, w);
  exchange = λ sent w. (some (bulk stored), w);
}

opened : (p a : Bytes) → open_seal (length a ∷ (a ++ p)) a ≡ some p
opened p a =
    rw (take-append a p (length a) refl, drop-append a p (length a) refl, bytes_eq_refl a) refl

refused : (p a b : Bytes) → b ≢ a → open_seal (length a ∷ (a ++ p)) b ≡ none
refused p a b ne = rw (take-append a p (length a) refl) (elim (Bool-cases (bytes_eq a b)) [
  | inl same ↦ absurd (ne (sym (bytes_eq→eq a b same)))
  | inr other ↦ rw other refl
])

split-join : (e : Envelope) → split (join e) ≡ some e
split-join e =
    rw
      (
        take-append e.version (e.nonce ++ e.ciphertext) (length e.version) refl,
        drop-append e.version (e.nonce ++ e.ciphertext) (length e.version) refl,
        take-append e.nonce e.ciphertext (length e.nonce) refl,
        drop-append e.nonce e.ciphertext (length e.nonce) refl,
      )
      refl

platform-IsPlatform : (stored : Bytes) → IsPlatform (platform stored)
platform-IsPlatform stored = record {
  nonce_pos = omega arith;
  sealed = λ n p a. refl;
  opens = λ n p a. opened p a;
  authentic = λ n p a b ne. refused p a b ne;
  base64 = λ b. refl;
  base64_empty = λ b. refl;
  json = λ e b made. ground (arith, made, split-join e);
}

abbrev unsealed : PolicyState
unsealed = record {
  policy = record {
    rule_id = 7;
    threshold_usd18 = 10;
    protect_bps = 5_000;
    schedule_id = 1;
    max_per_event_usd18 = 0;
    cooldown_seconds = 60;
    expires_at = 1_000;
  };
  commitment = 0;
  last_triggered = 0;
  authorizations = [];
  used_nonces = [];
}

abbrev state : PolicyState
state = record unsealed {
  commitment = fold_hash (pack_words (commitment_fields words unsealed.policy));
}

abbrev store : RedisStore
store = record {
  address = codes "localhost:6379";
  username = [];
  password = codes "secret";
  database = codes "0";
  prefix = codes "averlock:114:1";
  tls = false;
  chain_id = 114;
  extension_id = codes "1";
}

abbrev text_of : Result StoreError Bytes → Bytes
text_of (ok text) = text
text_of (err x) = []

abbrev nonce : Bytes
nonce = 1 ∷ 2 ∷ []

abbrev text : Bytes
text = text_of (seal_state (platform []) store words flat_gob 7 state nonce)

made : seal_state (platform []) store words flat_gob 7 state nonce ≡ ok text
unfolding seal_state
made = refl

state-IsSealable : IsSealable (platform []) words state nonce
unfolding policy_commitment
state-IsSealable = record { nonce_fits = refl; commitment = refl }

open_envelope-seal_state_example :
    open_envelope (platform []) store words flat_gob 7 text ≡ ok state
open_envelope-seal_state_example =
    open_envelope-seal_state (platform []) (platform-IsPlatform []) store words flat_gob
      flat_gob-IsGob state nonce text state-IsSealable made

moved_envelope_refused_example :
    open_envelope (platform []) store words flat_gob 8 text ≡ err authentication_failed
moved_envelope_refused_example =
    moved_envelope_refused (platform []) (platform-IsPlatform []) store words flat_gob
      flat_gob-IsGob state nonce text state-IsSealable made 8 (omega arith) (omega arith)
      (λ e. omega (arith, e))

-- a server that has the sealed state
served : (load (platform text) store words flat_gob 7 [] tt).0 ≡ ok 0
unfolding load trim_left do_command parse_reply bulk to_string seal_state aad hex to_bytes
    open_envelope policy_commitment fold_hash pack_words commitment_fields word policy_domain
served = refl

load_bound_example :
    (v : PolicyState) × (deref (load (platform text) store words flat_gob 7 [] tt).1 0 ≡ some v)
    × (v.policy.rule_id ≡ 7)
    × (policy_commitment words v.policy ≡ some v.commitment)
load_bound_example = load_bound (platform text) store words flat_gob 7 [] tt 0 served
