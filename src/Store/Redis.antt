-- ===== src/Store/Redis.antt =====
-- redisStore of packages/fcc-extension/go/internal/extension/state_store.go: a policy's state is kept
-- in Redis under the rule's key, as a JSON envelope around its AES-GCM ciphertext.
pub mod Sealing
pub mod Loads
use averlock.Prelude.{
  and_then, ℕ, ◌+◌, ◌/◌, ◌%◌, Bool, true, false, ◌||◌, not, Option, none, some, List, [], ◌∷◌, ◌++◌,
  Bytes, codes, is_empty, bytes_eq, length, ltb, ◌==◌, if◌then◌else◌, Result, ok, err, or_err,
  fail_if, ◌>>=◌, ◌>>◌,
}
use averlock.Uint256.{to_string}
use averlock.Ethereum.{Hash, Geth}
use averlock.Ethereum.Words.{to_bytes}
use averlock.Policy.{PolicyState, policy_commitment}
use averlock.Store.{
  Ptr, Heap, deref, alloc, StateStore, StoreError, state_missing, zero_rule, invalid_state,
  gob_failed, rand_failed, connection_failed, invalid_envelope, authentication_failed,
  undecodable_state, binding_mismatch,
}
use averlock.Store.Resp.{command, parse_reply}
use averlock.Guard.State.{Gob}

pub record Envelope : Type 0 where
  pub version : Bytes
  pub nonce : Bytes
  pub ciphertext : Bytes

-- What the store takes from the standard library and from outside, where `R` is the network and the
-- source of randomness: AES-GCM under the seal key, base64, the JSON of an envelope, a random nonce,
-- a connection, and the stream that answers what is written to it (`none`: the write fails).
pub record Platform (R : Type 0) : Type 0 where
  pub nonce_size : ℕ
  pub seal : Bytes → Bytes → Bytes → Bytes
  pub unseal : Bytes → Bytes → Bytes → Option Bytes
  pub base64_encode : Bytes → Bytes
  pub base64_decode : Bytes → Option Bytes
  pub marshal : Envelope → Option Bytes
  pub unmarshal : Bytes → Option Envelope
  pub read_nonce : R → Option Bytes × R
  pub dial : Bool → Bytes → R → Bool × R
  pub exchange : Bytes → R → Option Bytes × R

-- the fields of redisStore that are not in Platform
pub record RedisStore : Type 0 where
  pub address : Bytes
  pub username : Bytes
  pub password : Bytes
  pub database : Bytes
  pub prefix : Bytes
  pub tls : Bool
  pub chain_id : ℕ
  pub extension_id : Bytes

abbrev pub envelope_version : Bytes
envelope_version = codes "v1"

abbrev pub nibble : ℕ → ℕ
nibble n = if ltb n 10 then b'0' + n else 87 + n

abbrev pub hex_bytes : Bytes → Bytes
hex_bytes [] = []
hex_bytes (b ∷ bs) = nibble (b / 16) ∷ nibble (b % 16) ∷ hex_bytes bs

-- common.Hash.Hex
unfoldable pub hex : Hash → Bytes
hex r = codes "0x" ++ hex_bytes (to_bytes 32 r)

unfoldable pub key : RedisStore → Hash → Bytes
key s r = if r == 0 then [] else s.prefix ++ (codes ":" ++ (hex r ++ codes ":state"))

unfoldable pub aad : RedisStore → Hash → Bytes
aad s r =
    (codes "averlock|" ++ (to_string s.chain_id ++ (codes "|" ++ (s.extension_id ++ codes "|"))))
    ++ (hex r ++ (codes "|" ++ envelope_version))

module _ {R : Type 0} (pf : Platform R) (s : RedisStore) where
  unfoldable pub do_conn : List Bytes → R → Result StoreError Bytes × R
  do_conn args w =
      let (stream, w') = pf.exchange (command args) w in
      (or_err connection_failed stream >>= parse_reply, w')

  -- AUTH with the username if there is one
  unfoldable pub auth_args : List Bytes
  auth_args =
      codes "AUTH" ∷ (if is_empty s.username then s.password ∷ [] else s.username ∷ s.password ∷ [])

  authenticate : R → Result StoreError Bytes × R
  unfolding do_conn auth_args
  authenticate w = if is_empty s.password then (ok [], w) else do_conn auth_args w

  select : R → Result StoreError Bytes × R
  unfolding do_conn
  select w =
      if bytes_eq s.database (codes "0")
      then (ok [], w)
      else do_conn (codes "SELECT" ∷ s.database ∷ []) w

  -- do
  unfoldable pub do_command : List Bytes → R → Result StoreError Bytes × R
  unfolding do_conn authenticate select
  do_command args w =
      let (dialled, w') = pf.dial s.tls s.address w in
      if dialled
      then and_then (authenticate w') (λ _ w1. and_then (select w1) (λ _ w2. do_conn args w2))
      else (err connection_failed, w')

  not_empty : Bytes → R → Result StoreError Bytes × R
  not_empty v w = if is_empty v then (err state_missing, w) else (ok v, w)

  -- get
  unfoldable pub get : Bytes → R → Result StoreError Bytes × R
  unfolding not_empty
  get k w = and_then (do_command (codes "GET" ∷ k ∷ []) w) not_empty

  module _ (g : Geth) (gob : Gob) where
    -- the envelope of a state, for a nonce
    unfoldable pub seal_state : Hash → PolicyState → Bytes → Result StoreError Bytes
    seal_state r v n = do
      raw ← or_err gob_failed (gob.gob_encode v)
      or_err gob_failed (
          pf.marshal (record {
            version = envelope_version;
            nonce = pf.base64_encode n;
            ciphertext = pf.base64_encode (pf.seal n raw (aad s r));
          }))

    -- what Load makes of a value
    unfoldable pub open_envelope : Hash → Bytes → Result StoreError PolicyState
    open_envelope r out = do
      e ← or_err invalid_envelope (pf.unmarshal out)
      fail_if
          (not (bytes_eq e.version envelope_version) || is_empty e.nonce || is_empty e.ciphertext)
          invalid_envelope
      n ← or_err invalid_envelope (pf.base64_decode e.nonce)
      fail_if (not (length n == pf.nonce_size)) invalid_envelope
      c ← or_err invalid_envelope (pf.base64_decode e.ciphertext)
      p ← or_err authentication_failed (pf.unseal n c (aad s r))
      v ← or_err undecodable_state (gob.gob_decode p)
      commitment ← or_err binding_mismatch (policy_commitment g v.policy)
      fail_if (not (commitment == v.commitment) || not (v.policy.rule_id == r)) binding_mismatch
      ok v

    -- a state that is not nil, sealed under a fresh nonce and sent; the encoding comes before the
    -- nonce is drawn
    send_state : Hash → PolicyState → R → Result StoreError (Unit {0}) × R
    unfolding seal_state do_command
    send_state r v w = elim (gob.gob_encode v) [
      | none ↦ (err gob_failed, w)
      | some raw ↦
          let (nonce, w1) = pf.read_nonce w in
          elim (or_err rand_failed nonce >>= seal_state r v) [
            | err e ↦ (err e, w1)
            | ok sent ↦
                and_then (do_command (codes "SET" ∷ key s r ∷ sent ∷ []) w1) (λ _ w2. (ok tt, w2))
          ]
    ]

    -- Save
    unfoldable pub save : Hash → Ptr → Heap → R → Result StoreError (Unit {0}) × R
    unfolding send_state
    save r p heap w = if r == 0 then (err zero_rule, w) else elim (deref heap p) [
      | none ↦ (err invalid_state, w)
      | some v ↦ if not (v.policy.rule_id == r) then (err invalid_state, w) else send_state r v w
    ]

    -- Load, which returns a new object
    unfoldable pub load : Hash → Heap → R → Result StoreError Ptr × Heap × R
    unfolding get
    load r heap w =
        if r == 0
        then (err zero_rule, heap, w)
        else (let (out, w') = get (key s r) w in
            elim (out >>= open_envelope r) [
              | err e ↦ (err e, heap, w')
              | ok v ↦ let (p, heap') = alloc v heap in (ok p, heap', w')
            ])

    abbrev pub redis_store : StateStore R
    redis_store = record { load = load; save = save }
