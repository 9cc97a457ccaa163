-- ===== src/Store/Redis/Sealing.antt =====
-- The envelopes that Save makes, and what Load accepts.
use averlock.Prelude.{
  ℕ, zero, suc, ◌*◌, ◌/◌, ◌%◌, ◌^◌, ◌<◌, ◌≡◌, ◌≢◌, refl, ap, sym, ◌∙◌, false, none, some, [], ◌∷◌,
  ◌++◌, Bytes, length, take, drop, take-append, drop-append, bytes_eq_refl, is_empty, arith, ok,
  err, codes,
}
use averlock.Uint256.{to_string}
use averlock.Ethereum.{Hash, Geth}
use averlock.Ethereum.Words.{
  to_bytes, of_bytes, length-to_bytes, of_bytes-to_bytes, bytes_size, AreBytes,
}
use averlock.Policy.{PolicyState, policy_commitment}
use averlock.Store.{authentication_failed}
use averlock.Store.Redis.{
  Envelope, Platform, RedisStore, nibble, hex_bytes, hex, aad, seal_state, open_envelope,
  envelope_version,
}
use averlock.Guard.State.{Gob, IsGob}

-- The documented behaviour of AES-GCM, base64 and JSON: what is sealed is opened under the same nonce
-- and additional data and under no other additional data, and what is encoded is decoded.
pub record IsPlatform {R : Type 0} (pf : Platform R) : Type 0 where
  pub nonce_pos : 0 < pf.nonce_size
  pub sealed : (n p a : Bytes) → is_empty (pf.seal n p a) ≡ false
  pub opens : (n p a : Bytes) → pf.unseal n (pf.seal n p a) a ≡ some p
  pub authentic : (n p a b : Bytes) → b ≢ a → pf.unseal n (pf.seal n p a) b ≡ none
  pub base64 : (b : Bytes) → pf.base64_decode (pf.base64_encode b) ≡ some b
  pub base64_empty : (b : Bytes) → is_empty (pf.base64_encode b) ≡ is_empty b
  pub json : (e : Envelope) (b : Bytes) → pf.marshal e ≡ some b → pf.unmarshal b ≡ some e

nibble-injective : (a b : ℕ) → a < 16 → b < 16 → nibble a ≡ nibble b → a ≡ b
nibble-injective a b p q e = ground arith

hex_bytes-injective :
    (xs ys : Bytes) → AreBytes xs → AreBytes ys → hex_bytes xs ≡ hex_bytes ys → xs ≡ ys
hex_bytes-injective [] [] p q e = refl
hex_bytes-injective [] (y ∷ ys) p q e = absurd (cc e)
hex_bytes-injective (x ∷ xs) [] p q e = absurd (cc e)
hex_bytes-injective (x ∷ xs) (y ∷ ys) p q e =
    let q1 : nibble (x / 16) ≡ nibble (y / 16) = cc e in
    let q2 : nibble (x % 16) ≡ nibble (y % 16) = cc e in
    let high = nibble-injective (x / 16) (y / 16) (omega (arith, p.0)) (omega (arith, q.0)) q1 in
    let low = nibble-injective (x % 16) (y % 16) (omega arith) (omega arith) q2 in
    let same : x ≡ y = omega (arith, high, low) in
    let rest = hex_bytes-injective xs ys p.1 q.1 (cc e) in cc (same, rest)

AreBytes-append : (xs : Bytes) {b : ℕ} → AreBytes xs → b < 256 → AreBytes (xs ++ b ∷ [])
AreBytes-append [] p lt = (lt, tt)
AreBytes-append (x ∷ xs) p lt = (p.0, AreBytes-append xs p.1 lt)

to_bytes-AreBytes : (k n : ℕ) → AreBytes (to_bytes k n)
unfolding to_bytes
to_bytes-AreBytes zero n = tt
to_bytes-AreBytes (suc k) n =
    AreBytes-append (to_bytes k (n / 256)) (to_bytes-AreBytes k (n / 256)) (omega arith)

-- A non-empty nonce of the right size, an encoded state, and the state's own commitment.
pub record IsSealable {R : Type 0} (pf : Platform R) (g : Geth) (v : PolicyState) (n : Bytes)
    : Type 0 where
  pub nonce_fits : length n ≡ pf.nonce_size
  pub commitment : policy_commitment g v.policy ≡ some v.commitment

module _ {R : Type 0} (pf : Platform R) (laws : IsPlatform pf) (s : RedisStore) (g : Geth)
    (gob : Gob) (gob_laws : IsGob gob) (v : PolicyState) (n text : Bytes)
    (good : IsSealable pf g v n) (made : seal_state pf s g gob v.policy.rule_id v n ≡ ok text) where
  sized : (b : Bytes) → 0 < length b → is_empty b ≡ false
  sized [] h = elim h [ ]
  sized (c ∷ b) h = refl

  not_empty_nonce : is_empty n ≡ false
  not_empty_nonce = sized n (omega (arith, good.nonce_fits, laws.nonce_pos))

  -- The envelope that Save makes of a state, under a nonce of the right size, is opened by Load
  -- under the same rule to the same state, if the state's commitment is that of its policy and the
  -- platform behaves as documented.
  pub open_envelope-seal_state : open_envelope pf s g gob v.policy.rule_id text ≡ ok v
  unfolding open_envelope seal_state
  open_envelope-seal_state =
      let raw = gob_laws.encoded v in
      let a = aad s v.policy.rule_id in
      let c = pf.seal n raw a in
      ground (
        arith,
        gob_laws.encode_total v,
        gob_laws.decode_encoded v,
        laws.opens n raw a,
        laws.base64 n,
        laws.base64 c,
        laws.base64_empty n,
        laws.base64_empty c,
        laws.sealed n raw a,
        not_empty_nonce,
        good.nonce_fits,
        good.commitment,
        bytes_eq_refl envelope_version,
        laws.json
            (record {
              version = envelope_version;
              nonce = pf.base64_encode n;
              ciphertext = pf.base64_encode c;
            })
            text,
      )

hex-injective : (r r' : Hash) → r < 2 ^ 256 → r' < 2 ^ 256 → hex r ≡ hex r' → r ≡ r'
unfolding hex
hex-injective r r' lt lt' e =
    let same : hex_bytes (to_bytes 32 r) ≡ hex_bytes (to_bytes 32 r') = cc e in
    let bytes =
      hex_bytes-injective (to_bytes 32 r) (to_bytes 32 r') (to_bytes-AreBytes 32 r)
        (to_bytes-AreBytes 32 r') same in
    sym (of_bytes-to_bytes 32 r (unfold bytes_size in lt))
    ∙ ap of_bytes bytes
    ∙ of_bytes-to_bytes 32 r' (unfold bytes_size in lt')

length-hex_bytes : (bs : Bytes) → length (hex_bytes bs) ≡ 2 * length bs
length-hex_bytes [] = refl
length-hex_bytes (b ∷ bs) = omega (arith, length-hex_bytes bs)

length-hex : (r : Hash) → length (hex r) ≡ 66
unfolding hex
length-hex r = omega (arith, length-hex_bytes (to_bytes 32 r), length-to_bytes 32 r)

middle : (p x y t : Bytes) → length x ≡ length y → p ++ (x ++ t) ≡ p ++ (y ++ t) → x ≡ y
middle p x y t size e =
    let tails : x ++ t ≡ y ++ t =
      sym (drop-append p (x ++ t) (length p) refl)
      ∙ ap (drop (length p)) e
      ∙ drop-append p (y ++ t) (length p) refl in
    sym (take-append x t (length x) refl)
    ∙ ap (take (length x)) tails
    ∙ take-append y t (length x) (sym size)

-- The additional data of two rules differ.
pub aad-injective :
    (s : RedisStore) (r r' : Hash) → r < 2 ^ 256 → r' < 2 ^ 256 → aad s r ≡ aad s r' → r ≡ r'
unfolding aad
aad-injective s r r' lt lt' e = hex-injective r r' lt lt' (
    middle
      (codes "averlock|" ++ (to_string s.chain_id ++ (codes "|" ++ (s.extension_id ++ codes "|"))))
      (hex r) (hex r') (codes "|" ++ envelope_version) (length-hex r ∙ sym (length-hex r')) e)

module _ {R : Type 0} (pf : Platform R) (laws : IsPlatform pf) (s : RedisStore) (g : Geth)
    (gob : Gob) (gob_laws : IsGob gob) (v : PolicyState) (n text : Bytes)
    (good : IsSealable pf g v n) (made : seal_state pf s g gob v.policy.rule_id v n ≡ ok text) where
  -- The envelope that Save makes of a state under its rule fails to authenticate under any other
  -- rule, if the platform behaves as documented and both rules fit 32 bytes.
  pub moved_envelope_refused :
      (r : Hash)
      → r < 2 ^ 256
      → v.policy.rule_id < 2 ^ 256
      → r ≢ v.policy.rule_id
      → open_envelope pf s g gob r text ≡ err authentication_failed
  unfolding open_envelope seal_state
  moved_envelope_refused r lt lt' ne =
      let raw = gob_laws.encoded v in
      let a = aad s v.policy.rule_id in
      let c = pf.seal n raw a in
      let other : aad s r ≢ a = λ e. ne (aad-injective s r v.policy.rule_id lt lt' e) in
      ground (
        arith,
        gob_laws.encode_total v,
        laws.authentic n raw a (aad s r) other,
        laws.base64 n,
        laws.base64 c,
        laws.base64_empty n,
        laws.base64_empty c,
        laws.sealed n raw a,
        not_empty_nonce pf laws s g gob gob_laws v n text good made,
        good.nonce_fits,
        bytes_eq_refl envelope_version,
        laws.json
            (record {
              version = envelope_version;
              nonce = pf.base64_encode n;
              ciphertext = pf.base64_encode c;
            })
            text,
      )
