-- ===== src/Decision/Binding.antt =====
-- What ResultHash commits to.
use averlock.Prelude.{
  ℕ, ◌^◌, ◌<◌, ◌≡◌, ◌≢◌, ◌⊎◌, inl, inr, some, Bytes, bytes_eq, bytes_eq→eq, bytes_eq_refl, arith,
  ok, pos, Bool-cases, refl, ap, codes, List,
}
use averlock.Ethereum.{Hash, Geth, IsGeth, AllInRange, types_of, AbiValue}
use averlock.Decision.{FccDecision, decision_domain, hash_fields, magnitude, result_hash}
use averlock.Decision.Codec.{IsWellFormed, validate-IsWellFormed, magnitude_lem, magnitude_lt}

-- two lists of values that pack to different bytes with one Keccak-256 hash
abbrev pub Collision : Geth → List AbiValue → List AbiValue → Type 0
Collision g vs ws =
    (x : Bytes) × (y : Bytes) × (g.pack vs ≡ some x)
    × (g.pack ws ≡ some y)
    × (x ≢ y)
    × (g.keccak x ≡ g.keccak y)

module _ (g : Geth) (ax : IsGeth g) where
  pub same_values :
      (vs ws : List AbiValue)
      → AllInRange vs
      → AllInRange ws
      → types_of vs ≡ types_of ws
      → g.keccak (ax.packed vs) ≡ g.keccak (ax.packed ws)
      → Collision g vs ws ⊎ (vs ≡ ws)
  same_values vs ws hv hw types same = elim (Bool-cases (bytes_eq (ax.packed vs) (ax.packed ws))) [
    | inl eq ↦ inr (
        cc (
          bytes_eq→eq (ax.packed vs) (ax.packed ws) eq,
          ax.unpack-packed vs hv,
          ax.unpack-packed ws hw,
          types,
        ))
    | inr ne ↦ inl (
      ax.packed vs,
      ax.packed ws,
      ax.pack_total vs hv,
      ax.pack_total ws hw,
      λ e. cc (ne, ap (bytes_eq (ax.packed vs)) e, bytes_eq_refl (ax.packed vs)),
      same,
    )
  ]

  chain_value : (c : ℕ) → magnitude (some (pos c)) ≡ c
  unfolding magnitude
  chain_value c = refl

  hash_fields-AllInRange :
      (c : ℕ) (d : FccDecision)
      → c < 2 ^ 256
      → IsWellFormed g d
      → AllInRange (hash_fields g (some (pos c)) d)
  unfolding hash_fields decision_domain
  hash_fields-AllInRange c d fits w = grind (
    arith,
    w.in_domain,
    ax.keccak-lt (codes "AVERLOCK_GUARD_RESULT_V2"),
    chain_value c,
    magnitude_lt d.protected_usd18 w.protected,
    magnitude_lt d.event_value_usd18 w.event_value,
    magnitude_lt d.nonce w.nonce_fits,
  )

  -- The hash of a well-formed decision for a chain is that of its packed fields.
  pub result_hash_lem :
      (c : ℕ) (d : FccDecision)
      → 0 < c
      → c < 2 ^ 256
      → IsWellFormed g d
      → result_hash g (some (pos c)) d ≡ ok (g.keccak (ax.packed (hash_fields g (some (pos c)) d)))
  unfolding result_hash
  result_hash_lem c d p fits w =
      let total = ax.pack_total _ (hash_fields-AllInRange c d fits w) in
      ground (arith, validate-IsWellFormed g ax d w, total)

  fields_determine :
      (c c' : ℕ) (d d' : FccDecision)
      → IsWellFormed g d
      → IsWellFormed g d'
      → hash_fields g (some (pos c)) d ≡ hash_fields g (some (pos c')) d'
      → (c ≡ c') × (d ≡ d')
  unfolding hash_fields
  fields_determine c c' d d' w w' e = ground (
    arith,
    chain_value c,
    chain_value c',
    magnitude_lem d.protected_usd18 w.protected,
    magnitude_lem d.event_value_usd18 w.event_value,
    magnitude_lem d.nonce w.nonce_fits,
    magnitude_lem d'.protected_usd18 w'.protected,
    magnitude_lem d'.event_value_usd18 w'.event_value,
    magnitude_lem d'.nonce w'.nonce_fits,
  )

  -- One result hash for two well-formed decisions, each under a positive chain ID that fits uint256,
  -- means the same chain and the same decision, in every field, or else a collision of Keccak-256 on
  -- the very bytes that ResultHash packs for the two: these are different and have one hash.
  pub result_hash-binds :
      (c c' : ℕ) (d d' : FccDecision) (h : Hash)
      → (0 < c) × (c < 2 ^ 256)
      → (0 < c') × (c' < 2 ^ 256)
      → IsWellFormed g d
      → IsWellFormed g d'
      → result_hash g (some (pos c)) d ≡ ok h
      → result_hash g (some (pos c')) d' ≡ ok h
      → Collision g (hash_fields g (some (pos c)) d) (hash_fields g (some (pos c')) d')
        ⊎ ((c ≡ c') × (d ≡ d'))
  result_hash-binds c c' d d' h p p' w w' e e' =
      let same =
        same_values (hash_fields g (some (pos c)) d) (hash_fields g (some (pos c')) d')
          (hash_fields-AllInRange c d p.1 w) (hash_fields-AllInRange c' d' p'.1 w')
          (unfold hash_fields in refl)
          (cc (e, e', result_hash_lem c d p.0 p.1 w, result_hash_lem c' d' p'.0 p'.1 w')) in
      elim same [
        | inl broken ↦ inl broken
        | inr fields ↦ inr (fields_determine c c' d d' w w' fields)
      ]
