-- ===== src/Store/Redis/Loads.antt =====
-- What Load of the Redis store hands out.
use averlock.Prelude.{
  ◌≡◌, some, [], ◌∷◌, ◌++◌, Bytes, length, arith, ok, err, Result-cases, Bool-cases, ◌⊎◌, inl, inr,
  get_elem?-append_last, ◌==◌,
}
use averlock.Ethereum.{Hash, Geth}
use averlock.Policy.{PolicyState, policy_commitment}
use averlock.Store.{Ptr, Heap, deref, StoreError, IsStore, zero_rule}
use averlock.Store.Redis.{Platform, RedisStore, key, get, open_envelope, load, redis_store}
use averlock.Guard.State.{Gob}
use averlock.Guard.History.Memory.{Grows-append}

open_envelope-bound :
    {R : Type 0} (pf : Platform R) (s : RedisStore) (g : Geth) (gob : Gob) (r : Hash) (out : Bytes)
    (v : PolicyState)
    → open_envelope pf s g gob r out ≡ ok v
    → (v.policy.rule_id ≡ r) × (policy_commitment g v.policy ≡ some v.commitment)
unfolding open_envelope
open_envelope-bound pf s g gob r out v h = ground arith

module _ {R : Type 0} (pf : Platform R) (s : RedisStore) (g : Geth) (gob : Gob) where
  -- A load fails and allocates nothing, or it allocates the state that a value was opened to.
  pub load_cases :
      (r : Hash) (h : Heap) (w : R)
      → ((x : StoreError) × ((load pf s g gob r h w).0 ≡ err x) × ((load pf s g gob r h w).1 ≡ h))
        ⊎ ((out : Bytes) × (v : PolicyState) × (open_envelope pf s g gob r out ≡ ok v)
            × ((load pf s g gob r h w).0 ≡ ok (length h))
            × ((load pf s g gob r h w).1 ≡ h ++ v ∷ []))
  unfolding load
  load_cases r h w = elim (Bool-cases (r == 0)) [
    | inl blank ↦ inl (zero_rule, ground arith, ground arith)
    | inr real ↦ elim (Result-cases (get pf s (key s r) w).0) [
      | inr (x, failed) ↦ inl (x, ground arith, ground arith)
      | inl (out, got) ↦ elim (Result-cases (open_envelope pf s g gob r out)) [
        | inr (x, failed) ↦ inl (x, ground arith, ground arith)
        | inl (v, opened) ↦ inr (out, v, opened, ground arith, ground arith)
      ]
    ]
  ]

  -- Load of the Redis store leaves the existing objects alone.
  pub redis_store-IsStore : IsStore (redis_store pf s g gob)
  redis_store-IsStore = record {
    load_grows = λ r h w p v found. elim (load_cases r h w) [
      | inl (_, _, same) ↦ rw same found
      | inr (_, v', _, _, grown) ↦ rw grown (Grows-append h v' p v found)
    ];
  }

  -- Whatever the network answers, a state that Load hands out is of the rule that was asked for, and
  -- its commitment is that of its policy.
  pub load_bound :
      (r : Hash) (h : Heap) (w : R) (p : Ptr)
      → (load pf s g gob r h w).0 ≡ ok p
      → (v : PolicyState) × (deref (load pf s g gob r h w).1 p ≡ some v)
        × (v.policy.rule_id ≡ r)
        × (policy_commitment g v.policy ≡ some v.commitment)
  load_bound r h w p e = elim (load_cases r h w) [
    | inl (_, failed, _) ↦ absurd (cc (e, failed))
    | inr (out, v, opened, at, grown) ↦
        let (own, bound) = open_envelope-bound pf s g gob r out v opened in
        (v, ground (arith, e, at, grown, get_elem?-append_last h v), own, bound)
  ]
