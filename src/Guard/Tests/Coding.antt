-- ===== src/Guard/Tests/Coding.antt =====
-- A concrete serialisation of policyState that meets IsGob. It is not code of the program: it shows
-- that the assumption can hold, and it runs in tests.
use averlock.Prelude.{
  ℕ, suc, ◌≡◌, refl, Bool, true, false, Option, some, none, [], ◌∷◌, Bytes, Map, length, ◌==◌,
}
use averlock.Policy.{PolicyState, EventAuthorization}
use averlock.Guard.State.{Gob, IsGob}

abbrev flag : Bool → ℕ
flag true = 1
flag false = 0

abbrev flat_nonces : Map (Unit {0}) → Bytes
flat_nonces [] = []
flat_nonces ((n, _) ∷ ns) = n ∷ flat_nonces ns

abbrev read_nonces : Bytes → Map (Unit {0})
read_nonces [] = []
read_nonces (n ∷ ns) = (n, tt) ∷ read_nonces ns

abbrev flat_auths : Map EventAuthorization → Bytes → Bytes
flat_auths [] rest = rest
flat_auths ((k, a) ∷ m) rest =
    k
    ∷ a.event_value_usd18
    ∷ flag a.triggered
    ∷ a.protected_usd18
    ∷ a.protect_bps
    ∷ a.schedule_id
    ∷ a.last_expiry
    ∷ flat_auths m rest

abbrev read_auths : ℕ → Bytes → Map EventAuthorization × Bytes
read_auths (suc n) (k ∷ v ∷ t ∷ p ∷ b ∷ s ∷ x ∷ rest) =
    let (m, rest') = read_auths n rest in
    (
      (
        k,
        record {
          event_value_usd18 = v;
          triggered = t == 1;
          protected_usd18 = p;
          protect_bps = b;
          schedule_id = s;
          last_expiry = x;
        },
      )
          ∷ m,
      rest',
    )
read_auths _ rest = ([], rest)

abbrev flat_state : PolicyState → Bytes
flat_state v =
    let p = v.policy in
    p.rule_id
    ∷ p.threshold_usd18
    ∷ p.protect_bps
    ∷ p.schedule_id
    ∷ p.max_per_event_usd18
    ∷ p.cooldown_seconds
    ∷ p.expires_at
    ∷ v.commitment
    ∷ v.last_triggered
    ∷ length v.authorizations
    ∷ flat_auths v.authorizations (flat_nonces v.used_nonces)

abbrev read_state : Bytes → Option PolicyState
read_state (r ∷ t ∷ b ∷ s ∷ m ∷ c ∷ x ∷ commitment ∷ last ∷ n ∷ rest) =
    let (auths, nonces) = read_auths n rest in
    some (record {
      policy = record {
        rule_id = r;
        threshold_usd18 = t;
        protect_bps = b;
        schedule_id = s;
        max_per_event_usd18 = m;
        cooldown_seconds = c;
        expires_at = x;
      };
      commitment = commitment;
      last_triggered = last;
      authorizations = auths;
      used_nonces = read_nonces nonces;
    })
read_state _ = none

read-flat_nonces : (ns : Map (Unit {0})) → read_nonces (flat_nonces ns) ≡ ns
read-flat_nonces [] = refl
read-flat_nonces ((n, tt) ∷ ns) = rw (read-flat_nonces ns) refl

flag_back : (b : Bool) → (flag b == 1) ≡ b
flag_back true = refl
flag_back false = refl

read-flat_auths :
    (m : Map EventAuthorization) (rest : Bytes)
    → read_auths (length m) (flat_auths m rest) ≡ (m, rest)
read-flat_auths [] rest = refl
read-flat_auths ((k, a) ∷ m) rest = rw (flag_back a.triggered, read-flat_auths m rest) refl

read-flat_state : (v : PolicyState) → read_state (flat_state v) ≡ some v
read-flat_state v =
    rw
      (read-flat_auths v.authorizations (flat_nonces v.used_nonces), read-flat_nonces v.used_nonces)
      refl

abbrev pub flat_gob : Gob
flat_gob = record { gob_encode = λ v. some (flat_state v); gob_decode = read_state }

pub flat_gob-IsGob : IsGob flat_gob
flat_gob-IsGob = record {
  encoded = flat_state;
  encode_total = λ v. refl;
  decode_encoded = read-flat_state;
}
