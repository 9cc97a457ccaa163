-- ===== src/Store/Config.antt =====
-- The choice of the store from the environment: stateStoreFromEnv and its parsers in
-- packages/fcc-extension/go/internal/extension/state_store.go. url.Parse, net.SplitHostPort and base64
-- are parameters.
mod Tests
use averlock.Text.{trim_space}
use averlock.Prelude.{
  ℕ, zero, suc, ◌+◌, ◌-◌, ◌*◌, ◌^◌, ◌≤◌, ◌<◌, ◌≡◌, ◌≢◌, refl, Bool, true, false, ◌||◌, ◌&&◌, not,
  Option, none, some, List, [], ◌∷◌, ◌++◌, Bytes, codes, bytes_eq, bytes_eq→eq, is_empty, length,
  leb, ltb, ◌==◌, if◌then◌else◌, arith, Result, ok, err, or_err, fail_if, ◌>>=◌, ◌>>◌, wrap,
}
use averlock.Uint256.{scan_nat, to_string}
use averlock.Store.Redis.{RedisStore}

pub data ConfigError : Type 0 where
  unsupported_store : ConfigError
  bad_seal_key : ConfigError
  bad_chain_id : ConfigError
  bad_extension_id : ConfigError
  bad_url : ConfigError
  bad_host : ConfigError
  bad_port : ConfigError
  no_password : ConfigError
  bad_database : ConfigError

below : ℕ → Option ℕ → Option ℕ
below size none = none
below size (some n) = if ltb n size then some n else none

-- `strconv.ParseUint(s, 10, bits)`
unfoldable pub parse_uint : Bytes → ℕ → Option ℕ
unfolding below
parse_uint s bits = below (2 ^ bits) (scan_nat s)

-- requiredPositiveUint, from the value of the variable
unfoldable pub required_positive_uint : ConfigError → Bytes → Result ConfigError ℕ
required_positive_uint e value = do
  n ← or_err e (parse_uint (trim_space value) 64)
  fail_if (n == 0) e
  ok n

hex_value : ℕ → Option ℕ
hex_value c =
    if leb b'0' c && leb c b'9'
    then some (c - b'0')
    else if leb b'a' c && leb c b'f'
    then some (c - 87)
    else if leb b'A' c && leb c b'F'
    then some (c - 55)
    else none

hex_byte : Option ℕ → Option ℕ → Option Bytes → Option Bytes
hex_byte (some h) (some l) (some bs) = some ((h * 16 + l) ∷ bs)
hex_byte _ _ _ = none

-- `hex.DecodeString`
unfoldable pub hex_decode : Bytes → Option Bytes
unfolding hex_value hex_byte
hex_decode [] = some []
hex_decode (_ ∷ []) = none
hex_decode (h ∷ l ∷ s) = hex_byte (hex_value h) (hex_value l) (hex_decode s)

-- what url.Parse gives: the scheme, the host, the user and a password that is set, the path, and
-- whether there is a query or a fragment
pub record Url : Type 0 where
  pub scheme : Bytes
  pub host : Bytes
  pub user : Option (Bytes × Option Bytes)
  pub escaped_path : Bytes
  pub raw_query : Bytes
  pub fragment : Bytes

pub record Parsers : Type 0 where
  pub parse_url : Bytes → Option Url
  pub split_host_port : Bytes → Option (Bytes × Bytes)
  pub base64_decode : Bytes → Option Bytes

-- redisURL
pub record RedisUrl : Type 0 where
  pub host : Bytes
  pub username : Bytes
  pub password : Bytes
  pub database : Bytes
  pub tls : Bool

-- `strings.TrimPrefix(path, "/")`
trim_slash : Bytes → Bytes
trim_slash [] = []
trim_slash (c ∷ s) = if c == b'/' then s else c ∷ s

has_slash : Bytes → Bool
has_slash [] = false
has_slash (c ∷ s) = c == b'/' || has_slash s

abbrev database_of : Bytes → Bytes
database_of path = if is_empty (trim_slash path) then codes "0" else trim_slash path

-- `u.User == nil` or the username with its password
unfoldable pub parse_redis_url : Parsers → Bytes → Result ConfigError RedisUrl
unfolding trim_slash has_slash
parse_redis_url ps raw = do
  u ← or_err bad_url (ps.parse_url raw)
  fail_if
      ((not (bytes_eq u.scheme (codes "redis")) && not (bytes_eq u.scheme (codes "rediss")))
        || is_empty u.host)
      bad_url
  user ← or_err bad_url u.user
  fail_if (not (is_empty u.raw_query) || not (is_empty u.fragment)) bad_url
  parts ← or_err bad_host (ps.split_host_port u.host)
  fail_if (is_empty parts.0) bad_host
  port ← or_err bad_port (parse_uint parts.1 16)
  fail_if (port == 0) bad_port
  password ← or_err no_password user.1
  fail_if (is_empty password) no_password
  fail_if (has_slash (database_of u.escaped_path)) bad_database
  database ← or_err bad_database (parse_uint (database_of u.escaped_path) 31)
  ok (record {
    host = u.host;
    username = user.0;
    password = password;
    database = database_of u.escaped_path;
    tls = bytes_eq u.scheme (codes "rediss");
  })

-- sealKey
unfoldable pub seal_key : Parsers → Bytes → Result ConfigError Bytes
seal_key ps v = do
  b ← or_err bad_seal_key (if length v == 64 then hex_decode v else ps.base64_decode v)
  fail_if (not (length b == 32)) bad_seal_key
  ok b

-- the environment variables
pub record Env : Type 0 where
  pub fcc_state_store : Bytes
  pub fcc_state_seal_key : Bytes
  pub chain_id : Bytes
  pub extension_id : Bytes
  pub redis_url : Bytes

-- the store that is chosen; the AEAD of a redisStore is made from the key
pub data Choice : Type 0 where
  memory : Choice
  redis : Bytes → RedisStore → Choice

-- stateStoreFromEnv, where an error is a panic
unfoldable pub state_store_from_env : Parsers → Env → Result ConfigError Choice
state_store_from_env ps env =
    if is_empty env.fcc_state_store || bytes_eq env.fcc_state_store (codes "memory")
    then ok memory
    else do
      fail_if (not (bytes_eq env.fcc_state_store (codes "redis"))) unsupported_store
      key ← seal_key ps env.fcc_state_seal_key
      chain_id ← required_positive_uint bad_chain_id env.chain_id
      extension_id ← required_positive_uint bad_extension_id env.extension_id
      r ← parse_redis_url ps env.redis_url
      ok (
          redis key (record {
            address = r.host;
            username = r.username;
            password = r.password;
            database = r.database;
            prefix =
                codes "averlock:" ++ (to_string chain_id ++ (codes ":" ++ to_string extension_id));
            tls = r.tls;
            chain_id = chain_id;
            extension_id = to_string extension_id;
          }))

-- A Redis store is made only where FCC_STATE_STORE is redis, under a key of 32 bytes, for a chain
-- that is a positive uint64, and with a password.
pub state_store_from_env-redis :
    (ps : Parsers) (env : Env) (key : Bytes) (s : RedisStore)
    → state_store_from_env ps env ≡ ok (redis key s)
    → (env.fcc_state_store ≡ codes "redis")
      × (length key ≡ 32)
      × (0 < s.chain_id)
      × (s.chain_id < 2 ^ 64)
      × (is_empty s.password ≡ false)
unfolding state_store_from_env seal_key required_positive_uint parse_uint parse_redis_url below
state_store_from_env-redis ps env key s h = (
  ground (arith, bytes_eq→eq env.fcc_state_store (codes "redis")),
  ground arith,
  ground arith,
  ground arith,
  ground arith,
)
