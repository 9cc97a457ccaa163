-- ===== src/Store/Config/Tests.antt =====
-- A Redis store chosen from concrete variables.
use averlock.Prelude.{
  ℕ, zero, suc, ◌^◌, ◌<◌, ◌≡◌, refl, true, false, some, [], ◌∷◌, Bytes, codes, is_empty, length, ok,
}
use averlock.Uint256.{to_string, digits, scan, scan_nat}
use averlock.Store.Redis.{RedisStore}
use averlock.Text.{trim_space}
use averlock.Store.Config.{
  Parsers, Env, redis, state_store_from_env, state_store_from_env-redis, seal_key,
  required_positive_uint, parse_uint, parse_redis_url,
}

abbrev ps : Parsers
ps = record {
  parse_url = λ raw. some (record {
    scheme = codes "rediss";
    host = codes "db:6379";
    user = some (codes "me", some (codes "secret"));
    escaped_path = codes "/2";
    raw_query = [];
    fragment = [];
  });
  split_host_port = λ s. some (codes "db", codes "6379");
  base64_decode = λ s. some s;
}

abbrev ones : ℕ → Bytes
ones zero = []
ones (suc n) = 1 ∷ ones n

abbrev env : Env
env = record {
  fcc_state_store = codes "redis";
  fcc_state_seal_key = ones 32;
  chain_id = codes " 114";
  extension_id = codes "7";
  redis_url = codes "rediss";
}

abbrev store : RedisStore
store = record {
  address = codes "db:6379";
  username = codes "me";
  password = codes "secret";
  database = codes "2";
  prefix = codes "averlock:114:7";
  tls = true;
  chain_id = 114;
  extension_id = codes "7";
}

chosen : state_store_from_env ps env ≡ ok (redis (ones 32) store)
unfolding state_store_from_env seal_key required_positive_uint parse_uint parse_redis_url trim_space
    to_string digits scan scan_nat
chosen = refl

state_store_from_env-redis_example :
    (env.fcc_state_store ≡ codes "redis")
    × (length (ones 32) ≡ 32)
    × (0 < 114)
    × (114 < 2 ^ 64)
    × (is_empty (codes "secret") ≡ false)
state_store_from_env-redis_example = state_store_from_env-redis ps env (ones 32) store chosen
