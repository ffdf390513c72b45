-- ===== src/Config.antt =====
-- config/: the configuration of a node, read from the environment's variables. A variable that is not
-- set is the empty text. `time.ParseDuration` computes with floats and is a parameter; durations are in
-- nanoseconds.
pub mod Seeds
pub mod Complete
use mathlib.Core.Option
use pi_bully.Prelude.{
  ℕ, ◌*◌, ◌^◌, ◌≡◌, refl, ◌≢◌, String, Bool, true, false, Option, none, some, List, [], ◌∷◌, ◌++◌,
  ℤ, pos, ◌==◌, if◌then◌else◌,
}
use pi_bully.Text.{Text, codes, is_empty, text_eq}
use pi_bully.Text.Decimal.{parse_uint, atoi}
use pi_bully.Config.Seeds.{parse_seeds}

-- `os.Getenv`
abbrev pub Env : Type 0
Env = String → Text

-- A variable that is missing, one that is not a number of its kind, and the error of
-- `strconv.ParseUint`, which quotes the text and names no variable.
pub data Error : Type 0 where
  required invalid : String → Error
  not_uint : Text → Error

pub data Result (A : Type 0) : Type 0 where
  ok : A → Result A
  err : Error → Result A

infixl 5 ◌>>=◌
abbrev pub ◌>>=◌ : {A B : Type 0} → Result A → (A → Result B) → Result B
ok a >>= f = f a
err e >>= f = err e

pub record LogConfig : Type 0 where
  pub level : Text
  pub format : Text

pub record NodeConfig : Type 0 where
  pub id : ℕ
  pub address : Text

pub record ServerConfig : Type 0 where
  pub port : Text

pub record DatabaseConfig : Type 0 where
  pub dsn : Text

pub record StorageConfig : Type 0 where
  pub endpoint : Text
  pub bucket : Text
  pub access_key : Text
  pub secret_key : Text
  pub region : Text
  pub use_ssl : Bool

pub record MemberlistConfig : Type 0 where
  pub bind_addr : Text
  pub bind_port : ℤ
  pub advertise_addr : Text
  pub seeds : List Text
  pub probe_interval : ℤ
  pub probe_timeout : ℤ
  pub gossip_interval : ℤ
  pub push_pull_interval : ℤ
  pub suspicion_mult : ℤ

pub record ElectionConfig : Type 0 where
  pub election_timeout : ℤ
  pub announce_retry_interval : ℤ
  pub send_retry_interval : ℤ

pub record HealthConfig : Type 0 where
  pub port : Text

pub record SchedulerConfig : Type 0 where
  pub poll_interval : ℤ
  pub batch_size : ℤ
  pub strategy : Text
  pub lease_duration : ℤ

pub record WorkerConfig : Type 0 where
  pub rpc_timeout : ℤ
  pub lease_renewal_interval : ℤ

pub record Config : Type 0 where
  pub log : LogConfig
  pub node : NodeConfig
  pub server : ServerConfig
  pub database : DatabaseConfig
  pub storage : StorageConfig
  pub memberlist : MemberlistConfig
  pub election : ElectionConfig
  pub health : HealthConfig
  pub scheduler : SchedulerConfig
  pub worker : WorkerConfig

-- `if v == "" { return ..., fmt.Errorf("... is required") }`
unfoldable pub require : Env → String → Result Text
require env key = elim (env key) [ [] ↦ err (required key) | c ∷ s ↦ ok (c ∷ s) ]

abbrev pub or_invalid : {A : Type 0} → String → Option A → Result A
or_invalid key none = err (invalid key)
or_invalid key (some a) = ok a

-- The error of `strconv.ParseUint` as it is.
abbrev pub or_not_uint : {A : Type 0} → Text → Option A → Result A
or_not_uint v none = err (not_uint v)
or_not_uint v (some a) = ok a

unfoldable pub get_env_or_default : Env → String → Text → Text
get_env_or_default env key default_value = elim (env key) [ [] ↦ default_value | c ∷ s ↦ c ∷ s ]

unfoldable pub get_int_env : Env → String → ℤ → ℤ
unfolding atoi
get_int_env env key default_value = elim (env key) [
  | [] ↦ default_value
  | c ∷ s ↦ Option.get_or (atoi (c ∷ s)) default_value
]

abbrev millisecond : ℕ
millisecond = 10 ^ 6

abbrev second : ℕ
second = 10 ^ 9

unfoldable pub load_log_config : Env → LogConfig
unfolding get_env_or_default
load_log_config env = record {
  level = get_env_or_default env "LOG_LEVEL" (codes "info");
  format = get_env_or_default env "LOG_FORMAT" (codes "text");
}

unfoldable pub load_health_config : Env → HealthConfig
unfolding get_env_or_default
load_health_config env = record { port = get_env_or_default env "HEALTH_PORT" (codes "8080") }

abbrev pub positive : String → ℕ → Result ℕ
positive key id = if id == 0 then err (required key) else ok id

unfoldable pub load_node_config : Env → Result NodeConfig
load_node_config env = do
  parsed ← or_not_uint (env "NODE_ID") (parse_uint (env "NODE_ID"))
  id ← positive "NODE_ID" parsed
  address ← require env "NODE_ADDRESS"
  ok (record { id = id; address = address })

unfoldable pub load_server_config : Env → Result ServerConfig
load_server_config env = do port ← require env "GRPC_PORT"; ok (record { port = port })

unfoldable pub load_database_config : Env → Result DatabaseConfig
load_database_config env = do
  host ← require env "POSTGRES_HOST"
  port ← require env "POSTGRES_PORT"
  user ← require env "POSTGRES_USER"
  password ← require env "POSTGRES_PASSWORD"
  db_name ← require env "POSTGRES_DB"
  ssl_mode ← require env "POSTGRES_SSL_MODE"
  ok (record {
    dsn =
        codes "postgres://"
        ++ (user
            ++ (b':'
                ∷ (password
                    ++ (b'@'
                        ∷ (host
                            ++ (b':'
                                ∷ (port
                                    ++ (b'/' ∷ (db_name ++ (codes "?sslmode=" ++ ssl_mode))))))))));
  })

unfoldable pub load_storage_config : Env → Result StorageConfig
load_storage_config env = do
  endpoint ← require env "STORAGE_ENDPOINT"
  bucket ← require env "STORAGE_BUCKET"
  access_key ← require env "STORAGE_ACCESS_KEY"
  secret_key ← require env "STORAGE_SECRET_KEY"
  region ← require env "STORAGE_REGION"
  ok (record {
    endpoint = endpoint;
    bucket = bucket;
    access_key = access_key;
    secret_key = secret_key;
    region = region;
    use_ssl = text_eq (env "STORAGE_USE_SSL") (codes "true");
  })

module _ (parse_duration : Text → Option ℤ) where
  unfoldable pub get_duration_env : Env → String → ℤ → ℤ
  get_duration_env env key default_value = elim (env key) [
    | [] ↦ default_value
    | c ∷ s ↦ Option.get_or (parse_duration (c ∷ s)) default_value
  ]

  unfoldable pub load_memberlist_config : Env → Result MemberlistConfig
  unfolding get_env_or_default get_int_env get_duration_env parse_seeds
  load_memberlist_config env = do
    bind_addr ← require env "MEMBERLIST_BIND_ADDR"
    bind_port ← require env "MEMBERLIST_BIND_PORT"
    seeds ← require env "MEMBERLIST_SEEDS"
    port ← or_invalid "MEMBERLIST_BIND_PORT" (atoi bind_port)
    ok (record {
      bind_addr = bind_addr;
      bind_port = port;
      advertise_addr = get_env_or_default env "MEMBERLIST_ADVERTISE_ADDR" bind_addr;
      seeds = parse_seeds seeds;
      probe_interval = get_duration_env env "MEMBERLIST_PROBE_INTERVAL" (pos second);
      probe_timeout = get_duration_env env "MEMBERLIST_PROBE_TIMEOUT" (pos (500 * millisecond));
      gossip_interval = get_duration_env env "MEMBERLIST_GOSSIP_INTERVAL" (pos (200 * millisecond));
      push_pull_interval = get_duration_env env "MEMBERLIST_PUSH_PULL_INTERVAL" (pos (5 * second));
      suspicion_mult = get_int_env env "MEMBERLIST_SUSPICION_MULT" (pos 4);
    })

  unfoldable pub load_election_config : Env → ElectionConfig
  unfolding get_duration_env
  load_election_config env = record {
    election_timeout = get_duration_env env "ELECTION_TIMEOUT" (pos (5 * second));
    announce_retry_interval =
        get_duration_env env "ELECTION_ANNOUNCE_RETRY_INTERVAL" (pos (200 * millisecond));
    send_retry_interval =
        get_duration_env env "ELECTION_SEND_RETRY_INTERVAL" (pos (100 * millisecond));
  }

  unfoldable pub load_scheduler_config : Env → SchedulerConfig
  unfolding get_duration_env get_int_env get_env_or_default
  load_scheduler_config env = record {
    poll_interval = get_duration_env env "SCHEDULER_POLL_INTERVAL" (pos (5 * second));
    batch_size = get_int_env env "SCHEDULER_BATCH_SIZE" (pos 10);
    strategy = get_env_or_default env "SCHEDULER_STRATEGY" (codes "round_robin");
    lease_duration = get_duration_env env "SCHEDULER_LEASE_DURATION" (pos (180 * second));
  }

  unfoldable pub load_worker_config : Env → WorkerConfig
  unfolding get_duration_env
  load_worker_config env = record {
    rpc_timeout = get_duration_env env "WORKER_RPC_TIMEOUT" (pos (5 * second));
    lease_renewal_interval =
        get_duration_env env "WORKER_LEASE_RENEWAL_INTERVAL" (pos (30 * second));
  }

  -- `Load`, which gives up at the first error.
  unfoldable pub load : Env → Result Config
  unfolding load_log_config load_election_config load_health_config load_scheduler_config
      load_worker_config
  load env = do
    node ← load_node_config env
    server ← load_server_config env
    database ← load_database_config env
    storage ← load_storage_config env
    memberlist ← load_memberlist_config env
    ok (record {
      log = load_log_config env;
      node = node;
      server = server;
      database = database;
      storage = storage;
      memberlist = memberlist;
      election = load_election_config env;
      health = load_health_config env;
      scheduler = load_scheduler_config env;
      worker = load_worker_config env;
    })
