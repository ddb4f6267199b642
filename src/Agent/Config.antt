-- ===== src/Agent/Config.antt =====
-- internal/agent/config.go: the defaults, the checks and the loading of the agent's configuration. The
-- JSON decoder, the URLs, the addresses and the paths of Go's library are parameters.
use dayz_behaviour.Prelude.{
  Bool, ◌&&◌, ◌||◌, not, Option, none, some, String, if◌then◌else◌, ◌⊎◌, inl, inr,
}
use dayz_behaviour.Prelude.Int.{ℤ, pos, ltb_ℤ, ◌*ℤ◌}
use dayz_behaviour.Prelude.Words.{wrap64}
use dayz_behaviour.Prelude.Text.{str_eq, is_blank, trim, ◌<>◌}
use dayz_behaviour.Agent.Outbox.Scan.{has_suffix}
use dayz_behaviour.Schema.{◌orelse◌}

pub record AgentConfig : Type 0 where
  pub listen_addr : String
  pub server_id : String
  pub local_ingest_token : String
  pub upstream_url : String
  pub upstream_bearer_token : String
  pub data_dir : String
  pub dayz_spool_dir : String
  pub max_queue_bytes : ℤ
  pub max_queue_batches : ℤ
  pub upload_interval_seconds : ℤ
  pub request_timeout_seconds : ℤ
  pub minimum_retry_seconds : ℤ
  pub maximum_retry_seconds : ℤ

abbrev pub default_agent_config : AgentConfig
default_agent_config = record {
  listen_addr = "127.0.0.1:8080";
  server_id = "";
  local_ingest_token = "";
  upstream_url = "";
  upstream_bearer_token = "";
  data_dir = "./data";
  dayz_spool_dir = "";
  max_queue_bytes = pos 5368709120;
  max_queue_batches = pos 250000;
  upload_interval_seconds = pos 1;
  request_timeout_seconds = pos 15;
  minimum_retry_seconds = pos 1;
  maximum_retry_seconds = pos 300;
}

pub data ConfigError : Type 0 where
  server_id_required local_token_required bearer_token_required data_dir_required : ConfigError
  address_invalid address_not_loopback : ConfigError
  upstream_not_absolute upstream_has_credentials upstream_not_https : ConfigError
  queue_bytes_not_positive queue_batches_not_positive times_not_positive retry_bounds_invalid :
      ConfigError
  read_config decode_config resolve_data_dir resolve_spool_dir : ConfigError

-- the parts of a url.URL that Validate reads; `host` has the port, `host_name` has not
pub record Upstream : Type 0 where
  pub scheme : String
  pub host : String
  pub host_name : String
  pub has_user : Bool
  pub raw_query : String
  pub fragment : String

-- url.Parse, the host of net.SplitHostPort, strings.EqualFold, and an address that net.ParseIP reads
-- and that IsLoopback; `decode` is the strict decoder into a default configuration, with nothing behind
pub record ConfigLib : Type 0 where
  pub parse_url : String → Option Upstream
  pub split_host : String → Option String
  pub equal_fold : String → String → Bool
  pub is_loopback_ip : String → Bool
  pub trim_slashes : String → String
  pub decode : AgentConfig → String → Option AgentConfig
  pub absolute : String → String → Option String

abbrev fails : Bool → ConfigError → Option ConfigError
fails bad why = if bad then some why else none

abbrev not_positive : ℤ → Bool
not_positive n = not (ltb_ℤ (pos 0) n)

-- time.Duration(seconds) * time.Second, in nanoseconds
abbrev nanoseconds : ℤ → ℤ
nanoseconds n = wrap64 (n *ℤ pos 1000000000)

pub upload_interval : AgentConfig → ℤ
upload_interval c = nanoseconds c.upload_interval_seconds

pub request_timeout : AgentConfig → ℤ
request_timeout c = nanoseconds c.request_timeout_seconds

pub minimum_retry_of : AgentConfig → ℤ
minimum_retry_of c = nanoseconds c.minimum_retry_seconds

pub maximum_retry_of : AgentConfig → ℤ
maximum_retry_of c = nanoseconds c.maximum_retry_seconds

-- the two variables of the environment; an empty one is as none
pub apply_secret_environment : String → String → AgentConfig → AgentConfig
apply_secret_environment local_token upstream_token c = record c {
  local_ingest_token = if not (str_eq local_token "") then local_token else c.local_ingest_token;
  upstream_bearer_token =
      if not (str_eq upstream_token "") then upstream_token else c.upstream_bearer_token;
}

module _ (lib : ConfigLib) where
  pub is_loopback_host : String → Bool
  is_loopback_host host = lib.equal_fold (trim host) "localhost" || lib.is_loopback_ip host

  validate_loopback_address : String → Option ConfigError
  unfolding is_loopback_host
  validate_loopback_address address = elim (lib.split_host address) [
    | none ↦ some address_invalid
    | some host ↦ fails (not (is_loopback_host host)) address_not_loopback
  ]

  validate_upstream : Option Upstream → Option ConfigError
  unfolding is_loopback_host
  validate_upstream none = some upstream_not_absolute
  validate_upstream (some u) =
      fails (str_eq u.host "") upstream_not_absolute
      orelse fails (u.has_user || not (str_eq u.raw_query "" && str_eq u.fragment ""))
          upstream_has_credentials
      orelse fails
          (not (str_eq u.scheme "https")
            && not (str_eq u.scheme "http" && is_loopback_host u.host_name))
          upstream_not_https

  pub validate_config : AgentConfig → Option ConfigError
  unfolding validate_loopback_address validate_upstream
  validate_config c =
      fails (is_blank c.server_id) server_id_required
      orelse fails (is_blank c.local_ingest_token) local_token_required
      orelse fails (is_blank c.upstream_bearer_token) bearer_token_required
      orelse fails (is_blank c.data_dir) data_dir_required
      orelse validate_loopback_address c.listen_addr
      orelse validate_upstream (lib.parse_url c.upstream_url)
      orelse fails (not_positive c.max_queue_bytes) queue_bytes_not_positive
      orelse fails (not_positive c.max_queue_batches) queue_batches_not_positive
      orelse fails
          (not_positive c.upload_interval_seconds || not_positive c.request_timeout_seconds)
          times_not_positive
      orelse fails
          (not_positive c.minimum_retry_seconds
            || ltb_ℤ c.maximum_retry_seconds c.minimum_retry_seconds)
          retry_bounds_invalid

  pub upstream_endpoint : AgentConfig → String
  upstream_endpoint c =
      let base = lib.trim_slashes c.upstream_url in
      if has_suffix base "/v1/telemetry/batches" then base else base <> "/v1/telemetry/batches"

  -- `absolute base path` is filepath.Abs of the path, below the base where it is relative
  resolve_paths : String → AgentConfig → AgentConfig ⊎ ConfigError
  resolve_paths base c = elim (lib.absolute base c.data_dir) [
    | none ↦ inr resolve_data_dir
    | some dir ↦
        let d = record c { data_dir = dir } in
        if is_blank c.dayz_spool_dir then inl d else elim (lib.absolute base c.dayz_spool_dir) [
          | none ↦ inr resolve_spool_dir
          | some spool ↦ inl (record d { dayz_spool_dir = spool })
        ]
  ]

  validated : AgentConfig ⊎ ConfigError → AgentConfig ⊎ ConfigError
  unfolding validate_config
  validated (inr e) = inr e
  validated (inl c) = elim (validate_config c) [ some e ↦ inr e | none ↦ inl c ]

  -- LoadConfig of a file in the directory `base`, with the two secrets of the environment
  pub load_config : Option String → String → String → String → AgentConfig ⊎ ConfigError
  unfolding apply_secret_environment resolve_paths validated
  load_config none base local_token upstream_token = inr read_config
  load_config (some content) base local_token upstream_token =
      elim (lib.decode default_agent_config content) [
        | none ↦ inr decode_config
        | some c ↦
            validated (resolve_paths base (apply_secret_environment local_token upstream_token c))
      ]
