-- ===== src/Config.antt =====
-- internal/config/config.go: Load, which reads the configuration from the environment.
pub mod Safe
mod Tests
use Prim.Native.Char.{code}
use cubesync.Prelude.{
  ℕ, ◌+◌, ◌*◌, String, Bool, true, false, not, ◌&&◌, ◌||◌, Option, none, some, List, [], ◌∷◌, ◌++◌,
  ltb, ◌==◌, if◌then◌else◌, length, str_eq, ℤ, pos, ltb_ℤ, eqb_ℤ,
}
use cubesync.ClientIp.{split_commas}

-- os.Getenv, and the calls of time, strconv, encoding/base64, strings and net/netip; the bytes of a
-- text. An address comes with whether it is of IPv6.
pub record Environment (Prefix Addr : Type 0) : Type 0 where
  pub getenv : String → String
  pub parse_duration : String → Option ℤ
  pub atoi : String → Option ℤ
  pub parse_bool : String → Option Bool
  pub decode_base64 : String → Option (List ℕ)
  pub bytes : String → List ℕ
  pub trim_space : String → String
  pub parse_prefix : String → Option Prefix
  pub parse_addr : String → Option Addr
  pub is6 : Addr → Bool
  pub prefix_from : Addr → ℕ → Prefix

pub record Config (Prefix : Type 0) : Type 0 where
  pub environment : String
  pub http_address : String
  pub database_url : String
  pub public_url : String
  pub client_url : String
  pub jwt_secret : List ℕ
  pub access_token_ttl : ℤ
  pub refresh_token_ttl : ℤ
  pub allowed_origins : List String
  pub google_client_ids : List String
  pub google_client_secret : String
  pub smtp_host : String
  pub smtp_port : ℤ
  pub smtp_username : String
  pub smtp_password : String
  pub smtp_from : String
  pub smtp_starttls : Bool
  pub log_one_time_links : Bool
  pub max_sync_mutations : ℤ
  pub max_sync_changes : ℤ
  pub max_sync_response_bytes : ℤ
  pub inactive_device_window : ℤ
  pub retention_run_interval : ℤ
  pub enable_compression : Bool
  pub readiness_timeout : ℤ
  pub shutdown_grace_period : ℤ
  pub trusted_proxies : List Prefix

-- What is wrong with the value of a key.
pub data EnvError : Type 0 where
  invalid not_positive : String → EnvError

pub data Loaded (Prefix : Type 0) : Type 0 where
  loaded : Config Prefix → Loaded Prefix
  env_errors : List EnvError → Loaded Prefix
  message : String → Loaded Prefix

-- Nanoseconds
abbrev pub second : ℕ
second = 1000000000

abbrev pub minute : ℕ
minute = 60 * second

abbrev pub hour : ℕ
hour = 60 * minute

abbrev pub development_jwt_secret : String
development_jwt_secret = "development-only-secret-change-me"

-- strings.TrimRight(s, "/")
unfoldable pub trim_right_slashes : String → String
trim_right_slashes String.[] = ""
trim_right_slashes (String.◌∷◌ c s) =
    let rest = trim_right_slashes s in
    if str_eq rest "" && code c == 47 then "" else String.◌∷◌ c rest

abbrev pub eqb_bytes : List ℕ → List ℕ → Bool
eqb_bytes [] [] = true
eqb_bytes [] (b ∷ bs) = false
eqb_bytes (a ∷ xs) [] = false
eqb_bytes (a ∷ xs) (b ∷ bs) = a == b && eqb_bytes xs bs

-- A number that durationEnv or intEnv read; 0 where it cannot be read.
unfoldable pub parsed_number : String → Bool → Option ℤ → ℤ × List EnvError
parsed_number key allow_zero none = (pos 0, invalid key ∷ [])
parsed_number key allow_zero (some n) =
    if ltb_ℤ n (pos 0) || eqb_ℤ n (pos 0) && not allow_zero
    then (n, not_positive key ∷ [])
    else (n, [])

module _ {Prefix Addr : Type 0} (env : Environment Prefix Addr) where
  -- os.Getenv, or the fallback
  abbrev pub env_or : String → String → String
  env_or key fallback = if str_eq (env.getenv key) "" then fallback else env.getenv key

  abbrev pub decoded_or : String → Option (List ℕ) → List ℕ
  decoded_or value none = env.bytes value
  decoded_or value (some bytes) = bytes

  unfoldable pub load_jwt_secret : String → List ℕ
  load_jwt_secret value =
      if str_eq value ""
      then env.bytes development_jwt_secret
      else decoded_or value (env.decode_base64 value)

  -- What each call appends to the errors stands beside its value.
  unfoldable pub duration_env : String → ℕ → Bool → ℤ × List EnvError
  unfolding parsed_number
  duration_env key fallback allow_zero =
      if str_eq (env.getenv key) ""
      then (pos fallback, [])
      else parsed_number key allow_zero (env.parse_duration (env.getenv key))

  unfoldable pub int_env : String → ℕ → Bool → ℤ × List EnvError
  unfolding parsed_number
  int_env key fallback allow_zero =
      if str_eq (env.getenv key) ""
      then (pos fallback, [])
      else parsed_number key allow_zero (env.atoi (env.getenv key))

  abbrev pub or_fallback : Bool → Option Bool → Bool
  or_fallback fallback none = fallback
  or_fallback fallback (some b) = b

  unfoldable pub bool_env : String → Bool → Bool
  bool_env key fallback =
      if str_eq (env.getenv key) ""
      then fallback
      else or_fallback fallback (env.parse_bool (env.getenv key))

  abbrev pub trimmed_parts : List String → List String
  trimmed_parts [] = []
  trimmed_parts (p ∷ ps) =
      let rest = trimmed_parts ps in
      if str_eq (env.trim_space p) "" then rest else env.trim_space p ∷ rest

  unfoldable pub csv_env : String → List String
  csv_env key =
      let raw = env.trim_space (env.getenv key) in
      if str_eq raw "" then [] else trimmed_parts (split_commas raw)

  abbrev pub prefix_of_addr : Option Addr → Option Prefix
  prefix_of_addr none = none
  prefix_of_addr (some addr) = some (env.prefix_from addr (if env.is6 addr then 128 else 32))

  abbrev pub prefix_or_addr : String → Option Prefix → Option Prefix
  prefix_or_addr part none = prefix_of_addr (env.parse_addr part)
  prefix_or_addr part (some prefix) = some prefix

  abbrev pub prepend_prefix : Option Prefix → Option (List Prefix) → Option (List Prefix)
  prepend_prefix none rest = none
  prepend_prefix (some p) none = none
  prepend_prefix (some p) (some ps) = some (p ∷ ps)

  -- `none` is the error of the first part that is neither a prefix nor an address.
  unfoldable pub parse_prefixes : List String → Option (List Prefix)
  parse_prefixes [] = some []
  parse_prefixes (part ∷ parts) =
      prepend_prefix (prefix_or_addr part (env.parse_prefix part)) (parse_prefixes parts)

  abbrev pub proxies_result : String → Option (List Prefix) → List Prefix × List EnvError
  proxies_result key none = ([], invalid key ∷ [])
  proxies_result key (some prefixes) = (prefixes, [])

  unfoldable pub trusted_proxies_env : String → List Prefix × List EnvError
  unfolding parse_prefixes
  trusted_proxies_env key =
      let value = env.trim_space (env.getenv key) in
      if str_eq value ""
      then ([], [])
      else proxies_result key (parse_prefixes (trimmed_parts (split_commas value)))

  abbrev pub access_ttl : ℤ × List EnvError
  access_ttl = duration_env "ACCESS_TOKEN_TTL" (15 * minute) false

  abbrev pub refresh_ttl : ℤ × List EnvError
  refresh_ttl = duration_env "REFRESH_TOKEN_TTL" (30 * (24 * hour)) false

  abbrev pub port : ℤ × List EnvError
  port = int_env "SMTP_PORT" 587 false

  abbrev pub max_mutations : ℤ × List EnvError
  max_mutations = int_env "MAX_SYNC_MUTATIONS" 500 false

  abbrev pub max_changes : ℤ × List EnvError
  max_changes = int_env "MAX_SYNC_CHANGES" 1000 false

  abbrev pub max_bytes : ℤ × List EnvError
  max_bytes = int_env "MAX_SYNC_RESPONSE_BYTES" (512 * 1024) true

  abbrev pub device_window : ℤ × List EnvError
  device_window = duration_env "INACTIVE_DEVICE_WINDOW" (90 * (24 * hour)) true

  abbrev pub run_interval : ℤ × List EnvError
  run_interval = duration_env "RETENTION_RUN_INTERVAL" hour false

  abbrev pub readiness : ℤ × List EnvError
  readiness = duration_env "READINESS_TIMEOUT" (2 * second) false

  abbrev pub grace_period : ℤ × List EnvError
  grace_period = duration_env "SHUTDOWN_GRACE_PERIOD" (10 * second) false

  abbrev pub proxies : List Prefix × List EnvError
  proxies = trusted_proxies_env "TRUSTED_PROXIES"

  -- `errs`, in the order of the calls
  unfoldable pub errs : List EnvError
  unfolding duration_env int_env trusted_proxies_env
  errs =
      access_ttl.1
      ++ (refresh_ttl.1
          ++ (port.1
              ++ (max_mutations.1
                  ++ (max_changes.1
                      ++ (max_bytes.1
                          ++ (device_window.1
                              ++ (run_interval.1
                                  ++ (readiness.1 ++ (grace_period.1 ++ proxies.1)))))))))

  unfoldable pub read_config : Config Prefix
  unfolding load_jwt_secret duration_env int_env bool_env csv_env trusted_proxies_env
      trim_right_slashes
  read_config = record {
    environment = env_or "APP_ENV" "development";
    http_address = env_or "HTTP_ADDRESS" ":43781";
    database_url = env.getenv "DATABASE_URL";
    public_url = trim_right_slashes (env_or "PUBLIC_URL" "http://127.0.0.1:43781");
    client_url = trim_right_slashes (env_or "CLIENT_URL" "cubetimer://auth");
    jwt_secret = load_jwt_secret (env.getenv "JWT_SECRET");
    access_token_ttl = access_ttl.0;
    refresh_token_ttl = refresh_ttl.0;
    allowed_origins = csv_env "ALLOWED_ORIGINS";
    google_client_ids = csv_env "GOOGLE_CLIENT_IDS";
    google_client_secret = env.getenv "GOOGLE_CLIENT_SECRET";
    smtp_host = env.getenv "SMTP_HOST";
    smtp_port = port.0;
    smtp_username = env.getenv "SMTP_USERNAME";
    smtp_password = env.getenv "SMTP_PASSWORD";
    smtp_from = env_or "SMTP_FROM" "CubeTimer <noreply@localhost>";
    smtp_starttls = bool_env "SMTP_STARTTLS" true;
    log_one_time_links = bool_env "LOG_ONE_TIME_LINKS" true;
    max_sync_mutations = max_mutations.0;
    max_sync_changes = max_changes.0;
    max_sync_response_bytes = max_bytes.0;
    inactive_device_window = device_window.0;
    retention_run_interval = run_interval.0;
    enable_compression = bool_env "ENABLE_COMPRESSION" true;
    readiness_timeout = readiness.0;
    shutdown_grace_period = grace_period.0;
    trusted_proxies = proxies.0;
  }

  -- The tests after the configuration is read.
  unfoldable pub check_config : Config Prefix → Loaded Prefix
  check_config cfg =
      if str_eq cfg.database_url ""
      then message "DATABASE_URL is required"
      else if not (str_eq cfg.environment "production")
      then loaded cfg
      else if str_eq (env.getenv "JWT_SECRET") ""
      then message
          "JWT_SECRET must be set to a random value in production (openssl rand -base64 48)"
      else if eqb_bytes cfg.jwt_secret (env.bytes development_jwt_secret)
      then message
          "JWT_SECRET must not use the development default in production (openssl rand -base64 48)"
      else if ltb (length cfg.jwt_secret) 32
      then message "JWT_SECRET must decode to at least 32 bytes in production"
      else if cfg.log_one_time_links
      then message "LOG_ONE_TIME_LINKS must be false in production"
      else loaded cfg

  abbrev pub without_errors : List EnvError → Loaded Prefix
  without_errors [] = check_config read_config
  without_errors (e ∷ es) = env_errors (e ∷ es)

  unfoldable pub load : Loaded Prefix
  unfolding errs read_config check_config
  load = without_errors errs
