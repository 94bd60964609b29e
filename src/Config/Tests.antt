-- ===== src/Config/Tests.antt =====
-- An example: a production environment that sets what has no safe default.
use cubesync.Prelude.{ℕ, refl, String, false, none, some, List, [], ◌∷◌, if◌then◌else◌, str_eq}
use cubesync.Config.{
  Environment, trim_right_slashes, parsed_number, load_jwt_secret, duration_env, int_env, bool_env,
  csv_env, trusted_proxies_env, errs, read_config, check_config, load,
}
use cubesync.Config.Safe.{IsSafe, load-IsSafe}

abbrev value_of : String → String
value_of key =
    if str_eq key "APP_ENV"
    then "production"
    else if str_eq key "DATABASE_URL"
    then "postgres://db"
    else if str_eq key "JWT_SECRET"
    then "secret"
    else if str_eq key "LOG_ONE_TIME_LINKS"
    then "false"
    else ""

abbrev secret : List ℕ
secret =
    1 ∷ 2 ∷ 3 ∷ 4 ∷ 5 ∷ 6 ∷ 7 ∷ 8 ∷ 9 ∷ 10 ∷ 11 ∷ 12 ∷ 13 ∷ 14 ∷ 15 ∷ 16 ∷ 17 ∷ 18 ∷ 19 ∷ 20 ∷ 21
    ∷ 22 ∷ 23 ∷ 24 ∷ 25 ∷ 26 ∷ 27 ∷ 28 ∷ 29 ∷ 30 ∷ 31 ∷ 32 ∷ []

abbrev environment : Environment ℕ ℕ
environment = record {
  getenv = value_of;
  parse_duration = λ s. none;
  atoi = λ s. none;
  parse_bool = λ s. some false;
  decode_base64 = λ s. some secret;
  bytes = λ s. [];
  trim_space = λ s. s;
  parse_prefix = λ s. none;
  parse_addr = λ s. none;
  is6 = λ a. false;
  prefix_from = λ a n. a;
}

load-IsSafe_example : IsSafe environment (read_config environment)
unfolding load errs read_config check_config duration_env int_env bool_env csv_env
    trusted_proxies_env load_jwt_secret parsed_number trim_right_slashes
load-IsSafe_example = load-IsSafe environment (read_config environment) refl
