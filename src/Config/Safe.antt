-- ===== src/Config/Safe.antt =====
-- What holds of every configuration that is loaded.
use mathlib.Core.Path.{subst}
use cubesync.Prelude.{
  ℕ, ◌*◌, ◌≤◌, ◌<◌, ◌≡◌, ◌≢◌, refl, sym, ap, ◌∙◌, String, Bool, true, false, not, ◌&&◌, ◌||◌,
  Option, none, some, List, [], ◌∷◌, ◌++◌, if◌then◌else◌, length, str_eq, eq_iff, ℤ, pos, ltb_ℤ,
  eqb_ℤ, arith,
}
use cubesync.Config.{
  Environment, Config, EnvError, not_positive, loaded, minute, hour, second, development_jwt_secret,
  eqb_bytes, parsed_number, duration_env, int_env, errs, read_config, check_config, without_errors,
  load,
}

append_empty : {A : Type 0} (xs ys : List A) → xs ++ ys ≡ [] → (xs ≡ []) × (ys ≡ [])
append_empty [] ys e = (refl, e)
append_empty (x ∷ xs) ys e = absurd (cc e)

-- At least 0, and not 0 unless that is allowed.
abbrev pub InRange : Bool → ℤ → Type 0
InRange allow_zero v = (ltb_ℤ v (pos 0) ≡ false) × (allow_zero ≡ false → ltb_ℤ (pos 0) v ≡ true)

abbrev either : Bool → ℤ × List EnvError → ℤ × List EnvError → ℤ × List EnvError
either b x y = if b then x else y

parsed_number-InRange :
    (key : String) (allow_zero : Bool) (o : Option ℤ)
    → (parsed_number key allow_zero o).1 ≡ []
    → InRange allow_zero (parsed_number key allow_zero o).0
unfolding parsed_number
parsed_number-InRange key allow_zero none e = absurd (cc e)
parsed_number-InRange key allow_zero (some n) e =
    tested (ltb_ℤ n (pos 0) || eqb_ℤ n (pos 0) && not allow_zero) refl e
  where
    tested :
        (b : Bool)
        → (ltb_ℤ n (pos 0) || eqb_ℤ n (pos 0) && not allow_zero) ≡ b
        → (either b (n, not_positive key ∷ []) (n, [])).1 ≡ []
        → InRange allow_zero (either b (n, not_positive key ∷ []) (n, [])).0
    tested true t e' = absurd (cc e')
    tested false t e' = (ground (arith, t), λ strict. ground (arith, t, strict))

-- What a call reads is in range, where it appends no error.
read-InRange :
    (key : String) (given : Bool) (fallback : ℕ) (allow_zero : Bool) (o : Option ℤ)
    → 0 < fallback
    → (either given (pos fallback, []) (parsed_number key allow_zero o)).1 ≡ []
    → InRange allow_zero (either given (pos fallback, []) (parsed_number key allow_zero o)).0
read-InRange key true fallback allow_zero o positive e =
    (ground (arith, positive), λ strict. ground (arith, positive))
read-InRange key false fallback allow_zero o positive e = parsed_number-InRange key allow_zero o e

module _ {Prefix Addr : Type 0} (env : Environment Prefix Addr) where
  duration_env-InRange :
      (key : String) (fallback : ℕ) (allow_zero : Bool)
      → 0 < fallback
      → (duration_env env key fallback allow_zero).1 ≡ []
      → InRange allow_zero (duration_env env key fallback allow_zero).0
  unfolding duration_env
  duration_env-InRange key fallback allow_zero positive e =
      read-InRange key (str_eq (env.getenv key) "") fallback allow_zero
        (env.parse_duration (env.getenv key)) positive e

  int_env-InRange :
      (key : String) (fallback : ℕ) (allow_zero : Bool)
      → 0 < fallback
      → (int_env env key fallback allow_zero).1 ≡ []
      → InRange allow_zero (int_env env key fallback allow_zero).0
  unfolding int_env
  int_env-InRange key fallback allow_zero positive e =
      read-InRange key (str_eq (env.getenv key) "") fallback allow_zero (env.atoi (env.getenv key))
        positive e

  -- What the server relies on of its configuration.
  pub record IsSafe (cfg : Config Prefix) : Type 0 where
    pub database : cfg.database_url ≢ ""
    pub token_lifetimes : InRange false cfg.access_token_ttl × InRange false cfg.refresh_token_ttl
    pub port : InRange false cfg.smtp_port
    pub limits :
        InRange false cfg.max_sync_mutations
        × InRange false cfg.max_sync_changes
        × InRange true cfg.max_sync_response_bytes
    pub window : InRange true cfg.inactive_device_window
    pub timers :
        InRange false cfg.retention_run_interval
        × InRange false cfg.readiness_timeout
        × InRange false cfg.shutdown_grace_period
    pub production :
        cfg.environment ≡ "production"
        → (env.getenv "JWT_SECRET" ≢ "")
          × (eqb_bytes cfg.jwt_secret (env.bytes development_jwt_secret) ≡ false)
          × (32 ≤ length cfg.jwt_secret)
          × (cfg.log_one_time_links ≡ false)

  loaded_inj : {a b : Config Prefix} → loaded a ≡ loaded b → a ≡ b
  loaded_inj e = cc e

  -- The tests that a loaded configuration has passed.
  check_config_lem :
      (read cfg : Config Prefix)
      → check_config env read ≡ loaded cfg
      → (cfg ≡ read)
        × (cfg.database_url ≢ "")
        × (cfg.environment ≡ "production"
            → (env.getenv "JWT_SECRET" ≢ "")
              × (eqb_bytes cfg.jwt_secret (env.bytes development_jwt_secret) ≡ false)
              × (32 ≤ length cfg.jwt_secret)
              × (cfg.log_one_time_links ≡ false))
  unfolding check_config
  check_config_lem read cfg e = ground (
    arith,
    e,
    eq_iff read.database_url "",
    eq_iff read.environment "production",
    eq_iff (env.getenv "JWT_SECRET") "",
  )

  no_errors :
      (es : List EnvError) (cfg : Config Prefix)
      → without_errors env es ≡ loaded cfg
      → (es ≡ []) × (check_config env (read_config env) ≡ loaded cfg)
  no_errors [] cfg e = (refl, e)
  no_errors (x ∷ es) cfg e = absurd (cc e)

  read-IsSafe :
      errs env ≡ []
      → check_config env (read_config env) ≡ loaded (read_config env)
      → IsSafe (read_config env)
  unfolding errs read_config
  read-IsSafe none_wrong e =
      let (a, rest) = append_empty _ _ none_wrong in
      let (b, rest) = append_empty _ _ rest in
      let (c, rest) = append_empty _ _ rest in
      let (d, rest) = append_empty _ _ rest in
      let (f, rest) = append_empty _ _ rest in
      let (g, rest) = append_empty _ _ rest in
      let (h, rest) = append_empty _ _ rest in
      let (i, rest) = append_empty _ _ rest in
      let (j, rest) = append_empty _ _ rest in
      let (k, rest) = append_empty _ _ rest in
      let tests = check_config_lem (read_config env) (read_config env) e in
      record {
        database = tests.1;
        token_lifetimes = (
          duration_env-InRange "ACCESS_TOKEN_TTL" (15 * minute) false (omega arith) a,
          duration_env-InRange "REFRESH_TOKEN_TTL" (30 * (24 * hour)) false (omega arith) b,
        );
        port = int_env-InRange "SMTP_PORT" 587 false (omega arith) c;
        limits = (
          int_env-InRange "MAX_SYNC_MUTATIONS" 500 false (omega arith) d,
          int_env-InRange "MAX_SYNC_CHANGES" 1000 false (omega arith) f,
          int_env-InRange "MAX_SYNC_RESPONSE_BYTES" (512 * 1024) true (omega arith) g,
        );
        window =
            duration_env-InRange "INACTIVE_DEVICE_WINDOW" (90 * (24 * hour)) true (omega arith) h;
        timers = (
          duration_env-InRange "RETENTION_RUN_INTERVAL" hour false (omega arith) i,
          duration_env-InRange "READINESS_TIMEOUT" (2 * second) false (omega arith) j,
          duration_env-InRange "SHUTDOWN_GRACE_PERIOD" (10 * second) false (omega arith) k,
        );
        production = tests.2;
      }

  -- A configuration that Load returns names a database; its lifetimes, port, limits on mutations and
  -- changes and timers are positive, its limit on bytes and its window are not negative; and in
  -- production JWT_SECRET is set, the secret is not the development default and has at least 32
  -- bytes, and one-time links are not logged.
  pub load-IsSafe : (cfg : Config Prefix) → load env ≡ loaded cfg → IsSafe cfg
  unfolding load
  load-IsSafe cfg e =
      let (clean, checked) = no_errors (errs env) cfg e in
      let same = (check_config_lem (read_config env) cfg checked).0 in
      subst IsSafe (sym same) (read-IsSafe clean (checked ∙ ap loaded same))
