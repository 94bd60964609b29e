-- ===== src/Accounts/Types.antt =====
-- internal/auth/service.go: the types, and the calls of other packages.
use cubesync.Prelude.{ℕ, ◌*◌, String, Bool, Option, List, if◌then◌else◌, str_eq, is_some}
use cubesync.Store.{User, Error, auth_error}

-- `User` of the service, which clients see.
pub record Profile : Type 0 where
  pub id : ℕ
  pub email : String
  pub email_verified : Bool
  pub user_role : String

pub record AuthSession : Type 0 where
  pub access_token : String
  pub refresh_token : String
  pub token_type : String
  pub expires_in : ℕ
  pub user : Profile

-- The clock of the server process, which is not that of the database, and the configuration.
pub record AuthService : Type 0 where
  pub now : ℕ
  pub secret : String
  pub issuer : String
  pub access_token_ttl : ℕ
  pub refresh_token_ttl : ℕ

pub record AccessClaims : Type 0 where
  pub email_verified : Bool
  pub user_role : String
  pub issuer : String
  pub subject : String
  pub audience : String
  pub expires_at : ℕ
  pub issued_at : ℕ
  pub not_before : ℕ
  pub id : String

-- The calls of other packages: SHA-256 of a text, strings.ToLower and TrimSpace, mail.ParseAddress,
-- the text of a uuid and its parse, the time that jwt.NewNumericDate keeps, the signature of claims
-- (`none` is an error), and the parse of a token under a secret, an issuer and an audience at a time.
pub record Libraries : Type 0 where
  pub token_hash : String → ℕ
  pub to_lower : String → String
  pub trim_space : String → String
  pub parse_address : String → Option String
  pub uuid_text : ℕ → String
  pub parse_uuid : String → Option ℕ
  pub numeric_date : ℕ → ℕ
  pub sign : String → AccessClaims → Option String
  pub parse_claims : String → String → String → ℕ → String → Option AccessClaims
  -- argon2.IDKey and base64, of bytes, and fmt.Sscanf of the parameters
  pub derive_key : String → List ℕ → ℕ → ℕ → ℕ → ℕ → List ℕ
  pub encode_base64 : List ℕ → String
  pub decode_base64 : String → Option (List ℕ)
  pub scan_parameters : String → Option (ℕ × ℕ × ℕ)

-- What a call meets outside: the values of uuid.New, those of rand.Read (`none` is an error), and
-- whether mail is delivered.
pub record Outside : Type 0 where
  pub user_id : ℕ
  pub token_id : ℕ
  pub family_id : ℕ
  pub refresh_id : ℕ
  pub identity_id : ℕ
  pub claims_id : ℕ
  pub salt : Option (List ℕ)
  pub raw_token : Option String
  pub refresh_token : Option String
  pub delivers : Bool

abbrev pub role_user : String
role_user = "user"

-- 24 hours, one hour and 30 seconds, in nanoseconds
abbrev pub verification_token_ttl : ℕ
verification_token_ttl = 24 * 3600 * 1000000000

abbrev pub password_reset_ttl : ℕ
password_reset_ttl = 3600 * 1000000000

abbrev pub refresh_reuse_grace : ℕ
refresh_reuse_grace = 30 * 1000000000

abbrev pub or_user : String → String
or_user role = if str_eq role "" then role_user else role

unfoldable pub user_from_db : User → Profile
user_from_db row = record {
  id = row.id;
  email = row.email;
  email_verified = is_some row.email_verified_at;
  user_role = or_user row.user_role;
}

abbrev pub invalid_credentials : Error
invalid_credentials = auth_error "invalid_credentials" "email or password is incorrect"

abbrev pub invalid_refresh_token : Error
invalid_refresh_token = auth_error "invalid_refresh_token" "refresh token is invalid or expired"

abbrev pub invalid_token : Error
invalid_token = auth_error "invalid_token" "token is invalid or expired"
