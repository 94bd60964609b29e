-- ===== src/Accounts/Provider.antt =====
-- internal/auth/federated.go: the check of a provider's identity token. The exchange of a code
-- (oauth2) and the signature of a token (go-oidc) are calls of other packages.
pub mod Sound
use cubesync.Prelude.{
  String, Bool, true, false, not, ◌||◌, ◌&&◌, Option, none, some, List, [], ◌∷◌, if◌then◌else◌, any,
  str_eq,
}
use cubesync.Store.{auth_error, failed, Result, ok, err}
use cubesync.Accounts.Types.{Libraries}

pub record FederatedInput : Type 0 where
  pub id_token : String
  pub code : String
  pub client_id : String
  pub redirect_uri : String
  pub code_verifier : String
  pub nonce : String

pub record FederatedIdentity : Type 0 where
  pub provider : String
  pub subject : String
  pub email : String
  pub email_verified : Bool

-- The JSON text of the claim email_verified.
pub data RawClaim : Type 0 where
  json_bool : Bool → RawClaim
  json_text : String → RawClaim
  json_other : RawClaim

pub record IdClaims : Type 0 where
  pub subject : String
  pub email : String
  pub email_verified : RawClaim
  pub nonce : String
  pub audience : List String

-- The configured client ids; the identity token for a code, empty where the answer has none; the
-- claims of an identity token. `none` is an error, the inner one that of token.Claims.
pub record Oidc : Type 0 where
  pub google_client_ids : List String
  pub exchange : FederatedInput → Option String
  pub verify_token : String → Option (Option IdClaims)

unfoldable pub parse_boolean_claim : RawClaim → Bool
parse_boolean_claim (json_bool b) = b
parse_boolean_claim (json_text t) = str_eq t "true"
parse_boolean_claim json_other = false

abbrev pub contains : List String → String → Bool
contains xs x = any (λ y. str_eq y x) xs

module _ (libs : Libraries) (oidc : Oidc) where
  unfoldable pub allowed_client_ids : String → List String
  allowed_client_ids provider = if str_eq provider "google" then oidc.google_client_ids else []

  abbrev pub exchanged : Option String → Result String
  exchanged none = err (auth_error "invalid_social_code" "authorization code exchange failed")
  exchanged (some raw) = ok raw

  unfoldable pub exchange_code : String → FederatedInput → Result String
  exchange_code provider input =
      if str_eq input.code "" || (str_eq input.redirect_uri "" || str_eq input.code_verifier "")
      then err
          (auth_error "invalid_social_code" "code, redirect_uri, and code_verifier are required")
      else if str_eq provider "google"
      then exchanged (oidc.exchange input)
      else err (auth_error "unsupported_provider" "provider must be google")

  unfoldable pub check_claims : String → FederatedInput → IdClaims → Result FederatedIdentity
  unfolding parse_boolean_claim
  check_claims provider input claims =
      if not (contains claims.audience input.client_id) || not (str_eq claims.nonce input.nonce)
      then err (auth_error "invalid_social_token" "identity token audience or nonce is invalid")
      else if str_eq claims.subject ""
          || (str_eq claims.email "" || not (parse_boolean_claim claims.email_verified))
      then err (auth_error "invalid_social_token" "provider must supply a verified email")
      else ok record {
        provider = provider;
        subject = claims.subject;
        email = libs.to_lower (libs.trim_space claims.email);
        email_verified = true;
      }

  unfoldable pub check_verified :
      String → FederatedInput → Option (Option IdClaims) → Result FederatedIdentity
  unfolding check_claims
  check_verified provider input none = err failed
  check_verified provider input (some none) =
      err (auth_error "invalid_social_token" "identity claims are invalid")
  check_verified provider input (some (some claims)) = check_claims provider input claims

  unfoldable pub verify_raw : String → FederatedInput → Result String → Result FederatedIdentity
  unfolding check_verified
  verify_raw provider input (err e) = err e
  verify_raw provider input (ok raw) =
      if str_eq raw ""
      then err (auth_error "invalid_social_token" "id_token or code is required")
      else if str_eq provider "google"
      then check_verified provider input (oidc.verify_token raw)
      else err (auth_error "unsupported_provider" "provider must be google")

  unfoldable pub verify : String → FederatedInput → Result FederatedIdentity
  unfolding allowed_client_ids verify_raw exchange_code
  verify provider input =
      if str_eq input.nonce ""
      then err (auth_error "invalid_social_token" "nonce is required")
      else if str_eq input.client_id ""
          || not (contains (allowed_client_ids provider) input.client_id)
      then err (auth_error "invalid_social_token" "client_id is not allowed")
      else verify_raw provider input
          (if str_eq input.id_token "" then exchange_code provider input else ok input.id_token)
