-- ===== src/Accounts/AccessTokens.antt =====
-- internal/auth/tokens.go: IssueAccessToken and ParseAccessToken.
pub mod Roundtrip
use cubesync.Prelude.{ℕ, ◌+◌, ◌-◌, ◌*◌, String, Bool, Option, none, some}
use cubesync.Accounts.Types.{AuthService, Libraries, AccessClaims, or_user}

abbrev pub client_audience : String
client_audience = "cubetimer-clients"

-- 5 seconds before now
abbrev pub not_before_skew : ℕ
not_before_skew = 5 * 1000000000

module _ (s : AuthService) (libs : Libraries) where
  unfoldable pub claims_of : ℕ → ℕ → Bool → String → AccessClaims
  claims_of claims_id user email_verified role = record {
    email_verified = email_verified;
    user_role = or_user role;
    issuer = s.issuer;
    subject = libs.uuid_text user;
    audience = client_audience;
    expires_at = libs.numeric_date (s.now + s.access_token_ttl);
    issued_at = libs.numeric_date s.now;
    not_before = libs.numeric_date (s.now - not_before_skew);
    id = libs.uuid_text claims_id;
  }

  unfoldable pub issue_access_token : ℕ → ℕ → Bool → String → Option String
  unfolding claims_of
  issue_access_token claims_id user email_verified role =
      libs.sign s.secret (claims_of claims_id user email_verified role)

  unfoldable pub with_subject : AccessClaims → Option ℕ → Option (ℕ × AccessClaims)
  with_subject claims none = none
  with_subject claims (some user) =
      some (user, record claims { user_role = or_user claims.user_role })

  unfoldable pub subject_of : Option AccessClaims → Option (ℕ × AccessClaims)
  unfolding with_subject
  subject_of none = none
  subject_of (some claims) = with_subject claims (libs.parse_uuid claims.subject)

  -- At a later time, on a server of the same secret and issuer.
  unfoldable pub parse_access_token : ℕ → String → Option (ℕ × AccessClaims)
  unfolding subject_of
  parse_access_token time raw =
      subject_of (libs.parse_claims s.secret s.issuer client_audience time raw)
