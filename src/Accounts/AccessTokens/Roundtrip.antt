-- ===== src/Accounts/AccessTokens/Roundtrip.antt =====
-- An access token that is issued and parsed.
use cubesync.Prelude.{
  ℕ, ◌+◌, ◌-◌, ◌≤◌, ◌<◌, ◌≡◌, refl, sym, String, Bool, true, false, some, if◌then◌else◌, arith,
  str_eq,
}
use cubesync.Accounts.Types.{AuthService, Libraries, AccessClaims, role_user, or_user}
use cubesync.Accounts.AccessTokens.{
  client_audience, not_before_skew, claims_of, issue_access_token, with_subject, subject_of,
  parse_access_token,
}

abbrev second : ℕ
second = 1000000000

-- What is documented of uuid.Parse, of jwt.NewNumericDate, which cuts a time to the second, and of
-- jwt.ParseWithClaims for some claims under the secret that signed them.
pub record IsJwt (libs : Libraries) (s : AuthService) (claims : AccessClaims) : Type 0 where
  pub parses_uuid : (user : ℕ) → libs.parse_uuid (libs.uuid_text user) ≡ some user
  pub date_before : (time : ℕ) → libs.numeric_date time ≤ time
  pub date_close : (time : ℕ) → time < libs.numeric_date time + second
  pub parses :
      (token : String) (time : ℕ)
      → libs.sign s.secret claims ≡ some token
      → claims.issuer ≡ s.issuer
      → claims.audience ≡ client_audience
      → claims.not_before ≤ time
      → time < claims.expires_at
      → libs.parse_claims s.secret s.issuer client_audience time token ≡ some claims

or_user-or_user : (role : String) → or_user (or_user role) ≡ or_user role
or_user-or_user role = named (str_eq role "") refl
  where
    named :
        (b : Bool)
        → b ≡ str_eq role ""
        → or_user (if b then role_user else role) ≡ (if b then role_user else role)
    named true e = refl
    named false e = simp (sym e)

-- A token that is issued is parsed back to its user and its claims from 5 seconds before it was
-- issued, and until one second before its lifetime ends. An empty role is read as the role "user".
pub parse_access_token-issue_access_token :
    (s : AuthService) (libs : Libraries) (claims_id user : ℕ) (verified : Bool)
    (role token : String) (time : ℕ)
    → IsJwt libs s (claims_of s libs claims_id user verified role)
    → issue_access_token s libs claims_id user verified role ≡ some token
    → s.now - not_before_skew ≤ time
    → time + second ≤ s.now + s.access_token_ttl
    → parse_access_token s libs time token
      ≡ some (user, claims_of s libs claims_id user verified role)
unfolding parse_access_token subject_of with_subject issue_access_token claims_of
parse_access_token-issue_access_token s libs claims_id user verified role token time jwt signed
      early late =
    let begins : libs.numeric_date (s.now - not_before_skew) ≤ time =
      omega (arith, jwt.date_before (s.now - not_before_skew), early) in
    let ends : time < libs.numeric_date (s.now + s.access_token_ttl) =
      omega (arith, jwt.date_close (s.now + s.access_token_ttl), late) in
    simp (
      jwt.parses token time signed refl refl begins ends,
      jwt.parses_uuid user,
      or_user-or_user role,
    )
