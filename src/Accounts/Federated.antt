-- ===== src/Accounts/Federated.antt =====
-- internal/auth/service.go: FederatedLogin, claimUnverifiedAccount and LinkFederated.
pub mod Claim
use cubesync.Prelude.{
  ℕ, String, true, Option, none, some, List, [], ◌∷◌, ltb, ◌==◌, if◌then◌else◌, is_some,
}
use cubesync.Store.{
  User, Error, auth_error, Result, ok, err, Backend, M, pure, raise, optional, transaction, ◌>>=◌,
  ◌>>◌,
}
use cubesync.Store.Users.{
  create_user, set_user_email_verified, get_user_by_identity, get_user_by_email,
  get_user_by_email_for_update, count_user_identities, delete_password_credential, create_identity,
}
use cubesync.Store.Tokens.{revoke_all_user_refresh_tokens, invalidate_user_one_time_tokens}
use cubesync.Accounts.Types.{
  Profile, AuthSession, AuthService, Libraries, Outside, user_from_db, role_user,
}
use cubesync.Accounts.Provider.{FederatedInput, FederatedIdentity, Oidc, verify}
use cubesync.Accounts.Sessions.{or_unique, or_raise, issue_session_with_queries, issue_session}

abbrev pub account_link_required : Error
account_link_required =
    auth_error "account_link_required" "sign in to the existing account, then link this provider"

abbrev pub identity_in_use : Error
identity_in_use = auth_error "identity_in_use" "this identity belongs to another account"

unfoldable pub or_error : {Raw A : Type 0} → Result A → M Raw A
or_error (ok a) = pure a
or_error (err e) = raise e

module _ {Raw : Type 0} (s : AuthService) (libs : Libraries) (oidc : Oidc) (backend : Backend Raw)
    (out : Outside) where
  abbrev pub add_identity : ℕ → String → FederatedIdentity → M Raw (Unit {0})
  add_identity user provider identity =
      create_identity backend out.identity_id user provider identity.subject (some identity.email)

  abbrev pub verified_profile : ℕ → String → String → Profile
  verified_profile id email role = record {
    id = id;
    email = email;
    email_verified = true;
    user_role = role;
  }

  -- The loop over the kinds of tokens.
  unfoldable pub invalidate_kinds : ℕ → List String → M Raw (Unit {0})
  invalidate_kinds user [] = pure tt
  invalidate_kinds user (kind ∷ kinds) =
      invalidate_user_one_time_tokens backend user kind >> invalidate_kinds user kinds

  -- What follows the count of the identities.
  unfoldable pub claim_user : String → FederatedIdentity → User → M Raw AuthSession
  claim_user provider identity user = do
    delete_password_credential backend user.id
    revoke_all_user_refresh_tokens backend user.id
    invalidate_kinds user.id ("verify_email" ∷ "reset_password" ∷ [])
    set_user_email_verified backend user.id
    or_unique identity_in_use (add_identity user.id provider identity)
    issue_session_with_queries s libs backend out
        (verified_profile user.id user.email (user_from_db user).user_role) out.family_id

  unfoldable pub claim_found : String → FederatedIdentity → User → M Raw AuthSession
  claim_found provider identity user =
      if is_some user.email_verified_at then raise account_link_required else do
        identities ← count_user_identities backend user.id
        if ltb 0 identities then raise account_link_required else claim_user provider identity user

  unfoldable pub claim_body : String → FederatedIdentity → M Raw AuthSession
  claim_body provider identity = do
    found ← optional (get_user_by_email_for_update backend identity.email)
    user ← or_raise account_link_required found
    claim_found provider identity user

  unfoldable pub claim_unverified_account : String → FederatedIdentity → M Raw AuthSession
  claim_unverified_account provider identity = transaction backend (claim_body provider identity)

  unfoldable pub sign_up_body : String → FederatedIdentity → M Raw AuthSession
  sign_up_body provider identity = do
    or_unique account_link_required (create_user backend out.user_id identity.email)
    set_user_email_verified backend out.user_id
    add_identity out.user_id provider identity
    issue_session_with_queries s libs backend out
        (verified_profile out.user_id identity.email role_user) out.family_id

  unfoldable pub with_existing : String → FederatedIdentity → Option User → M Raw AuthSession
  with_existing provider identity none = transaction backend (sign_up_body provider identity)
  with_existing provider identity (some existing) =
      if is_some existing.email_verified_at
      then raise account_link_required
      else claim_unverified_account provider identity

  unfoldable pub with_identity : String → FederatedIdentity → Option User → M Raw AuthSession
  with_identity provider identity (some row) = issue_session s libs backend out (user_from_db row)
  with_identity provider identity none =
      optional (get_user_by_email backend identity.email) >>= with_existing provider identity

  unfoldable pub federated_login : String → FederatedInput → M Raw AuthSession
  federated_login provider input = do
    identity ← or_error (verify libs oidc provider input)
    found ← optional (get_user_by_identity backend provider identity.subject)
    with_identity provider identity found

  unfoldable pub link_to : ℕ → String → FederatedIdentity → Option User → M Raw (Unit {0})
  link_to user provider identity (some existing) =
      if existing.id == user then pure tt else raise identity_in_use
  link_to user provider identity none =
      or_unique
        (auth_error "provider_already_linked" "an identity from this provider is already linked")
        (add_identity user provider identity)

  unfoldable pub link_federated : ℕ → String → FederatedInput → M Raw (Unit {0})
  link_federated user provider input = do
    identity ← or_error (verify libs oidc provider input)
    found ← optional (get_user_by_identity backend provider identity.subject)
    link_to user provider identity found
