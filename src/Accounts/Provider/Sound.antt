-- ===== src/Accounts/Provider/Sound.antt =====
-- Which identity tokens are accepted.
use cubesync.Prelude.{
  ◌≡◌, refl, sym, String, Bool, true, false, not, ◌||◌, Option, none, some, [], if◌then◌else◌,
  str_eq, arith,
}
use cubesync.Store.{Error, Result, ok, err}
use cubesync.Accounts.Types.{Libraries}
use cubesync.Accounts.Provider.{
  FederatedInput, FederatedIdentity, IdClaims, Oidc, parse_boolean_claim, contains,
  allowed_client_ids, exchange_code, check_claims, check_verified, verify_raw, verify,
}

-- A property of the identity, where there is one.
abbrev OnIdentity : {A : Type 0} → (A → Type 0) → Result A → Type 0
OnIdentity Q (ok a) = Q a
OnIdentity Q (err e) = Unit

on_if :
    {A : Type 0} (Q : A → Type 0) (b : Bool) (e : Error) (r : Result A)
    → (b ≡ false → OnIdentity Q r)
    → OnIdentity Q (if b then err e else r)
on_if Q true e r h = tt
on_if Q false e r h = h refl

neither : (a b : Bool) → (a || b) ≡ false → (a ≡ false) × (b ≡ false)
neither a b e = ground (arith, e)

unless : (a : Bool) → not a ≡ false → a ≡ true
unless a e = ground (arith, e)

module _ (libs : Libraries) (oidc : Oidc) (provider : String) (input : FederatedInput) where
  -- The claims of the accepted token, which was given or exchanged for the code.
  pub record IsVerified (identity : FederatedIdentity) : Type 0 where
    pub claims : IdClaims
    pub raw : String
    pub presented :
        (if str_eq input.id_token ""
          then exchange_code libs oidc provider input
          else ok input.id_token)
        ≡ ok raw
    pub signed : oidc.verify_token raw ≡ some (some claims)
    pub google : str_eq provider "google" ≡ true
    pub allowed : contains oidc.google_client_ids input.client_id ≡ true
    pub for_client : contains claims.audience input.client_id ≡ true
    pub nonce_given : str_eq input.nonce "" ≡ false
    pub same_nonce : str_eq claims.nonce input.nonce ≡ true
    pub email_verified : parse_boolean_claim claims.email_verified ≡ true
    pub identified : identity ≡ record {
      provider = provider;
      subject = claims.subject;
      email = libs.to_lower (libs.trim_space claims.email);
      email_verified = true;
    }
    pub named : (str_eq claims.subject "" ≡ false) × (str_eq claims.email "" ≡ false)

  allowed_google :
      contains (allowed_client_ids libs oidc provider) input.client_id ≡ true
      → (str_eq provider "google" ≡ true) × (contains oidc.google_client_ids input.client_id ≡ true)
  unfolding allowed_client_ids
  allowed_google e = by_name (str_eq provider "google") e
    where
      by_name :
          (b : Bool)
          → contains (if b then oidc.google_client_ids else []) input.client_id ≡ true
          → (b ≡ true) × (contains oidc.google_client_ids input.client_id ≡ true)
      by_name true e = (refl, e)
      by_name false e = absurd (cc e)

  module _ (nonce_given : str_eq input.nonce "" ≡ false)
      (allowed : contains (allowed_client_ids libs oidc provider) input.client_id ≡ true)
      (raw : String)
      (presented : (if str_eq input.id_token ""
          then exchange_code libs oidc provider input
          else ok input.id_token)
        ≡ ok raw) where
    abbrev identity_of : IdClaims → FederatedIdentity
    identity_of claims = record {
      provider = provider;
      subject = claims.subject;
      email = libs.to_lower (libs.trim_space claims.email);
      email_verified = true;
    }

    accepted :
        (claims : IdClaims)
        → oidc.verify_token raw ≡ some (some claims)
        → (not (contains claims.audience input.client_id) || not (str_eq claims.nonce input.nonce))
          ≡ false
        → (str_eq claims.subject ""
            || (str_eq claims.email "" || not (parse_boolean_claim claims.email_verified)))
          ≡ false
        → IsVerified (identity_of claims)
    accepted claims signed bound full =
        let (audience, nonce) =
          neither (not (contains claims.audience input.client_id))
            (not (str_eq claims.nonce input.nonce)) bound in
        let (subject, rest) =
          neither (str_eq claims.subject "")
            (str_eq claims.email "" || not (parse_boolean_claim claims.email_verified)) full in
        let (email, verified) =
          neither (str_eq claims.email "") (not (parse_boolean_claim claims.email_verified)) rest in
        record {
          claims = claims;
          raw = raw;
          presented = presented;
          signed = signed;
          google = (allowed_google allowed).0;
          allowed = (allowed_google allowed).1;
          for_client = unless (contains claims.audience input.client_id) audience;
          nonce_given = nonce_given;
          same_nonce = unless (str_eq claims.nonce input.nonce) nonce;
          email_verified = unless (parse_boolean_claim claims.email_verified) verified;
          identified = refl;
          named = (subject, email);
        }

    check_claims-IsVerified :
        (claims : IdClaims)
        → oidc.verify_token raw ≡ some (some claims)
        → OnIdentity IsVerified (check_claims libs oidc provider input claims)
    unfolding check_claims
    check_claims-IsVerified claims signed =
        on_if IsVerified
          (not (contains claims.audience input.client_id) || not (str_eq claims.nonce input.nonce))
          _ _
          (λ bound.
            on_if IsVerified
              (str_eq claims.subject ""
                || (str_eq claims.email "" || not (parse_boolean_claim claims.email_verified)))
              _ (ok (identity_of claims)) (accepted claims signed bound))

    check_verified-IsVerified :
        (o : Option (Option IdClaims))
        → oidc.verify_token raw ≡ o
        → OnIdentity IsVerified (check_verified libs oidc provider input o)
    unfolding check_verified
    check_verified-IsVerified none e = tt
    check_verified-IsVerified (some none) e = tt
    check_verified-IsVerified (some (some claims)) e = check_claims-IsVerified claims e

  verify_raw-IsVerified :
      str_eq input.nonce "" ≡ false
      → contains (allowed_client_ids libs oidc provider) input.client_id ≡ true
      → (r : Result String)
      → (if str_eq input.id_token ""
          then exchange_code libs oidc provider input
          else ok input.id_token)
        ≡ r
      → OnIdentity IsVerified (verify_raw libs oidc provider input r)
  unfolding verify_raw
  verify_raw-IsVerified given allowed (err e) presented = tt
  verify_raw-IsVerified given allowed (ok raw) presented =
      on_if IsVerified (str_eq raw "") _ _ (λ _.
        rw (allowed_google allowed).0
          (check_verified-IsVerified given allowed raw presented (oidc.verify_token raw) refl))

  OnIdentity-of :
      (r : Result FederatedIdentity) (i : FederatedIdentity)
      → OnIdentity IsVerified r
      → r ≡ ok i
      → IsVerified i
  OnIdentity-of (ok j) i h e = rw (sym (ok_inj e)) h
    where
      ok_inj : {a b : FederatedIdentity} → ok a ≡ ok b → a ≡ b
      ok_inj e = cc e
  OnIdentity-of (err x) i h e = absurd (cc e)

  -- Where Verify accepts, the provider is google, the client id is not rejected by the
  -- configuration, and the given or exchanged token has a valid signature; its audience has the
  -- client id, its nonce is the request's, which is not empty, its subject and email are not
  -- empty, its email is verified, and the identity is of that subject and normalized email.
  pub verify-IsVerified :
      (identity : FederatedIdentity)
      → verify libs oidc provider input ≡ ok identity
      → IsVerified identity
  unfolding verify
  verify-IsVerified identity = OnIdentity-of _ identity (
      on_if IsVerified (str_eq input.nonce "") _ _ (λ given.
        on_if IsVerified
          (str_eq input.client_id ""
            || not (contains (allowed_client_ids libs oidc provider) input.client_id))
          _ _
          (λ listed.
            verify_raw-IsVerified given
              (unless _
                (neither (str_eq input.client_id "")
                  (not (contains (allowed_client_ids libs oidc provider) input.client_id))
                  listed).1)
              _ refl)))
