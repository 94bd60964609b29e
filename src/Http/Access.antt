-- ===== src/Http/Access.antt =====
-- Whom the guards of an endpoint let through.
use mathlib.Core.Path.{subst}
use cubesync.Prelude.{
  ℕ, ◌≡◌, ◌≢◌, refl, sym, ◌⊎◌, inl, inr, String, Bool, true, false, not, ◌||◌, Option, none, some,
  [], ◌∷◌, if◌then◌else◌, str_eq, eq_iff, Bool-cases,
}
use cubesync.Accounts.Types.{AccessClaims}
use cubesync.Accounts.AccessTokens.{parse_access_token}
use cubesync.Admin.{has_prefix}
use cubesync.Http.Replies.{Reply, error_reply}
use cubesync.Http.Endpoints.{Endpoint, auth_limit, authenticate, require_verified, require_admin}
use cubesync.Http.Services.{App, Principal, nobody, World}
use cubesync.Http.Handlers.{handle}
use cubesync.Http.Serve.{
  Gate, cut_space, Passage, passes, stops, with_claims, with_parts, authenticated, and_then,
  pass_guards, at_handler, unauthorized,
}

pub str_eq_apart : (s t : String) → s ≢ t → str_eq s t ≡ false
str_eq_apart s t apart = elim (Bool-cases (str_eq s t)) [
  | inl e ↦ absurd (apart ((eq_iff s t).0 e))
  | inr e ↦ e
]

-- Whom a path is for.
pub data Access : Type 0 where
  anyone signed_in verified administrator : Access

-- By the path: everything but the root, the health checks and the sign-in wants a bearer.
unfoldable pub access_of : String → Access
unfolding has_prefix
access_of pattern =
    if has_prefix pattern "/v1/admin/"
    then Access.administrator
    else if has_prefix pattern "/v1/me" || has_prefix pattern "/v1/auth/link/"
    then Access.signed_in
    else if has_prefix pattern "/v1/auth/" || has_prefix pattern "/health/" || str_eq pattern "/v1"
    then Access.anyone
    else Access.verified

module _ {Raw F L : Type 0} (app : App Raw F) (gate : Gate L) where
  -- The request carries a bearer token that is valid now and says this of its bearer.
  pub record Bears (header : String) (p : Principal) : Type 0 where
    pub scheme : String
    pub token : String
    pub parts : cut_space header ≡ some (scheme, token)
    pub is_bearer : gate.equal_fold scheme "Bearer" ≡ true
    pub claims : AccessClaims
    pub parses : parse_access_token app.auth app.libs app.auth.now token ≡ some (p.user_id, claims)
    pub verified : claims.email_verified ≡ p.email_verified
    pub role : claims.user_role ≡ p.role

  -- What a bearer must be.
  abbrev pub IsAllowed : Access → String → Principal → Type 0
  IsAllowed Access.anyone header p = p ≡ nobody
  IsAllowed Access.signed_in header p = Bears header p
  IsAllowed Access.verified header p = Bears header p × (p.email_verified ≡ true)
  IsAllowed Access.administrator header p = Bears header p × (p.role ≡ "admin")

  -- Either the handler ran for an allowed bearer, or nothing has changed and the answer refuses.
  abbrev pub IsGuarded :
      Access → String → Endpoint Raw → World Raw → Reply Raw F × World Raw → Type 0
  IsGuarded access header e w r =
      ((p : Principal) × IsAllowed access header p × (r ≡ handle app e p w))
      ⊎ ((r.1 ≡ w) × ((r.0.status ≡ 401) ⊎ ((r.0.status ≡ 403) ⊎ (r.0.status ≡ 429))))

  with_claims-Bears :
      (header scheme token : String) (o : Option (ℕ × AccessClaims))
      → cut_space header ≡ some (scheme, token)
      → gate.equal_fold scheme "Bearer" ≡ true
      → parse_access_token app.auth app.libs app.auth.now token ≡ o
      → ((p : Principal) × Bears header p × (with_claims app gate o ≡ passes p))
        ⊎ (with_claims app gate o ≡ stops nobody unauthorized)
  with_claims-Bears header scheme token none parts fold e = inr refl
  with_claims-Bears header scheme token (some (user, claims)) parts fold e = inl (
    record { user_id = user; email_verified = claims.email_verified; role = claims.user_role },
    record {
      scheme = scheme;
      token = token;
      parts = parts;
      is_bearer = fold;
      claims = claims;
      parses = e;
      verified = refl;
      role = refl;
    },
    refl,
  )

  with_parts-Bears :
      (header : String) (o : Option (String × String))
      → cut_space header ≡ o
      → ((p : Principal) × Bears header p × (with_parts app gate o ≡ passes p))
        ⊎ (with_parts app gate o ≡ stops nobody unauthorized)
  with_parts-Bears header none e = inr refl
  with_parts-Bears header (some (scheme, token)) e =
      folded (gate.equal_fold scheme "Bearer") refl (str_eq token "")
    where
      parsed : Option (ℕ × AccessClaims)
      parsed = parse_access_token app.auth app.libs app.auth.now token

      choice : Bool → Bool → Passage Raw F
      choice b empty =
          if not b || empty then stops nobody unauthorized else with_claims app gate parsed

      folded :
          (b : Bool)
          → gate.equal_fold scheme "Bearer" ≡ b
          → (empty : Bool)
          → ((p : Principal) × Bears header p × (choice b empty ≡ passes p))
            ⊎ (choice b empty ≡ stops nobody unauthorized)
      folded true f true = inr refl
      folded true f false = with_claims-Bears header scheme token parsed e f refl
      folded false f empty = inr refl

  authenticated-Bears :
      (header : String)
      → ((p : Principal) × Bears header p × (authenticated app gate header ≡ passes p))
        ⊎ (authenticated app gate header ≡ stops nobody unauthorized)
  unfolding authenticated
  authenticated-Bears header = with_parts-Bears header (cut_space header) refl

  module _ (header : String) (e : Endpoint Raw) (w : World Raw) where
    abbrev Guarded : Access → Passage Raw F → Type 0
    Guarded access passage = IsGuarded access header e w (at_handler app gate e passage w)

    pub limited-Guarded :
        (allowed : Bool)
        → Guarded Access.anyone (pass_guards app gate allowed header (auth_limit ∷ []) nobody)
    unfolding pass_guards
    limited-Guarded true = inl (nobody, refl, refl)
    limited-Guarded false = inr (refl, inr (inr refl))

    -- After authentication: what the rest of the guards make of a bearer.
    authenticate-Guarded :
        (access : Access) (rest : Principal → Passage Raw F)
        → ((p : Principal) → Bears header p → Guarded access (rest p))
        → Guarded access (and_then app gate (authenticated app gate header) rest)
    authenticate-Guarded access rest k = elim (authenticated-Bears header) [
      | inl (p, bears, e') ↦
          subst (λ passage. Guarded access (and_then app gate passage rest)) (sym e') (k p bears)
      | inr e' ↦
          subst (λ passage. Guarded access (and_then app gate passage rest)) (sym e')
            (inr (refl, inl refl))
    ]

    pub signed_in-Guarded :
        (allowed : Bool)
        → Guarded Access.signed_in (pass_guards app gate allowed header (authenticate ∷ []) nobody)
    unfolding pass_guards
    signed_in-Guarded allowed =
        authenticate-Guarded Access.signed_in _ (λ p bears. inl (p, bears, refl))

    pub verified-Guarded :
        (allowed : Bool)
        → Guarded Access.verified
            (pass_guards app gate allowed header (authenticate ∷ require_verified ∷ []) nobody)
    unfolding pass_guards
    verified-Guarded allowed =
        authenticate-Guarded Access.verified _ λ p bears. tested p bears p.email_verified refl
      where
        tested :
            (p : Principal)
            → Bears header p
            → (b : Bool) → p.email_verified ≡ b
            → Guarded Access.verified (
                and_then app gate
                  (if b
                    then passes p
                    else stops p (
                        error_reply 403 "email_not_verified"
                          "verify your email before synchronizing"))
                  λ q. passes q)
        tested p bears true t = inl (p, (bears, t), refl)
        tested p bears false t = inr (refl, inr (inl refl))

    pub admin-Guarded :
        (allowed : Bool)
        → Guarded Access.administrator
            (pass_guards app gate allowed header (authenticate ∷ require_admin ∷ []) nobody)
    unfolding pass_guards
    admin-Guarded allowed = authenticate-Guarded Access.administrator _ λ p bears.
        elim (Bool-cases (str_eq p.role "admin")) [
          | inl yes' ↦ rw yes' (inl (p, (bears, (eq_iff p.role "admin").0 yes'), refl))
          | inr no' ↦ rw no' (inr (refl, inr (inl refl)))
        ]
