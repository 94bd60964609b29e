-- ===== src/Accounts/Examples.antt =====
-- An example: one account with tokens, and simple functions for the calls of other packages.
use Prim.Native.Char.{Char, code}
use cubesync.Prelude.{
  ℕ, zero, suc, ◌+◌, ◌*◌, ◌/◌, ◌≡◌, refl, ap, ◌∙◌, String, true, false, none, some, List, [], ◌∷◌,
  if◌then◌else◌, ◌==◌, length, byte_len, arith,
}
use cubesync.Store.{User, RefreshToken, OneTimeToken, Backend, Conn}
use cubesync.Store.Reliable.{IsReliable}
use cubesync.Accounts.Types.{Profile, AuthSession, AuthService, AccessClaims, Libraries, Outside}
use cubesync.Accounts.AccessTokens.Roundtrip.{IsJwt}
use cubesync.Accounts.Password.Roundtrip.{NoDollar, IsEncoding}

abbrev letter_a : Char
letter_a = "a"

abbrev letter_b : Char
letter_b = "b"

-- A number as that many letters, before a text.
abbrev pub unary : ℕ → String → String
unary zero s = s
unary (suc n) s = String.◌∷◌ letter_a (unary n s)

abbrev pub encode : List ℕ → String
encode [] = ""
encode (n ∷ ns) = unary n (String.◌∷◌ letter_b (encode ns))

abbrev decode_from : ℕ → String → List ℕ
decode_from k String.[] = []
decode_from k (String.◌∷◌ c s) = if code c == 98 then k ∷ decode_from 0 s else decode_from (suc k) s

abbrev repeat : ℕ → ℕ → List ℕ
repeat zero n = []
repeat (suc k) n = n ∷ repeat k n

abbrev chars : String → ℕ
chars String.[] = 0
chars (String.◌∷◌ c s) = suc (chars s)

abbrev second : ℕ
second = 1000000000

abbrev pub claims : AccessClaims
claims = record {
  email_verified = true;
  user_role = "user";
  issuer = "https://example.org";
  subject = "aaaaaaa";
  audience = "cubetimer-clients";
  expires_at = 1900 * second;
  issued_at = 1000 * second;
  not_before = 995 * second;
  id = "aa";
}

abbrev pub libs : Libraries
libs = record {
  token_hash = byte_len;
  to_lower = λ t. t;
  trim_space = λ t. t;
  parse_address = some;
  uuid_text = λ n. unary n "";
  parse_uuid = λ t. some (chars t);
  numeric_date = λ t. t / second * second;
  sign = λ secret c. some "signed";
  parse_claims = λ secret issuer audience time token. some claims;
  derive_key = λ password salt iterations memory threads n. repeat n (byte_len password);
  encode_base64 = encode;
  decode_base64 = λ t. some (decode_from 0 t);
  scan_parameters = λ t. some (65536, 3, 2);
}

abbrev pub service : AuthService
service = record {
  now = 1000 * second;
  secret = "secret";
  issuer = "https://example.org";
  access_token_ttl = 900 * second;
  refresh_token_ttl = 3600 * second;
}

abbrev pub outside : Outside
outside = record {
  user_id = 8;
  token_id = 51;
  family_id = 61;
  refresh_id = 71;
  identity_id = 81;
  claims_id = 2;
  salt = some (1 ∷ []);
  raw_token = some "mail";
  refresh_token = some "fresh token";
  delivers = true;
}

abbrev pub server : Backend ℕ
server = record { now = 2000; jsonb = λ d. d; lower = λ t. t; fault = λ q db. false }

pub server-IsReliable : IsReliable server
server-IsReliable = record { works = λ q db. refl }

abbrev pub owner : User
owner = record {
  id = 7;
  email = "cuber@example.org";
  email_verified_at = some 1;
  created_at = 0;
  updated_at = 0;
  user_role = "user";
}

abbrev pub newcomer : User
newcomer = record {
  id = 9;
  email = "new@example.org";
  email_verified_at = none;
  created_at = 0;
  updated_at = 0;
  user_role = "user";
}

-- The token "old" is unused; "spent" was used long before the service's time.
abbrev pub old_token : RefreshToken
old_token = record {
  id = 70;
  family_id = 60;
  user_id = 7;
  token_hash = 3;
  expires_at = 4000 * second;
  used_at = none;
  revoked_at = none;
  created_at = 0;
}

abbrev pub spent_token : RefreshToken
spent_token = record old_token { id = 69; token_hash = 5; used_at = some second }

abbrev pub mailed : OneTimeToken
mailed = record {
  id = 50;
  user_id = 7;
  kind = "reset_password";
  token_hash = 6;
  expires_at = 4000 * second;
  used_at = none;
  created_at = 0;
}

abbrev pub pool : Conn ℕ
pool = record {
  db = record {
    users = owner ∷ newcomer ∷ [];
    password_credentials =
        record {
          user_id = 7;
          password_hash = "$argon2id$v=19$m=65536,t=3,p=2$ab$aaaaaaaaaaaaab";
          updated_at = 0;
        }
        ∷ [];
    identities = [];
    refresh_tokens = spent_token ∷ old_token ∷ [];
    one_time_tokens = mailed ∷ [];
    devices = [];
    cube_sessions = [];
    solves = [];
    processed_mutations = [];
    change_log = [];
    last_change_id = 0;
  };
  in_tx = false;
  aborted = false;
}

abbrev pub profile : Profile
profile = record { id = 7; email = "cuber@example.org"; email_verified = true; user_role = "user" }

abbrev pub session_of : Profile → AuthSession
session_of user = record {
  access_token = "signed";
  refresh_token = "fresh token";
  token_type = "Bearer";
  expires_in = 900;
  user = user;
}

chars-unary : (n : ℕ) → chars (unary n "") ≡ n
chars-unary zero = refl
chars-unary (suc n) = ap suc (chars-unary n)

pub claims-IsJwt : IsJwt libs service claims
claims-IsJwt = record {
  parses_uuid = λ n. ap some (chars-unary n);
  date_before = λ t. omega arith;
  date_close = λ t. omega arith;
  parses = λ token time signed issuer audience begun current. refl;
}

decode_from-unary :
    (n k m : ℕ) (s : String)
    → n + k ≡ m
    → decode_from k (unary n (String.◌∷◌ letter_b s)) ≡ m ∷ decode_from 0 s
decode_from-unary zero k m s e = ap (λ j. j ∷ decode_from 0 s) (omega (arith, e))
decode_from-unary (suc n) k m s e = decode_from-unary n (suc k) m s (omega (arith, e))

decode-encode : (ns : List ℕ) → decode_from 0 (encode ns) ≡ ns
decode-encode [] = refl
decode-encode (n ∷ ns) =
    decode_from-unary n 0 n (encode ns) (omega arith) ∙ ap (n ∷◌) (decode-encode ns)

length-repeat : (k n : ℕ) → length (repeat k n) ≡ k
length-repeat zero n = refl
length-repeat (suc k) n = ap suc (length-repeat k n)

unary-NoDollar : (n : ℕ) (s : String) → NoDollar s → NoDollar (unary n s)
unary-NoDollar zero s h = h
unary-NoDollar (suc n) s h = unary-NoDollar n s h

encode-NoDollar : (ns : List ℕ) → NoDollar (encode ns)
encode-NoDollar [] = refl
encode-NoDollar (n ∷ ns) = unary-NoDollar n (String.◌∷◌ letter_b (encode ns)) (encode-NoDollar ns)

pub libs-IsEncoding : IsEncoding libs
libs-IsEncoding = record {
  no_dollar = encode-NoDollar;
  decodes = λ bytes. ap some (decode-encode bytes);
  scans = refl;
  key_length = λ password salt time memory threads n. length-repeat n (byte_len password);
}
