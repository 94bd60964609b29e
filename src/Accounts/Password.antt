-- ===== src/Accounts/Password.antt =====
-- internal/auth/password.go: the rules for a password, and its hash as text. The limit on hashes in
-- progress, and the cancellation of a request that waits for it, are left out.
pub mod Roundtrip
use Prim.Native.Char.{Char, code}
use Prim.Native.String.{◌++◌ as append}
use cubesync.Prelude.{
  ℕ, ◌*◌, String, Bool, true, false, not, ◌||◌, Option, none, some, List, [], ◌∷◌, ltb, ◌==◌,
  if◌then◌else◌, length, byte_len, str_eq,
}
use cubesync.Accounts.Types.{Libraries}

abbrev pub argon_memory : ℕ
argon_memory = 64 * 1024

abbrev pub argon_iterations : ℕ
argon_iterations = 3

abbrev pub argon_parallelism : ℕ
argon_parallelism = 2

abbrev pub argon_key_length : ℕ
argon_key_length = 32

abbrev pub parameters_text : String
parameters_text = "m=65536,t=3,p=2"

abbrev pub bytes_eq : List ℕ → List ℕ → Bool
bytes_eq [] [] = true
bytes_eq [] (y ∷ ys) = false
bytes_eq (x ∷ xs) [] = false
bytes_eq (x ∷ xs) (y ∷ ys) = if x == y then bytes_eq xs ys else false

-- strings.Split of a text at "$".
abbrev pub prepend : Char → List String → List String
prepend c [] = String.◌∷◌ c "" ∷ []
prepend c (p ∷ ps) = String.◌∷◌ c p ∷ ps

abbrev pub split_dollar : String → List String
split_dollar String.[] = "" ∷ []
split_dollar (String.◌∷◌ c s) =
    let rest = split_dollar s in if code c == 36 then "" ∷ rest else prepend c rest

-- The message of the error.
unfoldable pub validate_password : String → Option String
validate_password password =
    if ltb (byte_len password) 10
    then some "password must contain at least 10 characters"
    else if ltb 128 (byte_len password)
    then some "password cannot exceed 128 characters"
    else none

module _ (libs : Libraries) where
  abbrev pub hash_text : String → String → String
  hash_text salt key =
      append "$argon2id$v=19$" (append parameters_text (append "$" (append salt (append "$" key))))

  -- `none` where there is no salt, the error of rand.Read.
  unfoldable pub hash_password : Option (List ℕ) → String → Option String
  hash_password none password = none
  hash_password (some salt) password = some (
      hash_text (libs.encode_base64 salt) (
        libs.encode_base64 (
          libs.derive_key password salt argon_iterations argon_memory argon_parallelism
            argon_key_length)))

  abbrev pub verify_key :
      String → Option (ℕ × ℕ × ℕ) → Option (List ℕ) → Option (List ℕ) → Option Bool
  verify_key password (some (memory, iterations, parallelism)) (some salt) (some expected) = some (
      bytes_eq (libs.derive_key password salt iterations memory parallelism (length expected))
        expected)
  verify_key password none salt expected = none
  verify_key password (some p) none expected = none
  verify_key password (some p) (some salt) none = none

  abbrev pub verify_parts : String → List String → Option Bool
  verify_parts password (_ ∷ name ∷ version ∷ parameters ∷ salt ∷ key ∷ []) =
      if not (str_eq name "argon2id") || not (str_eq version "v=19")
      then none
      else verify_key password (libs.scan_parameters parameters) (libs.decode_base64 salt)
          (libs.decode_base64 key)
  verify_parts password _ = none

  -- `none` is an error.
  unfoldable pub verify_password : String → String → Option Bool
  verify_password password encoded = verify_parts password (split_dollar encoded)
