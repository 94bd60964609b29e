-- ===== src/Accounts/Password/Roundtrip.antt =====
-- A stored hash and the passwords that it accepts.
use Prim.Native.Char.{Char, code}
use Prim.Native.String.{◌++◌ as append}
use Prim.Native.String.append as Append
use cubesync.Prelude.{
  ℕ, ◌≡◌, ◌≢◌, refl, sym, ap, ◌∙◌, String, Bool, true, false, some, List, [], ◌∷◌, length, ◌==◌,
  if◌then◌else◌, arith, ==_iff, Bool-cases, some_inj, inl, inr,
}
use cubesync.Accounts.Types.{Libraries}
use cubesync.Accounts.Password.{
  argon_memory, argon_iterations, argon_parallelism, argon_key_length, parameters_text, bytes_eq,
  split_dollar, hash_text, hash_password, verify_password,
}

abbrev dollar : Char
dollar = "$"

abbrev no_dollar : String → Bool
no_dollar String.[] = true
no_dollar (String.◌∷◌ c s) = if code c == 36 then false else no_dollar s

abbrev pub NoDollar : String → Type 0
NoDollar s = no_dollar s ≡ true

no_dollar-cons :
    (c : Char) (s : String) → NoDollar (String.◌∷◌ c s) → ((code c == 36) ≡ false) × NoDollar s
no_dollar-cons c s h = split (code c == 36) h
  where
    split :
        (b : Bool) → (if b then false else no_dollar s) ≡ true → (b ≡ false) × (no_dollar s ≡ true)
    split true e = absurd (cc e)
    split false e = (refl, e)

split-none : (s : String) → NoDollar s → split_dollar s ≡ s ∷ []
split-none String.[] h = refl
split-none (String.◌∷◌ c s) h =
    let (here, rest) = no_dollar-cons c s h in simp (here, split-none s rest)

append-append : (r s t : String) → append (append r s) t ≡ append r (append s t)
append-append String.[] s t = simp (Append.nil s, Append.nil (append s t))
append-append (String.◌∷◌ c r) s t = simp (
  Append.cons c r s,
  Append.cons c (append r s) t,
  Append.cons c r (append s t),
  append-append r s t,
)

split_lead : (t : String) → split_dollar (append "$" t) ≡ "" ∷ split_dollar t
split_lead t = simp (Append.cons dollar "" t, Append.nil t)

split-next :
    (s t : String) → NoDollar s → split_dollar (append s (append "$" t)) ≡ s ∷ split_dollar t
split-next String.[] t h = simp (Append.nil (append "$" t), split_lead t)
split-next (String.◌∷◌ c s) t h =
    let (here, rest) = no_dollar-cons c s h in
    simp (Append.cons c s (append "$" t), here, split-next s t rest)

split_header :
    (t : String)
    → split_dollar (append "$argon2id$v=19$" t) ≡ "" ∷ "argon2id" ∷ "v=19" ∷ split_dollar t
split_header t =
    ap split_dollar (
      append-append "$" "argon2id$v=19$" t
      ∙ ap (append "$") (
          append-append "argon2id" "$v=19$" t
          ∙ ap (append "argon2id")
              (append-append "$" "v=19$" t ∙ ap (append "$") (append-append "v=19" "$" t))))
    ∙ split_lead (append "argon2id" (append "$" (append "v=19" (append "$" t))))
    ∙ ap ("" ∷◌) (
        split-next "argon2id" (append "v=19" (append "$" t)) refl
        ∙ ap ("argon2id" ∷◌) (split-next "v=19" t refl))

eq_refl : (n : ℕ) → (n == n) ≡ true
eq_refl n = (==_iff n n).1 refl

bytes_eq_refl : (xs : List ℕ) → bytes_eq xs xs ≡ true
bytes_eq_refl [] = refl
bytes_eq_refl (x ∷ xs) = simp (eq_refl x, bytes_eq_refl xs)

bytes_eq-eq : (xs ys : List ℕ) → bytes_eq xs ys ≡ true → xs ≡ ys
bytes_eq-eq [] [] e = refl
bytes_eq-eq [] (y ∷ ys) e = absurd (cc e)
bytes_eq-eq (x ∷ xs) [] e = absurd (cc e)
bytes_eq-eq (x ∷ xs) (y ∷ ys) e = ground (arith, bytes_eq-eq xs ys)

-- What is documented of base64, fmt.Sscanf and argon2.IDKey.
pub record IsEncoding (libs : Libraries) : Type 0 where
  pub no_dollar : (bytes : List ℕ) → NoDollar (libs.encode_base64 bytes)
  pub decodes : (bytes : List ℕ) → libs.decode_base64 (libs.encode_base64 bytes) ≡ some bytes
  pub scans :
      libs.scan_parameters parameters_text
      ≡ some (argon_memory, argon_iterations, argon_parallelism)
  pub key_length :
      (password : String) (salt : List ℕ) (time memory threads n : ℕ)
      → length (libs.derive_key password salt time memory threads n) ≡ n

module _ (libs : Libraries) (encoding : IsEncoding libs) where
  -- The key that the program derives from a password.
  abbrev pub key : List ℕ → String → List ℕ
  key salt password =
      libs.derive_key password salt argon_iterations argon_memory argon_parallelism argon_key_length

  split-hash_text :
      (salt k : List ℕ)
      → split_dollar (hash_text libs (libs.encode_base64 salt) (libs.encode_base64 k))
        ≡ ""
          ∷ "argon2id"
          ∷ "v=19"
          ∷ parameters_text
          ∷ libs.encode_base64 salt
          ∷ libs.encode_base64 k
          ∷ []
  split-hash_text salt k =
      split_header (
        append parameters_text
          (append "$" (append (libs.encode_base64 salt) (append "$" (libs.encode_base64 k)))))
      ∙ ap (λ ps. "" ∷ "argon2id" ∷ "v=19" ∷ ps)
          (split-next parameters_text
              (append (libs.encode_base64 salt) (append "$" (libs.encode_base64 k))) refl
            ∙ ap (parameters_text ∷◌) (
                split-next (libs.encode_base64 salt) (libs.encode_base64 k)
                  (encoding.no_dollar salt)
                ∙ ap (libs.encode_base64 salt ∷◌)
                    (split-none (libs.encode_base64 k) (encoding.no_dollar k))))

  verify-hash :
      (salt : List ℕ) (password other : String)
      → verify_password libs other
          (hash_text libs (libs.encode_base64 salt) (libs.encode_base64 (key salt password)))
        ≡ some (bytes_eq (key salt other) (key salt password))
  unfolding verify_password
  verify-hash salt password other = simp (
    split-hash_text salt (key salt password),
    encoding.scans,
    encoding.decodes salt,
    encoding.decodes (key salt password),
    encoding.key_length password salt argon_iterations argon_memory argon_parallelism
        argon_key_length,
  )

  -- A password is accepted against its own hash, and another password is accepted only if the same
  -- key is derived from it.
  pub verify_password-hash_password :
      (salt : List ℕ) (password stored : String)
      → hash_password libs (some salt) password ≡ some stored
      → (verify_password libs password stored ≡ some true)
        × ((other : String)
            → key salt other ≢ key salt password
            → verify_password libs other stored ≡ some false)
  unfolding hash_password
  verify_password-hash_password salt password stored e = (
    verify_stored password ∙ ap some (bytes_eq_refl (key salt password)),
    λ other differs. verify_stored other ∙ ap some (not_equal other differs),
  )
    where
      verify_stored :
          (other : String)
          → verify_password libs other stored ≡ some (bytes_eq (key salt other) (key salt password))
      verify_stored other = rw (sym (some_inj e)) (verify-hash salt password other)

      not_equal :
          (other : String)
          → key salt other ≢ key salt password
          → bytes_eq (key salt other) (key salt password) ≡ false
      not_equal other differs = elim (Bool-cases (bytes_eq (key salt other) (key salt password))) [
        | inl same ↦ absurd (differs (bytes_eq-eq _ _ same))
        | inr different ↦ different
      ]
