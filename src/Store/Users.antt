-- ===== src/Store/Users.antt =====
-- internal/store/db/auth.sql.go: the statements on users, password_credentials and identities, with
-- the constraints of db/migrations/00001_initial.sql.
use cubesync.Prelude.{
  ℕ, String, Bool, not, ◌&&◌, ◌||◌, Option, none, some, [], ◌∷◌, ◌++◌, ◌==◌, if◌then◌else◌, find,
  select, update_where, any, length, str_eq,
}
use cubesync.Store.Tables.{User, PasswordCredential, Identity, Db}
use cubesync.Store.Exec.{
  foreign_key_violation, unique_violation, failed, ok, err, Query, Backend, M, Statement, exec,
}
use cubesync.Store.Queries.{is_user, has_user}
use cubesync.Store.Entities.{row_or_none}

abbrev pub has_email : String → User → Bool
has_email email u = str_eq u.email email

abbrev pub is_credential : ℕ → PasswordCredential → Bool
is_credential user p = p.user_id == user

abbrev pub is_identity : String → String → Identity → Bool
is_identity provider subject i = str_eq i.provider provider && str_eq i.subject subject

-- The row of a join of a user with its password.
pub record CredentialRow : Type 0 where
  pub id : ℕ
  pub email : String
  pub email_verified_at : Option ℕ
  pub user_role : String
  pub password_hash : String

abbrev pub with_credential : User → Option PasswordCredential → Option CredentialRow
with_credential u none = none
with_credential u (some p) = some record {
  id = u.id;
  email = u.email;
  email_verified_at = u.email_verified_at;
  user_role = u.user_role;
  password_hash = p.password_hash;
}

module _ {Raw : Type 0} where
  abbrev pub user_of : ℕ → Db Raw → Option User
  user_of id db = find (is_user id) db.users

  abbrev pub credential_of : ℕ → Db Raw → Option PasswordCredential
  credential_of user db = find (is_credential user) db.password_credentials

  abbrev pub joined_user : Db Raw → Option Identity → Option User
  joined_user db none = none
  joined_user db (some i) = user_of i.user_id db

  abbrev pub joined_credential : Db Raw → Option User → Option CredentialRow
  joined_credential db none = none
  joined_credential db (some u) = with_credential u (credential_of u.id db)

module _ {Raw : Type 0} (backend : Backend Raw) where
  abbrev pub user_by_email : String → Db Raw → Option User
  user_by_email email db = find (has_email (backend.lower email)) db.users

  unfoldable pub get_user_by_id : ℕ → M Raw User
  unfolding row_or_none
  get_user_by_id id = exec backend Query.get_user_by_id λ db. row_or_none (user_of id db) db

  unfoldable pub get_user_by_email : String → M Raw User
  unfolding row_or_none
  get_user_by_email email =
      exec backend Query.get_user_by_email λ db. row_or_none (user_by_email email db) db

  unfoldable pub get_user_by_email_for_update : String → M Raw User
  unfolding row_or_none
  get_user_by_email_for_update email =
      exec backend Query.get_user_by_email_for_update λ db. row_or_none (user_by_email email db) db

  unfoldable pub get_user_by_identity : String → String → M Raw User
  unfolding row_or_none
  get_user_by_identity provider subject =
      exec backend Query.get_user_by_identity
        λ db. row_or_none (joined_user db (find (is_identity provider subject) db.identities)) db

  abbrev pub new_user : ℕ → String → Option ℕ → String → User
  new_user id email verified role = record {
    id = id;
    email = email;
    email_verified_at = verified;
    created_at = backend.now;
    updated_at = backend.now;
    user_role = role;
  }

  -- The primary key, the index on lower(email), and the check that the email is in lower case.
  unfoldable pub insert_user : User → Statement Raw User
  insert_user u db =
      if not (str_eq u.email (backend.lower u.email))
      then (err failed, db)
      else if has_user u.id db.users || any (has_email u.email) db.users
      then (err unique_violation, db)
      else (ok u, record db { users = db.users ++ u ∷ [] })

  -- The column user_role has the default 'user'.
  unfoldable pub create_user : ℕ → String → M Raw User
  unfolding insert_user
  create_user id email =
      exec backend Query.create_user (insert_user (new_user id email none "user"))

  unfoldable pub create_admin_user : ℕ → String → M Raw User
  unfolding insert_user
  create_admin_user id email =
      exec backend Query.create_admin_user
        (insert_user (new_user id email (some backend.now) "admin"))

  abbrev pub verified_once : Option ℕ → Option ℕ
  verified_once none = some backend.now
  verified_once (some t) = some t

  abbrev pub verified_user : User → User
  verified_user u = record u {
    email_verified_at = verified_once u.email_verified_at;
    updated_at = backend.now;
  }

  unfoldable pub set_user_email_verified : ℕ → M Raw (Unit {0})
  set_user_email_verified id =
      exec backend Query.set_user_email_verified
        λ db. (ok tt, record db { users = update_where (is_user id) verified_user db.users })

  -- ON DELETE CASCADE, in every table that refers to the user.
  unfoldable pub delete_user_statement : ℕ → Statement Raw (Unit {0})
  delete_user_statement id db = (
    ok tt,
    record db {
      users = select (λ r. not (r.id == id)) db.users;
      password_credentials = select (λ r. not (r.user_id == id)) db.password_credentials;
      identities = select (λ r. not (r.user_id == id)) db.identities;
      refresh_tokens = select (λ r. not (r.user_id == id)) db.refresh_tokens;
      one_time_tokens = select (λ r. not (r.user_id == id)) db.one_time_tokens;
      devices = select (λ r. not (r.user_id == id)) db.devices;
      cube_sessions = select (λ r. not (r.user_id == id)) db.cube_sessions;
      solves = select (λ r. not (r.user_id == id)) db.solves;
      processed_mutations = select (λ r. not (r.user_id == id)) db.processed_mutations;
      change_log = select (λ r. not (r.user_id == id)) db.change_log;
    },
  )

  unfoldable pub delete_user : ℕ → M Raw (Unit {0})
  delete_user id = exec backend Query.delete_user (delete_user_statement id)

  abbrev pub new_credential : ℕ → String → PasswordCredential
  new_credential user hash = record {
    user_id = user;
    password_hash = hash;
    updated_at = backend.now;
  }

  abbrev pub changed_credential : String → PasswordCredential → PasswordCredential
  changed_credential hash p = record p { password_hash = hash; updated_at = backend.now }

  unfoldable pub create_password_credential_statement : ℕ → String → Statement Raw (Unit {0})
  create_password_credential_statement user hash db =
      if any (is_credential user) db.password_credentials
      then (err unique_violation, db)
      else if has_user user db.users
      then (
        ok tt,
        record db {
          password_credentials = db.password_credentials ++ new_credential user hash ∷ [];
        },
      )
      else (err foreign_key_violation, db)

  unfoldable pub create_password_credential : ℕ → String → M Raw (Unit {0})
  create_password_credential user hash =
      exec backend Query.create_password_credential (create_password_credential_statement user hash)

  unfoldable pub upsert_password_credential_statement : ℕ → String → Statement Raw (Unit {0})
  unfolding create_password_credential_statement
  upsert_password_credential_statement user hash db =
      if any (is_credential user) db.password_credentials
      then (
        ok tt,
        record db {
          password_credentials =
              update_where (is_credential user) (changed_credential hash) db.password_credentials;
        },
      )
      else create_password_credential_statement user hash db

  unfoldable pub upsert_password_credential : ℕ → String → M Raw (Unit {0})
  upsert_password_credential user hash =
      exec backend Query.upsert_password_credential (upsert_password_credential_statement user hash)

  unfoldable pub delete_password_credential : ℕ → M Raw (Unit {0})
  delete_password_credential user = exec backend Query.delete_password_credential λ db. (
    ok tt,
    record db {
      password_credentials = select (λ p. not (is_credential user p)) db.password_credentials;
    },
  )

  unfoldable pub get_password_credential_by_email : String → M Raw CredentialRow
  unfolding row_or_none
  get_password_credential_by_email email =
      exec backend Query.get_password_credential_by_email
        λ db. row_or_none (joined_credential db (user_by_email email db)) db

  unfoldable pub get_password_credential_by_user_id : ℕ → M Raw PasswordCredential
  unfolding row_or_none
  get_password_credential_by_user_id user =
      exec backend Query.get_password_credential_by_user_id
        λ db. row_or_none (credential_of user db) db

  abbrev pub clashes : Identity → Identity → Bool
  clashes new i =
      i.id == new.id
      || is_identity new.provider new.subject i
      || i.user_id == new.user_id && str_eq i.provider new.provider

  unfoldable pub insert_identity : Identity → Statement Raw (Unit {0})
  insert_identity i db =
      if not (str_eq i.provider "google")
      then (err failed, db)
      else if any (clashes i) db.identities
      then (err unique_violation, db)
      else if has_user i.user_id db.users
      then (ok tt, record db { identities = db.identities ++ i ∷ [] })
      else (err foreign_key_violation, db)

  unfoldable pub create_identity : ℕ → ℕ → String → String → Option String → M Raw (Unit {0})
  unfolding insert_identity
  create_identity id user provider subject email = exec backend Query.create_identity (
      insert_identity (record {
        id = id;
        user_id = user;
        provider = provider;
        subject = subject;
        email = email;
        created_at = backend.now;
      }))

  unfoldable pub count_user_identities : ℕ → M Raw ℕ
  count_user_identities user =
      exec backend Query.count_user_identities
        λ db. (ok (length (select (λ i. i.user_id == user) db.identities)), db)
