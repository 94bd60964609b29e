-- ===== src/Accounts/Credentials/Erase.antt =====
-- What DeleteAccount removes, and what it keeps.
use cubesync.Prelude.{
  ℕ, ◌≡◌, ◌≢◌, true, not, List, [], select, select-select_keep, select-select-not, ◌==◌, if_both,
  arith,
}
use cubesync.Store.{
  Db, User, PasswordCredential, Identity, RefreshToken, OneTimeToken, Device, CubeSession, Solf,
  ProcessedMutation, ChangeLog, Error, Result, ok, err, Conn, Query, Backend, exec, settle, failed,
}
use cubesync.Store.Users.{delete_user, delete_user_statement}
use cubesync.Accounts.Types.{AuthService, Libraries, Outside}
use cubesync.Accounts.Credentials.{delete_account}

-- The rows of one user in the tables that refer to users, those of the accounts and of the
-- synchronization. A row of request_errors only holds a number; it is no reference.
pub record Footprint (Raw : Type 0) : Type 0 where
  pub users : List User
  pub password_credentials : List PasswordCredential
  pub identities : List Identity
  pub refresh_tokens : List RefreshToken
  pub one_time_tokens : List OneTimeToken
  pub devices : List Device
  pub cube_sessions : List CubeSession
  pub solves : List Solf
  pub processed_mutations : List (ProcessedMutation Raw)
  pub change_log : List (ChangeLog Raw)

module _ {Raw : Type 0} where
  unfoldable pub footprint : ℕ → Db Raw → Footprint Raw
  footprint user db = record {
    users = select (λ r. r.id == user) db.users;
    password_credentials = select (λ r. r.user_id == user) db.password_credentials;
    identities = select (λ r. r.user_id == user) db.identities;
    refresh_tokens = select (λ r. r.user_id == user) db.refresh_tokens;
    one_time_tokens = select (λ r. r.user_id == user) db.one_time_tokens;
    devices = select (λ r. r.user_id == user) db.devices;
    cube_sessions = select (λ r. r.user_id == user) db.cube_sessions;
    solves = select (λ r. r.user_id == user) db.solves;
    processed_mutations = select (λ r. r.user_id == user) db.processed_mutations;
    change_log = select (λ r. r.user_id == user) db.change_log;
  }

  unfoldable pub no_footprint : Footprint Raw
  no_footprint = record {
    users = [];
    password_credentials = [];
    identities = [];
    refresh_tokens = [];
    one_time_tokens = [];
    devices = [];
    cube_sessions = [];
    solves = [];
    processed_mutations = [];
    change_log = [];
  }

module _ {A : Type 0} (owner : A → ℕ) (user other : ℕ) where
  keeps_other :
      other ≢ user
      → (xs : List A)
      → select (λ r. owner r == other) (select (λ r. not (owner r == user)) xs)
        ≡ select (λ r. owner r == other) xs
  keeps_other differs xs =
      select-select_keep (λ r. owner r == other) (λ r. not (owner r == user)) xs
        (λ r e. another (owner r) e)
    where
      another : (n : ℕ) → (n == other) ≡ true → not (n == user) ≡ true
      another n e = ground (arith, differs)

module _ {Raw : Type 0} (backend : Backend Raw) (user : ℕ) (db : Db Raw) where
  erases_own : footprint user (delete_user_statement backend user db).1 ≡ no_footprint
  unfolding footprint no_footprint delete_user_statement
  erases_own = simp (
    select-select-not (λ (r : User). r.id == user),
    select-select-not (λ (r : PasswordCredential). r.user_id == user),
    select-select-not (λ (r : Identity). r.user_id == user),
    select-select-not (λ (r : RefreshToken). r.user_id == user),
    select-select-not (λ (r : OneTimeToken). r.user_id == user),
    select-select-not (λ (r : Device). r.user_id == user),
    select-select-not (λ (r : CubeSession). r.user_id == user),
    select-select-not (λ (r : Solf). r.user_id == user),
    select-select-not (λ (r : ProcessedMutation Raw). r.user_id == user),
    select-select-not (λ (r : ChangeLog Raw). r.user_id == user),
  )

  keeps_others :
      (other : ℕ)
      → other ≢ user
      → footprint other (delete_user_statement backend user db).1 ≡ footprint other db
  unfolding footprint delete_user_statement
  keeps_others other differs = simp (
    keeps_other (λ (r : User). r.id) user other differs,
    keeps_other (λ (r : PasswordCredential). r.user_id) user other differs,
    keeps_other (λ (r : Identity). r.user_id) user other differs,
    keeps_other (λ (r : RefreshToken). r.user_id) user other differs,
    keeps_other (λ (r : OneTimeToken). r.user_id) user other differs,
    keeps_other (λ (r : Device). r.user_id) user other differs,
    keeps_other (λ (r : CubeSession). r.user_id) user other differs,
    keeps_other (λ (r : Solf). r.user_id) user other differs,
    keeps_other (λ (r : ProcessedMutation Raw). r.user_id) user other differs,
    keeps_other (λ (r : ChangeLog Raw). r.user_id) user other differs,
  )

module _ {Raw : Type 0} (s : AuthService) (libs : Libraries) (backend : Backend Raw)
    (out : Outside) where
  -- The outcome of a deletion from these tables.
  pub data Erased (user : ℕ) (before : Db Raw) : Result (Unit {0}) → Db Raw → Type 0 where
    erased :
        {after : Db Raw}
        → footprint user after ≡ no_footprint
        → ((other : ℕ) → other ≢ user → footprint other after ≡ footprint other before)
        → Erased user before (ok tt) after
    refused : (e : Error) → Erased user before (err e) before

  -- DeleteAccount either succeeds, and then none of the ten tables of the accounts and of the
  -- synchronization has a row of the user, while in them the rows of every other user are as before,
  -- or it fails and changes none of them.
  pub delete_account-Erased :
      (user : ℕ) (c : Conn Raw)
      → Erased user c.db
          (delete_account s libs backend out user c).0
          (delete_account s libs backend out user c).1.db
  unfolding delete_account delete_user exec settle delete_user_statement
  delete_account-Erased user c = if_both Outcome c.aborted (refused failed) (
      if_both Outcome (backend.fault Query.delete_user c.db) (refused failed)
        (erased (erases_own backend user c.db) (keeps_others backend user c.db)))
    where
      Outcome : Result (Unit {0}) × Conn Raw → Type 0
      Outcome r = Erased user c.db r.0 r.1.db
