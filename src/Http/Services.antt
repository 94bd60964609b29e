-- ===== src/Http/Services.antt =====
-- internal/httpapi/router.go: Handler with its services, and the calls of a service whose result is
-- written to the client.
use cubesync.Prelude.{ℕ, String, Bool, false, Option, none, some, List, ℤ}
use cubesync.Store.{Error, Result, ok, err, Backend, Conn, M}
use cubesync.Accounts.Types.{AuthService, Libraries, Outside, AuthSession}
use cubesync.Accounts.Provider.{Oidc}
use cubesync.Sync.Models.{Codec}
use cubesync.Sync.Service as Sync
use cubesync.Statistics.Service as Statistics
use cubesync.History as History
use cubesync.Admin.Tables.{StatsTables, Faults}
use cubesync.Admin.Range.{Answer, answer, refused, failure, Texts}
use cubesync.Admin.Aggregates.{Sorting}
use cubesync.Admin.Reports as Reports
use cubesync.Http.Replies.{
  Payload, empty, status_body, session_body, Reply, reply, error_reply, internal_error,
}

-- `Handler`: the services with their settings, and the calls of other packages. `time_rfc3339` is
-- time.Parse with that layout, `ping` whether the database answers.
pub record App (Raw F : Type 0) : Type 0 where
  pub auth : AuthService
  pub libs : Libraries
  pub oidc : Oidc
  pub backend : Backend Raw
  pub out : Outside
  pub sync : Sync.Service
  pub codec : Codec Raw
  pub aggregates : Statistics.Aggregates F
  pub formats : History.Formats
  pub texts : Texts
  pub sorting : Sorting
  pub floats : Reports.Floats F
  pub stats_fault : Faults
  pub order_types : List Reports.TypeEntry → List Reports.TypeEntry
  pub time_rfc3339 : String → Option ℕ
  pub parse_int : String → Option ℤ
  pub ping : Bool

-- What a token says of its bearer; without a token, nobody.
pub record Principal : Type 0 where
  pub user_id : ℕ
  pub email_verified : Bool
  pub role : String

abbrev pub nobody : Principal
nobody = record { user_id = 0; email_verified = false; role = "" }

-- The tables.
pub record World (Raw : Type 0) : Type 0 where
  pub conn : Conn Raw
  pub stats : StatsTables

abbrev pub Handler : Type 0 → Type 0 → Type 0
Handler Raw F = World Raw → Reply Raw F × World Raw

module _ {Raw F : Type 0} where
  -- A reply that needs no service.
  abbrev pub replies : Reply Raw F → Handler Raw F
  replies r w = (r, w)

  abbrev pub written :
      {A : Type 0}
      → (A → Reply Raw F)
      → (Error → Reply Raw F)
      → World Raw
      → Result A × Conn Raw
      → Reply Raw F × World Raw
  written good bad w (ok a, c) = (good a, record w { conn = c })
  written good bad w (err e, c) = (bad e, record w { conn = c })

  -- A call of a service, and what is written of its result and of its error.
  unfoldable pub respond :
      {A : Type 0} → M Raw A → (A → Reply Raw F) → (Error → Reply Raw F) → Handler Raw F
  respond call good bad w = written good bad w (call w.conn)

  -- decodeJSON before the rest of a handler
  abbrev pub with_body : {B : Type 0} → Option B → (B → Handler Raw F) → Handler Raw F
  with_body none rest = replies (error_reply 400 "invalid_json" "request body is invalid")
  with_body (some body) rest = rest body

  -- A report of the administration
  abbrev pub reported : {A : Type 0} → (A → Payload Raw F) → Answer A → Reply Raw F
  reported good (answer a) = reply 200 (good a)
  reported good (refused code message) = error_reply 400 code message
  reported good failure = internal_error "request could not be completed"

  abbrev pub session_reply : AuthSession → Reply Raw F
  session_reply session = reply 200 (session_body session)

  abbrev pub no_content : Unit {0} → Reply Raw F
  no_content done = reply 204 empty

  abbrev pub accepted_as : String → Unit {0} → Reply Raw F
  accepted_as status done = reply 202 (status_body status)
