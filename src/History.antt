-- ===== src/History.antt =====
-- internal/httpapi/history_handler.go, over the statements of internal/store/db/history.sql.go: the
-- pages of a user's sessions, and of the solves of a session, the most recent first. A handler
-- returns its response, or the error that it answers with.
pub mod Cursor
pub mod Order
pub mod Page
mod Tests
use Prim.Native.Char.{code}
use Prim.Native.String.{◌++◌ as append}
use cubesync.Prelude.{
  ℕ, zero, suc, ◌+◌, ◌-◌, ◌*◌, ◌^◌, String, Bool, true, false, not, ◌&&◌, ◌||◌, Option, none, some,
  List, [], ◌∷◌, map, ltb, leb, ◌==◌, if◌then◌else◌, length, select, take, is_some, str_eq, ℤ, pos,
  negsuc,
}
use cubesync.Store.{
  Db, CubeSession, Solf, client_error, ok, Query, Backend, M, exec, pure, raise, ◌>>=◌,
}
use cubesync.Sync.Models.{Session, Solve}
use cubesync.Sync.Convert.{session_from_db, solve_from_db, or_fail}

-- A time and an id, in the order of the pages.
pub record Key : Type 0 where
  pub ts : ℕ
  pub id : ℕ

abbrev pub earlier : Key → Key → Bool
earlier k a = ltb a.ts k.ts || a.ts == k.ts && ltb a.id k.id

-- time.Time's Format and Parse with RFC3339Nano, the text of a uuid and its parse, strconv.Atoi.
pub record Formats : Type 0 where
  pub format_time : ℕ → String
  pub parse_time : String → Option ℕ
  pub uuid_text : ℕ → String
  pub parse_uuid : String → Option ℕ
  pub atoi : String → Option ℤ

abbrev pub default_history_limit : ℕ
default_history_limit = 50

abbrev pub max_history_limit : ℕ
max_history_limit = 200

abbrev pub clamped : ℕ → ℕ → Option ℤ → ℕ
clamped default most none = default
clamped default most (some (negsuc n)) = default
clamped default most (some (pos n)) = if n == 0 then default else if ltb most n then most else n

unfoldable pub parse_limit : Formats → String → ℕ → ℕ → ℕ
parse_limit formats raw default most =
    if str_eq raw "" then default else clamped default most (formats.atoi raw)

-- strings.SplitN at the first comma, where there is one.
abbrev pub before_comma : String → Option (String × String) → Option (String × String)
before_comma front none = none
before_comma front (some (a, b)) = some (append front a, b)

abbrev pub split_comma : String → Option (String × String)
split_comma String.[] = none
split_comma (String.◌∷◌ c s) =
    let rest = split_comma s in
    if code c == 44 then some ("", s) else before_comma (String.◌∷◌ c "") rest

-- The last second of the year 9999, and the largest uuid.
abbrev pub first_page : Key
first_page = record { ts = (3652424 * 86400 + 86399) * 1000000000; id = 2 ^ 128 - 1 }

abbrev pub key_of_parts : Option ℕ → Option ℕ → Option Key
key_of_parts (some ts) (some id) = some record { ts = ts; id = id }
key_of_parts none id = none
key_of_parts (some ts) none = none

abbrev pub parse_parts : Formats → Option (String × String) → Option Key
parse_parts formats none = none
parse_parts formats (some (ts, id)) = key_of_parts (formats.parse_time ts) (formats.parse_uuid id)

unfoldable pub parse_cursor : Formats → String → Option Key
parse_cursor formats raw =
    if str_eq raw "" then some first_page else parse_parts formats (split_comma raw)

unfoldable pub encode_cursor : Formats → Key → String
encode_cursor formats key =
    append (formats.format_time key.ts) (append "," (formats.uuid_text key.id))

pub record SessionSummary : Type 0 where
  pub session : Session
  pub solve_count : ℕ

pub record Paginated (A : Type 0) : Type 0 where
  pub items : List A
  pub next_cursor : String
  pub has_more : Bool

module _ {A : Type 0} (key : A → Key) where
  unfoldable pub insert_desc : A → List A → List A
  insert_desc r [] = r ∷ []
  insert_desc r (x ∷ xs) =
      let rest = insert_desc r xs in if earlier (key x) (key r) then x ∷ rest else r ∷ x ∷ xs

  -- The time, then the id, both descending.
  unfoldable pub order_desc : List A → List A
  unfolding insert_desc
  order_desc [] = []
  order_desc (r ∷ rs) = insert_desc r (order_desc rs)

  -- The cursor of the last row.
  unfoldable pub last_cursor : Formats → String → List A → String
  unfolding encode_cursor
  last_cursor formats cursor [] = cursor
  last_cursor formats cursor (r ∷ rs) = last_cursor formats (encode_cursor formats (key r)) rs

  unfoldable pub page_of : {B : Type 0} → Formats → (A → B) → ℕ → List A → Paginated B
  unfolding last_cursor
  page_of formats convert limit rows =
      let has_more = ltb limit (length rows) in
      let shown = if has_more then take limit rows else rows in
      record {
        items = map convert shown;
        next_cursor = if has_more then last_cursor formats "" shown else "";
        has_more = has_more;
      }

abbrev pub session_key : CubeSession → Key
session_key r = record { ts = r.started_at; id = r.id }

abbrev pub solve_key : Solf → Key
solve_key r = record { ts = r.solved_at; id = r.id }

abbrev pub in_session : ℕ → Option ℕ → Bool
in_session id none = false
in_session id (some s) = s == id

-- The row of a session with the number of its solves.
pub record CountedSession : Type 0 where
  pub row : CubeSession
  pub solve_count : ℕ

abbrev pub counted_key : CountedSession → Key
counted_key r = session_key r.row

abbrev pub counted_session : List Solf → CubeSession → CountedSession
counted_session solves row = record {
  row = row;
  solve_count = length (
      select
        (λ s.
          s.user_id == row.user_id
          && (in_session row.id s.session_id && not (is_some s.deleted_at)))
        solves);
}

abbrev pub summary_of : CountedSession → SessionSummary
summary_of r = record { session = session_from_db r.row; solve_count = r.solve_count }

module _ {Raw : Type 0} (formats : Formats) (backend : Backend Raw) (user : ℕ) where
  abbrev pub sessions_before : Key → Db Raw → List CountedSession
  sessions_before key db = map (counted_session db.solves) (
      order_desc session_key (
        select
          (λ r. r.user_id == user && (not (is_some r.deleted_at) && earlier key (session_key r)))
          db.cube_sessions))

  abbrev pub solves_before : ℕ → Key → Db Raw → List Solf
  solves_before session key db = order_desc solve_key (
      select
        (λ r.
          r.user_id == user
          && (in_session session r.session_id
              && (not (is_some r.deleted_at) && earlier key (solve_key r))))
        db.solves)

  unfoldable pub list_sessions_paginated : Key → ℕ → M Raw (List CountedSession)
  unfolding order_desc
  list_sessions_paginated key limit =
      exec backend Query.list_sessions_paginated
        λ db. (ok (take limit (sessions_before key db)), db)

  unfoldable pub list_solves_for_session_paginated : ℕ → Key → ℕ → M Raw (List Solf)
  unfolding order_desc
  list_solves_for_session_paginated session key limit =
      exec backend Query.list_solves_for_session_paginated
        λ db. (ok (take limit (solves_before session key db)), db)

  abbrev pub or_invalid : {A : Type 0} → String → String → Option A → M Raw A
  or_invalid kind message none = raise (client_error kind message)
  or_invalid kind message (some a) = pure a

  abbrev pub invalid_cursor : Option Key → M Raw Key
  invalid_cursor = or_invalid "invalid_cursor" "cursor must be a timestamp,uuid pair"

  -- The parameters limit and cursor of the request.
  unfoldable pub list_sessions : String → String → M Raw (Paginated SessionSummary)
  unfolding parse_limit parse_cursor page_of session_from_db
  list_sessions raw_limit raw_cursor = do
    let limit = parse_limit formats raw_limit default_history_limit max_history_limit
    key ← invalid_cursor (parse_cursor formats raw_cursor)
    rows ← list_sessions_paginated key (limit + 1)
    pure (page_of counted_key formats summary_of limit rows)

  unfoldable pub list_session_solves : String → String → String → M Raw (Paginated Solve)
  unfolding parse_limit parse_cursor page_of solve_from_db
  list_session_solves raw_session raw_limit raw_cursor = do
    session ←
        or_invalid "invalid_session_id" "session id must be a valid UUID"
          (formats.parse_uuid raw_session)
    let limit = parse_limit formats raw_limit default_history_limit max_history_limit
    key ← invalid_cursor (parse_cursor formats raw_cursor)
    rows ← list_solves_for_session_paginated session key (limit + 1)
    pure (page_of solve_key formats solve_from_db limit rows)
