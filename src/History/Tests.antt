-- ===== src/History/Tests.antt =====
-- An example: two sessions, one on each page.
use Prim.Native.Char.{Char}
use cubesync.Prelude.{
  ℕ, zero, suc, ◌≡◌, refl, ap, String, false, none, some, [], ◌∷◌, arith, ◌≤◌, pos,
}
use cubesync.Store.{CubeSession, Backend, Conn, ok}
use cubesync.History.{
  Formats, Paginated, SessionSummary, parse_limit, parse_cursor, encode_cursor, list_sessions,
  first_page,
}
use cubesync.History.Cursor.{IsFormat, NoComma, parse_cursor-encode_cursor}
use cubesync.History.Page.{ShowsRows, list_sessions-ShowsRows}

abbrev letter : Char
letter = "a"

abbrev unary : ℕ → String
unary zero = ""
unary (suc n) = String.◌∷◌ letter (unary n)

abbrev chars : String → ℕ
chars String.[] = 0
chars (String.◌∷◌ c s) = suc (chars s)

abbrev formats : Formats
formats = record {
  format_time = unary;
  parse_time = λ t. some (chars t);
  uuid_text = unary;
  parse_uuid = λ t. some (chars t);
  atoi = λ t. some (pos (chars t));
}

chars-unary : (n : ℕ) → chars (unary n) ≡ n
chars-unary zero = refl
chars-unary (suc n) = ap suc (chars-unary n)

unary-NoComma : (n : ℕ) → NoComma (unary n)
unary-NoComma zero = refl
unary-NoComma (suc n) = unary-NoComma n

formats-IsFormat : IsFormat formats
formats-IsFormat = record {
  no_comma = unary-NoComma;
  parses_time = λ n. ap some (chars-unary n);
  parses_uuid = λ n. ap some (chars-unary n);
}

parse_cursor-encode_cursor_example :
    parse_cursor formats (encode_cursor formats (record { ts = 5; id = 3 }))
    ≡ some (record { ts = 5; id = 3 })
parse_cursor-encode_cursor_example =
    parse_cursor-encode_cursor formats formats-IsFormat (record { ts = 5; id = 3 })

abbrev server : Backend ℕ
server = record { now = 1000; jsonb = λ d. d; lower = λ t. t; fault = λ q db. false }

abbrev morning : CubeSession
morning = record {
  id = 4;
  user_id = 7;
  name = "morning";
  event = "3x3";
  kind = "practice";
  started_at = 10;
  ended_at = none;
  archived = false;
  version = 1;
  updated_at = 10;
  deleted_at = none;
}

abbrev pool : Conn ℕ
pool = record {
  db = record {
    users = [];
    password_credentials = [];
    identities = [];
    refresh_tokens = [];
    one_time_tokens = [];
    devices = [];
    cube_sessions = morning ∷ record morning { id = 5; started_at = 20 } ∷ [];
    solves = [];
    processed_mutations = [];
    change_log = [];
    last_change_id = 0;
  };
  in_tx = false;
  aborted = false;
}

list_sessions-ShowsRows_example :
    (1 ≤ 1)
    × (1 ≤ 200)
    × (page : Paginated SessionSummary) × (list_sessions formats server 7 "a" "" pool
        ≡ (ok page, pool))
    × ShowsRows formats server 7 first_page 1 pool page
unfolding parse_limit parse_cursor
list_sessions-ShowsRows_example =
    list_sessions-ShowsRows formats server 7 "a" "" first_page pool formats-IsFormat
      (record { works = λ q db. refl }) refl refl ((λ e. absurd (omega (arith, e)), tt), (tt, tt))
