-- ===== src/Admin/Overview.antt =====
-- internal/admin/service.go: Overview, over GetOverviewStats of internal/store/db/admin.sql.go.
use cubesync.Prelude.{
  ℕ, ◌+◌, ◌*◌, List, [], ◌∷◌, leb, ◌==◌, if◌then◌else◌, length, select, any, is_some,
}
use cubesync.Store.{Db, User, Device, ok, Query, Backend, M, exec, pure, ◌>>=◌}
use cubesync.Admin.Records.{day}

pub record GetOverviewStatsRow : Type 0 where
  pub total_users : ℕ
  pub verified_users : ℕ
  pub new_users_24h : ℕ
  pub new_users_7d : ℕ
  pub new_users_30d : ℕ
  pub active_users_24h : ℕ
  pub active_users_7d : ℕ
  pub active_users_30d : ℕ
  pub total_devices : ℕ
  pub total_sessions : ℕ
  pub total_solves : ℕ

-- Overview has the same fields.
abbrev pub Overview : Type 0
Overview = GetOverviewStatsRow

-- COUNT(DISTINCT user_id)
unfoldable pub distinct_users : List Device → ℕ
distinct_users [] = 0
distinct_users (d ∷ ds) =
    let rest = distinct_users ds in if any (λ e. e.user_id == d.user_id) ds then rest else 1 + rest

abbrev pub new_since : ℕ → ℕ → List User → ℕ
new_since now span users = length (select (λ u. leb now (u.created_at + span)) users)

unfoldable pub active_since : ℕ → ℕ → List Device → ℕ
unfolding distinct_users
active_since now span devices =
    distinct_users (select (λ d. leb now (d.last_seen_at + span)) devices)

module _ {Raw : Type 0} where
  unfoldable pub overview_row : ℕ → Db Raw → GetOverviewStatsRow
  unfolding active_since
  overview_row now db = record {
    total_users = length db.users;
    verified_users = length (select (λ u. is_some u.email_verified_at) db.users);
    new_users_24h = new_since now day db.users;
    new_users_7d = new_since now (7 * day) db.users;
    new_users_30d = new_since now (30 * day) db.users;
    active_users_24h = active_since now day db.devices;
    active_users_7d = active_since now (7 * day) db.devices;
    active_users_30d = active_since now (30 * day) db.devices;
    total_devices = length db.devices;
    total_sessions = length db.cube_sessions;
    total_solves = length db.solves;
  }

  unfoldable pub get_overview_stats : Backend Raw → M Raw GetOverviewStatsRow
  unfolding overview_row
  get_overview_stats backend =
      exec backend Query.get_overview_stats (λ db. (ok (overview_row backend.now db), db))

  unfoldable pub overview : Backend Raw → M Raw Overview
  unfolding get_overview_stats
  overview backend = get_overview_stats backend >>= λ row. pure (record {
    total_users = row.total_users;
    verified_users = row.verified_users;
    new_users_24h = row.new_users_24h;
    new_users_7d = row.new_users_7d;
    new_users_30d = row.new_users_30d;
    active_users_24h = row.active_users_24h;
    active_users_7d = row.active_users_7d;
    active_users_30d = row.active_users_30d;
    total_devices = row.total_devices;
    total_sessions = row.total_sessions;
    total_solves = row.total_solves;
  })
