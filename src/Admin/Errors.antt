-- ===== src/Admin/Errors.antt =====
-- internal/admin/service.go: ListErrors, over ListIndividualErrors of internal/store/db/admin.sql.go.
use mathlib.Core.List.{Permᴰ}
use cubesync.Prelude.{
  ℕ, zero, suc, ◌≤◌, ◌<◌, ◌≡◌, ◌≢◌, refl, sym, ap, ◌∙◌, String, Bool, true, false, ◌&&◌, ◌||◌,
  Option, none, some, List, map, ltb, ◌==◌, if◌then◌else◌, length, length-take, select, take, drop,
  ℤ, pos, pos_part, ltb_ℤ, leb_ℤ, All, arith,
}
use cubesync.Store.{Result, ok, err}
use cubesync.Store.Queries.{max_int64}
use cubesync.History.{Key, earlier, order_desc}
use cubesync.History.Order.{
  final, Descending, DistinctIds, order_desc-Descending, cut, Permᴰ-order_desc, All-order_desc,
  select-order_desc, select-both, All-chosen, All-take, All-final, All-select, DistinctIds-select,
}
use cubesync.Sync.Validate.{zero_time}
use cubesync.Admin.Tables.{RequestError, StatsTables, StatsQuery, Faults, StatsCall, run}
use cubesync.Admin.Range.{Answer, answer, failure}

pub record ErrorLog : Type 0 where
  pub id : ℕ
  pub created_at : ℕ
  pub user_id : Option String
  pub method : String
  pub route : String
  pub status : ℤ
  pub code : String
  pub message : String

pub record ErrorLogResponse : Type 0 where
  pub errors : List ErrorLog
  pub next_cursor : Option ℕ
  pub next_cursor_id : Option ℕ

abbrev pub error_key : RequestError → Key
error_key e = record { ts = e.created_at; id = e.id }

-- (created_at, id) < (before, before_id)
abbrev pub is_before : ℕ → ℤ → RequestError → Bool
is_before before before_id e =
    ltb e.created_at before || e.created_at == before && ltb_ℤ (pos e.id) before_id

unfoldable pub errors_before : ℕ → ℤ → StatsTables → List RequestError
unfolding order_desc
errors_before before before_id t =
    order_desc error_key (select (is_before before before_id) t.request_errors)

unfoldable pub list_individual_errors : Faults → ℕ → ℤ → ℕ → StatsCall (List RequestError)
unfolding run errors_before
list_individual_errors fault before before_id limit =
    run fault StatsQuery.list_individual_errors
      λ t. (ok (take limit (errors_before before before_id t)), t)

abbrev pub limit_of : ℤ → ℕ
limit_of limit = if leb_ℤ limit (pos 0) || ltb_ℤ (pos 100) limit then 50 else pos_part limit

abbrev pub before_or : ℕ → ℕ → ℕ
before_or now before = if before == zero_time then now else before

abbrev pub before_id_or : ℤ → ℤ
before_id_or (pos zero) = pos max_int64
before_id_or (pos (suc n)) = pos (suc n)
before_id_or (ℤ.negsuc n) = ℤ.negsuc n

abbrev pub time_of_last : Option RequestError → Option ℕ
time_of_last none = none
time_of_last (some e) = some e.created_at

abbrev pub id_of_last : Option RequestError → Option ℕ
id_of_last none = none
id_of_last (some e) = some e.id

-- The text of a uuid is a parameter.
module _ (uuid_text : ℕ → String) where
  abbrev pub user_text : Option ℕ → Option String
  user_text none = none
  user_text (some id) = some (uuid_text id)

  abbrev pub error_log : RequestError → ErrorLog
  error_log e = record {
    id = e.id;
    created_at = e.created_at;
    user_id = user_text e.event.user_id;
    method = e.event.method;
    route = e.event.route;
    status = e.event.status_code;
    code = e.event.code;
    message = e.event.message;
  }

  abbrev pub errors_response : ℕ → Result (List RequestError) → Answer ErrorLogResponse
  errors_response limit (err e) = failure
  errors_response limit (ok rows) = answer (record {
    errors = map error_log rows;
    next_cursor = if length rows == limit then time_of_last (final rows) else none;
    next_cursor_id = if length rows == limit then id_of_last (final rows) else none;
  })

  unfoldable pub list_errors : Faults → ℕ → ℕ → ℤ → ℤ → StatsTables → Answer ErrorLogResponse
  unfolding list_individual_errors
  list_errors fault now before before_id limit t =
      errors_response (limit_of limit)
        (list_individual_errors fault (before_or now before) (before_id_or before_id)
          (limit_of limit) t).0

  -- An answer of the statement, where it does not fail.
  list_errors-answer :
      (fault : Faults) (now before : ℕ) (before_id limit : ℤ) (t : StatsTables)
      → fault StatsQuery.list_individual_errors t ≡ false
      → list_errors fault now before before_id limit t
        ≡ errors_response (limit_of limit) (
            ok (
              take
                (limit_of limit)
                (errors_before (before_or now before) (before_id_or before_id) t)))
  unfolding list_errors list_individual_errors run
  list_errors-answer fault now before before_id limit t works = simp works

limit_of-within : (limit : ℤ) → (1 ≤ limit_of limit) × (limit_of limit ≤ 100)
limit_of-within (pos n) = ground arith
limit_of-within (ℤ.negsuc n) = ground arith

-- The errors that a page from a cursor may show: recorded before the cursor's time, or at that time
-- and with a smaller id.
abbrev pub is_listed : ℕ → ℤ → RequestError → Bool
is_listed before before_id e =
    ltb e.created_at before || e.created_at == before && ltb_ℤ (pos e.id) before_id

-- A later cursor only leaves out more.
is_listed-later :
    (before : ℕ) (before_id : ℤ) (l : RequestError)
    → is_listed before before_id l ≡ true
    → (e : RequestError)
    → is_listed l.created_at (pos l.id) e
      ≡ (is_listed before before_id e && earlier (error_key l) (error_key e))
is_listed-later before (pos n) l h e = ground (arith, h)
is_listed-later before (ℤ.negsuc n) l h e = ground (arith, h)

-- The ids that the table gives start at 1, and its times are times of the clock.
abbrev pub IsStamped : RequestError → Type 0
IsStamped e = (1 ≤ e.id) × (e.created_at ≢ zero_time)

before_or-time : (now before : ℕ) → before ≢ zero_time → before_or now before ≡ before
before_or-time now before h = ground (arith, h)

before_id_or-id : (n : ℕ) → 1 ≤ n → before_id_or (pos n) ≡ pos n
before_id_or-id zero h = absurd (omega (arith, h))
before_id_or-id (suc n) h = refl

module _ (uuid_text : ℕ → String) (fault : Faults) where
  -- A page with a limit from a cursor, on tables that do not change.
  pub record ShowsErrors (before : ℕ) (before_id : ℤ) (limit : ℕ) (t : StatsTables)
      (page : ErrorLogResponse) : Type 0 where
    pub rows : List RequestError
    pub all_listed : Permᴰ (select (is_listed before before_id) t.request_errors) rows
    pub recent_first : Descending error_key rows
    pub shown : page.errors ≡ map (error_log uuid_text) (take limit rows)
    pub goes_on :
        limit ≤ length rows
        → (ts id : ℕ) × (page.next_cursor ≡ some ts)
          × (page.next_cursor_id ≡ some id)
          × ((now : ℕ) (next_limit : ℤ)
              → (next : ErrorLogResponse) × (list_errors uuid_text fault now ts
                    (pos id)
                    next_limit
                    t
                  ≡ answer next)
                × (next.errors
                    ≡ map (error_log uuid_text) (take (limit_of next_limit) (drop limit rows))))
    pub ends : length rows < limit → (page.next_cursor ≡ none) × (page.next_cursor_id ≡ none)

  page : ℕ → List RequestError → ErrorLogResponse
  page limit rows = record {
    errors = map (error_log uuid_text) rows;
    next_cursor = if length rows == limit then time_of_last (final rows) else none;
    next_cursor_id = if length rows == limit then id_of_last (final rows) else none;
  }

  module _ (t : StatsTables) (works : fault StatsQuery.list_individual_errors t ≡ false)
      (distinct : DistinctIds error_key t.request_errors) (stamped : All IsStamped t.request_errors)
      (before : ℕ) (before_id : ℤ) where
    listed : List RequestError
    listed = select (is_listed before before_id) t.request_errors

    listed-DistinctIds : DistinctIds error_key listed
    unfolding listed
    listed-DistinctIds =
        DistinctIds-select error_key (is_listed before before_id) t.request_errors distinct

    rows : List RequestError
    unfolding listed
    rows = order_desc error_key listed

    -- The last row of a page is listed, and stamped.
    last_row :
        (limit : ℕ) (l : RequestError)
        → final (take limit rows) ≡ some l
        → (is_listed before before_id l ≡ true) × IsStamped l
    unfolding rows
    last_row limit l e = (
      All-final (λ r. is_listed before before_id r ≡ true) (take limit rows) l e
          (All-take _ limit rows (
            All-order_desc error_key (λ r. is_listed before before_id r ≡ true) listed
              (All-chosen (is_listed before before_id) (is_listed before before_id) (λ r h. h)
                t.request_errors))),
      All-final IsStamped (take limit rows) l e (
          All-take IsStamped limit rows (
            All-order_desc error_key IsStamped listed
              (All-select IsStamped (is_listed before before_id) t.request_errors stamped))),
    )

    rows-rest :
        (l : RequestError)
        → is_listed before before_id l ≡ true
        → errors_before l.created_at (pos l.id) t
          ≡ select (λ e. earlier (error_key l) (error_key e)) rows
    unfolding errors_before rows
    rows-rest l h =
        let after : RequestError → Bool = λ e. earlier (error_key l) (error_key e) in
        ap (order_desc error_key) (
          sym (
            select-both after (is_listed before before_id) (is_listed l.created_at (pos l.id))
              (is_listed-later before before_id l h) t.request_errors))
        ∙ sym (select-order_desc error_key after listed listed-DistinctIds)

    page-ShowsErrors :
        (limit : ℕ)
        → 1 ≤ limit
        → ShowsErrors before before_id limit t (page limit (take limit rows))
    unfolding page rows
    page-ShowsErrors limit one =
        let descending = order_desc-Descending error_key listed listed-DistinctIds in
        record {
          rows = rows;
          all_listed = Permᴰ-order_desc error_key listed;
          recent_first = descending;
          shown = refl;
          goes_on = λ enough.
              let c = cut error_key limit rows descending one enough in
              let full : (length (take limit rows) == limit) ≡ true =
                ground (arith, enough, length-take limit rows) in
              let last = last_row limit c.last c.its_last in
              (
                c.last.created_at,
                c.last.id,
                rw full (ap time_of_last c.its_last),
                rw full (ap id_of_last c.its_last),
                λ now next_limit. (
                  _,
                  list_errors-answer uuid_text fault now c.last.created_at (pos c.last.id)
                      next_limit t works,
                  ap (λ rs. map (error_log uuid_text) (take (limit_of next_limit) rs))
                      ((λ i.
                          errors_before (before_or-time now c.last.created_at last.1.1 i)
                            (before_id_or-id c.last.id last.1.0 i) t)
                        ∙ rows-rest c.last last.0
                        ∙ c.rest),
                ),
              );
          ends = λ few.
              let short : (length (take limit rows) == limit) ≡ false =
                ground (arith, few, length-take limit rows) in
              (rw short refl, rw short refl);
        }

-- Where the statement does not fail, the ids of the errors differ and start at 1 and their times
-- are not the zero time, ListErrors answers with the most recent errors before the cursor, at least
-- 1 and at most 100 of them as the limit says; where that many are left, it answers a next cursor,
-- from which the next call, with any limit, goes on with those left out, and where there are fewer,
-- none.
pub list_errors-ShowsErrors :
    (uuid_text : ℕ → String) (fault : Faults) (now before : ℕ) (before_id limit : ℤ)
    (t : StatsTables)
    → fault StatsQuery.list_individual_errors t ≡ false
    → DistinctIds error_key t.request_errors
    → All IsStamped t.request_errors
    → (1 ≤ limit_of limit)
      × (limit_of limit ≤ 100)
      × (page : ErrorLogResponse) × (list_errors uuid_text fault now before before_id limit t
          ≡ answer page)
      × ShowsErrors uuid_text fault
          (before_or now before)
          (before_id_or before_id)
          (limit_of limit)
          t
          page
unfolding errors_before page rows listed
list_errors-ShowsErrors uuid_text fault now before before_id limit t works distinct stamped =
    let within = limit_of-within limit in
    (
      within.0,
      within.1,
      _,
      list_errors-answer uuid_text fault now before before_id limit t works,
      page-ShowsErrors uuid_text fault t works distinct stamped (before_or now before)
          (before_id_or before_id) (limit_of limit) within.0,
    )
