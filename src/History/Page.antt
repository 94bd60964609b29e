-- ===== src/History/Page.antt =====
-- What a page of the history shows, and where its cursor resumes.
use mathlib.Core.List.{Permᴰ}
use cubesync.Prelude.{
  ℕ, ◌+◌, ◌≤◌, ◌≡◌, refl, sym, ap, ◌∙◌, String, Bool, true, false, ◌&&◌, Option, none, some, List,
  [], ◌∷◌, map, ltb, ◌==◌, if◌then◌else◌, length, length-take, select, take, drop, take_all_of-le,
  All, some_inj, arith, str_eq, not, is_some, ℤ, pos, negsuc, ◌||◌, Bool-cases, inl, inr,
}
use cubesync.Store.{CubeSession, Solf, ok, Conn, Query, Backend, settle, pure, continue, ◌>>=◌}
use cubesync.Store.Reliable.{IsReliable, exec_reliable}
use cubesync.History.{
  Key, earlier, Formats, default_history_limit, max_history_limit, clamped, parse_limit,
  parse_cursor, encode_cursor, Paginated, SessionSummary, last_cursor, page_of, session_key,
  counted_session, counted_key, summary_of, sessions_before, order_desc, list_sessions_paginated,
  list_sessions,
}
use cubesync.History.Order.{
  take-take, final, earlier_trans, Descending, DistinctIds, order_desc-Descending, cut,
  Permᴰ-order_desc, All-order_desc, select-order_desc, select-both, select-map, All-map, All-chosen,
}
use cubesync.History.Cursor.{IsFormat, parse_cursor-encode_cursor}

parse_limit-within :
    (formats : Formats) (raw : String)
    → let n = parse_limit formats raw default_history_limit max_history_limit in (1 ≤ n) × (n ≤ 200)
unfolding parse_limit
parse_limit-within formats raw = given (str_eq raw "") (formats.atoi raw)
  where
    given :
        (b : Bool) (o : Option ℤ)
        → let n =
            (if b
              then default_history_limit
              else clamped default_history_limit max_history_limit o) in
          (1 ≤ n) × (n ≤ 200)
    given true o = (omega arith, omega arith)
    given false none = (omega arith, omega arith)
    given false (some (negsuc n)) = (omega arith, omega arith)
    given false (some (pos n)) = (ground arith, ground arith)

module _ {A : Type 0} (key : A → Key) where
  last_cursor-final :
      (formats : Formats) (cursor : String) (xs : List A) (a : A)
      → final xs ≡ some a
      → last_cursor key formats cursor xs ≡ encode_cursor formats (key a)
  unfolding last_cursor
  last_cursor-final formats cursor [] a e = absurd (cc e)
  last_cursor-final formats cursor (x ∷ []) a e =
      ap (λ y. encode_cursor formats (key y)) (some_inj e)
  last_cursor-final formats cursor (x ∷ y ∷ ys) a e =
      last_cursor-final formats (encode_cursor formats (key x)) (y ∷ ys) a e

  -- What a page with a limit shows of the rows in their order.
  pub record ShowsFirst {B : Type 0} (formats : Formats) (convert : A → B) (limit : ℕ)
      (rows : List A) (page : Paginated B) : Type 0 where
    pub items : page.items ≡ map convert (take limit rows)
    pub has_more : page.has_more ≡ ltb limit (length rows)
    pub resumes :
        page.has_more ≡ true
        → (k : Key) × (parse_cursor formats page.next_cursor ≡ some k)
          × ((j : Key) → All (λ y. earlier j (key y) ≡ true) rows → earlier j k ≡ true)
          × (select (λ y. earlier k (key y)) rows ≡ drop limit rows)
    pub ends : page.has_more ≡ false → page.next_cursor ≡ ""

  page_of-items :
      {B : Type 0} (formats : Formats) (convert : A → B) (limit : ℕ) (rows : List A)
      → (page_of key formats convert limit (take (limit + 1) rows)).items
        ≡ map convert (take limit rows)
  unfolding page_of
  page_of-items formats convert limit rows =
      elim (Bool-cases (ltb limit (length (take (limit + 1) rows)))) [
        | inl more ↦ rw more (ap (map convert) (take-take limit (limit + 1) rows (omega arith)))
        | inr less ↦
            let few : length rows ≤ limit = ground (arith, length-take (limit + 1) rows, less) in
            rw less (
              ap (map convert) (
                take_all_of-le rows (limit + 1) (omega (arith, few))
                ∙ sym (take_all_of-le rows limit few)))
      ]

  module _ {B : Type 0} (formats : Formats) (good : IsFormat formats) (convert : A → B) (limit : ℕ)
      (rows : List A) (one : 1 ≤ limit) (s : Descending key rows) where
    abbrev fetched : List A
    fetched = take (limit + 1) rows

    -- The page where it is known whether there are more rows.
    abbrev page_with : Bool → Paginated B
    page_with b = record {
      items = map convert (if b then take limit fetched else fetched);
      next_cursor =
          if b then last_cursor key formats "" (if b then take limit fetched else fetched) else "";
      has_more = b;
    }

    more-ShowsFirst :
        ltb limit (length rows) ≡ true → ShowsFirst formats convert limit rows (page_with true)
    more-ShowsFirst more =
        let c = cut key limit rows s one (ground arith) in
        record {
          items = ap (map convert) (take-take limit (limit + 1) rows (omega arith));
          has_more = sym more;
          resumes = λ _. (
            key c.last,
            ap (parse_cursor formats) (
                  ap (last_cursor key formats "") (take-take limit (limit + 1) rows (omega arith))
                  ∙ last_cursor-final formats "" (take limit rows) c.last c.its_last)
                ∙ parse_cursor-encode_cursor formats good (key c.last),
            c.among,
            c.rest,
          );
          ends = λ e. absurd (cc e);
        }

    last-ShowsFirst :
        ltb limit (length rows) ≡ false → ShowsFirst formats convert limit rows (page_with false)
    last-ShowsFirst less = record {
      items = ap (map convert) (
          take_all_of-le rows (limit + 1) (ground arith)
          ∙ sym (take_all_of-le rows limit (ground arith)));
      has_more = sym less;
      resumes = λ e. absurd (cc e);
      ends = λ e. refl;
    }

    page_of-ShowsFirst :
        ShowsFirst formats convert limit rows (page_of key formats convert limit fetched)
    unfolding page_of
    page_of-ShowsFirst = decided (ltb limit (length rows)) refl
      where
        fetches_more : ltb limit (length fetched) ≡ ltb limit (length rows)
        fetches_more = ground (arith, length-take (limit + 1) rows)

        decided :
            (b : Bool)
            → ltb limit (length rows) ≡ b
            → ShowsFirst formats convert limit rows (page_with (ltb limit (length fetched)))
        decided true e = rw (fetches_more ∙ e) (more-ShowsFirst e)
        decided false e = rw (fetches_more ∙ e) (last-ShowsFirst e)

Descending-counted :
    (solves : List Solf) (rows : List CubeSession)
    → Descending session_key rows
    → Descending counted_key (map (counted_session solves) rows)
Descending-counted solves [] s = tt
Descending-counted solves (r ∷ rows) s = (below rows s.0, Descending-counted solves rows s.1)
  where
    below :
        (xs : List CubeSession)
        → All (λ y. earlier (session_key r) (session_key y) ≡ true) xs
        → All
            (λ y. earlier (session_key r) (counted_key y) ≡ true)
            (map (counted_session solves) xs)
    below [] a = tt
    below (x ∷ xs) a = (a.0, below xs a.1)

-- The sessions of a user that a page from a cursor may show: not deleted, and started before the
-- cursor's time, or at that time and with a smaller id.
abbrev pub is_listed : ℕ → Key → CubeSession → Bool
is_listed user k r =
    r.user_id == user
    && (not (is_some r.deleted_at)
        && (ltb r.started_at k.ts || r.started_at == k.ts && ltb r.id k.id))

module _ {Raw : Type 0} (formats : Formats) (backend : Backend Raw) (user : ℕ) where
  is_listed-earlier :
      (k : Key) (r : CubeSession) → is_listed user k r ≡ true → earlier k (session_key r) ≡ true
  is_listed-earlier k r h = ground (arith, h)

  -- A later cursor only leaves out more.
  is_listed-later :
      (k k' : Key)
      → earlier k k' ≡ true
      → (r : CubeSession) → is_listed user k' r ≡ (is_listed user k r && earlier k' (session_key r))
  is_listed-later k k' h r = ground (arith, earlier_trans k k' (session_key r) h)

  sessions_before-rest :
      (k k' : Key) (c : Conn Raw)
      → DistinctIds session_key (select (is_listed user k) c.db.cube_sessions)
      → earlier k k' ≡ true
      → sessions_before formats backend user k' c.db
        ≡ select (λ r. earlier k' (counted_key r)) (sessions_before formats backend user k c.db)
  sessions_before-rest k k' c distinct h =
      let counted = counted_session c.db.solves in
      let rows = select (is_listed user k) c.db.cube_sessions in
      let after : CubeSession → Bool = λ r. earlier k' (session_key r) in
      ap (λ rs. map counted (order_desc session_key rs))
        (sym (
          select-both after (is_listed user k) (is_listed user k') (is_listed-later k k' h)
            c.db.cube_sessions))
      ∙ ap (map counted) (sym (select-order_desc session_key after rows distinct))
      ∙ sym (select-map counted (λ r. earlier k' (counted_key r)) (order_desc session_key rows))

  -- A page with a limit from a cursor, on tables that do not change.
  pub record ShowsRows (k : Key) (limit : ℕ) (c : Conn Raw) (page : Paginated SessionSummary)
      : Type 0 where
    pub rows : List CubeSession
    pub all_listed : Permᴰ (select (is_listed user k) c.db.cube_sessions) rows
    pub recent_first : Descending session_key rows
    pub shows :
        ShowsFirst counted_key formats summary_of limit
          (map (counted_session c.db.solves) rows)
          page
    pub goes_on :
        page.has_more ≡ true
        → (raw_limit : String)
        → (next : Paginated SessionSummary) × (list_sessions formats backend user raw_limit
              page.next_cursor c
            ≡ (ok next, c))
          × (next.items
              ≡ map summary_of (
                  take
                    (parse_limit formats raw_limit default_history_limit max_history_limit)
                    (drop limit (map (counted_session c.db.solves) rows))))

  module _ (good : IsFormat formats) (reliable : IsReliable backend) (c : Conn Raw)
      (live : c.aborted ≡ false) where
    list_sessions-page :
        (raw_limit raw_cursor : String) (k : Key)
        → parse_cursor formats raw_cursor ≡ some k
        → let limit = parse_limit formats raw_limit default_history_limit max_history_limit in
          list_sessions formats backend user raw_limit raw_cursor c ≡ (
            ok (
                page_of counted_key formats summary_of limit
                  (take (limit + 1) (sessions_before formats backend user k c.db))),
            c,
          )
    unfolding list_sessions list_sessions_paginated ◌>>=◌ continue pure settle
    list_sessions-page raw_limit raw_cursor k parsed =
        let limit = parse_limit formats raw_limit default_history_limit max_history_limit in
        simp (
          parsed,
          exec_reliable backend reliable Query.list_sessions_paginated
              (λ db. (ok (take (limit + 1) (sessions_before formats backend user k db)), db)) c
              live,
        )

    page-ShowsRows :
        (limit : ℕ) (k : Key)
        → 1 ≤ limit
        → DistinctIds session_key (select (is_listed user k) c.db.cube_sessions)
        → ShowsRows k limit c (
            page_of counted_key formats summary_of limit
              (take (limit + 1) (sessions_before formats backend user k c.db)))
    page-ShowsRows limit k one distinct =
        let listed = select (is_listed user k) c.db.cube_sessions in
        let rows = sessions_before formats backend user k c.db in
        let descending = order_desc-Descending session_key listed distinct in
        let shows =
          page_of-ShowsFirst counted_key formats good summary_of limit rows one
            (Descending-counted c.db.solves _ descending) in
        record {
          rows = order_desc session_key listed;
          all_listed = Permᴰ-order_desc session_key listed;
          recent_first = descending;
          shows = shows;
          goes_on = λ more raw_limit.
              let (k', parsed, among, rest) = shows.resumes more in
              let later : earlier k k' ≡ true = among k (
                All-map (counted_session c.db.solves) (λ y. earlier k (counted_key y) ≡ true)
                  (order_desc session_key listed)
                  (All-order_desc session_key (λ r. earlier k (session_key r) ≡ true) listed
                    (All-chosen (is_listed user k) (λ r. earlier k (session_key r))
                      (is_listed-earlier k) c.db.cube_sessions))) in
              (
                _,
                list_sessions-page raw_limit _ k' parsed,
                page_of-items counted_key formats summary_of
                      (parse_limit formats raw_limit default_history_limit max_history_limit)
                      (sessions_before formats backend user k' c.db)
                    ∙ ap
                        (λ rs. map summary_of (
                          take
                            (parse_limit formats raw_limit default_history_limit max_history_limit)
                            rs))
                        (sessions_before-rest k k' c distinct later ∙ rest),
              );
        }

  -- Where no statement fails and the ids of the sessions differ, listSessions from a cursor that it
  -- accepts answers with the first of the user's sessions before the cursor that are not deleted,
  -- the most recent first, at least 1 and at most 200 of them as the limit says; it says whether
  -- there are more, and then the next call, with its cursor and any limit, goes on with those left
  -- out. The texts of times and uuids are parsed back.
  pub list_sessions-ShowsRows :
      (raw_limit raw_cursor : String) (k : Key) (c : Conn Raw)
      → IsFormat formats
      → IsReliable backend
      → c.aborted ≡ false
      → parse_cursor formats raw_cursor ≡ some k
      → DistinctIds session_key (select (is_listed user k) c.db.cube_sessions)
      → let limit = parse_limit formats raw_limit default_history_limit max_history_limit in
        (1 ≤ limit)
        × (limit ≤ 200)
        × (page : Paginated SessionSummary) × (list_sessions formats backend user raw_limit
              raw_cursor c
            ≡ (ok page, c))
        × ShowsRows k limit c page
  list_sessions-ShowsRows raw_limit raw_cursor k c good reliable live parsed distinct =
      let within = parse_limit-within formats raw_limit in
      (
        within.0,
        within.1,
        _,
        list_sessions-page good reliable c live raw_limit raw_cursor k parsed,
        page-ShowsRows good reliable c live _ k within.0 distinct,
      )
