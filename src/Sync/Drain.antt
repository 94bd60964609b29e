-- ===== src/Sync/Drain.antt =====
-- A client that pulls until `has_more` is false (the client loop of docs/sync-protocol.md), against
-- pullOnly of internal/sync/service.go.
use cubesync.Prelude.{
  ℕ, zero, suc, ◌+◌, ◌<◌, ◌≡◌, String, refl, ap, sym, ◌∙◌, true, false, List, [], ◌∷◌, ◌++◌, map,
  arith, if◌then◌else◌, ℤ, pos, ltb_ℤ, length, length-append, take, Bool-cases, inl, inr,
}
use mathlib.Core.List.{append-nil, map-append}
use cubesync.Store.{Result, ok, err, Query, Backend, Conn, M, exec, ◌>>=◌, ChangeLog, pure, ignore}
use cubesync.Store.Queries.{
  to_int32, after_cursor, list_changes, list_changes_statement, upsert_device,
  upsert_device_statement, update_device_ack_cursor, update_device_ack_cursor_statement, has_user,
}
use cubesync.Sync.Models.{Request, Response, Change, Codec, SyncDevice}
use cubesync.Sync.Pages.{Page, change_of, make_page, read_page}
use cubesync.Sync.Pages.Ascending.{Within, last_cursor, after_cursor-resume}
use cubesync.Sync.Pages.Exact.{Shows, is_nil, nil_of_is_nil, make_page-Shows}
use cubesync.Sync.Service.{Service, pull_only, acknowledge}

-- No statement fails.
abbrev pub IsReliable : {Raw : Type 0} → Backend Raw → Type 0
IsReliable {Raw} backend = (q : Query) (db : cubesync.Store.Db Raw) → backend.fault q db ≡ false

-- What a statement of a pull leaves alone.
pub record SameLog {Raw : Type 0} (c d : Conn Raw) : Type 0 where
  pub log : d.db.change_log ≡ c.db.change_log
  pub flag : d.aborted ≡ c.aborted
  pub users : d.db.users ≡ c.db.users

module _ {Raw : Type 0} (backend : Backend Raw) (reliable : IsReliable backend) where
  to_int32-small : (n : ℕ) → n < 2147483648 → to_int32 n ≡ pos n
  unfolding to_int32
  to_int32-small n h = ground arith

  pub list_changes-ok :
      (user : ℕ) (cursor : ℤ) (n : ℕ) (c : Conn Raw)
      → c.aborted ≡ false
      → n < 2147483648
      → list_changes backend user cursor (to_int32 n) c
        ≡ (ok (take n (after_cursor user cursor c.db.change_log)), c)
  unfolding list_changes list_changes_statement exec
  list_changes-ok user cursor n c live small =
      rw (to_int32-small n small) (ground (arith, live, reliable Query.list_changes c.db))

  upsert_device-ok :
      (id user : ℕ) (name platform : String) (c : Conn Raw)
      → c.aborted ≡ false
      → has_user user c.db.users ≡ true
      → let (r, d) = upsert_device backend id user name platform c in (r ≡ ok tt) × SameLog c d
  unfolding upsert_device upsert_device_statement exec
  upsert_device-ok id user name platform c live known = (
    ground (arith, live, reliable Query.upsert_device c.db),
    record {
      log = ground (arith, live, reliable Query.upsert_device c.db);
      flag = ground (arith, live, reliable Query.upsert_device c.db);
      users = ground (arith, live, reliable Query.upsert_device c.db);
    },
  )

  update_device_ack_cursor-SameLog :
      (user id : ℕ) (cursor : ℤ) (c : Conn Raw)
      → c.aborted ≡ false
      → SameLog c (update_device_ack_cursor backend user id cursor c).1
  unfolding update_device_ack_cursor update_device_ack_cursor_statement exec
  update_device_ack_cursor-SameLog user id cursor c live = record {
    log = ground (arith, live, reliable Query.update_device_ack_cursor c.db);
    flag = ground (arith, live, reliable Query.update_device_ack_cursor c.db);
    users = ground (arith, live, reliable Query.update_device_ack_cursor c.db);
  }

module _ {Raw : Type 0} (s : Service) (codec : Codec Raw) (backend : Backend Raw) (user : ℕ)
    (device : SyncDevice) (proto : ℕ) (req : Request Raw) (limit : ℕ) where
  abbrev at_cursor : ℤ → Request Raw
  at_cursor cursor = record req { cursor = cursor }

  -- The page that the log holds for a cursor.
  abbrev pub page_at : ℤ → List (ChangeLog Raw) → Page Raw
  page_at cursor log =
      make_page codec s.max_response_bytes proto limit cursor
        (take (limit + 1) (after_cursor user cursor log))

  abbrev pub response_of : Page Raw → Response Raw
  response_of page = record {
    outcomes = [];
    changes = page.changes;
    next_cursor = page.next_cursor;
    has_more = page.has_more;
  }

  abbrev after_pull :
      (ℤ → Conn Raw → List (Change Raw)) → Result (Response Raw) × Conn Raw → List (Change Raw)
  after_pull again (err e, c) = []
  after_pull again (ok r, c) = r.changes ++ (if r.has_more then again r.next_cursor c else [])

  -- The changes of at most `fuel` pulls, each from the cursor of the one before.
  pub drain : ℕ → ℤ → Conn Raw → List (Change Raw)
  drain zero cursor c = []
  drain (suc fuel) cursor c =
      after_pull (drain fuel)
        (pull_only s codec backend user device proto (at_cursor cursor) limit c)

  module _ (reliable : IsReliable backend) (small : limit + 1 < 2147483648) where
    acknowledge-SameLog :
        (cursor : ℤ) (c : Conn Raw)
        → c.aborted ≡ false
        → let (r, d) = acknowledge s codec backend user device proto (at_cursor cursor) c in
          (r ≡ ok tt) × SameLog c d
    unfolding acknowledge ignore pure
    acknowledge-SameLog cursor c live = elim (Bool-cases (ltb_ℤ (pos 0) cursor)) [
      | inl later ↦
          rw later
            (refl, update_device_ack_cursor-SameLog backend reliable user device.id cursor c live)
      | inr first ↦ rw first (refl, record { log = refl; flag = refl; users = refl })
    ]

    pull_only-page :
        (cursor : ℤ) (c : Conn Raw)
        → c.aborted ≡ false
        → has_user user c.db.users ≡ true
        → let (r, d) = pull_only s codec backend user device proto (at_cursor cursor) limit c in
          (r ≡ ok (response_of (page_at cursor c.db.change_log))) × SameLog c d
    unfolding pull_only read_page ◌>>=◌
    pull_only-page cursor c live known =
        let (greeted, same) =
          upsert_device-ok backend reliable device.id user device.name device.platform c live
            known in
        let d : Conn Raw = (upsert_device backend device.id user device.name device.platform c).1 in
        let alive : d.aborted ≡ false = same.flag ∙ live in
        let listed = list_changes-ok backend reliable user cursor (limit + 1) d alive small in
        let (acked, same') = acknowledge-SameLog cursor d alive in
        rw (greeted, listed, acked, same.log)
          (
            refl,
            record {
              log = same'.log ∙ same.log;
              flag = same'.flag ∙ same.flag;
              users = same'.users ∙ same.users;
            },
          )

    shrinks :
        (shown rest rows : List (ChangeLog Raw)) (fuel : ℕ)
        → rows ≡ shown ++ rest
        → (is_nil shown ≡ true → is_nil rows ≡ true)
        → is_nil rest ≡ false
        → length rows < suc fuel
        → length rest < fuel
    shrinks [] [] rows fuel e p n h = cc
    shrinks [] (r ∷ rest) rows fuel e p n h = absurd (cc (p refl, ap is_nil e))
    shrinks (x ∷ shown) rest rows fuel e p n h =
        omega (arith, ap length e, length-append shown rest)

    -- Where no statement fails, a client that pulls from a cursor until `has_more` is false receives
    -- every change of its user after the cursor, once and in the order of the log: whatever the
    -- limit, the budget of bytes and the sizes of the payloads are. As many pulls as there are
    -- changes, and one more, are enough. The limit is from 1 to 2^31 - 2, the user exists,
    -- and the ids of the log ascend.
    pub drain_complete :
        (fuel : ℕ) (cursor : ℤ) (c : Conn Raw) (n : ℕ)
        → 0 < limit
        → c.aborted ≡ false
        → has_user user c.db.users ≡ true
        → Within 0 n c.db.change_log
        → length (after_cursor user cursor c.db.change_log) < fuel
        → drain fuel cursor c
          ≡ map (change_of codec proto) (after_cursor user cursor c.db.change_log)
    unfolding drain
    drain_complete zero cursor c n positive live known ordered enough = absurd (omega arith)
    drain_complete (suc fuel) cursor c n positive live known ordered enough =
        let log = c.db.change_log in
        let page = page_at cursor log in
        let d : Conn Raw =
          (pull_only s codec backend user device proto (at_cursor cursor) limit c).1 in
        let (answered, same) = pull_only-page cursor c live known in
        let shows : Shows codec proto cursor (after_cursor user cursor log) page =
          make_page-Shows codec proto s.max_response_bytes limit cursor
            (after_cursor user cursor log) positive in
        let rest_left =
          after_cursor-resume user cursor 0 n log shows.shown shows.rest ordered shows.split in
        rw (answered, shows.in_order, shows.tells_more, shows.resumes)
          (elim (Bool-cases (is_nil shows.rest)) [
            | inl done ↦
                let all_shown : after_cursor user cursor log ≡ shows.shown =
                  shows.split
                  ∙ ap (λ l. shows.shown ++ l) (nil_of_is_nil shows.rest done)
                  ∙ append-nil shows.shown in
                rw done (append-nil (map shown_as shows.shown) ∙ ap (map shown_as) (sym all_shown))
            | inr more ↦
                let next = last_cursor cursor shows.shown in
                let resumed : after_cursor user next d.db.change_log ≡ shows.rest =
                  ap (after_cursor user next) same.log ∙ rest_left in
                let again =
                  drain_complete fuel next d n positive (same.flag ∙ live) (rw same.users known)
                    (rw same.log ordered)
                    (rw resumed (
                      shrinks shows.shown shows.rest _ fuel shows.split shows.progress more
                        enough)) in
                rw more (
                  ap (λ l. map shown_as shows.shown ++ l) (again ∙ ap (map shown_as) resumed)
                  ∙ sym (map-append shown_as shows.shown shows.rest)
                  ∙ ap (map shown_as) (sym shows.split))
          ])
      where
        shown_as : ChangeLog Raw → Change Raw
        shown_as = change_of codec proto
