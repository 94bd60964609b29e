-- ===== src/Retention/Safety.antt =====
-- What retention leaves for the devices that still sync.
use mathlib.Core.List.{Memᴰ}
use cubesync.Prelude.{
  ℕ, ◌-◌, ◌≤◌, ◌<◌, ◌≡◌, refl, ap, sym, ◌∙◌, Bool, true, false, not, ◌&&◌, Option, none, some, List,
  [], ◌∷◌, arith, ltb, ◌==◌, if◌then◌else◌, ℤ, pos, select, select-select_keep, Bool-cases, inl,
  inr,
}
use cubesync.Store.{
  Db, Device, ChangeLog, Result, ok, err, Conn, Query, Backend, M, exec, settle, failed, continue,
  pure, ◌>>=◌,
}
use cubesync.Store.Queries.{
  active, min_ack, least_ack, after_cursor, min_valid_cursor, prune_change_log,
  prune_processed_mutations,
}
use cubesync.Store.Keeps.{Keeps, Keeps-exec, Keeps-if, Keeps-pure, Keeps-bind, Keeps-ignore}
use cubesync.Sync.Service.{effective_inactive_window}
use cubesync.Retention.{
  attempt, attempt_result, list_users_with_changes, prune_below, prune_user, prune_users,
  prune_listed, run_once,
}

least_ack-le : (m : ℕ) (ds : List Device) → least_ack m ds ≤ m
least_ack-le m [] = omega arith
least_ack-le m (d ∷ ds) =
    ground (arith, least_ack-le (if ltb d.last_ack_cursor m then d.last_ack_cursor else m) ds)

least_ack-member :
    (m : ℕ) (ds : List Device) (d : Device) → Memᴰ d ds → least_ack m ds ≤ d.last_ack_cursor
least_ack-member m [] d h = elim h [ ]
least_ack-member m (x ∷ ds) d (Memᴰ.head e) = ground (
  arith,
  ap (λ r. r.last_ack_cursor) e,
  least_ack-le (if ltb x.last_ack_cursor m then x.last_ack_cursor else m) ds,
)
least_ack-member m (x ∷ ds) d (Memᴰ.tail h) =
    least_ack-member (if ltb x.last_ack_cursor m then x.last_ack_cursor else m) ds d h

min_ack-member : (ds : List Device) (d : Device) → Memᴰ d ds → min_ack ds ≤ d.last_ack_cursor
min_ack-member [] d h = elim h [ ]
min_ack-member (x ∷ ds) d (Memᴰ.head e) = rw e (least_ack-le x.last_ack_cursor ds)
min_ack-member (x ∷ ds) d (Memᴰ.tail h) = least_ack-member x.last_ack_cursor ds d h

select-member :
    (p : Device → Bool) (ds : List Device) (d : Device)
    → p d ≡ true
    → Memᴰ d ds
    → Memᴰ d (select p ds)
select-member p [] d e h = elim h [ ]
select-member p (x ∷ ds) d e (Memᴰ.head same) = rw (sym (ap p same) ∙ e) (Memᴰ.head same)
select-member p (x ∷ ds) d e (Memᴰ.tail h) = elim (Bool-cases (p x)) [
  | inl takes ↦ rw takes (Memᴰ.tail (select-member p ds d e h))
  | inr drops ↦ rw drops (select-member p ds d e h)
]

-- The devices, and the user's changes after a cursor.
pub record Keeping {Raw : Type 0} (devices : List Device) (user k : ℕ) (log : List (ChangeLog Raw))
    (db : Db Raw) : Type 0 where
  pub same_devices : db.devices ≡ devices
  pub same_log : after_cursor user (pos k) db.change_log ≡ log

-- The property, of the tables that a call leaves.
abbrev Leaves : {Raw A : Type 0} → (Db Raw → Type 0) → Result A × Conn Raw → Type 0
Leaves P r = P r.1.db

module _ {Raw : Type 0} (backend : Backend Raw) (devices : List Device) (owner k : ℕ)
    (log : List (ChangeLog Raw)) where
  attempt-Keeps : {A : Type 0} {P : Db Raw → Type 0} (m : M Raw A) → Keeps P m → Keeps P (attempt m)
  unfolding attempt attempt_result
  attempt-Keeps {A} {P} m km = record { at = λ c h. result (m c) (km.at c h) }
    where
      result : (r : Result A × Conn Raw) → P r.1.db → P (attempt_result r).1.db
      result (ok a, c) h = h
      result (err e, c) h = h

  prune_change_log-Keeps :
      (user least : ℕ)
      → (user ≡ owner → least ≤ k)
      → Keeps (Keeping devices owner k log) (prune_change_log backend user least)
  unfolding prune_change_log
  prune_change_log-Keeps user least behind = Keeps-exec backend _ _ λ db h. record {
    same_devices = h.same_devices;
    same_log =
        select-select_keep _ (λ r. not (r.user_id == user && ltb r.change_id least)) db.change_log
          (λ r e. ground (arith, behind))
        ∙ h.same_log;
  }

  prune_processed-Keeps :
      (user cutoff : ℕ)
      → Keeps (Keeping devices owner k log) (prune_processed_mutations backend user cutoff)
  unfolding prune_processed_mutations
  prune_processed-Keeps user cutoff =
      Keeps-exec backend _ _ λ db h. record { same_devices = h.same_devices; same_log = h.same_log }

  prune_below-Keeps :
      (cutoff user least : ℕ)
      → (user ≡ owner → least ≤ k)
      → Keeps (Keeping devices owner k log) (prune_below backend cutoff user (some least))
  unfolding prune_below
  prune_below-Keeps cutoff user least behind = Keeps-if (least == 0) _ _ (Keeps-pure tt) (
      Keeps-bind _ _ (Keeps-ignore _ (prune_change_log-Keeps user least behind))
        (λ _. Keeps-ignore _ (prune_processed-Keeps user cutoff)))

  module _ (cutoff : ℕ) (behind : min_ack (active owner cutoff devices) ≤ k) where
    -- The minimum that the statement returns is at most `k` for the owner.
    pruned_after :
        (user : ℕ) (c : Conn Raw) (aborted fails : Bool)
        → Keeping devices owner k log c.db
        → Leaves (Keeping devices owner k log) (
            continue (prune_below backend cutoff user) (
              attempt_result (
                if aborted
                then (err failed, c)
                else if fails
                then (err failed, record c { aborted = c.in_tx })
                else (ok (min_ack (active user cutoff c.db.devices)), record c { db = c.db }))))
    unfolding attempt_result continue prune_below pure
    pruned_after user c true fails h = h
    pruned_after user c false true h = h
    pruned_after user c false false h =
        (prune_below-Keeps cutoff user (min_ack (active user cutoff c.db.devices))
            (λ e. rw (e, h.same_devices) behind)).at
          (record c { db = c.db }) h

    prune_user-Keeps :
        (user : ℕ) → Keeps (Keeping devices owner k log) (prune_user backend cutoff user)
    unfolding prune_user min_valid_cursor exec settle attempt ◌>>=◌
    prune_user-Keeps user = record {
      at = λ c h. pruned_after user c c.aborted (backend.fault Query.min_valid_cursor c.db) h;
    }

    prune_users-Keeps :
        (users : List ℕ) → Keeps (Keeping devices owner k log) (prune_users backend cutoff users)
    unfolding prune_users
    prune_users-Keeps [] = Keeps-pure tt
    prune_users-Keeps (user ∷ users) =
        Keeps-bind _ _ (prune_user-Keeps user) (λ _. prune_users-Keeps users)

    prune_listed-Keeps :
        (o : Option (List ℕ)) → Keeps (Keeping devices owner k log) (prune_listed backend cutoff o)
    unfolding prune_listed
    prune_listed-Keeps none = Keeps-pure tt
    prune_listed-Keeps (some users) = prune_users-Keeps users

    list_users-Keeps : Keeps (Keeping devices owner k log) (list_users_with_changes backend)
    unfolding list_users_with_changes
    list_users-Keeps = Keeps-exec backend _ _ (λ db h. h)

  run_once-Keeps :
      (window : ℤ)
      → min_ack (active owner (backend.now - effective_inactive_window window) devices) ≤ k
      → Keeps (Keeping devices owner k log) (run_once backend window)
  unfolding run_once
  run_once-Keeps window behind =
      Keeps-bind _ _ (attempt-Keeps _ (list_users-Keeps _ behind)) (prune_listed-Keeps _ behind)

-- A run of retention, whatever statements of it fail, keeps every change that a device seen within
-- the window has not acknowledged: the changes of its user after its acknowledged cursor are
-- the same before and after. The devices stay as they were.
pub run_once-keeps_unacknowledged :
    {Raw : Type 0} (backend : Backend Raw) (window : ℤ) (c : Conn Raw) (d : Device)
    → Memᴰ d c.db.devices
    → backend.now - effective_inactive_window window < d.last_seen_at
    → let after = (run_once backend window c).1.db in
      (after.devices ≡ c.db.devices)
      × (after_cursor d.user_id (pos d.last_ack_cursor) after.change_log
          ≡ after_cursor d.user_id (pos d.last_ack_cursor) c.db.change_log)
run_once-keeps_unacknowledged backend window c d member recent =
    let kept =
      (run_once-Keeps backend c.db.devices d.user_id d.last_ack_cursor
          (after_cursor d.user_id (pos d.last_ack_cursor) c.db.change_log) window
          (min_ack-member _ d (select-member _ c.db.devices d (ground arith) member))).at
        c (record { same_devices = refl; same_log = refl }) in
    (kept.same_devices, kept.same_log)
