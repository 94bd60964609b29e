-- ===== src/Sync/Tests.antt =====
-- Examples: a user with one device, and what the theorems say of small requests.
use mathlib.Core.List.{Permᴰ}
use cubesync.Prelude.{ℕ, ◌+◌, ◌≡◌, refl, String, [], ◌∷◌, map, select, some, arith, take, pos}
use cubesync.Store.{
  Db, Conn, ok, err, failed, exec, settle, pure, raise, optional, optional_result, ◌>>=◌, continue,
  rolled_back, commit, finish, transaction,
}
use cubesync.Store.Queries.{
  acquire_advisory_lock, upsert_device, upsert_device_statement, append_change,
  append_change_statement, outcome_row, get_processed_mutation, record_processed_mutation,
  record_processed_mutation_statement,
}
use cubesync.Store.Entities.{
  row_or_none, get_session, insert_session_statement, insert_session, has_session,
}
use cubesync.Sync.Validate.{
  accepted, rejected, validate_mutation_envelope, valid_event, validate_session, validate_solve,
}
use cubesync.Sync.Models.{MutationOutcome, is_conflict}
use cubesync.Sync.Convert.{
  session_conflict, session_from_db, or_fail, or_outcome, append_session_change,
}
use cubesync.Sync.Sessions.{
  apply_session, apply_valid_session, apply_session_upsert, checked_session, write_session,
  session_upserted,
}
use cubesync.Sync.Apply.{apply_entity, apply_new_mutation, replay_or_apply, apply_mutation}
use cubesync.Sync.Pages.{change_of, make_page}
use cubesync.Sync.Pages.Exact.{Shows, make_page-Shows}
use cubesync.Sync.Service.{
  effective_limit, insert_mutation, sort_mutations, check_ids, check_request, raise_some,
  check_cursor_not_expired, apply_mutations, push_and_read, push, push_or_pull, sync,
}
use cubesync.Sync.Drain.{drain, drain_complete}
use cubesync.Sync.Isolation.{rows_of, sync-isolated}
use cubesync.Sync.Sound.{IsSound, sync-IsSound}
use cubesync.Sync.Replay.{apply_mutation-idempotent}
use cubesync.Sync.Atomic.{sync-atomic}
use cubesync.Sync.Order.{Ordered, is_of, sort_mutations-Ordered}
use cubesync.Sync.Stale.{IsRefused, stale_session-IsRefused}
use cubesync.Sync.Rejection.{missing_session-fails}
use cubesync.Sync.Examples.{
  Doc, conflict_doc, spaced, server-ReadsBack, doc_codec, server, full_server, service, phone,
  change_at, tables, on_pool, in_transaction, create_session, push_request, orphan, create_orphan,
  morning_row, with_morning,
}

-- The session exists, at another version: the answer has its current state, written with spaces.
abbrev conflict : MutationOutcome Doc
conflict = record {
  mutation_id = 11;
  status = is_conflict;
  version = 2;
  code = "";
  message = "";
  current = some (spaced (conflict_doc (record { id = 21; version = 2; updated_at = 6 })));
}

abbrev answered : Conn Doc
answered = (apply_mutation doc_codec server 7 create_session 2 3 with_morning).1

create_session-conflicts :
    apply_mutation doc_codec server 7 create_session 2 3 with_morning ≡ (ok conflict, answered)
unfolding apply_mutation replay_or_apply apply_new_mutation apply_entity apply_session
    apply_valid_session apply_session_upsert checked_session write_session session_upserted
    append_session_change session_from_db session_conflict or_fail or_outcome
    validate_mutation_envelope validate_session valid_event accepted rejected get_session
    row_or_none insert_session insert_session_statement append_change append_change_statement
    get_processed_mutation outcome_row record_processed_mutation record_processed_mutation_statement
    exec settle pure raise optional optional_result ◌>>=◌ continue
create_session-conflicts = refl

-- Sent again, the mutation is answered with the text that jsonb keeps.
apply_mutation-idempotent_example :
    apply_mutation doc_codec server 7 create_session 2 3 answered ≡ (
      ok (record conflict {
        current = some (conflict_doc (record { id = 21; version = 2; updated_at = 6 }));
      }),
      answered,
    )
apply_mutation-idempotent_example =
    apply_mutation-idempotent doc_codec server 7 3 create_session 2 (λ db. refl) refl conflict
      with_morning answered (server-ReadsBack conflict) refl create_session-conflicts

drain_complete_example :
    drain service doc_codec server 7 phone 2 push_request 1 4 (pos 0) on_pool
    ≡ map (change_of doc_codec 2) (change_at 1 ∷ change_at 2 ∷ change_at 3 ∷ [])
drain_complete_example =
    drain_complete service doc_codec server 7 phone 2 push_request 1 (λ q db. refl) (omega arith) 4
      (pos 0) on_pool 3 (omega arith) refl refl
      (omega arith, (omega arith, (omega arith, omega arith))) (omega arith)

abbrev refused : Db Doc
refused = (sync service doc_codec full_server 7 push_request 2 on_pool).1.db

full_server-fails : (sync service doc_codec full_server 7 push_request 2 on_pool).0 ≡ err failed
unfolding sync check_request check_ids raise_some check_cursor_not_expired push_or_pull push
    push_and_read sort_mutations insert_mutation apply_mutations acquire_advisory_lock upsert_device
    upsert_device_statement transaction finish commit rolled_back effective_limit apply_mutation
    replay_or_apply apply_new_mutation apply_entity apply_session apply_valid_session
    apply_session_upsert checked_session write_session session_upserted append_session_change
    session_from_db or_fail or_outcome validate_mutation_envelope validate_session valid_event
    accepted rejected get_session row_or_none insert_session insert_session_statement append_change
    append_change_statement get_processed_mutation outcome_row record_processed_mutation
    record_processed_mutation_statement exec settle pure raise optional optional_result ◌>>=◌
    continue
full_server-fails = refl

sync-atomic_example : refused ≡ record tables { last_change_id = refused.last_change_id }
sync-atomic_example =
    sync-atomic service doc_codec full_server 7 2 push_request on_pool create_session [] failed
      (λ db. refl) refl full_server-fails

sync-isolated_example :
    rows_of 8 (sync service doc_codec server 7 push_request 2 on_pool).1.db ≡ rows_of 8 tables
sync-isolated_example =
    sync-isolated service doc_codec server 7 8 push_request 2 on_pool
      (λ e. absurd (omega (arith, e)))

sync-IsSound_example : IsSound (sync service doc_codec server 7 push_request 2 on_pool).1.db
sync-IsSound_example = sync-IsSound service doc_codec server 7 push_request 2 on_pool (record {
  ordered = (omega arith, (omega arith, (omega arith, omega arith)));
  sessions = tt;
  solves = tt;
  references = tt;
})

missing_session-fails_example :
    (apply_new_mutation doc_codec server 7 create_orphan 2 3 in_transaction).0 ≡ err failed
unfolding validate_mutation_envelope validate_solve valid_event has_session
missing_session-fails_example =
    missing_session-fails doc_codec server 7 create_orphan 2 3 (λ q db. refl) orphan in_transaction
      refl refl refl refl refl refl refl refl refl refl refl

make_page-Shows_example :
    Shows doc_codec 2
      (pos 0)
      (change_at 1 ∷ change_at 2 ∷ [])
      (make_page doc_codec 250 2 1 (pos 0) (take (1 + 1) (change_at 1 ∷ change_at 2 ∷ [])))
make_page-Shows_example =
    make_page-Shows doc_codec 2 250 1 (pos 0) (change_at 1 ∷ change_at 2 ∷ []) (omega arith)

sort_mutations-Ordered_example :
    let ms = create_orphan ∷ create_session ∷ record create_orphan { id = 13 } ∷ [] in
    Ordered (sort_mutations ms)
    × Permᴰ ms (sort_mutations ms)
    × ((entity : String) (id : ℕ)
        → select (is_of entity id) (sort_mutations ms) ≡ select (is_of entity id) ms)
sort_mutations-Ordered_example =
    sort_mutations-Ordered (create_orphan ∷ create_session ∷ record create_orphan { id = 13 } ∷ [])

stale_session-IsRefused_example :
    IsRefused with_morning (apply_session doc_codec server 7 create_session 2 with_morning)
stale_session-IsRefused_example =
    stale_session-IsRefused doc_codec server 7 create_session 2 with_morning morning_row refl refl
      refl refl
