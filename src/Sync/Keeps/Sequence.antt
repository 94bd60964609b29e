-- ===== src/Sync/Keeps/Sequence.antt =====
-- The sequence of change_log never goes back.
use cubesync.Prelude.{ℕ, ◌≤◌, arith, ℤ, pos, negsuc}
use cubesync.Store.{Db, Backend}
use cubesync.Store.Keeps.{SequenceFrom}
use cubesync.Store.Queries.{
  upsert_device_statement, update_device_ack_cursor_statement, append_change_statement,
  record_processed_mutation_statement,
}
use cubesync.Store.Entities.{insert_session_statement, insert_solve_statement}
use cubesync.Sync.Keeps.Closed.{Closed}

pub SequenceFrom-Closed :
    {Raw : Type 0} (backend : Backend Raw) (user k : ℕ) → Closed backend user (SequenceFrom k)
unfolding upsert_device_statement update_device_ack_cursor_statement append_change_statement
    record_processed_mutation_statement insert_session_statement insert_solve_statement
SequenceFrom-Closed {Raw} backend user k = record {
  device = λ id name platform db h. ground arith;
  ack = ack;
  processed = λ device mutation outcome db h. ground arith;
  entities = record {
    change = λ t i o v p db h. ground arith;
    new_session = λ p db h. ground arith;
    new_solve = λ p db h. ground arith;
    changed_session = λ p r db h e. h;
    removed_session = λ id r db h e. h;
    changed_solve = λ p r db h e found. h;
    removed_solve = λ id r db h e. h;
  };
}
  where
    ack :
        (id : ℕ) (cursor : ℤ) (db : Db Raw)
        → k ≤ db.last_change_id
        → k ≤ (update_device_ack_cursor_statement backend user id cursor db).1.last_change_id
    ack id (pos n) db h = h
    ack id (negsuc n) db h = h
