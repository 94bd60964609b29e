-- ===== src/Sync/Replay.antt =====
-- A mutation that is sent again: applyMutation and the stored outcome.
use cubesync.Prelude.{
  ℕ, ◌≡◌, refl, ap, sym, ◌∙◌, Bool, true, false, Option, none, some, List, [], ◌∷◌, ◌++◌, arith,
  ◌==◌, if◌then◌else◌, any, find, is_some, if_both,
}
use cubesync.Store.{
  Db, ProcessedMutation, Result, ok, err, failed, foreign_key_violation, Query, Conn, Backend, exec,
  settle, pure, raise, optional, optional_result, ◌>>=◌, ◌>>◌, continue,
}
use cubesync.Store.Bind.{exec_of_works}
use cubesync.Store.Queries.{
  is_processed, is_device, outcome_row, get_processed_mutation, record_processed_mutation,
  record_processed_mutation_statement, append_change_statement,
}
use cubesync.Store.Entities.{
  insert_session_statement, insert_solve_statement, session_of, solve_of, has_session,
}
use cubesync.Sync.Models.{Mutation, MutationOutcome, Codec}
use cubesync.Sync.Validate.{nil_uuid}
use cubesync.Sync.Convert.{or_fail}
use cubesync.Sync.Apply.{apply_entity, apply_new_mutation, replay_or_apply, apply_mutation}
use cubesync.Sync.Keeps.Closed.{EntityClosed, Written}
use cubesync.Sync.Keeps.Mutations.{apply_entity-Keeps}

-- The stored outcomes.
abbrev SameProcessed : {Raw : Type 0} → List (ProcessedMutation Raw) → Db Raw → Type 0
SameProcessed ps db = db.processed_mutations ≡ ps

SameProcessed-EntityClosed :
    {Raw : Type 0} (backend : Backend Raw) (user : ℕ) (ps : List (ProcessedMutation Raw))
    → EntityClosed backend user (SameProcessed ps)
unfolding append_change_statement insert_session_statement insert_solve_statement
SameProcessed-EntityClosed backend user ps = record {
  change = λ t i o v p db h. h;
  new_session =
      λ p db h. if_both (Written (SameProcessed ps)) (is_some (session_of user p.id db)) h h;
  new_solve = λ p db h.
      if_both (Written (SameProcessed ps)) (is_some (solve_of user p.id db)) h
        (if_both (Written (SameProcessed ps)) (has_session user p.session_id db.cube_sessions) h h);
  changed_session = λ p r db h e. h;
  removed_session = λ id r db h e. h;
  changed_solve = λ p r db h e found. h;
  removed_solve = λ id r db h e. h;
}

module _ {A : Type 0} (p : A → Bool) where
  any-find-none : (xs : List A) → find p xs ≡ none → any p xs ≡ false
  any-find-none [] h = refl
  any-find-none (x ∷ xs) h = ground (arith, any-find-none xs)

  find-append_last :
      (xs : List A) (x : A) → find p xs ≡ none → p x ≡ true → find p (xs ++ x ∷ []) ≡ some x
  find-append_last [] x h e = rw e
  find-append_last (y ∷ xs) x h e = ground (arith, find-append_last xs x)

module _ {Raw : Type 0} (codec : Codec Raw) (backend : Backend Raw) where
  -- The outcome as jsonb gives it back: the document in it as jsonb stores it.
  abbrev pub stored_document : Option Raw → Option Raw
  stored_document none = none
  stored_document (some raw) = some (backend.jsonb raw)

  abbrev pub as_stored : MutationOutcome Raw → MutationOutcome Raw
  as_stored o = record o { current = stored_document o.current }

  -- The answer to a mutation that is sent again: the stored outcome, which the first answer gave
  -- either as it was read, or before it was stored.
  abbrev pub again : Option (ProcessedMutation Raw) → MutationOutcome Raw → MutationOutcome Raw
  again none o = as_stored o
  again (some p) o = o

  -- What encoding/json and jsonb do to an outcome: its own fields are read back, and the document in
  -- it as jsonb stores that document.
  abbrev pub ReadsBack : MutationOutcome Raw → Type 0
  ReadsBack o =
      (raw : Raw)
      → codec.marshal_outcome o ≡ some raw
      → codec.unmarshal_outcome (backend.jsonb raw) ≡ some (as_stored o)

module _ {Raw : Type 0} (codec : Codec Raw) (backend : Backend Raw) (user device : ℕ)
    (m : Mutation Raw) (proto : ℕ) where
  abbrev outcome_of : Option (ProcessedMutation Raw) → Option Raw
  outcome_of none = none
  outcome_of (some p) = some p.outcome

  abbrev pub stored_row : Db Raw → Option (ProcessedMutation Raw)
  stored_row db = find (is_processed user device m.id) db.processed_mutations

  -- The outcome is stored, on a connection that works.
  record Stored (o : MutationOutcome Raw) (d : Conn Raw) : Type 0 where
    raw : Raw
    live : d.aborted ≡ false
    marshaled : codec.marshal_outcome o ≡ some raw
    found : outcome_of (stored_row d.db) ≡ some (backend.jsonb raw)

  lookup :
      (c : Conn Raw)
      → backend.fault Query.get_processed_mutation c.db ≡ false
      → c.aborted ≡ false
      → optional (get_processed_mutation backend user device m.id) c
        ≡ (ok (outcome_of (stored_row c.db)), c)
  unfolding optional get_processed_mutation outcome_row optional_result settle
  lookup c reads live =
      ap optional_result (exec_of_works backend Query.get_processed_mutation _ c live reads)
      ∙ row (stored_row c.db)
    where
      row :
          (r : Option (ProcessedMutation Raw))
          → optional_result (settle c (outcome_row r c.db)) ≡ (ok (outcome_of r), c)
      row none = refl
      row (some p) = refl

  recorded_row :
      (o out : MutationOutcome Raw) (raw : Raw) (c d : Conn Raw) (dead fails known owned : Bool)
      → c.aborted ≡ dead
      → known ≡ false
      → stored_row c.db ≡ none
      → codec.marshal_outcome out ≡ some raw
      → continue
          (λ _. pure out)
          (if dead
            then (err failed, c)
            else if fails
            then (err failed, record c { aborted = c.in_tx })
            else settle c (
                if known
                then (ok tt, c.db)
                else if owned
                then (
                  ok tt,
                  record c.db {
                    processed_mutations =
                        c.db.processed_mutations
                        ++ record {
                          user_id = user;
                          device_id = device;
                          mutation_id = m.id;
                          outcome = backend.jsonb raw;
                          created_at = backend.now;
                        }
                          ∷ [];
                  },
                )
                else (err foreign_key_violation, c.db)))
        ≡ (ok o, d)
      → Stored o d
  unfolding continue settle pure
  recorded_row o out raw c d true fails known owned live k n e h = absurd (cc (ap (λ r. r.0) h))
  recorded_row o out raw c d false true known owned live k n e h = absurd (cc (ap (λ r. r.0) h))
  recorded_row o out raw c d false false true owned live k n e h = absurd (cc k)
  recorded_row o out raw c d false false false false live k n e h = absurd (cc (ap (λ r. r.0) h))
  recorded_row o out raw c d false false false true live k n e h =
      let same : out ≡ o = cc (ap (λ r. r.0) h) in
      let left = ap (λ r. r.1) h in
      record {
        raw = raw;
        live = sym (ap (λ x. x.aborted) left) ∙ live;
        marshaled = ap codec.marshal_outcome (sym same) ∙ e;
        found =
            sym (ap (λ x. outcome_of (stored_row x.db)) left)
            ∙ ap outcome_of (
                find-append_last (is_processed user device m.id) c.db.processed_mutations _ n
                  (ground arith));
      }

  recorded :
      (o out : MutationOutcome Raw) (c d : Conn Raw) (marshaled : Option Raw)
      → codec.marshal_outcome out ≡ marshaled
      → stored_row c.db ≡ none
      → (or_fail marshaled >>= λ raw.
            record_processed_mutation backend user device m.id raw >> pure out)
          c
        ≡ (ok o, d)
      → Stored o d
  unfolding or_fail raise pure ◌>>=◌ continue record_processed_mutation
      record_processed_mutation_statement exec
  recorded o out c d none e n h = absurd (cc (ap (λ r. r.0) h))
  recorded o out c d (some raw) e n h =
      recorded_row o out raw c d c.aborted (backend.fault Query.record_processed_mutation c.db)
        (any (is_processed user device m.id) c.db.processed_mutations)
        (any (is_device user device) c.db.devices) refl
        (any-find-none (is_processed user device m.id) c.db.processed_mutations n) n e h

  recorded_after :
      (o : MutationOutcome Raw) (d : Conn Raw) (r : Result (MutationOutcome Raw) × Conn Raw)
      → stored_row r.1.db ≡ none
      → continue
          (λ out. or_fail (codec.marshal_outcome out) >>= λ raw.
            record_processed_mutation backend user device m.id raw >> pure out)
          r
        ≡ (ok o, d)
      → Stored o d
  unfolding continue
  recorded_after o d (err e, c) n h = absurd (cc (ap (λ r. r.0) h))
  recorded_after o d (ok out, c) n h = recorded o out c d _ refl n h

  apply_new_mutation-Stored :
      (o : MutationOutcome Raw) (c d : Conn Raw)
      → stored_row c.db ≡ none
      → apply_new_mutation codec backend user m proto device c ≡ (ok o, d)
      → Stored o d
  unfolding apply_new_mutation ◌>>=◌
  apply_new_mutation-Stored o c d n h =
      recorded_after o d (apply_entity codec backend user m proto c)
        (ap (find (is_processed user device m.id)) (
            (apply_entity-Keeps codec backend user (SameProcessed c.db.processed_mutations)
                (SameProcessed-EntityClosed backend user c.db.processed_mutations) m proto).at
              c refl)
          ∙ n)
        h

  module _ (reads : (db : Db Raw) → backend.fault Query.get_processed_mutation db ≡ false)
      (named : (m.id == nil_uuid) ≡ false) where
    looked_up :
        (c : Conn Raw)
        → c.aborted ≡ false
        → apply_mutation codec backend user m proto device c
          ≡ replay_or_apply codec backend user m proto device (outcome_of (stored_row c.db)) c
    unfolding apply_mutation ◌>>=◌ continue
    looked_up c live = rw (named, lookup c (reads c.db) live) refl

    replays :
        (o : MutationOutcome Raw) (d : Conn Raw)
        → ReadsBack codec backend o
        → Stored o d
        → apply_mutation codec backend user m proto device d ≡ (ok (as_stored codec backend o), d)
    unfolding replay_or_apply or_fail pure
    replays o d reads_back kept =
        looked_up d kept.live ∙ rw (kept.found, reads_back kept.raw kept.marshaled) refl

    or_fail-conn : (raw : Option (MutationOutcome Raw)) (c : Conn Raw) → (or_fail raw c).1 ≡ c
    unfolding or_fail raise pure
    or_fail-conn none c = refl
    or_fail-conn (some o) c = refl

    replayed_row :
        (o : MutationOutcome Raw) (c d : Conn Raw) (r : Option (ProcessedMutation Raw))
        → ReadsBack codec backend o
        → c.aborted ≡ false
        → stored_row c.db ≡ r
        → replay_or_apply codec backend user m proto device (outcome_of r) c ≡ (ok o, d)
        → apply_mutation codec backend user m proto device d ≡ (ok (again codec backend r o), d)
    unfolding replay_or_apply
    replayed_row o c d none reads_back live e h =
        replays o d reads_back (apply_new_mutation-Stored o c d e h)
    replayed_row o c d (some p) reads_back live e h =
        ap (apply_mutation codec backend user m proto device)
          (sym (ap (λ r. r.1) h) ∙ or_fail-conn (codec.unmarshal_outcome p.outcome) c)
        ∙ looked_up c live
        ∙ ap (λ r. replay_or_apply codec backend user m proto device (outcome_of r) c) e
        ∙ h

    -- Applying a mutation again, with the same id and the same device, on the connection on which
    -- the first time succeeded, changes nothing and returns the outcome of the first time: exactly,
    -- where that was already a stored outcome, and else with the document in it, the server's
    -- current version on a conflict, as jsonb stores it. The id is not nil, reading a stored outcome
    -- does not fail, and the outcome, marshaled and stored as jsonb, is unmarshaled with its own
    -- fields.
    pub apply_mutation-idempotent :
        (o : MutationOutcome Raw) (c d : Conn Raw)
        → ReadsBack codec backend o
        → c.aborted ≡ false
        → apply_mutation codec backend user m proto device c ≡ (ok o, d)
        → apply_mutation codec backend user m proto device d
          ≡ (ok (again codec backend (stored_row c.db) o), d)
    apply_mutation-idempotent o c d reads_back live h =
        replayed_row o c d (stored_row c.db) reads_back live refl (sym (looked_up c live) ∙ h)
