-- ===== src/StateManager/TimeoutCheck.antt =====
-- When `timeout_operation_id` takes an operation from its worker, and what becomes of it.
use native_link.Base.{
  ℕ, ◌+◌, ◌≤◌, ◌<◌, Bool, true, false, Option, none, some, ◌≡◌, refl, sym, ◌∙◌, ap, arith, ltb, ok,
  err, Error, if◌then◌else◌, Code, Code-discrete, make_err, inl, inr,
}
use native_link.ActionMessages.{OperationId, WorkerId, is_executing, is_finished, is_queued}
use native_link.AwaitedAction.{AwaitedAction}
use native_link.StateManager.{
  AwaitedActionDb, Config, duration_bound, is_backpressure, fail_stage, set_stage, store_stage,
  apply_update, update_round, update_loop, inner_update_operation, assign_operation,
  timeout_executing, timeout_operation_id, finish, update_with_error,
}
use native_link.StateManager.Retries.{accepts, set_stage_lem, fail_stage_lem}

no_worker : (queued : Bool) → ◌≡◌ {A = Option WorkerId} (if queued then none else none) none
no_worker true = refl
no_worker false = refl

one_more : (n : ℕ) → 1 + n ≡ n + 1
one_more n = omega arith

module _ (db : AwaitedActionDb) (config : Config) (w : db.World) (o : OperationId)
    (s : db.Subscriber) (a : AwaitedAction) (found : (db.get_by_operation_id w o).1 ≡ ok (some s))
    (read : (db.borrow (db.get_by_operation_id w o).0 s).1 ≡ ok a) where
  -- The world after the check's reads, and after its look at the clock.
  abbrev pub after_reads : db.World
  after_reads = (db.borrow (db.get_by_operation_id w o).0 s).0

  abbrev pub checked : db.World
  checked = (db.elapsed after_reads).0

  abbrev pub deadline : ℕ
  deadline = a.last_worker_updated_timestamp + config.no_event_action_timeout

  timed_out-assigns :
      is_executing a.state.stage ≡ true
      → deadline < duration_bound db config
      → (db.elapsed after_reads).1 ≤ deadline
      → timeout_operation_id db config w o
        ≡ assign_operation db config checked o
            (err (make_err Code.deadline_exceeded "Operation timed out"))
  unfolding timeout_operation_id timeout_executing
  timed_out-assigns e small early = rw (found, timeout_operation_id, read, e) (ground arith)

abbrev pub timed_out : Error
timed_out = make_err Code.deadline_exceeded "Operation timed out"

-- The update that follows reads the operation once more: another task may have changed it.
module _ (db : AwaitedActionDb) (config : Config) (w : db.World) (o : OperationId)
    (s : db.Subscriber) (a : AwaitedAction) (found : (db.get_by_operation_id w o).1 ≡ ok (some s))
    (read : (db.borrow (db.get_by_operation_id w o).0 s).1 ≡ ok a) (e : Error) where
  abbrev pub reread : db.World
  reread = (db.borrow (db.get_by_operation_id w o).0 s).0

  -- What is written: the operation without its worker.
  abbrev pub taken : AwaitedAction
  taken =
      let out = fail_stage config db.show_worker a none e in
      set_stage out.0 o none out.1 (db.now reread).1

  module _ (live : is_finished a.state.stage ≡ false)
      (written : (db.update_awaited_action (db.now reread).0 taken).1 ≡ ok tt) where
    stores :
        store_stage db config reread
          (fail_stage config db.show_worker a none e).0
          o
          none
          (fail_stage config db.show_worker a none e).1
        ≡ ((db.update_awaited_action (db.now reread).0 taken).0, finish (ok tt))
    unfolding store_stage
    stores = rw (written, store_stage) refl

    round-takes :
        update_round db config w o none (update_with_error e)
        ≡ ((db.update_awaited_action (db.now reread).0 taken).0, finish (ok tt))
    unfolding update_round apply_update
    round-takes =
        rw (found, update_round, read, accepts a none (live, inr (inl refl)))
          (unfold apply_update in stores)

    pub assign-takes :
        assign_operation db config w o (err e)
        ≡ ((db.update_awaited_action (db.now reread).0 taken).0, ok tt)
    unfolding assign_operation inner_update_operation update_loop
    assign-takes =
        rw (round-takes, assign_operation, inner_update_operation, update_loop)
          (ap (λ z. (z.0, ok tt)) round-takes)

  pub taken_lem :
      (taken.worker_id ≡ none)
      × (taken.attempts ≡ (if is_backpressure e then 0 else 1) + a.attempts)
      × (is_finished taken.state.stage ≡ ltb config.max_job_retries taken.attempts)
  taken_lem =
      let out = fail_stage config db.show_worker a none e in
      let stored = set_stage_lem out.0 o none out.1 (db.now reread).1 in
      let (n, g) = fail_stage_lem config db.show_worker o none 0 a e in
      (
        stored.1 ∙ no_worker (is_queued out.1),
        stored.3 ∙ n,
        ap is_finished stored.0 ∙ g ∙ ap (ltb config.max_job_retries) (sym (stored.3 ∙ n)),
      )

module _ (db : AwaitedActionDb) (config : Config) (w : db.World) (o : OperationId)
    (s s2 : db.Subscriber) (a a2 : AwaitedAction)
    (found : (db.get_by_operation_id w o).1 ≡ ok (some s))
    (read : (db.borrow (db.get_by_operation_id w o).0 s).1 ≡ ok a) where
  -- The world at which the update starts.
  abbrev pub before_update : db.World
  before_update = checked db config w o s a found read

  -- For an operation that executes when the check reads it, whose deadline (the worker's last
  -- update plus the timeout) is in the range of a duration and not less than the clock's elapsed
  -- time, and that is not finished when the update reads it again: if the database accepts the one
  -- write, the check succeeds, and what it wrote is an operation without a worker, with one attempt
  -- more than the update read, and finished exactly if that exceeds `max_job_retries`.
  pub timeout_operation_id-takes :
      is_executing a.state.stage ≡ true
      → deadline db config w o s a found read < duration_bound db config
      → (db.elapsed (after_reads db config w o s a found read)).1
        ≤ deadline db config w o s a found read
      → (found2 : (db.get_by_operation_id before_update o).1 ≡ ok (some s2))
        (read2 : (db.borrow (db.get_by_operation_id before_update o).0 s2).1 ≡ ok a2)
      → is_finished a2.state.stage ≡ false
      → let b = taken db config before_update o s2 a2 found2 read2 timed_out in
        let out =
          db.update_awaited_action
            (db.now (reread db config before_update o s2 a2 found2 read2 timed_out)).0
            b in
        out.1 ≡ ok tt
        → (timeout_operation_id db config w o ≡ (out.0, ok tt))
          × (b.worker_id ≡ none)
          × (b.attempts ≡ a2.attempts + 1)
          × (is_finished b.state.stage ≡ ltb config.max_job_retries (a2.attempts + 1))
  unfolding Code-discrete
  timeout_operation_id-takes e small early found2 read2 live written =
      let (no_one, n, f) = taken_lem db config before_update o s2 a2 found2 read2 timed_out in
      (
        timed_out-assigns db config w o s a found read e small early
            ∙ assign-takes db config before_update o s2 a2 found2 read2 timed_out live written,
        no_one,
        n ∙ one_more a2.attempts,
        f ∙ ap (ltb config.max_job_retries) (n ∙ one_more a2.attempts),
      )
