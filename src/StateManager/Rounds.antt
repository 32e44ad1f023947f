-- ===== src/StateManager/Rounds.antt =====
-- The retry loop of `inner_update_operation`: at most five rounds, and only a lost race is retried.
use native_link.Base.{
  ℕ, zero, suc, Option, none, some, ◌≡◌, refl, if_pos, if_neg, Result, ok, err, Error, Code,
  Code-discrete, ◌⊎◌, inl, inr,
}
use native_link.ActionMessages.{
  OperationId, WorkerId, UpdateOperationType, update_with_action_stage, update_with_error,
  ActionStage,
}
use native_link.AwaitedAction.{AwaitedAction}
use native_link.StateManager.{
  AwaitedActionDb, Config, Outcome, finish, retry, refusal, fail_stage, set_stage, store_stage,
  apply_update, update_round, update_loop, inner_update_operation,
}

Result-cases : (r : Result (Unit {0})) → (r ≡ ok tt) ⊎ ((e : Error) × (r ≡ err e))
Result-cases (ok u) = inl refl
Result-cases (err e) = inr (e, refl)

module _ (db : AwaitedActionDb) (config : Config) (o : OperationId) (k : Option WorkerId)
    (u : UpdateOperationType) where
  open db use {World}

  -- A run of at most so many rounds: it settles in a round, or loses the race in each, and then
  -- returns the error of the last one.
  pub data Runs : ℕ → World → World × Result (Unit {0}) → Type 0 where
    settles :
        {n : ℕ} (w w' : World) (r : Result (Unit {0}))
        → update_round db config w o k u ≡ (w', finish r)
        → Runs (suc n) w (w', r)
    again :
        {n : ℕ} (w w' : World) (e : Error) (out : World × Result (Unit {0}))
        → update_round db config w o k u ≡ (w', retry e)
        → e.code ≡ Code.aborted
        → Runs n w' out
        → Runs (suc n) w out
    gives_up :
        (w w' : World) (e : Error)
        → update_round db config w o k u ≡ (w', retry e)
        → e.code ≡ Code.aborted
        → Runs (suc zero) w (w', err e)

  -- A retry is for a lost race only.
  abbrev IsRace : Outcome → Type 0
  IsRace (finish r) = Unit {0}
  IsRace (retry e) = e.code ≡ Code.aborted

  store_stage-IsRace :
      (w : World) (a : AwaitedAction) (stage : ActionStage)
      → IsRace (store_stage db config w a o k stage).1
  unfolding store_stage
  store_stage-IsRace w a stage =
      written (db.update_awaited_action (db.now w).0 (set_stage a o k stage (db.now w).1)).1 refl
    where
      written :
          (r : Result (Unit {0}))
          → (db.update_awaited_action (db.now w).0 (set_stage a o k stage (db.now w).1)).1 ≡ r
          → IsRace (store_stage db config w a o k stage).1
      written (ok x) q = rw (q, store_stage) tt
      written (err e) q = elim (Code-discrete e.code Code.aborted) [
        | yes p ↦ rw (q, store_stage, if_pos (Code-discrete e.code Code.aborted) p) p
        | no n ↦ rw (q, store_stage, if_neg (Code-discrete e.code Code.aborted) n) tt
      ]

  apply_update-IsRace :
      (w : World) (a : AwaitedAction) (u : UpdateOperationType)
      → IsRace (apply_update db config w a o k u).1
  unfolding apply_update
  apply_update-IsRace w a UpdateOperationType.keep_alive = tt
  apply_update-IsRace w a (update_with_action_stage stage) = store_stage-IsRace w a stage
  apply_update-IsRace w a (update_with_error e) =
      let out = fail_stage config db.show_worker a k e in store_stage-IsRace w out.0 out.1

  update_round-IsRace : (w : World) → IsRace (update_round db config w o k u).1
  unfolding update_round
  update_round-IsRace w = found (db.get_by_operation_id w o).1 refl
    where
      w' : World
      w' = (db.get_by_operation_id w o).0

      checked :
          (s : db.Subscriber) (a : AwaitedAction) (r : Option Error)
          → (db.get_by_operation_id w o).1 ≡ ok (some s)
          → (db.borrow w' s).1 ≡ ok a
          → refusal a k ≡ r
          → IsRace (update_round db config w o k u).1
      checked s a (some e) p q r = rw (p, update_round, q, r) tt
      checked s a none p q r =
          rw (p, update_round, q, r) (apply_update-IsRace (db.borrow w' s).0 a u)

      borrowed :
          (s : db.Subscriber) (b : Result AwaitedAction)
          → (db.get_by_operation_id w o).1 ≡ ok (some s)
          → (db.borrow w' s).1 ≡ b
          → IsRace (update_round db config w o k u).1
      borrowed s (err e) p q = rw (p, update_round, q) tt
      borrowed s (ok a) p q = checked s a (refusal a k) p q refl

      found :
          (r : Result (Option db.Subscriber))
          → (db.get_by_operation_id w o).1 ≡ r
          → IsRace (update_round db config w o k u).1
      found (err e) p = rw (p, update_round) tt
      found (ok none) p = rw (p, update_round) tt
      found (ok (some s)) p = borrowed s (db.borrow w' s).1 p refl

  round-cases :
      (out : World × Outcome)
      → IsRace out.1
      → ((r : Result (Unit {0})) × (out ≡ (out.0, finish r)))
        ⊎ ((e : Error) × (out ≡ (out.0, retry e)) × (e.code ≡ Code.aborted))
  round-cases (w, finish r) c = inl (r, refl)
  round-cases (w, retry e) c = inr (e, refl, c)

  update_loop-Runs :
      (n : ℕ) (w : World) (last : Option Error)
      → Runs (suc n) w (update_loop db config (suc n) w o k u last)
  unfolding update_loop
  update_loop-Runs zero w last =
      elim (round-cases (update_round db config w o k u) (update_round-IsRace w)) [
        | inl (r, e) ↦ rw (e, update_loop) (settles w _ r e)
        | inr (x, e, c) ↦ rw (e, update_loop) (gives_up w _ x e c)
      ]
  update_loop-Runs (suc n) w last =
      elim (round-cases (update_round db config w o k u) (update_round-IsRace w)) [
        | inl (r, e) ↦ rw (e, update_loop) (settles w _ r e)
        | inr (x, e, c) ↦
            rw (e, update_loop)
              (again w (update_round db config w o k u).0 x _ e c
                (update_loop-Runs n (update_round db config w o k u).0 (some x)))
      ]

  -- An update runs at most five rounds. It returns what the first round that does not lose a race
  -- comes to, and if all five do, the error of the last, whose code is Aborted.
  pub inner_update_operation-Runs :
      (w : World) → Runs 5 w (inner_update_operation db config w o k u)
  unfolding inner_update_operation
  inner_update_operation-Runs w = update_loop-Runs 4 w none
