-- ===== src/StateManager/Retries.antt =====
-- Where an operation goes: which updates are refused, what an accepted one stores, and how often a
-- job is tried.
use native_link.Base.{
  ℕ, ◌+◌, ◌≤◌, String, Bool, true, false, Option, none, some, List, [], ◌∷◌, ◌≡◌, refl, ◌∙◌, ap,
  arith, ltb, if◌then◌else◌, Bool-cases, Error, ◌⊎◌, inl, inr, ◌↔◌,
}
use native_link.ActionMessages.{OperationId, WorkerId, ActionStage, queued, is_finished, is_queued}
use native_link.AwaitedAction.{AwaitedAction, set_worker_id, worker_set_state, worker_keep_alive}
use native_link.StateManager.{
  Config, is_backpressure, is_other_worker, refusal, fail_stage, set_stage,
}

-- Nobody is assigned, the update is the scheduler's own, or it comes from the assigned worker.
abbrev pub MayUpdate : Option WorkerId → Option WorkerId → Type 0
MayUpdate assigned k = (assigned ≡ none) ⊎ ((k ≡ none) ⊎ (k ≡ assigned))

MayUpdate-is_other_worker : (v k : Option WorkerId) → MayUpdate v k → is_other_worker v k ≡ false
unfolding is_other_worker
MayUpdate-is_other_worker none k h = ground arith
MayUpdate-is_other_worker (some v) none h = ground arith
MayUpdate-is_other_worker (some v) (some w) h = ground arith

is_other_worker-MayUpdate : (v k : Option WorkerId) → is_other_worker v k ≡ false → MayUpdate v k
unfolding is_other_worker
is_other_worker-MayUpdate none k h = inl refl
is_other_worker-MayUpdate (some v) none h = inr (inl refl)
is_other_worker-MayUpdate (some v) (some w) h = inr (inr (ground arith))

module _ (a : AwaitedAction) (k : Option WorkerId) where
  accepted : refusal a k ≡ none → (is_finished a.state.stage ≡ false) × MayUpdate a.worker_id k
  unfolding refusal
  accepted h = elim (Bool-cases (is_other_worker a.worker_id k)) [
    | inl y ↦ absurd (ground arith)
    | inr n ↦ (ground arith, is_other_worker-MayUpdate a.worker_id k n)
  ]

  pub accepts : (is_finished a.state.stage ≡ false) × MayUpdate a.worker_id k → refusal a k ≡ none
  unfolding refusal
  accepts (f, h) = rw (MayUpdate-is_other_worker a.worker_id k h, f)

  -- An update is accepted exactly if the operation is not finished and the update does not come
  -- from a worker other than the one that is assigned.
  pub refusal-none_iff :
      (refusal a k ≡ none) ↔ ((is_finished a.state.stage ≡ false) × MayUpdate a.worker_id k)
  refusal-none_iff = (accepted, accepts)

module _ (a : AwaitedAction) (o : OperationId) (k : Option WorkerId) (stage : ActionStage)
    (now : ℕ) where
  -- What is stored: the new stage, no worker if the operation is queued and the reporting worker
  -- otherwise, and the time of the update; attempts, identity and sort key stay.
  pub set_stage_lem :
      let b = set_stage a o k stage now in
      (b.state.stage ≡ stage)
      × (b.worker_id ≡ (if is_queued stage then none else k))
      × (b.last_worker_updated_timestamp ≡ now)
      × (b.attempts ≡ a.attempts)
      × (b.operation_id ≡ a.operation_id)
      × (b.action_info ≡ a.action_info)
      × (b.sort_key_value ≡ a.sort_key_value)
      × (b.version ≡ a.version)
  unfolding set_stage set_worker_id worker_set_state worker_keep_alive
  set_stage_lem = ground arith

-- The failures that count as attempts.
abbrev pub counted : List Error → ℕ
counted [] = 0
counted (e ∷ es) = (if is_backpressure e then 0 else 1) + counted es

module _ (config : Config) (show : WorkerId → String) (o : OperationId) (k : Option WorkerId)
    (now : ℕ) where
  -- The operation after a failure that its worker reports; a refused update changes nothing.
  unfoldable pub fail_once : AwaitedAction → Error → AwaitedAction
  unfolding refusal fail_stage set_stage
  fail_once a e = elim (refusal a k) [
    | some r ↦ a
    | none ↦ set_stage (fail_stage config show a k e).0 o k (fail_stage config show a k e).1 now
  ]

  unfoldable pub fail_all : AwaitedAction → List Error → AwaitedAction
  unfolding fail_once
  fail_all a [] = a
  fail_all a (e ∷ es) = fail_all (fail_once a e) es

  finished_stays :
      (es : List Error) (a : AwaitedAction) → is_finished a.state.stage ≡ true → fail_all a es ≡ a
  unfolding fail_all fail_once refusal
  finished_stays [] a f = refl
  finished_stays (e ∷ es) a f =
      ap (λ b. fail_all b es) (once (is_other_worker a.worker_id k) refl) ∙ finished_stays es a f
    where
      once : (b : Bool) → is_other_worker a.worker_id k ≡ b → fail_once a e ≡ a
      once true q = rw (q, fail_once, refusal)
      once false q = rw (q, fail_once, refusal, f)

  pub fail_stage_lem :
      (a : AwaitedAction) (e : Error)
      → let n = (if is_backpressure e then 0 else 1) + a.attempts in
        ((fail_stage config show a k e).0.attempts ≡ n)
        × (is_finished (fail_stage config show a k e).1 ≡ ltb config.max_job_retries n)
  unfolding fail_stage
  fail_stage_lem a e = ground arith

  MayUpdate-stage : (stage : ActionStage) → MayUpdate (if is_queued stage then none else k) k
  MayUpdate-stage queued = inl refl
  MayUpdate-stage stage = inr (inr refl)

  live_fails :
      (a : AwaitedAction) (e : Error)
      → is_finished a.state.stage ≡ false
      → MayUpdate a.worker_id k
      → let n = (if is_backpressure e then 0 else 1) + a.attempts in
        ((fail_once a e).attempts ≡ n)
        × (is_finished (fail_once a e).state.stage ≡ ltb config.max_job_retries n)
        × MayUpdate (fail_once a e).worker_id k
  unfolding fail_once
  live_fails a e f h =
      let out = fail_stage config show a k e in
      let stored = set_stage_lem out.0 o k out.1 now in
      let (n, g) = fail_stage_lem a e in
      rw (accepts a k (f, h), fail_once)
        (stored.3 ∙ n, ap is_finished stored.0 ∙ g, rw stored.1 (MayUpdate-stage out.1))

  -- For an operation that is not finished, has no more attempts than retries are allowed, and
  -- whose failures are reported by somebody who may update it, a list of failures finishes it
  -- exactly if the attempts and the failures that are not for lack of resources together exceed
  -- max_job_retries: without attempts before, exactly that many failures do not finish it, and one
  -- more does.
  pub fail_all-finished :
      (es : List Error) (a : AwaitedAction)
      → is_finished a.state.stage ≡ false
      → MayUpdate a.worker_id k
      → a.attempts ≤ config.max_job_retries
      → is_finished (fail_all a es).state.stage
        ≡ ltb config.max_job_retries (a.attempts + counted es)
  unfolding fail_all
  fail_all-finished [] a f h l = ground arith
  fail_all-finished (e ∷ es) a f h l =
      let (n, g, h') = live_fails a e f h in
      elim (Bool-cases (is_finished (fail_once a e).state.stage)) [
        | inl y ↦ rw (finished_stays es (fail_once a e) y, y) (ground arith)
        | inr live ↦ rw (fail_all-finished es (fail_once a e) live h' (ground arith)) (ground arith)
      ]
