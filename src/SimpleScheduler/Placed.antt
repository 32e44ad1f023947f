-- ===== src/SimpleScheduler/Placed.antt =====
-- The pool after one operation was handed to a worker, and what stays true of the others.
use native_link.Base.{
  true, String, none, some, List, [], ◌∷◌, ◌≡◌, ◌≢◌, sym, ap, ◌∙◌, subst, arith, inl, inr, lookup,
  insert, insert-Distinct, lookup-insert, string_discrete, ℕ_discrete, Result, Result-cases, ok,
  err, Error, Code, make_err, merge, Option, Option-cases, Distinct, if_neg,
}
use native_link.Base.Lru.{LruCache}
use native_link.Base.Lru.Peek.{peek-get, peek-write}
use native_link.ActionMessages.{WorkerId, OperationId, OperationId-discrete}
use native_link.PlatformProperties.{Properties, is_satisfied_by}
use native_link.Worker.{ActionInfoWithProps, Worker, Channel, place_action, notify_update}
use native_link.Worker.Conservation.{place_action-Conserves}
use native_link.ApiWorkerScheduler.{
  WorkerStateManager, Pool, worker_notify_run_action, immediate_evict_worker,
}
use native_link.ApiWorkerScheduler.Evict.{peek-immediate_evict_worker}
use native_link.ApiWorkerScheduler.Kept.{IsValid}
use native_link.ApiWorkerScheduler.Invariant.{worker_notify_run_action-IsValid}
use native_link.SimpleScheduler.{
  PropertyType, make_prop_value, insert_value, make_platform_properties,
}

pub make_platform_properties-Distinct :
    (known : List (String × PropertyType)) (properties : List (String × String))
    (acc ps : Properties)
    → Distinct string_discrete acc
    → make_platform_properties known properties acc ≡ ok ps
    → Distinct string_discrete ps
unfolding make_platform_properties
make_platform_properties-Distinct known [] acc ps d e = subst (Distinct string_discrete) (same e) d
  where
    same : {a b : Properties} → ok a ≡ ok b → a ≡ b
    same e = cc
make_platform_properties-Distinct known ((key, value) ∷ properties) acc ps d e =
    elim (Result-cases (make_prop_value known key value)) [
      | inl (v, f) ↦
          make_platform_properties-Distinct known properties (insert string_discrete key v acc) ps
            (insert-Distinct string_discrete key v acc d)
            (sym (ap (insert_value (make_platform_properties known properties) acc key) f) ∙ e)
      | inr (x, f) ↦ absurd (
          no_value
            (sym (ap (insert_value (make_platform_properties known properties) acc key) f) ∙ e))
    ]
  where
    no_value : {a : Properties} {x : Error} → err x ≡ ok a → ⊥
    no_value e = cc

module _ (channel : Channel) (manager : WorkerStateManager)
    (lru : LruCache WorkerId (Worker channel.Tx) ℕ_discrete)
    (registered : WorkerId → Properties) where
  open channel use {Tx}
  open lru use {Cache, peek, get, write, pop}

  -- No worker runs the operation.
  abbrev pub NotRunning : OperationId → Cache → Type 0
  NotRunning o c =
      (k : WorkerId) (w : Worker Tx)
      → peek k c ≡ some w
      → lookup OperationId-discrete o w.running_action_infos ≡ none

  write-NotRunning :
      (o : OperationId) (k : WorkerId) (x : Worker Tx) (c : Cache)
      → NotRunning o c
      → lookup OperationId-discrete o x.running_action_infos ≡ none
      → NotRunning o (write k x c)
  write-NotRunning o k x c n idle j w e = elim (ℕ_discrete j k) [
    | yes p ↦
        let same : x ≡ w = ground (arith, peek-write ℕ_discrete lru k j x c) in rw (← same) idle
    | no z ↦ n j w (ground (arith, peek-write ℕ_discrete lru k j x c))
  ]

  get-NotRunning :
      (o : OperationId) (k : WorkerId) (c : Cache) → NotRunning o c → NotRunning o (get k c)
  get-NotRunning o k c n j w e = n j w (sym (peek-get ℕ_discrete lru k j c) ∙ e)

  evict-NotRunning :
      (o : OperationId) (p : Pool channel manager lru) (k : WorkerId) (x : Error)
      → NotRunning o p.workers
      → NotRunning o (immediate_evict_worker channel manager lru p k x).0.workers
  evict-NotRunning o p k x n j w e = elim (ℕ_discrete j k) [
    | yes z ↦
        absurd
          (none≢some w (ground (arith, peek-immediate_evict_worker channel manager lru p k j x)))
    | no z ↦ n j w (ground (arith, peek-immediate_evict_worker channel manager lru p k j x))
  ]
    where
      none≢some : (x : Worker Tx) → none ≡ some x → ⊥
      none≢some x e = cc

  -- What stays true of the other operations.
  abbrev pub Keeps : OperationId → Cache → Cache → Type 0
  Keeps o c c' = (o' : OperationId) → o' ≢ o → NotRunning o' c → NotRunning o' c'

  -- What a step for one operation leaves.
  abbrev pub Safe :
      Pool channel manager lru
      → OperationId
      → Option (Pool channel manager lru × Result (Unit {0}))
      → Type 0
  Safe p o outcome =
      (q : Pool channel manager lru) × (r : Result (Unit {0})) × (outcome ≡ some (q, r))
      × IsValid channel manager lru registered q
      × Keeps o p.workers q.workers

  module _ (p : Pool channel manager lru) (k : WorkerId) (o : OperationId)
      (info : ActionInfoWithProps) where
    abbrev p' : Pool channel manager lru
    p' = record p { workers = get k p.workers }

    abbrev Kept : Type 0
    Kept =
        (q : Pool channel manager lru) × (r : Result (Unit {0})) × (worker_notify_run_action channel
            manager lru p k o info
          ≡ some (q, r))
        × Keeps o p.workers q.workers

    -- The worker with the operation added is written back, or evicted.
    told-Kept :
        (w w' : Worker Tx) (res : Result (Unit {0}))
        → peek k p.workers ≡ some w
        → place_action channel w o info ≡ some (w', res)
        → w'.running_action_infos ≡ insert OperationId-discrete o info w.running_action_infos
        → Kept
    unfolding worker_notify_run_action notify_update
    told-Kept w w' res e g a = by_result res g
      where
        written :
            (o' : OperationId)
            → o' ≢ o
            → NotRunning o' p.workers
            → NotRunning o' (write k w' (get k p.workers))
        written o' n idle =
            write-NotRunning o' k w' (get k p.workers) (get-NotRunning o' k p.workers idle) (
              ap (lookup OperationId-discrete o') a
              ∙ (lookup-insert OperationId-discrete o o' info w.running_action_infos
                  ∙ (if_neg (OperationId-discrete o' o) n (some info)
                        (lookup OperationId-discrete o' w.running_action_infos)
                      ∙ idle k w e)))

        by_result :
            (res : Result (Unit {0})) → place_action channel w o info ≡ some (w', res) → Kept
        by_result (ok u) g = (
          record p' { workers = write k w' (get k p.workers) },
          ok tt,
          rw (e, worker_notify_run_action, g),
          written,
        )
        by_result (err x) g =
            let p'' : Pool channel manager lru = record p' {
              workers = write k w' (get k p.workers);
            } in
            let failed = make_err Code.internal "Worker command failed, removing worker" in
            let out = immediate_evict_worker channel manager lru p'' k failed in
            (
              out.0,
              merge {A = Unit {0}} (err failed) out.1,
              rw (e, worker_notify_run_action, g),
              λ o' n idle. evict-NotRunning o' p'' k failed (written o' n idle),
            )

    pub run-Safe :
        IsValid channel manager lru registered p
        → Distinct string_discrete info.platform_properties
        → ((w : Worker Tx)
            → peek k p.workers ≡ some w
            → (is_satisfied_by info.platform_properties w.platform_properties ≡ true)
              × (lookup OperationId-discrete o w.running_action_infos ≡ none))
        → Safe p o (worker_notify_run_action channel manager lru p k o info)
    run-Safe v names fits =
        let (q, r, e, v', handed) =
          worker_notify_run_action-IsValid channel manager lru registered p k o info v names fits in
        let (q2, r2, e2, keeps) = kept in
        (
          q,
          r,
          e,
          v',
          subst (λ x. Keeps o p.workers x.workers) (some_pair q2 q r2 r (sym e2 ∙ e)) keeps,
        )
      where
        some_pair :
            (a b : Pool channel manager lru) (x y : Result (Unit {0}))
            → ◌≡◌ {A = Option (Pool channel manager lru × Result (Unit {0}))}
                (some (a, x))
                (some (b, y))
            → a ≡ b
        some_pair a b x y e = cc

        kept : Kept
        kept = elim (Option-cases (peek k p.workers)) [
          | inl e ↦ (
            p',
            ok tt,
            (unfold worker_notify_run_action in rw (e, worker_notify_run_action)),
            λ o' n idle. get-NotRunning o' k p.workers idle,
          )
          | inr (w, e) ↦
              let f = fits w e in
              let (w', res, g, a, i, c) =
                place_action-Conserves channel (registered k) w o info (v k w e).conserves names f.0
                  f.1 in
              told-Kept w w' res e g a
        ]
