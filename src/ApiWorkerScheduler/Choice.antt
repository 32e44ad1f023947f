-- ===== src/ApiWorkerScheduler/Choice.antt =====
-- Which worker `find_worker_for_action` chooses.
use native_link.Base.{
  Bool, true, false, none, some, List, [], ◌∷◌, ◌++◌, ◌≡◌, refl, ap, arith, ℕ_discrete, Bool-cases,
  ◌⊎◌, inl, inr, All,
}
use native_link.Base.Lru.{LruCache}
use native_link.ActionMessages.{WorkerId}
use native_link.PlatformProperties.{Properties, is_satisfied_by}
use native_link.Worker.{Worker, Channel, can_accept_work}
use native_link.ApiWorkerScheduler.{
  WorkerStateManager, WorkerAllocationStrategy, least_recently_used, most_recently_used, Pool, find,
  rfind, is_candidate, find_for_strategy, inner_find_worker_for_action,
}

module _ {ℓ} {A : Type ℓ} (test : A → Bool) where
  -- The first entry that passes, with all before it failing; or none passes.
  pub find_lem :
      (xs : List A)
      → ((find test xs ≡ none) × All (λ x. test x ≡ false) xs)
        ⊎ ((before after : List A) × (x : A) × (find test xs ≡ some x)
            × (xs ≡ before ++ x ∷ after)
            × (test x ≡ true)
            × All (λ y. test y ≡ false) before)
  unfolding find
  find_lem [] = inl (refl, tt)
  find_lem (x ∷ xs) = elim (Bool-cases (test x)) [
    | inl y ↦ inr ([], xs, x, rw y, refl, y, tt)
    | inr n ↦ elim (find_lem xs) [
      | inl (e, a) ↦ inl (rw n e, (n, a))
      | inr (before, after, z, e, s, t, a) ↦
          inr (x ∷ before, after, z, rw n e, ap (◌∷◌ x) s, t, (n, a))
    ]
  ]

  -- The last entry that passes, with all after it failing; or none passes.
  pub rfind_lem :
      (xs : List A)
      → ((rfind test xs ≡ none) × All (λ x. test x ≡ false) xs)
        ⊎ ((before after : List A) × (x : A) × (rfind test xs ≡ some x)
            × (xs ≡ before ++ x ∷ after)
            × (test x ≡ true)
            × All (λ y. test y ≡ false) after)
  unfolding rfind
  rfind_lem [] = inl (refl, tt)
  rfind_lem (x ∷ xs) = elim (rfind_lem xs) [
    | inr (before, after, z, e, s, t, a) ↦
        inr (x ∷ before, after, z, rw (e, rfind), ap (◌∷◌ x) s, t, a)
    | inl (e, a) ↦ elim (Bool-cases (test x)) [
      | inl y ↦ inr ([], xs, x, rw (e, rfind, y), refl, y, a)
      | inr n ↦ inl (rw (e, rfind, n), (n, a))
    ]
  ]

module _ (channel : Channel) (manager : WorkerStateManager)
    (lru : LruCache WorkerId (Worker channel.Tx) ℕ_discrete) where
  abbrev pub Entry : Type 0
  Entry = WorkerId × Worker channel.Tx

  -- A worker is open to work, and has what the action asks for.
  pub record CanRun (props : Properties) (w : Worker channel.Tx) : Type 0 where
    pub not_paused : w.is_paused ≡ false
    pub not_draining : w.is_draining ≡ false
    pub satisfied : is_satisfied_by props w.platform_properties ≡ true

  pub is_candidate-CanRun :
      (props : Properties) (e : Entry)
      → is_candidate channel manager lru props e ≡ true
      → CanRun props e.1
  unfolding is_candidate can_accept_work
  is_candidate-CanRun props (k, w) h = ground arith

  CanRun-is_candidate :
      (props : Properties) (e : Entry)
      → CanRun props e.1
      → is_candidate channel manager lru props e ≡ true
  unfolding is_candidate can_accept_work
  CanRun-is_candidate props (k, w) h = ground arith

  none_runs :
      (props : Properties) (es : List Entry)
      → All (λ e. is_candidate channel manager lru props e ≡ false) es
      → All (λ e. ¬ CanRun props e.1) es
  none_runs props [] a = tt
  none_runs props (e ∷ es) a =
      ((λ c. (ground (arith, CanRun-is_candidate props e c))), none_runs props es a.1)

  -- The entries that a strategy looks at before its choice.
  abbrev pub tried : WorkerAllocationStrategy → List Entry → List Entry → List Entry
  tried most_recently_used before after = before
  tried least_recently_used before after = after

  -- The search finds no worker only if none in the pool can run the action. Otherwise it finds one
  -- that can, and no worker that the strategy looks at before it can: those used less recently, or
  -- those used more recently.
  pub find_worker-chooses :
      (p : Pool channel manager lru) (props : Properties)
      → ((inner_find_worker_for_action channel manager lru p props ≡ none)
          × All (λ e. ¬ CanRun props e.1) (lru.iter p.workers))
        ⊎ ((before after : List Entry) × (e : Entry) × (inner_find_worker_for_action channel manager
                lru p props
              ≡ some e.1.id)
            × (lru.iter p.workers ≡ before ++ e ∷ after)
            × CanRun props e.1
            × All (λ f. ¬ CanRun props f.1) (tried p.allocation_strategy before after))
  unfolding inner_find_worker_for_action find_for_strategy
  find_worker-chooses p props = by_strategy p.allocation_strategy refl
    where
      by_strategy :
          (s : WorkerAllocationStrategy)
          → p.allocation_strategy ≡ s
          → ((inner_find_worker_for_action channel manager lru p props ≡ none)
              × All (λ e. ¬ CanRun props e.1) (lru.iter p.workers))
            ⊎ ((before after : List Entry) × (e : Entry) × (inner_find_worker_for_action channel
                    manager lru p props
                  ≡ some e.1.id)
                × (lru.iter p.workers ≡ before ++ e ∷ after)
                × CanRun props e.1
                × All (λ f. ¬ CanRun props f.1) (tried s before after))
      by_strategy most_recently_used g =
          elim (find_lem (is_candidate channel manager lru props) (lru.iter p.workers)) [
            | inl (e, a) ↦ inl (
              rw (g, inner_find_worker_for_action, find_for_strategy, e),
              none_runs props (lru.iter p.workers) a,
            )
            | inr (before, after, x, e, s, t, a) ↦ inr (
              before,
              after,
              x,
              rw (g, inner_find_worker_for_action, find_for_strategy, e),
              s,
              is_candidate-CanRun props x t,
              none_runs props before a,
            )
          ]
      by_strategy least_recently_used g =
          elim (rfind_lem (is_candidate channel manager lru props) (lru.iter p.workers)) [
            | inl (e, a) ↦ inl (
              rw (g, inner_find_worker_for_action, find_for_strategy, e),
              none_runs props (lru.iter p.workers) a,
            )
            | inr (before, after, x, e, s, t, a) ↦ inr (
              before,
              after,
              x,
              rw (g, inner_find_worker_for_action, find_for_strategy, e),
              s,
              is_candidate-CanRun props x t,
              none_runs props after a,
            )
          ]
