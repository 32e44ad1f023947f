-- ===== src/ApiWorkerScheduler/Timeouts.antt =====
-- Which workers `remove_timedout_workers` evicts, and what refreshing a worker does to that.
use native_link.Base.{
  ℕ, ◌+◌, ◌-◌, ◌%◌, ◌≤◌, ◌<◌, true, false, none, some, List, [], ◌∷◌, ◌≡◌, refl, sym, ◌∙◌, ap,
  arith, ℕ_discrete, ◌⊎◌, inl, inr, All, if_pos, if_neg, Result, ok, merge, make_err, Code,
}
use native_link.Base.Lru.{LruCache, last?}
use native_link.ActionMessages.{WorkerId}
use native_link.Worker.{Worker, Channel, u64_mod}
use native_link.ApiWorkerScheduler.{
  WorkerStateManager, Pool, is_timed_out, evict_timed_out, worker_ids_to_remove,
  remove_timedout_workers, refresh_lifetime, immediate_evict_worker,
}
use native_link.ApiWorkerScheduler.Evict.{peek-immediate_evict_worker}
use native_link.ApiWorkerScheduler.MapWhile.{
  In, Falls, rev_map_while-passes, rev_map_while-takes, rev_map_while-stuck, last?-lookup,
  last?-replace,
}

module _ (channel : Channel) (manager : WorkerStateManager)
    (lru : LruCache WorkerId (Worker channel.Tx) ℕ_discrete) where
  open lru use {peek, iter, Cache}

  peek-evict_timed_out :
      (ks : List WorkerId) (p : Pool channel manager lru) (r : Result (Unit {0})) (j : WorkerId)
      → ((In j ks × (peek j (evict_timed_out channel manager lru p ks r).0.workers ≡ none))
          ⊎ ((¬ In j ks)
              × (peek j (evict_timed_out channel manager lru p ks r).0.workers ≡ peek j p.workers)))
  unfolding evict_timed_out
  peek-evict_timed_out [] p r j = inr ((λ h. h), refl)
  peek-evict_timed_out (k ∷ ks) p r j =
      let e = make_err Code.internal "Worker timed out, removing from pool" in
      let out = immediate_evict_worker channel manager lru p k e in
      let step = peek-immediate_evict_worker channel manager lru p k j e in
      elim (peek-evict_timed_out ks out.0 (merge r out.1) j) [
        | inl (i, g) ↦ inl (inr i, g)
        | inr (n, g) ↦ elim (ℕ_discrete j k) [
          | yes q ↦ inl (inl q, g ∙ (step ∙ if_pos (ℕ_discrete j k) q none (peek j p.workers)))
          | no q ↦ inr (
            elim [ inl i ↦ q i | inr i ↦ n i ],
            g ∙ (step ∙ if_neg (ℕ_discrete j k) q none (peek j p.workers)),
          )
        ]
      ]

  abbrev cutoff : ℕ → ℕ → ℕ
  cutoff timeout now = (now + u64_mod - timeout) % u64_mod

  -- The pool is in the order of the last update, the latest first.
  abbrev pub InOrder : List (WorkerId × Worker channel.Tx) → Type 0
  InOrder [] = Unit
  InOrder ((k, w) ∷ m) =
      All (λ e. e.1.last_update_timestamp ≤ w.last_update_timestamp) m × InOrder m

  later_timed_out :
      (timeout now : ℕ) (w : Worker channel.Tx) (m : List (WorkerId × Worker channel.Tx))
      → All (λ e. e.1.last_update_timestamp ≤ w.last_update_timestamp) m
      → is_timed_out channel manager lru now timeout w ≡ true
      → All (λ e. is_timed_out channel manager lru now timeout e.1 ≡ true) m
  unfolding is_timed_out
  later_timed_out timeout now w [] a t = tt
  later_timed_out timeout now w (e ∷ m) a t = (ground arith, later_timed_out timeout now w m a.1 t)

  InOrder-Falls :
      (timeout now : ℕ) (m : List (WorkerId × Worker channel.Tx))
      → InOrder m
      → Falls (is_timed_out channel manager lru now timeout) m
  InOrder-Falls timeout now [] o = tt
  InOrder-Falls timeout now ((k, w) ∷ m) o =
      ((λ t. later_timed_out timeout now w m o.0 t), InOrder-Falls timeout now m o.1)

  module _ (timeout : ℕ) (p : Pool channel manager lru) (now : ℕ) (j : WorkerId)
      (w : Worker channel.Tx) where
    -- A worker in the pool that has not timed out is still there, unchanged, after the check for
    -- timed out workers.
    pub remove_timedout_workers-keeps :
        peek j p.workers ≡ some w
        → is_timed_out channel manager lru now timeout w ≡ false
        → peek j (remove_timedout_workers channel manager lru timeout p now).0.workers ≡ some w
    unfolding remove_timedout_workers worker_ids_to_remove
    remove_timedout_workers-keeps e f =
        elim (peek-evict_timed_out (worker_ids_to_remove channel manager lru timeout p now) p
          (ok tt) j) [
            | inr (n, g) ↦ g ∙ e
            | inl (i, g) ↦
                let (x, h, t) =
                  rev_map_while-passes (is_timed_out channel manager lru now timeout)
                    (iter p.workers) j (lru.iter-Distinct p.workers) i in
                absurd (ground (arith, lru.peek-iter j p.workers))
          ]

    -- In a pool whose order is that of the last update, the latest first, a worker that timed out
    -- is gone after the check for timed out workers.
    pub remove_timedout_workers-removes :
        InOrder (iter p.workers)
        → peek j p.workers ≡ some w
        → is_timed_out channel manager lru now timeout w ≡ true
        → peek j (remove_timedout_workers channel manager lru timeout p now).0.workers ≡ none
    unfolding remove_timedout_workers worker_ids_to_remove
    remove_timedout_workers-removes o e t =
        let i =
          rev_map_while-takes (is_timed_out channel manager lru now timeout) (iter p.workers) j w
            (InOrder-Falls timeout now (iter p.workers) o) (sym (lru.peek-iter j p.workers) ∙ e)
            t in
        elim (peek-evict_timed_out (worker_ids_to_remove channel manager lru timeout p now) p
          (ok tt) j) [ inl (i', g) ↦ g | inr (n, g) ↦ absurd (n i) ]

  -- If the least recently used worker has not timed out, nothing happens, whoever else has.
  pub remove_timedout_workers-stuck :
      (timeout : ℕ) (p : Pool channel manager lru) (now : ℕ) (k : WorkerId) (w : Worker channel.Tx)
      → last? (iter p.workers) ≡ some (k, w)
      → is_timed_out channel manager lru now timeout w ≡ false
      → remove_timedout_workers channel manager lru timeout p now ≡ (p, ok tt)
  unfolding remove_timedout_workers evict_timed_out
  remove_timedout_workers-stuck timeout p now k w e f = rw none_timed_out
    where
      none_timed_out : worker_ids_to_remove channel manager lru timeout p now ≡ []
      none_timed_out =
          unfold worker_ids_to_remove in
          ap (λ r. r.1)
            (rev_map_while-stuck (is_timed_out channel manager lru now timeout) (iter p.workers) k w
              e f)

  -- A refresh does not move a worker: once the least recently used worker has been refreshed to a
  -- time after the cutoff, the check for timed out workers changes nothing, whoever else has timed
  -- out.
  pub refresh-remove_timedout_workers :
      (timeout : ℕ) (p : Pool channel manager lru) (now t : ℕ) (k : WorkerId)
      (w : Worker channel.Tx)
      → last? (iter p.workers) ≡ some (k, w)
      → w.last_update_timestamp ≤ t
      → cutoff timeout now < t
      → remove_timedout_workers channel manager lru timeout
          (refresh_lifetime channel manager lru p k t).0
          now
        ≡ ((refresh_lifetime channel manager lru p k t).0, ok tt)
  unfolding refresh_lifetime is_timed_out
  refresh-remove_timedout_workers timeout p now t k w e h fresh =
      remove_timedout_workers-stuck timeout (refresh_lifetime channel manager lru p k t).0 now k
        (record w { last_update_timestamp = t })
        (ground (
          arith,
          lru.peek-iter k p.workers,
          lru.iter-write k (record w { last_update_timestamp = t }) p.workers,
          last?-lookup k w (iter p.workers) (lru.iter-Distinct p.workers) e,
          last?-replace k w (record w { last_update_timestamp = t }) (iter p.workers)
              (lru.iter-Distinct p.workers) e,
        ))
        (ground arith)
