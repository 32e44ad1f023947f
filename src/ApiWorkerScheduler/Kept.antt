-- ===== src/ApiWorkerScheduler/Kept.antt =====
-- Every worker of the pool stands under its own id, and its resources add up to what it registered.
-- The operations that do not place or complete an action keep that.
use native_link.Base.{
  ℕ, Bool, some, List, [], ◌∷◌, ◌≡◌, refl, sym, ◌∙◌, arith, ℕ_discrete, Result, ok, err, Error,
  Option-cases, Bool-cases, ltb, inl, inr,
}
use native_link.Base.Lru.{LruCache}
use native_link.Base.Lru.Peek.{peek-get, peek-write, peek-put, peek-pop}
use native_link.ActionMessages.{WorkerId}
use native_link.PlatformProperties.{Properties}
use native_link.Worker.{Worker, Channel, send_msg_to_worker, send_initial_connection_result}
use native_link.Worker.Demand.{Conserves}
use native_link.Worker.Conservation.{Conserves-same}
use native_link.ApiWorkerScheduler.Evict.{workers-immediate_evict_worker}
use native_link.ApiWorkerScheduler.{
  WorkerStateManager, Pool, refresh_lifetime, put_worker, set_drain_worker, immediate_evict_worker,
  add_worker, evict_timed_out, worker_ids_to_remove, remove_timedout_workers,
}

pub record IsKept {Tx : Type 0} (registered : WorkerId → Properties) (k : WorkerId) (w : Worker Tx)
    : Type 0 where
  pub own_id : w.id ≡ k
  pub conserves : Conserves (registered k) w

module _ (channel : Channel) (manager : WorkerStateManager)
    (lru : LruCache WorkerId (Worker channel.Tx) ℕ_discrete)
    (registered : WorkerId → Properties) where
  open channel use {Tx}
  open lru use {peek, get, write, put, pop, Cache}

  abbrev pub KeepsAll : Cache → Type 0
  KeepsAll c = (k : WorkerId) (w : Worker Tx) → peek k c ≡ some w → IsKept registered k w

  abbrev pub IsValid : Pool channel manager lru → Type 0
  IsValid p = KeepsAll p.workers

  pub get-KeepsAll : (k : WorkerId) (c : Cache) → KeepsAll c → KeepsAll (get k c)
  get-KeepsAll k c v j w e = v j w (sym (peek-get ℕ_discrete lru k j c) ∙ e)

  pub write-KeepsAll :
      (k : WorkerId) (x : Worker Tx) (c : Cache)
      → KeepsAll c
      → IsKept registered k x
      → KeepsAll (write k x c)
  write-KeepsAll k x c v kept j w e = elim (ℕ_discrete j k) [
    | yes p ↦
        let same : x ≡ w = ground (arith, peek-write ℕ_discrete lru k j x c) in rw (p, ← same) kept
    | no n ↦ v j w (ground (arith, peek-write ℕ_discrete lru k j x c))
  ]

  put-KeepsAll :
      (k : WorkerId) (x : Worker Tx) (c : Cache)
      → KeepsAll c
      → IsKept registered k x
      → KeepsAll (put k x c)
  put-KeepsAll k x c v kept j w e = elim (ℕ_discrete j k) [
    | yes p ↦
        let same : x ≡ w = ground (arith, peek-put ℕ_discrete lru k j x c) in rw (p, ← same) kept
    | no n ↦ v j w (ground (arith, peek-put ℕ_discrete lru k j x c))
  ]

  pop-KeepsAll : (k : WorkerId) (c : Cache) → KeepsAll c → KeepsAll (pop k c)
  pop-KeepsAll k c v j w e = elim (ℕ_discrete j k) [
    | yes p ↦ absurd (ground (arith, peek-pop ℕ_discrete lru k j c))
    | no n ↦ v j w (ground (arith, peek-pop ℕ_discrete lru k j c))
  ]

  pub immediate_evict_worker-IsValid :
      (p : Pool channel manager lru) (k : WorkerId) (e : Error)
      → IsValid p
      → IsValid (immediate_evict_worker channel manager lru p k e).0
  immediate_evict_worker-IsValid p k e v =
      rw (workers-immediate_evict_worker channel manager lru p k e) (pop-KeepsAll k p.workers v)

  IsKept-same :
      (k : WorkerId) (w w' : Worker Tx)
      → IsKept registered k w
      → w'.id ≡ w.id
      → w'.platform_properties ≡ w.platform_properties
      → w'.running_action_infos ≡ w.running_action_infos
      → IsKept registered k w'
  IsKept-same k w w' kept i p r = record {
    own_id = i ∙ kept.own_id;
    conserves = Conserves-same (registered k) w w' p r kept.conserves;
  }

  pub refresh_lifetime-IsValid :
      (p : Pool channel manager lru) (k : WorkerId) (t : ℕ)
      → IsValid p
      → IsValid (refresh_lifetime channel manager lru p k t).0
  unfolding refresh_lifetime
  refresh_lifetime-IsValid p k t v = elim (Option-cases (peek k p.workers)) [
    | inl e ↦ rw (e, refresh_lifetime) v
    | inr (w, e) ↦ elim (Bool-cases (ltb t w.last_update_timestamp)) [
      | inl late ↦ rw (e, refresh_lifetime, late) v
      | inr fine ↦
          rw (e, refresh_lifetime, fine)
            (write-KeepsAll k (record w { last_update_timestamp = t }) p.workers v
              (IsKept-same k w (record w { last_update_timestamp = t }) (v k w e) refl refl refl))
    ]
  ]

  pub set_drain_worker-IsValid :
      (p : Pool channel manager lru) (k : WorkerId) (b : Bool)
      → IsValid p
      → IsValid (set_drain_worker channel manager lru p k b).0
  unfolding set_drain_worker
  set_drain_worker-IsValid p k b v = elim (Option-cases (peek k p.workers)) [
    | inl e ↦ rw (e, set_drain_worker) (get-KeepsAll k p.workers v)
    | inr (w, e) ↦
        rw (e, set_drain_worker)
          (write-KeepsAll k (record w { is_draining = b }) (get k p.workers)
            (get-KeepsAll k p.workers v)
            (IsKept-same k w (record w { is_draining = b }) (v k w e) refl refl refl))
  ]

  evict_timed_out-IsValid :
      (ks : List WorkerId) (p : Pool channel manager lru) (r : Result (Unit {0}))
      → IsValid p
      → IsValid (evict_timed_out channel manager lru p ks r).0
  unfolding evict_timed_out
  evict_timed_out-IsValid [] p r v = v
  evict_timed_out-IsValid (k ∷ ks) p r v =
      evict_timed_out-IsValid ks _ _ (immediate_evict_worker-IsValid p k _ v)

  pub remove_timedout_workers-IsValid :
      (timeout : ℕ) (p : Pool channel manager lru) (now : ℕ)
      → IsValid p
      → IsValid (remove_timedout_workers channel manager lru timeout p now).0
  unfolding remove_timedout_workers
  remove_timedout_workers-IsValid timeout p now v =
      evict_timed_out-IsValid (worker_ids_to_remove channel manager lru timeout p now) p (ok tt) v

  put_worker-IsValid :
      (p : Pool channel manager lru) (w : Worker Tx)
      → IsKept registered w.id w
      → IsValid p
      → IsValid (put_worker channel manager lru p w).0
  unfolding put_worker send_initial_connection_result send_msg_to_worker
  put_worker-IsValid p w kept v =
      write-KeepsAll w.id (send_initial_connection_result channel w).0 (put w.id w p.workers)
        (put-KeepsAll w.id w p.workers v kept)
        (IsKept-same w.id w (send_initial_connection_result channel w).0 kept (ground arith)
          (ground arith) (ground arith))

  -- A worker that joins has all that it registers free, under an id of its own.
  pub add_worker-IsValid :
      (p : Pool channel manager lru) (w : Worker Tx)
      → IsKept registered w.id w
      → IsValid p
      → IsValid (add_worker channel manager lru p w).0
  unfolding add_worker
  add_worker-IsValid p w kept v = added (put_worker channel manager lru p w).1 refl
    where
      q : Pool channel manager lru
      q = (put_worker channel manager lru p w).0

      joined : IsValid q
      joined = put_worker-IsValid p w kept v

      added :
          (r : Result (Unit {0}))
          → (put_worker channel manager lru p w).1 ≡ r
          → IsValid (add_worker channel manager lru p w).0
      added (ok u) e = rw (e, add_worker) joined
      added (err x) e = rw (e, add_worker) (immediate_evict_worker-IsValid q w.id _ joined)
