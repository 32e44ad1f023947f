-- ===== src/EvictingMap/Index.antt =====
-- Inserting an entry: the order of the entries, and the index of keys that `range` walks.
use native_link.Base.{
  add_u64, ℕ, suc, Bool, true, false, some, List, [], ◌∷◌, ◌++◌, ◌≡◌, refl, sym, ◌∙◌, arith,
  Option-cases, Bool-cases, ◌⊎◌, inl, inr, ite, if_pos, ℤ, lookup, remove, zero,
}
use native_link.Base.Lru.{LruCache}
use native_link.EvictingMap.{
  LenEntry, EvictionItem, MapState, Limits, set_insert, set_remove, forget, put_entry, should_evict,
  evict_loop, target_bytes, evict_items,
}
use native_link.EvictingMap.Operations.{insert_one}
use native_link.EvictingMap.Eviction.{Fits, Sensible, evict_items-Kept}

module _ {K : Type 0} (dec : Discrete K) (le : K → K → Bool) where
  abbrev pub contains : K → List K → Bool
  contains k [] = false
  contains k (j ∷ s) = ite (dec k j) true (contains k s)

  contains-set_remove_self : (k : K) (s : List K) → contains k (set_remove dec le k s) ≡ false
  unfolding set_remove
  contains-set_remove_self k [] = refl
  contains-set_remove_self k (j ∷ s) = ground (arith, contains-set_remove_self k s)

  contains-set_remove_le :
      (k j : K) (s : List K) → contains k s ≡ false → contains k (set_remove dec le j s) ≡ false
  unfolding set_remove
  contains-set_remove_le k j [] e = refl
  contains-set_remove_le k j (i ∷ s) e = ground (arith, contains-set_remove_le k j s)

module _ {K T : Type 0} (dec : Discrete K) (le : K → K → Bool) (entry : LenEntry T)
    (cache : LruCache K (EvictionItem T) dec) (limits : Limits) where
  open entry use {len}
  open cache use {iter, peek, peek_lru, pop_lru}

  put_entry-iter :
      (st : MapState dec le entry cache) (k : K) (item : EvictionItem T)
      → iter (put_entry dec le entry cache st k item).0.lru ≡ (k, item) ∷ remove dec k (iter st.lru)
  unfolding put_entry forget
  put_entry-iter st k item = elim (Option-cases (peek k st.lru)) [
    | inl e ↦ rw (e, put_entry) (cache.iter-put k item st.lru)
    | inr (old, e) ↦ rw (e, put_entry) (cache.iter-put k item st.lru)
  ]

  -- If evict_bytes is zero or less than max_bytes, an insertion puts the new entry first, keeps
  -- the other entries in their order, and drops entries only at the least recently used end;
  -- afterwards the map is empty or within its limits on bytes and count.
  pub insert_one-Kept :
      (st : MapState dec le entry cache) (k : K) (content : T) (secs : ℤ)
      → Sensible dec le entry cache limits
      → let item : EvictionItem T = record { seconds_since_anchor = secs; content = content } in
        let out = (insert_one dec le entry cache limits st k content secs).0 in
        (dropped : List (K × EvictionItem T)) × ((k, item) ∷ remove dec k (iter st.lru)
          ≡ iter out.lru ++ dropped)
        × ((iter out.lru ≡ []) ⊎ Fits dec le entry cache limits limits.max_bytes out)
  unfolding insert_one
  insert_one-Kept st k content secs h =
      let item : EvictionItem T = record { seconds_since_anchor = secs; content = content } in
      let put = (put_entry dec le entry cache st k item).0 in
      let kept =
        evict_items-Kept dec le entry cache limits
          (record put {
            sum_store_size = add_u64 put.sum_store_size (len content);
            lifetime_inserted_bytes = add_u64 put.lifetime_inserted_bytes (len content);
          })
          h in
      (kept.dropped, sym (put_entry-iter st k item) ∙ kept.prefix, kept.within)

  -- The keys of the index, if there is one, lack this key.
  abbrev pub Unindexed : K → MapState dec le entry cache → Type 0
  Unindexed k st = (s : List K) × (st.btree ≡ some s) × (contains dec le k s ≡ false)

  forget-Unindexed :
      (k j : K) (item : EvictionItem T) (r : Bool) (st : MapState dec le entry cache)
      → Unindexed k st
      → Unindexed k (forget dec le entry cache st j item r)
  unfolding forget
  forget-Unindexed k j item true st (s, e, c) =
      (set_remove dec le j s, ground arith, contains-set_remove_le dec le k j s c)
  forget-Unindexed k j item false st (s, e, c) =
      (set_remove dec le j s, ground arith, contains-set_remove_le dec le k j s c)

  evict_loop-Unindexed :
      (k : K) (fuel : ℕ) (st : MapState dec le entry cache) (item : EvictionItem T) (m : ℕ)
      → Unindexed k st
      → Unindexed k (evict_loop dec le entry cache fuel limits st item m)
  unfolding evict_loop
  evict_loop-Unindexed k zero st item m u = u
  evict_loop-Unindexed k (suc fuel) st item m u =
      let test =
        should_evict dec le entry cache limits st.world (cache.len st.lru) item st.sum_store_size
          m in
      elim (Bool-cases test.1) [
        | inr n ↦ rw (n, evict_loop) u
        | inl y ↦ elim (Option-cases (peek_lru st.lru)) [
          | inl e ↦ rw (y, evict_loop, e) u
          | inr ((j, x), e) ↦
              let st' : MapState dec le entry cache = record st {
                world = test.0;
                lru = pop_lru st.lru;
              } in
              let st'' = forget dec le entry cache st' j x false in
              let u' = forget-Unindexed k j x false st' u in
              rw (y, evict_loop, e)
                (elim (Option-cases (peek_lru st''.lru)) [
                  | inl f ↦ rw f u'
                  | inr ((i, z), f) ↦ rw f (evict_loop-Unindexed k fuel st'' z m u')
                ])
        ]
      ]

  evict_items-Unindexed :
      (k : K) (st : MapState dec le entry cache)
      → Unindexed k st
      → Unindexed k (evict_items dec le entry cache limits st)
  unfolding evict_items target_bytes
  evict_items-Unindexed k st u = elim (Option-cases (peek_lru st.lru)) [
    | inl e ↦ rw (e, evict_items) u
    | inr ((j, item), e) ↦
        let aim = target_bytes dec le entry cache limits st item in
        rw (e, evict_items)
          (evict_loop-Unindexed k (cache.len aim.0.lru) aim.0 item aim.1 (u.0, ground arith, u.2))
  ]

  put_entry-Unindexed :
      (st : MapState dec le entry cache) (k : K) (s : List K) (old item : EvictionItem T)
      → st.btree ≡ some s
      → peek k st.lru ≡ some old
      → Unindexed k (put_entry dec le entry cache st k item).0
  unfolding put_entry forget
  put_entry-Unindexed st k s old item indexed here =
      rw (here, put_entry)
        (
          set_remove dec le k (set_insert dec le k s),
          ground arith,
          contains-set_remove_self dec le k (set_insert dec le k s),
        )

  -- With filtering enabled, an insertion that replaces an entry takes its key out of the index:
  -- the new entry is stored by put, but after the insertion the index does not contain the key.
  pub insert_one-Unindexed :
      (st : MapState dec le entry cache) (k : K) (s : List K) (old : EvictionItem T) (content : T)
      (secs : ℤ)
      → st.btree ≡ some s
      → peek k st.lru ≡ some old
      → let item : EvictionItem T = record { seconds_since_anchor = secs; content = content } in
        (peek k (put_entry dec le entry cache st k item).0.lru ≡ some item)
        × Unindexed k (insert_one dec le entry cache limits st k content secs).0
  unfolding insert_one lookup
  insert_one-Unindexed st k s old content secs indexed here =
      let item : EvictionItem T = record { seconds_since_anchor = secs; content = content } in
      let put = (put_entry dec le entry cache st k item).0 in
      (
        cache.peek-iter k put.lru
            ∙ rw (put_entry-iter st k item)
                (if_pos (dec k k) refl (some item) (lookup dec k (remove dec k (iter st.lru)))),
        evict_items-Unindexed k
            (record put {
              sum_store_size = add_u64 put.sum_store_size (len content);
              lifetime_inserted_bytes = add_u64 put.lifetime_inserted_bytes (len content);
            })
            (put_entry-Unindexed st k s old item indexed here),
      )
