-- ===== src/EvictingMap/Eviction.antt =====
-- What `evict_items` leaves: the most recently used entries, within the limits.
use native_link.Base.{
  ℕ, zero, suc, ◌≤◌, ◌<◌, Bool, false, none, some, List, [], ◌∷◌, ◌++◌, ◌≡◌, ◌≢◌, refl, sym, ◌∙◌,
  ap, arith, length, Bool-cases, Option-cases, ◌⊎◌, inl, inr, pos,
}
use mathlib.Core.List.{append-nil, append_assoc}
use native_link.Base.Lru.{LruCache, last?, init}
use native_link.EvictingMap.{
  LenEntry, EvictionItem, MapState, Limits, forget, should_evict, evict_loop, target_bytes,
  evict_items,
}

init-append-last : {A : Type 0} (m : List A) (x : A) → last? m ≡ some x → m ≡ init m ++ x ∷ []
init-append-last [] x e = absurd (ground arith)
init-append-last (a ∷ []) x e = ground arith
init-append-last (a ∷ b ∷ m) x e = ap (◌∷◌ a) (init-append-last (b ∷ m) x e)

length-init :
    {A : Type 0} (m : List A) (x : A) → last? m ≡ some x → length m ≡ suc (length (init m))
length-init [] x e = absurd (ground arith)
length-init (a ∷ []) x e = refl
length-init (a ∷ b ∷ m) x e = ap suc (length-init (b ∷ m) x e)

last?-none : {A : Type 0} (m : List A) → last? m ≡ none → m ≡ []
last?-none [] e = refl
last?-none (a ∷ []) e = absurd (ground arith)
last?-none (a ∷ b ∷ m) e = cc (last?-none (b ∷ m) e)

module _ {K T : Type 0} (dec : Discrete K) (le : K → K → Bool) (entry : LenEntry T)
    (cache : LruCache K (EvictionItem T) dec) (limits : Limits) where
  open entry use {World, len, elapsed}
  open cache use {iter, peek_lru, pop_lru}

  -- The limits on bytes and on the number of entries.
  pub record Fits (max_bytes : ℕ) (st : MapState dec le entry cache) : Type 0 where
    pub bytes : max_bytes ≢ 0 → st.sum_store_size < max_bytes
    pub count : limits.max_count ≢ 0 → length (iter st.lru) ≤ limits.max_count

  -- The state after some entries at the least recently used end are gone.
  pub record Kept (max_bytes : ℕ) (st st' : MapState dec le entry cache) : Type 0 where
    pub dropped : List (K × EvictionItem T)
    pub prefix : iter st.lru ≡ iter st'.lru ++ dropped
    pub within : (iter st'.lru ≡ []) ⊎ Fits max_bytes st'

  stays :
      (w : World) (item : EvictionItem T) (st : MapState dec le entry cache) (m : ℕ)
      → (should_evict dec le entry cache limits w (cache.len st.lru) item st.sum_store_size m).1
        ≡ false
      → Fits m st
  unfolding should_evict
  stays w item st m e =
      let l = cache.len-iter st.lru in
      record { bytes = λ h. ground arith; count = λ h. ground arith }

  evict_loop-Kept :
      (fuel : ℕ) (st : MapState dec le entry cache) (k : K) (item : EvictionItem T) (m : ℕ)
      → length (iter st.lru) ≤ fuel
      → last? (iter st.lru) ≡ some (k, item)
      → Kept m st (evict_loop dec le entry cache fuel limits st item m)
  unfolding evict_loop forget
  evict_loop-Kept zero st k item m h e =
      absurd (ground (arith, length-init (iter st.lru) (k, item) e))
  evict_loop-Kept (suc fuel) st k item m h e =
      let test =
        should_evict dec le entry cache limits st.world (cache.len st.lru) item st.sum_store_size
          m in
      let found : peek_lru st.lru ≡ some (k, item) = cache.peek_lru-iter st.lru ∙ e in
      elim (Bool-cases test.1) [
        | inr n ↦
            rw (n, evict_loop)
              (record {
                dropped = [];
                prefix = sym (append-nil (iter st.lru));
                within = inr (same_fit (stays st.world item st m n));
              })
        | inl y ↦
            let st' : MapState dec le entry cache = record st {
              world = test.0;
              lru = pop_lru st.lru;
            } in
            let st'' = forget dec le entry cache st' k item false in
            let less : iter st''.lru ≡ init (iter st.lru) = cache.iter-pop_lru st.lru in
            let split : iter st.lru ≡ iter st''.lru ++ (k, item) ∷ [] =
              rw less (init-append-last (iter st.lru) (k, item) e) in
            rw (y, evict_loop, found)
              (elim (Option-cases (peek_lru st''.lru)) [
                | inl f ↦ rw f (record {
                  dropped = (k, item) ∷ [];
                  prefix = split;
                  within =
                      inl (last?-none (iter st''.lru) (sym (cache.peek_lru-iter st''.lru) ∙ f));
                })
                | inr ((j, z), f) ↦
                    let rest =
                      evict_loop-Kept fuel st'' j z m
                        (rw less (omega (arith, length-init (iter st.lru) (k, item) e)))
                        (sym (cache.peek_lru-iter st''.lru) ∙ f) in
                    rw f (record {
                      dropped = rest.dropped ++ (k, item) ∷ [];
                      prefix =
                          split
                          ∙ (ap (λ l. l ++ (k, item) ∷ []) rest.prefix
                              ∙ append_assoc
                                  (iter (evict_loop dec le entry cache fuel limits st'' z m).lru)
                                  rest.dropped ((k, item) ∷ []));
                      within = rest.within;
                    })
              ])
      ]
    where
      same_fit : {w : World} → Fits m st → Fits m (record st { world = w })
      same_fit f = record { bytes = f.bytes; count = f.count }

  -- `evict_bytes` makes room below the limit only if it is less than it.
  abbrev pub Sensible : Type 0
  Sensible = (limits.evict_bytes ≡ 0) ⊎ (limits.evict_bytes < limits.max_bytes)

  target-le :
      (st : MapState dec le entry cache) (item : EvictionItem T)
      → Sensible
      → let aim = (target_bytes dec le entry cache limits st item).1 in
        (aim ≤ limits.max_bytes) × (limits.max_bytes ≢ 0 → aim ≢ 0)
  unfolding target_bytes
  target-le st item h = ground arith

  target_lru :
      (st : MapState dec le entry cache) (item : EvictionItem T)
      → (target_bytes dec le entry cache limits st item).0.lru ≡ st.lru
  unfolding target_bytes
  target_lru st item = ground arith

  -- If evict_bytes is zero or less than max_bytes, an eviction drops entries only at the least
  -- recently used end, and afterwards the map is empty, or its stored size is below the limit and
  -- it has no more entries than it may.
  pub evict_items-Kept :
      (st : MapState dec le entry cache)
      → Sensible
      → Kept limits.max_bytes st (evict_items dec le entry cache limits st)
  unfolding evict_items
  evict_items-Kept st h = elim (Option-cases (peek_lru st.lru)) [
    | inl e ↦
        rw (e, evict_items)
          (record {
            dropped = [];
            prefix = sym (append-nil (iter st.lru));
            within = inl (last?-none (iter st.lru) (sym (cache.peek_lru-iter st.lru) ∙ e));
          })
    | inr ((k, item), e) ↦
        let aim = target_bytes dec le entry cache limits st item in
        let same : iter aim.0.lru ≡ iter st.lru = ap iter (target_lru st item) in
        let rest =
          evict_loop-Kept (cache.len aim.0.lru) aim.0 k item aim.1
            (omega (arith, cache.len-iter aim.0.lru))
            (rw same (sym (cache.peek_lru-iter st.lru) ∙ e)) in
        let (low, some_limit) = target-le st item h in
        rw (e, evict_items)
          (record {
            dropped = rest.dropped;
            prefix = sym same ∙ rest.prefix;
            within = elim rest.within [
              | inl z ↦ inl z
              | inr f ↦
                  inr
                    (record { bytes = λ n. (below (f.bytes (some_limit n)) low); count = f.count })
            ];
          })
  ]
    where
      below : {a b c : ℕ} → a < b → b ≤ c → a < c
      below p q = omega arith

  evict_loop-idle :
      (fuel : ℕ) (st : MapState dec le entry cache) (item : EvictionItem T) (m : ℕ)
      → (should_evict dec le entry cache limits st.world
          (cache.len st.lru)
          item
          st.sum_store_size
          m).1
        ≡ false
      → (evict_loop dec le entry cache fuel limits st item m).lru ≡ st.lru
  unfolding evict_loop
  evict_loop-idle zero st item m e = refl
  evict_loop-idle (suc fuel) st item m e = rw (e, evict_loop)

  no_limit-test :
      (w : World) (n sum : ℕ) (item : EvictionItem T)
      → limits.max_seconds ≡ pos 0
      → limits.max_count ≡ 0
      → (should_evict dec le entry cache limits w n item sum 0).1 ≡ false
  unfolding should_evict
  no_limit-test w n sum item no_age no_count = rw no_age (ground arith)

  target-zero :
      (st : MapState dec le entry cache) (item : EvictionItem T)
      → limits.max_bytes ≢ 0
      → limits.max_bytes ≤ limits.evict_bytes
      → limits.max_bytes ≤ st.sum_store_size
      → (target_bytes dec le entry cache limits st item).1 ≡ 0
  unfolding target_bytes should_evict
  target-zero st item limited low over = ground arith

  -- With a limit on bytes, an evict_bytes that is not less than it, and no limit on age or count,
  -- a map at or over the limit evicts nothing.
  pub evict_items-no_limit :
      (st : MapState dec le entry cache)
      → limits.max_bytes ≢ 0
      → limits.max_bytes ≤ limits.evict_bytes
      → limits.max_bytes ≤ st.sum_store_size
      → limits.max_seconds ≡ pos 0
      → limits.max_count ≡ 0
      → (evict_items dec le entry cache limits st).lru ≡ st.lru
  unfolding evict_items
  evict_items-no_limit st limited low over no_age no_count = elim (Option-cases (peek_lru st.lru)) [
    | inl e ↦ rw (e, evict_items)
    | inr ((k, item), e) ↦
        let aim = target_bytes dec le entry cache limits st item in
        rw (e, evict_items)
          (rw (target-zero st item limited low over) (
            evict_loop-idle (cache.len aim.0.lru) aim.0 item 0 (
              no_limit-test aim.0.world (cache.len aim.0.lru) aim.0.sum_store_size item no_age
                no_count)
            ∙ target_lru st item))
  ]
