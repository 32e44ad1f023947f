-- ===== src/EvictingMap/Accounting.antt =====
-- The map's books: the stored size is the sum of the entries' sizes, and what was ever inserted is
-- stored, evicted or replaced, all modulo 2 ^ 64.
use native_link.Base.{
  u64_mod, add_u64, ℕ, zero, suc, ◌+◌, ◌%◌, Bool, true, false, some, List, [], ◌∷◌, ◌≡◌, refl, sym,
  ◌∙◌, arith, lookup, remove, replace, Distinct, if_pos, if_neg, Bool-cases, Option-cases, inl, inr,
  remove_absent, ℤ, as_i32,
}
use native_link.Base.Lru.{LruCache, promote, last?, init}
use native_link.EvictingMap.{
  LenEntry, EvictionItem, MapState, Limits, forget, put_entry, should_evict, evict_loop,
  target_bytes, evict_items,
}
use native_link.EvictingMap.Operations.{stamp, drop_entry, insert_one}

module _ {K T : Type 0} (dec : Discrete K) (le : K → K → Bool) (entry : LenEntry T)
    (cache : LruCache K (EvictionItem T) dec) where
  open entry use {World, len, touch, elapsed}
  open cache use {iter, peek, get, write, put, pop, pop_lru, peek_lru}

  unfoldable pub total : List (K × EvictionItem T) → ℕ
  total [] = 0
  total ((k, item) ∷ m) = len item.content + total m

  total-remove :
      (k : K) (item : EvictionItem T) (m : List (K × EvictionItem T))
      → Distinct dec m
      → lookup dec k m ≡ some item
      → total m ≡ total (remove dec k m) + len item.content
  unfolding total remove lookup
  total-remove k item [] d e = absurd (ground arith)
  total-remove k item ((j, x) ∷ m) d e = elim (dec k j) [
    | yes q ↦
        let same : x ≡ item = ground arith in
        rw (if_pos _ q, remove_absent dec k m (rw q d.0), same) (omega arith)
    | no q ↦ rw (if_neg _ q) (omega (arith, total-remove k item m d.1 (ground arith)))
  ]

  total-promote :
      (k : K) (m : List (K × EvictionItem T)) → Distinct dec m → total (promote dec k m) ≡ total m
  unfolding promote total
  total-promote k m d = elim (Option-cases (lookup dec k m)) [
    | inl e ↦ rw (e, promote)
    | inr (v, e) ↦ rw (e, promote) (omega (arith, total-remove k v m d e))
  ]

  total-replace :
      (k : K) (v w : EvictionItem T) (m : List (K × EvictionItem T))
      → lookup dec k m ≡ some v
      → len w.content ≡ len v.content
      → total (replace dec k w m) ≡ total m
  unfolding replace total lookup
  total-replace k v w [] e l = refl
  total-replace k v w ((j, x) ∷ m) e l = elim (dec k j) [
    | yes q ↦ let same : x ≡ v = ground arith in rw (if_pos _ q, same, l)
    | no q ↦ rw (if_neg _ q) (omega (arith, total-replace k v w m (ground arith) l))
  ]

  total-init :
      (k : K) (v : EvictionItem T) (m : List (K × EvictionItem T))
      → last? m ≡ some (k, v)
      → total m ≡ total (init m) + len v.content
  unfolding total
  total-init k v [] e = absurd (ground arith)
  total-init k v ((j, x) ∷ []) e = let same : x ≡ v = ground arith in rw same (omega arith)
  total-init k v ((j, x) ∷ y ∷ m) e = omega (arith, total-init k v (y ∷ m) e)

  pub record Balanced (st : MapState dec le entry cache) : Type 0 where
    pub stored : st.sum_store_size ≡ total (iter st.lru) % u64_mod
    pub moved :
        st.lifetime_inserted_bytes
        ≡ (st.sum_store_size + st.evicted_bytes + st.replaced_bytes) % u64_mod

  -- An entry that has left the cache, but not yet the books.
  forget-Balanced :
      (st : MapState dec le entry cache) (k : K) (item : EvictionItem T) (replaced : Bool)
      → st.sum_store_size ≡ (total (iter st.lru) + len item.content) % u64_mod
      → st.lifetime_inserted_bytes
        ≡ (st.sum_store_size + st.evicted_bytes + st.replaced_bytes) % u64_mod
      → Balanced (forget dec le entry cache st k item replaced)
  unfolding forget
  forget-Balanced st k item true s m = record { stored = omega arith; moved = omega arith }
  forget-Balanced st k item false s m = record { stored = omega arith; moved = omega arith }

  -- Only the cache's total and the books count.
  pub same_books :
      (st st' : MapState dec le entry cache)
      → total (iter st'.lru) ≡ total (iter st.lru)
      → st'.sum_store_size ≡ st.sum_store_size
      → st'.lifetime_inserted_bytes ≡ st.lifetime_inserted_bytes
      → st'.evicted_bytes ≡ st.evicted_bytes
      → st'.replaced_bytes ≡ st.replaced_bytes
      → Balanced st
      → Balanced st'
  same_books st st' t s l e r b = record {
    stored = s ∙ rw t b.stored;
    moved = l ∙ rw (s, e, r) b.moved;
  }

  evict_loop-Balanced :
      (fuel : ℕ) (limits : Limits) (st : MapState dec le entry cache) (item : EvictionItem T)
      (max_bytes : ℕ)
      → Balanced st
      → Balanced (evict_loop dec le entry cache fuel limits st item max_bytes)
  unfolding evict_loop
  evict_loop-Balanced zero limits st item max_bytes b = b
  evict_loop-Balanced (suc fuel) limits st item max_bytes b =
      elim (Bool-cases
        (should_evict dec le entry cache limits st.world (cache.len st.lru) item st.sum_store_size
          max_bytes).1) [
            | inr n ↦ rw (n, evict_loop) (same_books st _ refl refl refl refl refl b)
            | inl y ↦ elim (Option-cases (peek_lru st.lru)) [
              | inl e ↦ rw (y, evict_loop, e) (same_books st _ refl refl refl refl refl b)
              | inr ((k, x), e) ↦
                  let w =
                    (should_evict dec le entry cache limits st.world (cache.len st.lru) item
                      st.sum_store_size max_bytes).0 in
                  let st' : MapState dec le entry cache = record st {
                    world = w;
                    lru = pop_lru st.lru;
                  } in
                  let st'' = forget dec le entry cache st' k x false in
                  let books : Balanced st'' =
                    forget-Balanced st' k x false
                      (rw
                        (
                          cache.iter-pop_lru st.lru,
                          ← total-init k x (iter st.lru) (sym (cache.peek_lru-iter st.lru) ∙ e),
                        )
                        b.stored)
                      b.moved in
                  rw (y, evict_loop, e)
                    (elim (Option-cases (peek_lru st''.lru)) [
                      | inl f ↦ rw f books
                      | inr ((j, z), f) ↦
                          rw f (evict_loop-Balanced fuel limits st'' z max_bytes books)
                    ])
            ]
          ]

  pub evict_items-Balanced :
      (limits : Limits) (st : MapState dec le entry cache)
      → Balanced st
      → Balanced (evict_items dec le entry cache limits st)
  unfolding evict_items target_bytes
  evict_items-Balanced limits st b = elim (Option-cases (peek_lru st.lru)) [
    | inl e ↦ rw (e, evict_items) b
    | inr ((k, item), e) ↦
        let aim = target_bytes dec le entry cache limits st item in
        rw (e, evict_items)
          (evict_loop-Balanced (cache.len aim.0.lru) limits aim.0 item aim.1 (
            same_books st aim.0 (ground arith) (ground arith) (ground arith) (ground arith)
              (ground arith) b))
  ]

  module _ (limits : Limits) where
    pub stamp-Balanced :
        (st : MapState dec le entry cache) (k : K) (item : EvictionItem T)
        → peek k st.lru ≡ some item
        → Balanced st
        → Balanced (stamp dec le entry cache limits st k item)
    unfolding stamp
    stamp-Balanced st k item e b =
        let item' : EvictionItem T = record item {
          seconds_since_anchor = as_i32 (elapsed st.world).1;
        } in
        same_books st (stamp dec le entry cache limits st k item)
          (rw (cache.iter-write k item' st.lru)
            (total-replace k item item' (iter st.lru) (sym (cache.peek-iter k st.lru) ∙ e) refl))
          refl refl refl refl b

    pub drop_entry-Balanced :
        (st : MapState dec le entry cache) (k : K)
        → Balanced st
        → Balanced (drop_entry dec le entry cache limits st k)
    unfolding drop_entry
    drop_entry-Balanced st k b = elim (Option-cases (peek k st.lru)) [
      | inl e ↦ rw (e, drop_entry) b
      | inr (item, e) ↦
          rw (e, drop_entry)
            (forget-Balanced (record st { lru = pop k st.lru }) k item false
              (rw
                (
                  cache.iter-pop k st.lru,
                  ← total-remove k item (iter st.lru) (cache.iter-Distinct st.lru)
                      (sym (cache.peek-iter k st.lru) ∙ e),
                )
                b.stored)
              b.moved)
    ]

    pub get-Balanced :
        (st : MapState dec le entry cache) (k : K)
        → Balanced st
        → Balanced (record st { lru = get k st.lru })
    get-Balanced st k b =
        same_books st (record st { lru = get k st.lru })
          (rw (cache.iter-get k st.lru)
            (total-promote k (iter st.lru) (cache.iter-Distinct st.lru)))
          refl refl refl refl b

    pub world-Balanced :
        (st : MapState dec le entry cache) (w : World)
        → Balanced st
        → Balanced (record st { world = w })
    world-Balanced st w b = same_books st (record st { world = w }) refl refl refl refl refl b

    put_entry-total :
        (st : MapState dec le entry cache) (k : K) (item : EvictionItem T)
        → Balanced st
        → let out = (put_entry dec le entry cache st k item).0 in
          (add_u64 out.sum_store_size (len item.content) ≡ total (iter out.lru) % u64_mod)
          × (out.lifetime_inserted_bytes
              ≡ (out.sum_store_size + out.evicted_bytes + out.replaced_bytes) % u64_mod)
    unfolding put_entry forget total
    put_entry-total st k item b = elim (Option-cases (peek k st.lru)) [
      | inl e ↦
          rw
            (
              e,
              put_entry,
              cache.iter-put k item st.lru,
              remove_absent dec k (iter st.lru) (sym (cache.peek-iter k st.lru) ∙ e),
            )
            (omega (arith, b.stored), b.moved)
      | inr (old, e) ↦
          let split =
            total-remove k old (iter st.lru) (cache.iter-Distinct st.lru)
              (sym (cache.peek-iter k st.lru) ∙ e) in
          let s = b.stored in
          let m = b.moved in
          rw (e, put_entry, cache.iter-put k item st.lru) (omega arith, omega arith)
    ]

    -- Inserting an item keeps the books, whether it is new or replaces another, and whatever is
    -- evicted for it.
    pub insert_one-Balanced :
        (st : MapState dec le entry cache) (k : K) (content : T) (secs : ℤ)
        → Balanced st
        → Balanced (insert_one dec le entry cache limits st k content secs).0
    unfolding insert_one
    insert_one-Balanced st k content secs b =
        let item : EvictionItem T = record { seconds_since_anchor = secs; content = content } in
        let out = (put_entry dec le entry cache st k item).0 in
        let (s, m) = put_entry-total st k item b in
        evict_items-Balanced limits
          (record out {
            sum_store_size = add_u64 out.sum_store_size (len content);
            lifetime_inserted_bytes = add_u64 out.lifetime_inserted_bytes (len content);
          })
          (record { stored = omega arith; moved = omega arith })
