-- ===== src/EvictingMap/Balance.antt =====
-- Every operation of the map keeps its books balanced.
use native_link.Base.{
  u64_max, ℕ, Bool, true, false, some, List, [], ◌∷◌, ◌≡◌, ◌∙◌, arith, Bool-cases, Option-cases,
  ◌⊎◌, inl, inr, ℤ,
}
use native_link.Base.Lru.{LruCache}
use native_link.Base.Lru.Peek.{peek-get}
use native_link.EvictingMap.{LenEntry, EvictionItem, MapState, Limits, should_evict, evict_items}
use native_link.EvictingMap.Operations.{
  enable_filtering, size_of_key, sizes_loop, get_entry, insert_one, inner_insert_many, insert_many,
  insert_entry, insert_with_time, remove_entry, remove_if,
}
use native_link.EvictingMap.Accounting.{
  Balanced, evict_items-Balanced, stamp-Balanced, drop_entry-Balanced, get-Balanced, world-Balanced,
  insert_one-Balanced, same_books,
}

module _ {K T : Type 0} (dec : Discrete K) (le : K → K → Bool) (entry : LenEntry T)
    (cache : LruCache K (EvictionItem T) dec) (limits : Limits) where
  open entry use {World, len, touch, elapsed}
  open cache use {iter, peek, get}

  abbrev B : MapState dec le entry cache → Type 0
  B = Balanced dec le entry cache

  pub get_entry-Balanced :
      (st : MapState dec le entry cache) (k : K)
      → B st
      → B (get_entry dec le entry cache limits st k).0
  unfolding get_entry
  get_entry-Balanced st k b = elim (Option-cases (peek k st'.lru)) [
    | inl e ↦ rw (e, get_entry) (get-Balanced dec le entry cache limits st' k b')
    | inr (item, e) ↦ touched item e (Bool-cases (touch item.content st'.world).1)
  ]
    where
      st' : MapState dec le entry cache
      st' = evict_items dec le entry cache limits st

      b' : B st'
      b' = evict_items-Balanced dec le entry cache limits st b

      after : EvictionItem T → MapState dec le entry cache
      after item = record st' { lru = get k st'.lru; world = (touch item.content st'.world).0 }

      touched :
          (item : EvictionItem T)
          → peek k st'.lru ≡ some item
          → ((touch item.content st'.world).1 ≡ true) ⊎ ((touch item.content st'.world).1 ≡ false)
          → B (get_entry dec le entry cache limits st k).0
      touched item e (inl y) =
          rw (e, get_entry, y)
            (stamp-Balanced dec le entry cache limits (after item) k item
              (peek-get dec cache k k st'.lru ∙ e)
              (world-Balanced dec le entry cache limits (record st' { lru = get k st'.lru }) _
                (get-Balanced dec le entry cache limits st' k b')))
      touched item e (inr n) =
          rw (e, get_entry, n)
            (drop_entry-Balanced dec le entry cache limits (after item) k (
              world-Balanced dec le entry cache limits (record st' { lru = get k st'.lru }) _
                (get-Balanced dec le entry cache limits st' k b')))

  pub remove_entry-Balanced :
      (st : MapState dec le entry cache) (k : K)
      → B st
      → B (remove_entry dec le entry cache limits st k).0
  unfolding remove_entry
  remove_entry-Balanced st k b =
      let st' = evict_items dec le entry cache limits st in
      let b' = evict_items-Balanced dec le entry cache limits st b in
      elim (Option-cases (peek k st'.lru)) [
        | inl e ↦ rw (e, remove_entry) b'
        | inr (item, e) ↦
            rw (e, remove_entry) (drop_entry-Balanced dec le entry cache limits st' k b')
      ]

  pub remove_if-Balanced :
      (st : MapState dec le entry cache) (k : K) (cond : T → Bool)
      → B st
      → B (remove_if dec le entry cache limits st k cond).0
  unfolding remove_if
  remove_if-Balanced st k cond b =
      let b' = get-Balanced dec le entry cache limits st k b in
      elim (Option-cases (peek k st.lru)) [
        | inl e ↦ rw (e, remove_if) b'
        | inr (item, e) ↦ elim (Bool-cases (cond item.content)) [
          | inl y ↦ rw (e, remove_if, y) (remove_entry-Balanced _ k b')
          | inr n ↦ rw (e, remove_if, n) b'
        ]
      ]

  inner_insert_many-Balanced :
      (st : MapState dec le entry cache) (inserts : List (K × T)) (secs : ℤ)
      → B st
      → B (inner_insert_many dec le entry cache limits st inserts secs).0
  unfolding inner_insert_many
  inner_insert_many-Balanced st [] secs b = b
  inner_insert_many-Balanced st ((k, t) ∷ inserts) secs b =
      inner_insert_many-Balanced (insert_one dec le entry cache limits st k t secs).0 inserts secs
        (insert_one-Balanced dec le entry cache limits st k t secs b)

  pub insert_many-Balanced :
      (st : MapState dec le entry cache) (inserts : List (K × T))
      → B st
      → B (insert_many dec le entry cache limits st inserts).0
  unfolding insert_many
  insert_many-Balanced st [] b = b
  insert_many-Balanced st (i ∷ inserts) b =
      inner_insert_many-Balanced _ (i ∷ inserts) _
        (world-Balanced dec le entry cache limits st (elapsed st.world).0 b)

  pub insert_entry-Balanced :
      (st : MapState dec le entry cache) (k : K) (t : T)
      → B st
      → B (insert_entry dec le entry cache limits st k t).0
  unfolding insert_entry insert_with_time
  insert_entry-Balanced st k t b =
      insert_one-Balanced dec le entry cache limits (record st { world = (elapsed st.world).0 }) k t
        _ (world-Balanced dec le entry cache limits st (elapsed st.world).0 b)

  pub enable_filtering-Balanced :
      (st : MapState dec le entry cache) → B st → B (enable_filtering dec le entry cache limits st)
  unfolding enable_filtering
  enable_filtering-Balanced st b =
      same_books dec le entry cache st (enable_filtering dec le entry cache limits st)
        (ground (arith)) (ground arith) (ground arith) (ground arith) (ground arith) b

  module _ (n : ℕ) (st : MapState dec le entry cache) (k : K) (b : B st) where
    used : MapState dec le entry cache
    used = record st { lru = get k st.lru }

    timed : MapState dec le entry cache → EvictionItem T → MapState dec le entry cache
    timed s item = record s {
      world = (should_evict dec le entry cache limits s.world n item 0 u64_max).0;
    }

    touched : EvictionItem T → MapState dec le entry cache
    touched item = record (timed used item) {
      world = (touch item.content (timed used item).world).0;
    }

    peeked-Balanced : B (size_of_key dec le entry cache limits n true st k).0
    unfolding size_of_key timed
    peeked-Balanced = elim (Option-cases (peek k st.lru)) [
      | inl e ↦ rw (e, size_of_key) b
      | inr (item, e) ↦
          let b' = world-Balanced dec le entry cache limits st (timed st item).world b in
          elim (Bool-cases (should_evict dec le entry cache limits st.world n item 0 u64_max).1) [
            | inr keep ↦ rw (e, size_of_key, keep) b'
            | inl gone ↦
                rw (e, size_of_key, gone)
                  (drop_entry-Balanced dec le entry cache limits (timed st item) k b')
          ]
    ]

    used-Balanced : B (size_of_key dec le entry cache limits n false st k).0
    unfolding size_of_key timed used touched
    used-Balanced = elim (Option-cases (peek k st.lru)) [
      | inl e ↦ rw (e, size_of_key) (get-Balanced dec le entry cache limits st k b)
      | inr (item, e) ↦
          let b' =
            world-Balanced dec le entry cache limits used (timed used item).world
              (get-Balanced dec le entry cache limits st k b) in
          let b'' =
            world-Balanced dec le entry cache limits (timed used item) (touched item).world b' in
          elim (Bool-cases (should_evict dec le entry cache limits st.world n item 0 u64_max).1) [
            | inl gone ↦
                rw (e, size_of_key, gone)
                  (drop_entry-Balanced dec le entry cache limits (timed used item) k b')
            | inr keep ↦ elim (Bool-cases (touch item.content (timed used item).world).1) [
              | inl y ↦
                  rw (e, size_of_key, keep, y)
                    (stamp-Balanced dec le entry cache limits (touched item) k item
                      (peek-get dec cache k k st.lru ∙ e) b'')
              | inr no_use ↦
                  rw (e, size_of_key, keep, no_use)
                    (drop_entry-Balanced dec le entry cache limits (touched item) k b'')
            ]
          ]
    ]

  pub size_of_key-Balanced :
      (n : ℕ) (peeking : Bool) (st : MapState dec le entry cache) (k : K)
      → B st
      → B (size_of_key dec le entry cache limits n peeking st k).0
  size_of_key-Balanced n true st k b = peeked-Balanced n st k b
  size_of_key-Balanced n false st k b = used-Balanced n st k b

  pub sizes_loop-Balanced :
      (n : ℕ) (peeking : Bool) (st : MapState dec le entry cache) (ks : List K)
      → B st
      → B (sizes_loop dec le entry cache limits n peeking st ks).0
  unfolding sizes_loop
  sizes_loop-Balanced n peeking st [] b = b
  sizes_loop-Balanced n peeking st (k ∷ ks) b =
      sizes_loop-Balanced n peeking (size_of_key dec le entry cache limits n peeking st k).0 ks
        (size_of_key-Balanced n peeking st k b)
