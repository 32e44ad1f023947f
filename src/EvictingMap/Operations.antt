-- ===== src/EvictingMap/Operations.antt =====
-- The public methods of `EvictingMap`.
use native_link.Base.{
  add_u64, u64_max, ℕ, ◌+◌, Bool, true, false, ◌&&◌, not, Option, none, some, List, [], ◌∷◌, map,
  if◌then◌else◌, ℤ, as_i32,
}
use native_link.Base.Lru.{LruCache}
use native_link.EvictingMap.{
  LenEntry, EvictionItem, MapState, Limits, from_keys, forget, put_entry, should_evict, evict_items,
}

module _ {K T : Type 0} (dec : Discrete K) (le : K → K → Bool) (entry : LenEntry T)
    (cache : LruCache K (EvictionItem T) dec) (limits : Limits) where
  open entry use {World, len, touch, elapsed}
  open cache use {iter, peek, get, write, pop}

  abbrev pub St : Type 0
  St = MapState dec le entry cache

  abbrev keys_of : List (K × EvictionItem T) → List K
  keys_of = map (λ e. e.0)

  -- `enable_filtering`, and `rebuild_btree_index`.
  unfoldable pub rebuild_btree_index : St → List K
  unfolding from_keys
  rebuild_btree_index st = from_keys dec le (keys_of (iter st.lru))

  unfoldable pub enable_filtering : St → St
  unfolding rebuild_btree_index
  enable_filtering st = elim st.btree [
    | some s ↦ st
    | none ↦ record st { btree = some (rebuild_btree_index st) }
  ]

  -- The entry of a key that is there is stamped with the present time.
  unfoldable pub stamp : St → K → EvictionItem T → St
  stamp st key item =
      let (w, secs) = elapsed st.world in
      record st {
        world = w;
        lru = write key (record item { seconds_since_anchor = as_i32 secs }) st.lru;
      }

  -- `pop_entry` and the books.
  unfoldable pub drop_entry : St → K → St
  unfolding forget
  drop_entry st key = elim (peek key st.lru) [
    | none ↦ st
    | some item ↦ forget dec le entry cache (record st { lru = pop key st.lru }) key item false
  ]

  -- One round of the loop of `sizes_for_keys`; `peeking` leaves the order of use alone.
  unfoldable pub size_of_key : ℕ → Bool → St → K → St × Option ℕ
  unfolding stamp drop_entry should_evict
  size_of_key lru_len peeking st key =
      let st' = if peeking then st else record st { lru = get key st.lru } in
      elim (peek key st.lru) [
        | none ↦ (st', none)
        | some item ↦
            let (w, evict) =
              should_evict dec le entry cache limits st'.world lru_len item 0 u64_max in
            let timed = record st' { world = w } in
            if not evict && peeking
            then (timed, some (len item.content))
            else if evict
            then (drop_entry timed key, none)
            else let (w', usable) = touch item.content timed.world in
              let touched = record timed { world = w' } in
              if usable
              then (stamp touched key item, some (len item.content))
              else (drop_entry touched key, none)
      ]

  unfoldable pub sizes_loop : ℕ → Bool → St → List K → St × List (Option ℕ)
  unfolding size_of_key
  sizes_loop lru_len peeking st [] = (st, [])
  sizes_loop lru_len peeking st (key ∷ keys) =
      let (st', size) = size_of_key lru_len peeking st key in
      let (st'', sizes) = sizes_loop lru_len peeking st' keys in (st'', size ∷ sizes)

  -- `sizes_for_keys`, which fills one result for each key.
  unfoldable pub sizes_for_keys : St → List K → Bool → St × List (Option ℕ)
  unfolding sizes_loop
  sizes_for_keys st keys peeking = sizes_loop (cache.len st.lru) peeking st keys

  unfoldable pub size_for_key : St → K → St × Option ℕ
  unfolding size_of_key
  size_for_key st key = size_of_key (cache.len st.lru) false st key

  -- `get`.
  unfoldable pub get_entry : St → K → St × Option T
  unfolding stamp drop_entry evict_items
  get_entry st key =
      let st' = evict_items dec le entry cache limits st in
      let st'' = record st' { lru = get key st'.lru } in
      elim (peek key st'.lru) [
        | none ↦ (st'', none)
        | some item ↦
            let (w, usable) = touch item.content st''.world in
            let touched = record st'' { world = w } in
            if usable
            then (stamp touched key item, some item.content)
            else (drop_entry touched key, none)
      ]

  -- One round of `inner_insert_many`: the item that it replaced, if any, is added to the results.
  unfoldable pub insert_one : St → K → T → ℤ → St × Option T
  unfolding put_entry evict_items
  insert_one st key content seconds_since_anchor =
      let new_item_size = len content in
      let item : EvictionItem T = record {
        seconds_since_anchor = seconds_since_anchor;
        content = content;
      } in
      let (st', old_item) = put_entry dec le entry cache st key item in
      (
        evict_items dec le entry cache limits (record st' {
          sum_store_size = add_u64 st'.sum_store_size new_item_size;
          lifetime_inserted_bytes = add_u64 st'.lifetime_inserted_bytes new_item_size;
        }),
        old_item,
      )

  abbrev pub push_some : Option T → List T → List T
  push_some none ts = ts
  push_some (some t) ts = t ∷ ts

  unfoldable pub inner_insert_many : St → List (K × T) → ℤ → St × List T
  unfolding insert_one
  inner_insert_many st [] seconds = (st, [])
  inner_insert_many st ((key, content) ∷ inserts) seconds =
      let (st', old_item) = insert_one st key content seconds in
      let (st'', replaced_items) = inner_insert_many st' inserts seconds in
      (st'', push_some old_item replaced_items)

  unfoldable pub insert_with_time : St → K → T → ℤ → St × Option T
  unfolding insert_one
  insert_with_time st key content seconds = insert_one st key content seconds

  unfoldable pub insert_entry : St → K → T → St × Option T
  unfolding insert_with_time
  insert_entry st key content =
      let (w, secs) = elapsed st.world in
      insert_with_time (record st { world = w }) key content (as_i32 secs)

  -- `insert_many`, which does not even read the clock when there is nothing to insert.
  unfoldable pub insert_many : St → List (K × T) → St × List T
  unfolding inner_insert_many
  insert_many st [] = (st, [])
  insert_many st (i ∷ inserts) =
      let (w, secs) = elapsed st.world in
      inner_insert_many (record st { world = w }) (i ∷ inserts) (as_i32 secs)

  -- `inner_remove`.
  unfoldable pub remove_entry : St → K → St × Bool
  unfolding drop_entry evict_items
  remove_entry st key =
      let st' = evict_items dec le entry cache limits st in
      elim (peek key st'.lru) [ none ↦ (st', false) | some item ↦ (drop_entry st' key, true) ]

  unfoldable pub remove_if : St → K → (T → Bool) → St × Bool
  unfolding remove_entry
  remove_if st key cond =
      let st' = record st { lru = get key st.lru } in
      elim (peek key st.lru) [
        | none ↦ (st', false)
        | some item ↦ if not (cond item.content) then (st', false) else remove_entry st' key
      ]

  -- The loop of `range` over the keys of the index that lie in the range, with the handler's state
  -- and the count; `none` is the `unwrap` of a key that the cache lacks.
  unfoldable pub range_loop {ℓ} :
      {H : Type ℓ} → (H → K → T → H × Bool) → St → H → ℕ → List K → Option (H × ℕ)
  range_loop handler st h count [] = some (h, count)
  range_loop handler st h count (key ∷ keys) = elim (peek key st.lru) [
    | none ↦ none
    | some item ↦
        let (h', go_on) = handler h key item.content in
        elim go_on [ false ↦ some (h', count) | true ↦ range_loop handler st h' (count + 1) keys ]
  ]

  abbrev pub keys_in : (K → Bool) → List K → List K
  keys_in test [] = []
  keys_in test (k ∷ ks) = if test k then k ∷ keys_in test ks else keys_in test ks

  unfoldable pub index_of : St → List K
  unfolding rebuild_btree_index
  index_of st = elim st.btree [ some s ↦ s | none ↦ rebuild_btree_index st ]

  unfoldable pub range {ℓ} :
      {H : Type ℓ} → St → (K → Bool) → (H → K → T → H × Bool) → H → Option (St × H × ℕ)
  unfolding enable_filtering range_loop index_of
  range st in_range handler h = elim (range_loop handler st h 0 (keys_in in_range (index_of st))) [
    | none ↦ none
    | some (h', count) ↦ some (enable_filtering st, h', count)
  ]
