-- ===== src/EvictingMap.antt =====
-- nativelink-util/src/evicting_map.rs: the bounded map behind the stores. Each public method holds
-- the map's lock, so it is one step from a state to the next. The entries live in the crate's
-- `LruCache`; what an entry does when it is touched or dropped, and the clock, are parameters that
-- act on a `world`, which is part of the state. Numbers of type `u64` wrap. Log lines are left out.
pub mod Operations
pub mod Accounting
pub mod Eviction
pub mod Index
pub mod Balance
pub mod Calls
use native_link.Base.{
  u64_mod, u64_max, add_u64, sub_u64, ℕ, zero, suc, ◌+◌, ◌-◌, ◌%◌, Bool, true, false, ◌&&◌, ◌||◌,
  not, Option, none, some, List, [], ◌∷◌, map, ltb, leb, ◌==◌, if◌then◌else◌, ite, ℤ, pos, negsuc,
  ltb_ℤ, as_i32, sub_i32,
}
use native_link.Base.Lru.{LruCache}

-- The trait `LenEntry` and the clock: `touch` says whether the entry is still usable, `unref` is
-- called when an entry leaves the map, and `elapsed` gives the seconds since the anchor time.
pub record LenEntry (T : Type 0) : Type 1 where
  pub World : Type 0
  pub len : T → ℕ
  pub touch : T → World → World × Bool
  pub unref : T → World → World
  pub elapsed : World → World × ℕ

pub record EvictionItem (T : Type 0) : Type 0 where
  pub seconds_since_anchor : ℤ
  pub content : T

pub record State (K Cache World : Type 0) : Type 0 where
  pub lru : Cache
  pub btree : Option (List K)
  pub sum_store_size : ℕ
  pub evicted_bytes : ℕ
  pub evicted_items : ℕ
  pub replaced_bytes : ℕ
  pub replaced_items : ℕ
  pub lifetime_inserted_bytes : ℕ
  pub world : World

-- The limits; zero means that there is none.
pub record Limits : Type 0 where
  pub max_bytes : ℕ
  pub evict_bytes : ℕ
  pub max_seconds : ℤ
  pub max_count : ℕ

-- The configuration `EvictionPolicy`, and the limits that `EvictingMap::new` makes of it.
pub record EvictionPolicy : Type 0 where
  pub max_bytes : ℕ
  pub evict_bytes : ℕ
  pub max_seconds : ℕ
  pub max_count : ℕ

abbrev pub new_limits : EvictionPolicy → Limits
new_limits config = record {
  max_bytes = config.max_bytes;
  evict_bytes = config.evict_bytes;
  max_seconds = as_i32 config.max_seconds;
  max_count = config.max_count;
}

abbrev zero_ℤ : ℤ → Bool
zero_ℤ (pos n) = n == 0
zero_ℤ (negsuc n) = false

-- A `BTreeSet`, as its elements in order.
module _ {K : Type 0} (dec : Discrete K) (le : K → K → Bool) where
  unfoldable pub set_remove : K → List K → List K
  set_remove k [] = []
  set_remove k (j ∷ s) = ite (dec k j) (set_remove k s) (j ∷ set_remove k s)

  unfoldable pub set_insert : K → List K → List K
  set_insert k [] = k ∷ []
  set_insert k (j ∷ s) = ite (dec k j) (j ∷ s) (if le k j then k ∷ j ∷ s else j ∷ set_insert k s)

  unfoldable pub from_keys : List K → List K
  unfolding set_insert
  from_keys [] = []
  from_keys (k ∷ ks) = set_insert k (from_keys ks)

module _ {K T : Type 0} (dec : Discrete K) (le : K → K → Bool) (entry : LenEntry T)
    (cache : LruCache K (EvictionItem T) dec) where
  open entry use {World, len, touch, unref, elapsed}
  open cache use {Cache, iter, put, pop_lru, peek_lru, peek}

  abbrev pub MapState : Type 0
  MapState = State K Cache World

  unfoldable pub new : World → MapState
  new w = record {
    lru = cache.unbounded;
    btree = none;
    sum_store_size = 0;
    evicted_bytes = 0;
    evicted_items = 0;
    replaced_bytes = 0;
    replaced_items = 0;
    lifetime_inserted_bytes = 0;
    world = w;
  }

  abbrev on_index : (List K → List K) → Option (List K) → Option (List K)
  on_index f none = none
  on_index f (some s) = some (f s)

  -- `State::remove`: the books for an entry that has left the cache.
  unfoldable pub forget : MapState → K → EvictionItem T → Bool → MapState
  unfolding set_remove
  forget st key item replaced =
      let size = len item.content in
      let st' = record st {
        btree = on_index (set_remove dec le key) st.btree;
        sum_store_size = sub_u64 st.sum_store_size size;
        world = unref item.content st.world;
      } in
      if replaced
      then record st' {
        replaced_items = add_u64 st.replaced_items 1;
        replaced_bytes = add_u64 st.replaced_bytes size;
      }
      else record st' {
        evicted_items = add_u64 st.evicted_items 1;
        evicted_bytes = add_u64 st.evicted_bytes size;
      }

  -- `State::put`: the entry is stored, and the one that it replaces is forgotten and returned.
  unfoldable pub put_entry : MapState → K → EvictionItem T → MapState × Option T
  unfolding forget set_insert
  put_entry st key item =
      let old = peek key st.lru in
      let st' = record st {
        btree = on_index (set_insert dec le key) st.btree;
        lru = put key item st.lru;
      } in
      elim old [
        | none ↦ (st', none)
        | some old_item ↦ (forget st' key old_item true, some old_item.content)
      ]

  -- `should_evict`, which reads the clock.
  unfoldable pub should_evict : Limits → World → ℕ → EvictionItem T → ℕ → ℕ → World × Bool
  should_evict limits w lru_len peek_entry sum_store_size max_bytes =
      let (w', secs) = elapsed w in
      let is_over_size = not (max_bytes == 0) && leb max_bytes sum_store_size in
      let evict_older_than_seconds = sub_i32 (as_i32 secs) limits.max_seconds in
      let old_item_exists =
        not (zero_ℤ limits.max_seconds)
        && ltb_ℤ peek_entry.seconds_since_anchor evict_older_than_seconds in
      let is_over_count = not (limits.max_count == 0) && ltb limits.max_count lru_len in
      (w', is_over_size || old_item_exists || is_over_count)

  -- The `while` loop of `evict_items`, with the entry that was peeked at last. Each round pops one
  -- entry, so the number of entries is fuel enough.
  unfoldable pub evict_loop : ℕ → Limits → MapState → EvictionItem T → ℕ → MapState
  unfolding should_evict forget
  evict_loop zero limits st peek_entry max_bytes = st
  evict_loop (suc fuel) limits st peek_entry max_bytes =
      let (w, evict) =
        should_evict limits st.world (cache.len st.lru) peek_entry st.sum_store_size max_bytes in
      let st' = record st { world = w } in
      elim evict [
        | false ↦ st'
        | true ↦ elim (peek_lru st'.lru) [
          | none ↦ st'
          | some (key, item) ↦
              let st'' = forget (record st' { lru = pop_lru st'.lru }) key item false in
              elim (peek_lru st''.lru) [
                | none ↦ st''
                | some (next_key, next) ↦ evict_loop fuel limits st'' next max_bytes
              ]
        ]
      ]

  -- How many bytes `evict_items` leaves: once over the limit, `evict_bytes` less than it.
  unfoldable pub target_bytes : Limits → MapState → EvictionItem T → MapState × ℕ
  unfolding should_evict
  target_bytes limits st peek_entry =
      if not (limits.max_bytes == 0) && not (limits.evict_bytes == 0)
      then (let (w, evict) =
            should_evict limits st.world (cache.len st.lru) peek_entry st.sum_store_size
              limits.max_bytes in
          (
            record st { world = w },
            if evict
                then if ltb limits.evict_bytes limits.max_bytes
                  then limits.max_bytes - limits.evict_bytes
                  else 0
                else limits.max_bytes,
          ))
      else (st, limits.max_bytes)

  unfoldable pub evict_items : Limits → MapState → MapState
  unfolding evict_loop target_bytes
  evict_items limits st = elim (peek_lru st.lru) [
    | none ↦ st
    | some (key, peek_entry) ↦
        let (st', max_bytes) = target_bytes limits st peek_entry in
        evict_loop (cache.len st'.lru) limits st' peek_entry max_bytes
  ]
