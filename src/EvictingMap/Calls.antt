-- ===== src/EvictingMap/Calls.antt =====
-- The map over time: the books balance after any sequence of calls.
use native_link.Base.{Bool, false, none, some, List, [], ◌∷◌, arith, Option-cases, inl, inr, ℤ}
use native_link.Base.Lru.{LruCache}
use native_link.EvictingMap.{LenEntry, EvictionItem, MapState, Limits, new}
use native_link.EvictingMap.Operations.{
  enable_filtering, sizes_for_keys, get_entry, insert_many, insert_entry, insert_with_time,
  remove_entry, remove_if, size_for_key, range, range_loop, keys_in, index_of,
}
use native_link.EvictingMap.Accounting.{total, Balanced, insert_one-Balanced}
use native_link.EvictingMap.Balance.{
  get_entry-Balanced, remove_entry-Balanced, remove_if-Balanced, insert_many-Balanced,
  insert_entry-Balanced, enable_filtering-Balanced, size_of_key-Balanced, sizes_loop-Balanced,
}

module _ {K T : Type 0} (dec : Discrete K) (le : K → K → Bool) (entry : LenEntry T)
    (cache : LruCache K (EvictionItem T) dec) (limits : Limits) where
  open entry use {World, len, touch, elapsed}
  open cache use {iter, peek, get}

  abbrev B : MapState dec le entry cache → Type 0
  B = Balanced dec le entry cache

  -- The public methods. The handler of `range` decides by the entries that it was given before.
  pub data Call : Type 0 where
    inserts_many : List (K × T) → Call
    inserts : K → T → Call
    inserts_at : K → T → ℤ → Call
    gets : K → Call
    asks_size : K → Call
    asks_sizes : List K → Bool → Call
    removes : K → Call
    removes_if : K → (T → Bool) → Call
    filters : Call
    ranges : (K → Bool) → (List (K × T) → K → T → List (K × T) × Bool) → Call

  -- `range` builds the index before it reads the entries, and a read may panic.
  unfoldable pub after_range :
      MapState dec le entry cache
      → (K → Bool)
      → (List (K × T) → K → T → List (K × T) × Bool)
      → MapState dec le entry cache
  unfolding range enable_filtering
  after_range st in_range handler = elim (range dec le entry cache limits st in_range handler []) [
    | none ↦ enable_filtering dec le entry cache limits st
    | some (st', seen, count) ↦ st'
  ]

  unfoldable pub step : MapState dec le entry cache → Call → MapState dec le entry cache
  unfolding insert_many insert_entry insert_with_time get_entry size_for_key sizes_for_keys
      remove_entry remove_if enable_filtering after_range
  step st (inserts_many is) = (insert_many dec le entry cache limits st is).0
  step st (inserts k t) = (insert_entry dec le entry cache limits st k t).0
  step st (inserts_at k t secs) = (insert_with_time dec le entry cache limits st k t secs).0
  step st (asks_size k) = (size_for_key dec le entry cache limits st k).0
  step st (ranges in_range handler) = after_range st in_range handler
  step st (gets k) = (get_entry dec le entry cache limits st k).0
  step st (asks_sizes ks peeking) = (sizes_for_keys dec le entry cache limits st ks peeking).0
  step st (removes k) = (remove_entry dec le entry cache limits st k).0
  step st (removes_if k cond) = (remove_if dec le entry cache limits st k cond).0
  step st filters = enable_filtering dec le entry cache limits st

  unfoldable pub run : MapState dec le entry cache → List Call → MapState dec le entry cache
  unfolding step
  run st [] = st
  run st (c ∷ cs) = run (step st c) cs

  after_range-Balanced :
      (st : MapState dec le entry cache) (in_range : K → Bool)
      (handler : List (K × T) → K → T → List (K × T) × Bool)
      → B st
      → B (after_range st in_range handler)
  unfolding after_range range
  after_range-Balanced st in_range handler b =
      elim (Option-cases (
        range_loop dec le entry cache limits handler st [] 0
          (keys_in dec le entry cache limits in_range (index_of dec le entry cache limits st)))) [
            | inl e ↦
                rw (e, after_range, range)
                  (enable_filtering-Balanced dec le entry cache limits st b)
            | inr (seen, e) ↦
                rw (e, after_range, range)
                  (enable_filtering-Balanced dec le entry cache limits st b)
          ]

  step-Balanced : (st : MapState dec le entry cache) (c : Call) → B st → B (step st c)
  unfolding step
  step-Balanced st (inserts_many is) b = insert_many-Balanced dec le entry cache limits st is b
  step-Balanced st (inserts k t) b = insert_entry-Balanced dec le entry cache limits st k t b
  step-Balanced st (inserts_at k t secs) b =
      unfold insert_with_time in insert_one-Balanced dec le entry cache limits st k t secs b
  step-Balanced st (asks_size k) b =
      unfold size_for_key in
      size_of_key-Balanced dec le entry cache limits (cache.len st.lru) false st k b
  step-Balanced st (ranges in_range handler) b = after_range-Balanced st in_range handler b
  step-Balanced st (gets k) b = get_entry-Balanced dec le entry cache limits st k b
  step-Balanced st (asks_sizes ks peeking) b =
      unfold sizes_for_keys in
      sizes_loop-Balanced dec le entry cache limits (cache.len st.lru) peeking st ks b
  step-Balanced st (removes k) b = remove_entry-Balanced dec le entry cache limits st k b
  step-Balanced st (removes_if k cond) b = remove_if-Balanced dec le entry cache limits st k cond b
  step-Balanced st filters b = enable_filtering-Balanced dec le entry cache limits st b

  run-Balanced-from : (st : MapState dec le entry cache) (cs : List Call) → B st → B (run st cs)
  unfolding run
  run-Balanced-from st [] b = b
  run-Balanced-from st (c ∷ cs) b = run-Balanced-from (step st c) cs (step-Balanced st c b)

  -- Whatever calls of its public methods a new map has served, `len_for_test` aside, its stored size is the sum of the sizes of its entries,
  -- and the bytes inserted over its lifetime are those stored, evicted and replaced, modulo 2 ^
  -- 64.
  pub run-Balanced : (w : World) (cs : List Call) → B (run (new dec le entry cache w) cs)
  unfolding new total
  run-Balanced w cs =
      run-Balanced-from (new dec le entry cache w) cs
        (record { stored = rw cache.iter-unbounded (omega arith); moved = omega arith })
