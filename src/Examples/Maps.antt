-- ===== src/Examples/Maps.antt =====
-- The theorems on the evicting map, for maps of numbers whose length is the number itself.
use native_link.Base.{
  ℕ, ◌+◌, true, some, List, [], ◌∷◌, ◌++◌, ◌≡◌, ◌⊎◌, inr, refl, arith, pos, leb, ℕ_discrete, lookup,
  remove,
}
use native_link.Base.Lru.{LruCache}
use native_link.Base.Lru.ListCache.{list_cache}
use native_link.EvictingMap.{LenEntry, EvictionItem, Limits, MapState, new, evict_items, put_entry}
use native_link.EvictingMap.Operations.{insert_one}
use native_link.EvictingMap.Accounting.{Balanced}
use native_link.EvictingMap.Calls.{inserts, gets, removes, run, run-Balanced}
use native_link.EvictingMap.Eviction.{Fits, Kept, evict_items-Kept, evict_items-no_limit}
use native_link.EvictingMap.Index.{Unindexed, insert_one-Kept, insert_one-Unindexed}

-- Entries that are always there, and a clock that advances by one at each reading.
abbrev sized : LenEntry ℕ
sized = record {
  World = ℕ;
  len = λ n. n;
  touch = λ n w. (w, true);
  unref = λ n w. w;
  elapsed = λ w. (w + 1, w);
}

abbrev cache : LruCache ℕ (EvictionItem ℕ) ℕ_discrete
cache = list_cache ℕ (EvictionItem ℕ) ℕ_discrete

abbrev limits : Limits
limits = record { max_bytes = 10; evict_bytes = 4; max_seconds = pos 0; max_count = 3 }

abbrev greedy : Limits
greedy = record { max_bytes = 10; evict_bytes = 10; max_seconds = pos 0; max_count = 0 }

abbrev item : ℕ → EvictionItem ℕ
item n = record { seconds_since_anchor = pos 0; content = n }

-- Two entries, of eight and seven bytes, with filtering enabled.
abbrev full : MapState ℕ_discrete leb sized cache
full = record {
  lru = LruCache.put cache 2 (item 7) (LruCache.put cache 1 (item 8) (LruCache.unbounded cache));
  btree = some (1 ∷ 2 ∷ []);
  sum_store_size = 15;
  evicted_bytes = 0;
  evicted_items = 0;
  replaced_bytes = 0;
  replaced_items = 0;
  lifetime_inserted_bytes = 15;
  world = 0;
}

full-peek : LruCache.peek cache 2 full.lru ≡ some (item 7)
unfolding list_cache lookup ℕ_discrete
full-peek = refl

run-Balanced_example : Balanced ℕ_discrete leb sized cache (
    run ℕ_discrete leb sized cache limits
      (new ℕ_discrete leb sized cache 0)
      (inserts 1 8 ∷ inserts 2 7 ∷ gets 1 ∷ removes 2 ∷ []))
run-Balanced_example =
    run-Balanced ℕ_discrete leb sized cache limits 0
      (inserts 1 8 ∷ inserts 2 7 ∷ gets 1 ∷ removes 2 ∷ [])

evict_items-Kept_example :
    Kept ℕ_discrete leb sized cache limits 10 full
      (evict_items ℕ_discrete leb sized cache limits full)
evict_items-Kept_example =
    evict_items-Kept ℕ_discrete leb sized cache limits full (inr (omega arith))

insert_one-Kept_example :
    let out = (insert_one ℕ_discrete leb sized cache limits full 3 5 (pos 0)).0 in
    (dropped : List (ℕ × EvictionItem ℕ)) × ((3, item 5)
        ∷ remove ℕ_discrete 3 (LruCache.iter cache full.lru)
      ≡ LruCache.iter cache out.lru ++ dropped)
    × ((LruCache.iter cache out.lru ≡ []) ⊎ Fits ℕ_discrete leb sized cache limits 10 out)
insert_one-Kept_example =
    insert_one-Kept ℕ_discrete leb sized cache limits full 3 5 (pos 0) (inr (omega arith))

insert_one-Unindexed_example :
    (LruCache.peek cache 2 (put_entry ℕ_discrete leb sized cache full 2 (item 6)).0.lru
      ≡ some (item 6))
    × Unindexed ℕ_discrete leb sized cache limits 2
        (insert_one ℕ_discrete leb sized cache limits full 2 6 (pos 0)).0
insert_one-Unindexed_example =
    insert_one-Unindexed ℕ_discrete leb sized cache limits full 2 (1 ∷ 2 ∷ []) (item 7) 6 (pos 0)
      refl full-peek

evict_items-no_limit_example : (evict_items ℕ_discrete leb sized cache greedy full).lru ≡ full.lru
evict_items-no_limit_example =
    evict_items-no_limit ℕ_discrete leb sized cache greedy full (λ e. (omega (arith, e)))
      (omega arith) (omega arith) refl refl
