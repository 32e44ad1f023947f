-- ===== src/Examples/Stores.antt =====
-- The theorem on the partitioned store, for two stores that know the size of every key.
use native_link.Base.{ℕ, ◌+◌, false, Option, none, some, List, [], ◌∷◌, ◌≡◌, refl, ok, map}
use native_link.SizePartitioningStore.{
  StoreKey, str, digest, Store, has_non_digest, has_with_results,
}
use native_link.SizePartitioningStore.Lookup.{size_of, has_with_results-routes}

abbrev size_in : ℕ → StoreKey → Option ℕ
size_in n (str s) = none
size_in n (digest d) = some (d.size_bytes + n)

abbrev always : ℕ → Store
always n = record {
  World = Unit {0};
  has_many = λ w ks. (w, ok (map (size_in n) ks));
  update = λ w k reader size_info. (w, ok tt);
  get_part = λ w k offset length. (w, ok []);
}

abbrev keys : List StoreKey
keys =
    digest (record { packed_hash = 1; size_bytes = 5 })
    ∷ digest (record { packed_hash = 2; size_bytes = 50 })
    ∷ digest (record { packed_hash = 3; size_bytes = 6 })
    ∷ []

only-digests : has_non_digest keys ≡ false
unfolding has_non_digest
only-digests = refl

has_with_results-routes_example :
    (has_with_results 10 (always 0) (always 100) (tt, tt) keys).1
    ≡ ok (map (size_of 10 (size_in 0) (size_in 100)) keys)
has_with_results-routes_example =
    has_with_results-routes 10 (size_in 0) (size_in 100) (always 0) (always 100) tt tt keys refl
      refl only-digests
