-- ===== src/SizePartitioningStore/Lookup.antt =====
-- Asking the partitioned store for many keys at once is asking the right store for each.
use native_link.Base.{
  ℕ, true, false, Option, List, [], ◌∷◌, ◌≡◌, refl, sym, subst, ◌∙◌, ap, arith, map, inl, inr,
  Bool-cases, ok, if_pos, if_neg,
}
use native_link.SizePartitioningStore.{
  StoreKey, StoreKey-discrete, Store, is_lower, partition_lower, partition_upper, has_non_digest,
  is_next, merge_results, take_result, has_with_results,
}

abbrev IsHead : List StoreKey → StoreKey → Type 0
IsHead [] k = ⊥
IsHead (u ∷ us) k = u ≡ k

module _ (partition_size : ℕ) (lower_size upper_size : StoreKey → Option ℕ) where
  -- The answer of the store that a key belongs to.
  abbrev pub size_of : StoreKey → Option ℕ
  size_of k = elim (is_lower partition_size k) [ true ↦ lower_size k | false ↦ upper_size k ]

  size_of-lower : (k : StoreKey) → is_lower partition_size k ≡ true → size_of k ≡ lower_size k
  size_of-lower k e = rw (size_of, e)

  size_of-upper : (k : StoreKey) → is_lower partition_size k ≡ false → size_of k ≡ upper_size k
  size_of-upper k e = rw (size_of, e)

  upper-skips :
      (k : StoreKey) (ks : List StoreKey)
      → is_lower partition_size k ≡ true
      → partition_upper partition_size (k ∷ ks) ≡ partition_upper partition_size ks
  unfolding partition_upper
  upper-skips k ks e = rw e

  upper-takes :
      (k : StoreKey) (ks : List StoreKey)
      → is_lower partition_size k ≡ false
      → partition_upper partition_size (k ∷ ks) ≡ k ∷ partition_upper partition_size ks
  unfolding partition_upper
  upper-takes k ks e = rw e

  lower-takes :
      (k : StoreKey) (ks : List StoreKey)
      → is_lower partition_size k ≡ true
      → partition_lower partition_size (k ∷ ks) ≡ k ∷ partition_lower partition_size ks
  unfolding partition_lower
  lower-takes k ks e = rw e

  lower-skips :
      (k : StoreKey) (ks : List StoreKey)
      → is_lower partition_size k ≡ false
      → partition_lower partition_size (k ∷ ks) ≡ partition_lower partition_size ks
  unfolding partition_lower
  lower-skips k ks e = rw e

  lower-not-IsHead :
      (k : StoreKey) (ks : List StoreKey)
      → is_lower partition_size k ≡ true
      → ¬ IsHead (partition_upper partition_size ks) k
  unfolding partition_upper
  lower-not-IsHead k [] e h = h
  lower-not-IsHead k (j ∷ ks) e h = elim (Bool-cases (is_lower partition_size j)) [
    | inl y ↦ lower-not-IsHead k ks e (subst (λ us. IsHead us k) (upper-skips j ks y) h)
    | inr n ↦
        let q : j ≡ k = subst (λ us. IsHead us k) (upper-takes j ks n) h in
        absurd (ground (arith, ap (is_lower partition_size) q))
  ]

  not-IsHead-is_next : (k : StoreKey) (us : List StoreKey) → ¬ IsHead us k → is_next k us ≡ false
  unfolding is_next
  not-IsHead-is_next k [] h = refl
  not-IsHead-is_next k (u ∷ us) h = if_neg (StoreKey-discrete k u) (λ e. h (sym e)) true false

  is_next-head : (k : StoreKey) (us : List StoreKey) → is_next k (k ∷ us) ≡ true
  unfolding is_next
  is_next-head k us = if_pos (StoreKey-discrete k k) refl true false

  from_upper :
      (k u_key : StoreKey) (ks us : List StoreKey) (u : Option ℕ) (ur lr : List (Option ℕ))
      → is_next k (u_key ∷ us) ≡ true
      → merge_results (k ∷ ks) (u_key ∷ us) (u ∷ ur) lr ≡ take_result u (merge_results ks us ur lr)
  unfolding merge_results
  from_upper k v ks us u ur [] e = rw e
  from_upper k v ks us u ur (l ∷ lr) e = rw e

  from_lower :
      (k : StoreKey) (ks us : List StoreKey) (l : Option ℕ) (ur lr : List (Option ℕ))
      → is_next k us ≡ false
      → merge_results (k ∷ ks) us ur (l ∷ lr) ≡ take_result l (merge_results ks us ur lr)
  unfolding merge_results
  from_lower k ks us l [] lr e = rw e
  from_lower k ks us l (u ∷ ur) lr e = rw e

  merge_results-map :
      (keys : List StoreKey)
      → merge_results keys
          (partition_upper partition_size keys)
          (map upper_size (partition_upper partition_size keys))
          (map lower_size (partition_lower partition_size keys))
        ≡ ok (map size_of keys)
  unfolding merge_results take_result
  merge_results-map [] = refl
  merge_results-map (k ∷ ks) = elim (Bool-cases (is_lower partition_size k)) [
    | inl y ↦
        rw (upper-skips k ks y, lower-takes k ks y)
          (from_lower k ks (partition_upper partition_size ks) (lower_size k)
              (map upper_size (partition_upper partition_size ks))
              (map lower_size (partition_lower partition_size ks))
              (not-IsHead-is_next k (partition_upper partition_size ks) (lower-not-IsHead k ks y))
            ∙ ap (take_result (lower_size k)) (merge_results-map ks)
            ∙ ap (λ r. ok (r ∷ map size_of ks)) (sym (size_of-lower k y)))
    | inr n ↦
        rw (upper-takes k ks n, lower-skips k ks n)
          (from_upper k k ks (partition_upper partition_size ks) (upper_size k)
              (map upper_size (partition_upper partition_size ks))
              (map lower_size (partition_lower partition_size ks))
              (is_next-head k (partition_upper partition_size ks))
            ∙ ap (take_result (upper_size k)) (merge_results-map ks)
            ∙ ap (λ r. ok (r ∷ map size_of ks)) (sym (size_of-upper k n)))
  ]

  module _ (lower_store upper_store : Store) (l : Store.World lower_store)
      (u : Store.World upper_store) (keys : List StoreKey) where
    -- When both stores answer a question for many keys with the sizes of those keys, in their order,
    -- and all keys are digests, the partitioned store answers with the size that the store of each
    -- key has for it, in the order of the keys.
    pub has_with_results-routes :
        (Store.has_many lower_store l (partition_lower partition_size keys)).1
          ≡ ok (map lower_size (partition_lower partition_size keys))
        → (Store.has_many upper_store u (partition_upper partition_size keys)).1
          ≡ ok (map upper_size (partition_upper partition_size keys))
        → has_non_digest keys ≡ false
        → (has_with_results partition_size lower_store upper_store (l, u) keys).1
          ≡ ok (map size_of keys)
    unfolding has_with_results
    has_with_results-routes lower_answers upper_answers digests =
        rw (digests, lower_answers, upper_answers) (merge_results-map keys)
