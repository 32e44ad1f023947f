-- ===== src/SizePartitioningStore.antt =====
-- nativelink-store/src/size_partitioning_store.rs: a store that routes each digest to one of two
-- stores by its size. The two stores are parameters; what `join!` runs at the same time acts on two
-- different stores, so each has its own world. Data streams are lists of bytes.
pub mod Lookup
use native_link.Base.{
  ℕ, String, Bool, true, false, not, Option, none, some, List, [], ◌∷◌, ltb, ite, if◌then◌else◌,
  Result, ok, err, Error, make_input_err, merge_error, ok_or_tip, string_discrete, ℕ_discrete,
}
use native_link.ActionMessages.{DigestInfo, DigestInfo-discrete}

-- nativelink-util/src/store_trait.rs
pub data StoreKey : Type 0 where
  str : String → StoreKey
  digest : DigestInfo → StoreKey

unfoldable pub StoreKey-discrete : Discrete StoreKey
StoreKey-discrete = hlevel (string_discrete, ℕ_discrete)

pub data UploadSizeInfo : Type 0 where
  exact_size max_size : ℕ → UploadSizeInfo

pub record Store : Type 1 where
  pub World : Type 0
  pub has_many : World → List StoreKey → World × Result (List (Option ℕ))
  pub update : World → StoreKey → List ℕ → UploadSizeInfo → World × Result (Unit {0})
  pub get_part : World → StoreKey → ℕ → Option ℕ → World × Result (List ℕ)

-- `partition`'s test, which is false for a key that is no digest.
unfoldable pub is_lower : ℕ → StoreKey → Bool
is_lower partition_size (str s) = false
is_lower partition_size (digest d) = ltb d.size_bytes partition_size

unfoldable pub partition_lower : ℕ → List StoreKey → List StoreKey
unfolding is_lower
partition_lower partition_size [] = []
partition_lower partition_size (k ∷ ks) =
    let rest = partition_lower partition_size ks in
    if is_lower partition_size k then k ∷ rest else rest

unfoldable pub partition_upper : ℕ → List StoreKey → List StoreKey
unfolding is_lower
partition_upper partition_size [] = []
partition_upper partition_size (k ∷ ks) =
    let rest = partition_upper partition_size ks in
    if is_lower partition_size k then rest else k ∷ rest

-- Whether a key was sampled that is no digest.
unfoldable pub has_non_digest : List StoreKey → Bool
has_non_digest [] = false
has_non_digest (str s ∷ ks) = true
has_non_digest (digest d ∷ ks) = has_non_digest ks

-- `Some(digest) == upper_digests.peek()`.
unfoldable pub is_next : StoreKey → List StoreKey → Bool
is_next k [] = false
is_next k (u ∷ us) = ite (StoreKey-discrete k u) true false

abbrev pub tail : List StoreKey → List StoreKey
tail [] = []
tail (k ∷ ks) = ks

unfoldable pub take_result : Option ℕ → Result (List (Option ℕ)) → Result (List (Option ℕ))
take_result r (ok rs) = ok (r ∷ rs)
take_result r (err e) = err e

-- The loop that puts the answers of both stores into the order of the keys.
unfoldable pub merge_results :
    List StoreKey → List StoreKey → List (Option ℕ) → List (Option ℕ) → Result (List (Option ℕ))
unfolding is_next take_result
merge_results [] upper_digests upper_results lower_results = ok []
merge_results (k ∷ ks) upper_digests [] [] =
    if is_next k upper_digests
    then ok_or_tip none "upper_results out of sync with upper_digests"
    else ok_or_tip none "lower_results out of sync with lower_digests"
merge_results (k ∷ ks) upper_digests (u ∷ us) [] =
    let rest = merge_results ks (tail upper_digests) us [] in
    if is_next k upper_digests
    then take_result u rest
    else ok_or_tip none "lower_results out of sync with lower_digests"
merge_results (k ∷ ks) upper_digests [] (l ∷ ls) =
    let rest = merge_results ks upper_digests [] ls in
    if is_next k upper_digests
    then ok_or_tip none "upper_results out of sync with upper_digests"
    else take_result l rest
merge_results (k ∷ ks) upper_digests (u ∷ us) (l ∷ ls) =
    let from_upper = merge_results ks (tail upper_digests) us (l ∷ ls) in
    let from_lower = merge_results ks upper_digests (u ∷ us) ls in
    if is_next k upper_digests then take_result u from_upper else take_result l from_lower

module _ (partition_size : ℕ) (lower_store upper_store : Store) where
  abbrev pub Worlds : Type 0
  Worlds = Store.World lower_store × Store.World upper_store

  unfoldable pub has_with_results : Worlds → List StoreKey → Worlds × Result (List (Option ℕ))
  unfolding partition_lower partition_upper has_non_digest merge_results
  has_with_results (l, u) keys =
      let uppers = partition_upper partition_size keys in
      let (l', lower_results) =
        Store.has_many lower_store l (partition_lower partition_size keys) in
      let (u', upper_results) = Store.has_many upper_store u uppers in
      if has_non_digest keys
      then ((l, u), err (make_input_err "SizePartitioningStore only supports Digest keys, got"))
      else (
        (l', u'),
        elim lower_results [
          | ok ls ↦ elim upper_results [
            | ok us ↦ merge_results keys uppers us ls
            | err upper_err ↦ err upper_err
          ]
          | err e ↦ elim upper_results [
            | ok us ↦ err e
            | err upper_err ↦ err (merge_error e upper_err)
          ]
        ],
      )

  unfoldable pub update : Worlds → StoreKey → List ℕ → UploadSizeInfo → Worlds × Result (Unit {0})
  update w (str s) reader size_info =
      (w, err (make_input_err "SizePartitioningStore only supports Digest keys, got"))
  update (l, u) (digest d) reader size_info =
      if ltb d.size_bytes partition_size
      then (let (l', r) = Store.update lower_store l (digest d) reader size_info in ((l', u), r))
      else (let (u', r) = Store.update upper_store u (digest d) reader size_info in ((l, u'), r))

  unfoldable pub get_part : Worlds → StoreKey → ℕ → Option ℕ → Worlds × Result (List ℕ)
  get_part w (str s) offset length =
      (w, err (make_input_err "SizePartitioningStore only supports Digest keys, got"))
  get_part (l, u) (digest d) offset length =
      if ltb d.size_bytes partition_size
      then (let (l', r) = Store.get_part lower_store l (digest d) offset length in ((l', u), r))
      else (let (u', r) = Store.get_part upper_store u (digest d) offset length in ((l, u'), r))
