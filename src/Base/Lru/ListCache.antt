-- ===== src/Base/Lru/ListCache.antt =====
-- An `LruCache` that is a list: the documented behaviour can be met.
use mathlib.Core.Path.{◌≡◌, refl}
use mathlib.Core.Logic.{if_pos, if_neg, inl, inr}
use mathlib.Core.List.{List, [], ◌∷◌, lookup}
use mathlib.Core.Option.{none}
use native.Mathlib.Omega.{arith}
use native_link.Base.Tests.{Option-cases}
use native_link.Base.Lists.{length}
use native_link.Base.Map.{
  remove, replace, Distinct, remove-Distinct, lookup-remove_self, lookup-replace,
}
use native_link.Base.Lru.{LruCache, promote, last?, init}

module _ {K V : Type 0} (dec : Discrete K) where
  pub promote-Distinct :
      (k : K) (m : List (K × V)) → Distinct dec m → Distinct dec (promote dec k m)
  unfolding promote
  promote-Distinct k m d = elim (Option-cases (lookup dec k m)) [
    | inl e ↦ rw (e, promote) d
    | inr (v, e) ↦ rw (e, promote) (lookup-remove_self dec k m, remove-Distinct dec k m d)
  ]

  lookup-replace_absent :
      (k q : K) (v : V) (m : List (K × V))
      → lookup dec q m ≡ none
      → lookup dec q (replace dec k v m) ≡ none
  lookup-replace_absent k q v m e = ground (arith, lookup-replace dec k q v m)

  pub replace-Distinct :
      (k : K) (v : V) (m : List (K × V)) → Distinct dec m → Distinct dec (replace dec k v m)
  unfolding replace
  replace-Distinct k v [] d = tt
  replace-Distinct k v ((j, w) ∷ m) d = elim (dec k j) [
    | yes e ↦ rw (if_pos _ e) d
    | no e ↦ rw (if_neg _ e) (lookup-replace_absent k j v m d.0, replace-Distinct k v m d.1)
  ]

  lookup-init_absent :
      (q : K) (m : List (K × V)) → lookup dec q m ≡ none → lookup dec q (init m) ≡ none
  unfolding lookup
  lookup-init_absent q [] e = refl
  lookup-init_absent q (x ∷ []) e = refl
  lookup-init_absent q (x ∷ y ∷ m) e = ground (arith, lookup-init_absent q (y ∷ m))

  pub init-Distinct : (m : List (K × V)) → Distinct dec m → Distinct dec (init m)
  init-Distinct [] d = tt
  init-Distinct (x ∷ []) d = tt
  init-Distinct (x ∷ y ∷ m) d = (lookup-init_absent x.0 (y ∷ m) d.0, init-Distinct (y ∷ m) d.1)

unfoldable pub list_cache : (K V : Type 0) (dec : Discrete K) → LruCache K V dec
unfolding promote remove replace lookup
list_cache K V dec = record {
  Cache = (m : List (K × V)) × Distinct dec m;
  unbounded = ([], tt);
  iter = λ c. c.0;
  len = λ c. length c.0;
  peek = λ k c. lookup dec k c.0;
  get = λ k c. (promote dec k c.0, promote-Distinct dec k c.0 c.1);
  write = λ k v c. (replace dec k v c.0, replace-Distinct dec k v c.0 c.1);
  put = λ k v c.
      ((k, v) ∷ remove dec k c.0, (lookup-remove_self dec k c.0, remove-Distinct dec k c.0 c.1));
  pop = λ k c. (remove dec k c.0, remove-Distinct dec k c.0 c.1);
  peek_lru = λ c. last? c.0;
  pop_lru = λ c. (init c.0, init-Distinct dec c.0 c.1);
  iter-unbounded = refl;
  iter-Distinct = λ c. c.1;
  len-iter = λ c. refl;
  peek-iter = λ k c. refl;
  iter-get = λ k c. refl;
  iter-write = λ k v c. refl;
  iter-put = λ k v c. refl;
  iter-pop = λ k c. refl;
  peek_lru-iter = λ c. refl;
  iter-pop_lru = λ c. refl;
}
