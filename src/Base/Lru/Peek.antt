-- ===== src/Base/Lru/Peek.antt =====
-- What `peek` reads after each operation of an `LruCache`.
use mathlib.Core.Path.{◌≡◌}
use mathlib.Core.Logic.{ite, if_pos, if_neg, inl, inr}
use mathlib.Core.List.{List, lookup}
use mathlib.Core.Option.{none, some}
use native.Mathlib.Omega.{arith}
use native_link.Base.Tests.{Option-cases}
use native_link.Base.Map.{remove, lookup-remove_self, lookup-remove_ne, lookup-replace}
use native_link.Base.Lru.{LruCache, promote}

module _ {K V : Type 0} (dec : Discrete K) where
  lookup-remove :
      (k q : K) (m : List (K × V))
      → lookup dec q (remove dec k m) ≡ ite (dec q k) none (lookup dec q m)
  lookup-remove k q m = elim (dec q k) [
    | yes e ↦ rw (if_pos _ e, e) (lookup-remove_self dec k m)
    | no n ↦ rw (if_neg _ n) (lookup-remove_ne dec k q m n)
  ]

  pub lookup-promote :
      (k q : K) (m : List (K × V)) → lookup dec q (promote dec k m) ≡ lookup dec q m
  unfolding promote lookup
  lookup-promote k q m = elim (Option-cases (lookup dec k m)) [
    | inl e ↦ rw (e, promote)
    | inr (v, e) ↦ elim (dec q k) [
      | yes p ↦ ground arith
      | no p ↦ ground (arith, lookup-remove_ne dec k q m)
    ]
  ]

module _ {K V : Type 0} (dec : Discrete K) (lru : LruCache K V dec) where
  open lru use {
    Cache, peek, get, write, put, pop, peek-iter, iter-get, iter-write, iter-put, iter-pop,
  }

  pub peek-get : (k q : K) (c : Cache) → peek q (get k c) ≡ peek q c
  peek-get k q c = simp (peek-iter, iter-get, lookup-promote)

  -- A write through a reference changes the value of a key that is there, and nothing else.
  pub peek-write :
      (k q : K) (v : V) (c : Cache)
      → peek q (write k v c)
        ≡ ite (dec q k) (elim (peek k c) [ none ↦ none | some _ ↦ some v ]) (peek q c)
  peek-write k q v c = simp (peek-iter, iter-write, lookup-replace)

  pub peek-put :
      (k q : K) (v : V) (c : Cache) → peek q (put k v c) ≡ ite (dec q k) (some v) (peek q c)
  unfolding lookup
  peek-put k q v c = simp (peek-iter, iter-put) (ground (arith, lookup-remove dec k q (lru.iter c)))

  pub peek-pop : (k q : K) (c : Cache) → peek q (pop k c) ≡ ite (dec q k) none (peek q c)
  peek-pop k q c = simp (peek-iter, iter-pop, lookup-remove)
