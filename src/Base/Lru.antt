-- ===== src/Base/Lru.antt =====
-- The `LruCache` of the crate `lru`, which the program calls and does not define: a type with its
-- operations, and their documented behaviour stated on `iter`, the entries with the most recently
-- used one first. `get` is `get_mut`, which also moves a hit to the front; `write` stores through
-- the reference that `get_mut` or `peek_mut` returned; `put` gives back the value it replaced.
pub mod Peek
pub mod ListCache
use Prim.Native.Nat.{ℕ}
use mathlib.Core.Path.{◌≡◌, refl}
use mathlib.Core.Logic.{ite, if_pos, if_neg}
use mathlib.Core.List.{List, [], ◌∷◌, lookup}
use mathlib.Core.Option.{Option, none, some}
use native.Mathlib.Omega.{arith}
use native_link.Base.Lists.{length}
use native_link.Base.Map.{remove, replace, Distinct, remove-Distinct, lookup-remove_self}

module _ {K V : Type 0} (dec : Discrete K) where
  -- Moves the entry of a key to the front.
  unfoldable pub promote : K → List (K × V) → List (K × V)
  promote k m = elim (lookup dec k m) [ none ↦ m | some v ↦ (k, v) ∷ remove dec k m ]

abbrev pub last? {ℓ} : {A : Type ℓ} → List A → Option A
last? [] = none
last? (x ∷ []) = some x
last? (x ∷ y ∷ ys) = last? (y ∷ ys)

abbrev pub init {ℓ} : {A : Type ℓ} → List A → List A
init [] = []
init (x ∷ []) = []
init (x ∷ y ∷ ys) = x ∷ init (y ∷ ys)

pub record LruCache (K V : Type 0) (dec : Discrete K) : Type 1 where
  pub Cache : Type 0
  pub unbounded : Cache
  pub iter : Cache → List (K × V)
  pub len : Cache → ℕ
  pub peek : K → Cache → Option V
  pub get : K → Cache → Cache
  pub write : K → V → Cache → Cache
  pub put : K → V → Cache → Cache
  pub pop : K → Cache → Cache
  pub peek_lru : Cache → Option (K × V)
  pub pop_lru : Cache → Cache
  pub iter-unbounded : iter unbounded ≡ []
  pub iter-Distinct : (c : Cache) → Distinct dec (iter c)
  pub len-iter : (c : Cache) → len c ≡ length (iter c)
  pub peek-iter : (k : K) (c : Cache) → peek k c ≡ lookup dec k (iter c)
  pub iter-get : (k : K) (c : Cache) → iter (get k c) ≡ promote dec k (iter c)
  pub iter-write : (k : K) (v : V) (c : Cache) → iter (write k v c) ≡ replace dec k v (iter c)
  pub iter-put : (k : K) (v : V) (c : Cache) → iter (put k v c) ≡ (k, v) ∷ remove dec k (iter c)
  pub iter-pop : (k : K) (c : Cache) → iter (pop k c) ≡ remove dec k (iter c)
  pub peek_lru-iter : (c : Cache) → peek_lru c ≡ last? (iter c)
  pub iter-pop_lru : (c : Cache) → iter (pop_lru c) ≡ init (iter c)
