-- ===== src/Base/Map.antt =====
-- Maps with decidable keys as association lists: the standard library's `HashMap`, and the entries
-- of an `LruCache`, most recently used first. `lookup` is the library's.
use mathlib.Core.Path.{◌≡◌, refl, ◌∙◌, subst}
use mathlib.Core.Bool.{Bool, true, false}
use mathlib.Core.Logic.{ite, ◌≢◌, if_pos, if_neg}
use mathlib.Core.List.{List, [], ◌∷◌, lookup}
use mathlib.Core.Option.{Option, none, some}
use native.Mathlib.Omega.{arith}

module _ {ℓ} {K V : Type ℓ} (dec : Discrete K) where
  unfoldable pub remove : K → List (K × V) → List (K × V)
  remove k [] = []
  remove k ((j, v) ∷ m) = ite (dec k j) (remove k m) ((j, v) ∷ remove k m)

  -- Writes through the reference that `get_mut` or `peek_mut` returns.
  unfoldable pub replace : K → V → List (K × V) → List (K × V)
  replace k v [] = []
  replace k v ((j, w) ∷ m) = ite (dec k j) ((j, v) ∷ m) ((j, w) ∷ replace k v m)

  -- Replaces the value of a key in place, and adds a new key at the end.
  unfoldable pub insert : K → V → List (K × V) → List (K × V)
  insert k v [] = (k, v) ∷ []
  insert k v ((j, w) ∷ m) = ite (dec k j) ((k, v) ∷ m) ((j, w) ∷ insert k v m)

  abbrev pub is_some : Option V → Bool
  is_some none = false
  is_some (some v) = true

  abbrev pub contains_key : K → List (K × V) → Bool
  contains_key k m = is_some (lookup dec k m)

  -- A key occurs once.
  abbrev pub Distinct : List (K × V) → Type ℓ
  Distinct [] = Unit
  Distinct ((k, v) ∷ m) = (lookup dec k m ≡ none) × Distinct m

  pub lookup-remove_self : (k : K) (m : List (K × V)) → lookup dec k (remove k m) ≡ none
  unfolding lookup remove
  lookup-remove_self k [] = refl
  lookup-remove_self k ((j, v) ∷ m) = ground (arith, lookup-remove_self k m)

  pub lookup-remove_ne :
      (k q : K) (m : List (K × V)) → q ≢ k → lookup dec q (remove k m) ≡ lookup dec q m
  unfolding lookup remove
  lookup-remove_ne k q [] h = refl
  lookup-remove_ne k q ((j, v) ∷ m) h = ground (arith, lookup-remove_ne k q m)

  pub remove_absent : (k : K) (m : List (K × V)) → lookup dec k m ≡ none → remove k m ≡ m
  unfolding lookup remove
  remove_absent k [] h = refl
  remove_absent k ((j, v) ∷ m) h = ground (arith, remove_absent k m)

  pub remove-Distinct : (k : K) (m : List (K × V)) → Distinct m → Distinct (remove k m)
  unfolding lookup remove
  remove-Distinct k [] d = tt
  remove-Distinct k ((j, v) ∷ m) d = elim (dec k j) [
    | yes p ↦ rw (if_pos _ p) (remove-Distinct k m d.1)
    | no p ↦ rw (if_neg _ p) (lookup-remove_ne k j m (λ e. p (cc)) ∙ d.0, remove-Distinct k m d.1)
  ]

  pub lookup-replace :
      (k q : K) (v : V) (m : List (K × V))
      → lookup dec q (replace k v m)
        ≡ ite (dec q k) (elim (lookup dec k m) [ none ↦ none | some _ ↦ some v ]) (lookup dec q m)
  unfolding lookup replace
  lookup-replace k q v [] = ground arith
  lookup-replace k q v ((j, w) ∷ m) = ground (arith, lookup-replace k q v m)

  pub lookup-insert :
      (k q : K) (v : V) (m : List (K × V))
      → lookup dec q (insert k v m) ≡ ite (dec q k) (some v) (lookup dec q m)
  unfolding lookup insert
  lookup-insert k q v [] = ground arith
  lookup-insert k q v ((j, w) ∷ m) = ground (arith, lookup-insert k q v m)

module _ {ℓ κ} {K V : Type ℓ} (dec : Discrete K) (P : V → Type κ) where
  -- Every value of the map satisfies the predicate.
  abbrev pub AllValues : List (K × V) → Type κ
  AllValues [] = Unit
  AllValues ((k, v) ∷ m) = P v × AllValues m

  pub AllValues-lookup :
      (k : K) (v : V) (m : List (K × V)) → AllValues m → lookup dec k m ≡ some v → P v
  unfolding lookup
  AllValues-lookup k v [] a e = absurd (none≢some e)
    where
      none≢some : none ≡ some v → ⊥
      none≢some e = cc
  AllValues-lookup k v ((j, w) ∷ m) a e = elim (dec k j) [
    | yes p ↦ subst P (ground arith) a.0
    | no p ↦ AllValues-lookup k v m a.1 (ground arith)
  ]

  pub AllValues-insert :
      (k : K) (v : V) (m : List (K × V)) → P v → AllValues m → AllValues (insert dec k v m)
  unfolding insert
  AllValues-insert k v [] p a = (p, tt)
  AllValues-insert k v ((j, w) ∷ m) p a = elim (dec k j) [
    | yes e ↦ rw (if_pos _ e) (p, a.1)
    | no e ↦ rw (if_neg _ e) (a.0, AllValues-insert k v m p a.1)
  ]

  pub AllValues-remove : (k : K) (m : List (K × V)) → AllValues m → AllValues (remove dec k m)
  unfolding remove
  AllValues-remove k [] a = tt
  AllValues-remove k ((j, w) ∷ m) a = elim (dec k j) [
    | yes e ↦ rw (if_pos _ e) (AllValues-remove k m a.1)
    | no e ↦ rw (if_neg _ e) (a.0, AllValues-remove k m a.1)
  ]

module _ {ℓ} {K V : Type ℓ} (dec : Discrete K) where
  pub insert-Distinct :
      (k : K) (v : V) (m : List (K × V)) → Distinct dec m → Distinct dec (insert dec k v m)
  unfolding insert lookup
  insert-Distinct k v [] d = (refl, tt)
  insert-Distinct k v ((j, w) ∷ m) d = elim (dec k j) [
    | yes e ↦ rw (if_pos _ e) (rw e d.0, d.1)
    | no e ↦ rw (if_neg _ e) (
      lookup-insert dec k j v m
          ∙ if_neg (dec j k) (λ (z : j ≡ k). e (cc)) (some v) (lookup dec j m)
          ∙ d.0,
      insert-Distinct k v m d.1,
    )
  ]
