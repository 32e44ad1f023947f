-- ===== src/ApiWorkerScheduler/MapWhile.antt =====
-- The keys that `rev_map_while` collects: those at the end of a list, as long as a test holds.
use native_link.Base.{
  ℕ, Bool, true, false, none, some, List, [], ◌∷◌, ◌++◌, ◌≡◌, refl, subst, arith, lookup, replace,
  ℕ_discrete, Bool-cases, ◌⊎◌, inl, inr, All, if_pos, if_neg, ◌≢◌, Distinct,
}
use native_link.Base.Lru.{last?}
use native_link.ApiWorkerScheduler.{rev_step, rev_map_while}

abbrev pub In : ℕ → List ℕ → Type 0
In j [] = ⊥
In j (k ∷ ks) = (j ≡ k) ⊎ In j ks

In-append : (j k : ℕ) (ks : List ℕ) → In j (ks ++ k ∷ []) → In j ks ⊎ (j ≡ k)
In-append j k [] (inl e) = inr e
In-append j k [] (inr h) = absurd h
In-append j k (x ∷ ks) (inl e) = inl (inl e)
In-append j k (x ∷ ks) (inr h) = elim (In-append j k ks h) [ inl a ↦ inl (inr a) | inr e ↦ inr e ]

In-append_left : (j k : ℕ) (ks : List ℕ) → In j ks → In j (ks ++ k ∷ [])
In-append_left j k [] h = absurd h
In-append_left j k (x ∷ ks) (inl e) = inl e
In-append_left j k (x ∷ ks) (inr h) = inr (In-append_left j k ks h)

In-append_last : (j k : ℕ) (ks : List ℕ) → j ≡ k → In j (ks ++ k ∷ [])
In-append_last j k [] e = inl e
In-append_last j k (x ∷ ks) e = inr (In-append_last j k ks e)

pub dec_In : (j : ℕ) (ks : List ℕ) → In j ks ⊎ (¬ In j ks)
dec_In j [] = inr (λ h. h)
dec_In j (k ∷ ks) = elim (ℕ_discrete j k) [
  | yes e ↦ inl (inl e)
  | no n ↦ elim (dec_In j ks) [
    | inl h ↦ inl (inr h)
    | inr h ↦ inr (elim [ inl e ↦ n e | inr i ↦ h i ])
  ]
]

module _ {V : Type 0} (test : V → Bool) where
  -- Once an entry passes, all after it do.
  abbrev pub Falls : List (ℕ × V) → Type 0
  Falls [] = Unit
  Falls ((k, v) ∷ m) = (test v ≡ true → All (λ e. test e.1 ≡ true) m) × Falls m

  -- Only entries that pass are taken.
  pub rev_map_while-passes :
      (m : List (ℕ × V)) (j : ℕ)
      → Distinct ℕ_discrete m
      → In j (rev_map_while test m).1
      → (v : V) × (lookup ℕ_discrete j m ≡ some v) × (test v ≡ true)
  unfolding rev_map_while lookup
  rev_map_while-passes [] j d h = absurd h
  rev_map_while-passes ((k, v) ∷ m) j d h = elim (taken (rev_map_while test m).0 (test v) refl h) [
    | inl i ↦ let (w, e, t) = rev_map_while-passes m j d.1 i in (w, ground (arith), t)
    | inr (e, t) ↦ (v, ground (arith), t)
  ]
    where
      taken :
          (all pass : Bool)
          → test v ≡ pass
          → In j (rev_step all pass k (rev_map_while test m).1).1
          → In j (rev_map_while test m).1 ⊎ ((j ≡ k) × (test v ≡ true))
      taken false pass e h = inl h
      taken true false e h = inl h
      taken true true e h = elim (In-append j k (rev_map_while test m).1 h) [
        | inl i ↦ inl i
        | inr i ↦ inr (i, e)
      ]

  -- Nothing is taken if the last entry fails.
  pub rev_map_while-stuck :
      (m : List (ℕ × V)) (k : ℕ) (v : V)
      → last? m ≡ some (k, v)
      → test v ≡ false
      → rev_map_while test m ≡ (false, [])
  unfolding rev_map_while
  rev_map_while-stuck [] k v e f = absurd (ground arith)
  rev_map_while-stuck ((i, x) ∷ []) k v e f = ground arith
  rev_map_while-stuck ((i, x) ∷ y ∷ m) k v e f = rw (rev_map_while-stuck (y ∷ m) k v e f)

  -- If all entries pass, all are taken.
  rev_map_while-All :
      (m : List (ℕ × V))
      → All (λ e. test e.1 ≡ true) m
      → ((rev_map_while test m).0 ≡ true)
        × ((j : ℕ) (v : V) → lookup ℕ_discrete j m ≡ some v → In j (rev_map_while test m).1)
  unfolding rev_map_while lookup
  rev_map_while-All [] a = (refl, λ j v e. absurd (ground arith))
  rev_map_while-All ((k, x) ∷ m) a =
      let (all, ih) = rev_map_while-All m a.1 in
      (
        rw (all, a.0),
        λ j v e.
            rw (all, a.0)
              (elim (ℕ_discrete j k) [
                | yes p ↦ In-append_last j k (rev_map_while test m).1 p
                | no n ↦ In-append_left j k (rev_map_while test m).1 (ih j v (ground arith))
              ]),
      )

  -- If what comes before a passing entry need not pass, but what comes after must, every entry that
  -- passes is taken.
  pub rev_map_while-takes :
      (m : List (ℕ × V)) (j : ℕ) (v : V)
      → Falls m
      → lookup ℕ_discrete j m ≡ some v
      → test v ≡ true
      → In j (rev_map_while test m).1
  unfolding rev_map_while lookup
  rev_map_while-takes [] j v f e t = absurd (ground arith)
  rev_map_while-takes ((k, x) ∷ m) j v f e t = elim (Bool-cases (test x)) [
    | inl y ↦ (rev_map_while-All ((k, x) ∷ m) (y, f.0 y)).1 j v e
    | inr n ↦ rw n (
        kept (rev_map_while test m).0 (
          rev_map_while-takes m j v f.1
            (rw (← if_neg (ℕ_discrete j k) (λ z. (ground arith)) (some x) (lookup ℕ_discrete j m))
              e)
            t))
  ]
    where
      kept :
          (all : Bool)
          → In j (rev_map_while test m).1
          → In j (rev_step all false k (rev_map_while test m).1).1
      kept true h = h
      kept false h = h

module _ {V : Type 0} where
  pub last?-lookup :
      (k : ℕ) (v : V) (m : List (ℕ × V))
      → Distinct ℕ_discrete m
      → last? m ≡ some (k, v)
      → lookup ℕ_discrete k m ≡ some v
  unfolding lookup
  last?-lookup k v [] d e = absurd (ground arith)
  last?-lookup k v ((j, x) ∷ []) d e = ground arith
  last?-lookup k v ((j, x) ∷ y ∷ m) d e = ground (arith, last?-lookup k v (y ∷ m) d.1 e)

  no_entry :
      (k : ℕ) (v : V) (m : List (ℕ × V))
      → lookup ℕ_discrete k m ≡ none
      → lookup ℕ_discrete k m ≡ some v
      → ⊥
  no_entry k v m a b = cc

  pub last?-replace :
      (k : ℕ) (v w : V) (m : List (ℕ × V))
      → Distinct ℕ_discrete m
      → last? m ≡ some (k, v)
      → last? (replace ℕ_discrete k w m) ≡ some (k, w)
  unfolding replace
  last?-replace k v w [] d e = absurd (ground arith)
  last?-replace k v w ((j, x) ∷ []) d e = ground arith
  last?-replace k v w ((j, x) ∷ (i, y) ∷ m) d e =
      let found = last?-lookup k v ((i, y) ∷ m) d.1 e in
      let ih = last?-replace k v w ((i, y) ∷ m) d.1 e in
      let other : k ≢ j = λ q.
        (no_entry j v ((i, y) ∷ m) d.0
          (subst (λ z. lookup ℕ_discrete z ((i, y) ∷ m) ≡ some v) q found)) in
      rw (if_neg (ℕ_discrete k j) other) (elim (ℕ_discrete k i) [
        | yes q ↦ rw (if_pos (ℕ_discrete k i) q) (rw (if_pos (ℕ_discrete k i) q) at ih)
        | no q ↦ rw (if_neg (ℕ_discrete k i) q) (rw (if_neg (ℕ_discrete k i) q) at ih)
      ])
