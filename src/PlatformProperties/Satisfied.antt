-- ===== src/PlatformProperties/Satisfied.antt =====
-- What it means that a worker satisfies an action's properties, stated without the loop.
use native_link.Base.{
  ℕ, ◌≤◌, String, true, Option, none, some, [], ◌∷◌, ◌≡◌, refl, sym, subst, ◌↔◌, ◌∙◌, arith, lookup,
  if_neg, Distinct, string_discrete, Bool-cases, inl, inr,
}
use native_link.PlatformProperties.{
  PlatformPropertyValue, exact, minimum, priority, unknown, PlatformPropertyValue-discrete,
  is_satisfied_by_kind, value_is_satisfied_by, property_is_satisfied_by, is_satisfied_by,
  Properties,
}

-- The documented rule for one value: an exact match, enough of a resource, or advice only.
pub data Meets : PlatformPropertyValue → PlatformPropertyValue → Type 0 where
  same : {v w : PlatformPropertyValue} → v ≡ w → Meets v w
  enough : {v w : ℕ} → v ≤ w → Meets (minimum v) (minimum w)
  advice : {s : String} {w : PlatformPropertyValue} → Meets (priority s) w

-- A worker has every property of the action, with a value that meets it.
abbrev pub Satisfies : Properties → Properties → Type 0
Satisfies worker_properties self =
    (k : String) (v : PlatformPropertyValue)
    → lookup string_discrete k self ≡ some v
    → (w : PlatformPropertyValue) × (lookup string_discrete k worker_properties ≡ some w)
      × Meets v w

Meets-of-kind : (v w : PlatformPropertyValue) → is_satisfied_by_kind v w ≡ true → Meets v w
unfolding is_satisfied_by_kind
Meets-of-kind (minimum v) (minimum w) h = enough (ground arith)
Meets-of-kind (minimum v) (exact s) h = cc
Meets-of-kind (minimum v) (priority s) h = cc
Meets-of-kind (minimum v) (unknown s) h = cc
Meets-of-kind (priority s) w h = advice
Meets-of-kind (exact s) w h = cc
Meets-of-kind (unknown s) w h = cc

value-Meets : (v w : PlatformPropertyValue) → value_is_satisfied_by v w ≡ true → Meets v w
unfolding value_is_satisfied_by
value-Meets v w h = elim (PlatformPropertyValue-discrete v w) [
  | yes e ↦ same e
  | no n ↦
      Meets-of-kind v w
        (sym (if_neg (PlatformPropertyValue-discrete v w) n true (is_satisfied_by_kind v w)) ∙ h)
]

Meets-value : (v w : PlatformPropertyValue) → Meets v w → value_is_satisfied_by v w ≡ true
unfolding value_is_satisfied_by is_satisfied_by_kind
Meets-value v w (same e) = ground arith
Meets-value _ _ (enough h) = ground arith
Meets-value _ _ advice = ground arith

property-Meets :
    (v : PlatformPropertyValue) (o : Option PlatformPropertyValue)
    → property_is_satisfied_by v o ≡ true
    → (w : PlatformPropertyValue) × (o ≡ some w) × Meets v w
unfolding property_is_satisfied_by
property-Meets v none h = cc
property-Meets v (some w) h = (w, refl, value-Meets v w h)

Meets-property :
    (v w : PlatformPropertyValue) (o : Option PlatformPropertyValue)
    → o ≡ some w
    → Meets v w
    → property_is_satisfied_by v o ≡ true
unfolding property_is_satisfied_by
Meets-property v w none e m = cc
Meets-property v w (some x) e m = ground (arith, Meets-value v w m)

-- If the test passes, every property of the action is met, also where a name occurs twice.
pub is_satisfied_by-Satisfies :
    (self worker : Properties) → is_satisfied_by self worker ≡ true → Satisfies worker self
unfolding is_satisfied_by lookup
is_satisfied_by-Satisfies [] worker h k v e = cc
is_satisfied_by-Satisfies ((j, u) ∷ rest) worker h k v e =
    elim (Bool-cases (property_is_satisfied_by u (lookup string_discrete j worker))) [
      | inr n ↦ absurd (ground arith)
      | inl y ↦ elim (string_discrete k j) [
        | yes p ↦
            let (w, found, m) = property-Meets u (lookup string_discrete j worker) y in
            (w, rw p found, subst (λ x. Meets x w) (ground arith) m)
        | no q ↦ is_satisfied_by-Satisfies rest worker (ground arith) k v (ground arith)
      ]
    ]

-- The converse, where a name occurs once.
pub Satisfies-is_satisfied_by :
    (self worker : Properties)
    → Distinct string_discrete self
    → Satisfies worker self
    → is_satisfied_by self worker ≡ true
unfolding is_satisfied_by lookup
Satisfies-is_satisfied_by [] worker d h = refl
Satisfies-is_satisfied_by ((j, u) ∷ rest) worker d h =
    let (w, found, m) = h j u (ground arith) in
    ground (
      arith,
      Meets-property u w (lookup string_discrete j worker) found m,
      Satisfies-is_satisfied_by rest worker d.1 (λ k v e. h k v (ground arith)),
    )

-- For an action whose properties have distinct names, the loop over them answers true exactly if
-- the worker has each of them, with a value that meets it: the same value, enough of a resource,
-- or anything where the action only states a priority.
pub is_satisfied_by_iff :
    (self worker : Properties)
    → Distinct string_discrete self
    → (is_satisfied_by self worker ≡ true) ↔ Satisfies worker self
is_satisfied_by_iff self worker d =
    (is_satisfied_by-Satisfies self worker, Satisfies-is_satisfied_by self worker d)
