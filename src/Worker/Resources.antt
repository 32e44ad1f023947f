-- ===== src/Worker/Resources.antt =====
-- What the two loops over an action's properties do to a worker's, key by key.
use native_link.Base.{
  ℕ, ◌+◌, ◌-◌, ◌%◌, String, Option, none, some, [], ◌∷◌, ◌≡◌, refl, arith, lookup, replace,
  lookup-replace, Distinct, string_discrete, Option-cases, inl, inr, ite, ◌≢◌,
}
use native_link.PlatformProperties.{
  PlatformPropertyValue, minimum, exact, priority, unknown, Properties,
}
use native_link.Worker.{
  u64_mod, reduce_value, restore_value, change_property, change_properties,
  reduce_platform_properties, restore_platform_properties,
}

-- The units of a resource that an action asks for.
abbrev pub units : Option PlatformPropertyValue → ℕ
units none = 0
units (some (minimum n)) = n
units (some (exact s)) = 0
units (some (priority s)) = 0
units (some (unknown s)) = 0

abbrev pub needs : String → Properties → ℕ
needs k props = units (lookup string_discrete k props)

-- What the loop makes of the worker's value of a key, given the action's.
abbrev pub changed :
    (ℕ → Option PlatformPropertyValue → Option PlatformPropertyValue)
    → Option PlatformPropertyValue
    → Option PlatformPropertyValue
    → Option PlatformPropertyValue
changed change none o = o
changed change (some (minimum n)) o = change n o
changed change (some (exact s)) o = o
changed change (some (priority s)) o = o
changed change (some (unknown s)) o = o

module _ (change : ℕ → Option PlatformPropertyValue → Option PlatformPropertyValue)
    (strict : (n : ℕ) → change n none ≡ none)
    (total : (n : ℕ) (w : PlatformPropertyValue)
      → (w' : PlatformPropertyValue) × (change n (some w) ≡ some w')) where
  lookup-change_property :
      (k j : String) (v : PlatformPropertyValue) (p q : Properties)
      → change_property change j v p ≡ some q
      → lookup string_discrete k q
        ≡ ite
            (string_discrete k j)
            (changed change (some v) (lookup string_discrete j p))
            (lookup string_discrete k p)
  unfolding change_property
  lookup-change_property k j (minimum n) p q e = elim (Option-cases (lookup string_discrete j p)) [
    | inl a ↦ absurd (ground (arith, strict n))
    | inr (w, f) ↦
        let (w', g) = total n w in ground (arith, lookup-replace string_discrete j k w' p)
  ]
  lookup-change_property k j (exact s) p q e = ground arith
  lookup-change_property k j (priority s) p q e = ground arith
  lookup-change_property k j (unknown s) p q e = ground arith

  pub lookup-change_properties :
      (k : String) (p rest q : Properties)
      → Distinct string_discrete rest
      → change_properties change p rest ≡ some q
      → lookup string_discrete k q
        ≡ changed change (lookup string_discrete k rest) (lookup string_discrete k p)
  unfolding change_properties lookup
  lookup-change_properties k p [] q d e = ground arith
  lookup-change_properties k p ((j, v) ∷ rest) q d e =
      elim (Option-cases (change_property change j v p)) [
        | inl a ↦ absurd (ground arith)
        | inr (r, f) ↦
            ground
              (arith, lookup-change_property k j v p r f, lookup-change_properties k r rest q d.1)
      ]

  change_property-total :
      (j : String) (v : PlatformPropertyValue) (p : Properties)
      → ((n : ℕ) → v ≡ minimum n → lookup string_discrete j p ≢ none)
      → (q : Properties) × (change_property change j v p ≡ some q)
  unfolding change_property
  change_property-total j (minimum n) p h = elim (Option-cases (lookup string_discrete j p)) [
    | inl a ↦ absurd (h n refl a)
    | inr (w, f) ↦ let (w', g) = total n w in (replace string_discrete j w' p, ground (arith))
  ]
  change_property-total j (exact s) p h = (p, refl)
  change_property-total j (priority s) p h = (p, refl)
  change_property-total j (unknown s) p h = (p, refl)

  changed-ne-none :
      (v : PlatformPropertyValue) (o : Option PlatformPropertyValue)
      → o ≢ none
      → changed change (some v) o ≢ none
  changed-ne-none v none h = absurd (h refl)
  changed-ne-none (minimum n) (some w) h = let (w', g) = total n w in λ e. (cc)
  changed-ne-none (exact s) (some w) h = λ e. (cc)
  changed-ne-none (priority s) (some w) h = λ e. (cc)
  changed-ne-none (unknown s) (some w) h = λ e. (cc)

  change_property-keeps :
      (k j : String) (v : PlatformPropertyValue) (p q : Properties)
      → change_property change j v p ≡ some q
      → lookup string_discrete k p ≢ none
      → lookup string_discrete k q ≢ none
  change_property-keeps k j v p q e h = elim (string_discrete k j) [
    | yes same ↦ λ z.
        changed-ne-none v (lookup string_discrete j p) (λ a. h (rw same a))
          (ground (arith, lookup-change_property k j v p q e))
    | no other ↦ λ z. h (ground (arith, lookup-change_property k j v p q e))
  ]

  -- The loop does not panic if the worker has every key that the action counts.
  pub change_properties-total :
      (p rest : Properties)
      → Distinct string_discrete rest
      → ((k : String) (n : ℕ)
          → lookup string_discrete k rest ≡ some (minimum n)
          → lookup string_discrete k p ≢ none)
      → (q : Properties) × (change_properties change p rest ≡ some q)
  unfolding change_properties lookup
  change_properties-total p [] d h = (p, refl)
  change_properties-total p ((j, v) ∷ rest) d h =
      let (r, f) = change_property-total j v p (λ n e. h j n (ground arith)) in
      let (q, g) =
        change_properties-total r rest d.1
          (λ k n e. change_property-keeps k j v p r f (h k n (ground arith))) in
      (q, rw f g)

reduce_strict : (n : ℕ) → reduce_value n none ≡ none
unfolding reduce_value
reduce_strict n = refl

reduce_total :
    (n : ℕ) (w : PlatformPropertyValue)
    → (w' : PlatformPropertyValue) × (reduce_value n (some w) ≡ some w')
unfolding reduce_value
reduce_total n (minimum m) = (minimum ((m + u64_mod - n) % u64_mod), refl)
reduce_total n (exact s) = (exact s, refl)
reduce_total n (priority s) = (priority s, refl)
reduce_total n (unknown s) = (unknown s, refl)

restore_strict : (n : ℕ) → restore_value n none ≡ none
unfolding restore_value
restore_strict n = refl

restore_total :
    (n : ℕ) (w : PlatformPropertyValue)
    → (w' : PlatformPropertyValue) × (restore_value n (some w) ≡ some w')
unfolding restore_value
restore_total n (minimum m) = (minimum ((m + n) % u64_mod), refl)
restore_total n (exact s) = (exact s, refl)
restore_total n (priority s) = (priority s, refl)
restore_total n (unknown s) = (unknown s, refl)

module _ (k : String) (p action q : Properties) (d : Distinct string_discrete action) where
  -- After an action is placed on a worker: less of what it counts, and all else as before.
  pub lookup-reduce_platform_properties :
      reduce_platform_properties p action ≡ some q
      → lookup string_discrete k q
        ≡ changed reduce_value (lookup string_discrete k action) (lookup string_discrete k p)
  unfolding reduce_platform_properties
  lookup-reduce_platform_properties =
      lookup-change_properties reduce_value reduce_strict reduce_total k p action q d

  pub lookup-restore_platform_properties :
      restore_platform_properties p action ≡ some q
      → lookup string_discrete k q
        ≡ changed restore_value (lookup string_discrete k action) (lookup string_discrete k p)
  unfolding restore_platform_properties
  lookup-restore_platform_properties =
      lookup-change_properties restore_value restore_strict restore_total k p action q d

module _ (p action : Properties) (d : Distinct string_discrete action)
    (has : (k : String) (n : ℕ)
      → lookup string_discrete k action ≡ some (minimum n)
      → lookup string_discrete k p ≢ none) where
  pub reduce_platform_properties-total :
      (q : Properties) × (reduce_platform_properties p action ≡ some q)
  unfolding reduce_platform_properties
  reduce_platform_properties-total =
      change_properties-total reduce_value reduce_strict reduce_total p action d has

  pub restore_platform_properties-total :
      (q : Properties) × (restore_platform_properties p action ≡ some q)
  unfolding restore_platform_properties
  restore_platform_properties-total =
      change_properties-total restore_value restore_strict restore_total p action d has
