-- ===== src/Worker/Demand.antt =====
-- What the running actions of a worker hold, and what it means that the resources add up.
use native_link.Base.{
  ℕ, ◌+◌, ◌-◌, ◌≤◌, ◌<◌, ap, String, true, Option, none, some, List, [], ◌∷◌, ◌≡◌, refl, sym, ◌∙◌,
  arith, lookup, insert, remove, Distinct, AllValues, string_discrete, Option-cases, inl, inr, ◌≢◌,
  if_pos, if_neg, remove_absent,
}
use native_link.ActionMessages.{OperationId, OperationId-discrete}
use native_link.PlatformProperties.{
  PlatformPropertyValue, minimum, exact, priority, unknown, Properties, is_satisfied_by,
}
use native_link.PlatformProperties.Satisfied.{
  Meets, same, enough, advice, is_satisfied_by-Satisfies,
}
use native_link.Worker.{ActionInfoWithProps, Worker, u64_mod, reduce_value, restore_value}
use native_link.Worker.Resources.{units, needs, changed}

abbrev pub Running : Type 0
Running = List (OperationId × ActionInfoWithProps)

-- The units of a resource that the running actions hold.
unfoldable pub demand : String → Running → ℕ
demand k [] = 0
demand k ((operation_id, info) ∷ rest) = needs k info.platform_properties + demand k rest

-- An action's properties have distinct names, and what it counts the worker registered.
pub record IsPlaced (registered : Properties) (info : ActionInfoWithProps) : Type 0 where
  pub names : Distinct string_discrete info.platform_properties
  pub known :
      (k : String) (n : ℕ)
      → lookup string_discrete k info.platform_properties ≡ some (minimum n)
      → lookup string_discrete k registered ≢ none

pub record Conserves {Tx : Type 0} (registered : Properties) (w : Worker Tx) : Type 0 where
  pub once : Distinct OperationId-discrete w.running_action_infos
  pub placed : AllValues OperationId-discrete (IsPlaced registered) w.running_action_infos
  pub range :
      (k : String) (n : ℕ) → lookup string_discrete k registered ≡ some (minimum n) → n < u64_mod
  pub balance :
      (k : String) (n : ℕ)
      → lookup string_discrete k registered ≡ some (minimum n)
      → (free : ℕ) × (lookup string_discrete k w.platform_properties ≡ some (minimum free))
        × (free + demand k w.running_action_infos ≡ n)
  pub others :
      (k : String)
      → ((n : ℕ) → lookup string_discrete k registered ≢ some (minimum n))
      → lookup string_discrete k w.platform_properties ≡ lookup string_discrete k registered

Meets-le :
    {x y : PlatformPropertyValue} (v a : ℕ) → Meets x y → x ≡ minimum v → y ≡ minimum a → v ≤ a
Meets-le v a (same e) p q = ground arith
Meets-le v a (enough h) p q = ground arith
Meets-le v a advice p q = absurd (ground arith)

pub demand-insert :
    (k : String) (o : OperationId) (info : ActionInfoWithProps) (r : Running)
    → lookup OperationId-discrete o r ≡ none
    → demand k (insert OperationId-discrete o info r)
      ≡ demand k r + needs k info.platform_properties
unfolding demand insert lookup
demand-insert k o info [] e = omega arith
demand-insert k o info ((p, i) ∷ r) e = elim (OperationId-discrete o p) [
  | yes q ↦ absurd (ground arith)
  | no q ↦ rw (if_neg _ q) (omega (arith, demand-insert k o info r (ground arith)))
]

pub demand-remove :
    (k : String) (o : OperationId) (info : ActionInfoWithProps) (r : Running)
    → Distinct OperationId-discrete r
    → lookup OperationId-discrete o r ≡ some info
    → demand k r ≡ demand k (remove OperationId-discrete o r) + needs k info.platform_properties
unfolding demand remove lookup
demand-remove k o info [] d e = absurd (ground arith)
demand-remove k o info ((p, i) ∷ r) d e = elim (OperationId-discrete o p) [
  | yes q ↦
      let same_info : i ≡ info = ground arith in
      rw (if_pos _ q, remove_absent OperationId-discrete o r (rw q d.0), same_info) (omega arith)
  | no q ↦ rw (if_neg _ q) (omega (arith, demand-remove k o info r d.1 (ground arith)))
]

module _ {Tx : Type 0} (registered : Properties) (w : Worker Tx) (c : Conserves registered w) where
  open w use {platform_properties as free_props, running_action_infos as running}

  -- The worker has a key exactly if it registered it.
  pub free-ne-none :
      (k : String)
      → lookup string_discrete k registered ≢ none
      → lookup string_discrete k free_props ≢ none
  free-ne-none k h e = elim (Option-cases (lookup string_discrete k registered)) [
    | inl a ↦ h a
    | inr (minimum n, f) ↦ let (a, g, s) = c.balance k n f in (cc)
    | inr (exact s, f) ↦ h (sym (c.others k (λ n z. (cc))) ∙ e)
    | inr (priority s, f) ↦ h (sym (c.others k (λ n z. (cc))) ∙ e)
    | inr (unknown s, f) ↦ h (sym (c.others k (λ n z. (cc))) ∙ e)
  ]

  pub registered-ne-none :
      (k : String)
      → lookup string_discrete k free_props ≢ none
      → lookup string_discrete k registered ≢ none
  registered-ne-none k h e = h (c.others k (λ n z. (cc)) ∙ e)

pub reduce_units :
    (a : ℕ) (o : Option PlatformPropertyValue)
    → a < u64_mod
    → units o ≤ a
    → changed reduce_value o (some (minimum a)) ≡ some (minimum (a - units o))
unfolding reduce_value
reduce_units a none h l = ground arith
reduce_units a (some (minimum v)) h l = ap (λ (x : ℕ). some (minimum x)) (omega arith)
reduce_units a (some (exact s)) h l = ground arith
reduce_units a (some (priority s)) h l = ground arith
reduce_units a (some (unknown s)) h l = ground arith

pub restore_units :
    (a : ℕ) (o : Option PlatformPropertyValue)
    → a + units o < u64_mod
    → changed restore_value o (some (minimum a)) ≡ some (minimum (a + units o))
unfolding restore_value
restore_units a none h = ground arith
restore_units a (some (minimum v)) h = ap (λ (x : ℕ). some (minimum x)) (omega arith)
restore_units a (some (exact s)) h = ground arith
restore_units a (some (priority s)) h = ground arith
restore_units a (some (unknown s)) h = ground arith

-- What is no counted resource stays.
abbrev NotCounted : Option PlatformPropertyValue → Type 0
NotCounted x = (n : ℕ) → x ≢ some (minimum n)

pub reduce-NotCounted :
    (o x : Option PlatformPropertyValue) → NotCounted x → changed reduce_value o x ≡ x
unfolding reduce_value
reduce-NotCounted none x h = refl
reduce-NotCounted (some (minimum v)) none h = refl
reduce-NotCounted (some (minimum v)) (some (minimum n)) h = absurd (h n refl)
reduce-NotCounted (some (minimum v)) (some (exact s)) h = refl
reduce-NotCounted (some (minimum v)) (some (priority s)) h = refl
reduce-NotCounted (some (minimum v)) (some (unknown s)) h = refl
reduce-NotCounted (some (exact s)) x h = refl
reduce-NotCounted (some (priority s)) x h = refl
reduce-NotCounted (some (unknown s)) x h = refl

pub restore-NotCounted :
    (o x : Option PlatformPropertyValue) → NotCounted x → changed restore_value o x ≡ x
unfolding restore_value
restore-NotCounted none x h = refl
restore-NotCounted (some (minimum v)) none h = refl
restore-NotCounted (some (minimum v)) (some (minimum n)) h = absurd (h n refl)
restore-NotCounted (some (minimum v)) (some (exact s)) h = refl
restore-NotCounted (some (minimum v)) (some (priority s)) h = refl
restore-NotCounted (some (minimum v)) (some (unknown s)) h = refl
restore-NotCounted (some (exact s)) x h = refl
restore-NotCounted (some (priority s)) x h = refl
restore-NotCounted (some (unknown s)) x h = refl

pub units-le-free :
    (k : String) (free action : Properties) (a : ℕ)
    → is_satisfied_by action free ≡ true
    → lookup string_discrete k free ≡ some (minimum a)
    → (o : Option PlatformPropertyValue) → lookup string_discrete k action ≡ o
    → units o ≤ a
units-le-free k free action a h e none f = omega arith
units-le-free k free action a h e (some (minimum v)) f =
    let (x, g, m) = is_satisfied_by-Satisfies action free h k (minimum v) f in
    Meets-le v a m refl (ground arith)
units-le-free k free action a h e (some (exact s)) f = omega arith
units-le-free k free action a h e (some (priority s)) f = omega arith
units-le-free k free action a h e (some (unknown s)) f = omega arith
