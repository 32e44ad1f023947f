-- ===== src/AwaitedAction/SortKey.antt =====
-- The sort key orders actions by priority first and by age second.
use native.Mathlib.Decide.{dec_lt}
use native_link.Base.{
  ap, ℕ, ◌+◌, ◌*◌, ◌≤◌, ◌<◌, ◌≡◌, ◌⊎◌, inl, inr, ◌↔◌, arith, ℤ, pos_part, neg_part, ◌<ℤ◌,
}
use native_link.AwaitedAction.{u32_mod, sort_key, shift_priority, invert}

-- The range of an `i32`.
pub record IsI32 (p : ℤ) : Type 0 where
  pub upper : pos_part p < 2147483648
  pub lower : neg_part p ≤ 2147483648

-- The key is the shifted priority in the high half and the inverted timestamp in the low half.
sort_key_halves : (p : ℤ) (t : ℕ) → sort_key p t ≡ shift_priority p * u32_mod + (invert t)
unfolding sort_key
sort_key_halves p t = omega arith

eq_of_parts : (a b : ℤ) → pos_part a + neg_part b ≡ pos_part b + neg_part a → a ≡ b
eq_of_parts a b h = ground arith

ℤ-cases : (p q : ℤ) → (p <ℤ q) ⊎ ((p ≡ q) ⊎ (q <ℤ p))
ℤ-cases p q = elim (dec_lt (pos_part p + neg_part q) (pos_part q + neg_part p)) [
  | yes h ↦ inl h
  | no n ↦ elim (dec_lt (pos_part q + neg_part p) (pos_part p + neg_part q)) [
    | yes h ↦ inr (inr h)
    | no m ↦ inr (inl (eq_of_parts p q (omega arith)))
  ]
]

module _ (p q : ℤ) (t s : ℕ) (hp : IsI32 p) (hq : IsI32 q) (ht : t < u32_mod)
    (hs : s < u32_mod) where
  before : sort_key p t < sort_key q s → (p <ℤ q) ⊎ ((p ≡ q) × (s < t))
  before h = elim (ℤ-cases p q) [
    | inl less ↦ inl less
    | inr (inl e) ↦
        inr (e, omega (arith, ap shift_priority e, sort_key_halves p t, sort_key_halves q s))
    | inr (inr more) ↦ absurd (
        omega
          (arith, sort_key_halves p t, sort_key_halves q s, hp.upper, hp.lower, hq.upper, hq.lower))
  ]

  after : (p <ℤ q) ⊎ ((p ≡ q) × (s < t)) → sort_key p t < sort_key q s
  after (inl h) =
      omega
        (arith, sort_key_halves p t, sort_key_halves q s, hp.upper, hp.lower, hq.upper, hq.lower)
  after (inr (e, h)) = rw e (omega (arith, sort_key_halves q t, sort_key_halves q s))

  -- For priorities in the range of an i32 and insertion times of 32 bits, an action sorts below
  -- another exactly if its priority is lower, or the priorities are equal and it was inserted
  -- later; so two actions of equal priority and equal time have keys of which neither is smaller.
  pub sort_key-lt_iff : (sort_key p t < sort_key q s) ↔ ((p <ℤ q) ⊎ ((p ≡ q) × (s < t)))
  sort_key-lt_iff = (before, after)
