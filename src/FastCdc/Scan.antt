-- ===== src/FastCdc/Scan.antt =====
-- The loop of `decode`: where it stops, and that it can be interrupted and taken up again.
use native_link.Base.{
  ℕ, suc, ◌+◌, ◌≤◌, ◌<◌, ◌≢◌, false, List, [], ◌∷◌, ◌++◌, ◌≡◌, refl, ◌∙◌, ap, arith, inl, inr, ◌⊎◌,
  Bool-cases, length,
}
use native_link.FastCdc.{FastCdc, roll, is_boundary, scan}

shift : (i n : ℕ) → suc i + n ≡ i + suc n
shift i n = omega arith

module _ (c : FastCdc) where
  is_boundary-ne-max : (hash i : ℕ) → is_boundary c hash i ≡ false → i < c.max_size
  unfolding is_boundary
  is_boundary-ne-max hash i h = ground arith

  -- The loop finds nothing, and has not come past the largest size, or stops at an index that it has
  -- looked at, at the latest at the largest size.
  pub scan_cases :
      (hash i : ℕ) (bytes : List ℕ)
      → i ≤ c.max_size
      → (((scan c hash i bytes).1 ≡ 0) × (i + length bytes ≤ c.max_size))
        ⊎ ((i ≤ (scan c hash i bytes).1)
            × ((scan c hash i bytes).1 < i + length bytes)
            × ((scan c hash i bytes).1 ≤ c.max_size))
  unfolding scan
  scan_cases hash i [] m = inl (refl, omega arith)
  scan_cases hash i (b ∷ bs) m = elim (Bool-cases (is_boundary c (roll hash b) i)) [
    | inl y ↦ inr (rw y (omega arith, omega arith, m))
    | inr n ↦
        let lt = is_boundary-ne-max (roll hash b) i n in
        rw n (ground (arith, scan_cases (roll hash b) (suc i) bs (omega arith)))
  ]

  pub scan-append :
      (hash i : ℕ) (xs ys : List ℕ)
      → 0 < i
      → (((scan c hash i xs).1 ≢ 0) × (scan c hash i (xs ++ ys) ≡ scan c hash i xs))
        ⊎ (((scan c hash i xs).1 ≡ 0)
            × (scan c hash i (xs ++ ys) ≡ scan c (scan c hash i xs).0 (i + length xs) ys))
  unfolding scan
  scan-append hash i [] ys h = inr (refl, ap (λ k. scan c hash k ys) (omega arith))
  scan-append hash i (b ∷ bs) ys h = elim (Bool-cases (is_boundary c (roll hash b) i)) [
    | inl y ↦ rw y (inl (omega arith, refl))
    | inr n ↦ rw n (elim (scan-append (roll hash b) (suc i) bs ys (omega arith)) [
      | inl (f, e) ↦ inl (f, e)
      | inr (z, e) ↦
          inr
            (z, e ∙ ap (λ k. scan c (scan c (roll hash b) (suc i) bs).0 k ys) (shift i (length bs)))
    ])
  ]
