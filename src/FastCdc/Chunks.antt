-- ===== src/FastCdc/Chunks.antt =====
-- A text as frames: one after another by `cut`, which `decode` takes off a buffer, until no split
-- point is left.
use native_link.Base.{
  concat, ℕ, zero, suc, ◌≤◌, ◌<◌, ◌≢◌, List, [], ◌∷◌, ◌++◌, ◌≡◌, refl, sym, ◌∙◌, ap, subst, arith,
  inl, inr, ◌⊎◌, length, take, drop, take-append-drop, length-take, length-drop, drop-append_le,
  append-nil, ◌==◌, if◌then◌else◌,
}
use native_link.FastCdc.{FastCdc, scan}
use native_link.FastCdc.Scan.{scan-append}
use native_link.FastCdc.Frames.{Sized, cut, fresh-Resumes, decode_cases}

-- The frames of a whole text: one after another by `cut`, the last one what is left.
unfoldable pub chunks : ℕ → FastCdc → List ℕ → List (List ℕ)
chunks zero c buf = []
chunks (suc n) c [] = []
chunks (suc n) c (b ∷ bs) =
    let rest = chunks n c (drop (cut c (b ∷ bs)) (b ∷ bs)) in
    if cut c (b ∷ bs) == 0 then (b ∷ bs) ∷ [] else take (cut c (b ∷ bs)) (b ∷ bs) ∷ rest

-- The sizes of the frames of a text: at least the smallest but for the last, at most the largest.
abbrev pub Bounded : FastCdc → List (List ℕ) → Type 0
Bounded c [] = Unit
Bounded c (f ∷ []) = (0 < length f) × (length f ≤ c.max_size)
Bounded c (f ∷ g ∷ fs) = (c.min_size ≤ length f) × (length f ≤ c.max_size) × Bounded c (g ∷ fs)

module _ (c : FastCdc) (s : Sized c) where
  pub cut_bounds :
      (buf : List ℕ)
      → ((cut c buf ≡ 0) × (length buf ≤ c.max_size))
        ⊎ ((c.min_size ≤ cut c buf) × (cut c buf ≤ c.max_size) × (cut c buf < length buf))
  cut_bounds buf = elim (decode_cases c 0 0 buf s (fresh-Resumes c buf)) [
    | inl (h, p, e, r, z, m) ↦ inl (z, m)
    | inr (e, lo, hi, l) ↦ inr (lo, hi, l)
  ]

  -- More bytes do not move a split point.
  pub cut-ne-zero :
      (buf : List ℕ) → cut c buf ≢ 0 → (c.min_size ≤ cut c buf) × (cut c buf < length buf)
  cut-ne-zero buf n = elim (cut_bounds buf) [
    | inl (z, m) ↦ absurd (n z)
    | inr (lo, hi, l) ↦ (lo, l)
  ]

  pub cut-append : (buf piece : List ℕ) → cut c buf ≢ 0 → cut c (buf ++ piece) ≡ cut c buf
  unfolding cut
  cut-append buf piece n =
      let (lo, hi) = cut-ne-zero buf n in
      ap (λ xs. (scan c 0 c.min_size xs).1) (drop-append_le c.min_size buf piece (omega arith))
      ∙ (elim (scan-append c 0 c.min_size (drop c.min_size buf) piece s.positive) [
        | inl (f, e) ↦ ap (λ x. x.1) e
        | inr (z, e) ↦ absurd (n z)
      ])

  pub chunks_nil : (n : ℕ) → chunks n c [] ≡ []
  unfolding chunks
  chunks_nil zero = refl
  chunks_nil (suc n) = refl

  pub chunks-cut :
      (n : ℕ) (buf : List ℕ)
      → cut c buf ≢ 0
      → chunks (suc n) c buf ≡ take (cut c buf) buf ∷ chunks n c (drop (cut c buf) buf)
  unfolding chunks
  chunks-cut n [] z = absurd (omega (arith, cut-ne-zero [] z))
  chunks-cut n (b ∷ bs) z = ground arith

  pub chunks_last :
      (n : ℕ) (b : ℕ) (bs : List ℕ) → cut c (b ∷ bs) ≡ 0 → chunks (suc n) c (b ∷ bs) ≡ (b ∷ bs) ∷ []
  unfolding chunks
  chunks_last n b bs z = ground arith

  -- The bytes of a text are those of its frames, in order.
  pub concat-chunks : (n : ℕ) (buf : List ℕ) → length buf < n → concat (chunks n c buf) ≡ buf
  concat-chunks zero buf h = absurd (omega arith)
  concat-chunks (suc n) [] h = ap concat (chunks_nil (suc n))
  concat-chunks (suc n) (b ∷ bs) h = elim (cut_bounds (b ∷ bs)) [
    | inl (z, m) ↦ ap concat (chunks_last n b bs z) ∙ append-nil (b ∷ bs)
    | inr (lo, hi, l) ↦
        ap concat (chunks-cut n (b ∷ bs) (λ z. omega (arith, s.positive)))
        ∙ (ap (λ xs. take (cut c (b ∷ bs)) (b ∷ bs) ++ xs)
              (concat-chunks n (drop (cut c (b ∷ bs)) (b ∷ bs))
                (omega (arith, s.positive, length-drop (cut c (b ∷ bs)) (b ∷ bs))))
            ∙ take-append-drop (cut c (b ∷ bs)) (b ∷ bs))
  ]

  Bounded-cons :
      (f : List ℕ) (fs : List (List ℕ))
      → c.min_size ≤ length f
      → length f ≤ c.max_size
      → Bounded c fs
      → Bounded c (f ∷ fs)
  Bounded-cons f [] lo hi b = (omega (arith, s.positive), hi)
  Bounded-cons f (g ∷ fs) lo hi b = (lo, hi, b)

  pub chunks-Bounded : (n : ℕ) (buf : List ℕ) → Bounded c (chunks n c buf)
  chunks-Bounded zero buf = unfold chunks in tt
  chunks-Bounded (suc n) [] = subst (Bounded c) (sym (chunks_nil (suc n))) tt
  chunks-Bounded (suc n) (b ∷ bs) = elim (cut_bounds (b ∷ bs)) [
    | inl (z, m) ↦ subst (Bounded c) (sym (chunks_last n b bs z)) (omega arith, m)
    | inr (lo, hi, l) ↦
        let k = length-take (cut c (b ∷ bs)) (b ∷ bs) (omega arith) in
        subst (Bounded c) (sym (chunks-cut n (b ∷ bs) (λ z. omega (arith, s.positive)))) (
          Bounded-cons (take (cut c (b ∷ bs)) (b ∷ bs))
            (chunks n c (drop (cut c (b ∷ bs)) (b ∷ bs))) (omega arith) (omega arith)
            (chunks-Bounded n (drop (cut c (b ∷ bs)) (b ∷ bs))))
  ]

  pub chunks_fuel :
      (n m : ℕ) (buf : List ℕ) → length buf < n → length buf < m → chunks n c buf ≡ chunks m c buf
  chunks_fuel zero m buf l k = absurd (omega arith)
  chunks_fuel (suc n) zero buf l k = absurd (omega arith)
  chunks_fuel (suc n) (suc m) [] l k = chunks_nil (suc n) ∙ sym (chunks_nil (suc m))
  chunks_fuel (suc n) (suc m) (b ∷ bs) l k = elim (cut_bounds (b ∷ bs)) [
    | inl (z, h) ↦ chunks_last n b bs z ∙ sym (chunks_last m b bs z)
    | inr (lo, hi, h) ↦
        let z : cut c (b ∷ bs) ≢ 0 = λ z. omega (arith, s.positive) in
        let d = length-drop (cut c (b ∷ bs)) (b ∷ bs) in
        chunks-cut n (b ∷ bs) z
        ∙ (ap (λ gs. take (cut c (b ∷ bs)) (b ∷ bs) ∷ gs)
              (chunks_fuel n m (drop (cut c (b ∷ bs)) (b ∷ bs)) (omega (arith, s.positive))
                (omega (arith, s.positive)))
            ∙ sym (chunks-cut m (b ∷ bs) z))
  ]
