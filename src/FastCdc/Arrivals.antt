-- ===== src/FastCdc/Arrivals.antt =====
-- The stream while bytes arrive: they come in pieces, and `decode` is called at any time.
use native_link.Base.{
  ℕ, zero, suc, ◌≤◌, ◌<◌, ◌≢◌, Option, none, some, List, [], ◌∷◌, ◌++◌, ◌≡◌, refl, sym, ◌∙◌, ap,
  subst, arith, inl, inr, length, length-append, take, drop, length-drop, drop-append_le,
  take-append_le, append-nil,
}
use native.Mathlib.Decide.{dec_le}
use Prim.Native.Nat.{max}
use native_link.FastCdc.{FastCdc, scan, Decoded, decode}
use native_link.FastCdc.Frames.{
  Sized, at, cut, Resumes, fresh-Resumes, decode_cases, drop-take_self,
}
use native_link.FastCdc.Chunks.{chunks, cut-ne-zero, cut-append, chunks-cut, chunks_fuel}

abbrev pub frames_of : Option (List ℕ) → List (List ℕ)
frames_of none = []
frames_of (some f) = f ∷ []

-- The bytes that have arrived, the frames that `decode` has given, the decoder and its buffer.
pub data Session (c : FastCdc) : List ℕ → List (List ℕ) → FastCdc → List ℕ → Type 0 where
  opened : Session c [] [] (at c 0 0) []
  arrives :
      {fed : List ℕ} {fs : List (List ℕ)} {d : FastCdc} {buf : List ℕ} (piece : List ℕ)
      → Session c fed fs d buf
      → Session c (fed ++ piece) fs d (buf ++ piece)
  decodes :
      {fed : List ℕ} {fs : List (List ℕ)} {d : FastCdc} {buf : List ℕ} (r : Decoded)
      → Session c fed fs d buf
      → decode d buf ≡ r
      → Session c fed (fs ++ frames_of r.frame) r.state r.buf

-- Frames that a text begins with.
abbrev pub Splits : FastCdc → List ℕ → List (List ℕ) → List ℕ → Type 0
Splits c fed [] buf = fed ≡ buf
Splits c fed (f ∷ fs) buf =
    (cut c fed ≢ 0) × (f ≡ take (cut c fed) fed) × Splits c (drop (cut c fed) fed) fs buf

module _ (c : FastCdc) (s : Sized c) where
  Resumes-append : (h p : ℕ) (buf piece : List ℕ) → Resumes c h p buf → Resumes c h p (buf ++ piece)
  unfolding scan
  Resumes-append h p buf piece r = elim (dec_le (max p c.min_size) (length buf)) [
    | yes l ↦ record {
      reached = omega (arith, r.reached, length-append buf piece);
      within = r.within;
      so_far =
          ap (λ xs. scan c 0 c.min_size (drop c.min_size xs))
            (take-append_le (max p c.min_size) buf piece l)
          ∙ r.so_far;
    }
    | no n ↦
        let at_min : max p c.min_size ≡ c.min_size = omega (arith, r.reached) in
        let nothing = λ (xs : List ℕ).
          ap (λ k. scan c 0 c.min_size (drop c.min_size (take k xs))) at_min
          ∙ ap (λ ys. scan c 0 c.min_size ys) (drop-take_self c.min_size xs) in
        record {
          reached = omega (arith, r.reached, length-append buf piece);
          within = r.within;
          so_far = nothing (buf ++ piece) ∙ (sym (nothing buf) ∙ r.so_far);
        }
  ]

  Splits-append :
      (fs : List (List ℕ)) (fed buf piece : List ℕ)
      → Splits c fed fs buf
      → Splits c (fed ++ piece) fs (buf ++ piece)
  Splits-append [] fed buf piece e = ap (λ xs. xs ++ piece) e
  Splits-append (f ∷ fs) fed buf piece (n, e, rest) =
      let (lo, hi) = cut-ne-zero c s fed n in
      let same = cut-append c s fed piece n in
      let le : cut c fed ≤ length fed = omega arith in
      (
        λ z. n (sym same ∙ z),
        e
            ∙ (sym (take-append_le (cut c fed) fed piece le)
                ∙ ap (λ k. take k (fed ++ piece)) (sym same)),
        subst (λ xs. Splits c xs fs (buf ++ piece))
            (sym (drop-append_le (cut c fed) fed piece le)
              ∙ ap (λ k. drop k (fed ++ piece)) (sym same))
            (Splits-append fs (drop (cut c fed) fed) buf piece rest),
      )

  Splits-snoc :
      (fs : List (List ℕ)) (fed buf : List ℕ)
      → Splits c fed fs buf
      → cut c buf ≢ 0
      → Splits c fed (fs ++ take (cut c buf) buf ∷ []) (drop (cut c buf) buf)
  Splits-snoc [] fed buf e n = (
    (λ z. n (ap (cut c) (sym e) ∙ z)),
    ap (λ xs. take (cut c xs) xs) (sym e),
    ap (λ xs. drop (cut c xs) xs) e,
  )
  Splits-snoc (f ∷ fs) fed buf (m, e, rest) n =
      (m, e, Splits-snoc fs (drop (cut c fed) fed) buf rest n)

  abbrev After : List ℕ → List (List ℕ) → Decoded → Type 0
  After fed fs r =
      (h p : ℕ) × (r.state ≡ at c h p)
      × Resumes c h p r.buf
      × Splits c fed (fs ++ frames_of r.frame) r.buf

  pub Session-Splits :
      {fed : List ℕ} {fs : List (List ℕ)} {d : FastCdc} {buf : List ℕ}
      → Session c fed fs d buf
      → (h p : ℕ) × (d ≡ at c h p) × Resumes c h p buf × Splits c fed fs buf
  Session-Splits opened = (0, 0, refl, fresh-Resumes c [], refl)
  Session-Splits (arrives {fed} {fs} {d} {buf} piece w) =
      let (h, p, e, r, sp) = Session-Splits w in
      (h, p, e, Resumes-append h p buf piece r, Splits-append fs fed buf piece sp)
  Session-Splits (decodes {fed} {fs} {d} {buf} res w eq) =
      let (h, p, e, r, sp) = Session-Splits w in
      elim (decode_cases c h p buf s r) [
        | inl (h', p', g, r', z, m) ↦
            subst (After fed fs) (sym (sym eq ∙ (ap (λ x. decode x buf) e ∙ g)))
              (h', p', refl, r', subst (λ gs. Splits c fed gs buf) (sym (append-nil fs)) sp)
        | inr (g, lo, hi, l) ↦
            subst (After fed fs) (sym (sym eq ∙ (ap (λ x. decode x buf) e ∙ g))) (
              0,
              0,
              refl,
              fresh-Resumes c (drop (cut c buf) buf),
              Splits-snoc fs fed buf sp (λ z. omega (arith, s.positive)),
            )
      ]

  pub Splits-chunks :
      (fs : List (List ℕ)) (fed buf : List ℕ) (n m : ℕ)
      → Splits c fed fs buf
      → length fed < n
      → length buf < m
      → chunks n c fed ≡ fs ++ chunks m c buf
  Splits-chunks [] fed buf n m e l k =
      ap (chunks n c) e ∙ chunks_fuel c s n m buf (omega (arith, ap length e)) k
  Splits-chunks (f ∷ fs) fed buf zero m (z, e, rest) l k = absurd (omega arith)
  Splits-chunks (f ∷ fs) fed buf (suc n) m (z, e, rest) l k =
      let (lo, hi) = cut-ne-zero c s fed z in
      chunks-cut c s n fed z
      ∙ (ap (λ g. g ∷ chunks n c (drop (cut c fed) fed)) (sym e)
          ∙ ap (λ gs. f ∷ gs)
              (Splits-chunks fs (drop (cut c fed) fed) buf n m rest
                (omega (arith, s.positive, length-drop (cut c fed) fed)) k))
