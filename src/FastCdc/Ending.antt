-- ===== src/FastCdc/Ending.antt =====
-- The stream after its last byte: `decode_eof` is called until it gives no frame.
use native_link.Base.{
  subst, drop_nil, ℕ, zero, suc, ◌<◌, ◌≢◌, none, some, List, [], ◌∷◌, ◌≡◌, refl, sym, ◌∙◌, ap,
  arith, inl, inr, length, take, drop, length-drop, ℕ_discrete,
}
use native_link.FastCdc.{scan, FastCdc, after_decode, decode_eof, end_of_stream}
use native_link.FastCdc.Frames.{Sized, at, cut, Resumes, fresh-Resumes, decode_cases}
use native_link.FastCdc.Chunks.{chunks, cut-ne-zero, chunks_nil, chunks-cut, chunks_last}

-- The frames after the last byte.
pub data Tail : FastCdc → List ℕ → List (List ℕ) → Type 0 where
  ends : {d : FastCdc} {buf : List ℕ} → (decode_eof d buf).frame ≡ none → Tail d buf []
  more :
      {d : FastCdc} {buf : List ℕ} (f : List ℕ) (fs : List (List ℕ))
      → (decode_eof d buf).frame ≡ some f
      → Tail (decode_eof d buf).state (decode_eof d buf).buf fs
      → Tail d buf (f ∷ fs)

module _ (c : FastCdc) (s : Sized c) where
  -- What `decode_eof` returns.
  eof_none :
      (h p : ℕ) (buf : List ℕ)
      → Resumes c h p buf
      → cut c buf ≡ 0
      → decode_eof (at c h p) buf ≡ end_of_stream (at c 0 0) buf
  unfolding decode_eof after_decode end_of_stream
  eof_none h p [] r z = elim (decode_cases c h p [] s r) [
    | inl (h', p', g, r', z', m) ↦ ap after_decode g
    | inr (g, lo, hi, l) ↦ absurd (omega arith)
  ]
  eof_none h p (b ∷ bs) r z = elim (decode_cases c h p (b ∷ bs) s r) [
    | inl (h', p', g, r', z', m) ↦ ap after_decode g
    | inr (g, lo, hi, l) ↦ absurd (omega (arith, s.positive))
  ]

  eof_some :
      (h p : ℕ) (buf : List ℕ)
      → Resumes c h p buf
      → cut c buf ≢ 0
      → decode_eof (at c h p) buf ≡ record {
        state = at c 0 0;
        buf = drop (cut c buf) buf;
        frame = some (take (cut c buf) buf);
      }
  unfolding decode_eof after_decode
  eof_some h p buf r n = elim (decode_cases c h p buf s r) [
    | inl (h', p', g, r', z, m) ↦ absurd (n z)
    | inr (g, lo, hi, l) ↦ ap after_decode g
  ]

  ended : (buf : List ℕ) (n : ℕ) → (end_of_stream (at c 0 0) buf).frame ≡ none → [] ≡ chunks n c buf
  unfolding end_of_stream
  ended [] n e = sym (chunks_nil c s n)
  ended (b ∷ bs) n e = cc

  last_frame :
      (buf f : List ℕ) (fs : List (List ℕ)) (n : ℕ)
      → cut c buf ≡ 0
      → (end_of_stream (at c 0 0) buf).frame ≡ some f
      → fs ≡ []
      → f ∷ fs ≡ chunks (suc n) c buf
  unfolding end_of_stream
  last_frame [] f fs n z e g = cc
  last_frame (b ∷ bs) f fs n z e g =
      let same : f ≡ b ∷ bs = cc in rw (same, g) (sym (chunks_last c s n b bs z))

  end_of_stream-rest : (buf : List ℕ) → (end_of_stream (at c 0 0) buf).buf ≡ []
  unfolding end_of_stream
  end_of_stream-rest [] = refl
  end_of_stream-rest (b ∷ bs) = refl

  end_of_stream-state : (buf : List ℕ) → (end_of_stream (at c 0 0) buf).state ≡ at c 0 0
  unfolding end_of_stream
  end_of_stream-state [] = refl
  end_of_stream-state (b ∷ bs) = refl

  none-ne-some : {f : List ℕ} → some f ≡ none → ⊥
  none-ne-some e = cc

  some-injective : {f g : List ℕ} → some f ≡ some g → f ≡ g
  some-injective e = cc

  pub Tail-chunks :
      {d : FastCdc} {buf : List ℕ} {ts : List (List ℕ)}
      → Tail d buf ts
      → (h p : ℕ) → d ≡ at c h p
      → Resumes c h p buf
      → (n : ℕ) → length buf < n
      → ts ≡ chunks n c buf
  Tail-chunks (ends {d} {buf} e) h p q r n l =
      let here = ap (λ x. decode_eof x buf) q in
      elim (ℕ_discrete (cut c buf) 0) [
        | yes z ↦ ended buf n (sym (ap (λ x. x.frame) (here ∙ eof_none h p buf r z)) ∙ e)
        | no z ↦
            let g = sym (ap (λ x. x.frame) (here ∙ eof_some h p buf r z)) ∙ e in
            absurd (none-ne-some g)
      ]
  Tail-chunks (more {d} {buf} f fs e t) h p q r zero l = absurd (omega arith)
  Tail-chunks (more {d} {buf} f fs e t) h p q r (suc n) l =
      let here = ap (λ x. decode_eof x buf) q in
      elim (ℕ_discrete (cut c buf) 0) [
        | yes z ↦
            let eof = here ∙ eof_none h p buf r z in
            let rest : (decode_eof d buf).buf ≡ [] = ap (λ x. x.buf) eof ∙ end_of_stream-rest buf in
            let ih =
              Tail-chunks t 0 0 (ap (λ x. x.state) eof ∙ end_of_stream-state buf)
                (fresh-Resumes c (decode_eof d buf).buf) 1 (omega (arith, ap length rest)) in
            last_frame buf f fs n z (sym (ap (λ x. x.frame) eof) ∙ e)
              (ih ∙ (ap (chunks 1 c) rest ∙ chunks_nil c s 1))
        | no z ↦
            let eof = here ∙ eof_some h p buf r z in
            let (lo, hi) = cut-ne-zero c s buf z in
            let rest : (decode_eof d buf).buf ≡ drop (cut c buf) buf = ap (λ x. x.buf) eof in
            let ih =
              Tail-chunks t 0 0 (ap (λ x. x.state) eof) (fresh-Resumes c (decode_eof d buf).buf) n
                (omega (arith, ap length rest, length-drop (cut c buf) buf, s.positive)) in
            let same : f ≡ take (cut c buf) buf = some-injective (sym e ∙ ap (λ x. x.frame) eof) in
            ap (λ g. g ∷ fs) same
            ∙ (ap (λ gs. take (cut c buf) buf ∷ gs) (ih ∙ ap (chunks n c) rest)
                ∙ sym (chunks-cut c s n buf z))
      ]

  -- The last calls, when no split point is left.
  last_Tail :
      (h p : ℕ) (buf : List ℕ)
      → Resumes c h p buf
      → cut c buf ≡ 0
      → (ts : List (List ℕ)) × Tail (at c h p) buf ts
  unfolding end_of_stream
  last_Tail h p [] r z = ([], ends (ap (λ x. x.frame) (eof_none h p [] r z)))
  last_Tail h p (b ∷ bs) r z =
      let eof = eof_none h p (b ∷ bs) r z in
      let none_left : cut c [] ≡ 0 =
        unfold cut in unfold scan in ap (λ xs. (scan c 0 c.min_size xs).1) (drop_nil c.min_size) in
      (
        (b ∷ bs) ∷ [],
        more (b ∷ bs) [] (ap (λ x. x.frame) eof) (
            subst (λ x. Tail x.state x.buf []) (sym eof)
              (ends (ap (λ x. x.frame) (eof_none 0 0 [] (fresh-Resumes c []) none_left)))),
      )

  -- Enough calls of `decode_eof` come to an end.
  pub Tail_exists :
      (n h p : ℕ) (buf : List ℕ)
      → Resumes c h p buf
      → length buf < n
      → (ts : List (List ℕ)) × Tail (at c h p) buf ts
  Tail_exists zero h p buf r l = absurd (omega arith)
  Tail_exists (suc n) h p buf r l = elim (ℕ_discrete (cut c buf) 0) [
    | yes z ↦ last_Tail h p buf r z
    | no z ↦
        let (lo, hi) = cut-ne-zero c s buf z in
        let eof = eof_some h p buf r z in
        let (ts, t) =
          Tail_exists n 0 0 (drop (cut c buf) buf) (fresh-Resumes c (drop (cut c buf) buf))
            (omega (arith, length-drop (cut c buf) buf, s.positive)) in
        (
          take (cut c buf) buf ∷ ts,
          more (take (cut c buf) buf) ts (ap (λ x. x.frame) eof)
              (subst (λ x. Tail x.state x.buf ts) (sym eof) t),
        )
  ]
