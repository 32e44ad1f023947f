-- ===== src/BufChannel/Reset.antt =====
-- `try_reset_stream`: after reads that stayed within the limit, everything can be read again.
use native_link.Base.{
  ℕ, ◌+◌, ◌≤◌, ◌<◌, true, false, List, [], ◌∷◌, ◌++◌, ◌≡◌, refl, sym, ap, ◌∙◌, arith, Bool-cases,
  ok, length, length-append, concat, concat-snoc, append-nil, inl, inr, ltb, ◌==◌, subst, add_u64,
  u64_mod,
}
use mathlib.Core.List.{append_assoc}
use native_link.BufChannel.{
  ReadHalf, recv, recv_inner, maybe_populate_recent_data, peek, sum_sizes, try_reset_stream,
  WriteHalf, new_reader, set_max_recent_data_size,
}
use native_link.BufChannel.Stream.{remaining_of, remaining, half, IsStream}

-- A reader by successive calls of `recv`, with the buffers that they returned.
pub data Reads (r : ReadHalf) : List (List ℕ) → ReadHalf → Type 0 where
  opened : Reads r [] r
  reads :
      {chunks : List (List ℕ)} {r' : ReadHalf} (chunk : List ℕ) (r'' : ReadHalf)
      → Reads r chunks r'
      → recv r' ≡ (ok chunk, r'')
      → Reads r (chunks ++ chunk ∷ []) r''

remaining_of-append :
    (xs ys zs : List (List ℕ))
    → remaining_of ys ≡ remaining_of zs
    → remaining_of (xs ++ ys) ≡ remaining_of (xs ++ zs)
remaining_of-append [] ys zs e = e
remaining_of-append ([] ∷ xs) ys zs e = refl
remaining_of-append ((b ∷ bs) ∷ xs) ys zs e =
    ap (λ t. (b ∷ bs) ++ t) (remaining_of-append xs ys zs e)

sum_sizes-concat :
    (xs : List (List ℕ)) → length (concat xs) < u64_mod → sum_sizes xs ≡ length (concat xs)
unfolding sum_sizes
sum_sizes-concat [] l = refl
sum_sizes-concat (x ∷ xs) l =
    let n = length-append x (concat xs) in let ih = sum_sizes-concat xs (omega arith) in omega arith

-- The place of a reader that has read from the start, with nothing queued.
pub record Place (all : List ℕ) (size : ℕ) (r : ReadHalf) : Type 0 where
  pub rx : List (List ℕ)
  pub recents : List (List ℕ)
  pub fields : r ≡ half [] rx (length (concat recents)) recents size
  pub whole : remaining_of (recents ++ rx) ≡ all
  pub sizes : length (concat recents) + length (remaining_of rx) ≡ length all
  pub stream : IsStream rx

populate :
    (size : ℕ) (rx recents : List (List ℕ)) (n : ℕ) (c : List ℕ)
    → n ≤ size
    → 0 < size
    → maybe_populate_recent_data c (half [] rx n recents size)
      ≡ half [] rx n (recents ++ c ∷ []) size
unfolding maybe_populate_recent_data
populate size rx recents n c l p = ground arith

module _ (all : List ℕ) (size : ℕ) (fits : length all ≤ size) (small : size < u64_mod) where
  -- The end is read: it is kept as an empty buffer, or not at all when nothing is kept.
  end-Place :
      (rx recents : List (List ℕ))
      → remaining_of (recents ++ rx) ≡ all
      → length (concat recents) + length (remaining_of rx) ≡ length all
      → remaining_of rx ≡ []
      → Place all size
          (maybe_populate_recent_data [] (half [] [] (length (concat recents)) recents size))
  unfolding maybe_populate_recent_data
  end-Place rx recents whole sizes e = elim (Bool-cases (size == 0)) [
    | inl z ↦ record {
      rx = [];
      recents = recents;
      fields = rw z refl;
      whole = remaining_of-append recents [] rx (sym e) ∙ whole;
      sizes = omega (arith, sizes, ap length e);
      stream = tt;
    }
    | inr p ↦
        let n : length (concat (recents ++ [] ∷ [])) ≡ length (concat recents) =
          ap length (concat-snoc recents [] ∙ append-nil (concat recents)) in
        record {
          rx = [];
          recents = recents ++ [] ∷ [];
          fields =
              populate size [] recents (length (concat recents)) [] (omega arith) (ground arith)
              ∙ ap (λ k. half [] [] k (recents ++ [] ∷ []) size) (sym n);
          whole =
              ap remaining_of (append_assoc recents ([] ∷ []) [])
              ∙ (remaining_of-append recents ([] ∷ []) rx (sym e) ∙ whole);
          sizes = omega (arith, sizes, ap length e, n);
          stream = tt;
        }
  ]

  chunk-Place :
      (b : ℕ) (bs : List ℕ) (rx recents : List (List ℕ))
      → remaining_of (recents ++ (b ∷ bs) ∷ rx) ≡ all
      → length (concat recents) + length (remaining_of ((b ∷ bs) ∷ rx)) ≡ length all
      → IsStream rx
      → Place all size (
          maybe_populate_recent_data
            (b ∷ bs)
            (half [] rx (add_u64 (length (concat recents)) (length (b ∷ bs))) recents size))
  chunk-Place b bs rx recents whole sizes s =
      let c : List ℕ = b ∷ bs in
      let l = length-append c (remaining_of rx) in
      let n = ap length (concat-snoc recents c) ∙ length-append (concat recents) c in
      let received : add_u64 (length (concat recents)) (length c)
          ≡ length (concat (recents ++ c ∷ [])) =
        omega arith in
      record {
        rx = rx;
        recents = recents ++ c ∷ [];
        fields =
            populate size rx recents (add_u64 (length (concat recents)) (length c)) c (omega arith)
              (omega arith)
            ∙ ap (λ k. half [] rx k (recents ++ c ∷ []) size) received;
        whole = ap remaining_of (append_assoc recents (c ∷ []) rx) ∙ whole;
        sizes = omega arith;
        stream = s;
      }

  recv-half :
      (rx recents : List (List ℕ))
      → remaining_of (recents ++ rx) ≡ all
      → length (concat recents) + length (remaining_of rx) ≡ length all
      → IsStream rx
      → Place all size (recv (half [] rx (length (concat recents)) recents size)).1
  unfolding recv recv_inner
  recv-half [] recents whole sizes s = end-Place [] recents whole sizes refl
  recv-half ([] ∷ rx) recents whole sizes s =
      subst
        (λ ms.
          Place all size
            (maybe_populate_recent_data [] (half [] ms (length (concat recents)) recents size)))
        (sym s) (end-Place ([] ∷ rx) recents whole sizes refl)
  recv-half ((b ∷ bs) ∷ rx) recents whole sizes s = chunk-Place b bs rx recents whole sizes s

  recv-Place :
      (r r' : ReadHalf) (chunk : List ℕ)
      → Place all size r
      → recv r ≡ (ok chunk, r')
      → Place all size r'
  recv-Place r r' chunk p e =
      subst (Place all size) (sym (ap (λ x. (recv x).1) p.fields) ∙ ap (λ x. x.1) e)
        (recv-half p.rx p.recents p.whole p.sizes p.stream)

  Reads-Place :
      {r r' : ReadHalf} {chunks : List (List ℕ)}
      → Place all size r
      → Reads r chunks r'
      → Place all size r'
  Reads-Place p opened = p
  Reads-Place p (reads {chunks} {r'} chunk r'' w e) = recv-Place r' r'' chunk (Reads-Place p w) e

  reset-Place :
      (r : ReadHalf)
      → Place all size r
      → ((try_reset_stream r).0 ≡ ok tt) × (remaining (try_reset_stream r).1 ≡ all)
  unfolding try_reset_stream
  reset-Place r p =
      let n = length (concat p.recents) in
      let bound : ltb size n ≡ false = let s = p.sizes in ground arith in
      let sum : (sum_sizes p.recents == n) ≡ true =
        let s = sum_sizes-concat p.recents (omega (arith, p.sizes)) in ground arith in
      subst (λ x. ((try_reset_stream x).0 ≡ ok tt) × (remaining (try_reset_stream x).1 ≡ all))
        (sym p.fields)
        (rw (bound, sum)
          (refl, ap (λ q. remaining_of (q ++ p.rx)) (append-nil p.recents) ∙ p.whole))

abbrev pub reader_of : WriteHalf → ℕ → ReadHalf
reader_of w size = set_max_recent_data_size size (new_reader w)

-- After any calls of recv on a new reader whose writer ends the stream with send_eof, an empty
-- buffer standing last only, and whose limit is at least the size of the stream and below 2 ^ 64,
-- try_reset_stream succeeds and everything can be read again.
pub Reads-try_reset_stream :
    (w : WriteHalf) (size : ℕ) (r : ReadHalf) (chunks : List (List ℕ))
    → w.eof_sent ≡ true
    → IsStream w.sent
    → length (remaining_of w.sent) ≤ size
    → size < u64_mod
    → Reads (reader_of w size) chunks r
    → ((try_reset_stream r).0 ≡ ok tt) × (remaining (try_reset_stream r).1 ≡ remaining_of w.sent)
Reads-try_reset_stream w size r chunks e s fits small reading =
    reset-Place (remaining_of w.sent) size fits small r (
      Reads-Place (remaining_of w.sent) size fits small
        (record {
          rx = w.sent;
          recents = [];
          fields = ap (λ x. record (reader_of w size) { eof_sent = x }) e;
          whole = refl;
          sizes = omega arith;
          stream = s;
        })
        reading)

-- When the first buffer is within the limit, try_reset_stream after a peek of a new reader
-- succeeds, and the first buffer is then read twice.
pub peek-try_reset_stream :
    (w : WriteHalf) (size b : ℕ) (bs : List ℕ) (rest : List (List ℕ))
    → w.sent ≡ (b ∷ bs) ∷ rest
    → length (b ∷ bs) ≤ size
    → size < u64_mod
    → let r = (peek (reader_of w size)).1 in
      ((try_reset_stream r).0 ≡ ok tt)
      × (remaining (try_reset_stream r).1 ≡ (b ∷ bs) ++ ((b ∷ bs) ++ remaining_of rest))
unfolding peek recv recv_inner maybe_populate_recent_data try_reset_stream sum_sizes
peek-try_reset_stream w size b bs rest e fits small =
    let c : List ℕ = b ∷ bs in
    let some_room : (size == 0) ≡ false = ground arith in
    let within : ltb size (add_u64 0 (length c)) ≡ false = ground arith in
    let sum : (add_u64 0 (length c) == add_u64 0 (length c)) ≡ true = ground arith in
    rw (e, some_room, within) (rw within (rw sum (refl, refl)))
