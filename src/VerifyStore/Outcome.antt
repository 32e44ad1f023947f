-- ===== src/VerifyStore/Outcome.antt =====
-- What a check has forwarded, and how it ends.
use native_link.Base.{
  ℕ, ◌≤◌, ◌%◌, true, false, Option, none, some, List, [], ◌∷◌, ◌++◌, ltb, ite, ◌==◌, ◌≡◌, refl, sym,
  ap, ◌∙◌, subst, arith, inl, inr, ◌⊎◌, Bool-cases, Result, ok, err, Error, length, length-append,
  concat, concat-snoc, add_u64, u64_mod, ℕ_discrete,
}
use native_link.BufChannel.{ReadHalf, WriteHalf, peek}
use native_link.BufChannel.Turns.{turns, peek-turns}
use native_link.BufChannel.Bind.{IsOpen, send_eof-IsOpen}
use native_link.VerifyStore.{
  over_size, not_at_end, size_mismatch, hash_mismatch, Hasher, Check, Checked, check_eof, check_sum,
  check_size, check_hash, check_end, end_stream, update_hasher,
}

-- A hasher that gives the same hash however its input is cut.
pub record IsHasher (h : Hasher) : Type 0 where
  pub update_append : (s : h.State) (a b : List ℕ) → h.update (h.update s a) b ≡ h.update s (a ++ b)
  pub update_nil : (s : h.State) → h.update s [] ≡ s

abbrev pub HasSize : Option ℕ → List ℕ → Type 0
HasSize none content = Unit
HasSize (some n) content = length content % u64_mod ≡ n

module _ (h : Hasher) (law : IsHasher h) where
  abbrev pub HasHash : Option h.State → ℕ → List ℕ → Type 0
  HasHash none hash content = Unit
  HasHash (some start) hash content = h.hash (h.update start content) ≡ hash

  -- A check that has forwarded what it has counted and hashed.
  pub record Consistent (start : Option h.State) (c : Check h) : Type 0 where
    pub tx_open : IsOpen c.tx
    pub counted : c.sum_size ≡ length (concat c.tx.sent) % u64_mod
    pub hashed : c.maybe_hasher ≡ update_hasher h (concat c.tx.sent) start

  pub data Outcome (maybe_size : Option ℕ) (hash : ℕ) (start : Option h.State) (o : Checked h)
      : Type 0 where
    accepted :
        o.0 ≡ ok tt
        → o.1.tx.eof_sent ≡ true
        → HasSize maybe_size (concat o.1.tx.sent)
        → HasHash start hash (concat o.1.tx.sent)
        → Outcome maybe_size hash start o
    rejected : (e : Error) → o.0 ≡ err e → o.1.tx.eof_sent ≡ false → Outcome maybe_size hash start o

  check_eof-rx :
      (next : Result (List ℕ)) (r : ReadHalf) (c : Check h)
      → (res : Result (Unit {0})) × (check_eof h (next, r) c ≡ (res, record c { rx = r }))
  unfolding check_eof
  check_eof-rx (ok []) r c = (ok tt, refl)
  check_eof-rx (ok (b ∷ bs)) r c = (err not_at_end, refl)
  check_eof-rx (err e) r c = (ok tt, refl)

  -- What `check_sum` changes is the reader only.
  pub check_sum-rx :
      (maybe_size : Option ℕ) (c : Check h)
      → (res : Result (Unit {0})) × (r : ReadHalf) × (check_sum h maybe_size c
          ≡ (res, record c { rx = r }))
        × (turns r ≤ turns c.rx)
  unfolding check_sum check_eof
  check_sum-rx none c = (ok tt, c.rx, refl, omega arith)
  check_sum-rx (some n) c = elim (Bool-cases (ltb n c.sum_size)) [
    | inl l ↦ (err over_size, c.rx, rw l refl, omega arith)
    | inr l ↦ elim (Bool-cases (c.sum_size == n)) [
      | inl e ↦
          let (res, f) = check_eof-rx (peek c.rx).0 (peek c.rx).1 c in
          (res, (peek c.rx).1, rw (l, e) f, peek-turns c.rx)
      | inr e ↦ (ok tt, c.rx, rw (l, e) refl, omega arith)
    ]
  ]

  check_size_cases :
      (maybe_size : Option ℕ) (sum_size : ℕ) (content : List ℕ)
      → sum_size ≡ length content % u64_mod
      → ((check_size h maybe_size sum_size ≡ ok tt) × HasSize maybe_size content)
        ⊎ ((e : Error) × (check_size h maybe_size sum_size ≡ err e))
  unfolding check_size
  check_size_cases none sum_size content s = inl (refl, tt)
  check_size_cases (some n) sum_size content s = elim (Bool-cases (sum_size == n)) [
    | inl e ↦ inl (rw e refl, ground arith)
    | inr e ↦ inr (size_mismatch, rw e refl)
  ]

  check_hash_cases :
      (start : Option h.State) (hash : ℕ) (content : List ℕ)
      → ((check_hash h hash (update_hasher h content start) ≡ ok tt) × HasHash start hash content)
        ⊎ ((e : Error) × (check_hash h hash (update_hasher h content start) ≡ err e))
  unfolding check_hash
  check_hash_cases none hash content = inl (refl, tt)
  check_hash_cases (some s) hash content =
      elim (ℕ_discrete hash (h.hash (h.update s content)))
        as (λ d.
          ((ite d (ok tt) (err hash_mismatch) ≡ ok tt) × (h.hash (h.update s content) ≡ hash))
          ⊎ ((e : Error) × (ite d (ok tt) (err hash_mismatch) ≡ err e))) [
            | yes e ↦ inl (refl, sym e)
            | no n ↦ inr (hash_mismatch, refl)
          ]

  -- The end of the stream: it is passed on when both tests succeed.
  pub end-Outcome :
      (maybe_size : Option ℕ) (hash : ℕ) (start : Option h.State) (c : Check h)
      → Consistent start c
      → Outcome maybe_size hash start
          (check_end h (check_size h maybe_size c.sum_size) (check_hash h hash c.maybe_hasher) c)
  end-Outcome maybe_size hash start c k =
      let content = concat c.tx.sent in
      let still : c.tx.eof_sent ≡ false = k.tx_open.not_ended in
      subst
        (λ s.
          Outcome maybe_size hash start
            (check_end h (check_size h maybe_size c.sum_size) (check_hash h hash s) c))
        (sym k.hashed)
        (elim (check_size_cases maybe_size c.sum_size content k.counted) [
          | inr (e, bad) ↦
              subst
                (λ x.
                  Outcome maybe_size hash start
                    (check_end h x (check_hash h hash (update_hasher h content start)) c))
                (sym bad) (rejected e refl still)
          | inl (fine, sized) ↦
              subst
                (λ x.
                  Outcome maybe_size hash start
                    (check_end h x (check_hash h hash (update_hasher h content start)) c))
                (sym fine)
                (elim (check_hash_cases start hash content) [
                  | inr (e, bad) ↦
                      subst (λ x. Outcome maybe_size hash start (check_end h (ok tt) x c)) (sym bad)
                        (rejected e refl still)
                  | inl (same, hashed) ↦
                      subst (λ x. Outcome maybe_size hash start (check_end h (ok tt) x c))
                        (sym same)
                        (subst (λ x. Outcome maybe_size hash start (end_stream h x c))
                          (sym (send_eof-IsOpen c.tx k.tx_open)) (accepted refl refl sized hashed))
                ])
        ])

  update_hasher-append :
      (s : Option h.State) (a b : List ℕ)
      → update_hasher h b (update_hasher h a s) ≡ update_hasher h (a ++ b) s
  update_hasher-append none a b = refl
  update_hasher-append (some x) a b = ap some (law.update_append x a b)

  pub update_hasher-nil : (s : Option h.State) → s ≡ update_hasher h [] s
  update_hasher-nil none = refl
  update_hasher-nil (some x) = ap some (sym (law.update_nil x))

  -- The check after a chunk was sent.
  pub sent-Consistent :
      (start : Option h.State) (c : Check h) (chunk : List ℕ) (r : ReadHalf) (w : WriteHalf)
      → Consistent start c
      → IsOpen w
      → w.sent ≡ c.tx.sent ++ chunk ∷ []
      → Consistent start (record c {
        tx = w;
        rx = r;
        maybe_hasher = update_hasher h chunk c.maybe_hasher;
        sum_size = add_u64 c.sum_size (length chunk);
      })
  sent-Consistent start c chunk r w k o sent =
      let whole : concat w.sent ≡ concat c.tx.sent ++ chunk =
        ap concat sent ∙ concat-snoc c.tx.sent chunk in
      let n = ap length whole ∙ length-append (concat c.tx.sent) chunk in
      record {
        tx_open = o;
        counted = omega (arith, k.counted, n);
        hashed =
            ap (update_hasher h chunk) k.hashed
            ∙ (update_hasher-append start (concat c.tx.sent) chunk
                ∙ ap (λ d. update_hasher h d start) (sym whole));
      }
