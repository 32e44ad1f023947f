-- ===== src/VerifyStore/Complete.antt =====
-- `update` of the verifying store on a stream that is what its digest says: all of it is forwarded.
use native_link.Base.{
  ℕ, zero, suc, ◌+◌, ◌≤◌, ◌<◌, Bool, true, false, Option, none, some, List, [], ◌∷◌, ◌++◌, ltb,
  ◌==◌, ◌≡◌, refl, sym, ap, ◌∙◌, subst, arith, inl, inr, Bool-cases, if_pos, if◌then◌else◌, ok, err,
  length, length-append, concat, concat-snoc, append-nil, add_u64, u64_mod, ℕ_discrete,
}
use mathlib.Core.List.{append_assoc}
use native_link.ActionMessages.{DigestInfo}
use native_link.SizePartitioningStore.{digest, UploadSizeInfo}
use native_link.BufChannel.{ReadHalf, WriteHalf, new_reader}
use native_link.BufChannel.Stream.{
  messages, remaining_of, remaining, Intact, at_end, got, recv-Intact, end_next, chunk_next,
  peek-Intact,
}
use native_link.BufChannel.Turns.{turns, turns_le, recv-turns, peek-turns}
use native_link.BufChannel.Bind.{IsOpen, taken, refused, send-IsOpen, send_eof-IsOpen}
use native_link.VerifyStore.{
  hash_mismatch, VerifyStore, Hasher, Check, Checked, check_eof, check_sum, check_size, check_hash,
  check_end, end_stream, after_send, forward, check_turn, inner_check_update, begin_check, Inner,
  update, update_hasher, wrong_size, joined, update_checked,
}
use native_link.VerifyStore.Outcome.{
  IsHasher, HasHash, Consistent, sent-Consistent, update_hasher-nil,
}
use native_link.VerifyStore.Checks.{hasher_of, hasher_of-maybe_hash, merge-ok}

abbrev pub IsSize : Option ℕ → ℕ → Type 0
IsSize none n = Unit
IsSize (some size) n = n ≡ size

module _ (h : Hasher) (law : IsHasher h) (start : Option h.State) (maybe_size : Option ℕ) (hash : ℕ)
    (all : List ℕ) (small : length all < u64_mod) (sized : IsSize maybe_size (length all))
    (hashed : HasHash h law start hash all) where
  -- A check of the content, some of which it has forwarded.
  record Ready (c : Check h) : Type 0 where
    pub consistent : Consistent h law start c
    pub intact : Intact c.rx
    pub whole : concat c.tx.sent ++ remaining c.rx ≡ all
    pub received : (n : ℕ) → c.tx.receiver n ≡ true

  abbrev Accepts : Option (Checked h) → Type 0
  Accepts run =
      (c : Check h) × (run ≡ some (ok tt, c)) × (c.tx.eof_sent ≡ true) × (concat c.tx.sent ≡ all)

  check_sum-passes :
      (size : Option ℕ) (c : Check h)
      → Intact c.rx
      → IsSize size (c.sum_size + length (remaining c.rx))
      → (r : ReadHalf) × (check_sum h size c ≡ (ok tt, record c { rx = r }))
        × Intact r
        × (remaining r ≡ remaining c.rx)
        × (turns r ≤ turns c.rx)
  unfolding check_sum check_eof
  check_sum-passes none c i s = (c.rx, refl, i, refl, omega arith)
  check_sum-passes (some n) c i s =
      let under : ltb n c.sum_size ≡ false = ground arith in
      elim (Bool-cases (c.sum_size == n)) [
        | inr e ↦ (c.rx, rw (under, e) refl, i, refl, omega arith)
        | inl e ↦
            let nothing : length (remaining c.rx) ≡ 0 = ground arith in
            elim (peek-Intact c.rx i) [
              | end_next r p i' ms m ↦ (
                r,
                rw (under, e, p) refl,
                i',
                ap remaining_of ms ∙ sym m,
                omega (arith, ap (λ x. turns x.1) p, peek-turns c.rx),
              )
              | chunk_next b bs r ms p i' before after ↦ absurd (
                  omega (
                    arith,
                    nothing,
                    ap (λ x. length (remaining_of x)) before,
                    length-append (b ∷ bs) (remaining_of ms),
                  ))
            ]
      ]

  check_size-passes : (size : Option ℕ) (n : ℕ) → IsSize size n → check_size h size n ≡ ok tt
  unfolding check_size
  check_size-passes none n s = refl
  check_size-passes (some size) n s = let e : (n == size) ≡ true = ground arith in rw e refl

  check_hash-passes :
      (s : Option h.State)
      → HasHash h law s hash all
      → check_hash h hash (update_hasher h all s) ≡ ok tt
  unfolding check_hash
  check_hash-passes none g = refl
  check_hash-passes (some s) g =
      if_pos (ℕ_discrete hash (h.hash (h.update s all))) (sym g) (ok tt) (err hash_mismatch)

  end-Accepts :
      (c : Check h)
      → IsOpen c.tx
      → concat c.tx.sent ≡ all
      → c.sum_size ≡ length all
      → c.maybe_hasher ≡ update_hasher h all start
      → Accepts (
          some
            (check_end h (check_size h maybe_size c.sum_size) (check_hash h hash c.maybe_hasher) c))
  end-Accepts c o whole sum same = (
    record c { tx = record (c.tx) { eof_sent = true; tx = false } },
    ap (λ s. some (check_end h s (check_hash h hash c.maybe_hasher) c))
          (ap (check_size h maybe_size) sum ∙ check_size-passes maybe_size (length all) sized)
        ∙ (ap (λ s. some (check_end h (ok tt) s c))
              (ap (check_hash h hash) same ∙ check_hash-passes start hashed)
            ∙ ap (λ s. some (end_stream h s c)) (send_eof-IsOpen c.tx o)),
    refl,
    whole,
  )

  IsSize-of_sum :
      (size : Option ℕ) (n : ℕ) → n ≡ length all → IsSize size (length all) → IsSize size n
  IsSize-of_sum none n e s = tt
  IsSize-of_sum (some k) n e s = e ∙ s

  -- The turn on the end of the stream.
  end_turn :
      (go : Check h → Option (Checked h)) (c : Check h) (r : ReadHalf)
      → Ready c
      → Intact r
      → remaining c.rx ≡ []
      → messages r ≡ []
      → Accepts (check_turn h go maybe_size hash (ok [], r) c)
  end_turn go c r k i m ms =
      let c1 = record c { rx = r; sum_size = add_u64 c.sum_size 0 } in
      let whole : concat c.tx.sent ≡ all =
        sym (append-nil (concat c.tx.sent)) ∙ (ap (λ t. concat c.tx.sent ++ t) (sym m) ∙ k.whole) in
      let sum : add_u64 c.sum_size 0 ≡ length all =
        omega (arith, ap length whole, k.consistent.counted) in
      let (r2, f, i2, same, less) = check_sum-passes maybe_size c1 i (
        IsSize-of_sum maybe_size (c1.sum_size + length (remaining r))
          (omega (arith, sum, ap (λ x. length (remaining_of x)) ms)) sized) in
      subst (λ x. Accepts (forward h go maybe_size hash [] x)) (sym f)
        (end-Accepts (record c1 { rx = r2 }) k.consistent.tx_open whole sum
          (k.consistent.hashed ∙ ap (λ d. update_hasher h d start) whole))

  -- The content stays whole when a chunk moves from the reader to the writer.
  still_whole :
      (c : Check h) (chunk : List ℕ) (r : ReadHalf) (w : WriteHalf)
      → Ready c
      → w.sent ≡ c.tx.sent ++ chunk ∷ []
      → chunk ++ remaining r ≡ remaining c.rx
      → concat w.sent ++ remaining r ≡ all
  still_whole c chunk r w k sent moved =
      ap (λ x. concat x ++ remaining r) sent
      ∙ (ap (λ x. x ++ remaining r) (concat-snoc c.tx.sent chunk)
          ∙ (append_assoc (concat c.tx.sent) chunk (remaining r)
              ∙ (ap (λ t. concat c.tx.sent ++ t) moved ∙ k.whole)))

  -- The turn on a chunk: it is sent, and the check goes on.
  chunk_turn :
      (go : Check h → Option (Checked h)) (c : Check h) (b : ℕ) (bs : List ℕ) (r : ReadHalf)
      → Ready c
      → Intact r
      → (b ∷ bs) ++ remaining r ≡ remaining c.rx
      → ((c' : Check h) → turns c'.rx ≤ turns r → Ready c' → Accepts (go c'))
      → Accepts (check_turn h go maybe_size hash (ok (b ∷ bs), r) c)
  chunk_turn go c b bs r k i moved rest =
      let chunk : List ℕ = b ∷ bs in
      let c1 = record c { rx = r; sum_size = add_u64 c.sum_size (length chunk) } in
      let n = ap length (sym k.whole) ∙ length-append (concat c.tx.sent) (remaining c.rx) in
      let (r2, f, i2, same, less) = check_sum-passes maybe_size c1 i (
        IsSize-of_sum maybe_size (c1.sum_size + length (remaining r))
          (omega
            (arith, n, length-append chunk (remaining r), ap length moved, k.consistent.counted))
          sized) in
      subst (λ x. Accepts (forward h go maybe_size hash chunk x)) (sym f)
        (elim (send-IsOpen b bs c.tx k.consistent.tx_open) [
          | taken w s o sent kept there ↦
              subst (λ x. Accepts (after_send h go chunk x (record c1 { rx = r2 }))) (sym s)
                (rest
                  (record c1 {
                    rx = r2;
                    tx = w;
                    maybe_hasher = update_hasher h chunk c.maybe_hasher;
                  })
                  less
                  (record {
                    consistent = sent-Consistent h law start c chunk r2 w k.consistent o sent;
                    intact = i2;
                    whole = still_whole c chunk r2 w k sent (ap (λ t. chunk ++ t) same ∙ moved);
                    received = λ j. ap (λ g. g j) kept ∙ k.received j;
                  }))
          | refused x w s x1 x2 gone ↦ absurd (cc (k.received (length c.tx.sent)))
        ])

  loop-Accepts :
      (fuel : ℕ) (c : Check h)
      → turns c.rx < fuel
      → Ready c
      → Accepts (inner_check_update h fuel maybe_size hash c)
  unfolding inner_check_update
  loop-Accepts zero c l k = absurd (omega arith)
  loop-Accepts (suc fuel) c l k =
      let go = inner_check_update h fuel maybe_size hash in
      elim (recv-Intact c.rx k.intact) [
        | at_end r e i m ms ↦
            subst (λ x. Accepts (check_turn h go maybe_size hash x c)) (sym e)
              (end_turn go c r k i m ms)
        | got b bs r e i m ↦
            subst (λ x. Accepts (check_turn h go maybe_size hash x c)) (sym e)
              (chunk_turn go c b bs r k i (ap remaining_of (sym m))
                (λ c' less k'. loop-Accepts fuel c' (omega (arith, recv-turns c.rx r b bs e)) k'))
      ]

-- On a stream that its writer has ended, whose content is below 2 ^ 64 bytes and has the size and
-- the hash that are verified, with a size hint that does not contradict the digest and a receiver
-- that stays, the update forwards all of it, ends the stream and returns what the store behind
-- answers.
pub update_complete :
    (h : Hasher) (law : IsHasher h) (store : VerifyStore) (start : h.State) (inner : Inner h)
    (receiver : ℕ → Bool) (d : DigestInfo) (reader : ReadHalf) (size_info : UploadSizeInfo)
    (fuel : ℕ)
    → length (messages reader) < fuel
    → Intact reader
    → ((n : ℕ) → receiver n ≡ true)
    → length (remaining reader) < u64_mod
    → IsSize (if store.verify_size then some d.size_bytes else none) (length (remaining reader))
    → HasHash h law (hasher_of h store start) d.packed_hash (remaining reader)
    → wrong_size h store.verify_size size_info d.size_bytes ≡ false
    → (w : WriteHalf) × (update h fuel store (ok start) inner receiver (digest d) reader size_info
        ≡ some (inner d (new_reader w) size_info, w))
      × (w.eof_sent ≡ true)
      × (concat w.sent ≡ remaining reader)
unfolding update
update_complete h law store start inner receiver d reader size_info fuel l i there small sized
      hashed right =
    let maybe_size = if store.verify_size then some d.size_bytes else none in
    let hasher = hasher_of h store start in
    let (c, e, sent, whole) =
      loop-Accepts h law hasher maybe_size d.packed_hash (remaining reader) small sized hashed fuel
        (begin_check h receiver reader hasher) (omega (arith, turns_le reader))
        (record {
          consistent = record {
            tx_open = record { opened = refl; not_ended = refl };
            counted = refl;
            hashed = update_hasher-nil h law hasher;
          };
          intact = i;
          whole = refl;
          received = there;
        }) in
    (
      c.tx,
      rw right (
          ap (update_checked h fuel store inner receiver d reader size_info)
            (hasher_of-maybe_hash h store start)
          ∙ (ap (joined h inner d size_info) e
              ∙ ap (λ x. some (x, c.tx)) (merge-ok (inner d (new_reader c.tx) size_info)))),
      sent,
      whole,
    )
