-- ===== src/VerifyStore/Checks.antt =====
-- `update` of the verifying store on any stream: it comes to an end, and it ends the stream that it
-- forwards only when what it forwarded has the size and the hash that were asked for.
use native_link.Base.{
  ℕ, zero, suc, ◌≤◌, ◌<◌, Bool, true, false, Option, none, some, List, [], ◌∷◌, ◌≡◌, refl, sym, ap,
  ◌∙◌, subst, arith, inl, inr, Bool-cases, if◌then◌else◌, Result, ok, err, Error, err_tip, merge,
  merge_error, length, concat, add_u64,
}
use native_link.ActionMessages.{DigestInfo}
use native_link.SizePartitioningStore.{digest, UploadSizeInfo}
use native_link.BufChannel.{ReadHalf, WriteHalf, recv, send, new_writer, new_reader}
use native_link.BufChannel.Stream.{messages}
use native_link.BufChannel.Turns.{turns, turns_le, recv-turns}
use native_link.BufChannel.Bind.{taken, refused, send-IsOpen}
use native_link.VerifyStore.{
  VerifyStore, Hasher, Check, Checked, check_size, check_hash, check_end, after_send, forward,
  check_turn, inner_check_update, begin_check, Inner, update, update_hasher, wrong_size,
  wrong_exact_size, maybe_hash, joined, update_checked,
}
use native_link.VerifyStore.Outcome.{
  IsHasher, HasSize, HasHash, Consistent, Outcome, accepted, rejected, check_sum-rx, end-Outcome,
  sent-Consistent, update_hasher-nil,
}

module _ (h : Hasher) (law : IsHasher h) where
  module _ (maybe_size : Option ℕ) (hash : ℕ) (start : Option h.State) where
    abbrev Ends : Option (Checked h) → Type 0
    Ends run = (o : Checked h) × (run ≡ some o) × Outcome h law maybe_size hash start o

    -- What is sent on, or refused.
    send-Ends :
        (fuel : ℕ) (b : ℕ) (bs : List ℕ) (c : Check h) (r : ReadHalf)
        → Consistent h law start c
        → ((c' : Check h)
            → c'.rx ≡ r
            → Consistent h law start c'
            → Ends (inner_check_update h fuel maybe_size hash c'))
        → Ends (
            after_send h
              (inner_check_update h fuel maybe_size hash)
              (b ∷ bs)
              (send (b ∷ bs) c.tx)
              (record c { rx = r; sum_size = add_u64 c.sum_size (length (b ∷ bs)) }))
    send-Ends fuel b bs c r k rest =
        let c1 = record c { rx = r; sum_size = add_u64 c.sum_size (length (b ∷ bs)) } in
        elim (send-IsOpen b bs c.tx k.tx_open) [
          | taken w e o sent same there ↦
              subst
                (λ x. Ends (after_send h (inner_check_update h fuel maybe_size hash) (b ∷ bs) x c1))
                (sym e)
                (rest (record c1 { tx = w; maybe_hasher = update_hasher h (b ∷ bs) c.maybe_hasher })
                  refl (sent-Consistent h law start c (b ∷ bs) r w k o sent))
          | refused x w e not_ended sent gone ↦
              subst
                (λ y. Ends (after_send h (inner_check_update h fuel maybe_size hash) (b ∷ bs) y c1))
                (sym e) (_, refl, rejected _ refl not_ended)
        ]

    -- After a buffer, and what `check_sum` made of it.
    forward-Ends :
        (fuel : ℕ) (chunk : List ℕ) (c : Check h) (r : ReadHalf) (res : Result (Unit {0}))
        → Consistent h law start c
        → (0 < length chunk
            → (c' : Check h) → c'.rx ≡ r
            → Consistent h law start c'
            → Ends (inner_check_update h fuel maybe_size hash c'))
        → Ends (
            forward h
              (inner_check_update h fuel maybe_size hash)
              maybe_size
              hash
              chunk
              (res, record c { rx = r; sum_size = add_u64 c.sum_size (length chunk) }))
    forward-Ends fuel chunk c r (err e) k rest = (
      (err e, record c { rx = r; sum_size = add_u64 c.sum_size (length chunk) }),
      refl,
      rejected e refl k.tx_open.not_ended,
    )
    forward-Ends fuel [] c r (ok done) k rest =
        let c1 = record c { rx = r; sum_size = add_u64 c.sum_size 0 } in
        (
          check_end h (check_size h maybe_size c1.sum_size) (check_hash h hash c1.maybe_hasher) c1,
          refl,
          end-Outcome h law maybe_size hash start c1 (record {
            tx_open = k.tx_open;
            counted = omega (arith, k.counted);
            hashed = k.hashed;
          }),
        )
    forward-Ends fuel (b ∷ bs) c r (ok done) k rest = send-Ends fuel b bs c r k (rest (omega arith))

    -- `check_turn` on what was received.
    turn-Ends :
        (fuel : ℕ) (c : Check h) (received : Result (List ℕ)) (r : ReadHalf)
        → recv c.rx ≡ (received, r)
        → turns c.rx < suc fuel
        → Consistent h law start c
        → ((c' : Check h)
            → turns c'.rx < fuel
            → Consistent h law start c'
            → Ends (inner_check_update h fuel maybe_size hash c'))
        → Ends (
            check_turn h
              (inner_check_update h fuel maybe_size hash)
              maybe_size
              hash
              (received, r)
              c)
    turn-Ends fuel c (err e) r got l k rest = (
      (err_tip (err e) "Failed to read chunk in check_update in verify store", record c { rx = r }),
      refl,
      rejected _ refl k.tx_open.not_ended,
    )
    turn-Ends fuel c (ok chunk) r got l k rest =
        let c1 = record c { rx = r; sum_size = add_u64 c.sum_size (length chunk) } in
        let (res, r2, e, less) = check_sum-rx h law maybe_size c1 in
        subst
          (λ x.
            Ends (forward h (inner_check_update h fuel maybe_size hash) maybe_size hash chunk x))
          (sym e)
          (forward-Ends fuel chunk c r2 res k (λ full c' same k'.
            rest c' (fewer chunk r2 (turns c'.rx) got full less (ap turns same)) k'))
      where
        fewer :
            (chunk : List ℕ) (r2 : ReadHalf) (n : ℕ)
            → recv c.rx ≡ (ok chunk, r)
            → 0 < length chunk
            → turns r2 ≤ turns r
            → n ≡ turns r2
            → n < fuel
        fewer [] r2 n got full less same = absurd (omega arith)
        fewer (b ∷ bs) r2 n got full less same = omega (arith, recv-turns c.rx r b bs got)

    pub loop-Ends :
        (fuel : ℕ) (c : Check h)
        → turns c.rx < fuel
        → Consistent h law start c
        → Ends (inner_check_update h fuel maybe_size hash c)
    unfolding inner_check_update
    loop-Ends zero c l k = absurd (omega arith)
    loop-Ends (suc fuel) c l k =
        turn-Ends fuel c (recv c.rx).0 (recv c.rx).1 refl l k (loop-Ends fuel)

-- The hasher of a call: none when the hash is not verified.
abbrev pub hasher_of : (h : Hasher) → VerifyStore → h.State → Option h.State
hasher_of h store start = if store.verify_hash then some start else none

-- What a call of `update` with a digest, in the end, has done with the stream behind.
pub data Verified (h : Hasher) (law : IsHasher h) (store : VerifyStore) (start : h.State)
    (d : DigestInfo) (inner : ReadHalf → Result (Unit {0}))
    (outcome : Option (Result (Unit {0}) × WriteHalf)) : Type 0 where
  ended :
      (w : WriteHalf)
      → outcome ≡ some (inner (new_reader w), w)
      → w.eof_sent ≡ true
      → HasSize (if store.verify_size then some d.size_bytes else none) (concat w.sent)
      → HasHash h law (hasher_of h store start) d.packed_hash (concat w.sent)
      → Verified h law store start d inner outcome
  not_ended :
      (e : Error) (w : WriteHalf)
      → outcome ≡ some (err e, w)
      → w.eof_sent ≡ false
      → Verified h law store start d inner outcome

pub merge-ok : (x : Result (Unit {0})) → merge x (ok tt) ≡ x
unfolding merge
merge-ok (ok tt) = refl
merge-ok (err e) = refl

merge-err :
    (x : Result (Unit {0})) (e : Error) → (f : Error) × (merge {B = Unit {0}} x (err e) ≡ err f)
unfolding merge
merge-err (ok tt) e = (e, refl)
merge-err (err f) e = (merge_error f e, refl)

pub hasher_of-maybe_hash :
    (h : Hasher) (store : VerifyStore) (start : h.State)
    → maybe_hash h store.verify_hash (ok start) ≡ ok (hasher_of h store start)
hasher_of-maybe_hash h store start = elim (Bool-cases store.verify_hash) [
  | inl e ↦ rw e refl
  | inr e ↦ rw e refl
]

-- On any stream, whole or broken, and with any store behind, the update of a digest comes to an
-- end with fuel above the number of buffers, and either the stream to the store behind is ended,
-- its content has the size (modulo 2 ^ 64) and the hash that are verified, and the result is that
-- store's own, or the stream is not ended and the result is an error; the hasher gives the same
-- hash however its input is cut.
pub update-Verified :
    (h : Hasher) (law : IsHasher h) (store : VerifyStore) (start : h.State) (inner : Inner h)
    (receiver : ℕ → Bool) (d : DigestInfo) (reader : ReadHalf) (size_info : UploadSizeInfo)
    (fuel : ℕ)
    → length (messages reader) < fuel
    → Verified h law store start d
        (λ r. inner d r size_info)
        (update h fuel store (ok start) inner receiver (digest d) reader size_info)
unfolding update
update-Verified h law store start inner receiver d reader size_info fuel l =
    let maybe_size = if store.verify_size then some d.size_bytes else none in
    let answer = λ (r : ReadHalf). inner d r size_info in
    let hasher = hasher_of h store start in
    let opened : Consistent h law hasher (begin_check h receiver reader hasher) = record {
      tx_open = record { opened = refl; not_ended = refl };
      counted = refl;
      hashed = update_hasher-nil h law hasher;
    } in
    elim (Bool-cases (wrong_size h store.verify_size size_info d.size_bytes)) [
      | inl wrong ↦ not_ended wrong_exact_size (new_writer receiver) (rw wrong refl) refl
      | inr right ↦
          let run = hasher_of-maybe_hash h store start in
          let (o, e, outcome) =
            loop-Ends h law maybe_size d.packed_hash hasher fuel
              (begin_check h receiver reader hasher) (omega (arith, turns_le reader)) opened in
          let done =
            ap (update_checked h fuel store inner receiver d reader size_info) run
            ∙ ap (joined h inner d size_info) e in
          elim outcome [
            | accepted fine sent sized hashed ↦
                ended o.1.tx
                  (rw right (
                    done
                    ∙ ap (λ x. some (x, o.1.tx))
                        (ap (merge (answer (new_reader o.1.tx))) fine
                          ∙ merge-ok (answer (new_reader o.1.tx)))))
                  sent sized hashed
            | rejected x bad kept ↦
                let (f, m) = merge-err (answer (new_reader o.1.tx)) x in
                not_ended f o.1.tx
                  (rw right (
                    done
                    ∙ ap (λ y. some (y, o.1.tx)) (ap (merge (answer (new_reader o.1.tx))) bad ∙ m)))
                  kept
          ]
    ]
