-- ===== src/BufChannel/Bind.antt =====
-- `bind_buffered`: what it forwards from a reader's half to a writer's half.
use native_link.Base.{
  ℕ, zero, suc, ◌<◌, true, false, some, List, [], ◌∷◌, ◌++◌, ◌≡◌, refl, sym, ap, ◌∙◌, arith,
  Bool-cases, ok, err, Error, Code, make_err, length, concat, concat-snoc, append-nil, inl, inr,
  ◌==◌, subst, add_u64,
}
use mathlib.Core.List.{append_assoc}
use native_link.BufChannel.{
  ReadHalf, WriteHalf, push_front, send, send_eof, Bound, bind_sent, bind_peeked, bind_turn,
  bind_buffered,
}
use native_link.BufChannel.Stream.{
  messages, remaining_of, remaining, Intact, at_end, got, recv-Intact, end_next, chunk_next,
  peek-Intact,
}
use native_link.BufChannel.Turns.{chunk_count, chunk_count_le, no_chunks}

-- An open writer's half.
pub record IsOpen (w : WriteHalf) : Type 0 where
  pub opened : w.tx ≡ true
  pub not_ended : w.eof_sent ≡ false

-- Either everything was forwarded and the stream was ended, or it was not ended, and what was
-- forwarded and what is left to read are together what there was.
pub data Forwarded (all : List ℕ) (outcome : Bound) : Type 0 where
  forwarded :
      (w : WriteHalf) (r : ReadHalf)
      → outcome ≡ some (ok tt, w, r)
      → w.eof_sent ≡ true
      → concat w.sent ≡ all
      → Forwarded all outcome
  kept :
      (e : Error) (w : WriteHalf) (r : ReadHalf)
      → outcome ≡ some (err e, w, r)
      → w.eof_sent ≡ false
      → concat w.sent ++ remaining r ≡ all
      → Forwarded all outcome

-- `send` of a chunk on an open half.
pub data Sent (chunk : List ℕ) (w : WriteHalf) : Type 0 where
  taken :
      (w' : WriteHalf)
      → send chunk w ≡ (ok tt, w')
      → IsOpen w'
      → w'.sent ≡ w.sent ++ chunk ∷ []
      → w'.receiver ≡ w.receiver
      → w.receiver (length w.sent) ≡ true
      → Sent chunk w
  refused :
      (e : Error) (w' : WriteHalf)
      → send chunk w ≡ (err e, w')
      → w'.eof_sent ≡ false
      → w'.sent ≡ w.sent
      → w.receiver (length w.sent) ≡ false
      → Sent chunk w

pub send-IsOpen : (b : ℕ) (bs : List ℕ) (w : WriteHalf) → IsOpen w → Sent (b ∷ bs) w
unfolding send
send-IsOpen b bs w i =
    let full : (length (b ∷ bs) == 0) ≡ false = ground arith in
    elim (Bool-cases (w.receiver (length w.sent))) [
      | inl there ↦
          taken
            (record w {
              bytes_written = add_u64 w.bytes_written (length (b ∷ bs));
              sent = w.sent ++ (b ∷ bs) ∷ [];
            })
            (rw (i.opened, full, there) refl)
            (record { opened = i.opened; not_ended = i.not_ended }) refl refl there
      | inr gone ↦
          refused (make_err Code.internal "Failed to write to data, receiver disconnected")
            (record w { tx = false }) (rw (i.opened, full, gone) refl) i.not_ended refl gone
    ]

pub send_eof-IsOpen :
    (w : WriteHalf) → IsOpen w → send_eof w ≡ (ok tt, record w { eof_sent = true; tx = false })
unfolding send_eof
send_eof-IsOpen w i = rw i.not_ended refl

module _ (fuel : ℕ) (all : List ℕ) where
  -- The chunk is sent, with the reader at `ms` after it.
  sent-Forwarded :
      (b : ℕ) (bs : List ℕ) (w : WriteHalf) (r : ReadHalf)
      → IsOpen w
      → concat w.sent ++ ((b ∷ bs) ++ remaining r) ≡ all
      → ((w' : WriteHalf)
          → IsOpen w'
          → concat w'.sent ++ remaining r ≡ all
          → Forwarded all (bind_buffered fuel w' r))
      → Forwarded all (bind_sent (bind_buffered fuel) (b ∷ bs) (send (b ∷ bs) w) r)
  sent-Forwarded b bs w r i whole rest = elim (send-IsOpen b bs w i) [
    | taken w' e i' sent same there ↦
        subst (λ x. Forwarded all (bind_sent (bind_buffered fuel) (b ∷ bs) x r)) (sym e)
          (rest w' i' (
            ap (λ x. concat x ++ remaining r) sent
            ∙ (ap (λ x. x ++ remaining r) (concat-snoc w.sent (b ∷ bs))
                ∙ (append_assoc (concat w.sent) (b ∷ bs) (remaining r) ∙ whole))))
    | refused x w' e n sent gone ↦
        kept _ w' (push_front (b ∷ bs) r) (ap (λ y. bind_sent (bind_buffered fuel) (b ∷ bs) y r) e)
          n (ap (λ y. concat y ++ ((b ∷ bs) ++ remaining r)) sent ∙ whole)
  ]

loop-Forwarded :
    (fuel : ℕ) (all : List ℕ) (w : WriteHalf) (r : ReadHalf)
    → IsOpen w
    → Intact r
    → chunk_count (messages r) < fuel
    → concat w.sent ++ remaining r ≡ all
    → Forwarded all (bind_buffered fuel w r)
unfolding bind_buffered
loop-Forwarded zero all w r o i f whole = absurd (omega arith)
loop-Forwarded (suc fuel) all w r o i f whole = elim (recv-Intact r i) [
  | at_end r' e i' m ms ↦
      forwarded (record w { eof_sent = true; tx = false }) r'
        (ap (λ x. bind_turn (bind_buffered fuel) x w) e ∙ rw (send_eof-IsOpen w o) refl) refl
        (sym (ap (λ x. concat w.sent ++ x) m ∙ append-nil (concat w.sent)) ∙ whole)
  | got b bs r' e i' m ↦
      let forward : (p : ReadHalf)
          → Intact p
          → remaining p ≡ remaining r'
          → chunk_count (messages p) < fuel
          → Forwarded all (bind_sent (bind_buffered fuel) (b ∷ bs) (send (b ∷ bs) w) p) =
        λ p ip same less.
          sent-Forwarded fuel all b bs w p o
            (ap (λ t. concat w.sent ++ ((b ∷ bs) ++ t)) same
              ∙ (ap (λ ms. concat w.sent ++ remaining_of ms) (sym m) ∙ whole))
            (λ w' o' kept_all. loop-Forwarded fuel all w' p o' ip less kept_all) in
      let counted = ap chunk_count m in
      subst (λ x. Forwarded all (bind_turn (bind_buffered fuel) x w)) (sym e)
        (elim (peek-Intact r' i') [
          | end_next p x ip ms n ↦
              subst (λ y. Forwarded all (bind_peeked (bind_buffered fuel) (b ∷ bs) y w)) (sym x)
                (forward p ip (ap remaining_of ms ∙ sym n)
                  (omega (arith, ap chunk_count ms, no_chunks (messages r') n)))
          | chunk_next d ds p ms x ip before after ↦
              subst (λ y. Forwarded all (bind_peeked (bind_buffered fuel) (b ∷ bs) y w)) (sym x)
                (forward p ip (ap remaining_of (after ∙ sym before))
                  (omega (arith, ap chunk_count (after ∙ sym before))))
        ])
]

-- From a stream that its writer has ended to an open writer, bind_buffered either forwards every
-- byte in order and ends the stream, or fails without ending it, and what it forwarded and what is
-- left to read are together what there was; fuel above the number of buffers is enough.
pub bind_buffered-Forwarded :
    (w : WriteHalf) (r : ReadHalf) (fuel : ℕ)
    → IsOpen w
    → Intact r
    → length (messages r) < fuel
    → Forwarded (concat w.sent ++ remaining r) (bind_buffered fuel w r)
bind_buffered-Forwarded w r fuel o i f =
    loop-Forwarded fuel (concat w.sent ++ remaining r) w r o i
      (omega (arith, chunk_count_le (messages r))) refl
