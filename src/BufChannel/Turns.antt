-- ===== src/BufChannel/Turns.antt =====
-- How many buffers a reader can still get, on any stream.
use native_link.Base.{
  ℕ, suc, ◌≤◌, ◌<◌, true, false, Option, none, some, List, [], ◌∷◌, ◌≡◌, refl, ap, arith,
  Option-cases, Bool, Error, add_u64, ok, length, inl, inr,
}
use native_link.BufChannel.{
  ReadHalf, maybe_populate_recent_data, recv_inner, recv, push_front, peek,
}
use native_link.BufChannel.Stream.{messages, remaining_of, populate_cases}

-- The chunks before the end.
abbrev pub chunk_count : List (List ℕ) → ℕ
chunk_count [] = 0
chunk_count ([] ∷ ms) = 0
chunk_count ((b ∷ bs) ∷ ms) = suc (chunk_count ms)

pub chunk_count_le : (ms : List (List ℕ)) → chunk_count ms ≤ length ms
chunk_count_le [] = omega arith
chunk_count_le ([] ∷ ms) = omega arith
chunk_count_le ((b ∷ bs) ∷ ms) = omega (arith, chunk_count_le ms)

pub no_chunks : (ms : List (List ℕ)) → remaining_of ms ≡ [] → chunk_count ms ≡ 0
no_chunks [] e = refl
no_chunks ([] ∷ ms) e = refl
no_chunks ((b ∷ bs) ∷ ms) e = cc e

-- The chunks that a reader can still get.
abbrev pub turns : ReadHalf → ℕ
turns r = elim r.last_err [ some e ↦ 0 | none ↦ chunk_count (messages r) ]

pub turns_le : (r : ReadHalf) → turns r ≤ length (messages r)
turns_le r = elim (Option-cases r.last_err) [
  | inl e ↦ rw e (chunk_count_le (messages r))
  | inr (x, e) ↦ rw e (omega arith)
]

populate-turns :
    (chunk : List ℕ) (r : ReadHalf) → turns (maybe_populate_recent_data chunk r) ≡ turns r
populate-turns chunk r = let (recents, e) = populate_cases chunk r in ap turns e

populate-push :
    (chunk : List ℕ) (r : ReadHalf)
    → turns (push_front chunk (maybe_populate_recent_data chunk r)) ≡ turns (push_front chunk r)
populate-push chunk r =
    let (recents, e) = populate_cases chunk r in ap (λ x. turns (push_front chunk x)) e

-- Any reader's half by its fields.
abbrev any_half :
    Option Error → Bool → List (List ℕ) → List (List ℕ) → ℕ → List (List ℕ) → ℕ → ReadHalf
any_half last_err eof_sent queued rx received recents size = record {
  rx = rx;
  bytes_received = received;
  eof_sent = eof_sent;
  last_err = last_err;
  queued_data = queued;
  recent_data = recents;
  max_recent_data_size = size;
}

recv-turns_of :
    (le : Option Error) (eof : Bool) (queued rx : List (List ℕ)) (n : ℕ) (recents : List (List ℕ))
    (size : ℕ) (r' : ReadHalf) (b : ℕ) (bs : List ℕ)
    → recv (any_half le eof queued rx n recents size) ≡ (ok (b ∷ bs), r')
    → turns r' < turns (any_half le eof queued rx n recents size)
unfolding recv recv_inner
recv-turns_of (some x) eof queued rx n recents size r' b bs e = let g = ap (λ x. x.0) e in absurd cc
recv-turns_of none eof ([] ∷ queued) rx n recents size r' b bs e =
    let g = ap (λ x. x.0) e in absurd cc
recv-turns_of none eof ((d ∷ ds) ∷ queued) rx n recents size r' b bs e =
    omega (arith, ap (λ x. turns x.1) e)
recv-turns_of none true [] [] n recents size r' b bs e = let g = ap (λ x. x.0) e in absurd cc
recv-turns_of none false [] [] n recents size r' b bs e = let g = ap (λ x. x.0) e in absurd cc
recv-turns_of none true [] ([] ∷ rx) n recents size r' b bs e = let g = ap (λ x. x.0) e in absurd cc
recv-turns_of none false [] ([] ∷ rx) n recents size r' b bs e =
    let g = ap (λ x. x.0) e in absurd cc
recv-turns_of none eof [] ((d ∷ ds) ∷ rx) n recents size r' b bs e = omega (
  arith,
  ap (λ x. turns x.1) e,
  populate-turns (d ∷ ds) (any_half none eof [] rx (add_u64 n (length (d ∷ ds))) recents size),
)

-- On any stream, a `recv` that gives bytes leaves less, and a `peek` leaves no more.
pub recv-turns :
    (r r' : ReadHalf) (b : ℕ) (bs : List ℕ) → recv r ≡ (ok (b ∷ bs), r') → turns r' < turns r
recv-turns r =
    recv-turns_of r.last_err r.eof_sent r.queued_data r.rx r.bytes_received r.recent_data
      r.max_recent_data_size

peek-turns_of :
    (le : Option Error) (eof : Bool) (queued rx : List (List ℕ)) (n : ℕ) (recents : List (List ℕ))
    (size : ℕ)
    → turns (peek (any_half le eof queued rx n recents size)).1
      ≤ turns (any_half le eof queued rx n recents size)
unfolding peek recv recv_inner
peek-turns_of le eof (c ∷ queued) rx n recents size = omega arith
peek-turns_of (some x) eof [] rx n recents size = omega arith
peek-turns_of none true [] [] n recents size =
    omega (arith, populate-push [] (any_half none true [] [] n recents size))
peek-turns_of none false [] [] n recents size = omega arith
peek-turns_of none true [] ([] ∷ rx) n recents size =
    omega (arith, populate-push [] (any_half none true [] rx n recents size))
peek-turns_of none false [] ([] ∷ rx) n recents size = omega arith
peek-turns_of none eof [] ((d ∷ ds) ∷ rx) n recents size = omega (
  arith,
  populate-push (d ∷ ds) (any_half none eof [] rx (add_u64 n (length (d ∷ ds))) recents size),
)

pub peek-turns : (r : ReadHalf) → turns (peek r).1 ≤ turns r
peek-turns r =
    peek-turns_of r.last_err r.eof_sent r.queued_data r.rx r.bytes_received r.recent_data
      r.max_recent_data_size
