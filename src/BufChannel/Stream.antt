-- ===== src/BufChannel/Stream.antt =====
-- What the reader's half has still to give, and one `recv` or `peek` of it.
use native_link.Base.{
  ℕ, true, none, List, [], ◌∷◌, ◌++◌, ◌≡◌, refl, sym, ap, ◌∙◌, Bool-cases, ◌==◌, ltb, subst,
  add_u64, ok, length, inl, inr,
}
use native_link.BufChannel.{
  ReadHalf, maybe_populate_recent_data, recv_inner, recv, push_front, peek, peeked,
}

abbrev pub messages : ReadHalf → List (List ℕ)
messages r = r.queued_data ++ r.rx

-- The bytes up to the end.
abbrev pub remaining_of : List (List ℕ) → List ℕ
remaining_of [] = []
remaining_of ([] ∷ ms) = []
remaining_of ((b ∷ bs) ∷ ms) = (b ∷ bs) ++ remaining_of ms

abbrev pub remaining : ReadHalf → List ℕ
remaining r = remaining_of (messages r)

-- The empty buffer stands last only.
abbrev pub IsStream : List (List ℕ) → Type 0
IsStream [] = Unit
IsStream ([] ∷ ms) = ms ≡ []
IsStream ((b ∷ bs) ∷ ms) = IsStream ms

-- A stream that its writer ends, and that has not failed.
pub record Intact (r : ReadHalf) : Type 0 where
  pub healthy : r.last_err ≡ none
  pub ended : r.eof_sent ≡ true
  pub stream : IsStream (messages r)

-- What `recv` does on an intact stream.
pub data Received (r : ReadHalf) : Type 0 where
  at_end :
      (r' : ReadHalf)
      → recv r ≡ (ok [], r')
      → Intact r'
      → remaining r ≡ []
      → messages r' ≡ []
      → Received r
  got :
      (b : ℕ) (bs : List ℕ) (r' : ReadHalf)
      → recv r ≡ (ok (b ∷ bs), r')
      → Intact r'
      → messages r ≡ (b ∷ bs) ∷ messages r'
      → Received r

pub populate_cases :
    (chunk : List ℕ) (r : ReadHalf)
    → (recents : List (List ℕ)) × (maybe_populate_recent_data chunk r
        ≡ record r { recent_data = recents })
unfolding maybe_populate_recent_data
populate_cases chunk r = elim (Bool-cases (r.max_recent_data_size == 0)) [
  | inl z ↦ (r.recent_data, rw z refl)
  | inr p ↦ elim (Bool-cases (ltb r.max_recent_data_size r.bytes_received)) [
    | inl l ↦ ([], rw (p, l) refl)
    | inr g ↦ (r.recent_data ++ chunk ∷ [], rw (p, g) refl)
  ]
]

-- An intact reader's half by its other fields.
abbrev pub half : List (List ℕ) → List (List ℕ) → ℕ → List (List ℕ) → ℕ → ReadHalf
half queued rx received recents size = record {
  rx = rx;
  bytes_received = received;
  eof_sent = true;
  last_err = none;
  queued_data = queued;
  recent_data = recents;
  max_recent_data_size = size;
}

after_end : (r : ReadHalf) → r.last_err ≡ none → r.eof_sent ≡ true → messages r ≡ [] → Intact r
after_end r h e m = record { healthy = h; ended = e; stream = subst IsStream (sym m) tt }

recv-half :
    (queued rx : List (List ℕ)) (received : ℕ) (recents : List (List ℕ)) (size : ℕ)
    → IsStream (queued ++ rx)
    → Received (half queued rx received recents size)
unfolding recv recv_inner
recv-half ([] ∷ queued) rx received recents size s =
    at_end (half queued rx received recents size) refl (after_end _ refl refl s) refl s
recv-half ((b ∷ bs) ∷ queued) rx received recents size s =
    got b bs (half queued rx received recents size) refl
      (record { healthy = refl; ended = refl; stream = s }) refl
recv-half [] [] received recents size s =
    let (recents', e) = populate_cases [] (half [] [] received recents size) in
    at_end (half [] [] received recents' size) (ap (λ r. (ok [], r)) e) (after_end _ refl refl refl)
      refl refl
recv-half [] ([] ∷ rx) received recents size s =
    let (recents', e) = populate_cases [] (half [] rx received recents size) in
    at_end (half [] rx received recents' size) (ap (λ r. (ok [], r)) e) (after_end _ refl refl s)
      refl s
recv-half [] ((b ∷ bs) ∷ rx) received recents size s =
    let n = add_u64 received (length (b ∷ bs)) in
    let (recents', e) = populate_cases (b ∷ bs) (half [] rx n recents size) in
    got b bs (half [] rx n recents' size) (ap (λ r. (ok (b ∷ bs), r)) e)
      (record { healthy = refl; ended = refl; stream = s }) refl

half-Intact :
    (r : ReadHalf)
    → Intact r
    → half r.queued_data r.rx r.bytes_received r.recent_data r.max_recent_data_size ≡ r
half-Intact r i =
    ap (λ e. record r { last_err = e; eof_sent = true }) (sym i.healthy)
    ∙ ap (λ e. record r { eof_sent = e }) (sym i.ended)

pub recv-Intact : (r : ReadHalf) → Intact r → Received r
recv-Intact r i =
    subst Received (half-Intact r i)
      (recv-half r.queued_data r.rx r.bytes_received r.recent_data r.max_recent_data_size i.stream)

-- What `peek` does on an intact stream: the next buffer stays, and nothing is lost.
pub data Peeked (r : ReadHalf) : Type 0 where
  end_next :
      (r' : ReadHalf)
      → peek r ≡ (ok [], r')
      → Intact r'
      → messages r' ≡ [] ∷ []
      → remaining r ≡ []
      → Peeked r
  chunk_next :
      (b : ℕ) (bs : List ℕ) (r' : ReadHalf) (ms : List (List ℕ))
      → peek r ≡ (ok (b ∷ bs), r')
      → Intact r'
      → messages r ≡ (b ∷ bs) ∷ ms
      → messages r' ≡ (b ∷ bs) ∷ ms
      → Peeked r

peek-half :
    (queued rx : List (List ℕ)) (received : ℕ) (recents : List (List ℕ)) (size : ℕ)
    → IsStream (queued ++ rx)
    → Peeked (half queued rx received recents size)
unfolding peek
peek-half ([] ∷ queued) rx received recents size s =
    end_next (half ([] ∷ queued) rx received recents size) refl
      (record { healthy = refl; ended = refl; stream = s }) (ap (λ ms. [] ∷ ms) s) refl
peek-half ((b ∷ bs) ∷ queued) rx received recents size s =
    chunk_next b bs (half ((b ∷ bs) ∷ queued) rx received recents size) (queued ++ rx) refl
      (record { healthy = refl; ended = refl; stream = s }) refl refl
peek-half [] rx received recents size s = elim (recv-half [] rx received recents size s) [
  | at_end r' e i m n ↦
      end_next (push_front [] r') (ap peeked e)
        (record { healthy = i.healthy; ended = i.ended; stream = n }) (ap (λ ms. [] ∷ ms) n) m
  | got b bs r' e i m ↦
      chunk_next b bs (push_front (b ∷ bs) r') (messages r') (ap peeked e)
        (record { healthy = i.healthy; ended = i.ended; stream = i.stream }) m refl
]

pub peek-Intact : (r : ReadHalf) → Intact r → Peeked r
peek-Intact r i =
    subst Peeked (half-Intact r i)
      (peek-half r.queued_data r.rx r.bytes_received r.recent_data r.max_recent_data_size i.stream)
