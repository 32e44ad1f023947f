-- ===== src/BufChannel/Loop.antt =====
-- The loop of `consume`: what it adds to its output, and what it leaves to be read.
use native_link.Base.{
  subst, ℕ, zero, suc, ◌+◌, ◌-◌, ◌≤◌, ◌<◌, true, false, Option, some, List, [], ◌∷◌, ◌++◌, ◌≡◌,
  refl, sym, ap, ◌∙◌, arith, Bool-cases, Result, ok, length, append-nil, inl, inr, ltb, ◌==◌, take,
  drop, take_nil, drop_nil, take-append_le, drop-append_le, take-append_ge, drop-append_ge,
  length-take, length-drop, length-append,
}
use mathlib.Core.List.{append_assoc}
use native.Mathlib.Decide.{dec_le}
use native_link.BufChannel.{ReadHalf, push_front, consume_loop, consume_turn}
use native_link.BufChannel.Stream.{
  messages, remaining_of, remaining, IsStream, Intact, at_end, got, recv-Intact,
}

-- The outcome of reading `size` more bytes after those of `output`.
pub record Gives (size : ℕ) (output : List ℕ) (r : ReadHalf)
    (outcome : Option (Result (List ℕ) × ReadHalf)) : Type 0 where
  pub after : ReadHalf
  pub given : outcome ≡ some (ok (output ++ take size (remaining r)), after)
  pub intact : Intact after
  pub left : remaining after ≡ drop size (remaining r)

remaining-full :
    (c : List ℕ) (ms : List (List ℕ)) → 0 < length c → remaining_of (c ∷ ms) ≡ c ++ remaining_of ms
remaining-full [] ms l = absurd (omega arith)
remaining-full (b ∷ bs) ms l = refl

IsStream-full : (c : List ℕ) (ms : List (List ℕ)) → 0 < length c → IsStream ms → IsStream (c ∷ ms)
IsStream-full [] ms l s = absurd (omega arith)
IsStream-full (b ∷ bs) ms l s = s

push-Intact : (c : List ℕ) (r : ReadHalf) → 0 < length c → Intact r → Intact (push_front c r)
push-Intact c r l i = record {
  healthy = i.healthy;
  ended = i.ended;
  stream = IsStream-full c (messages r) l i.stream;
}

-- One chunk too long for what is wanted: it is split.
pub split_chunk :
    (size : ℕ) (c : List ℕ) (r r' : ReadHalf)
    → size < length c
    → Intact r'
    → remaining r ≡ c ++ remaining r'
    → (take size (remaining r) ≡ take size c)
      × Intact (push_front (drop size c) r')
      × (remaining (push_front (drop size c) r') ≡ drop size (remaining r))
split_chunk size c r r' l i m =
    let full : 0 < length (drop size c) = omega (arith, length-drop size c) in
    let le : size ≤ length c = omega arith in
    (
      ap (take size) m ∙ take-append_le size c (remaining r') le,
      push-Intact (drop size c) r' full i,
      remaining-full (drop size c) (messages r') full
          ∙ (sym (drop-append_le size c (remaining r') le) ∙ ap (drop size) (sym m)),
    )

-- One chunk that is wanted whole.
pub whole_chunk :
    (size : ℕ) (c output : List ℕ) (r r' : ReadHalf)
    → length c ≤ size
    → remaining r ≡ c ++ remaining r'
    → ((output ++ c) ++ take (size - length c) (remaining r') ≡ output ++ take size (remaining r))
      × (drop (size - length c) (remaining r') ≡ drop size (remaining r))
whole_chunk size c output r r' le m = (
  append_assoc output c (take (size - length c) (remaining r'))
      ∙ ap (λ u. output ++ u)
          (sym (take-append_ge size c (remaining r') le) ∙ ap (take size) (sym m)),
  sym (drop-append_ge size c (remaining r') le) ∙ ap (drop size) (sym m),
)

module _ (size : ℕ) (output : List ℕ)
    (rest : List ℕ → ReadHalf → Option (Result (List ℕ) × ReadHalf)) (r r' : ReadHalf) (b : ℕ)
    (bs : List ℕ) (i : Intact r') (whole : remaining r ≡ (b ∷ bs) ++ remaining r') where
  abbrev c : List ℕ
  c = b ∷ bs

  abbrev k : ℕ
  k = size - length output

  -- A turn on a chunk of which only a part is wanted.
  part_turn :
      k < length c
      → length output < size
      → Gives k output r (consume_turn size output rest (ok c, r'))
  part_turn long l =
      let (t, p, q) = split_chunk k c r r' long i whole in
      let over : ltb size (length output + length c) ≡ true = ground arith in
      let done : (length (output ++ take k c) == size) ≡ true =
        ground (arith, length-append output (take k c), length-take k c) in
      record {
        after = push_front (drop k c) r';
        given =
            rw (over, done) (ap (λ u. some (ok (output ++ u), push_front (drop k c) r')) (sym t));
        intact = p;
        left = q;
      }

  -- A turn on a chunk that is wanted whole: it is the last one, or the loop goes on.
  whole_turn :
      length c ≤ k
      → length output < size
      → (length (output ++ c) < size
          → Gives (size - length (output ++ c)) (output ++ c) r' (rest (output ++ c) r'))
      → Gives k output r (consume_turn size output rest (ok c, r'))
  whole_turn short l go =
      let over : ltb size (length output + length c) ≡ false = ground arith in
      let (taken, dropped) = whole_chunk k c output r r' short whole in
      let len = length-append output c in
      elim (Bool-cases (length (output ++ c) == size)) [
        | inl full ↦
            let zero_left : k - length c ≡ 0 = ground (arith, len) in
            record {
              after = r';
              given =
                  rw (over, full)
                    (ap (λ u. some (ok u, r'))
                      (sym (append-nil (output ++ c))
                        ∙ (ap (λ n. (output ++ c) ++ take n (remaining r')) (sym zero_left)
                            ∙ taken)));
              intact = i;
              left = ap (λ n. drop n (remaining r')) (sym zero_left) ∙ dropped;
            }
        | inr more ↦
            let next = go (ground (arith, len)) in
            let same : size - length (output ++ c) ≡ k - length c = omega (arith, len) in
            record {
              after = next.after;
              given =
                  rw (over, more)
                    (next.given
                      ∙ ap (λ u. some (ok u, next.after))
                          (ap (λ n. (output ++ c) ++ take n (remaining r')) same ∙ taken));
              intact = next.intact;
              left = next.left ∙ (ap (λ n. drop n (remaining r')) same ∙ dropped);
            }
      ]

pub loop-Gives :
    (fuel size : ℕ) (output : List ℕ) (r : ReadHalf)
    → Intact r
    → length (messages r) < fuel
    → length output < size
    → Gives (size - length output) output r (consume_loop fuel size output r)
unfolding consume_loop
loop-Gives zero size output r i f l = absurd (omega arith)
loop-Gives (suc fuel) size output r i f l =
    let n = size - length output in
    let go = consume_loop fuel size in
    elim (recv-Intact r i) [
      | at_end r' e i' z m ↦ record {
        after = r';
        given =
            ap (consume_turn size output go) e
            ∙ (ap (λ t. some (ok t, r'))
                (sym (append-nil output)
                  ∙ ap (λ t. output ++ t) (sym (ap (take n) z ∙ take_nil n))));
        intact = i';
        left = ap remaining_of m ∙ sym (ap (drop n) z ∙ drop_nil n);
      }
      | got b bs r' e i' m ↦
          let whole = ap remaining_of m in
          subst (λ x. Gives n output r (consume_turn size output go x)) (sym e)
            (elim (dec_le (length (b ∷ bs)) n) [
              | no long ↦ part_turn size output go r r' b bs i' whole (omega arith) l
              | yes short ↦
                  whole_turn size output go r r' b bs i' whole short l
                    (loop-Gives fuel size (output ++ b ∷ bs) r' i' (omega (arith, ap length m)))
            ])
    ]
