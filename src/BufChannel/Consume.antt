-- ===== src/BufChannel/Consume.antt =====
-- `consume`: what it returns, and what it leaves to be read.
use native_link.Base.{
  ℕ, ◌-◌, ◌≤◌, ◌<◌, true, false, Option, some, List, [], ◌∷◌, ◌++◌, ◌≡◌, sym, ap, ◌∙◌, arith,
  Bool-cases, ok, length, append-nil, inl, inr, ◌⊎◌, ltb, ◌==◌, take, drop, take_nil, drop_nil,
}
use native.Mathlib.Decide.{dec_le}
use native_link.BufChannel.{
  ReadHalf, peek, push_front, consume, consume_first, unwrap_size, check_eof,
}
use native_link.BufChannel.Stream.{
  messages, remaining_of, remaining, Intact, at_end, got, recv-Intact, end_next, chunk_next,
  peek-Intact,
}
use native_link.BufChannel.Loop.{Gives, split_chunk, whole_chunk, loop-Gives}

-- A chunk that ends what is wanted: the whole stream, or all of `size` bytes.
ends_here :
    (size : ℕ) (c : List ℕ) (r r' : ReadHalf)
    → length c ≤ size
    → remaining r ≡ c ++ remaining r'
    → (remaining r' ≡ []) ⊎ (size ≡ length c)
    → (take size (remaining r) ≡ c) × (drop size (remaining r) ≡ remaining r')
ends_here size c r r' le m (inl n) =
    let (taken, dropped) = whole_chunk size c [] r r' le m in
    (
      sym taken
          ∙ (ap (λ t. c ++ take (size - length c) t) n
              ∙ (ap (λ t. c ++ t) (take_nil (size - length c)) ∙ append-nil c)),
      sym dropped ∙ (ap (drop (size - length c)) n ∙ (drop_nil (size - length c) ∙ sym n)),
    )
ends_here size c r r' le m (inr e) =
    let (taken, dropped) = whole_chunk size c [] r r' le m in
    let z : size - length c ≡ 0 = omega (arith, e) in
    (
      sym taken ∙ (ap (λ k. c ++ take k (remaining r')) z ∙ append-nil c),
      sym dropped ∙ ap (λ k. drop k (remaining r')) z,
    )

check_eof-Gives :
    (fuel size : ℕ) (c : List ℕ) (r r' : ReadHalf)
    → length c ≤ size
    → remaining r ≡ c ++ remaining r'
    → Intact r'
    → length (messages r') < fuel
    → Gives size [] r (check_eof fuel size c (peek r'))
check_eof-Gives fuel size c r r' le m i f = elim (peek-Intact r' i) [
  | end_next p e i' ms n ↦
      let (t, d) = ends_here size c r r' le m (inl n) in
      record {
        after = p;
        given = ap (check_eof fuel size c) e ∙ ap (λ u. some (ok u, p)) (sym t);
        intact = i';
        left = ap remaining_of ms ∙ (sym n ∙ sym d);
      }
  | chunk_next b bs p ms e i' before after ↦
      let same : remaining p ≡ remaining r' = ap remaining_of (after ∙ sym before) in
      elim (Bool-cases (length c == size)) [
        | inl full ↦
            let (t, d) = ends_here size c r r' le m (inr (ground arith)) in
            record {
              after = p;
              given = ap (check_eof fuel size c) e ∙ rw full (ap (λ u. some (ok u, p)) (sym t));
              intact = i';
              left = same ∙ sym d;
            }
        | inr more ↦
            let below : length c < size = ground arith in
            let (taken, dropped) = whole_chunk size c [] r r' le m in
            let rest =
              loop-Gives fuel size c p i' (omega (arith, ap length (after ∙ sym before))) below in
            record {
              after = rest.after;
              given =
                  ap (check_eof fuel size c) e
                  ∙ rw more (
                      rest.given
                      ∙ ap (λ u. some (ok u, rest.after))
                          (ap (λ u. c ++ take (size - length c) u) same ∙ taken));
              intact = rest.intact;
              left = rest.left ∙ (ap (drop (size - length c)) same ∙ dropped);
            }
      ]
]

-- On a stream that its writer has ended, consume returns exactly the first bytes that were asked
-- for, or all there are when there are fewer, and leaves the rest to be read, however the bytes
-- are cut into buffers and wherever a buffer has to be split; fuel above the number of buffers is
-- enough.
pub consume-Gives :
    (size : Option ℕ) (r : ReadHalf) (fuel : ℕ)
    → Intact r
    → length (messages r) < fuel
    → Gives (unwrap_size size) [] r (consume fuel size r)
unfolding consume
consume-Gives size r fuel i f =
    let n = unwrap_size size in
    elim (recv-Intact r i) [
      | at_end r' e i' m ms ↦ record {
        after = r';
        given =
            ap (consume_first fuel n) e
            ∙ ap (λ t. some (ok t, r')) (sym (ap (take n) m ∙ take_nil n));
        intact = i';
        left = ap remaining_of ms ∙ sym (ap (drop n) m ∙ drop_nil n);
      }
      | got b bs r' e i' m ↦
          let c : List ℕ = b ∷ bs in
          let whole : remaining r ≡ c ++ remaining r' = ap remaining_of m in
          elim (dec_le (length c) n) [
            | no long ↦
                let (t, p, q) = split_chunk n c r r' (omega arith) i' whole in
                let over : ltb n (length c) ≡ true = ground arith in
                record {
                  after = push_front (drop n c) r';
                  given =
                      ap (consume_first fuel n) e
                      ∙ rw over (ap (λ u. some (ok u, push_front (drop n c) r')) (sym t));
                  intact = p;
                  left = q;
                }
            | yes short ↦
                let over : ltb n (length c) ≡ false = ground arith in
                let rest =
                  check_eof-Gives fuel n c r r' short whole i' (omega (arith, ap length m)) in
                record {
                  after = rest.after;
                  given = ap (consume_first fuel n) e ∙ rw over rest.given;
                  intact = rest.intact;
                  left = rest.left;
                }
          ]
    ]
