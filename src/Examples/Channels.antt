-- ===== src/Examples/Channels.antt =====
-- A channel that carries six bytes in three buffers, and the verifying store behind it.
use native_link.Base.{ℕ, ◌+◌, true, false, some, List, [], ◌∷◌, ◌++◌, ◌≡◌, refl, arith, ok, concat}
use native_link.ActionMessages.{DigestInfo}
use native_link.SizePartitioningStore.{digest, exact_size}
use native_link.BufChannel.{
  ReadHalf, WriteHalf, new_reader, new_writer, consume, peek, recv, recv_inner,
  maybe_populate_recent_data, try_reset_stream, bind_buffered,
}
use native_link.BufChannel.Stream.{remaining, Intact}
use native_link.BufChannel.Loop.{Gives}
use native_link.BufChannel.Consume.{consume-Gives}
use native_link.BufChannel.Reset.{
  Reads, opened, reads, reader_of, Reads-try_reset_stream, peek-try_reset_stream,
}
use native_link.BufChannel.Bind.{Forwarded, bind_buffered-Forwarded}
use native_link.VerifyStore.{VerifyStore, Hasher, update}
use native_link.VerifyStore.Outcome.{IsHasher}
use native_link.VerifyStore.Checks.{Verified, update-Verified}
use native_link.VerifyStore.Complete.{update_complete}

abbrev six_bytes : WriteHalf
six_bytes = record {
  tx = false;
  bytes_written = 6;
  eof_sent = true;
  sent = (1 ∷ 2 ∷ []) ∷ (3 ∷ []) ∷ (4 ∷ 5 ∷ 6 ∷ []) ∷ [];
  receiver = λ n. true;
}

abbrev six_reader : ReadHalf
six_reader = new_reader six_bytes

six_reader-Intact : Intact six_reader
six_reader-Intact = record { healthy = refl; ended = refl; stream = tt }

consume-Gives_example : Gives 4 [] six_reader (consume 5 (some 4) six_reader)
consume-Gives_example = consume-Gives (some 4) six_reader 5 six_reader-Intact (omega arith)

abbrev after_two : ReadHalf
after_two = (recv (recv (reader_of six_bytes 16)).1).1

two-Reads : Reads (reader_of six_bytes 16) ((1 ∷ 2 ∷ []) ∷ (3 ∷ []) ∷ []) after_two
unfolding recv recv_inner maybe_populate_recent_data
two-Reads =
    reads (3 ∷ []) after_two (reads (1 ∷ 2 ∷ []) (recv (reader_of six_bytes 16)).1 opened refl) refl

Reads-try_reset_stream_example :
    ((try_reset_stream after_two).0 ≡ ok tt)
    × (remaining (try_reset_stream after_two).1 ≡ 1 ∷ 2 ∷ 3 ∷ 4 ∷ 5 ∷ 6 ∷ [])
Reads-try_reset_stream_example =
    Reads-try_reset_stream six_bytes 16 after_two ((1 ∷ 2 ∷ []) ∷ (3 ∷ []) ∷ []) refl tt
      (omega arith) (omega arith) two-Reads

abbrev peeked_reader : ReadHalf
peeked_reader = (peek (reader_of six_bytes 16)).1

peek-try_reset_stream_example :
    ((try_reset_stream peeked_reader).0 ≡ ok tt)
    × (remaining (try_reset_stream peeked_reader).1 ≡ 1 ∷ 2 ∷ 1 ∷ 2 ∷ 3 ∷ 4 ∷ 5 ∷ 6 ∷ [])
peek-try_reset_stream_example =
    peek-try_reset_stream six_bytes 16 1 (2 ∷ []) ((3 ∷ []) ∷ (4 ∷ 5 ∷ 6 ∷ []) ∷ []) refl
      (omega arith) (omega arith)

bind_buffered-Forwarded_example :
    Forwarded (1 ∷ 2 ∷ 3 ∷ 4 ∷ 5 ∷ 6 ∷ []) (bind_buffered 5 (new_writer (λ n. true)) six_reader)
bind_buffered-Forwarded_example =
    bind_buffered-Forwarded (new_writer (λ n. true)) six_reader 5
      (record { opened = refl; not_ended = refl }) six_reader-Intact (omega arith)

abbrev checksum : ℕ → List ℕ → ℕ
checksum s [] = s
checksum s (b ∷ bs) = checksum (s + b) bs

abbrev adder : Hasher
adder = record { State = ℕ; update = checksum; hash = λ s. s }

checksum-append : (s : ℕ) (a b : List ℕ) → checksum (checksum s a) b ≡ checksum s (a ++ b)
checksum-append s [] b = refl
checksum-append s (x ∷ a) b = checksum-append (s + x) a b

adder-IsHasher : IsHasher adder
adder-IsHasher = record { update_append = checksum-append; update_nil = λ s. refl }

abbrev checking : VerifyStore
checking = record { verify_size = true; verify_hash = true }

abbrev six_digest : DigestInfo
six_digest = record { packed_hash = 21; size_bytes = 6 }

abbrev other_digest : DigestInfo
other_digest = record { packed_hash = 22; size_bytes = 6 }

update-Verified_example :
    Verified adder adder-IsHasher checking 0 other_digest
      (λ r. ok tt)
      (update adder 5 checking
        (ok 0)
        (λ d r size_info. ok tt)
        (λ n. true)
        (digest other_digest)
        six_reader
        (exact_size 6))
update-Verified_example =
    update-Verified adder adder-IsHasher checking 0 (λ d r size_info. ok tt) (λ n. true)
      other_digest six_reader (exact_size 6) 5 (omega arith)

update_complete_example :
    (w : WriteHalf) × (update adder 5 checking
        (ok 0)
        (λ d r size_info. ok tt)
        (λ n. true)
        (digest six_digest)
        six_reader
        (exact_size 6)
      ≡ some (ok tt, w))
    × (w.eof_sent ≡ true)
    × (concat w.sent ≡ 1 ∷ 2 ∷ 3 ∷ 4 ∷ 5 ∷ 6 ∷ [])
update_complete_example =
    update_complete adder adder-IsHasher checking 0 (λ d r size_info. ok tt) (λ n. true) six_digest
      six_reader (exact_size 6) 5 (omega arith) six_reader-Intact (λ n. refl) (omega arith) refl
      refl refl
