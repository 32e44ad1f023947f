-- ===== src/VerifyStore.antt =====
-- nativelink-store/src/verify_store.rs: the store that checks the size and the hash of what it is given
-- while it forwards it. The hasher is a parameter, as is the store behind, which receives the stream
-- of the channel's writer. The counters of failures are left out.
pub mod Outcome
pub mod Checks
pub mod Complete
use native_link.Base.{
  ℕ, zero, suc, ◌+◌, Bool, true, false, Option, none, some, List, [], ◌∷◌, ltb, ite, ◌==◌,
  if◌then◌else◌, not, ◌&&◌, Result, ok, err, Error, make_input_err, err_tip, merge, length, add_u64,
  ℕ_discrete,
}
use native_link.ActionMessages.{DigestInfo}
use native_link.SizePartitioningStore.{StoreKey, str, digest, UploadSizeInfo, exact_size, max_size}
use native_link.BufChannel.{ReadHalf, WriteHalf, recv, peek, send, send_eof, new_writer, new_reader}

pub record VerifyStore : Type 0 where
  pub verify_size : Bool
  pub verify_hash : Bool

-- A hasher that has been given some bytes, and the hash of its digest.
pub record Hasher : Type 1 where
  pub State : Type 0
  pub update : State → List ℕ → State
  pub hash : State → ℕ

-- The state of `inner_check_update`: its channel halves, its hasher and the size so far.
pub record Check (h : Hasher) : Type 0 where
  pub tx : WriteHalf
  pub rx : ReadHalf
  pub maybe_hasher : Option h.State
  pub sum_size : ℕ

abbrev pub wrong_exact_size : Error
wrong_exact_size = make_input_err "Expected size to match. Got but digest says on update"

abbrev pub not_at_end : Error
not_at_end = make_input_err "Expected EOF chunk when exact size was hit on insert in verify store"

abbrev pub over_size : Error
over_size = make_input_err "Expected size but already received on insert"

abbrev pub size_mismatch : Error
size_mismatch = make_input_err "Expected size but got size on insert"

abbrev pub hash_mismatch : Error
hash_mismatch = make_input_err "Hashes do not match, got: but digest hash was"

module _ (h : Hasher) where
  abbrev pub Checked : Type 0
  Checked = Result (Unit {0}) × Check h

  -- At the exact size, whether the next buffer is the end. An error is left for the next `recv`.
  unfoldable pub check_eof : Result (List ℕ) × ReadHalf → Check h → Checked
  check_eof (ok [], r) c = (ok tt, record c { rx = r })
  check_eof (ok (b ∷ bs), r) c = (err not_at_end, record c { rx = r })
  check_eof (err e, r) c = (ok tt, record c { rx = r })

  -- After each buffer.
  unfoldable pub check_sum : Option ℕ → Check h → Checked
  unfolding check_eof peek
  check_sum none c = (ok tt, c)
  check_sum (some expected_size) c =
      let at_size = check_eof (peek c.rx) c in
      if ltb expected_size c.sum_size
      then (err over_size, c)
      else if c.sum_size == expected_size
      then at_size
      else (ok tt, c)

  -- At the end.
  unfoldable pub check_size : Option ℕ → ℕ → Result (Unit {0})
  check_size none sum_size = ok tt
  check_size (some expected_size) sum_size =
      if sum_size == expected_size then ok tt else err size_mismatch

  unfoldable pub check_hash : ℕ → Option h.State → Result (Unit {0})
  check_hash original_hash none = ok tt
  check_hash original_hash (some hasher) =
      ite (ℕ_discrete original_hash (h.hash hasher)) (ok tt) (err hash_mismatch)

  abbrev pub end_stream : Result (Unit {0}) × WriteHalf → Check h → Checked
  end_stream (res, w) c = (err_tip res "In verify_store::check_update", record c { tx = w })

  abbrev pub check_end : Result (Unit {0}) → Result (Unit {0}) → Check h → Checked
  check_end (err e) hashed c = (err e, c)
  check_end (ok done) (err e) c = (err e, c)
  check_end (ok done) (ok same) c = end_stream (send_eof c.tx) c

  abbrev pub update_hasher : List ℕ → Option h.State → Option h.State
  update_hasher chunk none = none
  update_hasher chunk (some hasher) = some (h.update hasher chunk)

  -- What was sent, after the hasher has been given it.
  abbrev pub after_send :
      (Check h → Option Checked) → List ℕ → Result (Unit {0}) × WriteHalf → Check h → Option Checked
  after_send rest chunk (ok done, w) c =
      rest (record c { tx = w; maybe_hasher = update_hasher chunk c.maybe_hasher })
  after_send rest chunk (err e, w) c = some (
    err_tip (err e) "Failed to write chunk to inner store in verify store",
    record c { tx = w; maybe_hasher = update_hasher chunk c.maybe_hasher },
  )

  abbrev pub forward : (Check h → Option Checked) → Option ℕ → ℕ → List ℕ → Checked → Option Checked
  forward rest maybe_size original_hash chunk (err e, c) = some (err e, c)
  forward rest maybe_size original_hash [] (ok done, c) =
      some
        (check_end (check_size maybe_size c.sum_size) (check_hash original_hash c.maybe_hasher) c)
  forward rest maybe_size original_hash (b ∷ bs) (ok done, c) =
      after_send rest (b ∷ bs) (send (b ∷ bs) c.tx) c

  abbrev pub check_turn :
      (Check h → Option Checked)
      → Option ℕ
      → ℕ
      → Result (List ℕ) × ReadHalf
      → Check h
      → Option Checked
  check_turn rest maybe_size original_hash (err e, r) c =
      some (
        err_tip (err e) "Failed to read chunk in check_update in verify store",
        record c { rx = r },
      )
  check_turn rest maybe_size original_hash (ok chunk, r) c =
      forward rest maybe_size original_hash chunk
        (check_sum maybe_size (record c { rx = r; sum_size = add_u64 c.sum_size (length chunk) }))

  -- The loop runs on fuel, and gives nothing when it is used up.
  unfoldable pub inner_check_update : ℕ → Option ℕ → ℕ → Check h → Option Checked
  unfolding recv check_sum check_size check_hash send send_eof
  inner_check_update zero maybe_size original_hash c = none
  inner_check_update (suc fuel) maybe_size original_hash c =
      check_turn (inner_check_update fuel maybe_size original_hash) maybe_size original_hash
        (recv c.rx) c

  abbrev pub begin_check : (ℕ → Bool) → ReadHalf → Option h.State → Check h
  begin_check receiver reader maybe_hasher = record {
    tx = new_writer receiver;
    rx = reader;
    maybe_hasher = maybe_hasher;
    sum_size = 0;
  }

  -- The store behind, by its answer to the stream that it has received.
  abbrev pub Inner : Type 0
  Inner = DigestInfo → ReadHalf → UploadSizeInfo → Result (Unit {0})

  abbrev pub wrong_size : Bool → UploadSizeInfo → ℕ → Bool
  wrong_size verify_size (exact_size expected_size) digest_size =
      verify_size && not (expected_size == digest_size)
  wrong_size verify_size (max_size n) digest_size = false

  abbrev pub maybe_hash : Bool → Result h.State → Result (Option h.State)
  maybe_hash true (ok hasher) = ok (some hasher)
  maybe_hash true (err e) = err_tip (err e) "In verify_store::update"
  maybe_hash false hasher = ok none

  -- `join!` of the two, and the writer as it was left.
  abbrev pub joined :
      Inner → DigestInfo → UploadSizeInfo → Option Checked → Option (Result (Unit {0}) × WriteHalf)
  joined inner d size_info none = none
  joined inner d size_info (some (check_res, c)) =
      some (merge (inner d (new_reader c.tx) size_info) check_res, c.tx)

  abbrev pub update_checked :
      ℕ
      → VerifyStore
      → Inner
      → (ℕ → Bool)
      → DigestInfo
      → ReadHalf
      → UploadSizeInfo
      → Result (Option h.State)
      → Option (Result (Unit {0}) × WriteHalf)
  update_checked fuel store inner receiver d reader size_info (err e) =
      some (err e, new_writer receiver)
  update_checked fuel store inner receiver d reader size_info (ok maybe_hasher) =
      joined inner d size_info (
        inner_check_update fuel (if store.verify_size then some d.size_bytes else none)
          d.packed_hash (begin_check receiver reader maybe_hasher))

  -- `StoreDriver::update`, with the writer as it was left: a new one where nothing was started.
  -- `new_hasher` is the request's hasher, or the default one.
  unfoldable pub update :
      ℕ
      → VerifyStore
      → Result h.State
      → Inner
      → (ℕ → Bool)
      → StoreKey
      → ReadHalf
      → UploadSizeInfo
      → Option (Result (Unit {0}) × WriteHalf)
  unfolding inner_check_update
  update fuel store new_hasher inner receiver (str s) reader size_info =
      some
        (err (make_input_err "Only digests are supported in VerifyStore. Got"), new_writer receiver)
  update fuel store new_hasher inner receiver (digest d) reader size_info =
      let checked =
        update_checked fuel store inner receiver d reader size_info
          (maybe_hash store.verify_hash new_hasher) in
      if wrong_size store.verify_size size_info d.size_bytes
      then some (err wrong_exact_size, new_writer receiver)
      else checked
