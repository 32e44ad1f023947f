-- ===== src/BufChannel.antt =====
-- nativelink-util/src/buf_channel.rs: the two halves of a channel of byte buffers. An operation that
-- waits is modelled by its outcome: `rx` holds the buffers that the reader has still to receive, and
-- `eof_sent` is the shared flag as it is once the sender is gone. The empty buffer stands for the end.
pub mod Stream
pub mod Turns
pub mod Loop
pub mod Consume
pub mod Reset
pub mod Bind
use native_link.Base.{
  ℕ, zero, suc, ◌+◌, ◌-◌, Bool, true, false, ◌||◌, Option, none, some, List, [], ◌∷◌, ◌++◌, ltb,
  ◌==◌, if◌then◌else◌, Code, Error, Result, ok, err, make_err, make_input_err, err_tip, length,
  take, drop, add_u64, String,
}

-- The reader's half.
pub record ReadHalf : Type 0 where
  pub rx : List (List ℕ)
  pub bytes_received : ℕ
  pub eof_sent : Bool
  pub last_err : Option Error
  pub queued_data : List (List ℕ)
  pub recent_data : List (List ℕ)
  pub max_recent_data_size : ℕ

unfoldable pub maybe_populate_recent_data : List ℕ → ReadHalf → ReadHalf
maybe_populate_recent_data chunk r =
    if r.max_recent_data_size == 0
    then r
    else if ltb r.max_recent_data_size r.bytes_received
    then record r { recent_data = [] }
    else record r { recent_data = r.recent_data ++ chunk ∷ [] }

abbrev pub sender_dropped : Error
sender_dropped = make_err Code.internal "Sender dropped before sending EOF"

unfoldable pub recv_inner : List ℕ → ReadHalf → Result (List ℕ) × ReadHalf
unfolding maybe_populate_recent_data
recv_inner [] r = if r.eof_sent then (ok [], maybe_populate_recent_data [] r) else (
  err sender_dropped,
  record r {
    queued_data = [];
    recent_data = [];
    bytes_received = 0;
    last_err = some sender_dropped;
  },
)
recv_inner (b ∷ bs) r = (
  ok (b ∷ bs),
  maybe_populate_recent_data (b ∷ bs)
      (record r { bytes_received = add_u64 r.bytes_received (length (b ∷ bs)) }),
)

abbrev pub pop_front : List (List ℕ) → ReadHalf → Option (Result (List ℕ)) × ReadHalf
pop_front [] r = (none, r)
pop_front (chunk ∷ queued) r = (some (ok chunk), record r { queued_data = queued })

abbrev pub try_recv : ReadHalf → Option (Result (List ℕ)) × ReadHalf
try_recv r = elim r.last_err [ some e ↦ (some (err e), r) | none ↦ pop_front r.queued_data r ]

-- `rx.recv()`, where no buffer is the empty one.
abbrev pub recv_rx : List (List ℕ) → ReadHalf → Result (List ℕ) × ReadHalf
recv_rx [] r = recv_inner [] r
recv_rx (chunk ∷ rx) r = recv_inner chunk (record r { rx = rx })

unfoldable pub recv : ReadHalf → Result (List ℕ) × ReadHalf
unfolding recv_inner
recv r =
    let (now, r') = try_recv r in elim now [ some result ↦ (result, r') | none ↦ recv_rx r'.rx r' ]

abbrev pub push_front : List ℕ → ReadHalf → ReadHalf
push_front chunk r = record r { queued_data = chunk ∷ r.queued_data }

abbrev pub peeked : Result (List ℕ) × ReadHalf → Result (List ℕ) × ReadHalf
peeked (ok chunk, r) = (ok chunk, push_front chunk r)
peeked (err e, r) = (err_tip (err e) "In buf_channel::peek", r)

abbrev pub peek_queue : List (List ℕ) → ReadHalf → Result (List ℕ) × ReadHalf
peek_queue [] r = peeked (recv r)
peek_queue (chunk ∷ queued) r = (ok chunk, r)

unfoldable pub peek : ReadHalf → Result (List ℕ) × ReadHalf
unfolding recv
peek r = peek_queue r.queued_data r

-- The loops run on fuel, and give nothing when it is used up. A turn of a loop takes what `recv`
-- gave and the rest of the loop.
abbrev pub drain_turn :
    (ReadHalf → Option (Result (Unit {0}) × ReadHalf))
    → Result (List ℕ) × ReadHalf
    → Option (Result (Unit {0}) × ReadHalf)
drain_turn rest (err e, r) = some (err_tip (err e) "Failed to drain in buf_channel::drain", r)
drain_turn rest (ok [], r) = some (ok tt, r)
drain_turn rest (ok (b ∷ bs), r) = rest r

unfoldable pub drain : ℕ → ReadHalf → Option (Result (Unit {0}) × ReadHalf)
unfolding recv
drain zero r = none
drain (suc fuel) r = drain_turn (drain fuel) (recv r)

abbrev pub take_tip : String
take_tip = "During first read of buf_channel::take()"

-- The output and the reader after a chunk, of which no more is taken than is wanted.
abbrev pub add_chunk : ℕ → List ℕ → List ℕ → ReadHalf → List ℕ × ReadHalf
add_chunk size output chunk r =
    if ltb size (length output + length chunk)
    then (
      output ++ take (size - length output) chunk,
      push_front (drop (size - length output) chunk) r,
    )
    else (output ++ chunk, r)

abbrev pub finish_or :
    ℕ
    → (List ℕ → ReadHalf → Option (Result (List ℕ) × ReadHalf))
    → List ℕ × ReadHalf
    → Option (Result (List ℕ) × ReadHalf)
finish_or size rest (output, r) =
    if length output == size then some (ok output, r) else rest output r

abbrev pub consume_turn :
    ℕ
    → List ℕ
    → (List ℕ → ReadHalf → Option (Result (List ℕ) × ReadHalf))
    → Result (List ℕ) × ReadHalf
    → Option (Result (List ℕ) × ReadHalf)
consume_turn size output rest (err e, r) = some (err_tip (err e) take_tip, r)
consume_turn size output rest (ok [], r) = some (ok output, r)
consume_turn size output rest (ok (b ∷ bs), r) =
    finish_or size rest (add_chunk size output (b ∷ bs) r)

unfoldable pub consume_loop : ℕ → ℕ → List ℕ → ReadHalf → Option (Result (List ℕ) × ReadHalf)
unfolding recv
consume_loop zero size output r = none
consume_loop (suc fuel) size output r = consume_turn size output (consume_loop fuel size) (recv r)

abbrev pub is_empty : List ℕ → Bool
is_empty [] = true
is_empty (b ∷ bs) = false

-- `consume` after it has looked at the second chunk.
abbrev pub check_eof :
    ℕ → ℕ → List ℕ → Result (List ℕ) × ReadHalf → Option (Result (List ℕ) × ReadHalf)
check_eof fuel size chunk (err e, r) =
    some (err_tip (err e) "Failed to check if next chunk is EOF", r)
check_eof fuel size chunk (ok peeked_chunk, r) =
    let rest = consume_loop fuel size chunk r in
    if is_empty peeked_chunk || length chunk == size then some (ok chunk, r) else rest

abbrev pub consume_first : ℕ → ℕ → Result (List ℕ) × ReadHalf → Option (Result (List ℕ) × ReadHalf)
consume_first fuel size (err e, r) = some (err_tip (err e) take_tip, r)
consume_first fuel size (ok [], r) = some (ok [], r)
consume_first fuel size (ok (b ∷ bs), r) =
    if ltb size (length (b ∷ bs))
    then some (ok (take size (b ∷ bs)), push_front (drop size (b ∷ bs)) r)
    else check_eof fuel size (b ∷ bs) (peek r)

abbrev pub unwrap_size : Option ℕ → ℕ
unwrap_size (some size) = size
unwrap_size none = 18446744073709551615

unfoldable pub consume : ℕ → Option ℕ → ReadHalf → Option (Result (List ℕ) × ReadHalf)
unfolding recv peek consume_loop
consume fuel size r = consume_first fuel (unwrap_size size) (recv r)

abbrev pub set_max_recent_data_size : ℕ → ReadHalf → ReadHalf
set_max_recent_data_size size r = record r { max_recent_data_size = size }

-- The sizes of the chunks, summed from the last one.
unfoldable pub sum_sizes : List (List ℕ) → ℕ
sum_sizes [] = 0
sum_sizes (chunk ∷ chunks) = add_u64 (sum_sizes chunks) (length chunk)

unfoldable pub try_reset_stream : ReadHalf → Result (Unit {0}) × ReadHalf
unfolding sum_sizes
try_reset_stream r =
    let r' = record r { queued_data = r.recent_data ++ r.queued_data; recent_data = [] } in
    if ltb r.max_recent_data_size r.bytes_received
    then (err (make_err Code.internal "Cannot reset stream, max_recent_data_size exceeded"), r)
    else if sum_sizes r.recent_data == r.bytes_received
    then (ok tt, record r' { bytes_received = 0 })
    else (
      err (make_err Code.invalid_argument "Sum of recent_data bytes does not equal bytes_received"),
      r',
    )

-- The writer's half. The buffers sent are kept, and `receiver` says whether the reader is still
-- there for the buffer of each index.
pub record WriteHalf : Type 0 where
  pub tx : Bool
  pub bytes_written : ℕ
  pub eof_sent : Bool
  pub sent : List (List ℕ)
  pub receiver : ℕ → Bool

unfoldable pub send : List ℕ → WriteHalf → Result (Unit {0}) × WriteHalf
send buf w =
    if w.tx
    then if length buf == 0
      then (err (make_input_err "Cannot send EOF in send(). Instead use send_eof()"), w)
      else if w.receiver (length w.sent)
      then (
        ok tt,
        record w {
          bytes_written = add_u64 w.bytes_written (length buf);
          sent = w.sent ++ buf ∷ [];
        },
      )
      else (
        err (make_err Code.internal "Failed to write to data, receiver disconnected"),
        record w { tx = false },
      )
    else (err (make_err Code.internal "Tried to send while stream is closed"), w)

unfoldable pub send_eof : WriteHalf → Result (Unit {0}) × WriteHalf
send_eof w = if w.eof_sent then (ok tt, w) else (ok tt, record w { eof_sent = true; tx = false })

-- `make_buf_channel_pair`: the writer's half for a reader that stays as `receiver` says, and the
-- reader's half of what a writer has sent.
abbrev pub new_writer : (ℕ → Bool) → WriteHalf
new_writer receiver = record {
  tx = true;
  bytes_written = 0;
  eof_sent = false;
  sent = [];
  receiver = receiver;
}

abbrev pub new_reader : WriteHalf → ReadHalf
new_reader w = record {
  rx = w.sent;
  bytes_received = 0;
  eof_sent = w.eof_sent;
  last_err = none;
  queued_data = [];
  recent_data = [];
  max_recent_data_size = 0;
}

-- The outcome of `bind_buffered` so far: its result, the writer and the reader.
abbrev pub Bound : Type 0
Bound = Option (Result (Unit {0}) × WriteHalf × ReadHalf)

abbrev pub bind_sent :
    (WriteHalf → ReadHalf → Bound) → List ℕ → Result (Unit {0}) × WriteHalf → ReadHalf → Bound
bind_sent rest chunk (ok done, w) r = rest w r
bind_sent rest chunk (err e, w) r =
    some (err_tip (err e) "In DropCloserWriteHalf::bind_buffered::send", w, push_front chunk r)

abbrev should_never_happen : Error
should_never_happen =
    make_err Code.internal
      "DropCloserReadHalf::peek() said error, but when data received said Ok. This should never happen."

-- After `peek` failed: the error is received.
abbrev pub bind_failed : Result (List ℕ) × ReadHalf → WriteHalf → Bound
bind_failed (err e, r) w =
    some (err_tip (err e) "In DropCloserWriteHalf::bind_buffered::peek::eof", w, r)
bind_failed (ok chunk, r) w = some (err should_never_happen, w, r)

abbrev pub bind_peeked :
    (WriteHalf → ReadHalf → Bound) → List ℕ → Result (List ℕ) × ReadHalf → WriteHalf → Bound
bind_peeked rest chunk (ok next, r) w = bind_sent rest chunk (send chunk w) r
bind_peeked rest chunk (err e, r) w = bind_failed (recv r) w

abbrev pub bind_turn :
    (WriteHalf → ReadHalf → Bound) → Result (List ℕ) × ReadHalf → WriteHalf → Bound
bind_turn rest (err e, r) w =
    some (err_tip (err e) "In DropCloserWriteHalf::bind_buffered::recv", w, r)
bind_turn rest (ok [], r) w =
    let (done, w') = send_eof w in
    some (err_tip done "In DropCloserWriteHalf::bind_buffered::send_eof", w', r)
bind_turn rest (ok (b ∷ bs), r) w = bind_peeked rest (b ∷ bs) (peek r) w

unfoldable pub bind_buffered : ℕ → WriteHalf → ReadHalf → Bound
unfolding recv peek send send_eof
bind_buffered zero w r = none
bind_buffered (suc fuel) w r = bind_turn (bind_buffered fuel) (recv r) w
