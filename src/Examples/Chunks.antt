-- ===== src/Examples/Chunks.antt =====
-- The chunker on nine bytes that arrive in two pieces.
use native_link.Base.{ℕ, suc, List, [], ◌∷◌, ◌++◌, ◌≡◌, refl, arith, length, concat}
use native_link.FastCdc.{FastCdc, Decoded, decode}
use native_link.FastCdc.Frames.{Sized}
use native_link.FastCdc.Chunks.{chunks, Bounded}
use native_link.FastCdc.Arrivals.{Session, opened, arrives, decodes, frames_of}
use native_link.FastCdc.Ending.{Tail}
use native_link.FastCdc.Session.{Session-chunks, Session-concat, Session-Bounded, Session-Tail}

abbrev small_chunker : FastCdc
small_chunker = record {
  min_size = 2;
  avg_size = 3;
  max_size = 4;
  norm_size = 3;
  mask_easy = 1;
  mask_hard = 3;
  hash = 0;
  position = 0;
}

small_chunker-Sized : Sized small_chunker
small_chunker-Sized = record { positive = omega arith; ordered = omega arith }

abbrev first_piece : List ℕ
first_piece = 10 ∷ 20 ∷ 30 ∷ 40 ∷ []

abbrev second_piece : List ℕ
second_piece = 50 ∷ 60 ∷ 70 ∷ 80 ∷ 90 ∷ []

abbrev nine_bytes : List ℕ
nine_bytes = first_piece ++ second_piece

abbrev first_call : Decoded
first_call = decode small_chunker first_piece

abbrev second_call : Decoded
second_call = decode first_call.state (first_call.buf ++ second_piece)

abbrev first_frames : List (List ℕ)
first_frames = frames_of first_call.frame ++ frames_of second_call.frame

nine_bytes-Session : Session small_chunker nine_bytes first_frames second_call.state second_call.buf
nine_bytes-Session =
    decodes second_call
      (arrives second_piece (decodes first_call (arrives first_piece opened) refl)) refl

Session-Tail_example : (ts : List (List ℕ)) × Tail second_call.state second_call.buf ts
Session-Tail_example = Session-Tail small_chunker small_chunker-Sized nine_bytes-Session

abbrev last_frames : List (List ℕ)
last_frames = (Session-Tail small_chunker small_chunker-Sized nine_bytes-Session).0

nine_bytes-Tail : Tail second_call.state second_call.buf last_frames
nine_bytes-Tail = (Session-Tail small_chunker small_chunker-Sized nine_bytes-Session).1

Session-chunks_example :
    first_frames ++ last_frames ≡ chunks (suc (length nine_bytes)) small_chunker nine_bytes
Session-chunks_example =
    Session-chunks small_chunker small_chunker-Sized nine_bytes-Session nine_bytes-Tail

Session-concat_example : concat (first_frames ++ last_frames) ≡ nine_bytes
Session-concat_example =
    Session-concat small_chunker small_chunker-Sized nine_bytes-Session nine_bytes-Tail

Session-Bounded_example : Bounded small_chunker (first_frames ++ last_frames)
Session-Bounded_example =
    Session-Bounded small_chunker small_chunker-Sized nine_bytes-Session nine_bytes-Tail
