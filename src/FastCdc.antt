-- ===== src/FastCdc.antt =====
-- nativelink-util/src/fastcdc.rs: the content-defined chunker. A buffer is a list of bytes;
-- `decode` takes a frame off its front, or keeps its place until more bytes arrive. The logarithm of
-- a float is a parameter of `new`. Numbers of type `u32` wrap.
mod Table
pub mod Scan
pub mod Frames
pub mod Chunks
pub mod Arrivals
pub mod Ending
pub mod Session
use native_link.Base.{
  ℕ, suc, ◌+◌, ◌-◌, ◌*◌, ◌/◌, ◌%◌, ◌^◌, Bool, true, false, ◌&&◌, ◌||◌, Option, none, some, List, [],
  ◌∷◌, ltb, leb, ◌==◌, if◌then◌else◌, length, take, drop, get_or,
}
use Prim.Native.Nat.{bit_and, max}
use native_link.FastCdc.Table.{table}

abbrev pub u32_mod : ℕ
u32_mod = 4294967296

pub record FastCdc : Type 0 where
  pub min_size : ℕ
  pub avg_size : ℕ
  pub max_size : ℕ
  pub norm_size : ℕ
  pub mask_easy : ℕ
  pub mask_hard : ℕ
  pub hash : ℕ
  pub position : ℕ

-- `State::reset`.
abbrev pub reset : FastCdc → FastCdc
reset c = record c { hash = 0; position = 0 }

-- `2u32.pow(e) - 1`.
unfoldable pub mask : ℕ → ℕ
mask e = if ltb e 32 then 2 ^ e - 1 else u32_mod - 1

unfoldable pub norm : ℕ → ℕ → ℕ
norm min_size avg_size =
    let offset = min_size + (min_size + 1) / 2 in
    avg_size - (if ltb avg_size offset then avg_size else offset)

-- `none` is a failed assertion.
unfoldable pub new : (ℕ → ℕ) → ℕ → ℕ → ℕ → Option FastCdc
unfolding mask norm
new log2_round min_size avg_size max_size =
    let bits = log2_round avg_size in
    if ltb min_size avg_size && ltb avg_size max_size
    then some (record {
      min_size = min_size;
      avg_size = avg_size;
      max_size = max_size;
      norm_size = norm min_size avg_size;
      mask_easy = mask ((bits + u32_mod - 1) % u32_mod);
      mask_hard = mask ((bits + 1) % u32_mod);
      hash = 0;
      position = 0;
    })
    else none

unfoldable pub roll : ℕ → ℕ → ℕ
unfolding table
roll hash byte = (hash / 2 + get_or table byte 0) % u32_mod

-- The test of the loop at index `i`, for the hash up to there.
unfoldable pub is_boundary : FastCdc → ℕ → ℕ → Bool
is_boundary c hash i =
    bit_and hash (if ltb i c.norm_size then c.mask_hard else c.mask_easy) == 0 || leb c.max_size i

-- The loop, over the bytes from index `i` on: the hash, and the split point, zero if there is none.
unfoldable pub scan : FastCdc → ℕ → ℕ → List ℕ → ℕ × ℕ
unfolding roll is_boundary
scan c hash i [] = (hash, 0)
scan c hash i (byte ∷ bytes) =
    let rest = scan c (roll hash byte) (suc i) bytes in
    if is_boundary c (roll hash byte) i then (roll hash byte, i) else rest

pub record Decoded : Type 0 where
  pub state : FastCdc
  pub buf : List ℕ
  pub frame : Option (List ℕ)

unfoldable pub decode : FastCdc → List ℕ → Decoded
unfolding scan
decode c buf =
    let start_point = max c.position c.min_size in
    let (hash, split_point) = scan c c.hash start_point (drop start_point buf) in
    if leb (length buf) c.min_size
    then record { state = c; buf = buf; frame = none }
    else if leb c.min_size split_point
    then record { state = reset c; buf = drop split_point buf; frame = some (take split_point buf) }
    else record {
      state = record c {
        hash = hash;
        position = if split_point == 0 then length buf else split_point;
      };
      buf = buf;
      frame = none;
    }

unfoldable pub end_of_stream : FastCdc → List ℕ → Decoded
end_of_stream c [] = record { state = reset c; buf = []; frame = none }
end_of_stream c (byte ∷ bytes) = record { state = reset c; buf = []; frame = some (byte ∷ bytes) }

-- What `decode_eof` makes of what `decode` returned.
unfoldable pub after_decode : Decoded → Decoded
unfolding end_of_stream
after_decode d = elim d.frame [ some frame ↦ d | none ↦ end_of_stream d.state d.buf ]

unfoldable pub decode_eof : FastCdc → List ℕ → Decoded
unfolding decode after_decode
decode_eof c buf = after_decode (decode c buf)

-- `clone`: the configuration, with a new state.
unfoldable pub clone : FastCdc → FastCdc
clone c = record c { hash = 0; position = 0 }
