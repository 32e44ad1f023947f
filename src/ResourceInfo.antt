-- ===== src/ResourceInfo.antt =====
-- nativelink-util/src/resource_info.rs: the resource names of the byte stream service, taken apart
-- and put together. A text is its bytes; borrowed and owned texts are not told apart, so `to_owned`
-- is the identity and is left out.
pub mod Parts
pub mod Words
pub mod Printed
pub mod RoundTrip
use native_link.Base.{
  ℕ, zero, suc, ◌+◌, ◌-◌, Bool, true, false, Option, none, some, List, [], ◌∷◌, ◌++◌, ◌==◌,
  if◌then◌else◌, ite, Result, ok, err, make_input_err, err_tip, ok_or_tip, length, take, Text,
  Text-discrete, codes, rsplitn, join, parse_usize,
}

abbrev pub slash : ℕ
slash = b'/'

abbrev pub blobs : Text
blobs = codes "blobs"

abbrev pub compressed_blobs : Text
compressed_blobs = codes "compressed-blobs"

abbrev pub uploads : Text
uploads = codes "uploads"

abbrev pub compressors : List Text
compressors = codes "identity" ∷ codes "zstd" ∷ codes "deflate" ∷ codes "brotli" ∷ []

abbrev pub digest_functions : List Text
digest_functions =
    codes "sha256"
    ∷ codes "sha1"
    ∷ codes "md5"
    ∷ codes "vso"
    ∷ codes "sha384"
    ∷ codes "sha512"
    ∷ codes "murmur3"
    ∷ codes "sha256tree"
    ∷ codes "blake3"
    ∷ []

-- `contains`.
unfoldable pub is_one_of : List Text → Text → Bool
is_one_of [] t = false
is_one_of (u ∷ us) t = ite (Text-discrete u t) true (is_one_of us t)

unfoldable pub is_text : Text → Text → Bool
is_text u t = ite (Text-discrete u t) true false

pub record ResourceInfo : Type 0 where
  pub instance_name : Text
  pub uuid : Option Text
  pub compressor : Option Text
  pub digest_function : Option Text
  pub hash : Text
  pub size : Text
  pub expected_size : ℕ
  pub optional_metadata : Option Text

abbrev pub default_info : ResourceInfo
default_info = record {
  instance_name = [];
  uuid = none;
  compressor = none;
  digest_function = none;
  hash = [];
  size = [];
  expected_size = 0;
  optional_metadata = none;
}

pub data State : Type 0 where
  unknown compressor_next digest_function_next hash_next size_next metadata_next : State

-- The state, the output so far and the bytes processed.
pub record Parsed : Type 0 where
  pub state : State
  pub output : ResourceInfo
  pub bytes : ℕ

abbrev parsed_hash : Text → Parsed → Result Parsed
parsed_hash part p = ok (record {
  state = size_next;
  output = record (p.output) { hash = part };
  bytes = p.bytes + (length part + 1);
})

abbrev parsed_size : Text → Option ℕ → Parsed → Result Parsed
parsed_size part none p =
    err (make_input_err "Digest size_bytes was not convertible to usize. Got:")
parsed_size part (some n) p = ok (record {
  state = metadata_next;
  output = record (p.output) { size = part; expected_size = n };
  bytes = p.bytes + length part;
})

-- The loop of `recursive_parse` on one part, by the state that the parts before it left.
unfoldable pub parse_part : Text → State → Parsed → Result Parsed
unfolding is_one_of
parse_part part unknown p =
    err (make_input_err "Unknown state should never be reached in ResourceInfo::new")
parse_part part compressor_next p =
    if is_one_of compressors part
    then ok (record {
      state = digest_function_next;
      output = record (p.output) { compressor = some part };
      bytes = p.bytes + (length part + 1);
    })
    else err (make_input_err "Expected compressor, got")
parse_part part digest_function_next p =
    if is_one_of digest_functions part
    then ok (record {
      state = hash_next;
      output = record (p.output) { digest_function = some part };
      bytes = p.bytes + (length part + 1);
    })
    else parsed_hash part p
parse_part part hash_next p = parsed_hash part p
parse_part part size_next p = parsed_size part (parse_usize part) p
parse_part part metadata_next p = ok (record {
  state = metadata_next;
  output = record (p.output) { optional_metadata = some part };
  bytes = p.bytes + (length part + 1);
})

abbrev parse_next : Text → Result Parsed → Result Parsed
parse_next part (ok p) = parse_part part p.state p
parse_next part (err e) = err e

-- `recursive_parse`, in the state `Unknown` in which it is called, on the parts from the last to the
-- first.
unfoldable pub recursive_parse : List Text → ResourceInfo → Result Parsed
unfolding parse_part is_text
recursive_parse [] output = ok_or_tip none "on rparts.next()"
recursive_parse (part ∷ rparts) output =
    let before = recursive_parse rparts output in
    if is_text blobs part
    then ok (record { state = digest_function_next; output = output; bytes = length part + 1 })
    else if is_text compressed_blobs part
    then ok (record { state = compressor_next; output = output; bytes = length part + 1 })
    else parse_next part before

-- `{?instance_name}/uploads/{uuid}`.
unfoldable pub parse_upload : List Text → ResourceInfo → Result ResourceInfo
unfolding is_text
parse_upload [] output = ok_or_tip none "Expected resource_name to be of pattern"
parse_upload (uuid ∷ []) output = ok_or_tip none "Expected resource_name to be of pattern"
parse_upload (uuid ∷ word ∷ []) output =
    if is_text uploads word
    then ok (record output { uuid = some uuid })
    else err (make_input_err "Expected part to be 'uploads'. Got:")
parse_upload (uuid ∷ word ∷ instance_name ∷ rest) output =
    if is_text uploads word
    then ok (record output { uuid = some uuid; instance_name = instance_name })
    else err (make_input_err "Expected part to be 'uploads'. Got:")

abbrev is_end : State → Bool
is_end metadata_next = true
is_end unknown = false
is_end compressor_next = false
is_end digest_function_next = false
is_end hash_next = false
is_end size_next = false

abbrev beginning_part : Text → ℕ → Text
beginning_part resource_name processed =
    if processed == length resource_name
    then []
    else take (length resource_name - processed - 1) resource_name

abbrev finish : Text → Bool → Parsed → Result ResourceInfo
finish resource_name is_upload p =
    let start = beginning_part resource_name p.bytes in
    if is_end p.state
    then if is_upload
      then parse_upload (rsplitn 3 slash start) p.output
      else ok (record (p.output) { instance_name = start })
    else err (make_input_err "Expected the final state to be OptionalMetadata. Got:")

abbrev finish_result : Text → Bool → Result Parsed → Result ResourceInfo
finish_result resource_name is_upload (ok p) = finish resource_name is_upload p
finish_result resource_name is_upload (err e) = err e

unfoldable pub new : Text → Bool → Result ResourceInfo
unfolding recursive_parse parse_upload
new resource_name is_upload = finish_result resource_name is_upload (
    err_tip (recursive_parse (rsplitn 7 slash resource_name) default_info)
      "Expected resource_name to be of pattern")

-- `flatten` and `filter` in `to_string`: the parts that are there and not empty.
unfoldable pub present : List (Option Text) → List Text
present [] = []
present (none ∷ ps) = present ps
present (some [] ∷ ps) = present ps
present (some (c ∷ s) ∷ ps) = (c ∷ s) ∷ present ps

abbrev blobs_part : Option Text → Text
blobs_part none = blobs
blobs_part (some compressor) = compressed_blobs

unfoldable pub to_string : ResourceInfo → Bool → Text
unfolding present join
to_string info is_upload = join slash (
    present (
      some info.instance_name
      ∷ (if is_upload then some uploads else none)
      ∷ info.uuid
      ∷ some (blobs_part info.compressor)
      ∷ info.compressor
      ∷ info.digest_function
      ∷ some info.hash
      ∷ some info.size
      ∷ info.optional_metadata
      ∷ []))
