-- ===== src/ResourceInfo/Parts.antt =====
-- Which resource names are printed so that they can be read, and the parts after `blobs` read back.
use native_link.Base.{
  ℕ, ◌+◌, ◌≢◌, true, false, Option, none, some, List, [], ◌∷◌, ◌≡◌, refl, ◌∙◌, if_pos, if_neg, ok,
  length, Text, Text-discrete, parse_usize, Lacks,
}
use native_link.ResourceInfo.{
  slash, blobs, compressed_blobs, compressors, digest_functions, is_one_of, is_text, ResourceInfo,
  default_info, digest_function_next, hash_next, size_next, metadata_next, compressor_next, Parsed,
  parse_part, recursive_parse, blobs_part,
}

-- A part that can stand after the word `blobs`.
pub record IsPart (t : Text) : Type 0 where
  pub one_part : Lacks slash t
  pub nonempty : t ≢ []
  pub not_blobs : is_text blobs t ≡ false
  pub not_compressed : is_text compressed_blobs t ≡ false

-- An optional part of a list of words.
abbrev pub OptionalWord : List Text → Option Text → Type 0
OptionalWord words none = Unit
OptionalWord words (some t) = IsPart t × (is_one_of words t ≡ true)

abbrev pub OptionalPart : Option Text → Type 0
OptionalPart none = Unit
OptionalPart (some t) = IsPart t

-- Without a digest function, the hash is not taken for one.
abbrev pub Unambiguous : Option Text → Text → Type 0
Unambiguous none hash = is_one_of digest_functions hash ≡ false
Unambiguous (some t) hash = Unit

pub record IsPrintable (info : ResourceInfo) : Type 0 where
  pub compressor_word : OptionalWord compressors info.compressor
  pub digest_function_word : OptionalWord digest_functions info.digest_function
  pub hash_part : IsPart info.hash
  pub hash_only : Unambiguous info.digest_function info.hash
  pub size_part : IsPart info.size
  pub size_value : parse_usize info.size ≡ some info.expected_size
  pub metadata_part : OptionalPart info.optional_metadata

abbrev pub opt : Option Text → List Text → List Text
opt none ps = ps
opt (some p) ps = p ∷ ps

part-next :
    (t : Text) (rs : List Text) (p : Parsed)
    → IsPart t
    → recursive_parse rs default_info ≡ ok p
    → recursive_parse (t ∷ rs) default_info ≡ parse_part t p.state p
unfolding recursive_parse
part-next t rs p i e = rw (i.not_blobs, i.not_compressed, e)

blobs_itself : is_text blobs blobs ≡ true
unfolding is_text
blobs_itself = if_pos (Text-discrete blobs blobs) refl true false

compressed_itself : is_text compressed_blobs compressed_blobs ≡ true
unfolding is_text
compressed_itself = if_pos (Text-discrete compressed_blobs compressed_blobs) refl true false

compressed_not_blobs : is_text blobs compressed_blobs ≡ false
unfolding is_text
compressed_not_blobs = if_neg (Text-discrete blobs compressed_blobs) (λ e. cc e) true false

-- The bytes of an optional part and its slash, added to others.
abbrev pub plus_part : Option Text → ℕ → ℕ
plus_part none n = n
plus_part (some t) n = n + (length t + 1)

parse_start :
    (compressor : Option Text) (rest : List Text)
    → OptionalWord compressors compressor
    → recursive_parse (opt compressor (blobs_part compressor ∷ rest)) default_info
      ≡ ok (record {
        state = digest_function_next;
        output = record default_info { compressor = compressor };
        bytes = plus_part compressor (length (blobs_part compressor) + 1);
      })
unfolding recursive_parse
parse_start none rest w = rw blobs_itself
parse_start (some t) rest (i, one) =
    part-next t (compressed_blobs ∷ rest)
      (record {
        state = compressor_next;
        output = default_info;
        bytes = length compressed_blobs + 1;
      })
      i (rw (compressed_not_blobs, compressed_itself))
    ∙ (unfold parse_part in rw one)

module _ (info : ResourceInfo) (w : IsPrintable info) (rest : List Text) where
  open info use {compressor, digest_function, hash, size, expected_size, optional_metadata}

  abbrev start_bytes : ℕ
  start_bytes = plus_part compressor (length (blobs_part compressor) + 1)

  abbrev from_start : List Text
  from_start = opt compressor (blobs_part compressor ∷ rest)

  parse_hash :
      recursive_parse (hash ∷ opt digest_function from_start) default_info
      ≡ ok (record {
        state = size_next;
        output = record default_info {
          compressor = compressor;
          digest_function = digest_function;
          hash = hash;
        };
        bytes = plus_part digest_function start_bytes + (length hash + 1);
      })
  unfolding parse_part
  parse_hash = by_function digest_function w.digest_function_word w.hash_only
    where
      started : Parsed
      started = record {
        state = digest_function_next;
        output = record default_info { compressor = compressor };
        bytes = start_bytes;
      }

      by_function :
          (f : Option Text)
          → OptionalWord digest_functions f
          → Unambiguous f hash
          → recursive_parse (hash ∷ opt f from_start) default_info
            ≡ ok (record {
              state = size_next;
              output = record default_info {
                compressor = compressor;
                digest_function = f;
                hash = hash;
              };
              bytes = plus_part f start_bytes + (length hash + 1);
            })
      by_function none v u =
          part-next hash from_start started w.hash_part
            (parse_start compressor rest w.compressor_word)
          ∙ rw u
      by_function (some t) (i, one) u =
          part-next hash (t ∷ from_start)
            (record {
              state = hash_next;
              output = record default_info { compressor = compressor; digest_function = some t };
              bytes = start_bytes + (length t + 1);
            })
            w.hash_part
            (part-next t from_start started i (parse_start compressor rest w.compressor_word)
              ∙ rw one)

  -- Everything but the instance name and the uuid.
  abbrev parsed_info : ResourceInfo
  parsed_info = record info { instance_name = []; uuid = none }

  abbrev pub total_bytes : ℕ
  total_bytes =
      plus_part optional_metadata
        (plus_part digest_function start_bytes + (length hash + 1) + length size)

  pub parse_all :
      recursive_parse
        (opt optional_metadata (size ∷ hash ∷ opt digest_function from_start))
        default_info
      ≡ ok (record { state = metadata_next; output = parsed_info; bytes = total_bytes })
  unfolding parse_part
  parse_all = by_metadata optional_metadata w.metadata_part
    where
      sized : Parsed
      sized = record {
        state = metadata_next;
        output = record default_info {
          compressor = compressor;
          digest_function = digest_function;
          hash = hash;
          size = size;
          expected_size = expected_size;
        };
        bytes = plus_part digest_function start_bytes + (length hash + 1) + length size;
      }

      parse_size :
          recursive_parse (size ∷ hash ∷ opt digest_function from_start) default_info ≡ ok sized
      parse_size =
          part-next size (hash ∷ opt digest_function from_start) _ w.size_part parse_hash
          ∙ rw w.size_value

      by_metadata :
          (m : Option Text)
          → OptionalPart m
          → recursive_parse (opt m (size ∷ hash ∷ opt digest_function from_start)) default_info
            ≡ ok (record {
              state = metadata_next;
              output = record parsed_info { optional_metadata = m };
              bytes =
                  plus_part m
                    (plus_part digest_function start_bytes + (length hash + 1) + length size);
            })
      by_metadata none i = parse_size
      by_metadata (some t) i =
          part-next t (size ∷ hash ∷ opt digest_function from_start) sized i parse_size
