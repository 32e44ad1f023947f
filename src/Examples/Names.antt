-- ===== src/Examples/Names.antt =====
-- A resource name of an upload.
use native_link.Base.{
  ℕ, true, false, none, some, List, [], ◌∷◌, ◌≡◌, ◌≢◌, refl, arith, if_neg, ok, Text, Text-discrete,
  codes, Lacks, parse_usize, is_digit, parse_digits,
}
use native_link.ResourceInfo.{
  ResourceInfo, slash, blobs, compressed_blobs, is_text, is_one_of, new, to_string,
}
use native_link.ResourceInfo.Parts.{IsPart, IsPrintable}
use native_link.ResourceInfo.RoundTrip.{new-to_string}

abbrev upload_name : ResourceInfo
upload_name = record {
  instance_name = codes "main/x";
  uuid = some (codes "u1");
  compressor = some (codes "zstd");
  digest_function = none;
  hash = codes "ab";
  size = codes "42";
  expected_size = 42;
  optional_metadata = none;
}

plain-IsPart : (t : Text) → Lacks slash t → t ≢ [] → blobs ≢ t → compressed_blobs ≢ t → IsPart t
unfolding is_text
plain-IsPart t l n b c = record {
  one_part = l;
  nonempty = n;
  not_blobs = if_neg (Text-discrete blobs t) b true false;
  not_compressed = if_neg (Text-discrete compressed_blobs t) c true false;
}

upload_name-IsPrintable : IsPrintable upload_name
unfolding is_one_of parse_usize Text-discrete native_link.Base.ℕ_discrete
upload_name-IsPrintable = record {
  compressor_word =
      (plain-IsPart (codes "zstd") (omega arith) (λ e. cc e) (λ e. cc e) (λ e. cc e), refl);
  digest_function_word = tt;
  hash_part = plain-IsPart (codes "ab") (omega arith) (λ e. cc e) (λ e. cc e) (λ e. cc e);
  hash_only = refl;
  size_part = plain-IsPart (codes "42") (omega arith) (λ e. cc e) (λ e. cc e) (λ e. cc e);
  size_value = refl;
  metadata_part = tt;
}

new-to_string_example : new (to_string upload_name true) true ≡ ok upload_name
new-to_string_example =
    new-to_string upload_name true upload_name-IsPrintable
      (codes "u1", refl, omega arith, λ e. cc e)
