-- ===== src/ResourceInfo/RoundTrip.antt =====
-- A resource name that `to_string` writes is read back by `new`.
use mathlib.Core.List.{append_assoc}
use native_link.Base.{
  ◌≢◌, Bool, true, false, Option, none, some, [], ◌∷◌, ◌++◌, ◌≡◌, refl, sym, ◌∙◌, ap, subst, arith,
  if_pos, ◌==◌, Result, ok, length, length-append, take, Text, Text-discrete, rsplitn, join, Lacks,
  rsplitn-append, rsplitn_lack,
}
use native_link.ResourceInfo.{
  slash, uploads, is_text, ResourceInfo, metadata_next, Parsed, parse_upload, new, present,
  to_string, beginning_part, finish,
}
use native_link.ResourceInfo.Parts.{IsPrintable}
use native_link.ResourceInfo.Words.{printed_tail, split_with, split_alone, parse_words}
use native_link.ResourceInfo.Printed.{present-some, tail_parts, join-words, join-before}

module _ (info : ResourceInfo) (w : IsPrintable info) where
  open info use {compressor, digest_function, hash, size, expected_size, optional_metadata}

  take-append_self : (xs ys : Text) → take (length xs) (xs ++ ys) ≡ xs
  take-append_self [] ys = refl
  take-append_self (x ∷ xs) ys = ap (λ zs. x ∷ zs) (take-append_self xs ys)

  abbrev parsed : Parsed
  parsed = record {
    state = metadata_next;
    output = record info { instance_name = []; uuid = none };
    bytes = length (printed_tail info);
  }

  new-alone :
      (is_upload : Bool)
      → new (printed_tail info) is_upload ≡ finish (printed_tail info) is_upload parsed
  unfolding new
  new-alone is_upload = rw (split_alone, parse_words info w [])

  new-with :
      (start : Text) (is_upload : Bool)
      → new (start ++ slash ∷ printed_tail info) is_upload
        ≡ finish (start ++ slash ∷ printed_tail info) is_upload parsed
  unfolding new
  new-with start is_upload =
      let (rest, e) = split_with info w start in rw (e, parse_words info w rest)

  beginning-alone : beginning_part (printed_tail info) (length (printed_tail info)) ≡ []
  beginning-alone = ground arith

  beginning-with :
      (start : Text)
      → beginning_part (start ++ slash ∷ printed_tail info) (length (printed_tail info)) ≡ start
  beginning-with start =
      let l = length-append start (slash ∷ printed_tail info) in
      let t : (length (printed_tail info) == length (start ++ slash ∷ printed_tail info)) ≡ false =
        ground arith in
      rw t (
        ap (λ k. take k (start ++ slash ∷ printed_tail info)) (omega (arith, l))
        ∙ take-append_self start (slash ∷ printed_tail info))

  download :
      (i : Text)
      → new (to_string (record info { instance_name = i; uuid = none }) false) false
        ≡ ok (record info { instance_name = i; uuid = none })
  unfolding to_string present
  download [] =
      ap (λ t. new t false) (join-words info w)
      ∙ (new-alone false
          ∙ ap (λ t. ok (record info { instance_name = t; uuid = none })) beginning-alone)
  download (c ∷ s) =
      ap (λ t. new t false) (join-before info w (c ∷ s))
      ∙ (new-with (c ∷ s) false
          ∙ ap (λ t. ok (record info { instance_name = t; uuid = none })) (beginning-with (c ∷ s)))

  abbrev read : Text → Result ResourceInfo
  read start =
      parse_upload (rsplitn 3 slash start) (record info { instance_name = []; uuid = none })

  uploads_itself : is_text uploads uploads ≡ true
  unfolding is_text
  uploads_itself = if_pos (Text-discrete uploads uploads) refl true false

  uploads-Lacks : Lacks slash uploads
  uploads-Lacks = omega arith

  read_short :
      (u : Text)
      → Lacks slash u
      → read (uploads ++ slash ∷ u) ≡ ok (record info { instance_name = []; uuid = some u })
  unfolding parse_upload
  read_short u l = rw (
    rsplitn-append 1 slash uploads u l,
    rsplitn_lack 1 slash uploads uploads-Lacks,
    uploads_itself,
  )

  read_long :
      (i u : Text)
      → Lacks slash u
      → read ((i ++ slash ∷ uploads) ++ slash ∷ u)
        ≡ ok (record info { instance_name = i; uuid = some u })
  unfolding parse_upload rsplitn
  read_long i u l = rw (
    rsplitn-append 1 slash (i ++ slash ∷ uploads) u l,
    rsplitn-append 0 slash i uploads uploads-Lacks,
    uploads_itself,
  )

  upload :
      (i u : Text)
      → Lacks slash u
      → u ≢ []
      → new (to_string (record info { instance_name = i; uuid = some u }) true) true
        ≡ ok (record info { instance_name = i; uuid = some u })
  unfolding to_string present join
  upload [] u l n =
      ap (λ t. new t true)
        (ap (λ ps. join slash (uploads ∷ ps)) (present-some info w u (tail_parts info w) n)
          ∙ (ap (λ t. uploads ++ slash ∷ t) (join-before info w u)
              ∙ sym (append_assoc uploads (slash ∷ u) (slash ∷ printed_tail info))))
      ∙ (new-with (uploads ++ slash ∷ u) true
          ∙ (ap read (beginning-with (uploads ++ slash ∷ u)) ∙ read_short u l))
  upload (c ∷ s) u l n =
      ap (λ t. new t true)
        (ap (λ ps. join slash ((c ∷ s) ∷ uploads ∷ ps))
            (present-some info w u (tail_parts info w) n)
          ∙ (ap (λ t. (c ∷ s) ++ slash ∷ (uploads ++ slash ∷ t)) (join-before info w u)
              ∙ sym (
                  append_assoc ((c ∷ s) ++ slash ∷ uploads) (slash ∷ u) (slash ∷ printed_tail info)
                  ∙ append_assoc (c ∷ s) (slash ∷ uploads)
                      ((slash ∷ u) ++ slash ∷ printed_tail info))))
      ∙ (new-with (((c ∷ s) ++ slash ∷ uploads) ++ slash ∷ u) true
          ∙ (ap read (beginning-with (((c ∷ s) ++ slash ∷ uploads) ++ slash ∷ u))
              ∙ read_long (c ∷ s) u l))

-- How the uuid goes with the kind of name: an upload has one, of one part, and a download has none.
abbrev pub Addressed : Bool → Option Text → Type 0
Addressed false uuid = uuid ≡ none
Addressed true uuid = (u : Text) × (uuid ≡ some u) × Lacks slash u × (u ≢ [])

-- A resource name that to_string prints is read back by new as the same fields, for downloads
-- without a uuid and for uploads with one that is not empty and has no slash, with any instance
-- name: when hash, size, compressor, digest function and metadata are parts without a slash, not
-- empty and neither blobs nor compressed-blobs, the compressor and the digest function are known
-- ones, the size is the printed number, and without a digest function the hash is not the name of
-- one.
pub new-to_string :
    (info : ResourceInfo) (is_upload : Bool)
    → IsPrintable info
    → Addressed is_upload info.uuid
    → new (to_string info is_upload) is_upload ≡ ok info
new-to_string info false w none_there =
    let same : info ≡ record info { uuid = none } = ap (λ u. record info { uuid = u }) none_there in
    subst (λ i. new (to_string i false) false ≡ ok i) (sym same)
      (download info w info.instance_name)
new-to_string info true w (u, there, l, n) =
    let same : info ≡ record info { uuid = some u } = ap (λ v. record info { uuid = v }) there in
    subst (λ i. new (to_string i true) true ≡ ok i) (sym same)
      (upload info w info.instance_name u l n)
