-- ===== src/ResourceInfo/Printed.antt =====
-- What `to_string` prints, as a list of words.
use native_link.Base.{
  ◌≢◌, Option, none, some, List, [], ◌∷◌, ◌++◌, ◌≡◌, refl, ◌∙◌, ap, Text, join, join-extend,
}
use native_link.ResourceInfo.{
  slash, compressors, digest_functions, ResourceInfo, present, blobs_part,
}
use native_link.ResourceInfo.Parts.{OptionalWord, OptionalPart, IsPrintable, opt}
use native_link.ResourceInfo.Words.{words, first, printed_tail}

module _ (info : ResourceInfo) (w : IsPrintable info) where
  open info use {compressor, digest_function, hash, size, expected_size, optional_metadata}

  pub present-some :
      (t : Text) (ps : List (Option Text)) → t ≢ [] → present (some t ∷ ps) ≡ t ∷ present ps
  unfolding present
  present-some [] ps n = absurd (n refl)
  present-some (c ∷ s) ps n = refl

  present-word :
      (ws : List Text) (o : Option Text) (ps : List (Option Text))
      → OptionalWord ws o
      → present (o ∷ ps) ≡ opt o (present ps)
  unfolding present
  present-word ws none ps v = refl
  present-word ws (some t) ps (i, one) = present-some t ps i.nonempty

  present-metadata : (o : Option Text) → OptionalPart o → present (o ∷ []) ≡ opt o []
  unfolding present
  present-metadata none i = refl
  present-metadata (some t) i = present-some t [] i.nonempty

  present-first :
      (c : Option Text) (ps : List (Option Text))
      → present (some (blobs_part c) ∷ ps) ≡ blobs_part c ∷ present ps
  unfolding present
  present-first none ps = refl
  present-first (some t) ps = refl

  abbrev pub tail_parts : List (Option Text)
  tail_parts =
      some (blobs_part compressor)
      ∷ compressor
      ∷ digest_function
      ∷ some hash
      ∷ some size
      ∷ optional_metadata
      ∷ []

  present-words : present tail_parts ≡ first info ∷ words info
  present-words =
      present-first compressor _
      ∙ ap (λ ps. first info ∷ ps)
          (present-word compressors compressor _ w.compressor_word
            ∙ ap (opt compressor) (
                present-word digest_functions digest_function _ w.digest_function_word
                ∙ ap (opt digest_function) (
                    present-some hash _ w.hash_part.nonempty
                    ∙ ap (λ ps. hash ∷ ps)
                        (present-some size _ w.size_part.nonempty
                          ∙ ap (λ ps. size ∷ ps)
                              (present-metadata optional_metadata w.metadata_part)))))

  pub join-words : join slash (present tail_parts) ≡ printed_tail info
  join-words = ap (join slash) present-words ∙ join-extend slash (first info) (words info)

  pub join-before :
      (t : Text) → join slash (t ∷ present tail_parts) ≡ t ++ slash ∷ printed_tail info
  join-before t =
      ap (λ ps. join slash (t ∷ ps)) present-words
      ∙ (unfold join in ap (λ u. t ++ slash ∷ u) (join-extend slash (first info) (words info)))
