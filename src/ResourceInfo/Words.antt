-- ===== src/ResourceInfo/Words.antt =====
-- The words of a printed name, as `rsplitn` takes them apart and `recursive_parse` reads them.
use native_link.Base.{
  ℕ, suc, ◌+◌, Option, none, some, List, [], ◌∷◌, ◌++◌, ◌≡◌, refl, sym, ◌∙◌, ap, arith, ok, length,
  take, Text, rsplitn, Lacks, extend, AllLack, rev_onto, rsplitn-append, rsplitn_lack,
  rsplitn-extend, extend-append, weight, length-extend,
}
use native_link.ResourceInfo.{
  slash, compressors, digest_functions, ResourceInfo, default_info, metadata_next, recursive_parse,
  blobs_part,
}
use native_link.ResourceInfo.Parts.{
  OptionalWord, OptionalPart, IsPrintable, opt, plus_part, total_bytes, parse_all,
}

-- The words after the instance name, the upload's words and `blobs`, in order.
abbrev pub words : ResourceInfo → List Text
words info =
    opt info.compressor
      (opt info.digest_function (info.hash ∷ info.size ∷ opt info.optional_metadata []))

abbrev pub first : ResourceInfo → Text
first info = blobs_part info.compressor

abbrev pub printed_tail : ResourceInfo → Text
printed_tail info = extend slash (first info) (words info)

module _ (info : ResourceInfo) (w : IsPrintable info) where
  open info use {compressor, digest_function, hash, size, expected_size, optional_metadata}

  take-append_self : (xs ys : Text) → take (length xs) (xs ++ ys) ≡ xs
  take-append_self [] ys = refl
  take-append_self (x ∷ xs) ys = ap (λ zs. x ∷ zs) (take-append_self xs ys)

  words-reverse :
      (c d m : Option Text) (h t : Text) (acc : List Text)
      → rev_onto (opt c (opt d (h ∷ t ∷ opt m []))) acc ≡ opt m (t ∷ h ∷ opt d (opt c acc))
  words-reverse none none none h t acc = refl
  words-reverse none none (some z) h t acc = refl
  words-reverse none (some y) none h t acc = refl
  words-reverse none (some y) (some z) h t acc = refl
  words-reverse (some x) none none h t acc = refl
  words-reverse (some x) none (some z) h t acc = refl
  words-reverse (some x) (some y) none h t acc = refl
  words-reverse (some x) (some y) (some z) h t acc = refl

  -- At most five words.
  words_few :
      (c d m : Option Text) (h t : Text)
      → (n : ℕ) × (length (opt c (opt d (h ∷ t ∷ opt m []))) + suc n ≡ 6)
  words_few none none none h t = (3, omega arith)
  words_few none none (some z) h t = (2, omega arith)
  words_few none (some y) none h t = (2, omega arith)
  words_few none (some y) (some z) h t = (1, omega arith)
  words_few (some x) none none h t = (2, omega arith)
  words_few (some x) none (some z) h t = (1, omega arith)
  words_few (some x) (some y) none h t = (1, omega arith)
  words_few (some x) (some y) (some z) h t = (0, omega arith)

  word-AllLack :
      (ws : List Text) (o : Option Text) (ps : List Text)
      → OptionalWord ws o
      → AllLack slash ps
      → AllLack slash (opt o ps)
  word-AllLack ws none ps v l = l
  word-AllLack ws (some t) ps (i, one) l = (i.one_part, l)

  metadata-AllLack : (o : Option Text) → OptionalPart o → AllLack slash (opt o [])
  metadata-AllLack none i = tt
  metadata-AllLack (some t) i = (i.one_part, tt)

  words-AllLack : AllLack slash (words info)
  words-AllLack = word-AllLack compressors compressor _ w.compressor_word (
      word-AllLack digest_functions digest_function _ w.digest_function_word (
        w.hash_part.one_part,
        (w.size_part.one_part, metadata-AllLack optional_metadata w.metadata_part),
      ))

  first-Lacks : (c : Option Text) → Lacks slash (blobs_part c)
  first-Lacks none = omega arith
  first-Lacks (some t) = omega arith

  bytes_sum :
      (c d m : Option Text) (h t : Text) (n : ℕ)
      → plus_part m (plus_part d (plus_part c (n + 1)) + (length h + 1) + length t)
        ≡ n + weight (opt c (opt d (h ∷ t ∷ opt m [])))
  unfolding weight
  bytes_sum none none none h t n = omega arith
  bytes_sum none none (some z) h t n = omega arith
  bytes_sum none (some y) none h t n = omega arith
  bytes_sum none (some y) (some z) h t n = omega arith
  bytes_sum (some x) none none h t n = omega arith
  bytes_sum (some x) none (some z) h t n = omega arith
  bytes_sum (some x) (some y) none h t n = omega arith
  bytes_sum (some x) (some y) (some z) h t n = omega arith

  bytes_lem : total_bytes info w [] ≡ length (printed_tail info)
  bytes_lem =
      bytes_sum compressor digest_function optional_metadata hash size (length (first info))
      ∙ sym (length-extend slash (first info) (words info))

  -- The parts of a text that begins with anything, and ends with the printed words.
  pub split_with :
      (start : Text)
      → (rest : List Text) × (rsplitn 7 slash (start ++ slash ∷ printed_tail info)
          ≡ rev_onto (words info) (first info ∷ rest))
  split_with start =
      let (n, e) = words_few compressor digest_function optional_metadata hash size in
      (
        rsplitn (suc n) slash start,
        ap (λ t. rsplitn 7 slash (start ++ t))
              (sym (extend-append slash (slash ∷ []) (first info) (words info)))
            ∙ (ap (rsplitn 7 slash)
                  (sym (extend-append slash start (slash ∷ first info) (words info)))
                ∙ (ap
                      (λ k.
                        rsplitn (suc k) slash
                          (extend slash (start ++ slash ∷ first info) (words info)))
                      (sym e)
                    ∙ (rsplitn-extend (words info) (suc n) slash (start ++ slash ∷ first info)
                          words-AllLack
                        ∙ ap (rev_onto (words info))
                            (rsplitn-append n slash start (first info) (first-Lacks compressor))))),
      )

  pub split_alone : rsplitn 7 slash (printed_tail info) ≡ rev_onto (words info) (first info ∷ [])
  split_alone =
      let (n, e) = words_few compressor digest_function optional_metadata hash size in
      ap (λ k. rsplitn (suc k) slash (printed_tail info)) (sym e)
      ∙ (rsplitn-extend (words info) (suc n) slash (first info) words-AllLack
          ∙ ap (rev_onto (words info))
              (rsplitn_lack (suc n) slash (first info) (first-Lacks compressor)))

  pub parse_words :
      (rest : List Text)
      → recursive_parse (rev_onto (words info) (first info ∷ rest)) default_info
        ≡ ok (record {
          state = metadata_next;
          output = record info { instance_name = []; uuid = none };
          bytes = length (printed_tail info);
        })
  parse_words rest =
      ap (λ rs. recursive_parse rs default_info)
        (words-reverse compressor digest_function optional_metadata hash size (first info ∷ rest))
      ∙ (parse_all info w rest
          ∙ ap
              (λ k. ok (record {
                state = metadata_next;
                output = record info { instance_name = []; uuid = none };
                bytes = k;
              }))
              bytes_lem)
