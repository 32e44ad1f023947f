-- ===== src/FastCdc/Session.antt =====
-- The frames of a stream, however its bytes arrive.
use native_link.Base.{concat, ℕ, suc, List, ◌++◌, ◌≡◌, sym, ◌∙◌, ap, subst, arith, length}
use native_link.FastCdc.{FastCdc}
use native_link.FastCdc.Frames.{Sized}
use native_link.FastCdc.Chunks.{chunks, Bounded, concat-chunks, chunks-Bounded}
use native_link.FastCdc.Arrivals.{Session, Session-Splits, Splits-chunks}
use native_link.FastCdc.Ending.{Tail, Tail-chunks, Tail_exists}

module _ (c : FastCdc) (s : Sized c) where
  -- When the smallest size is positive and below the largest, after any stream finitely many calls
  -- of decode_eof bring the one that gives no frame.
  pub Session-Tail :
      {fed buf : List ℕ} {fs : List (List ℕ)} {d : FastCdc}
      → Session c fed fs d buf
      → (ts : List (List ℕ)) × Tail d buf ts
  Session-Tail {fed} {buf} session =
      let (h, p, e, r, sp) = Session-Splits c s session in
      subst (λ x. (ts : List (List ℕ)) × Tail x buf ts) (sym e)
        (Tail_exists c s (suc (length buf)) h p buf r (omega arith))

  module _ {fed buf : List ℕ} {fs ts : List (List ℕ)} {d : FastCdc}
      (session : Session c fed fs d buf) (tail : Tail d buf ts) where
    -- When the smallest size is positive and below the largest, the frames that decode gives while
    -- bytes arrive in any pieces, with any calls between them, and then those of decode_eof, are
    -- those that one pass over the whole text gives.
    pub Session-chunks : fs ++ ts ≡ chunks (suc (length fed)) c fed
    Session-chunks =
        let (h, p, e, r, sp) = Session-Splits c s session in
        ap (λ gs. fs ++ gs) (Tail-chunks c s tail h p e r (suc (length buf)) (omega arith))
        ∙ sym (
            Splits-chunks c s fs fed buf (suc (length fed)) (suc (length buf)) sp (omega arith)
              (omega arith))

    -- When the smallest size is positive and below the largest, the frames of a stream, in order,
    -- are together the bytes that arrived: none is lost, repeated or moved.
    pub Session-concat : concat (fs ++ ts) ≡ fed
    Session-concat =
        ap concat Session-chunks ∙ concat-chunks c s (suc (length fed)) fed (omega arith)

    -- When the smallest size is positive and below the largest, each frame of a stream but the
    -- last has at least the smallest size, the last is not empty, and none exceeds the largest
    -- size.
    pub Session-Bounded : Bounded c (fs ++ ts)
    Session-Bounded =
        subst (Bounded c) (sym Session-chunks) (chunks-Bounded c s (suc (length fed)) fed)
