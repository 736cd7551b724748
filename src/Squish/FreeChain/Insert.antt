-- ===== src/Squish/FreeChain/Insert.antt =====
-- _SquishInsertFreeChain of sq_help.c on a free chain in order.
use mathlib.Core.Path.{subst}
use xmsgapi.Base.{
  All-split, [], ap, arith, eq→==, inl, inr, ne→==, refl, snoc-cases, sym, ℕ, ◌++◌, ◌∙◌, ◌∷◌, ◌≡◌,
  ◌≢◌, ◌≤◌,
}
use xmsgapi.Base.Cmd.{ok}
use xmsgapi.Base.Word.{IsDword}
use xmsgapi.Squish.Area.{Area}
use xmsgapi.Squish.Frame.Chain.{
  Apart-sym, ApartFrom, ApartFrom-of_cross, CellAt, Cells, Linked-apart, Linked-join, Linked-split,
  Separate-append, Separate-split, cross-of_ApartFrom,
}
use xmsgapi.Squish.Frame.Heap.{
  Apart, FrameAt, FrameAt-Apart, FrameAt-with_hdr, Holds, put_hdr, with_hdr,
}
use xmsgapi.Squish.Frame.Laws.{squish_set_frame_next-ok, squish_write_hdr-ok}
use xmsgapi.Squish.FreeChain.{squish_insert_free_chain}
use xmsgapi.Squish.FreeChain.Inv.{IsFreeChain, KeepsFrames, SameButFree}
use xmsgapi.Squish.Header.{Sqhdr, frame_free, null_frame, sqhdr_id}
use xmsgapi.Squish.Header.RoundTrip.{FitsSqhdr}

-- The header that the released frame gets behind `prev`.
abbrev pub freed_hdr : Sqhdr → ℕ → Sqhdr
freed_hdr h prev = record h {
  id = sqhdr_id;
  frame_type = frame_free;
  msg_length = 0;
  clen = 0;
  prev_frame = prev;
  next_frame = null_frame;
}

freed_hdr-fits : (h : Sqhdr) (prev : ℕ) → FitsSqhdr h → IsDword prev → FitsSqhdr (freed_hdr h prev)
freed_hdr-fits h prev fits p = omega arith

module _ (a : Area) (fo : ℕ) (h : Sqhdr) (at : Holds a fo h) where
  insert_into_empty :
      a.fo_last_free ≡ null_frame
      → a.sfd.size ≤ a.sfd.room
      → squish_insert_free_chain fo h a
        ≡ ok tt (record (put_hdr fo (freed_hdr h null_frame) a) { fo_free = fo; fo_last_free = fo })
  unfolding squish_insert_free_chain
  insert_into_empty e room = rw (
    eq→== a.fo_last_free null_frame e,
    squish_write_hdr-ok a fo (freed_hdr h null_frame) at.base (omega (arith, at.below, at.small))
        at.inside room,
  )

  insert_behind :
      (l : Sqhdr)
      → a.fo_last_free ≢ null_frame
      → Holds a a.fo_last_free l
      → a.sfd.size ≤ a.sfd.room
      → squish_insert_free_chain fo h a
        ≡ ok tt
            (record (put_hdr fo
              (freed_hdr h a.fo_last_free)
              (put_hdr a.fo_last_free (record l { next_frame = fo }) a)) { fo_last_free = fo })
  unfolding squish_insert_free_chain
  insert_behind l ne last room = rw (
    ne→== a.fo_last_free null_frame ne,
    squish_set_frame_next-ok a a.fo_last_free fo last room,
    squish_write_hdr-ok (put_hdr a.fo_last_free (record l { next_frame = fo }) a) fo
        (freed_hdr h a.fo_last_free) at.base (omega (arith, at.below, at.small)) at.inside room,
  )

-- What an insertion of the frame `fo` with `n` bytes does.
pub record Inserted (fo n : ℕ) (xs : Cells) (a a' : Area) : Type 0 where
  pub chain : IsFreeChain a' (xs ++ ((fo, n) ∷ []))
  pub same : SameButFree a a'
  pub frames : KeepsFrames ((fo, n) ∷ xs) a a'

abbrev InsertedBy : Area → ℕ → Sqhdr → Cells → Type 0
InsertedBy a fo h xs =
    (a' : Area) × (squish_insert_free_chain fo h a ≡ ok tt a') × Inserted fo h.frame_length xs a a'

module _ (a : Area) (fo : ℕ) (h : Sqhdr) (at : Holds a fo h) where
  freed_cell :
      (b : ℕ → ℕ) (prev : ℕ)
      → FrameAt b a.sfd.size a.fo_end fo h
      → IsDword prev
      → CellAt frame_free
          (with_hdr b fo (freed_hdr h prev))
          a.sfd.size
          a.fo_end
          prev
          fo
          fo
          h.frame_length
          (freed_hdr h prev)
  freed_cell b prev there p = record {
    frame = FrameAt-with_hdr b (freed_hdr h prev) there (freed_hdr-fits h prev at.fits p) refl;
    here = refl;
    kind = refl;
    back = refl;
    length = refl;
  }

  insert_first : IsFreeChain a [] → InsertedBy a fo h []
  insert_first inv =
      let e : a.fo_last_free ≡ null_frame = inv.chain.1 in
      (
        record (put_hdr fo (freed_hdr h null_frame) a) { fo_free = fo; fo_last_free = fo },
        insert_into_empty a fo h at e inv.room,
        record {
          chain = record {
            chain = (
              freed_hdr h null_frame,
              freed_cell a.sfd.bytes null_frame at (omega arith),
              (refl, refl),
            );
            separate = (tt, tt);
            room = inv.room;
            small = inv.small;
          };
          same = ground arith;
          frames = λ g k apart there.
              FrameAt-Apart a.sfd.bytes fo (freed_hdr h null_frame) there (Apart-sym g fo apart.0);
        },
      )

  relinked-fits : (l : Sqhdr) → FitsSqhdr l → IsDword fo → FitsSqhdr (record l { next_frame = fo })
  relinked-fits l fits d = omega arith

  insert_last :
      (ys : Cells) (n : ℕ)
      → IsFreeChain a (ys ++ ((a.fo_last_free, n) ∷ []))
      → ApartFrom fo (ys ++ ((a.fo_last_free, n) ∷ []))
      → InsertedBy a fo h (ys ++ ((a.fo_last_free, n) ∷ []))
  insert_last ys n inv apart =
      let l = a.fo_last_free in
      let b = a.sfd.bytes in
      let end : Cells = (l, n) ∷ [] in
      let (m, k, front, (hl, c, _)) =
        Linked-split frame_free b a.sfd.size a.fo_end ys end null_frame a.fo_free l null_frame
          inv.chain in
      let hl' : Sqhdr = record hl { next_frame = fo } in
      let new : Sqhdr = freed_hdr h l in
      let (_, _, cross) = Separate-split ys end inv.separate in
      let (fo_ys, (fo_l, _)) = All-split (λ d. Apart fo d.0) ys end apart in
      let ne : l ≢ null_frame = omega (arith, c.frame.base) in
      let small : IsDword fo = omega (arith, inv.small, at.below) in
      let small_l : IsDword l = omega (arith, inv.small, c.frame.below) in
      let b1 = with_hdr b l hl' in
      let front2 =
        Linked-apart frame_free b1 a.sfd.size a.fo_end ys null_frame a.fo_free m k fo new
          (Linked-apart frame_free b a.sfd.size a.fo_end ys null_frame a.fo_free m k l hl' front
            (ApartFrom-of_cross ys l n cross))
          fo_ys in
      let lcell : CellAt frame_free (with_hdr b1 fo new) a.sfd.size a.fo_end m k l n hl' = record {
        frame =
            FrameAt-Apart b1 fo new
              (FrameAt-with_hdr b hl' c.frame (relinked-fits hl c.frame.fits small) c.frame.id)
              fo_l;
        here = c.here;
        kind = c.kind;
        back = c.back;
        length = c.length;
      } in
      let fcell = freed_cell b1 l (FrameAt-Apart b l hl' at (Apart-sym fo l fo_l)) small_l in
      (
        record (put_hdr fo new (put_hdr l hl' a)) { fo_last_free = fo },
        insert_behind a fo h at hl ne c.frame inv.room,
        record {
          chain = record {
            chain =
                Linked-join frame_free _ a.sfd.size a.fo_end (ys ++ end) ((fo, h.frame_length) ∷ [])
                  null_frame a.fo_free l fo fo null_frame
                  (Linked-join frame_free _ a.sfd.size a.fo_end ys end null_frame a.fo_free m k l fo
                    front2 (hl', lcell, (refl, refl)))
                  (new, fcell, (refl, refl));
            separate =
                Separate-append (ys ++ end) ((fo, h.frame_length) ∷ []) inv.separate (tt, tt)
                  (cross-of_ApartFrom (ys ++ end) fo h.frame_length apart);
            room = inv.room;
            small = inv.small;
          };
          same = ground arith;
          frames = λ g q (g_fo, g_xs) there.
              let (_, (g_l, _)) = All-split (λ d. Apart g d.0) ys end g_xs in
              FrameAt-Apart b1 fo new (FrameAt-Apart b l hl' there (Apart-sym g l g_l))
                (Apart-sym g fo g_fo);
        },
      )

  -- The chain has no cell, or its last one is at `fo_last_free`.
  last_cell : (ys : Cells) (l n : ℕ) → IsFreeChain a (ys ++ ((l, n) ∷ [])) → l ≡ a.fo_last_free
  last_cell ys l n inv =
      let (m, k, front, (hl, c, (_, e))) =
        Linked-split frame_free a.sfd.bytes a.sfd.size a.fo_end ys ((l, n) ∷ []) null_frame
          a.fo_free a.fo_last_free null_frame inv.chain in
      sym e

-- _SquishInsertFreeChain on a free chain in order, for a frame whose header overlaps none of
-- those of its cells: it succeeds, the frame becomes the last cell of the chain with its length
-- unchanged, the chain is in order again, nothing of the area changes but the bytes and the
-- position of the data file and the two ends of the chain, and every frame apart from it and from
-- the cells keeps its header.
pub squish_insert_free_chain_lem :
    (a : Area) (fo : ℕ) (h : Sqhdr) (xs : Cells)
    → Holds a fo h
    → IsFreeChain a xs
    → ApartFrom fo xs
    → (a' : Area) × (squish_insert_free_chain fo h a ≡ ok tt a')
      × Inserted fo h.frame_length xs a a'
squish_insert_free_chain_lem a fo h xs at inv apart = elim (snoc-cases xs) [
  | inl e ↦ subst (InsertedBy a fo h) (sym e) (insert_first a fo h at (subst (IsFreeChain a) e inv))
  | inr (ys, (l, n), e) ↦
      let d : l ≡ a.fo_last_free = last_cell a fo h at ys l n (subst (IsFreeChain a) e inv) in
      let whole : xs ≡ ys ++ ((a.fo_last_free, n) ∷ []) = e ∙ ap (λ v. ys ++ ((v, n) ∷ [])) d in
      subst (InsertedBy a fo h) (sym whole) (
        insert_last a fo h at ys n (subst (IsFreeChain a) whole inv)
          (subst (ApartFrom fo) whole apart))
]
