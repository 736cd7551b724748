-- ===== src/Squish/Frame/Relink.antt =====
-- Changing the last `next_frame` link of a piece of a chain, or the first `prev_frame` link.
use mathlib.Core.Path.{subst}
use xmsgapi.Base.{
  All-split, [], arith, eq→==, false, if◌then◌else◌, inl, inr, ne→==, refl, snoc-cases, sym, ℕ,
  ◌++◌, ◌+◌, ◌==◌, ◌∷◌, ◌≡◌, ◌≤◌,
}
use xmsgapi.Base.Cmd.{Run, ok}
use xmsgapi.Base.Word.{IsDword}
use xmsgapi.Squish.Area.{Area}
use xmsgapi.Squish.Frame.{next_unless_null, prev_unless_null}
use xmsgapi.Squish.Frame.Chain.{
  ApartFrom-of_cross, Apart-sym, CellAt, Cells, Keeps, Linked, Linked-apart, Linked-join,
  Linked-split, Separate, Separate-split,
}
use xmsgapi.Squish.Frame.Heap.{Apart, FrameAt-Apart, FrameAt-with_hdr, moved, with_hdr}
use xmsgapi.Squish.Frame.Laws.{squish_set_frame_next-ok, squish_set_frame_prev-ok}
use xmsgapi.Squish.Header.{Sqhdr, null_frame, sqhdr_size}
use xmsgapi.Squish.Header.RoundTrip.{FitsSqhdr}

-- The outcome: the area with new bytes `b` and the chain that they hold.
pub record Relinked (ft : ℕ) (a : Area) (run : Run Area (Unit {0})) (p c l s : ℕ) (xs : Cells)
    (b : ℕ → ℕ) (pos : ℕ) : Type 0 where
  pub runs : run ≡ ok tt (moved b pos a)
  pub chain : Linked ft b a.sfd.size a.fo_end p c l s xs
  pub keeps : Keeps xs a.sfd.bytes b a.sfd.size a.fo_end

module _ (ft : ℕ) (a : Area) (room : a.sfd.size ≤ a.sfd.room) where
  abbrev Result : (c m v : ℕ) → Cells → Type 0
  Result c m v ys =
      (b : ℕ → ℕ) × (pos : ℕ) × Relinked ft a (next_unless_null m v a) null_frame
        (if m == null_frame then v else c) m v ys b pos

  relink_last_cell :
      (ys : Cells) (c m n k s v : ℕ)
      → Linked ft a.sfd.bytes a.sfd.size a.fo_end null_frame c m s (ys ++ ((k, n) ∷ []))
      → Separate (ys ++ ((k, n) ∷ []))
      → IsDword v
      → Result c m v (ys ++ ((k, n) ∷ []))
  relink_last_cell ys c m n k s v ch sep d =
      let end : Cells = (k, n) ∷ [] in
      let b = a.sfd.bytes in
      let (p, q, front, (h, cell, (_, last))) =
        Linked-split ft b a.sfd.size a.fo_end ys end null_frame c m s ch in
      let h' : Sqhdr = record h { next_frame = v } in
      let fits : FitsSqhdr h' = let f = cell.frame.fits in omega arith in
      let apart = ApartFrom-of_cross ys k n (Separate-split ys end sep).2 in
      let ne : (k == null_frame) ≡ false = ne→== k null_frame (omega (arith, cell.frame.base)) in
      let test : (if m == null_frame then v else c) ≡ c = rw (last, ne) in
      let cell' : CellAt ft (with_hdr b k h') a.sfd.size a.fo_end p q k n h' = record {
        frame = FrameAt-with_hdr b h' cell.frame fits cell.frame.id;
        here = cell.here;
        kind = cell.kind;
        back = cell.back;
        length = cell.length;
      } in
      (
        with_hdr b k h',
        k + sqhdr_size,
        record {
          runs = rw (last, ne, squish_set_frame_next-ok a k v cell.frame room);
          chain =
              subst
                (λ x. Linked ft (with_hdr b k h') a.sfd.size a.fo_end null_frame x m v (ys ++ end))
                (sym test)
                (Linked-join ft (with_hdr b k h') a.sfd.size a.fo_end ys end null_frame c p q m v
                  (Linked-apart ft b a.sfd.size a.fo_end ys null_frame c p q k h' front apart)
                  (h', cell', (refl, last)));
          keeps = λ g j g_apart there.
              FrameAt-Apart b k h' there
                (Apart-sym g k (All-split (λ d. Apart g d.0) ys end g_apart).1.0);
        },
      )

  relink_none :
      (c m s v : ℕ)
      → Linked ft a.sfd.bytes a.sfd.size a.fo_end null_frame c m s []
      → Result c m v []
  relink_none c m s v (e, f) = (
    a.sfd.bytes,
    a.sfd.pos,
    record {
      runs = rw (eq→== m null_frame f);
      chain = (rw (eq→== m null_frame f), f);
      keeps = λ g j _ there. there;
    },
  )

  -- `set_frame_next` on the last frame of a piece that starts the chain, if it has one.
  pub relink_next :
      (ys : Cells) (c m s v : ℕ)
      → Linked ft a.sfd.bytes a.sfd.size a.fo_end null_frame c m s ys
      → Separate ys
      → IsDword v
      → (b : ℕ → ℕ) × (pos : ℕ) × Relinked ft a
          (next_unless_null m v a)
          null_frame
          (if m == null_frame then v else c)
          m
          v
          ys
          b
          pos
  relink_next ys c m s v ch sep d = elim (snoc-cases ys) [
    | inl e ↦ subst (Result c m v) (sym e) (
        relink_none c m s v
          (subst (Linked ft a.sfd.bytes a.sfd.size a.fo_end null_frame c m s) e ch))
    | inr (front, (k, n), e) ↦ subst (Result c m v) (sym e) (
        relink_last_cell front c m n k s v
          (subst (Linked ft a.sfd.bytes a.sfd.size a.fo_end null_frame c m s) e ch)
          (subst Separate e sep) d)
  ]

  -- `set_frame_prev` on the first frame of a piece that ends the chain, if it has one.
  pub relink_prev :
      (zs : Cells) (p c l v : ℕ)
      → Linked ft a.sfd.bytes a.sfd.size a.fo_end p c l null_frame zs
      → Separate zs
      → IsDword v
      → (b : ℕ → ℕ) × (pos : ℕ) × Relinked ft a
          (prev_unless_null c v a)
          v
          c
          (if c == null_frame then v else l)
          null_frame
          zs
          b
          pos
  relink_prev [] p c l v (e, f) sep d = (
    a.sfd.bytes,
    a.sfd.pos,
    record {
      runs = rw (eq→== c null_frame e);
      chain = (e, rw (eq→== c null_frame e));
      keeps = λ g j _ there. there;
    },
  )
  relink_prev ((k, n) ∷ zs) p c l v (h, cell, ch) (apart, sep) d =
      let b = a.sfd.bytes in
      let h' : Sqhdr = record h { prev_frame = v } in
      let fits : FitsSqhdr h' = let f = cell.frame.fits in omega arith in
      let here : c ≡ k = cell.here in
      let ne : (k == null_frame) ≡ false = ne→== k null_frame (omega (arith, cell.frame.base)) in
      let cell' : CellAt ft (with_hdr b k h') a.sfd.size a.fo_end v c k n h' = record {
        frame = FrameAt-with_hdr b h' cell.frame fits cell.frame.id;
        here = cell.here;
        kind = cell.kind;
        back = refl;
        length = cell.length;
      } in
      (
        with_hdr b k h',
        k + sqhdr_size,
        record {
          runs = rw (here, ne, squish_set_frame_prev-ok a k v cell.frame room);
          chain = (
            h',
            cell',
            rw (here, ne)
                (Linked-apart ft b a.sfd.size a.fo_end zs k h.next_frame l null_frame k h' ch
                  apart),
          );
          keeps = λ g j (g_k, _) there. FrameAt-Apart b k h' there (Apart-sym g k g_k);
        },
      )
