-- ===== src/Squish/FreeChain/Remove.antt =====
-- _SquishRemoveFreeChain of sq_write.c on a free chain in order.
use mathlib.Core.Path.{subst, subst₂}
use xmsgapi.Base.{
  [], ap, arith, false, if◌then◌else◌, inl, inr, not, sym, ℕ, ◌&&◌, ◌++◌, ◌==◌, ◌||◌, ◌∙◌, ◌∷◌, ◌≡◌,
  ◌≢◌, ◌≤◌, ◌⊎◌,
}
use xmsgapi.Base.Cmd.{ok}
use xmsgapi.Base.Word.{IsLong}
use xmsgapi.Squish.Area.{Area}
use xmsgapi.Squish.Frame.Chain.{
  ApartFrom, Cells, Linked, Linked-split, Separate, Separate-append, Separate-middle,
}
use xmsgapi.Squish.Frame.Heap.{FrameAt-unique, Holds, moved}
use xmsgapi.Squish.Frame.Unlink.{unlink}
use xmsgapi.Squish.FreeChain.{squish_remove_free_chain}
use xmsgapi.Squish.FreeChain.Inv.{IsFreeChain, KeepsFrames, SameButFree}
use xmsgapi.Squish.Header.{Sqhdr, frame_free, null_frame}

-- What the removal of `fo` from between `ys` and `zs` does.
pub record Removed (ys zs : Cells) (fo : ℕ) (h : Sqhdr) (a a' : Area) : Type 0 where
  pub chain : IsFreeChain a' (ys ++ zs)
  pub same : SameButFree a a'
  pub frames : KeepsFrames (ys ++ zs) a a'

module _ (b : ℕ → ℕ) (size fo_end : ℕ) where
  -- The link into a piece is the frame behind it only if the piece is empty.
  enters :
      (ys : Cells) (c m k : ℕ)
      → Linked frame_free b size fo_end null_frame c m k ys
      → ApartFrom k ys
      → (m ≡ null_frame) × (c ≡ k) ⊎ (m ≢ null_frame) × (c ≢ k)
  enters [] c m k (e, f) apart = inl (f, e)
  enters ((g, n) ∷ ys) c m k (h, cell, ch) (apart, _) = inr (
    last_ne ys g h.next_frame m k ch (omega (arith, cell.frame.base)),
    let e = cell.here in ground arith,
  )
    where
      last_ne :
          (xs : Cells) (p d l s : ℕ)
          → Linked frame_free b size fo_end p d l s xs
          → p ≢ null_frame
          → l ≢ null_frame
      last_ne [] p d l s (e, f) ne = omega arith
      last_ne ((g, n) ∷ xs) p d l s (h, cell, ch) ne =
          last_ne xs g h.next_frame l s ch (omega (arith, cell.frame.base))

  -- The last frame of a piece that `fo` leads into is `fo` only if the piece is empty.
  leaves :
      (zs : Cells) (fo c l : ℕ)
      → Linked frame_free b size fo_end fo c l null_frame zs
      → ApartFrom fo zs
      → (c ≡ null_frame) × (l ≡ fo) ⊎ (c ≢ null_frame) × (l ≢ fo)
  leaves [] fo c l (e, f) apart = inl (e, f)
  leaves ((g, n) ∷ zs) fo c l (h, cell, ch) (apart, rest) =
      let e = cell.here in
      inr (
        omega (arith, cell.frame.base),
        last_ne zs g h.next_frame l null_frame ch (ground arith) rest,
      )
    where
      last_ne :
          (xs : Cells) (p d l s : ℕ)
          → Linked frame_free b size fo_end p d l s xs
          → p ≢ fo
          → ApartFrom fo xs
          → l ≢ fo
      last_ne [] p d l s (e, f) ne apart = omega arith
      last_ne ((g, n) ∷ xs) p d l s (h, cell, ch) ne (a, apart) =
          last_ne xs g h.next_frame l s ch (ground arith) apart

-- The tests of the code on the ends of the chain, for a cell between `prev` and `next`.
guard_passes :
    (first last fo prev next : ℕ)
    → (prev ≡ null_frame) × (first ≡ fo) ⊎ (prev ≢ null_frame) × (first ≢ fo)
    → (next ≡ null_frame) × (last ≡ fo) ⊎ (next ≢ null_frame) × (last ≢ fo)
    → ((prev == null_frame && not (fo == first)) || (next == null_frame && not (fo == last)))
      ≡ false
guard_passes first last fo prev next f l = ground arith

same_test :
    (first fo prev : ℕ)
    → (prev ≡ null_frame) × (first ≡ fo) ⊎ (prev ≢ null_frame) × (first ≢ fo)
    → (prev == null_frame) ≡ (first == fo)
same_test first fo prev f = ground arith

module _ (a : Area) (ys zs : Cells) (fo n : ℕ) (h : Sqhdr) (at : Holds a fo h)
    (sep : Separate (ys ++ ((fo, n) ∷ zs))) (room : a.sfd.size ≤ a.sfd.room)
    (small : IsLong a.fo_end)
    (front : Linked frame_free a.sfd.bytes a.sfd.size a.fo_end null_frame a.fo_free h.prev_frame fo
      ys)
    (back : Linked frame_free a.sfd.bytes a.sfd.size a.fo_end fo h.next_frame a.fo_last_free
      null_frame zs) where
  remove_between :
      (a' : Area) × (squish_remove_free_chain fo h a ≡ ok tt a') × Removed ys zs fo h a a'
  unfolding squish_remove_free_chain
  remove_between =
      let (sy, sz, fo_ys, fo_zs, ys_zs) = Separate-middle ys zs fo n sep in
      let b = a.sfd.bytes in
      let first = enters b a.sfd.size a.fo_end ys a.fo_free h.prev_frame fo front fo_ys in
      let last = leaves b a.sfd.size a.fo_end zs fo h.next_frame a.fo_last_free back fo_zs in
      let u =
        unlink frame_free a ys zs fo n a.fo_free a.fo_last_free h room sep at.fits front back in
      let c' = if a.fo_free == fo then h.next_frame else a.fo_free in
      let l' = if a.fo_last_free == fo then h.prev_frame else a.fo_last_free in
      let e =
        ap (λ t. if t then h.next_frame else a.fo_free)
          (same_test a.fo_free fo h.prev_frame first) in
      let d =
        ap (λ t. if t then h.prev_frame else a.fo_last_free)
          (same_test a.fo_last_free fo h.next_frame last) in
      (
        record (moved u.bytes u.pos a) { fo_free = c'; fo_last_free = l' },
        rw (
          guard_passes a.fo_free a.fo_last_free fo h.prev_frame h.next_frame first last,
          u.next_runs,
          u.prev_runs,
        ),
        record {
          chain = record {
            chain =
                subst₂
                  (λ p q.
                    Linked frame_free u.bytes a.sfd.size a.fo_end null_frame p q null_frame
                      (ys ++ zs))
                  e d u.chain;
            separate = Separate-append ys zs sy sz ys_zs;
            room = room;
            small = small;
          };
          same = ground arith;
          frames = u.keeps;
        },
      )

-- _SquishRemoveFreeChain on a free chain in order, for one of its cells and the header that stands
-- there: it succeeds, the chain is the list without that cell and is in order, nothing of the
-- area changes but the bytes and the position of the data file and the two ends of the chain, and
-- the frames apart from the cells that are left keep their headers.
pub squish_remove_free_chain_lem :
    (a : Area) (ys zs : Cells) (fo n : ℕ) (h : Sqhdr)
    → Holds a fo h
    → IsFreeChain a (ys ++ ((fo, n) ∷ zs))
    → (a' : Area) × (squish_remove_free_chain fo h a ≡ ok tt a') × Removed ys zs fo h a a'
squish_remove_free_chain_lem a ys zs fo n h at inv =
    let b = a.sfd.bytes in
    let (m, k, front, (h', cell, back)) =
      Linked-split frame_free b a.sfd.size a.fo_end ys ((fo, n) ∷ zs) null_frame a.fo_free
        a.fo_last_free null_frame inv.chain in
    let same : h' ≡ h = FrameAt-unique cell.frame at in
    let prev : m ≡ h.prev_frame = sym cell.back ∙ ap (λ (j : Sqhdr). j.prev_frame) same in
    remove_between a ys zs fo n h at inv.separate inv.room inv.small
      (subst₂ (λ u v. Linked frame_free b a.sfd.size a.fo_end null_frame a.fo_free u v ys) prev
        cell.here front)
      (subst (λ u. Linked frame_free b a.sfd.size a.fo_end fo u a.fo_last_free null_frame zs)
        (ap (λ (j : Sqhdr). j.next_frame) same) back)
