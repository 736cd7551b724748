-- ===== src/Squish/Kill/Whole.antt =====
-- A base in order, and the pointers to its messages after one of them is gone.
-- The messages of `ms` and the free frames of `xs` are chains of the data file, in order, and no
-- two of the frames overlap.
use xmsgapi.Base.{All, All-append, [], if◌then◌else◌, leb, ne→==, ℕ, ◌++◌, ◌∷◌, ◌≡◌, ◌≢◌}
use xmsgapi.Base.Cmd.{ok}
use xmsgapi.Base.Word.{sub32}
use xmsgapi.Squish.Area.{Area}
use xmsgapi.Squish.Frame.Chain.{Apart-sym, ApartFrom, Cells, Linked, Separate}
use xmsgapi.Squish.Frame.Heap.{Apart}
use xmsgapi.Squish.FreeChain.Inv.{IsFreeChain}
use xmsgapi.Squish.Header.{Sqhdr, frame_normal, null_frame}
use xmsgapi.Squish.Pointers.{count_down, fix_links, squish_fix_memory_pointers}

pub record IsBase (a : Area) (ms xs : Cells) : Type 0 where
  pub messages :
      Linked frame_normal a.sfd.bytes a.sfd.size a.fo_end null_frame a.fo_first a.fo_last null_frame
        ms
  pub separate : Separate ms
  pub free : IsFreeChain a xs
  pub cross : All (λ c. ApartFrom c.0 xs) ms

pub cross-snoc :
    (ms xs : Cells) (fo n : ℕ)
    → All (λ c. ApartFrom c.0 xs) ms
    → ApartFrom fo ms
    → All (λ c. ApartFrom c.0 (xs ++ ((fo, n) ∷ []))) ms
cross-snoc [] xs fo n cross apart = tt
cross-snoc ((g, m) ∷ ms) xs fo n (x, cross) (a, apart) = (
  All-append (λ q. Apart g q.0) xs ((fo, n) ∷ []) x (Apart-sym fo g a, tt),
  cross-snoc ms xs fo n cross apart,
)

pub cross-cons :
    (ms xs : Cells) (fo n : ℕ)
    → All (λ c. ApartFrom c.0 xs) ms
    → ApartFrom fo ms
    → All (λ c. ApartFrom c.0 ((fo, n) ∷ xs)) ms
cross-cons [] xs fo n cross apart = tt
cross-cons ((g, m) ∷ ms) xs fo n (x, cross) (a, apart) =
    ((Apart-sym fo g a, x), cross-cons ms xs fo n cross apart)

-- The area behind _SquishFixMemoryPointers where message `m` is not the current one.
abbrev pub fixed : ℕ → Sqhdr → Area → Area
fixed m h c = count_down m (record (fix_links m h c) {
  cur_msg = if leb m c.cur_msg then sub32 c.cur_msg 1 else c.cur_msg;
})

pub fix-other :
    (m : ℕ) (h : Sqhdr) (c : Area)
    → m ≢ c.cur_msg
    → squish_fix_memory_pointers m h c ≡ ok tt (fixed m h c)
unfolding squish_fix_memory_pointers fix_links
fix-other m h c other = rw (ne→== m c.cur_msg other)
