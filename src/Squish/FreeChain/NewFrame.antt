-- ===== src/Squish/FreeChain/NewFrame.antt =====
-- _SquishGetNewFrame of sq_write.c on a free chain in order.
use mathlib.Core.Path.{subst}
use xmsgapi.Base.{
  All, Bool-cases, Option, [], ap, arith, inl, inr, leb, none, refl, some, ℕ, ◌++◌, ◌+◌, ◌<◌, ◌∙◌,
  ◌∷◌, ◌≡◌, ◌≤◌, ◌⊎◌,
}
use xmsgapi.Base.Cmd.{and_then, ok, pure}
use xmsgapi.Squish.Area.{Area}
use xmsgapi.Squish.Frame.Chain.{Cells}
use xmsgapi.Squish.Frame.Heap.{Holds}
use xmsgapi.Squish.FreeChain.{serve, squish_get_new_frame, squish_probe_free_chain}
use xmsgapi.Squish.FreeChain.AtEnd.{CanGrow, FrameAt-grow, Grown, Linked-grow, eof-grown, grown}
use xmsgapi.Squish.FreeChain.Inv.{IsFreeChain, SameButFree}
use xmsgapi.Squish.FreeChain.Probe.{
  Answers, at_pos, first_fit, first_fit-split, squish_probe_free_chain-first_fit,
}
use xmsgapi.Squish.FreeChain.Remove.{Removed, squish_remove_free_chain_lem}
use xmsgapi.Squish.Header.{Sqhdr, null_frame}

-- What _SquishGetNewFrame has to give for `dw_len` bytes: the first cell that is long enough, taken
-- out of the chain, or else a frame at the end of the file.
pub Provides : ℕ → Cells → Area → Type 0
Provides dw_len xs a =
    ((ys : Cells) × (zs : Cells) × (fo : ℕ) × (n : ℕ) × (h : Sqhdr) × (xs ≡ ys ++ ((fo, n) ∷ zs))
      × (dw_len ≤ n)
      × All (λ c. c.1 < dw_len) ys
      × Holds a fo h
      × ((a' : Area) × (squish_get_new_frame dw_len a ≡ ok (fo, n) a') × Removed ys zs fo h a a'))
    ⊎ (All (λ c. c.1 < dw_len) xs
        × ((a' : Area) × (squish_get_new_frame dw_len a ≡ ok (a.fo_end, 0) a')
            × Grown dw_len xs a a'))

first_fit-none : (dw_len : ℕ) (xs : Cells) → first_fit dw_len xs ≡ none → All (λ c. c.1 < dw_len) xs
unfolding first_fit
first_fit-none dw_len [] e = tt
first_fit-none dw_len ((g, m) ∷ xs) e = elim (Bool-cases (leb dw_len m)) [
  | inl long ↦ let q : ◌≡◌ {A = Option (ℕ × ℕ)} (some (g, m)) none = rw long at e in cc
  | inr short ↦ (ground arith, first_fit-none dw_len xs (rw short at e))
]

IsFreeChain-at_pos :
    (p : ℕ) (a : Area) (xs : Cells) → IsFreeChain a xs → IsFreeChain (at_pos p a) xs
IsFreeChain-at_pos p a xs inv = record {
  chain = inv.chain;
  separate = inv.separate;
  room = inv.room;
  small = inv.small;
}

SameButFree-at_pos : (p : ℕ) (a a' : Area) → SameButFree (at_pos p a) a' → SameButFree a a'
SameButFree-at_pos p a a' s = record {
  num_msg = s.num_msg;
  cur_msg = s.cur_msg;
  high_msg = s.high_msg;
  high_water = s.high_water;
  uid_next = s.uid_next;
  fo_first = s.fo_first;
  fo_last = s.fo_last;
  fo_end = s.fo_end;
  fo_next = s.fo_next;
  fo_prev = s.fo_prev;
  fo_cur = s.fo_cur;
  size = s.size;
  ifd = s.ifd;
  hix = s.hix;
  have_exclusive = s.have_exclusive;
  cb_sqbase = s.cb_sqbase;
  cb_sqhdr = s.cb_sqhdr;
  dw_max_msg = s.dw_max_msg;
  w_max_days = s.w_max_days;
  w_skip_msg = s.w_skip_msg;
  dw_high_water = s.dw_high_water;
  f_locked = s.f_locked;
  f_lock_func = s.f_lock_func;
  held = s.held;
  err = s.err;
  os = s.os;
  room = s.room;
}

grown-Grown :
    (dw_len p : ℕ) (a : Area) (xs : Cells)
    → IsFreeChain a xs
    → CanGrow dw_len a
    → Grown dw_len xs a (grown (a.fo_end + a.cb_sqhdr + dw_len) (at_pos p a))
unfolding grown
grown-Grown dw_len p a xs inv can =
    let end = a.fo_end + a.cb_sqhdr + dw_len in
    let more : a.fo_end < end = omega (arith, can.some_bytes) in
    record {
      chain = record {
        chain =
            Linked-grow a.sfd.bytes a.sfd.size a.fo_end end xs null_frame a.fo_free a.fo_last_free
              null_frame can.size more can.small inv.chain;
        separate = inv.separate;
        room = can.room;
        small = can.small;
      };
      fo_end = refl;
      size = refl;
      frames = λ g k at. FrameAt-grow a.sfd.bytes end at can.size more can.small;
      hix = refl;
      num_msg = refl;
    }

-- On a free chain in order, where the file can grow, _SquishGetNewFrame succeeds: it returns the
-- first cell of the chain that is long enough with its length and takes it out of the chain, which
-- stays in order; or, if all cells are too short, it returns the old end of the file with length 0
-- and moves the end up by a frame header and the bytes asked for, every frame keeping its header.
pub squish_get_new_frame_lem :
    (dw_len : ℕ) (a : Area) (xs : Cells)
    → IsFreeChain a xs
    → CanGrow dw_len a
    → Provides dw_len xs a
unfolding squish_get_new_frame serve Provides
squish_get_new_frame_lem dw_len a xs inv can =
    served (first_fit dw_len xs) refl (squish_probe_free_chain-first_fit dw_len a xs inv)
  where
    served :
        (o : Option (ℕ × ℕ))
        → first_fit dw_len xs ≡ o
        → Answers a o (squish_probe_free_chain dw_len a)
        → Provides dw_len xs a
    served none e (p, found) =
        let can' : CanGrow dw_len (at_pos p a) = record {
          some_bytes = can.some_bytes;
          small = can.small;
          room = can.room;
          size = can.size;
        } in
        inr (
          first_fit-none dw_len xs e,
          (
            grown (a.fo_end + a.cb_sqhdr + dw_len) (at_pos p a),
            rw (found, eof-grown dw_len (at_pos p a) can'),
            grown-Grown dw_len p a xs inv can,
          ),
        )
    served (some (fo, n)) e (p, h, at, long, found) =
        let (ys, zs, split, enough, before) = first_fit-split dw_len xs fo n e in
        let at' : Holds (at_pos p a) fo h = at in
        let (a', r, s) =
          squish_remove_free_chain_lem (at_pos p a) ys zs fo n h at'
            (IsFreeChain-at_pos p a _ (subst (IsFreeChain a) split inv)) in
        inl (
          ys,
          zs,
          fo,
          n,
          h,
          split,
          enough,
          before,
          at,
          (
            a',
            ap (λ o. and_then o (serve dw_len)) found
                ∙ (ap (λ o. and_then o (λ _. pure (fo, h.frame_length))) r
                    ∙ ap (λ m. ok (fo, m) a') long),
            record { chain = s.chain; same = SameButFree-at_pos p a a' s.same; frames = s.frames },
          ),
        )
