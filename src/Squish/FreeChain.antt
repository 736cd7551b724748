-- ===== src/Squish/FreeChain.antt =====
-- The chain of free frames: _SquishInsertFreeChain of sq_help.c, and the search, removal and
-- allocation of sq_write.c.
pub mod Inv
pub mod Insert
pub mod Probe
pub mod Remove
pub mod Ends
pub mod AtEnd
pub mod NewFrame
use xmsgapi.Base.{
  Bool, Option, [], if◌then◌else◌, leb, none, not, some, suc, zero, ℕ, ◌%◌, ◌&&◌, ◌+◌, ◌-◌, ◌==◌,
  ◌||◌, ◌∷◌,
}
use xmsgapi.Base.Cmd.{Cmd, and_then, attempt, fail, modify, ok, pure, stuck, ◌>>=◌, ◌>>◌}
use xmsgapi.Base.Word.{dword_mod}
use xmsgapi.File.{write}
use xmsgapi.Squish.Area.{Area, badf, nods, refuse, seek_sfd}
use xmsgapi.Squish.Frame.{
  next_unless_null, prev_unless_null, squish_read_hdr, squish_set_frame_next, squish_write_hdr,
}
use xmsgapi.Squish.Header.{Sqhdr, frame_free, null_frame, sqhdr_id}

-- _SquishInsertFreeChain: threads the frame at `fo`, whose header is `h`, into the free chain.
unfoldable pub squish_insert_free_chain : ℕ → Sqhdr → Cmd Area (Unit {0})
squish_insert_free_chain fo psqh a =
    let freed = record psqh { id = sqhdr_id; frame_type = frame_free; msg_length = 0; clen = 0 } in
    let alone = record freed { prev_frame = null_frame; next_frame = null_frame } in
    let last = record freed { prev_frame = a.fo_last_free; next_frame = null_frame } in
    if a.fo_last_free == null_frame
    then (do squish_write_hdr fo alone; modify (λ s. record s { fo_free = fo; fo_last_free = fo }))
        a
    else (do
      squish_set_frame_next a.fo_last_free fo
      written ← attempt (squish_write_hdr fo last)
      if written
          then modify (λ s. record s { fo_last_free = fo })
          else (do attempt (squish_set_frame_next a.fo_last_free null_frame); (λ s. fail s)))
        a

-- The test of the walk on the header `h` at `fo_this`, reached from `fo_last`.
unfoldable pub free_frame_is_bad : ℕ → ℕ → Sqhdr → Bool
free_frame_is_bad fo_last fo_this h =
    not (h.frame_type == frame_free) || not (fo_last == h.prev_frame) || h.next_frame == fo_this

-- The loop of _SquishProbeFreeChain, at `fo_this` and reached from `fo_last`. Its result is the
-- frame found with its header, or `none` at the end of the chain.
unfoldable pub probe_loop : ℕ → ℕ → ℕ → ℕ → Cmd Area (Option (ℕ × Sqhdr))
probe_loop zero dw_len fo_last fo_this = λ a. stuck
probe_loop (suc fuel) dw_len fo_last fo_this = if fo_this == null_frame then pure none else do
  h ← squish_read_hdr fo_this
  if free_frame_is_bad fo_last fo_this h
      then refuse badf
      else (if leb dw_len h.frame_length
          then pure (some (fo_this, h))
          else probe_loop fuel dw_len fo_this h.next_frame)

-- _SquishProbeFreeChain: `*pdwFrameLen` is the `frame_length` of the header. The frames that the
-- walk reads are distinct and lie below `fo_end`, so that many rounds are enough.
unfoldable pub squish_probe_free_chain : ℕ → Cmd Area (Option (ℕ × Sqhdr))
unfolding probe_loop
squish_probe_free_chain dw_len a = probe_loop (a.fo_end + 2) dw_len null_frame a.fo_free a

-- _SquishRemoveFreeChain: takes the frame at `fo`, whose header is `h`, out of the free chain.
unfoldable pub squish_remove_free_chain : ℕ → Sqhdr → Cmd Area (Unit {0})
squish_remove_free_chain fo h a =
    if (h.prev_frame == null_frame && not (fo == a.fo_free))
      || (h.next_frame == null_frame && not (fo == a.fo_last_free))
    then refuse badf a
    else (do
      next_unless_null h.prev_frame h.next_frame
      prev_unless_null h.next_frame h.prev_frame
      modify (λ s. record s { fo_free = if s.fo_free == fo then h.next_frame else s.fo_free })
      modify (λ s. record s {
        fo_last_free = if s.fo_last_free == fo then h.prev_frame else s.fo_last_free;
      }))
        a

-- _SquishGetFrameEOF: `ofs` is the last byte of the new frame.
unfoldable pub squish_get_frame_eof : ℕ → Cmd Area ℕ
squish_get_frame_eof dw_len a =
    let ofs = (a.fo_end + a.cb_sqhdr + dw_len + (dword_mod - 1)) % dword_mod in
    (do
      seek_sfd nods ofs
      (λ s.
          let (n, sfd') = write (0 ∷ []) s.sfd in
          let s' = record s { sfd = sfd' } in
          if n == 1
          then ok a.fo_end (record s' { fo_end = (ofs + 1) % dword_mod })
          else refuse nods s'))
      a

-- _SquishGetNewFrame, with what the search has found.
unfoldable pub serve : ℕ → Option (ℕ × Sqhdr) → Cmd Area (ℕ × ℕ)
serve dw_len none = do fo ← squish_get_frame_eof dw_len; pure (fo, 0)
serve dw_len (some (fo, h)) = do squish_remove_free_chain fo h; pure (fo, h.frame_length)

-- _SquishGetNewFrame: the frame and `*pdwFrameLen`, which is 0 for a frame at the end of the file.
unfoldable pub squish_get_new_frame : ℕ → Cmd Area (ℕ × ℕ)
unfolding serve
squish_get_new_frame dw_len a = and_then (squish_probe_free_chain dw_len a) (serve dw_len)
