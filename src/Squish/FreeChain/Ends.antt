-- ===== src/Squish/FreeChain/Ends.antt =====
-- The walk of _SquishProbeFreeChain of sq_write.c along the free chain of any data file. The test
-- against the frame before is what the count of its rounds rests on.
use xmsgapi.Base.{
  All, Bool-cases, List, [], ap, arith, false, inl, inr, leb, length, suc, sym, zero, ℕ, ◌+◌, ◌<◌,
  ◌==◌, ◌∙◌, ◌∷◌, ◌≡◌, ◌≢◌, ◌≤◌,
}
use xmsgapi.Base.Cmd.{stuck}
use xmsgapi.Base.Pigeon.{Distinct, length-le_of_Distinct}
use xmsgapi.Squish.Area.{Area}
use xmsgapi.Squish.BaseHeader.{sqbase_size}
use xmsgapi.Squish.Frame.Any.{raw_hdr, squish_read_hdr-cases}
use xmsgapi.Squish.Frame.Heap.{past}
use xmsgapi.Squish.FreeChain.{free_frame_is_bad, probe_loop, squish_probe_free_chain}
use xmsgapi.Squish.Header.{Sqhdr, null_frame}

-- The frame read last, or the null frame at the start.
abbrev head_of : List ℕ → ℕ
head_of [] = null_frame
head_of (v ∷ vs) = v

-- The frames read so far, the last one first: each names the one before it in `prev_frame`.
abbrev Trail : (ℕ → ℕ) → ℕ → List ℕ → Type 0
Trail b fo_end [] = Unit
Trail b fo_end (v ∷ vs) =
    ((raw_hdr b v).prev_frame ≡ head_of vs) × (sqbase_size ≤ v) × (v < fo_end) × Trail b fo_end vs

Trail-lt : (b : ℕ → ℕ) (fo_end : ℕ) (vs : List ℕ) → Trail b fo_end vs → All (λ v. v < fo_end) vs
Trail-lt b fo_end [] t = tt
Trail-lt b fo_end (v ∷ vs) (_, _, lt, t) = (lt, Trail-lt b fo_end vs t)

-- A frame whose `prev_frame` is `last` is none of `u ∷ us`, if `last` is not among `us`.
fresh_behind :
    (b : ℕ → ℕ) (fo_end w last u : ℕ) (us : List ℕ)
    → Trail b fo_end (u ∷ us)
    → (raw_hdr b w).prev_frame ≡ last
    → last ≢ null_frame
    → All (λ v. v ≢ last) us
    → All (λ v. v ≢ w) (u ∷ us)
fresh_behind b fo_end w last u [] (back, _, _, t) p ne absent =
    ((λ e. ne (sym p ∙ ap (λ v. (raw_hdr b v).prev_frame) (sym e) ∙ back)), tt)
fresh_behind b fo_end w last u (x ∷ us) (back, _, _, t) p ne (x_ne, absent) = (
  (λ e. x_ne (sym back ∙ ap (λ v. (raw_hdr b v).prev_frame) e ∙ p)),
  fresh_behind b fo_end w last x us t p ne absent,
)

-- The next frame of a walk is new.
fresh :
    (b : ℕ → ℕ) (fo_end w : ℕ) (vs : List ℕ)
    → Trail b fo_end vs
    → Distinct vs
    → (raw_hdr b w).prev_frame ≡ head_of vs
    → All (λ v. v ≢ w) vs
fresh b fo_end w [] t d p = tt
fresh b fo_end w (v ∷ vs) t (absent, d) p =
    fresh_behind b fo_end w v v vs t p (omega (arith, t.1)) absent

good_frame :
    (fo_last fo_this : ℕ) (h : Sqhdr)
    → free_frame_is_bad fo_last fo_this h ≡ false
    → h.prev_frame ≡ fo_last
unfolding free_frame_is_bad
good_frame fo_last fo_this h e = ground arith

-- With a round for each offset below the end, and one more, the walk does not run out.
probe_loop-ne-stuck :
    (fuel dw_len fo_this : ℕ) (a : Area) (vs : List ℕ)
    → Trail a.sfd.bytes a.fo_end vs
    → Distinct vs
    → a.fo_end < length vs + fuel
    → probe_loop fuel dw_len (head_of vs) fo_this a ≢ stuck
unfolding probe_loop
probe_loop-ne-stuck zero dw_len fo_this a vs t d room =
    absurd (omega (arith, length-le_of_Distinct a.fo_end vs (Trail-lt a.sfd.bytes a.fo_end vs t) d))
probe_loop-ne-stuck (suc fuel) dw_len fo_this a vs t d room =
    elim (Bool-cases (fo_this == null_frame)) [
      | inl end ↦ rw end (λ q. cc)
      | inr more ↦ elim (squish_read_hdr-cases a fo_this) [
        | inl (a', failed) ↦ rw (more, failed) (λ q. cc)
        | inr raw ↦
            rw (more, raw.gives)
              (elim (Bool-cases
                (free_frame_is_bad (head_of vs) fo_this (raw_hdr a.sfd.bytes fo_this))) [
                  | inl bad ↦ rw bad (λ q. cc)
                  | inr good ↦
                      rw good
                        (elim (Bool-cases (leb dw_len (raw_hdr a.sfd.bytes fo_this).frame_length)) [
                          | inl enough ↦ rw enough (λ q. cc)
                          | inr short ↦
                              let back =
                                good_frame (head_of vs) fo_this (raw_hdr a.sfd.bytes fo_this)
                                  good in
                              rw short (
                                probe_loop-ne-stuck fuel dw_len
                                  (raw_hdr a.sfd.bytes fo_this).next_frame (past fo_this a)
                                  (fo_this ∷ vs) (back, raw.base, raw.below, t)
                                  (fresh a.sfd.bytes a.fo_end fo_this vs t d back, d) (omega arith))
                        ])
                ])
      ]
    ]

-- _SquishProbeFreeChain returns on every area, whatever the bytes of its data file are: the model's
-- rounds never run out, so the loop of the code ends after at most `fo_end + 1` frames.
pub squish_probe_free_chain-ne-stuck :
    (dw_len : ℕ) (a : Area) → squish_probe_free_chain dw_len a ≢ stuck
unfolding squish_probe_free_chain
squish_probe_free_chain-ne-stuck dw_len a =
    probe_loop-ne-stuck (a.fo_end + 2) dw_len a.fo_free a [] tt tt (omega arith)
