-- ===== src/Squish/Kill/Refused.antt =====
-- apiSquishKillMsg of sq_kill.c where the message is there and the lock is not to be had.
use xmsgapi.Base.{
  ap, arith, eq→==, false, if-false, if◌then◌else◌, ltb, ne→==, not, true, ℕ, ◌==◌, ◌||◌, ◌∙◌, ◌≡◌,
  ◌≢◌, ◌≤◌,
}
use xmsgapi.Base.Cmd.{and_then, fail, ok}
use xmsgapi.Squish.Area.{Area, set_err, share}
use xmsgapi.Squish.Frame.{squish_read_hdr}
use xmsgapi.Squish.Header.{Sqhdr, null_frame}
use xmsgapi.Squish.Kill.{api_squish_kill_msg, kill_locked, with_header}
use xmsgapi.Squish.Lock.{
  squish_exclusive_begin, squish_lock_base, squish_read_base_header, taken_over,
}
use xmsgapi.Squish.Pointers.{squish_get_frame_ofs}

-- No one has access through this handle, and the system does not grant the lock.
pub record Refused (a : Area) : Type 0 where
  pub idle : a.have_exclusive ≡ false
  pub unlocked : a.f_locked ≡ 0
  pub refused : a.os.lock_granted ≡ false

squish_exclusive_begin-Refused :
    (a : Area) → Refused a → squish_exclusive_begin a ≡ fail (set_err share a)
unfolding squish_exclusive_begin squish_lock_base
squish_exclusive_begin-Refused a r =
    let lock : squish_lock_base a ≡ fail (set_err share a) =
      if-false _ _ (ap not (eq→== a.f_locked 0 r.unlocked)) ∙ if-false _ _ r.refused in
    if-false _ _ r.idle ∙ ap (λ l. and_then l (λ _ c. taken_over (squish_read_base_header c))) lock

-- Where the frame of message `dw_msg` is found and its header is read, and the lock is refused,
-- apiSquishKillMsg returns 0, its value for success, though it has deleted nothing: the area is
-- as it was after the header was read, with MERR_SHARE for the error.
pub api_squish_kill_msg-Refused :
    (a s t : Area) (dw_msg fo : ℕ) (h : Sqhdr)
    → 1 ≤ dw_msg
    → dw_msg ≤ a.num_msg
    → squish_get_frame_ofs dw_msg a ≡ ok fo s
    → fo ≢ null_frame
    → squish_read_hdr fo s ≡ ok h t
    → Refused t
    → api_squish_kill_msg dw_msg a ≡ ok true (set_err share t)
unfolding api_squish_kill_msg kill_locked
api_squish_kill_msg-Refused a s t dw_msg fo h one there got real header r =
    let valid : (dw_msg == 0 || ltb a.num_msg dw_msg) ≡ false = ground (arith, one, there) in
    if-false _ _ valid
    ∙ (ap
          (λ g. and_then g (λ fo s.
            if fo == null_frame then ok false s else with_header dw_msg fo (squish_read_hdr fo s)))
          got
        ∙ (if-false _ _ (ne→== fo null_frame real)
            ∙ (ap (with_header dw_msg fo) header
                ∙ ap (kill_locked dw_msg h fo) (squish_exclusive_begin-Refused t r))))
