-- ===== src/Squish/Tests/Access.antt =====
-- Runs of the locks and of the deletion that is refused.
use xmsgapi.Base.{arith, false, refl, true, ◌≡◌}
use xmsgapi.Base.Cmd.{ok}
use xmsgapi.Squish.Area.{Area, noent, set_err, share}
use xmsgapi.Squish.BaseHeader.RoundTrip.{FitsSqbase}
use xmsgapi.Squish.Frame.Heap.{past}
use xmsgapi.Squish.Frame.Laws.{squish_read_hdr-ok}
use xmsgapi.Squish.Kill.{api_squish_kill_msg}
use xmsgapi.Squish.Kill.Refused.{api_squish_kill_msg-Refused}
use xmsgapi.Squish.Lock.{squish_copy_data_to_base, squish_exclusive_begin, squish_exclusive_end}
use xmsgapi.Squish.Lock.Laws.{SameBase, Waits, squish_exclusive_begin-squish_exclusive_end}
use xmsgapi.Squish.Pointers.{squish_get_frame_ofs}
use xmsgapi.Squish.Tests.Sample.{message, message_there, sample}

abbrev having : Area
having = record sample { have_exclusive = true; f_locked = 1; held = true }

having_fits : FitsSqbase (squish_copy_data_to_base having)
unfolding squish_copy_data_to_base
having_fits = record {
  len = omega arith;
  rsvd1 = omega arith;
  num_msg = omega arith;
  high_msg = omega arith;
  skip_msg = omega arith;
  high_water = omega arith;
  uid = omega arith;
  base = refl;
  begin_frame = omega arith;
  last_frame = omega arith;
  free_frame = omega arith;
  last_free_frame = omega arith;
  end_frame = omega arith;
  max_msg = omega arith;
  keep_days = omega arith;
  sz_sqhdr = omega arith;
  rsvd2 = refl;
}

exclusive_example :
    (a' : Area) × (squish_exclusive_end having ≡ ok tt a')
    × (a'.have_exclusive ≡ false)
    × ((b : Area)
        → Waits b
        → b.sfd.bytes ≡ a'.sfd.bytes
        → b.sfd.size ≡ a'.sfd.size
        → (c : Area) × (squish_exclusive_begin b ≡ ok tt c)
          × (c.have_exclusive ≡ true)
          × (c.held ≡ true)
          × SameBase having c)
exclusive_example =
    squish_exclusive_begin-squish_exclusive_end having refl having_fits (omega arith) (omega arith)

-- The sample, positioned on message 1, where another process holds the lock.
abbrev contended : Area
contended = record sample {
  cur_msg = 1;
  fo_cur = 612;
  os = record { mem = true; lock_granted = false; haveshare = true; errno_shared = false };
}

contended_ofs : squish_get_frame_ofs 1 contended ≡ ok 612 (set_err noent contended)
unfolding squish_get_frame_ofs
contended_ofs = refl

kill_refused_example :
    api_squish_kill_msg 1 contended ≡ ok true (set_err share (past 612 (set_err noent contended)))
kill_refused_example =
    api_squish_kill_msg-Refused contended (set_err noent contended)
      (past 612 (set_err noent contended)) 1 612 message (omega arith) (omega arith) contended_ofs
      (λ e. absurd (omega (arith, e)))
      (squish_read_hdr-ok (set_err noent contended) 612 message_there)
      (record { idle = refl; unlocked = refl; refused = refl })
