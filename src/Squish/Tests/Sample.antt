-- ===== src/Squish/Tests/Sample.antt =====
-- An area for the runs: its data file has two free frames, at 256 and at 384, and a message frame
-- at 612, and its index is in memory, with the messages 5, 7 and 9 in two segments.
use xmsgapi.Base.{[], arith, false, inl, none, refl, true, ℕ, ◌∷◌}
use xmsgapi.File.{overlay, window}
use xmsgapi.Putword.{put_dword, put_word}
use xmsgapi.Squish.Area.{Area, no_error}
use xmsgapi.Squish.Frame.Chain.{Cells}
use xmsgapi.Squish.Frame.Heap.{Holds}
use xmsgapi.Squish.FreeChain.Inv.{IsFreeChain}
use xmsgapi.Squish.Header.{Sqhdr, encode_sqhdr, frame_free, frame_normal, sqhdr_id}
use xmsgapi.Squish.Sqidx.{Sqidx}

abbrev pub first_free : Sqhdr
first_free = record {
  id = sqhdr_id;
  next_frame = 384;
  prev_frame = 0;
  frame_length = 100;
  msg_length = 0;
  clen = 0;
  frame_type = frame_free;
  rsvd = 0;
}

abbrev pub second_free : Sqhdr
second_free = record first_free { next_frame = 0; prev_frame = 256; frame_length = 200 }

abbrev pub message : Sqhdr
message = record first_free {
  next_frame = 0;
  frame_length = 50;
  msg_length = 40;
  clen = 4;
  frame_type = frame_normal;
}

abbrev pub sample_bytes : ℕ → ℕ
sample_bytes =
    overlay
      (overlay (overlay (λ _. 0) 256 (encode_sqhdr first_free)) 384 (encode_sqhdr second_free)) 612
      (encode_sqhdr message)

abbrev pub record_of : ℕ → ℕ → Sqidx
record_of ofs umsgid = record { ofs = ofs; umsgid = umsgid; hash = 77 }

abbrev pub sample : Area
sample = record {
  num_msg = 3;
  cur_msg = 0;
  high_msg = 3;
  high_water = 0;
  cb_sqbase = 256;
  cb_sqhdr = 28;
  dw_max_msg = 0;
  w_max_days = 0;
  w_skip_msg = 0;
  dw_high_water = 0;
  uid_next = 10;
  fo_first = 612;
  fo_last = 612;
  fo_free = 256;
  fo_last_free = 384;
  fo_end = 690;
  fo_next = 612;
  fo_prev = 0;
  fo_cur = 0;
  have_exclusive = false;
  f_locked = 0;
  f_lock_func = 0;
  sfd = record { bytes = sample_bytes; size = 690; pos = 0; room = 100_000 };
  ifd = record { bytes = λ _. 0; size = 36; pos = 0; room = 100_000 };
  hix = record {
    allocated_records = 3;
    delta_lo = none;
    delta_hi = none;
    f_buffer = 1;
    segs =
        record { psqi = record_of 612 5 ∷ record_of 700 7 ∷ []; dw_max = 256 }
        ∷ record { psqi = record_of 800 9 ∷ []; dw_max = 256 }
        ∷ [];
  };
  held = false;
  err = no_error;
  os = record { mem = true; lock_granted = true; haveshare = true; errno_shared = false };
}

pub message_there : Holds sample 612 message
unfolding window overlay encode_sqhdr put_dword put_word
message_there = record {
  base = omega arith;
  inside = omega arith;
  below = omega arith;
  small = omega arith;
  fits = omega arith;
  id = refl;
  stored = refl;
}

-- The free chain.
abbrev pub cells : Cells
cells = (256, 100) ∷ (384, 200) ∷ []

pub first_there : Holds sample 256 first_free
unfolding window overlay encode_sqhdr put_dword put_word
first_there = record {
  base = omega arith;
  inside = omega arith;
  below = omega arith;
  small = omega arith;
  fits = omega arith;
  id = refl;
  stored = refl;
}

pub second_there : Holds sample 384 second_free
unfolding window overlay encode_sqhdr put_dword put_word
second_there = record {
  base = omega arith;
  inside = omega arith;
  below = omega arith;
  small = omega arith;
  fits = omega arith;
  id = refl;
  stored = refl;
}

pub in_order : IsFreeChain sample cells
in_order = record {
  chain = (
    first_free,
    record { frame = first_there; here = refl; kind = refl; back = refl; length = refl },
    (
      second_free,
      record { frame = second_there; here = refl; kind = refl; back = refl; length = refl },
      (refl, refl),
    ),
  );
  separate = ((inl (omega arith), tt), (tt, tt));
  room = omega arith;
  small = omega arith;
}
