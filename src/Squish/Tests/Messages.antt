-- ===== src/Squish/Tests/Messages.antt =====
-- Runs of reading and writing a message.
use xmsgapi.Base.{[], arith, false, refl, ◌∷◌, ◌≡◌, ◌≤◌}
use xmsgapi.Base.Cmd.{ok}
use xmsgapi.Base.Word.{dword_max}
use xmsgapi.File.{File, window}
use xmsgapi.Squish.Area.{Area}
use xmsgapi.Squish.Header.{Sqhdr}
use xmsgapi.Squish.Msg.{Hmsg, Msgh, mopen_create, mopen_read}
use xmsgapi.Squish.Read.{squish_read_txt}
use xmsgapi.Squish.Read.Text.{IsInFile, after_txt, squish_read_txt_lem}
use xmsgapi.Squish.Tests.Records.{letter}
use xmsgapi.Squish.Tests.Sample.{message, sample, sample_bytes}
use xmsgapi.Squish.Write.{mark_uid, squish_write_txt}
use xmsgapi.Squish.Write.Laws.{Laid}
use xmsgapi.Squish.Write.Text.{HasFrame, after_write, squish_write_txt_lem}
use xmsgapi.Squish.Xmsg.RoundTrip.{FitsXmsg}

-- A frame at 612 for a message with 2 bytes of control information and 3 of text, in a file that
-- has it.
abbrev pub frame_hdr : Sqhdr
frame_hdr = record message { frame_length = 243; msg_length = 243; clen = 2 }

abbrev pub letter_area : Area
letter_area = record sample {
  fo_end = 900;
  sfd = record { bytes = sample_bytes; size = 900; pos = 0; room = 100_000 };
}

abbrev pub blank_msgh : Msgh
blank_msgh = record {
  cur_pos = 0;
  dw_msg = 0;
  fo_read = 0;
  sqh_read = frame_hdr;
  fo_write = 0;
  sqh_write = frame_hdr;
  uid_us = 0;
  dw_write_pos = 0;
  w_mode = mopen_create;
  f_written = false;
}

-- A handle that writes message 2 into the frame, and has the identifier 7.
abbrev pub writer : Hmsg
writer = record {
  ha = letter_area;
  m = record (blank_msgh) { dw_msg = 2; fo_write = 612; sqh_write = frame_hdr; uid_us = 7 };
}

abbrev reader : Hmsg
reader = record {
  ha = letter_area;
  m = record (blank_msgh) { w_mode = mopen_read; fo_read = 612; sqh_read = frame_hdr };
}

pub marked_fits : FitsXmsg (mark_uid 7 letter)
unfolding mark_uid
marked_fits = record {
  attr = omega arith;
  from = refl;
  to = refl;
  subj = refl;
  orig = omega arith;
  dest = omega arith;
  date_written = omega arith;
  date_arrived = omega arith;
  utc_ofs = omega arith;
  replyto = omega arith;
  replies_count = refl;
  replies = omega arith;
  umsgid = omega arith;
  ftsc_date = refl;
}

frame_there : HasFrame writer
frame_there = record {
  long_enough = omega arith;
  inside = omega arith;
  small = omega arith;
  room = omega arith;
}

write_text_example :
    (g : File) × (squish_write_txt false (1 ∷ 2 ∷ 3 ∷ 4 ∷ []) dword_max writer
      ≡ ok tt (after_write false (1 ∷ 2 ∷ 3 ∷ 4 ∷ []) g writer))
    × Laid letter_area.sfd 880 (1 ∷ 2 ∷ 3 ∷ []) g
    × (3 ≤ 3)
write_text_example =
    squish_write_txt_lem writer false (1 ∷ 2 ∷ 3 ∷ 4 ∷ []) dword_max frame_there (λ h. absurd cc)
      (λ h. absurd (omega (arith, h)))

letter_file : IsInFile reader
letter_file = record { long_enough = omega arith; inside = omega arith; small = omega arith }

read_text_example :
    (squish_read_txt 2 dword_max reader ≡ ok (window sample_bytes 880 2) (after_txt 2 reader))
    × (2 ≤ 2)
    × (882 ≤ 883)
read_text_example =
    squish_read_txt_lem reader 2 dword_max letter_file (λ h. absurd (omega (arith, h)))
