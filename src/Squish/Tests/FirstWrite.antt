-- ===== src/Squish/Tests/FirstWrite.antt =====
-- A run of the first write of a new message, into a base with a message and two short free frames.
use xmsgapi.Base.{replicate}
use xmsgapi.File.{overlay}
use xmsgapi.Squish.Area.{Area}
use xmsgapi.Squish.BaseHeader.{Sqbase, encode_sqbase}
use xmsgapi.Squish.Lock.Laws.{begun, past_header}
use xmsgapi.Squish.Msg.{Msgh}
use xmsgapi.Squish.Sqidx.{Sqidx}
use xmsgapi.Squish.Tests.Messages.{blank_msgh}
use xmsgapi.Squish.Tests.Sample.{sample, sample_bytes}

abbrev one_message : Sqbase
one_message = record {
  len = 256;
  rsvd1 = 0;
  num_msg = 3;
  high_msg = 3;
  skip_msg = 0;
  high_water = 0;
  uid = 10;
  base = replicate 80 0;
  begin_frame = 612;
  last_frame = 612;
  free_frame = 256;
  last_free_frame = 384;
  end_frame = 690;
  max_msg = 0;
  keep_days = 0;
  sz_sqhdr = 28;
  rsvd2 = replicate 124 0;
}

-- The sample with the header of the base in its file.
abbrev base_area : Area
base_area = record sample {
  sfd = record {
    bytes = overlay sample_bytes 0 (encode_sqbase one_message);
    size = 690;
    pos = 0;
    room = 100_000;
  };
}

abbrev begun_area : Area
begun_area = begun (past_header base_area.sfd) one_message base_area

-- The handle of message 2, with the identifier 7.
abbrev new_letter : Msgh
new_letter = record blank_msgh { dw_msg = 2; uid_us = 7 }
