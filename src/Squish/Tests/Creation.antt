-- ===== src/Squish/Tests/Creation.antt =====
-- Runs of the creation of a message.
use xmsgapi.Base.{[], ap, arith, inr, refl, replicate, sym, ◌*◌, ◌∙◌, ◌∷◌, ◌≡◌}
use xmsgapi.Base.Cmd.{ok}
use xmsgapi.File.{overlay, window}
use xmsgapi.File.Laws.{window-overlay_self}
use xmsgapi.Squish.Area.{Area}
use xmsgapi.Squish.BaseHeader.{Sqbase, encode_sqbase}
use xmsgapi.Squish.BaseHeader.RoundTrip.{FitsSqbase, length-encode_sqbase}
use xmsgapi.Squish.Index.{squish_open_index}
use xmsgapi.Squish.Lock.Laws.{StoresBase}
use xmsgapi.Squish.Msg.{Hmsg, new_hmsg}
use xmsgapi.Squish.Msg.Create.{squish_close_undo_write, squish_open_msg_create}
use xmsgapi.Squish.Msg.New.{place_of}
use xmsgapi.Squish.Msg.Undone.{
  CanCreate, Created, kept, squish_close_undo_write-squish_open_msg_create,
  squish_open_msg_create-Created,
}
use xmsgapi.Squish.Sqidx.Saved.{Wrote}
use xmsgapi.Squish.Tests.Sample.{sample}

-- A base with 2 messages.
abbrev two_messages : Sqbase
two_messages = record {
  len = 256;
  rsvd1 = 0;
  num_msg = 2;
  high_msg = 2;
  skip_msg = 0;
  high_water = 0;
  uid = 6;
  base = replicate 80 0;
  begin_frame = 300;
  last_frame = 600;
  free_frame = 0;
  last_free_frame = 0;
  end_frame = 900;
  max_msg = 0;
  keep_days = 0;
  sz_sqhdr = 28;
  rsvd2 = replicate 124 0;
}

two_messages_fit : FitsSqbase two_messages
two_messages_fit = record {
  len = omega arith;
  rsvd1 = omega arith;
  num_msg = omega arith;
  high_msg = omega arith;
  skip_msg = omega arith;
  high_water = omega arith;
  uid = omega arith;
  base = refl;
  begin_frame = omega arith;
  last_frame = omega arith;
  free_frame = omega arith;
  last_free_frame = omega arith;
  end_frame = omega arith;
  max_msg = omega arith;
  keep_days = omega arith;
  sz_sqhdr = omega arith;
  rsvd2 = refl;
}

abbrev author : Area
author = record sample {
  sfd = record {
    bytes = overlay (λ _. 0) 0 (encode_sqbase two_messages);
    size = 900;
    pos = 0;
    room = 100_000;
  };
  hix = squish_open_index;
}

author_can : CanCreate author two_messages
unfolding squish_open_index
author_can = record {
  waits = record { idle = refl; unlocked = refl; granted = refl };
  fits = two_messages_fit;
  stores = (
    omega arith,
    ap (window author.sfd.bytes 0) (sym (length-encode_sqbase two_messages two_messages_fit))
        ∙ window-overlay_self (λ _. 0) 0 (encode_sqbase two_messages),
  );
  no_limit = refl;
  unbuffered = refl;
  few = omega arith;
  more_uids = omega arith;
  sfd_room = omega arith;
  ifd_room = omega arith;
}

create_example :
    (s : Hmsg) × (squish_open_msg_create 9 (record { ha = author; m = new_hmsg 0 }) ≡ ok tt s)
    × Created author two_messages s
create_example =
    squish_open_msg_create-Created author two_messages (new_hmsg 0) 9 author_can (inr (omega arith))

undo_example :
    (s : Hmsg) × (squish_open_msg_create 0 (record { ha = author; m = new_hmsg 0 }) ≡ ok tt s)
    × ((c : Area) × (squish_close_undo_write s.m.dw_msg s.ha ≡ ok tt c)
        × (c.num_msg ≡ 2)
        × (c.uid_next ≡ 7)
        × Wrote (record (author.ifd) { pos = 2 * 12 }) (place_of 6 ∷ []) c.ifd
        × StoresBase c.sfd (kept 2 7 two_messages))
undo_example =
    squish_close_undo_write-squish_open_msg_create author two_messages (new_hmsg 0) author_can
