-- ===== src/Squish/Tests/Deletions.antt =====
-- A run of the deletion of a message.
use xmsgapi.Base.{[], arith, inr, refl, ◌∷◌, ◌≡◌}
use xmsgapi.Base.Cmd.{ok}
use xmsgapi.Squish.Area.{Area}
use xmsgapi.Squish.Index.Flat.{flat}
use xmsgapi.Squish.Index.Laws.{Buffered}
use xmsgapi.Squish.Kill.{squish_kill}
use xmsgapi.Squish.Kill.Deleted.{Deleted, squish_kill_lem}
use xmsgapi.Squish.Kill.Whole.{IsBase}
use xmsgapi.Squish.Tests.Sample.{cells, in_order, message, message_there, record_of, sample}

-- The sample with its message at 612 as the only one.
abbrev single : Area
single = record sample {
  num_msg = 1;
  high_msg = 1;
  hix = record (sample.hix) { segs = record { psqi = record_of 612 5 ∷ []; dw_max = 256 } ∷ [] };
}

single-IsBase : IsBase single ((612, 50) ∷ []) cells
single-IsBase = record {
  messages = (
    message,
    record { frame = message_there; here = refl; kind = refl; back = refl; length = refl },
    (refl, refl),
  );
  separate = (tt, tt);
  free = record {
    chain = in_order.chain;
    separate = in_order.separate;
    room = in_order.room;
    small = in_order.small;
  };
  cross = ((inr (omega arith), (inr (omega arith), tt)), tt);
}

single-Buffered : Buffered single
unfolding flat
single-Buffered = record {
  open_buffer = λ e. absurd (omega (arith, e));
  fits = (omega arith, tt);
  counted = omega arith;
}

kill_example :
    (a' : Area) × (squish_kill 1 message 612 single ≡ ok tt a')
    × Deleted [] [] cells 612 50 1 single a'
kill_example =
    squish_kill_lem single [] [] cells 612 50 message (record_of 612 5) message_there single-IsBase
      single-Buffered (record { few = omega arith; disk = omega arith }) refl (omega arith)
      (λ e. absurd (omega (arith, e))) (unfold flat in refl)
