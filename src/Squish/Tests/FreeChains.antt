-- ===== src/Squish/Tests/FreeChains.antt =====
-- Runs of the operations on the free chain.
use xmsgapi.Base.{[], arith, inr, ◌∷◌, ◌≡◌, ◌≢◌}
use xmsgapi.Base.Cmd.{ok, stuck}
use xmsgapi.Squish.Area.{Area}
use xmsgapi.Squish.FreeChain.{
  squish_insert_free_chain, squish_probe_free_chain, squish_remove_free_chain,
}
use xmsgapi.Squish.FreeChain.Ends.{squish_probe_free_chain-ne-stuck}
use xmsgapi.Squish.FreeChain.Insert.{Inserted, squish_insert_free_chain_lem}
use xmsgapi.Squish.FreeChain.NewFrame.{Provides, squish_get_new_frame_lem}
use xmsgapi.Squish.FreeChain.Probe.{Answers, first_fit, squish_probe_free_chain-first_fit}
use xmsgapi.Squish.FreeChain.Remove.{Removed, squish_remove_free_chain_lem}
use xmsgapi.Squish.Tests.Sample.{
  cells, in_order, message, message_there, sample, second_free, second_there,
}

probe_example : Answers sample (first_fit 150 cells) (squish_probe_free_chain 150 sample)
probe_example = squish_probe_free_chain-first_fit 150 sample cells in_order

probe_returns_example : squish_probe_free_chain 150 sample ≢ stuck
probe_returns_example = squish_probe_free_chain-ne-stuck 150 sample

insert_example :
    (a' : Area) × (squish_insert_free_chain 612 message sample ≡ ok tt a')
    × Inserted 612 50 cells sample a'
insert_example =
    squish_insert_free_chain_lem sample 612 message cells message_there in_order
      (inr (omega arith), (inr (omega arith), tt))

remove_example :
    (a' : Area) × (squish_remove_free_chain 384 second_free sample ≡ ok tt a')
    × Removed ((256, 100) ∷ []) [] 384 second_free sample a'
remove_example =
    squish_remove_free_chain_lem sample ((256, 100) ∷ []) [] 384 200 second_free second_there
      in_order

new_frame_example : Provides 500 cells sample
new_frame_example = squish_get_new_frame_lem 500 sample cells in_order (record {
  some_bytes = omega arith;
  small = omega arith;
  room = omega arith;
  size = omega arith;
})
