-- ===== src/Examples/Endings.antt =====
-- The ends of the two servers, and what a client does to the others.
use json_rpc.Common.{ℕ, ◌≡◌, refl, List, map, concat, replicate, [], ◌∷◌, ◌++◌, none, true, false}
use json_rpc.Common.Int.{ℤ, pos}
use json_rpc.Errors.{ok}
use json_rpc.Json.Sample.{json}
use json_rpc.Service.{find}
use json_rpc.Stream.{got}
use json_rpc.Server.Pool.{
  Act, ThreadTest, disconnects, shuts, closes, started, destroy_pool, accepted, stop_called, steps,
}
use json_rpc.Server.Pool.Ends.{ends, twice}
use json_rpc.Server.Pool.Lifetime.{destroy_pool-steps}
use json_rpc.Poll.Channel.{Channel, make_channel, read}
use json_rpc.Poll.Channel
use json_rpc.Poll.Manager.{put_fd, unwatch}
use json_rpc.Poll.Server.{PollServer, readable, writable, sends, stop_server, destroy_server}
use json_rpc.Poll.Server
use json_rpc.Poll.Server.Isolation.{spares, steps-find}
use json_rpc.Examples.Messages.{service}
use json_rpc.Examples.Channels.{lucky}
use json_rpc.Examples.Polls.{server, leaving, manager_left}

-- 17 clients before stop, while no thread is found active.
abbrev none_active : ThreadTest
none_active acts fd = false

abbrev ended : ℤ → List Act
ended fd = disconnects fd ∷ shuts fd ∷ closes fd ∷ []

destroy_pool-steps_example :
    destroy_pool (
      steps
        (accepted (pos 4) ∷ map accepted (replicate 16 (pos 5))
          ++ stop_called ∷ accepted (pos 6) ∷ accepted (pos 7) ∷ [])
        (started none_active))
    ≡ record {
      connections = [];
      stopped = true;
      looping = false;
      acts =
          ended (pos 4)
          ++ ended (pos 4)
          ++ concat (map ended (replicate 16 (pos 5)))
          ++ ended (pos 6);
      is_active = none_active;
    }
unfolding ends twice
destroy_pool-steps_example =
    destroy_pool-steps none_active (pos 4 ∷ replicate 16 (pos 5)) (pos 6) (pos 7 ∷ [])

-- The client of 5 leaves, that of 6 is not touched.
abbrev other : Channel
other = make_channel (record { reads = got (1 ∷ []) ∷ []; writes = []; sent = [] })

abbrev both : PollServer ℕ
both = record (server leaving) { channels = (5, leaving) ∷ (6, other) ∷ [] }

abbrev gone : PollServer ℕ
gone = record both {
  manager = record manager_left { write_set = put_fd 5 false manager_left.write_set };
  channels = (6, other) ∷ [];
}

leaves : Server.steps none lucky true json service (readable 5 ∷ []) both ≡ ok gone
unfolding Server.steps find Server.remove read unwatch Channel.close Channel.destroy_channel
leaves = refl

spared : spares none lucky true 6 json service (readable 5 ∷ []) both ≡ true
unfolding spares Server.step find read Channel.close unwatch Channel.destroy_channel
spared = refl

steps-find_example : find 6 gone.channels ≡ find 6 both.channels
steps-find_example =
    steps-find none lucky true 6 json service (readable 5 ∷ []) both gone spared leaves
