-- ===== src/Poll/Server/Closing.antt =====
-- A client that closes while its answer, which is too long for one write, is on its way.
use json_rpc.Common.{ℕ, ◌≡◌, refl, List, [], ◌∷◌, some, Option, Bool}
use json_rpc.Common.Int.{pos}
use json_rpc.Errors.{ok}
use json_rpc.Json.{Json}
use json_rpc.Service.{Handlers, find, assign}
use json_rpc.Poll.Manager.{PollManager}
use json_rpc.Poll.Channel.{Machine, Channel}
use json_rpc.Poll.Channel
use json_rpc.Poll.Server.{PollServer, Event, sends, send_answer, send_to, step, steps}

module _ (fresh : Option ℕ) (mach : Machine) (aborts : Bool) {S : Type 0} (j : Json)
    (hs : Handlers S j.Value) where
  -- A thread of the pool sends the only answer.
  pub steps-sends :
      (fd : ℕ) (c : Channel) (s : PollServer S) (out : List ℕ) (r : Channel × PollManager)
      (events : List Event)
      → find fd s.channels ≡ some c
      → Channel.send mach (pos fd) out c s.manager ≡ ok r
      → steps fresh mach aborts j hs (sends ∷ events) (record s { answers = (some fd, out) ∷ [] })
        ≡ steps fresh mach aborts j hs events
            (record s { manager = r.1; channels = assign fd r.0 s.channels; answers = [] })
  unfolding steps step send_answer send_to
  steps-sends fd c s out r events f e = rw (f, e) refl
