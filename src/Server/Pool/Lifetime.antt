-- ===== src/Server/Pool/Lifetime.antt =====
-- A server from its start to its end.
use json_rpc.Common.{
  ℕ, ◌-◌, ◌≡◌, refl, sym, ap, ◌∙◌, List, [], ◌∷◌, ◌++◌, true, false, length, map, take, drop,
}
use json_rpc.Common.Int.{ℤ}
use json_rpc.Server.Pool.{
  SockServer, ThreadTest, started, close_connections, stop_pool, destroy_pool, Event, accepted,
  stop_called, step, steps,
}
use json_rpc.Server.Pool.Ends.{ends, twice, shutdown_all-ends, ends-append}
use json_rpc.Server.Pool.Order.{steps-started, steps-stop_called}

steps-append : (e e' : List Event) (s : SockServer) → steps (e ++ e') s ≡ steps e' (steps e s)
unfolding steps
steps-append [] e' s = refl
steps-append (x ∷ e) e' s = steps-append e e' (step x s)

-- Any clients connect to a server that has just started, then stop is called, the loop still takes
-- one client, others come too late, and the server is destroyed, whatever the thread library says
-- of the threads: the pool is empty; all but the last 16 of the first clients have been ended twice
-- each, in the order in which they came, then the last 16 once by stop, then the one that came
-- behind stop, only by the destructor. To end a connection is to clear its flag, to shut its socket
-- down, to join its thread if it is active then, and to close its descriptor.
pub destroy_pool-steps :
    (is_active : ThreadTest) (fds : List ℤ) (last : ℤ) (late : List ℤ)
    → let n = length fds - 16 in
      destroy_pool (
        steps
          (map accepted fds ++ stop_called ∷ accepted last ∷ map accepted late)
          (started is_active))
      ≡ record {
        connections = [];
        stopped = true;
        looping = false;
        acts = ends is_active (twice (take n fds) ++ drop n fds ++ last ∷ []) [];
        is_active = is_active;
      }
unfolding stop_pool close_connections
destroy_pool-steps is_active fds last late =
    ap destroy_pool (
      steps-append (map accepted fds) (stop_called ∷ accepted last ∷ map accepted late)
        (started is_active)
      ∙ ap (steps (stop_called ∷ accepted last ∷ map accepted late)) (steps-started is_active fds)
      ∙ steps-stop_called is_active (drop n fds) (ends is_active early []) last late)
    ∙ ap
        (λ acts. record {
          connections = [];
          stopped = true;
          looping = false;
          acts = acts;
          is_active = is_active;
        })
        (shutdown_all-ends is_active (last ∷ []) _
          ∙ sym (
              ends-append is_active (early ++ drop n fds) (last ∷ []) []
              ∙ ap (ends is_active (last ∷ [])) (ends-append is_active early (drop n fds) [])))
  where
    n : ℕ
    n = length fds - 16

    early : List ℤ
    early = twice (take n fds)
