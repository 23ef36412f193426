-- ===== src/Poll/Server/Watched.antt =====
-- The loop watches the listening socket and the channels that it has, and no others.
use json_rpc.Common.{
  ℕ, ◌≡◌, ◌≢◌, ap, ◌∙◌, arith, List, [], ◌∷◌, true, none, some, ◌==◌, ==_iff, if◌then◌else◌,
}
use json_rpc.Common.Int.{pos}
use json_rpc.Errors.{ok}
use json_rpc.Json.{is_some}
use json_rpc.Service.{find, assign}
use json_rpc.Service.Dispatch.{find-assign}
use json_rpc.Poll.Manager.{PollManager, contains, reading, writing, watch, unwatch}
use json_rpc.Poll.Manager.Watching.{
  IsConsistent, watch-IsConsistent, unwatch-IsConsistent, contains-watch_reading,
  contains-unwatch_reading, reads-watch_writing, reads-unwatch_writing,
}
use json_rpc.Poll.Channel.{Channel}
use json_rpc.Poll.Server.{PollServer, remove}

-- A descriptor is watched for reading exactly if it is the listening socket or has a channel.
pub record Serves (sock : ℕ) (m : PollManager) (channels : List (ℕ × Channel)) : Type 0 where
  pub consistent : IsConsistent m
  pub watched :
      (i : ℕ)
      → contains i m.watched_read_fds ≡ (if i == sock then true else is_some (find i channels))

abbrev pub IsServing : {S : Type 0} → PollServer S → Type 0
IsServing s = Serves s.sock s.manager s.channels

pub find-remove :
    {A : Type 0} (fd i : ℕ) (cs : List (ℕ × A))
    → find i (remove fd cs) ≡ (if i == fd then none else find i cs)
unfolding find remove
find-remove fd i [] = ground arith
find-remove fd i ((k, c) ∷ cs) = ground (arith, find-remove fd i cs)

module _ (sock fd : ℕ) (m : PollManager) (channels : List (ℕ × Channel))
    (v : Serves sock m channels) where
  -- A channel changes.
  pub Serves-assign :
      (c c' : Channel) → find fd channels ≡ some c → Serves sock m (assign fd c' channels)
  Serves-assign c c' e = record {
    consistent = v.consistent;
    watched = λ i.
        v.watched i ∙ rw (find-assign fd i c' channels) (ground (arith, ap is_some e, ==_iff fd i));
  }

  pub Serves-accept :
      (m' : PollManager) (c : Channel)
      → watch (pos fd) reading m ≡ ok m'
      → Serves sock m' (assign fd c channels)
  Serves-accept m' c e = record {
    consistent = watch-IsConsistent (pos fd) reading m m' v.consistent e;
    watched = λ i.
        contains-watch_reading fd i m m' e
        ∙ rw (find-assign fd i c channels, v.watched i) (ground arith);
  }

  pub Serves-drop :
      (m' : PollManager)
      → fd ≢ sock
      → unwatch (pos fd) reading m ≡ ok m'
      → Serves sock m' (remove fd channels)
  Serves-drop m' n e = record {
    consistent = unwatch-IsConsistent (pos fd) reading m m' v.consistent e;
    watched = λ i.
        contains-unwatch_reading fd i m m' e
        ∙ rw (find-remove fd i channels, v.watched i) (ground (arith, n));
  }

  pub Serves-watch_writing :
      (m' : PollManager) → watch (pos fd) writing m ≡ ok m' → Serves sock m' channels
  Serves-watch_writing m' e = record {
    consistent = watch-IsConsistent (pos fd) writing m m' v.consistent e;
    watched = λ i. ap (contains i) (reads-watch_writing fd m m' e) ∙ v.watched i;
  }

  pub Serves-unwatch_writing :
      (m' : PollManager) → unwatch (pos fd) writing m ≡ ok m' → Serves sock m' channels
  Serves-unwatch_writing m' e = record {
    consistent = unwatch-IsConsistent (pos fd) writing m m' v.consistent e;
    watched = λ i. ap (contains i) (reads-unwatch_writing fd m m' e) ∙ v.watched i;
  }
