-- ===== src/Poll/Manager.antt =====
-- class PollManager of src/json-rpc/pollserver.cpp: the descriptors that select is asked about.
pub mod Watching
pub mod Polling
use json_rpc.Common.{
  ℕ, zero, suc, ◌+◌, ◌^◌, List, [], ◌∷◌, ◌++◌, Bool, true, false, ◌&&◌, max, ltb, ◌==◌,
  if◌then◌else◌, length,
}
use json_rpc.Common.Int.{ℤ, pos, negsuc}
use json_rpc.Errors.{Result, ok, stop, Stop, Fault, ◌>>=◌}

-- FD_MODE
pub data Mode : Type 0 where
  reading writing : Mode

-- An `fd_set`, and the number of descriptors that one has room for.
abbrev pub FdSet : Type 0
FdSet = ℕ → Bool

abbrev pub fd_setsize : ℕ
fd_setsize = 1024

-- FD_SET and FD_CLR.
abbrev pub put_fd : ℕ → Bool → FdSet → FdSet
put_fd fd b set i = if i == fd then b else set i

-- A set of descriptors, as std::unordered_set<int> keeps it, in some order.
abbrev pub contains : ℕ → List ℕ → Bool
contains fd [] = false
contains fd (x ∷ xs) = if x == fd then true else contains fd xs

abbrev pub insert : ℕ → List ℕ → List ℕ
insert fd xs = if contains fd xs then xs else fd ∷ xs

abbrev pub erase : ℕ → List ℕ → List ℕ
erase fd [] = []
erase fd (x ∷ xs) = if x == fd then erase fd xs else x ∷ erase fd xs

pub record PollManager : Type 0 where
  pub highest : ℕ
  pub read_set : FdSet
  pub write_set : FdSet
  pub watched_read_fds : List ℕ
  pub watched_write_fds : List ℕ

-- The one instance, in static memory.
abbrev pub instance_ : PollManager
instance_ = record {
  highest = 0;
  read_set = λ _. false;
  write_set = λ _. false;
  watched_read_fds = [];
  watched_write_fds = [];
}

-- The set and the list of one mode.
added : ℕ → Mode → PollManager → PollManager
added fd reading m = record m {
  read_set = put_fd fd true m.read_set;
  watched_read_fds = insert fd m.watched_read_fds;
}
added fd writing m = record m {
  write_set = put_fd fd true m.write_set;
  watched_write_fds = insert fd m.watched_write_fds;
}

removed : ℕ → Mode → PollManager → PollManager
removed fd reading m = record m {
  read_set = put_fd fd false m.read_set;
  watched_read_fds = erase fd m.watched_read_fds;
}
removed fd writing m = record m {
  write_set = put_fd fd false m.write_set;
  watched_write_fds = erase fd m.watched_write_fds;
}

watched : ℕ → Mode → PollManager → PollManager
unfolding added
watched fd mode m =
    let m' = added fd mode m in record m' { highest = if ltb m'.highest fd then fd else m'.highest }

-- FD_SET and FD_CLR of a descriptor for which a set has no room write outside of it.
in_range : ℤ → (ℕ → PollManager) → Result PollManager
in_range (pos fd) change =
    if ltb fd fd_setsize then ok (change fd) else stop (Stop.fault Fault.overrun)
in_range (negsuc n) change = stop (Stop.fault Fault.overrun)

-- PollManager::watch
unfoldable pub watch : ℤ → Mode → PollManager → Result PollManager
unfolding in_range watched
watch fd mode m = in_range fd (λ n. watched n mode m)

-- The loops over the lists.
abbrev pub raise : ℕ → List ℕ → ℕ
raise new_highest [] = new_highest
raise new_highest (fd ∷ fds) = raise (if ltb new_highest fd then fd else new_highest) fds

unwatched : ℕ → Mode → PollManager → PollManager
unfolding removed
unwatched fd mode m =
    let m' = removed fd mode m in
    record m' { highest = raise (raise 0 m'.watched_read_fds) m'.watched_write_fds }

-- PollManager::unwatch
unfoldable pub unwatch : ℤ → Mode → PollManager → Result PollManager
unfolding in_range unwatched
unwatch fd mode m = in_range fd (λ n. unwatched n mode m)

-- What select returns: -1, or the sets with the descriptors that are ready among those asked for.
pub data Answer : Type 0 where
  failed : Answer
  ready : FdSet → FdSet → Answer

abbrev pub select : FdSet → FdSet → FdSet
select set is_ready fd = set fd && is_ready fd

-- The loop over i, from `i` on, for so many numbers: those that are set.
abbrev pub scan : ℕ → ℕ → FdSet → List ℕ
scan zero i set = []
scan (suc k) i set = if set i then i ∷ scan k (i + 1) set else scan k (i + 1) set

-- What poll returns, and the two vectors.
pub record Polled : Type 0 where
  pub success : Bool
  pub reads : List ℕ
  pub writes : List ℕ

-- The end of a round: out of the loop if a vector is not empty.
poll_round : List ℕ → List ℕ → Result Polled → Result Polled
poll_round [] [] again = again
poll_round reads writes again = ok (record { success = true; reads = reads; writes = writes })

-- PollManager::poll, with empty vectors, over the answers of select.
unfoldable pub poll : List Answer → PollManager → Result Polled
unfolding poll_round
poll [] m = stop Stop.waiting
poll (failed ∷ answers) m = ok (record { success = false; reads = []; writes = [] })
poll (ready can_read can_write ∷ answers) m =
    poll_round (scan (suc m.highest) 0 (select m.read_set can_read))
      (scan (suc m.highest) 0 (select m.write_set can_write)) (poll answers m)
