-- ===== src/Server/Race.antt =====
-- SockServer::loop and SockServer::stop of src/json-rpc/sockserver.cpp in two threads, one statement
-- at a time: `loop` looks at the list of connections, and takes from it, without the lock that
-- `stop` holds while it closes them.
pub mod Single
pub mod Sound
pub mod Accounts
pub mod Torn
use json_rpc.Common.{
  ℕ, zero, suc, ◌-◌, ◌+◌, List, [], ◌∷◌, ◌++◌, Bool, true, false, Option, none, some, leb,
  if◌then◌else◌, length,
}
use json_rpc.Common.Int.{ℤ}
use json_rpc.Errors.{Result, ok, stop, Stop, Fault, ◌>>=◌}
use json_rpc.Server.Pool.{Act, ThreadTest, shutdown, delete_connection, pool_size}

-- The next statement of the loop: the test of `_stop`, accept, the test of the size, front(),
-- oldconn->shutdown(), pop_front(), delete oldconn, push_back under the lock, newconn->start().
pub data LoopAt : Type 0 where
  testing accepting : LoopAt
  sizing taking : (client_sock : ℤ) → LoopAt
  shutting popping deleting : (oldconn client_sock : ℤ) → LoopAt
  adding starting : (client_sock : ℤ) → LoopAt
  ended : LoopAt

-- The next statement of stop: lock(), (*it)->shutdown() and it ++ with so many connections before
-- `it`, clear(), unlock(), _stop = true, join(). In `lost` the node of `it` has left the list.
pub data StopAt : Type 0 where
  locking : StopAt
  visiting advancing : (before : ℕ) → StopAt
  lost clearing unlocking flagging joining returned : StopAt

-- `taken` are the descriptors that accept has given, the last one first, `launched` the connections
-- whose thread has been started, `is_active` the answers of the thread library.
pub record Race : Type 0 where
  pub connections : List ℤ
  pub stopped : Bool
  pub loop_at : LoopAt
  pub stop_at : StopAt
  pub acts : List Act
  pub taken : List ℤ
  pub launched : List ℤ
  pub is_active : ThreadTest

-- Whether stop has the lock.
abbrev pub holds : StopAt → Bool
holds (visiting n) = true
holds (advancing n) = true
holds lost = true
holds clearing = true
holds unlocking = true
holds _ = false

-- What pop_front makes of the iterator.
unfoldable pub shifted : StopAt → StopAt
shifted (visiting zero) = lost
shifted (visiting (suc n)) = visiting n
shifted (advancing zero) = lost
shifted (advancing (suc n)) = advancing n
shifted p = p

abbrev pub nth : ℕ → List ℤ → Option ℤ
nth n [] = none
nth zero (x ∷ xs) = some x
nth (suc n) (x ∷ xs) = nth n xs

front : List ℤ → ℤ → Race → Result Race
front [] fd s = stop (Stop.fault Fault.empty_list)
front (x ∷ xs) fd s = ok (record s { loop_at = shutting x fd })

pop_front : List ℤ → ℤ → ℤ → Race → Result Race
unfolding shifted
pop_front [] old fd s = stop (Stop.fault Fault.empty_list)
pop_front (x ∷ xs) old fd s =
    ok (record s { connections = xs; stop_at = shifted s.stop_at; loop_at = deleting old fd })

-- A statement of the loop; one that has to wait does nothing.
unfoldable pub loop_step : LoopAt → Race → Result Race
unfolding front pop_front
loop_step testing s = ok (record s { loop_at = if s.stopped then ended else accepting })
loop_step accepting s = ok s
loop_step (sizing fd) s =
    ok
      (record s { loop_at = if leb pool_size (length s.connections) then taking fd else adding fd })
loop_step (taking fd) s = front s.connections fd s
loop_step (shutting old fd) s =
    ok (record s { acts = shutdown s.is_active old s.acts; loop_at = popping old fd })
loop_step (popping old fd) s = pop_front s.connections old fd s
loop_step (deleting old fd) s =
    ok (record s { acts = delete_connection s.is_active old s.acts; loop_at = adding fd })
loop_step (adding fd) s = ok (
    if holds s.stop_at
    then s
    else record s { connections = s.connections ++ fd ∷ []; loop_at = starting fd })
loop_step (starting fd) s = ok (record s { launched = fd ∷ s.launched; loop_at = testing })
loop_step ended s = ok s

-- accept returns.
accept : ℤ → LoopAt → Race → Race
accept fd accepting s = record s { taken = fd ∷ s.taken; loop_at = sizing fd }
accept fd _ s = s

visit : ℕ → Option ℤ → Race → Race
visit n none s = record s { stop_at = clearing }
visit n (some fd) s = record s { acts = shutdown s.is_active fd s.acts; stop_at = advancing n }

-- The thread of the loop has been started: join() is called while it runs, and returns once the loop
-- has ended.
join : LoopAt → Race → Race
join ended s = record s { stop_at = returned }
join _ s = s

unfoldable pub stop_step : StopAt → Race → Result Race
unfolding visit join
stop_step locking s = ok (record s { stop_at = visiting 0 })
stop_step (visiting n) s = ok (visit n (nth n s.connections) s)
stop_step (advancing n) s = ok (record s { stop_at = visiting (suc n) })
stop_step lost s = stop (Stop.fault Fault.dangling)
stop_step clearing s = ok (record s { connections = []; stop_at = unlocking })
stop_step unlocking s = ok (record s { stop_at = flagging })
stop_step flagging s = ok (record s { stopped = true; stop_at = joining })
stop_step joining s = ok (join s.loop_at s)
stop_step returned s = ok s

-- A client connects, or one of the threads goes on.
pub data Move : Type 0 where
  client : ℤ → Move
  loops stops : Move

unfoldable pub move : Move → Race → Result Race
unfolding accept loop_step stop_step
move (client fd) s = ok (accept fd s.loop_at s)
move loops s = loop_step s.loop_at s
move stops s = stop_step s.stop_at s

unfoldable pub moves : List Move → Race → Result Race
unfolding move
moves [] s = ok s
moves (m ∷ rest) s = move m s >>= moves rest

-- SockServer(port), when `start` has launched the loop and a thread is about to call `stop`.
abbrev pub new_race : ThreadTest → Race
new_race is_active = record {
  connections = [];
  stopped = false;
  loop_at = testing;
  stop_at = locking;
  acts = [];
  taken = [];
  launched = [];
  is_active = is_active;
}
