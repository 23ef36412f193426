-- ===== src/Server/Race/Single.antt =====
-- A thread while the other one stands still: a round of the loop, and a call of stop.
use json_rpc.Common.{
  ℕ, zero, suc, ◌≡◌, refl, sym, ap, subst, subst, ◌∙◌, List, [], ◌∷◌, ◌++◌, Bool, true, false,
  Bool-cases, inl, inr, some, none, if◌then◌else◌, leb, length, replicate, drop, take, arith, ◌≤◌,
  ◌-◌,
}
use json_rpc.Common.Int.{ℤ}
use json_rpc.Errors.{ok}
use json_rpc.Server.Pool.{
  SockServer, Act, ThreadTest, shutdown, shutdown_all, delete_connection, pool_size,
  close_connections, stop_pool, stop_called, step,
}
use json_rpc.Server.Pool.Ends.{ends, twice, ends-evict}
use json_rpc.Server.Race.{
  LoopAt, accepting, ended, StopAt, locking, visiting, advancing, lost, clearing, unlocking,
  flagging, joining, returned, Race, holds, shifted, nth, front, pop_front, loop_step, accept,
  visit, stop_step, Move, client, loops, stops, move, moves,
}

-- The server as the two threads leave it.
abbrev pub server_of : Race → SockServer
server_of s = record {
  connections = s.connections;
  stopped = s.stopped;
  looping = true;
  acts = s.acts;
  is_active = s.is_active;
}

shifted_free : (q : StopAt) → holds q ≡ false → shifted q ≡ q
unfolding shifted
shifted_free (visiting n) h = absurd cc
shifted_free (advancing n) h = absurd cc
shifted_free locking h = refl
shifted_free lost h = refl
shifted_free clearing h = refl
shifted_free unlocking h = refl
shifted_free flagging h = refl
shifted_free joining h = refl
shifted_free returned h = refl

-- A round of the loop.
abbrev pub one_round : ℤ → List Move
one_round fd = client fd ∷ replicate 8 loops

-- The test of `_stop` and what follows.
abbrev pub tested : Bool → LoopAt
tested stopped = if stopped then ended else accepting

-- The two threads with the loop in accept and stop without the lock.
abbrev idle_race : List ℤ → Bool → StopAt → List Act → List ℤ → List ℤ → ThreadTest → Race
idle_race pool b q acts taken launched is_active = record {
  connections = pool;
  stopped = b;
  loop_at = accepting;
  stop_at = q;
  acts = acts;
  taken = taken;
  launched = launched;
  is_active = is_active;
}

-- The state behind a round.
abbrev round_done : ℤ → List ℤ → List Act → Race → Race
round_done fd pool acts s = record s {
  connections = pool;
  acts = acts;
  loop_at = tested s.stopped;
  taken = fd ∷ s.taken;
  launched = fd ∷ s.launched;
}

module _ (fd : ℤ) (q : StopAt) (acts : List Act) (taken launched : List ℤ) (is_active : ThreadTest)
    (free : holds q ≡ false) where
  -- A round while the pool has room, and one while it is full.
  round-room :
      (pool : List ℤ) (b : Bool)
      → leb pool_size (length pool) ≡ false
      → let s = idle_race pool b q acts taken launched is_active in
        moves (one_round fd) s ≡ ok (round_done fd (pool ++ fd ∷ []) acts s)
  unfolding moves move loop_step accept
  round-room pool true e = rw (moves, e, free) refl
  round-room pool false e = rw (moves, e, free) refl

  round-full :
      (x : ℤ) (pool : List ℤ) (b : Bool)
      → leb pool_size (length (x ∷ pool)) ≡ true
      → let s = idle_race (x ∷ pool) b q acts taken launched is_active in
        let acts' = delete_connection is_active x (shutdown is_active x acts) in
        moves (one_round fd) s ≡ ok (round_done fd (pool ++ fd ∷ []) acts' s)
  unfolding moves move loop_step accept front pop_front
  round-full x pool true e = rw (moves, e, shifted_free q free, free) refl
  round-full x pool false e = rw (moves, e, shifted_free q free, free) refl

  round_lem :
      (pool : List ℤ) (b : Bool)
      → length pool ≤ 16
      → let n = suc (length pool) - 16 in
        let s = idle_race pool b q acts taken launched is_active in
        moves (one_round fd) s
        ≡ ok
            (round_done fd (drop n (pool ++ fd ∷ [])) (ends is_active (twice (take n pool)) acts) s)
  unfolding ends twice
  round_lem [] b k = round-room [] b refl
  round_lem (x ∷ pool) b k = elim (Bool-cases (leb pool_size (length (x ∷ pool)))) [
    | inl e ↦
        let n : suc (length (x ∷ pool)) - 16 ≡ 1 = ground (arith, e) in
        rw n (
          round-full x pool b e
          ∙ ap
              (λ l. ok (
                round_done fd (pool ++ fd ∷ []) l
                  (idle_race (x ∷ pool) b q acts taken launched is_active)))
              (ends-evict is_active x [] acts))
    | inr e ↦
        let n : suc (length (x ∷ pool)) - 16 ≡ 0 = ground (arith, e) in
        rw n (round-room (x ∷ pool) b e)
  ]

-- A round of the loop from accept on, with at most 16 connections in the pool and stop standing
-- still outside of its lock, whatever the thread library says of the threads: the new connection
-- comes last into the pool and its thread has been started. If there were 16, the oldest has left
-- and has been ended twice; otherwise none has. To end a connection is to clear its flag, to shut
-- its socket down, to join its thread if it is active then, and to close its descriptor. The loop
-- ends if the stop flag is set, otherwise it is at accept again.
pub moves-round :
    (fd : ℤ) (s : Race)
    → s.loop_at ≡ accepting
    → holds s.stop_at ≡ false
    → length s.connections ≤ 16
    → let n = suc (length s.connections) - 16 in
      moves (one_round fd) s
      ≡ ok (record s {
        connections = drop n (s.connections ++ fd ∷ []);
        acts = ends s.is_active (twice (take n s.connections)) s.acts;
        loop_at = if s.stopped then ended else accepting;
        taken = fd ∷ s.taken;
        launched = fd ∷ s.launched;
      })
moves-round fd s a h k =
    subst
      (λ p.
        let n = suc (length s.connections) - 16 in
        moves (one_round fd) (record s { loop_at = p })
        ≡ ok (
            round_done fd (drop n (s.connections ++ fd ∷ []))
              (ends s.is_active (twice (take n s.connections)) s.acts) s))
      (sym a)
      (round_lem fd s.stop_at s.acts s.taken s.launched s.is_active h s.connections s.stopped k)

-- The visits of n connections, and what stop does then, up to join.
abbrev visits : ℕ → List Move
visits zero = replicate 4 stops
visits (suc n) = stops ∷ stops ∷ visits n

-- A call of stop, up to join, with n connections in the pool.
abbrev pub closing : ℕ → List Move
closing n = stops ∷ visits n

nth_past : (k : ℕ) (pool : List ℤ) → drop k pool ≡ [] → nth k pool ≡ none
nth_past k [] e = refl
nth_past zero (x ∷ pool) e = cc
nth_past (suc k) (x ∷ pool) e = nth_past k pool e

nth_found :
    (k : ℕ) (pool : List ℤ) (x : ℤ) (rest : List ℤ)
    → drop k pool ≡ x ∷ rest
    → (nth k pool ≡ some x) × (drop (suc k) pool ≡ rest)
nth_found zero [] x rest e = cc
nth_found (suc k) [] x rest e = cc
nth_found zero (y ∷ pool) x rest e = (
  ap (λ l. elim l [ [] ↦ none | z ∷ zs ↦ some z ]) e,
  ap (λ l. elim l [ [] ↦ [] | z ∷ zs ↦ zs ]) e,
)
nth_found (suc k) (y ∷ pool) x rest e = nth_found k pool x rest e

-- stop under way, behind k connections.
abbrev under_way : Race → ℕ → List Act → Race
under_way s k acts = record s { stop_at = visiting k; acts = acts }

moves-visits :
    (s : Race) (k : ℕ) (rest : List ℤ) (acts : List Act)
    → drop k s.connections ≡ rest
    → moves (visits (length rest)) (under_way s k acts)
      ≡ ok (record s {
        connections = [];
        stopped = true;
        acts = shutdown_all s.is_active rest acts;
        stop_at = joining;
      })
unfolding moves move stop_step visit shutdown_all
moves-visits s k [] acts e = rw (nth_past k s.connections e) refl
moves-visits s k (x ∷ rest) acts e =
    let (found, e') = nth_found k s.connections x rest e in
    rw found (moves-visits s (suc k) rest (shutdown s.is_active x acts) e')

-- A call of stop up to join, with the loop standing still, does statement by statement what step
-- does at once.
pub moves-closing :
    (s : Race)
    → s.stop_at ≡ locking
    → let server = step stop_called (server_of s) in
      moves (closing (length s.connections)) s
      ≡ ok (record s {
        connections = server.connections;
        stopped = server.stopped;
        acts = server.acts;
        stop_at = joining;
      })
unfolding moves move stop_step step close_connections stop_pool
moves-closing s e = rw e (moves-visits s 0 s.connections s.acts refl)
