-- ===== src/Server/Pool/Order.antt =====
-- The order in which connections leave the pool, and what is left of it.
use json_rpc.Common.{
  ℕ, suc, ◌-◌, ◌≤◌, ◌≡◌, refl, ap, ◌∙◌, arith, List, [], ◌∷◌, ◌++◌, Bool, true, false, length, map,
  take, drop, append_assoc, append-nil, length-append, leb, inl, inr, Bool-cases,
}
use json_rpc.Common.Int.{ℤ}
use json_rpc.Server.Pool.{
  SockServer, Act, ThreadTest, shutdown, shutdown_all, delete_connection, pool_size, started,
  make_room, admit, close_connections, stop_pool, Event, accepted, stop_called, step, steps,
}
use json_rpc.Server.Pool.Ends.{ends, twice, ends-evict, shutdown_all-ends}

-- The pool stays within its size, whatever happens.
length-make_room :
    (l : List ℤ) (s : SockServer)
    → s.connections ≡ l
    → length s.connections ≤ pool_size
    → suc (length (make_room l s).connections) ≤ pool_size
unfolding make_room
length-make_room [] s e h = omega (arith, ap length e)
length-make_room (x ∷ l) s e h = ground (arith, ap length e)

length-step :
    (e : Event) (s : SockServer)
    → length s.connections ≤ pool_size
    → length (step e s).connections ≤ pool_size
unfolding step admit close_connections stop_pool
length-step (accepted fd) s h = ground (
  arith,
  length-append (make_room s.connections s).connections (fd ∷ []),
  length-make_room s.connections s refl h,
)
length-step stop_called s h = omega arith

-- Whatever clients connect and however often stop is called, a pool of at most 16 connections stays
-- one.
pub length-steps :
    (events : List Event) (s : SockServer)
    → length s.connections ≤ pool_size
    → length (steps events s).connections ≤ pool_size
unfolding steps
length-steps [] s h = h
length-steps (e ∷ events) s h = length-steps events (step e s) (length-step e s h)

-- A running server with the given pool.
abbrev pub running : ThreadTest → List ℤ → List Act → SockServer
running is_active pool acts = record {
  connections = pool;
  stopped = false;
  looping = true;
  acts = acts;
  is_active = is_active;
}

-- How many of the descriptors have left a pool that they entered in order.
abbrev pub gone : List ℤ → ℕ
gone fds = length fds - 16

module _ (is_active : ThreadTest) where
  -- The server when `all` have entered: the last 16 are in the pool, the others have been evicted.
  abbrev pub settled : List ℤ → List Act → SockServer
  settled all acts =
      running is_active (drop (gone all) all) (ends is_active (twice (take (gone all) all)) acts)

  -- An eviction by the loop.
  abbrev evict : ℤ → List Act → List Act
  evict fd acts = delete_connection is_active fd (shutdown is_active fd acts)

  settled_cons :
      (x : ℤ) (rest : List ℤ) (acts : List Act)
      → 16 ≤ length rest
      → settled rest (evict x acts) ≡ settled (x ∷ rest) acts
  unfolding twice
  settled_cons x rest acts h =
      let e : gone (x ∷ rest) ≡ suc (gone rest) = omega arith in
      rw e (
        ap (running is_active (drop (gone rest) rest))
          (ends-evict is_active x (twice (take (gone rest) rest)) acts))

  step-full :
      (fd x : ℤ) (pool : List ℤ) (acts : List Act)
      → leb pool_size (suc (length pool)) ≡ true
      → step (accepted fd) (running is_active (x ∷ pool) acts)
        ≡ running is_active (pool ++ fd ∷ []) (evict x acts)
  unfolding step admit make_room
  step-full fd x pool acts e = rw (step, e) refl

  step-room :
      (fd x : ℤ) (pool : List ℤ) (acts : List Act)
      → leb pool_size (suc (length pool)) ≡ false
      → step (accepted fd) (running is_active (x ∷ pool) acts)
        ≡ running is_active (x ∷ pool ++ fd ∷ []) acts
  unfolding step admit make_room
  step-room fd x pool acts e = rw (step, e) refl

  steps_accepted :
      (fds pool : List ℤ) (acts : List Act)
      → length pool ≤ pool_size
      → steps (map accepted fds) (running is_active pool acts) ≡ settled (pool ++ fds) acts
  unfolding steps step admit make_room ends twice
  steps_accepted [] pool acts h =
      let e : gone (pool ++ []) ≡ 0 = omega (arith, length-append pool []) in
      rw (e, append-nil pool) refl
  steps_accepted (fd ∷ fds) [] acts h = steps_accepted fds (fd ∷ []) acts (omega arith)
  steps_accepted (fd ∷ fds) (x ∷ pool) acts h =
      elim (Bool-cases (leb pool_size (suc (length pool)))) [
        | inl e ↦
            ap (steps (map accepted fds)) (step-full fd x pool acts e)
            ∙ (steps_accepted fds (pool ++ fd ∷ []) (evict x acts)
                  (omega (arith, length-append pool (fd ∷ [])))
                ∙ ap (λ l. settled l (evict x acts)) (append_assoc pool (fd ∷ []) fds)
                ∙ settled_cons x (pool ++ fd ∷ fds) acts
                    (ground (arith, length-append pool (fd ∷ fds))))
        | inr e ↦
            ap (steps (map accepted fds)) (step-room fd x pool acts e)
            ∙ (steps_accepted fds (x ∷ pool ++ fd ∷ []) acts
                  (ground (arith, length-append pool (fd ∷ [])))
                ∙ ap (λ l. settled (x ∷ l) acts) (append_assoc pool (fd ∷ []) fds))
      ]

  -- When any clients connect to a server that has just started, the last 16 of them are in the pool,
  -- in order, and the others have been evicted in the order in which they came; an eviction shuts
  -- the connection down twice, first by the loop and then by the destructor.
  pub steps-started :
      (fds : List ℤ)
      → steps (map accepted fds) (started is_active)
        ≡ running is_active
            (drop (length fds - 16) fds)
            (ends is_active (twice (take (length fds - 16) fds)) [])
  steps-started fds = steps_accepted fds [] [] (omega arith)

  -- Nothing is accepted any more once the loop has ended.
  steps_stopped :
      (fds pool : List ℤ) (b : Bool) (acts : List Act)
      → let s : SockServer = record {
        connections = pool;
        stopped = b;
        looping = false;
        acts = acts;
        is_active = is_active;
      } in
        steps (map accepted fds) s ≡ s
  unfolding steps step
  steps_stopped [] pool b acts = refl
  steps_stopped (fd ∷ fds) pool b acts = steps_stopped fds pool b acts

  -- After stop is called on a running server, the loop, which waits in accept, still takes one
  -- client: that connection stays in the pool and is not closed, every earlier one has been shut
  -- down, the loop ends and no later client is taken.
  pub steps-stop_called :
      (pool : List ℤ) (acts : List Act) (fd : ℤ) (fds : List ℤ)
      → steps (stop_called ∷ accepted fd ∷ map accepted fds) (running is_active pool acts)
        ≡ record {
          connections = fd ∷ [];
          stopped = true;
          looping = false;
          acts = ends is_active pool acts;
          is_active = is_active;
        }
  unfolding steps step admit make_room close_connections stop_pool
  steps-stop_called pool acts fd fds =
      steps_stopped fds (fd ∷ []) true (shutdown_all is_active pool acts)
      ∙ ap
          (λ l. record {
            connections = fd ∷ [];
            stopped = true;
            looping = false;
            acts = l;
            is_active = is_active;
          })
          (shutdown_all-ends is_active pool acts)
