-- ===== src/Server/Race/Accounts.antt =====
-- What no schedule of the two threads breaks: the bound of the pool, and that no connection is lost
-- before it is closed.
use mathlib.Core.List.{Memᴰ}
use json_rpc.Common.{
  ℕ, ◌≤◌, ◌≡◌, ◌⊎◌, refl, sym, subst, arith, List, [], ◌∷◌, ◌++◌, Option, none, some, inl, inr, leb,
  length, length-append, Bool-cases,
}
use json_rpc.Common.Int.{ℤ}
use json_rpc.Errors.{ok}
use json_rpc.Server.Pool.{ThreadTest, closes, shutdown, delete_connection, pool_size}
use json_rpc.Server.Race.{
  LoopAt, testing, accepting, sizing, taking, shutting, popping, deleting, adding, starting, ended,
  StopAt, locking, visiting, advancing, lost, clearing, unlocking, flagging, joining, returned,
  Race, holds, nth, front, pop_front, loop_step, accept, visit, join, stop_step, Move, client,
  loops, stops, move, moves, new_race,
}
use json_rpc.Server.Race.Sound.{
  Accounted-accepted, Kept-bind, Sound, IsClosed, Leads, in_hand, Accounted, IsSound, Kept,
  AtLoop-more, shutdown-Grows, delete_connection-Grows, AtStop-more, AtStop-shifted, AtStop-pushed,
  shutdown-IsClosed, Accounted-more, Accounted-popped, Accounted-pushed, Accounted-cleared,
  AtLoop-cleared, all_visited, one_visited,
}

pop_front-Kept :
    (pool : List ℤ) (old fd : ℤ) (s : Race)
    → Sound (popping old fd) s.stop_at pool s.acts s.taken
    → Kept (pop_front pool old fd s)
unfolding pop_front
pop_front-Kept [] old fd s v = tt
pop_front-Kept (x ∷ pool) old fd s v = record {
  bounded = omega (arith, v.bounded);
  at_loop = omega (arith, v.bounded);
  at_stop = AtStop-shifted s.stop_at x pool s.acts v.at_stop;
  accounted = λ i m.
      Accounted-popped (deleting old fd) x pool s.acts i
        (subst (IsClosed s.acts) v.at_loop.0 v.at_loop.1) (v.accounted i m);
}

front-Kept :
    (pool : List ℤ) (fd : ℤ) (s : Race)
    → pool ≡ s.connections
    → Sound (taking fd) s.stop_at s.connections s.acts s.taken
    → Kept (front pool fd s)
unfolding front
front-Kept [] fd s e v = tt
front-Kept (x ∷ pool) fd s e v = record {
  bounded = v.bounded;
  at_loop = subst (Leads x) e refl;
  at_stop = v.at_stop;
  accounted = v.accounted;
}

loop_step-Kept :
    (p : LoopAt) (s : Race)
    → s.loop_at ≡ p
    → Sound p s.stop_at s.connections s.acts s.taken
    → Kept (loop_step p s)
unfolding loop_step
loop_step-Kept testing s e v = elim (Bool-cases s.stopped) [
  | inl h ↦
      rw h
        (record { bounded = v.bounded; at_loop = tt; at_stop = v.at_stop; accounted = v.accounted })
  | inr h ↦
      rw h
        (record { bounded = v.bounded; at_loop = tt; at_stop = v.at_stop; accounted = v.accounted })
]
loop_step-Kept accepting s e v =
    subst (λ p. Sound p s.stop_at s.connections s.acts s.taken) (sym e) v
loop_step-Kept (sizing fd) s e v = elim (Bool-cases (leb pool_size (length s.connections))) [
  | inl h ↦
      rw h
        (record { bounded = v.bounded; at_loop = tt; at_stop = v.at_stop; accounted = v.accounted })
  | inr h ↦ rw h (record {
    bounded = v.bounded;
    at_loop = ground (arith, h);
    at_stop = v.at_stop;
    accounted = v.accounted;
  })
]
loop_step-Kept (taking fd) s e v = front-Kept s.connections fd s refl v
loop_step-Kept (shutting old fd) s e v = record {
  bounded = v.bounded;
  at_loop = (v.at_loop, shutdown-IsClosed s.is_active s.acts old);
  at_stop =
      AtStop-more s.stop_at s.connections s.acts (shutdown s.is_active old s.acts)
        (shutdown-Grows s.is_active old s.acts) v.at_stop;
  accounted = λ i m.
      Accounted-more (shutting old fd) s.connections s.acts (shutdown s.is_active old s.acts) i
        (shutdown-Grows s.is_active old s.acts) (v.accounted i m);
}
loop_step-Kept (popping old fd) s e v = pop_front-Kept s.connections old fd s v
loop_step-Kept (deleting old fd) s e v = record {
  bounded = v.bounded;
  at_loop = v.at_loop;
  at_stop =
      AtStop-more s.stop_at s.connections s.acts (delete_connection s.is_active old s.acts)
        (delete_connection-Grows s.is_active old s.acts) v.at_stop;
  accounted = λ i m.
      Accounted-more (deleting old fd) s.connections s.acts
        (delete_connection s.is_active old s.acts) i
        (delete_connection-Grows s.is_active old s.acts) (v.accounted i m);
}
loop_step-Kept (adding fd) s e v = elim (Bool-cases (holds s.stop_at)) [
  | inl h ↦ rw h (subst (λ p. Sound p s.stop_at s.connections s.acts s.taken) (sym e) v)
  | inr h ↦ rw h (record {
    bounded = omega (arith, v.at_loop, length-append s.connections (fd ∷ []));
    at_loop = tt;
    at_stop = AtStop-pushed s.stop_at s.connections (s.connections ++ fd ∷ []) s.acts h v.at_stop;
    accounted = λ i m. Accounted-pushed fd s.connections s.acts i (v.accounted i m);
  })
]
loop_step-Kept (starting fd) s e v = record {
  bounded = v.bounded;
  at_loop = tt;
  at_stop = v.at_stop;
  accounted = v.accounted;
}
loop_step-Kept ended s e v = subst (λ p. Sound p s.stop_at s.connections s.acts s.taken) (sym e) v

visit-Kept :
    (n : ℕ) (o : Option ℤ) (s : Race)
    → nth n s.connections ≡ o
    → Sound s.loop_at (visiting n) s.connections s.acts s.taken
    → Kept (ok (visit n o s))
unfolding visit
visit-Kept n none s e v = record {
  bounded = v.bounded;
  at_loop = v.at_loop;
  at_stop = all_visited n s.connections s.acts e v.at_stop;
  accounted = v.accounted;
}
visit-Kept n (some fd) s e v = record {
  bounded = v.bounded;
  at_loop =
      AtLoop-more s.loop_at s.connections s.acts (shutdown s.is_active fd s.acts)
        (shutdown-Grows s.is_active fd s.acts) v.at_loop;
  at_stop = one_visited s.is_active n fd s.connections s.acts e v.at_stop;
  accounted = λ i m.
      Accounted-more s.loop_at s.connections s.acts (shutdown s.is_active fd s.acts) i
        (shutdown-Grows s.is_active fd s.acts) (v.accounted i m);
}

join-Kept : (p : LoopAt) (s : Race) → IsSound s → Kept (ok (join p s))
unfolding join
join-Kept ended s v = record {
  bounded = v.bounded;
  at_loop = v.at_loop;
  at_stop = tt;
  accounted = v.accounted;
}
join-Kept _ s v = v

stop_step-Kept :
    (q : StopAt) (s : Race)
    → s.stop_at ≡ q
    → Sound s.loop_at q s.connections s.acts s.taken
    → Kept (stop_step q s)
unfolding stop_step
stop_step-Kept locking s e v = record {
  bounded = v.bounded;
  at_loop = v.at_loop;
  at_stop = tt;
  accounted = v.accounted;
}
stop_step-Kept (visiting n) s e v = visit-Kept n (nth n s.connections) s refl v
stop_step-Kept (advancing n) s e v = record {
  bounded = v.bounded;
  at_loop = v.at_loop;
  at_stop = v.at_stop;
  accounted = v.accounted;
}
stop_step-Kept lost s e v = tt
stop_step-Kept clearing s e v = record {
  bounded = omega arith;
  at_loop = AtLoop-cleared s.loop_at s.connections s.acts v.at_loop;
  at_stop = tt;
  accounted = λ i m. Accounted-cleared s.loop_at s.connections s.acts i v.at_stop (v.accounted i m);
}
stop_step-Kept unlocking s e v = record {
  bounded = v.bounded;
  at_loop = v.at_loop;
  at_stop = tt;
  accounted = v.accounted;
}
stop_step-Kept flagging s e v = record {
  bounded = v.bounded;
  at_loop = v.at_loop;
  at_stop = tt;
  accounted = v.accounted;
}
stop_step-Kept joining s e v =
    join-Kept s.loop_at s (subst (λ q. Sound s.loop_at q s.connections s.acts s.taken) (sym e) v)
stop_step-Kept returned s e v =
    subst (λ q. Sound s.loop_at q s.connections s.acts s.taken) (sym e) v

accept-Kept :
    (fd : ℤ) (p : LoopAt) (s : Race) → s.loop_at ≡ p → IsSound s → Kept (ok (accept fd p s))
unfolding accept
accept-Kept fd accepting s e v = record {
  bounded = v.bounded;
  at_loop = tt;
  at_stop = v.at_stop;
  accounted = λ i m. Accounted-accepted fd s.connections s.acts i (elim m [
    | Memᴰ.head q ↦ inl q
    | Memᴰ.tail m' ↦ inr (subst (λ p. Accounted p s.connections s.acts i) e (v.accounted i m'))
  ]);
}
accept-Kept fd _ s e v = v

move-Kept : (m : Move) (s : Race) → IsSound s → Kept (move m s)
unfolding move
move-Kept (client fd) s v = accept-Kept fd s.loop_at s refl v
move-Kept loops s v = loop_step-Kept s.loop_at s refl v
move-Kept stops s v = stop_step-Kept s.stop_at s refl v

moves-Kept : (ms : List Move) (s : Race) → IsSound s → Kept (moves ms s)
unfolding moves
moves-Kept [] s v = v
moves-Kept (m ∷ ms) s v = Kept-bind (move m s) (moves ms) (move-Kept m s v) (moves-Kept ms)

new_race-IsSound : (is_active : ThreadTest) → IsSound (new_race is_active)
new_race-IsSound is_active = record {
  bounded = omega arith;
  at_loop = tt;
  at_stop = tt;
  accounted = λ i m. elim m [ ];
}

-- In every schedule of the statements of the loop and of stop, and of clients that connect, that
-- the server gets through: the pool never has more than 16 connections, and every descriptor that
-- accept has given has been closed, or is in the pool, or is the new connection that the loop has
-- in hand.
pub moves_accounted :
    (is_active : ThreadTest) (ms : List Move) (s : Race)
    → moves ms (new_race is_active) ≡ ok s
    → (length s.connections ≤ pool_size)
      × ((fd : ℤ)
          → Memᴰ fd s.taken
          → Memᴰ (closes fd) s.acts ⊎ (Memᴰ fd s.connections ⊎ Memᴰ fd (in_hand s.loop_at)))
moves_accounted is_active ms s e =
    let v = subst Kept e (moves-Kept ms (new_race is_active) (new_race-IsSound is_active)) in
    (v.bounded, v.accounted)
