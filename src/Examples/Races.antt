-- ===== src/Examples/Races.antt =====
-- The two threads of a server in some schedules.
use mathlib.Core.List.{Memᴰ}
use json_rpc.Common.{
  ◌≡◌, ◌⊎◌, ◌≤◌, refl, inl, leb, arith, [], ◌∷◌, ◌++◌, true, false, length, replicate,
}
use json_rpc.Common.Int.{ℤ, pos}
use json_rpc.Errors.{ok, stop, Stop, Fault}
use json_rpc.Server.Pool.{ThreadTest, disconnects, shuts, joins, closes, shutdown, pool_size}
use json_rpc.Server.Pool.Ends.{ends, twice}
use json_rpc.Server.Race.{
  LoopAt, accepting, taking, popping, starting, locking, joining, returned, Race, loops, stops,
  moves, new_race,
}
use json_rpc.Server.Race.Sound.{in_hand}
use json_rpc.Server.Race.Accounts.{moves_accounted}
use json_rpc.Server.Race.Single.{one_round, closing, moves-round}
use json_rpc.Server.Race.Torn.{torn_front, torn_iterator, started_closed, moves-waits}

-- Every thread is found active.
abbrev active : ThreadTest
active acts fd = true

-- Two clients, while stop closes the first one and waits for the loop.
abbrev met : Race
met = record {
  connections = pos 6 ∷ [];
  stopped = true;
  loop_at = LoopAt.ended;
  stop_at = returned;
  acts = disconnects (pos 5) ∷ shuts (pos 5) ∷ joins (pos 5) ∷ closes (pos 5) ∷ [];
  taken = pos 6 ∷ pos 5 ∷ [];
  launched = pos 6 ∷ pos 5 ∷ [];
  is_active = active;
}

schedule :
    moves
      (loops ∷ one_round (pos 5) ++ closing 1 ++ one_round (pos 6) ++ stops ∷ [])
      (new_race active)
    ≡ ok met
unfolding moves shutdown
schedule = refl

moves_accounted_example :
    (length met.connections ≤ pool_size)
    × ((fd : ℤ)
        → Memᴰ fd met.taken
        → Memᴰ (closes fd) met.acts ⊎ (Memᴰ fd met.connections ⊎ Memᴰ fd (in_hand met.loop_at)))
moves_accounted_example =
    moves_accounted active
      (loops ∷ one_round (pos 5) ++ closing 1 ++ one_round (pos 6) ++ stops ∷ []) met schedule

-- A full pool.
abbrev full : LoopAt → Race
full at = record {
  connections = replicate 16 (pos 5);
  stopped = false;
  loop_at = at;
  stop_at = locking;
  acts = [];
  taken = [];
  launched = [];
  is_active = active;
}

-- The thread of the oldest connection is active until it is joined.
abbrev until_joined : ThreadTest
until_joined acts fd = leb (length acts) 2

moves-round_example :
    let s = record (full accepting) { is_active = until_joined } in
    moves (one_round (pos 7)) s
    ≡ ok (record s {
      connections = replicate 15 (pos 5) ++ pos 7 ∷ [];
      acts =
          disconnects (pos 5)
          ∷ shuts (pos 5)
          ∷ joins (pos 5)
          ∷ closes (pos 5)
          ∷ disconnects (pos 5)
          ∷ shuts (pos 5)
          ∷ closes (pos 5)
          ∷ [];
      taken = pos 7 ∷ [];
      launched = pos 7 ∷ [];
    })
unfolding ends twice
moves-round_example =
    moves-round (pos 7) (record (full accepting) { is_active = until_joined }) refl refl
      (omega arith)

torn_front_example :
    moves (closing 16 ++ loops ∷ []) (full (taking (pos 7))) ≡ stop (Stop.fault Fault.empty_list)
torn_front_example = torn_front (full (taking (pos 7))) (pos 5) (pos 7) refl (inl refl)

torn_iterator_example :
    moves (stops ∷ stops ∷ loops ∷ stops ∷ []) (full (popping (pos 5) (pos 7)))
    ≡ stop (Stop.fault Fault.dangling)
torn_iterator_example =
    torn_iterator (full (popping (pos 5) (pos 7))) (pos 5) (replicate 15 (pos 5)) (pos 5) (pos 7)
      refl refl refl

abbrev two : Race
two = record (full (starting (pos 7))) { connections = pos 6 ∷ pos 7 ∷ [] }

started_closed_example :
    (s : Race) × (moves (closing 2 ++ loops ∷ loops ∷ stops ∷ []) two ≡ ok s)
    × (s.stop_at ≡ returned)
    × (s.launched ≡ pos 7 ∷ [])
    × Memᴰ (closes (pos 7)) s.acts
started_closed_example = started_closed two (pos 6 ∷ []) (pos 7) refl refl refl

moves-waits_example :
    (s : Race) × (moves (closing 16 ++ loops ∷ stops ∷ stops ∷ []) (full accepting) ≡ ok s)
    × (s.stop_at ≡ joining)
moves-waits_example =
    moves-waits (full accepting) (loops ∷ stops ∷ stops ∷ []) refl refl (tt, (tt, (tt, tt)))
