-- ===== src/Server/Race/Torn.antt =====
-- What goes wrong where the two threads overlap, and where stop waits for ever.
use mathlib.Core.List.{Memᴰ}
use mathlib.Core.List.Memᴰ
use json_rpc.Common.{
  ◌≡◌, ◌⊎◌, refl, sym, ap, subst, ◌∙◌, List, [], ◌∷◌, ◌++◌, All, true, inl, inr, length,
}
use json_rpc.Common.Int.{ℤ}
use json_rpc.Errors.{ok, stop, Stop, Fault, ◌>>=◌, bind_cong, bind_assoc}
use json_rpc.Server.Pool.{
  Act, ThreadTest, closes, shutdown, shutdown_all, step, close_connections, stop_pool,
}
use json_rpc.Server.Race.{
  accepting, taking, popping, starting, ended, locking, joining, returned, Race, shifted, front,
  pop_front, loop_step, visit, join, stop_step, Move, client, loops, stops, move, moves,
}
use json_rpc.Server.Race.Sound.{shutdown-IsClosed, shutdown_all-Grows}
use json_rpc.Server.Race.Single.{closing, moves-closing}

moves-append : (ms ms' : List Move) (s : Race) → moves (ms ++ ms') s ≡ (moves ms s >>= moves ms')
unfolding moves
moves-append [] ms' s = refl
moves-append (m ∷ ms) ms' s =
    bind_cong (move m s) _ _ (moves-append ms ms')
    ∙ sym (bind_assoc (move m s) (moves ms) (moves ms'))

-- The two threads when stop waits for the loop.
abbrev closed_race : Race → Race
closed_race s = record s {
  connections = [];
  stopped = true;
  acts = shutdown_all s.is_active s.connections s.acts;
  stop_at = joining;
}

-- What follows a whole call of stop.
behind_closing :
    (s : Race) (ms : List Move)
    → s.stop_at ≡ locking
    → moves (closing (length s.connections) ++ ms) s ≡ moves ms (closed_race s)
unfolding step close_connections stop_pool
behind_closing s ms e =
    moves-append (closing (length s.connections)) ms s
    ∙ ap (λ r. r >>= moves ms) (moves-closing s e)

-- If stop runs up to its join while the loop is about to look at the oldest connection of a full
-- pool, or about to remove it, then the list is empty when the loop goes on: front or pop_front of
-- an empty list.
pub torn_front :
    (s : Race) (old fd : ℤ)
    → s.stop_at ≡ locking
    → (s.loop_at ≡ taking fd) ⊎ (s.loop_at ≡ popping old fd)
    → moves (closing (length s.connections) ++ loops ∷ []) s ≡ stop (Stop.fault Fault.empty_list)
unfolding moves move loop_step front pop_front
torn_front s old fd e (inl p) = behind_closing s (loops ∷ []) e ∙ rw p refl
torn_front s old fd e (inr p) = behind_closing s (loops ∷ []) e ∙ rw p refl

-- If the loop removes the oldest connection while stop, which has just shut it down, is still at
-- it, then stop goes on from a node that has left the list.
pub torn_iterator :
    (s : Race) (x : ℤ) (pool : List ℤ) (old fd : ℤ)
    → s.stop_at ≡ locking
    → s.loop_at ≡ popping old fd
    → s.connections ≡ x ∷ pool
    → moves (stops ∷ stops ∷ loops ∷ stops ∷ []) s ≡ stop (Stop.fault Fault.dangling)
unfolding moves move stop_step visit loop_step pop_front shifted
torn_iterator s x pool old fd e p c = rw (moves, e, c, p) refl

closes_all :
    (is_active : ThreadTest) (l : List ℤ) (acts : List Act) (fd : ℤ)
    → Memᴰ fd l
    → Memᴰ (closes fd) (shutdown_all is_active l acts)
unfolding shutdown_all
closes_all is_active [] acts fd m = elim m [ ]
closes_all is_active (x ∷ l) acts fd (Memᴰ.head e) =
    shutdown_all-Grows is_active l (shutdown is_active x acts) fd (
      subst (λ y. Memᴰ (closes fd) (shutdown is_active y acts)) e
        (shutdown-IsClosed is_active acts fd))
closes_all is_active (x ∷ l) acts fd (Memᴰ.tail m) =
    closes_all is_active l (shutdown is_active x acts) fd m

-- If stop runs up to its join between push_back of a new connection and its start, then stop
-- returns, the connection has been closed, and its thread has been started all the same.
pub started_closed :
    (s : Race) (pool : List ℤ) (fd : ℤ)
    → s.stop_at ≡ locking
    → s.loop_at ≡ starting fd
    → s.connections ≡ pool ++ fd ∷ []
    → (s' : Race) × (moves (closing (length s.connections) ++ loops ∷ loops ∷ stops ∷ []) s ≡ ok s')
      × (s'.stop_at ≡ returned)
      × (s'.launched ≡ fd ∷ s.launched)
      × Memᴰ (closes fd) s'.acts
unfolding moves move stop_step join loop_step
started_closed s pool fd e p c = (
  record (closed_race s) { loop_at = ended; stop_at = returned; launched = fd ∷ s.launched },
  behind_closing s (loops ∷ loops ∷ stops ∷ []) e ∙ rw p refl,
  refl,
  refl,
  closes_all s.is_active s.connections s.acts fd
      (subst (Memᴰ fd) (sym c) (Memᴰ.append_right pool (Memᴰ.head refl))),
)

-- A move of the threads.
abbrev pub IsWait : Move → Type 0
IsWait (client fd) = ⊥
IsWait _ = Unit

waits :
    (s : Race) (ms : List Move)
    → s.loop_at ≡ accepting
    → s.stop_at ≡ joining
    → All IsWait ms
    → moves ms s ≡ ok s
unfolding moves move stop_step join loop_step
waits s [] p e w = refl
waits s (client fd ∷ ms) p e w = elim w.0 [ ]
waits s (loops ∷ ms) p e w = ap (λ q. loop_step q s >>= moves ms) p ∙ waits s ms p e w.1
waits s (stops ∷ ms) p e w =
    ap (λ q. stop_step q s >>= moves ms) e ∙ ap (λ q. moves ms (join q s)) p ∙ waits s ms p e w.1

-- If stop is called while the loop is in accept, then whatever the two threads do, as long as no
-- client connects stop does not get past its join.
pub moves-waits :
    (s : Race) (ms : List Move)
    → s.stop_at ≡ locking
    → s.loop_at ≡ accepting
    → All IsWait ms
    → (s' : Race) × (moves (closing (length s.connections) ++ ms) s ≡ ok s')
      × (s'.stop_at ≡ joining)
moves-waits s ms e p w =
    (closed_race s, behind_closing s ms e ∙ waits (closed_race s) ms p refl w, refl)
