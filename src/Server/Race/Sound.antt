-- ===== src/Server/Race/Sound.antt =====
-- The invariant of the two threads, and how it moves with each part of the state.
use mathlib.Core.List.Memᴰ
use mathlib.Core.List.{Memᴰ}
use json_rpc.Common.{
  ℕ, zero, suc, ◌≤◌, ◌<◌, ◌≡◌, ◌⊎◌, refl, sym, ap, subst, arith, List, [], ◌∷◌, ◌++◌, false, none,
  some, inl, inr, length, take, All, Bool-cases,
}
use json_rpc.Common.Int.{ℤ}
use json_rpc.Errors.{Result, ok, stop, ◌>>=◌}
use json_rpc.Server.Pool.{
  Act, ThreadTest, disconnects, shuts, joins, closes, shutdown, shutdown_all, delete_connection,
  pool_size,
}
use json_rpc.Server.Race.{
  LoopAt, accepting, sizing, taking, shutting, popping, deleting, adding, starting, StopAt,
  visiting, advancing, clearing, Race, holds, shifted, nth,
}

-- The connection has been closed.
abbrev pub IsClosed : List Act → ℤ → Type 0
IsClosed acts fd = Memᴰ (closes fd) acts

-- The oldest connection stays in front, unless stop takes all of them away.
abbrev pub Leads : ℤ → List ℤ → Type 0
Leads old [] = Unit
Leads old (x ∷ xs) = old ≡ x

abbrev pub AtLoop : LoopAt → List ℤ → List Act → Type 0
AtLoop (shutting old fd) pool acts = Leads old pool
AtLoop (popping old fd) pool acts = Leads old pool × IsClosed acts old
AtLoop (deleting old fd) pool acts = length pool < pool_size
AtLoop (adding fd) pool acts = length pool < pool_size
AtLoop _ pool acts = Unit

-- The connections before the iterator have been closed.
abbrev pub AtStop : StopAt → List ℤ → List Act → Type 0
AtStop (visiting n) pool acts = All (IsClosed acts) (take n pool)
AtStop (advancing n) pool acts = All (IsClosed acts) (take (suc n) pool)
AtStop clearing pool acts = All (IsClosed acts) pool
AtStop _ pool acts = Unit

-- The new connection that the loop has not yet put into the pool.
abbrev pub in_hand : LoopAt → List ℤ
in_hand (sizing fd) = fd ∷ []
in_hand (taking fd) = fd ∷ []
in_hand (shutting old fd) = fd ∷ []
in_hand (popping old fd) = fd ∷ []
in_hand (deleting old fd) = fd ∷ []
in_hand (adding fd) = fd ∷ []
in_hand _ = []

abbrev pub Accounted : LoopAt → List ℤ → List Act → ℤ → Type 0
Accounted p pool acts fd = IsClosed acts fd ⊎ (Memᴰ fd pool ⊎ Memᴰ fd (in_hand p))

pub record Sound (p : LoopAt) (q : StopAt) (pool : List ℤ) (acts : List Act) (taken : List ℤ)
    : Type 0 where
  pub bounded : length pool ≤ pool_size
  pub at_loop : AtLoop p pool acts
  pub at_stop : AtStop q pool acts
  pub accounted : (fd : ℤ) → Memᴰ fd taken → Accounted p pool acts fd

abbrev pub IsSound : Race → Type 0
IsSound s = Sound s.loop_at s.stop_at s.connections s.acts s.taken

abbrev pub Kept : Result Race → Type 0
Kept (ok s) = IsSound s
Kept (stop e) = Unit

-- What has been closed in the first list has been closed in the second.
abbrev pub Grows : List Act → List Act → Type 0
Grows acts more = (fd : ℤ) → IsClosed acts fd → IsClosed more fd

pub shutdown-Grows :
    (is_active : ThreadTest) (fd : ℤ) (acts : List Act) → Grows acts (shutdown is_active fd acts)
unfolding shutdown
shutdown-Grows is_active fd acts i m =
    let cut = acts ++ disconnects fd ∷ shuts fd ∷ [] in
    elim (Bool-cases (is_active cut fd)) [
      | inl e ↦ rw e (
          Memᴰ.append_left (closes fd ∷ []) (
            Memᴰ.append_left (joins fd ∷ []) (Memᴰ.append_left (disconnects fd ∷ shuts fd ∷ []) m)))
      | inr e ↦
          rw e (
            Memᴰ.append_left (closes fd ∷ []) (Memᴰ.append_left (disconnects fd ∷ shuts fd ∷ []) m))
    ]

pub delete_connection-Grows :
    (is_active : ThreadTest) (fd : ℤ) (acts : List Act)
    → Grows acts (delete_connection is_active fd acts)
unfolding delete_connection
delete_connection-Grows is_active fd acts = shutdown-Grows is_active fd acts

pub shutdown_all-Grows :
    (is_active : ThreadTest) (fds : List ℤ) (acts : List Act)
    → Grows acts (shutdown_all is_active fds acts)
unfolding shutdown_all
shutdown_all-Grows is_active [] acts i m = m
shutdown_all-Grows is_active (x ∷ fds) acts i m =
    shutdown_all-Grows is_active fds (shutdown is_active x acts) i
      (shutdown-Grows is_active x acts i m)

pub All-more :
    (acts more : List Act) (l : List ℤ)
    → Grows acts more
    → All (IsClosed acts) l
    → All (IsClosed more) l
All-more acts more [] g h = tt
All-more acts more (x ∷ l) g h = (g x h.0, All-more acts more l g h.1)

pub AtLoop-more :
    (p : LoopAt) (pool : List ℤ) (acts more : List Act)
    → Grows acts more
    → AtLoop p pool acts
    → AtLoop p pool more
AtLoop-more (popping old fd) pool acts more g h = (h.0, g old h.1)
AtLoop-more (shutting old fd) pool acts more g h = h
AtLoop-more (deleting old fd) pool acts more g h = h
AtLoop-more (adding fd) pool acts more g h = h
AtLoop-more _ pool acts more g h = tt

pub AtStop-more :
    (p : StopAt) (pool : List ℤ) (acts more : List Act)
    → Grows acts more
    → AtStop p pool acts
    → AtStop p pool more
AtStop-more (visiting n) pool acts more g h = All-more acts more (take n pool) g h
AtStop-more (advancing n) pool acts more g h = All-more acts more (take (suc n) pool) g h
AtStop-more clearing pool acts more g h = All-more acts more pool g h
AtStop-more _ pool acts more g h = tt

-- pop_front moves the iterator with what is behind it.
pub AtStop-shifted :
    (p : StopAt) (x : ℤ) (pool : List ℤ) (acts : List Act)
    → AtStop p (x ∷ pool) acts
    → AtStop (shifted p) pool acts
unfolding shifted
AtStop-shifted (visiting zero) x pool acts h = tt
AtStop-shifted (visiting (suc n)) x pool acts h = h.1
AtStop-shifted (advancing zero) x pool acts h = tt
AtStop-shifted (advancing (suc n)) x pool acts h = h.1
AtStop-shifted clearing x pool acts h = h.1
AtStop-shifted _ x pool acts h = tt

-- push_back waits while stop closes the connections.
pub AtStop-pushed :
    (p : StopAt) (pool pool' : List ℤ) (acts : List Act)
    → holds p ≡ false
    → AtStop p pool acts
    → AtStop p pool' acts
AtStop-pushed (visiting n) pool pool' acts e h = absurd cc
AtStop-pushed (advancing n) pool pool' acts e h = absurd cc
AtStop-pushed clearing pool pool' acts e h = absurd cc
AtStop-pushed _ pool pool' acts e h = tt

pub shutdown-IsClosed :
    (is_active : ThreadTest) (acts : List Act) (fd : ℤ) → IsClosed (shutdown is_active fd acts) fd
unfolding shutdown
shutdown-IsClosed is_active acts fd = Memᴰ.append_right _ (Memᴰ.head refl)

pub Accounted-more :
    (p : LoopAt) (pool : List ℤ) (acts more : List Act) (fd : ℤ)
    → Grows acts more
    → Accounted p pool acts fd
    → Accounted p pool more fd
Accounted-more p pool acts more fd g (inl h) = inl (g fd h)
Accounted-more p pool acts more fd g (inr h) = inr h

-- The connection that is popped has been closed.
pub Accounted-popped :
    (p : LoopAt) (x : ℤ) (pool : List ℤ) (acts : List Act) (fd : ℤ)
    → IsClosed acts x
    → Accounted p (x ∷ pool) acts fd
    → Accounted p pool acts fd
Accounted-popped p x pool acts fd c (inl h) = inl h
Accounted-popped p x pool acts fd c (inr (inl (Memᴰ.head e))) =
    inl (subst (IsClosed acts) (sym e) c)
Accounted-popped p x pool acts fd c (inr (inl (Memᴰ.tail m))) = inr (inl m)
Accounted-popped p x pool acts fd c (inr (inr m)) = inr (inr m)

-- The new connection goes from the hand into the pool.
pub Accounted-pushed :
    (new : ℤ) (pool : List ℤ) (acts : List Act) (fd : ℤ)
    → Accounted (adding new) pool acts fd
    → Accounted (starting new) (pool ++ new ∷ []) acts fd
Accounted-pushed new pool acts fd (inl h) = inl h
Accounted-pushed new pool acts fd (inr (inl m)) = inr (inl (Memᴰ.append_left (new ∷ []) m))
Accounted-pushed new pool acts fd (inr (inr m)) = inr (inl (Memᴰ.append_right pool m))

-- All connections of the pool have been closed.
pub Accounted-cleared :
    (p : LoopAt) (pool : List ℤ) (acts : List Act) (fd : ℤ)
    → All (IsClosed acts) pool
    → Accounted p pool acts fd
    → Accounted p [] acts fd
Accounted-cleared p pool acts fd c (inl h) = inl h
Accounted-cleared p (x ∷ pool) acts fd c (inr (inl (Memᴰ.head e))) =
    inl (subst (IsClosed acts) (sym e) c.0)
Accounted-cleared p (x ∷ pool) acts fd c (inr (inl (Memᴰ.tail m))) =
    Accounted-cleared p pool acts fd c.1 (inr (inl m))
Accounted-cleared p [] acts fd c (inr (inl m)) = elim m [ ]
Accounted-cleared p pool acts fd c (inr (inr m)) = inr (inr m)

pub AtLoop-cleared :
    (p : LoopAt) (pool : List ℤ) (acts : List Act) → AtLoop p pool acts → AtLoop p [] acts
AtLoop-cleared (shutting old fd) pool acts h = tt
AtLoop-cleared (popping old fd) pool acts h = (tt, h.1)
AtLoop-cleared (deleting old fd) pool acts h = omega arith
AtLoop-cleared (adding fd) pool acts h = omega arith
AtLoop-cleared _ pool acts h = tt

-- The iterator has come to the end.
pub all_visited :
    (n : ℕ) (pool : List ℤ) (acts : List Act)
    → nth n pool ≡ none
    → All (IsClosed acts) (take n pool)
    → All (IsClosed acts) pool
all_visited n [] acts e h = tt
all_visited zero (x ∷ pool) acts e h = cc
all_visited (suc n) (x ∷ pool) acts e h = (h.0, all_visited n pool acts e h.1)

pub one_visited :
    (is_active : ThreadTest) (n : ℕ) (fd : ℤ) (pool : List ℤ) (acts : List Act)
    → nth n pool ≡ some fd
    → All (IsClosed acts) (take n pool)
    → All (IsClosed (shutdown is_active fd acts)) (take (suc n) pool)
one_visited is_active n fd [] acts e h = tt
one_visited is_active zero fd (x ∷ pool) acts e h = (
  subst (IsClosed (shutdown is_active fd acts)) (sym (some_inj e))
      (shutdown-IsClosed is_active acts fd),
  tt,
)
  where
    some_inj : {x y : ℤ} → some x ≡ some y → x ≡ y
    some_inj {x} e = ap (λ o. elim o [ none ↦ x | some z ↦ z ]) e
one_visited is_active (suc n) fd (x ∷ pool) acts e h =
    (shutdown-Grows is_active fd acts x h.0, one_visited is_active n fd pool acts e h.1)

pub Accounted-accepted :
    (new : ℤ) (pool : List ℤ) (acts : List Act) (fd : ℤ)
    → (fd ≡ new) ⊎ Accounted accepting pool acts fd
    → Accounted (sizing new) pool acts fd
Accounted-accepted new pool acts fd (inl e) = inr (inr (Memᴰ.head e))
Accounted-accepted new pool acts fd (inr (inl h)) = inl h
Accounted-accepted new pool acts fd (inr (inr (inl m))) = inr (inl m)
Accounted-accepted new pool acts fd (inr (inr (inr m))) = elim m [ ]

pub Kept-bind :
    (m : Result Race) (f : Race → Result Race)
    → Kept m
    → ((s : Race) → IsSound s → Kept (f s))
    → Kept (m >>= f)
Kept-bind (ok s) f h k = k s h
Kept-bind (stop e) f h k = tt
