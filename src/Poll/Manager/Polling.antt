-- ===== src/Poll/Manager/Polling.antt =====
-- Which descriptors poll reports.
use json_rpc.Common.{
  ℕ, zero, suc, ◌+◌, ◌≤◌, ◌≡◌, ◌⊎◌, inl, inr, refl, ◌∙◌, arith, List, [], ◌∷◌, ◌++◌, true, false,
  ◌&&◌, ltb, leb, Bool-cases, ==_iff, All,
}
use json_rpc.Errors.{Result, ok}
use json_rpc.Poll.Manager.{
  FdSet, contains, PollManager, Answer, failed, ready, select, scan, Polled, poll, poll_round,
}
use json_rpc.Poll.Manager.Watching.{IsConsistent, maximum, contains-le_maximum}

contains-scan :
    (k s i : ℕ) (set : FdSet) → contains i (scan k s set) ≡ ((leb s i && ltb i (s + k)) && set i)
contains-scan zero s i set = ground arith
contains-scan (suc k) s i set = ground (arith, contains-scan k (s + 1) i set, ==_iff s i)

-- The descriptors of a list that are ready, as a scan up to a bound on the list finds them.
contains-select :
    (bound i : ℕ) (set is_ready : FdSet) (fds : List ℕ)
    → ((j : ℕ) → set j ≡ contains j fds)
    → maximum fds ≤ bound
    → contains i (scan (suc bound) 0 (select set is_ready)) ≡ (contains i fds && is_ready i)
contains-select bound i set is_ready fds agree h = elim (Bool-cases (contains i fds)) [
  | inl e ↦ ground (
    arith,
    contains-scan (suc bound) 0 i (select set is_ready),
    agree i,
    contains-le_maximum i fds e,
  )
  | inr e ↦ ground (arith, contains-scan (suc bound) 0 i (select set is_ready), agree i)
]

nil_of_contains : (fds : List ℕ) → ((i : ℕ) → contains i fds ≡ false) → fds ≡ []
nil_of_contains [] h = refl
nil_of_contains (x ∷ xs) h = ground (arith, h x)

poll_round-some :
    (reads writes : List ℕ) (again : Result Polled) (fd : ℕ)
    → (contains fd reads ≡ true) ⊎ (contains fd writes ≡ true)
    → poll_round reads writes again ≡ ok (record { success = true; reads = reads; writes = writes })
unfolding poll_round
poll_round-some [] [] again fd h = ground arith
poll_round-some [] (x ∷ xs) again fd h = refl
poll_round-some (x ∷ xs) writes again fd h = refl

-- Nothing that is watched is ready.
abbrev pub Quiet : PollManager → Answer → Type 0
Quiet m failed = ⊥
Quiet m (ready can_read can_write) =
    ((fd : ℕ) → (contains fd m.watched_read_fds && can_read fd) ≡ false)
    × ((fd : ℕ) → (contains fd m.watched_write_fds && can_write fd) ≡ false)

module _ (m : PollManager) (c : IsConsistent m) where
  reads_found :
      (can_read : FdSet) (i : ℕ)
      → contains i (scan (suc m.highest) 0 (select m.read_set can_read))
        ≡ (contains i m.watched_read_fds && can_read i)
  reads_found can_read i =
      contains-select m.highest i m.read_set can_read m.watched_read_fds c.reads_agree
        (omega (arith, c.highest_is))

  writes_found :
      (can_write : FdSet) (i : ℕ)
      → contains i (scan (suc m.highest) 0 (select m.write_set can_write))
        ≡ (contains i m.watched_write_fds && can_write i)
  writes_found can_write i =
      contains-select m.highest i m.write_set can_write m.watched_write_fds c.writes_agree
        (omega (arith, c.highest_is))

  poll-Quiet :
      (a : Answer) (answers : List Answer) → Quiet m a → poll (a ∷ answers) m ≡ poll answers m
  unfolding poll poll_round
  poll-Quiet failed answers q = absurd q
  poll-Quiet (ready can_read can_write) answers q =
      rw
        (
          poll,
          nil_of_contains (scan (suc m.highest) 0 (select m.read_set can_read))
              (λ i. reads_found can_read i ∙ q.0 i),
          nil_of_contains (scan (suc m.highest) 0 (select m.write_set can_write))
              (λ i. writes_found can_write i ∙ q.1 i),
        )
        refl

  poll_past :
      (quiet answers : List Answer)
      → All (Quiet m) quiet
      → poll (quiet ++ answers) m ≡ poll answers m
  poll_past [] answers q = refl
  poll_past (a ∷ quiet) answers q =
      poll-Quiet a (quiet ++ answers) q.0 ∙ poll_past quiet answers q.1

  -- If the manager is consistent, and after any rounds in which no watched descriptor is ready
  -- there comes one in which some are, poll succeeds and reports for reading exactly the
  -- descriptors that are watched for reading and are readable, and the same for writing.
  pub poll_lem :
      (quiet answers : List Answer) (can_read can_write : FdSet) (fd : ℕ)
      → All (Quiet m) quiet
      → ((contains fd m.watched_read_fds && can_read fd) ≡ true)
        ⊎ ((contains fd m.watched_write_fds && can_write fd) ≡ true)
      → (p : Polled) × (poll (quiet ++ ready can_read can_write ∷ answers) m ≡ ok p)
        × (p.success ≡ true)
        × ((i : ℕ) → contains i p.reads ≡ (contains i m.watched_read_fds && can_read i))
        × ((i : ℕ) → contains i p.writes ≡ (contains i m.watched_write_fds && can_write i))
  unfolding poll
  poll_lem quiet answers can_read can_write fd q h = (
    record {
      success = true;
      reads = scan (suc m.highest) 0 (select m.read_set can_read);
      writes = scan (suc m.highest) 0 (select m.write_set can_write);
    },
    poll_past quiet (ready can_read can_write ∷ answers) q
        ∙ poll_round-some _ _ (poll answers m) fd (found h),
    refl,
    reads_found can_read,
    writes_found can_write,
  )
    where
      found :
          ((contains fd m.watched_read_fds && can_read fd) ≡ true)
            ⊎ ((contains fd m.watched_write_fds && can_write fd) ≡ true)
          → (contains fd (scan (suc m.highest) 0 (select m.read_set can_read)) ≡ true)
            ⊎ (contains fd (scan (suc m.highest) 0 (select m.write_set can_write)) ≡ true)
      found (inl e) = inl (reads_found can_read fd ∙ e)
      found (inr e) = inr (writes_found can_write fd ∙ e)
