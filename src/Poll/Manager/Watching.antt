-- ===== src/Poll/Manager/Watching.antt =====
-- What watch and unwatch keep: the sets for select hold what the lists hold, and no descriptor lies
-- above the highest.
use json_rpc.Common.{
  ℕ, ◌≤◌, ◌≡◌, inl, inr, refl, sym, ap, subst, ◌∙◌, arith, List, [], ◌∷◌, true, false, ltb, ◌==◌,
  max, if◌then◌else◌, Bool-cases, ==_iff,
}
use json_rpc.Common.Int.{ℤ, pos, negsuc}
use json_rpc.Errors.{ok}
use json_rpc.Poll.Manager.{
  Mode, reading, writing, fd_setsize, contains, insert, erase, PollManager, instance_, added,
  removed, watched, unwatched, in_range, watch, unwatch, raise,
}

-- The largest number of a list, and 0 of none.
abbrev pub maximum : List ℕ → ℕ
maximum [] = 0
maximum (x ∷ xs) = max x (maximum xs)

pub record IsConsistent (m : PollManager) : Type 0 where
  pub reads_agree : (fd : ℕ) → m.read_set fd ≡ contains fd m.watched_read_fds
  pub writes_agree : (fd : ℕ) → m.write_set fd ≡ contains fd m.watched_write_fds
  pub highest_is : m.highest ≡ max (maximum m.watched_read_fds) (maximum m.watched_write_fds)

pub instance_-IsConsistent : IsConsistent instance_
instance_-IsConsistent = record {
  reads_agree = λ fd. refl;
  writes_agree = λ fd. refl;
  highest_is = omega arith;
}

contains-insert :
    (fd i : ℕ) (xs : List ℕ) → contains i (insert fd xs) ≡ (if i == fd then true else contains i xs)
contains-insert fd i xs = elim (Bool-cases (contains fd xs)) [
  | inl e ↦ rw e (elim (Bool-cases (i == fd)) [
    | inl q ↦ rw q (ground (arith, (==_iff i fd).0 q))
    | inr q ↦ rw q refl
  ])
  | inr e ↦ rw e (ground arith)
]

contains-erase :
    (fd i : ℕ) (xs : List ℕ) → contains i (erase fd xs) ≡ (if i == fd then false else contains i xs)
contains-erase fd i [] = ground arith
contains-erase fd i (x ∷ xs) = ground (arith, contains-erase fd i xs)

pub contains-le_maximum : (fd : ℕ) (xs : List ℕ) → contains fd xs ≡ true → fd ≤ maximum xs
contains-le_maximum fd [] e = cc
contains-le_maximum fd (x ∷ xs) e = ground (arith, contains-le_maximum fd xs)

maximum-insert : (fd : ℕ) (xs : List ℕ) → maximum (insert fd xs) ≡ max fd (maximum xs)
maximum-insert fd xs = ground (arith, contains-le_maximum fd xs)

raise-maximum : (n : ℕ) (xs : List ℕ) → raise n xs ≡ max n (maximum xs)
raise-maximum n [] = omega arith
raise-maximum n (x ∷ xs) = ground (arith, raise-maximum (if ltb n x then x else n) xs)

watched-IsConsistent :
    (fd : ℕ) (mode : Mode) (m : PollManager) → IsConsistent m → IsConsistent (watched fd mode m)
unfolding watched added
watched-IsConsistent fd reading m c = record {
  reads_agree = λ i. rw (contains-insert fd i m.watched_read_fds, c.reads_agree i) refl;
  writes_agree = c.writes_agree;
  highest_is = ground (arith, maximum-insert fd m.watched_read_fds, c.highest_is);
}
watched-IsConsistent fd writing m c = record {
  reads_agree = c.reads_agree;
  writes_agree = λ i. rw (contains-insert fd i m.watched_write_fds, c.writes_agree i) refl;
  highest_is = ground (arith, maximum-insert fd m.watched_write_fds, c.highest_is);
}

highest-unwatched : (xs ys : List ℕ) → raise (raise 0 xs) ys ≡ max (maximum xs) (maximum ys)
highest-unwatched xs ys = omega (arith, raise-maximum 0 xs, raise-maximum (raise 0 xs) ys)

unwatched-IsConsistent :
    (fd : ℕ) (mode : Mode) (m : PollManager) → IsConsistent m → IsConsistent (unwatched fd mode m)
unfolding unwatched removed
unwatched-IsConsistent fd reading m c = record {
  reads_agree = λ i. rw (contains-erase fd i m.watched_read_fds, c.reads_agree i) refl;
  writes_agree = c.writes_agree;
  highest_is = highest-unwatched _ _;
}
unwatched-IsConsistent fd writing m c = record {
  reads_agree = c.reads_agree;
  writes_agree = λ i. rw (contains-erase fd i m.watched_write_fds, c.writes_agree i) refl;
  highest_is = highest-unwatched _ _;
}

in_range-IsConsistent :
    (fd : ℤ) (change : ℕ → PollManager) (m' : PollManager)
    → ((n : ℕ) → IsConsistent (change n))
    → in_range fd change ≡ ok m'
    → IsConsistent m'
unfolding in_range
in_range-IsConsistent (pos n) change m' c e = elim (Bool-cases (ltb n fd_setsize)) [
  | inl q ↦ subst IsConsistent (let p : change n ≡ m' = ground (arith, e) in p) (c n)
  | inr q ↦ ground (arith, e)
]
in_range-IsConsistent (negsuc n) change m' c e = cc

-- A watch that succeeds keeps the manager consistent.
pub watch-IsConsistent :
    (fd : ℤ) (mode : Mode) (m m' : PollManager)
    → IsConsistent m
    → watch fd mode m ≡ ok m'
    → IsConsistent m'
unfolding watch
watch-IsConsistent fd mode m m' c e =
    in_range-IsConsistent fd (λ n. watched n mode m) m' (λ n. watched-IsConsistent n mode m c) e

-- An unwatch that succeeds keeps the manager consistent: both sets agree with both lists, and the
-- highest descriptor is the greatest of those that are still watched.
pub unwatch-IsConsistent :
    (fd : ℤ) (mode : Mode) (m m' : PollManager)
    → IsConsistent m
    → unwatch fd mode m ≡ ok m'
    → IsConsistent m'
unfolding unwatch
unwatch-IsConsistent fd mode m m' c e =
    in_range-IsConsistent fd (λ n. unwatched n mode m) m' (λ n. unwatched-IsConsistent n mode m c) e

in_range-ok :
    (fd : ℕ) (change : ℕ → PollManager) (m' : PollManager)
    → in_range (pos fd) change ≡ ok m'
    → change fd ≡ m'
unfolding in_range
in_range-ok fd change m' e = ground (arith, e)

-- What a change of the watched descriptors does to those that are watched for reading.
pub contains-watch_reading :
    (fd i : ℕ) (m m' : PollManager)
    → watch (pos fd) reading m ≡ ok m'
    → contains i m'.watched_read_fds ≡ (if i == fd then true else contains i m.watched_read_fds)
unfolding watch watched added
contains-watch_reading fd i m m' e =
    sym (ap (λ n. contains i n.watched_read_fds) (in_range-ok fd (λ n. watched n reading m) m' e))
    ∙ contains-insert fd i m.watched_read_fds

pub contains-unwatch_reading :
    (fd i : ℕ) (m m' : PollManager)
    → unwatch (pos fd) reading m ≡ ok m'
    → contains i m'.watched_read_fds ≡ (if i == fd then false else contains i m.watched_read_fds)
unfolding unwatch unwatched removed
contains-unwatch_reading fd i m m' e =
    sym (ap (λ n. contains i n.watched_read_fds) (in_range-ok fd (λ n. unwatched n reading m) m' e))
    ∙ contains-erase fd i m.watched_read_fds

pub reads-watch_writing :
    (fd : ℕ) (m m' : PollManager)
    → watch (pos fd) writing m ≡ ok m'
    → m'.watched_read_fds ≡ m.watched_read_fds
unfolding watch watched added
reads-watch_writing fd m m' e =
    sym (ap (λ n. n.watched_read_fds) (in_range-ok fd (λ n. watched n writing m) m' e))

pub reads-unwatch_writing :
    (fd : ℕ) (m m' : PollManager)
    → unwatch (pos fd) writing m ≡ ok m'
    → m'.watched_read_fds ≡ m.watched_read_fds
unfolding unwatch unwatched removed
reads-unwatch_writing fd m m' e =
    sym (ap (λ n. n.watched_read_fds) (in_range-ok fd (λ n. unwatched n writing m) m' e))
