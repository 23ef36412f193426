-- ===== src/Stub/Members/Order.antt =====
-- The order of texts, and that of two insertions.
use Prim.Native.Nat.{Ordering, compare as compare_number}
use Prim.Native.Char.{code}
use Prim.Native.String.{compare, then}
use Prim.Native.String.compare
use text.Mathlib.TextEquality.{path_by_compare}
use json_rpc.Common.{ℕ, String, [], ◌∷◌, ◌≡◌, ◌≢◌, refl, sym, ap, subst, ◌∙◌, arith}
use json_rpc.Stub.Members.{Members, set_member}

abbrev flip : Ordering → Ordering
flip Ordering.lt = Ordering.gt
flip Ordering.eq = Ordering.eq
flip Ordering.gt = Ordering.lt

flip-then : (o p : Ordering) → flip (then o p) ≡ then (flip o) (flip p)
flip-then Ordering.lt p = refl
flip-then Ordering.eq p = refl
flip-then Ordering.gt p = refl

flip-compare_number : (m n : ℕ) → flip (compare_number m n) ≡ compare_number n m
flip-compare_number m n = ground arith

flip-compare : (s t : String) → flip (compare s t) ≡ compare t s
flip-compare String.[] String.[] = refl
flip-compare String.[] (String.◌∷◌ d t) = rw (compare.nil-cons d t, compare.cons-nil d t) refl
flip-compare (String.◌∷◌ c s) String.[] = rw (compare.nil-cons c s, compare.cons-nil c s) refl
flip-compare (String.◌∷◌ c s) (String.◌∷◌ d t) =
    rw
      (
        compare.cons-cons c d s t,
        compare.cons-cons d c t s,
        flip-then (compare_number (code c) (code d)) (compare s t),
        flip-compare_number (code c) (code d),
        flip-compare s t,
      )
      refl

then_trans :
    (a b c : ℕ) (o p q : Ordering)
    → (o ≡ Ordering.lt → p ≡ Ordering.lt → q ≡ Ordering.lt)
    → then (compare_number a b) o ≡ Ordering.lt
    → then (compare_number b c) p ≡ Ordering.lt
    → then (compare_number a c) q ≡ Ordering.lt
then_trans a b c o p q r h k = ground arith

compare_trans :
    (s t u : String)
    → compare s t ≡ Ordering.lt
    → compare t u ≡ Ordering.lt
    → compare s u ≡ Ordering.lt
compare_trans String.[] String.[] u h k = absurd (cc (sym compare.nil-nil ∙ h))
compare_trans String.[] (String.◌∷◌ d t) String.[] h k =
    absurd (cc (sym (compare.cons-nil d t) ∙ k))
compare_trans String.[] (String.◌∷◌ d t) (String.◌∷◌ e u) h k = compare.nil-cons e u
compare_trans (String.◌∷◌ c s) String.[] u h k = absurd (cc (sym (compare.cons-nil c s) ∙ h))
compare_trans (String.◌∷◌ c s) (String.◌∷◌ d t) String.[] h k =
    absurd (cc (sym (compare.cons-nil d t) ∙ k))
compare_trans (String.◌∷◌ c s) (String.◌∷◌ d t) (String.◌∷◌ e u) h k =
    compare.cons-cons c e s u
    ∙ then_trans (code c) (code d) (code e) (compare s t) (compare t u) (compare s u)
        (compare_trans s t u) (sym (compare.cons-cons c d s t) ∙ h)
        (sym (compare.cons-cons d e t u) ∙ k)

-- How two texts compare, both ways.
data Compared (s t : String) : Type 0 where
  below : compare s t ≡ Ordering.lt → compare t s ≡ Ordering.gt → Compared s t
  same : compare s t ≡ Ordering.eq → Compared s t
  above : compare s t ≡ Ordering.gt → compare t s ≡ Ordering.lt → Compared s t

compared : (s t : String) → Compared s t
compared s t = by_order (compare s t) refl
  where
    by_order : (o : Ordering) → compare s t ≡ o → Compared s t
    by_order Ordering.lt e = below e (sym (flip-compare s t) ∙ ap flip e)
    by_order Ordering.eq e = same e
    by_order Ordering.gt e = above e (sym (flip-compare s t) ∙ ap flip e)

module _ (k k' v v' : String) where
  set_member-ordered :
      (m : Members)
      → compare k k' ≡ Ordering.lt
      → compare k' k ≡ Ordering.gt
      → set_member k v (set_member k' v' m) ≡ set_member k' v' (set_member k v m)
  unfolding set_member
  set_member-ordered [] l g = rw (set_member, l, g) refl
  set_member-ordered ((i, t) ∷ m) l g = elim (compared k i) [
    | below a b ↦ elim (compared k' i) [
      | below c d ↦ rw (set_member, a, c, l, g, c) refl
      | same c ↦ rw (set_member, a, c, a, g, c) refl
      | above c d ↦ rw (set_member, a, c, a, g, c) refl
    ]
    | same a ↦
        let after : compare k' i ≡ Ordering.gt =
          subst (λ x. compare k' x ≡ Ordering.gt) (path_by_compare k i a) g in
        rw (set_member, a, after, a) refl
    | above a b ↦
        let after : compare k' i ≡ Ordering.gt =
          sym (flip-compare i k') ∙ ap flip (compare_trans i k k' b l) in
        rw (set_member, a, after, a) (ap (λ x. (i, t) ∷ x) (set_member-ordered m l g))
  ]

-- Two insertions under different keys may change places.
pub set_member_comm :
    (k k' v v' : String) (m : Members)
    → k ≢ k'
    → set_member k v (set_member k' v' m) ≡ set_member k' v' (set_member k v m)
set_member_comm k k' v v' m differ = elim (compared k k') [
  | below l g ↦ set_member-ordered k k' v v' m l g
  | same e ↦ absurd (differ (path_by_compare k k' e))
  | above g l ↦ sym (set_member-ordered k' k v' v m l g)
]
