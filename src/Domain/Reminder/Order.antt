-- ===== src/Domain/Reminder/Order.antt =====
-- reminder.go, the end of Schedule: sorting and compacting give the same instants, strictly
-- ascending.
use aso_bell.Common.{suc, ◌≤◌, ◌≡◌, refl, List, [], ◌∷◌, arith, Bool-cases, inl, inr}
use aso_bell.Common.Int.{ℤ, ◌≤ℤ◌, ◌<ℤ◌, eq_ℤ, leb_ℤ}
use aso_bell.Common.Lists.{length, any, All, All-mono}
use aso_bell.Domain.Reminder.{insert, sort, compact_from, compact}

-- Every element is at most those behind it.
abbrev pub IsSorted : List ℤ → Type 0
IsSorted [] = Unit
IsSorted (t ∷ ts) = All (λ u. t ≤ℤ u) ts × IsSorted ts

-- Every element is before those behind it.
abbrev pub IsAscending : List ℤ → Type 0
IsAscending [] = Unit
IsAscending (t ∷ ts) = All (λ u. t <ℤ u) ts × IsAscending ts

All-insert : (P : ℤ → Type 0) (t : ℤ) (us : List ℤ) → P t → All P us → All P (insert t us)
unfolding insert
All-insert P t [] h k = (h, tt)
All-insert P t (u ∷ us) h k = elim (Bool-cases (leb_ℤ t u)) [
  | inl e ↦ rw e (h, k)
  | inr e ↦ rw e (k.0, All-insert P t us h k.1)
]

pub All-sort : (P : ℤ → Type 0) (ts : List ℤ) → All P ts → All P (sort ts)
unfolding sort
All-sort P [] h = tt
All-sort P (t ∷ ts) h = All-insert P t (sort ts) h.0 (All-sort P ts h.1)

le-All : (t u : ℤ) (us : List ℤ) → t ≤ℤ u → All (λ v. u ≤ℤ v) us → All (λ v. t ≤ℤ v) us
le-All t u us h k = All-mono (λ v. u ≤ℤ v) (λ v. t ≤ℤ v) us (λ v m. omega arith) k

insert-IsSorted : (t : ℤ) (us : List ℤ) → IsSorted us → IsSorted (insert t us)
unfolding insert
insert-IsSorted t [] h = (tt, tt)
insert-IsSorted t (u ∷ us) h = elim (Bool-cases (leb_ℤ t u)) [
  | inl e ↦ let le : t ≤ℤ u = ground arith in rw e ((le, le-All t u us le h.0), h)
  | inr e ↦
      let le : u ≤ℤ t = ground arith in
      rw e (All-insert (λ v. u ≤ℤ v) t us le h.0, insert-IsSorted t us h.1)
]

pub sort-IsSorted : (ts : List ℤ) → IsSorted (sort ts)
unfolding sort
sort-IsSorted [] = tt
sort-IsSorted (t ∷ ts) = insert-IsSorted t (sort ts) (sort-IsSorted ts)

All-compact_from :
    (P : ℤ → Type 0) (t : ℤ) (us : List ℤ) → P t → All P us → All P (compact_from t us)
unfolding compact_from
All-compact_from P t [] h k = (h, tt)
All-compact_from P t (u ∷ us) h k = elim (Bool-cases (eq_ℤ t u)) [
  | inl e ↦ rw e (All-compact_from P t us h k.1)
  | inr e ↦ rw e (h, All-compact_from P u us k.0 k.1)
]

pub All-compact : (P : ℤ → Type 0) (ts : List ℤ) → All P ts → All P (compact ts)
unfolding compact
All-compact P [] h = tt
All-compact P (t ∷ ts) h = All-compact_from P t ts h.0 h.1

lt-All : (t u : ℤ) (us : List ℤ) → t <ℤ u → All (λ v. u ≤ℤ v) us → All (λ v. t <ℤ v) us
lt-All t u us h k = All-mono (λ v. u ≤ℤ v) (λ v. t <ℤ v) us (λ v m. omega arith) k

compact_from-IsAscending :
    (t : ℤ) (us : List ℤ) → IsSorted (t ∷ us) → IsAscending (compact_from t us)
unfolding compact_from
compact_from-IsAscending t [] h = (tt, tt)
compact_from-IsAscending t (u ∷ us) h = elim (Bool-cases (eq_ℤ t u)) [
  | inl e ↦ rw e (compact_from-IsAscending t us (h.0.1, h.1.1))
  | inr e ↦
      let lt : t <ℤ u = ground (arith, h.0.0) in
      let le : u ≤ℤ u = omega arith in
      rw e (
        lt-All t u (compact_from u us) lt (All-compact_from (λ v. u ≤ℤ v) u us le h.1.0),
        compact_from-IsAscending u us h.1,
      )
]

pub compact-IsAscending : (ts : List ℤ) → IsSorted ts → IsAscending (compact ts)
unfolding compact
compact-IsAscending [] h = tt
compact-IsAscending (t ∷ ts) h = compact_from-IsAscending t ts h

length-insert : (t : ℤ) (us : List ℤ) → length (insert t us) ≡ suc (length us)
unfolding insert
length-insert t [] = refl
length-insert t (u ∷ us) = ground (arith, length-insert t us)

length-sort : (ts : List ℤ) → length (sort ts) ≡ length ts
unfolding sort
length-sort [] = refl
length-sort (t ∷ ts) = omega (arith, length-insert t (sort ts), length-sort ts)

length-compact_from : (t : ℤ) (us : List ℤ) → length (compact_from t us) ≤ suc (length us)
unfolding compact_from
length-compact_from t [] = omega arith
length-compact_from t (u ∷ us) = ground (arith, length-compact_from t us, length-compact_from u us)

length-compact : (ts : List ℤ) → length (compact ts) ≤ length ts
unfolding compact
length-compact [] = omega arith
length-compact (t ∷ ts) = length-compact_from t ts

pub length-compact-sort : (ts : List ℤ) → length (compact (sort ts)) ≤ length ts
length-compact-sort ts = omega (arith, length-compact (sort ts), length-sort ts)

any-insert : (a t : ℤ) (us : List ℤ) → any (eq_ℤ a) (insert t us) ≡ any (eq_ℤ a) (t ∷ us)
unfolding insert
any-insert a t [] = refl
any-insert a t (u ∷ us) = ground (arith, any-insert a t us)

any-sort : (a : ℤ) (ts : List ℤ) → any (eq_ℤ a) (sort ts) ≡ any (eq_ℤ a) ts
unfolding sort
any-sort a [] = refl
any-sort a (t ∷ ts) = ground (arith, any-insert a t (sort ts), any-sort a ts)

any-compact_from :
    (a t : ℤ) (us : List ℤ) → any (eq_ℤ a) (compact_from t us) ≡ any (eq_ℤ a) (t ∷ us)
unfolding compact_from
any-compact_from a t [] = refl
any-compact_from a t (u ∷ us) = ground (arith, any-compact_from a t us, any-compact_from a u us)

any-compact : (a : ℤ) (ts : List ℤ) → any (eq_ℤ a) (compact ts) ≡ any (eq_ℤ a) ts
unfolding compact
any-compact a [] = refl
any-compact a (t ∷ ts) = any-compact_from a t ts

-- Neither step adds or loses an instant.
pub any-compact-sort : (a : ℤ) (ts : List ℤ) → any (eq_ℤ a) (compact (sort ts)) ≡ any (eq_ℤ a) ts
any-compact-sort a ts = ground (arith, any-compact a (sort ts), any-sort a ts)
