-- ===== src/Store/Jobs/Claim.antt =====
-- memstore.go, Claim: which job is claimed.
use aso_bell.Common.{
  ℕ, zero, suc, ◌≡◌, refl, Bool, true, false, ◌&&◌, List, [], ◌∷◌, ◌++◌, Option, none, some, arith,
  Bool-cases, Option-cases, inl, inr, subst, ap, sym,
}
use aso_bell.Common.Int.{ℤ, pos, ◌+ℤ◌, ltb_ℤ}
use aso_bell.Common.Lists.{All, All-append, All-mono, length, length-append, get_elem?}
use aso_bell.Domain.Errors.{Error, Result, ok}
use aso_bell.Domain.Job.{Job, JobStatus}
use aso_bell.Store.State.{Store}
use aso_bell.Store.Jobs.{claimable, pick, find_target, claimed, modify_at, claim}
use mathlib.Core.List.{append_assoc, append-nil}
use mathlib.Core.Option.{some-injective}

-- `k` is claimable and due before `j`.
abbrev pub precedes : ℤ → Job → Job → Bool
precedes at k j = claimable at k && ltb_ℤ k.run_at j.run_at

-- What the loop has found among the jobs it has passed: none is claimable, or the one it points at
-- is, and none that is claimable is due before it.
abbrev pub IsBest : ℤ → List Job → Option (ℕ × Job) → Type 0
IsBest at js none = All (λ k. claimable at k ≡ false) js
IsBest at js (some (i, j)) =
    (get_elem? js i ≡ some j) × (claimable at j ≡ true) × All (λ k. precedes at k j ≡ false) js

get_elem?-append :
    (js : List Job) (i : ℕ) (ks : List Job) (j : Job)
    → get_elem? js i ≡ some j
    → get_elem? (js ++ ks) i ≡ some j
get_elem?-append [] i ks j h = absurd (cc)
get_elem?-append (x ∷ js) zero ks j h = h
get_elem?-append (x ∷ js) (suc i) ks j h = get_elem?-append js i ks j h

get_elem?-length : (js : List Job) (j : Job) → get_elem? (js ++ j ∷ []) (length js) ≡ some j
get_elem?-length [] j = refl
get_elem?-length (x ∷ js) j = get_elem?-length js j

none_precede :
    (at : ℤ) (j : Job) (js : List Job)
    → All (λ k. claimable at k ≡ false) js
    → All (λ k. precedes at k j ≡ false) js
none_precede at j js h =
    All-mono (λ k. claimable at k ≡ false) (λ k. precedes at k j ≡ false) js (λ k e. ground arith) h

precede_less :
    (at : ℤ) (i j : Job) (js : List Job)
    → ltb_ℤ j.run_at i.run_at ≡ true
    → All (λ k. precedes at k i ≡ false) js
    → All (λ k. precedes at k j ≡ false) js
precede_less at i j js lt h =
    All-mono (λ k. precedes at k i ≡ false) (λ k. precedes at k j ≡ false) js (λ k e. ground arith)
      h

pick-IsBest :
    (at : ℤ) (js : List Job) (t : Option (ℕ × Job)) (j : Job)
    → IsBest at js t
    → IsBest at (js ++ j ∷ []) (pick at (length js) t j)
unfolding pick
pick-IsBest at js none j b = elim (Bool-cases (claimable at j)) [
  | inr n ↦ rw (n, pick) (All-append (λ k. claimable at k ≡ false) js (j ∷ []) b (n, tt))
  | inl c ↦
      rw (c, pick)
        (
          get_elem?-length js j,
          c,
          All-append (λ k. precedes at k j ≡ false) js (j ∷ []) (none_precede at j js b)
              (ground arith, tt),
        )
]
pick-IsBest at js (some (i, best)) j b = elim (Bool-cases (claimable at j)) [
  | inr n ↦
      rw (n, pick)
        (
          get_elem?-append js i (j ∷ []) best b.0,
          b.1,
          All-append (λ k. precedes at k best ≡ false) js (j ∷ []) b.2 (ground arith, tt),
        )
  | inl c ↦ elim (Bool-cases (ltb_ℤ j.run_at best.run_at)) [
    | inl l ↦
        rw (c, pick)
          (rw l (
            get_elem?-length js j,
            c,
            All-append (λ k. precedes at k j ≡ false) js (j ∷ []) (precede_less at best j js l b.2)
                (ground arith, tt),
          ))
    | inr l ↦
        rw (c, pick)
          (rw l (
            get_elem?-append js i (j ∷ []) best b.0,
            b.1,
            All-append (λ k. precedes at k best ≡ false) js (j ∷ []) b.2 (ground arith, tt),
          ))
  ]
]

find_target-IsBest :
    (at : ℤ) (seen rest : List Job) (t : Option (ℕ × Job))
    → IsBest at seen t
    → IsBest at (seen ++ rest) (find_target at (length seen) t rest)
unfolding find_target
find_target-IsBest at seen [] t b = rw (append-nil) b
find_target-IsBest at seen (j ∷ rest) t b =
    let step =
      find_target-IsBest at (seen ++ j ∷ []) rest (pick at (length seen) t j)
        (pick-IsBest at seen t j b) in
    let len : length (seen ++ j ∷ []) ≡ suc (length seen) =
      omega (arith, length-append seen (j ∷ [])) in
    let shape : (seen ++ j ∷ []) ++ rest ≡ seen ++ j ∷ rest = append_assoc seen (j ∷ []) rest in
    subst (λ n. IsBest at (seen ++ j ∷ rest) (find_target at n (pick at (length seen) t j) rest))
      len
      (subst
        (λ js.
          IsBest at js (find_target at (length (seen ++ j ∷ [])) (pick at (length seen) t j) rest))
        shape step)

found-IsBest : (at : ℤ) (js : List Job) → IsBest at js (find_target at 0 none js)
found-IsBest at js = find_target-IsBest at [] js none tt

-- The outcome of Claim on a store.
abbrev pub Claimed : ℤ → ℤ → Store → Result Job × Store → Type 0
Claimed at lease s (Result.failed e, s') =
    (e ≡ Error.not_found) × (s' ≡ s) × All (λ k. claimable at k ≡ false) s.jobs
Claimed at lease s (ok j, s') =
    (i : ℕ) × (old : Job) × (get_elem? s.jobs i ≡ some old)
    × (claimable at old ≡ true)
    × All (λ k. precedes at k old ≡ false) s.jobs
    × (j ≡ record old {
      status = JobStatus.running;
      lease_until = some (at +ℤ lease);
      attempts = old.attempts +ℤ pos 1;
      updated_at = at;
    })
    × (s' ≡ record s { jobs = modify_at (λ k. j) i s.jobs })

modify_at-const :
    (f : Job → Job) (i : ℕ) (js : List Job) (j : Job)
    → get_elem? js i ≡ some j
    → modify_at f i js ≡ modify_at (λ k. f j) i js
modify_at-const f i [] j h = refl
modify_at-const f zero (x ∷ js) j h = cc (some-injective x j h)
modify_at-const f (suc i) (x ∷ js) j h = ap (λ r. x ∷ r) (modify_at-const f i js j h)

-- Claim fails, and changes nothing, exactly when no job is claimable. Otherwise it takes a
-- claimable job before which no claimable job is due, marks that one job running with a lease and
-- one more attempt, and leaves every other job as it was.
pub claim-Claimed : (at lease : ℤ) (s : Store) → Claimed at lease s (claim at lease s)
unfolding claim claimed
claim-Claimed at lease s = elim (Option-cases (find_target at 0 none s.jobs)) [
  | inl e ↦
      let b : IsBest at s.jobs none = subst (IsBest at s.jobs) e (found-IsBest at s.jobs) in
      rw (e, claim) (refl, refl, b)
  | inr ((i, j), e) ↦
      let b : IsBest at s.jobs (some (i, j)) =
        subst (IsBest at s.jobs) e (found-IsBest at s.jobs) in
      rw (e, claim)
        (
          i,
          j,
          b.0,
          b.1,
          b.2,
          refl,
          ap (λ js. record s { jobs = js }) (modify_at-const (claimed at lease) i s.jobs j b.0),
        )
]

-- The only job of a queue, pending and due.
pub claim-single :
    (at lease : ℤ) (j : Job) (s : Store)
    → s.jobs ≡ j ∷ []
    → claimable at j ≡ true
    → claim at lease s ≡ (ok (claimed at lease j), record s { jobs = claimed at lease j ∷ [] })
unfolding claim find_target pick
claim-single at lease j s e can =
    subst
      (λ js.
        claim at lease (record s { jobs = js })
        ≡ (ok (claimed at lease j), record s { jobs = claimed at lease j ∷ [] }))
      (sym e) (rw (can, claim) refl)
