-- ===== src/Store/Jobs/Queue.antt =====
-- memstore.go, jobsRepo: what every method keeps of the queue.
use aso_bell.Common.{
  ℕ, zero, suc, ◌≤◌, ◌≡◌, refl, inl, inr, Bool, true, false, not, ◌&&◌, List, [], ◌∷◌, map,
  Bool-cases, is_some, subst,
}
use aso_bell.Common.Int.{pos, ◌<ℤ◌}
use aso_bell.Common.Lists.{All, is_empty, update}
use aso_bell.Common.Text.{Text, text_eq}
use aso_bell.Domain.Job.{Job, JobStatus}
use aso_bell.Store.State.{Store, hex_id}
use aso_bell.Store.Jobs.{status_eq, clashes, modify_at}

-- The job carries an ID that the sequence has given out.
abbrev pub IsNumbered : ℕ → Text → Type 0
IsNumbered seq id = (n : ℕ) × (id ≡ hex_id n) × (n ≤ seq)

-- No two jobs have one ID.
abbrev pub IsDistinct : List Job → Type 0
IsDistinct [] = Unit
IsDistinct (j ∷ js) = All (λ k. text_eq k.id j.id ≡ false) js × IsDistinct js

-- No two jobs share a dedupe key that is not empty.
abbrev pub IsDeduped : List Job → Type 0
IsDeduped [] = Unit
IsDeduped (j ∷ js) = All (λ k. clashes k j ≡ false) js × IsDeduped js

abbrev pub is_final : JobStatus → Bool
is_final JobStatus.pending = false
is_final JobStatus.running = false
is_final JobStatus.done = true
is_final JobStatus.failed = true
is_final JobStatus.canceled = true

-- A job has a lease exactly while it is running, a finishing time when it is done, failed or
-- canceled, and may be tried at least once.
abbrev pub IsConsistent : Job → Type 0
IsConsistent j =
    (is_some j.lease_until ≡ status_eq j.status JobStatus.running)
    × ((is_final j.status && not (is_some j.finished_at)) ≡ false)
    × (pos 0 <ℤ j.max_attempts)

pub record IsQueue (s : Store) : Type 0 where
  pub numbered : All (λ j. IsNumbered s.seq j.id) s.jobs
  pub distinct : IsDistinct s.jobs
  pub deduped : IsDeduped s.jobs
  pub consistent : All IsConsistent s.jobs

-- The same jobs in the same places, up to what the methods may write.
abbrev pub SameKeys : List Job → List Job → Type 0
SameKeys [] [] = Unit
SameKeys (x ∷ xs) (y ∷ ys) = (x.id ≡ y.id) × (x.dedupe_key ≡ y.dedupe_key) × SameKeys xs ys
SameKeys _ _ = ⊥

abbrev pub KeepsKeys : (Job → Job) → Type 0
KeepsKeys f = (j : Job) → (j.id ≡ (f j).id) × (j.dedupe_key ≡ (f j).dedupe_key)

pub SameKeys-refl : (js : List Job) → SameKeys js js
SameKeys-refl [] = tt
SameKeys-refl (j ∷ js) = (refl, refl, SameKeys-refl js)

pub SameKeys-update :
    (p : Job → Bool) (f : Job → Job) (js : List Job) → KeepsKeys f → SameKeys js (update p f js)
SameKeys-update p f [] k = tt
SameKeys-update p f (j ∷ js) k = elim (Bool-cases (p j)) [
  | inl e ↦ rw e ((k j).0, (k j).1, SameKeys-refl js)
  | inr e ↦ rw e (refl, refl, SameKeys-update p f js k)
]

pub SameKeys-map : (f : Job → Job) (js : List Job) → KeepsKeys f → SameKeys js (map f js)
SameKeys-map f [] k = tt
SameKeys-map f (j ∷ js) k = ((k j).0, (k j).1, SameKeys-map f js k)

pub SameKeys-modify_at :
    (f : Job → Job) (i : ℕ) (js : List Job) → KeepsKeys f → SameKeys js (modify_at f i js)
SameKeys-modify_at f i [] k = tt
SameKeys-modify_at f zero (j ∷ js) k = ((k j).0, (k j).1, SameKeys-refl js)
SameKeys-modify_at f (suc i) (j ∷ js) k = (refl, refl, SameKeys-modify_at f i js k)

pub All-SameKeys :
    (P : Text → Text → Type 0) (xs ys : List Job)
    → SameKeys xs ys
    → All (λ j. P j.id j.dedupe_key) xs
    → All (λ j. P j.id j.dedupe_key) ys
All-SameKeys P [] [] s h = tt
All-SameKeys P [] (y ∷ ys) s h = absurd s
All-SameKeys P (x ∷ xs) [] s h = absurd s
All-SameKeys P (x ∷ xs) (y ∷ ys) s h = (
  subst (λ a. P a y.dedupe_key) s.0 (subst (λ b. P x.id b) s.1 h.0),
  All-SameKeys P xs ys s.2 h.1,
)

pub IsDistinct-SameKeys : (xs ys : List Job) → SameKeys xs ys → IsDistinct xs → IsDistinct ys
IsDistinct-SameKeys [] [] s h = tt
IsDistinct-SameKeys [] (y ∷ ys) s h = absurd s
IsDistinct-SameKeys (x ∷ xs) [] s h = absurd s
IsDistinct-SameKeys (x ∷ xs) (y ∷ ys) s h = (
  subst (λ a. All (λ k. text_eq k.id a ≡ false) ys) s.0
      (All-SameKeys (λ a b. text_eq a x.id ≡ false) xs ys s.2 h.0),
  IsDistinct-SameKeys xs ys s.2 h.1,
)

pub IsDeduped-SameKeys : (xs ys : List Job) → SameKeys xs ys → IsDeduped xs → IsDeduped ys
IsDeduped-SameKeys [] [] s h = tt
IsDeduped-SameKeys [] (y ∷ ys) s h = absurd s
IsDeduped-SameKeys (x ∷ xs) [] s h = absurd s
IsDeduped-SameKeys (x ∷ xs) (y ∷ ys) s h = (
  subst (λ a. All (λ k. (not (is_empty k.dedupe_key) && text_eq a k.dedupe_key) ≡ false) ys) s.1
      (All-SameKeys (λ a b. (not (is_empty b) && text_eq x.dedupe_key b) ≡ false) xs ys s.2 h.0),
  IsDeduped-SameKeys xs ys s.2 h.1,
)
