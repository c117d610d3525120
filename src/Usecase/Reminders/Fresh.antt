-- ===== src/Usecase/Reminders/Fresh.antt =====
-- domain/job.go and usecase/reminder.go: no two reminders of an event share a dedupe key.
use aso_bell.Common.{
  ℕ, zero, suc, ◌+◌, ◌*◌, ◌/◌, ◌%◌, ◌-◌, ◌≤◌, ◌<◌, ◌≡◌, refl, sym, ap, ◌∙◌, Bool, true, false, not,
  ◌||◌, List, [], ◌∷◌, ◌++◌, ltb, ◌==◌, if◌then◌else◌, Bool-cases, inl, inr, subst, arith,
}
use aso_bell.Common.Int.{ℤ, pos, max_ℤ, leb_ℤ, ◌≤ℤ◌, pos_part, neg_part, pos_of_nonneg}
use aso_bell.Common.Lists.{All, keep}
use aso_bell.Common.Text.{Text, codes, text_eq, text_eq_iff}
use aso_bell.Domain.Job.{Job, JobKind, decimal, digits_on, reminder_key, peek_key}
use aso_bell.Store.Jobs
use aso_bell.Store.Jobs.{insert_job, sort_jobs, listed, list_by_event}
use aso_bell.Usecase.Reminders.{highest}
use mathlib.Core.List.{append_cancel_left, append_cancel_right}

-- The number behind the last colon.
value : ℕ → Text → ℕ
value acc [] = acc
value acc (c ∷ s) = value (if c == b':' then 0 else acc * 10 + (c - b'0')) s

value-append : (acc : ℕ) (s t : Text) → value acc (s ++ t) ≡ value (value acc s) t
unfolding value
value-append acc [] t = refl
value-append acc (c ∷ s) t = value-append (if c == b':' then 0 else acc * 10 + (c - b'0')) s t

value-digit : (acc d : ℕ) → d < 10 → value acc ((b'0' + d) ∷ []) ≡ acc * 10 + d
unfolding value
value-digit acc d h = ground arith

value-digits_on : (f n : ℕ) → n < f → value 0 (digits_on f n) ≡ n
unfolding digits_on
value-digits_on zero n h = absurd (omega arith)
value-digits_on (suc f) n h = elim (Bool-cases (ltb n 10)) [
  | inl e ↦ rw e (value-digit 0 n (ground arith) ∙ omega arith)
  | inr e ↦
      rw
        (
          e,
          value-append 0 (digits_on f (n / 10)) ((b'0' + n % 10) ∷ []),
          value-digits_on f (n / 10) (ground arith),
        )
        (value-digit (n / 10) (n % 10) (omega arith) ∙ omega arith)
]

value-reminder_key : (id : Text) (n : ℕ) → value 0 (reminder_key id (pos n)) ≡ n
unfolding reminder_key decimal value
value-reminder_key id n =
    value-append 0 id (b':' ∷ decimal (pos n)) ∙ value-digits_on (suc n) n (omega arith)

-- A key names its event and its sequence.
pub reminder_key-injective :
    (id other : Text) (m n : ℕ)
    → reminder_key id (pos m) ≡ reminder_key other (pos n)
    → (m ≡ n) × (id ≡ other)
unfolding reminder_key
reminder_key-injective id other m n h =
    let same = sym (value-reminder_key id m) ∙ (ap (value 0) h ∙ value-reminder_key other n) in
    (
      same,
      append_cancel_right id other (b':' ∷ decimal (pos n)) (
          append_cancel_left (codes "reminder:") (id ++ b':' ∷ decimal (pos n))
            (other ++ b':' ∷ decimal (pos n))
            (subst (λ k. reminder_key id (pos k) ≡ reminder_key other (pos n)) same h)),
    )

-- The job has the key that the constructor of its kind makes.
abbrev pub HasKey : JobKind → Job → Type 0
HasKey JobKind.reminder j =
    (n : ℕ) × (j.payload.sequence ≡ pos n) × (j.dedupe_key ≡ reminder_key j.event_id (pos n))
HasKey JobKind.peek_expire j = (n : ℤ) × (j.dedupe_key ≡ peek_key j.payload.participation_id n)
HasKey JobKind.event_auto_end j = j.dedupe_key ≡ codes "auto_end:" ++ j.event_id
HasKey JobKind.archive_channel j = j.dedupe_key ≡ codes "archive:" ++ j.event_id
HasKey (JobKind.unknown kind) j = j.dedupe_key ≡ []

abbrev pub IsKeyed : Job → Type 0
IsKeyed j = HasKey j.kind j

-- The job's key is none of the event's keys from the sequence on.
abbrev pub IsBelow : Text → ℕ → Job → Type 0
IsBelow id n j = (m : ℕ) → n ≤ m → text_eq j.dedupe_key (reminder_key id (pos m)) ≡ false

-- A reminder of the event has at most the sequence.
abbrev covered : Text → ℤ → Job → Bool
covered id h j =
    not (text_eq j.event_id id)
    || not (Jobs.kind_eq j.kind JobKind.reminder)
    || leb_ℤ j.payload.sequence h

All-insert : (P : Job → Type 0) (j : Job) (js : List Job) → All P (insert_job j js) → P j × All P js
unfolding insert_job
All-insert P j [] h = (h.0, tt)
All-insert P j (k ∷ js) h = elim (Bool-cases (leb_ℤ j.run_at k.run_at)) [
  | inl e ↦ rw e at h
  | inr e ↦ let h' = rw e at h in let r = All-insert P j js h'.1 in (r.0, (h'.0, r.1))
]

All-sort : (P : Job → Type 0) (js : List Job) → All P (sort_jobs js) → All P js
unfolding sort_jobs
All-sort P [] h = h
All-sort P (j ∷ js) h = let r = All-insert P j (sort_jobs js) h in (r.0, All-sort P js r.1)

highest-most : (n : ℤ) (js : List Job) → n ≤ℤ highest n js
highest-most n [] = omega arith
highest-most n (j ∷ js) = elim (Bool-cases (Jobs.kind_eq j.kind JobKind.reminder)) [
  | inl e ↦ rw e (ground (arith, highest-most (max_ℤ n j.payload.sequence) js))
  | inr e ↦ rw e (highest-most n js)
]

abbrev up_to : ℤ → Job → Bool
up_to most j = not (Jobs.kind_eq j.kind JobKind.reminder) || leb_ℤ j.payload.sequence most

highest-bounds :
    (n most : ℤ) (js : List Job) → highest n js ≤ℤ most → All (λ j. up_to most j ≡ true) js
highest-bounds n most [] h = tt
highest-bounds n most (j ∷ js) h = elim (Bool-cases (Jobs.kind_eq j.kind JobKind.reminder)) [
  | inl e ↦
      let h' : highest (max_ℤ n j.payload.sequence) js ≤ℤ most = rw e at h in
      (
        rw e (ground (arith, h', highest-most (max_ℤ n j.payload.sequence) js)),
        highest-bounds (max_ℤ n j.payload.sequence) most js h',
      )
  | inr e ↦ (rw e refl, highest-bounds n most js (rw e at h))
]

kept_covered :
    (id : Text) (most : ℤ) (js : List Job)
    → All (λ j. up_to most j ≡ true) (keep (listed id []) js)
    → All (λ j. covered id most j ≡ true) js
kept_covered id most [] h = tt
kept_covered id most (j ∷ js) h = elim (Bool-cases (text_eq j.event_id id)) [
  | inl e ↦
      let h' : (up_to most j ≡ true) × All (λ j. up_to most j ≡ true) (keep (listed id []) js) =
        rw e at h in
      (rw e h'.0, kept_covered id most js h'.1)
  | inr e ↦ (rw e refl, kept_covered id most js (rw e at h))
]

-- The number behind the highest sequence of the event's reminders.
abbrev pub last_sequence : Text → List Job → ℤ
last_sequence id js = highest (pos 0) (sort_jobs (keep (listed id []) js))

pub last_sequence-pos :
    (id : Text) (js : List Job) → last_sequence id js ≡ pos (pos_part (last_sequence id js))
last_sequence-pos id js =
    pos_of_nonneg (last_sequence id js) (highest-most (pos 0) (sort_jobs (keep (listed id []) js)))

HasKey-IsBelow :
    (k : JobKind) (id : Text) (h : ℕ) (j : Job)
    → HasKey k j
    → (not (text_eq j.event_id id)
        || not (Jobs.kind_eq k JobKind.reminder)
        || leb_ℤ j.payload.sequence (pos h))
      ≡ true
    → IsBelow id (suc h) j
unfolding Jobs.kind_eq
HasKey-IsBelow JobKind.reminder id h j (n, seq, key) c m le =
    elim (Bool-cases (text_eq j.dedupe_key (reminder_key id (pos m)))) [
      | inr e ↦ e
      | inl e ↦
          let (number, event) =
            reminder_key-injective j.event_id id n m
              (sym key ∙ (text_eq_iff j.dedupe_key (reminder_key id (pos m))).0 e) in
          let c' = rw ((text_eq_iff j.event_id id).1 event, seq) at c in
          absurd (ground (arith, c', number, le))
    ]
HasKey-IsBelow JobKind.peek_expire id h j (n, key) c m le =
    rw key (unfold text_eq peek_key reminder_key in refl)
HasKey-IsBelow JobKind.event_auto_end id h j key c m le =
    rw key (unfold text_eq reminder_key in refl)
HasKey-IsBelow JobKind.archive_channel id h j key c m le =
    rw key (unfold text_eq reminder_key in refl)
HasKey-IsBelow (JobKind.unknown kind) id h j key c m le =
    rw key (unfold text_eq reminder_key in refl)

All-IsBelow :
    (id : Text) (h : ℕ) (js : List Job)
    → All IsKeyed js
    → All (λ j. covered id (pos h) j ≡ true) js
    → All (IsBelow id (suc h)) js
All-IsBelow id h [] keyed c = tt
All-IsBelow id h (j ∷ js) keyed c =
    (HasKey-IsBelow j.kind id h j keyed.0 c.0, All-IsBelow id h js keyed.1 c.1)

-- Every job's key lies below the next sequence of the event.
pub last_sequence-IsBelow :
    (id : Text) (js : List Job)
    → All IsKeyed js
    → All (IsBelow id (suc (pos_part (last_sequence id js)))) js
last_sequence-IsBelow id js keyed =
    let h = pos_part (last_sequence id js) in
    let least : last_sequence id js ≤ℤ pos h =
      omega (arith, ap neg_part (last_sequence-pos id js)) in
    let kept = keep (listed id []) js in
    All-IsBelow id h js keyed (
      kept_covered id (pos h) js (
        All-sort (λ j. up_to (pos h) j ≡ true) kept
          (highest-bounds (pos 0) (pos h) (sort_jobs kept) least)))
