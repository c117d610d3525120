-- ===== src/Scheduler/Pool.antt =====
-- worker.go, poll: the slots that bound how many jobs run at the same time. A goroutine that has
-- been started ends at any later moment; its run is one step here.
use aso_bell.Common.{
  ℕ, zero, suc, ◌-◌, ◌≤◌, ◌≡◌, refl, Bool, true, false, List, [], ◌∷◌, ◌++◌, ltb, if◌then◌else◌,
  Bool-cases, Option-cases, none, some, ap, inl, inr, arith,
}
use aso_bell.Common.Int.{pos_part}
use aso_bell.Common.Lists.{length, get_elem?, length-append}
use aso_bell.Domain.Errors.{Result, ok}
use aso_bell.Domain.Job.{Job}
use aso_bell.Usecase.Effects.{Env, World}
use aso_bell.Scheduler.{Handler, Config, claim, run}

-- The worker while Run polls: the world, the slots taken, and the jobs whose goroutines run.
pub record Pool : Type 0 where
  pub world : World
  pub slots : ℕ
  pub running : List Job

-- The channel operations of poll.
abbrev pub acquire : Pool → Pool
acquire p = record p { slots = suc p.slots }

abbrev pub release : Pool → Pool
release p = record p { slots = p.slots - 1 }

-- `wg.Go`, or the way back from a claim that failed.
start_claimed : Result Job × World → Pool → Bool × Pool
start_claimed (ok job, w) p = (true, record p { world = w; running = p.running ++ job ∷ [] })
start_claimed (Result.failed e, w) p = (false, release (record p { world = w }))

-- The body of poll's loop: whether it goes on.
poll_one : Config → Env → Pool → Bool × Pool
unfolding start_claimed
poll_one c env p =
    if ltb p.slots (pos_part c.workers)
    then start_claimed (claim c env p.world) (acquire p)
    else (false, p)

continue_if : Bool × Pool → (Pool → Pool) → Pool
continue_if (true, p) next = next p
continue_if (false, p) next = p

poll_rounds : Config → Env → ℕ → Pool → Pool
unfolding poll_one continue_if
poll_rounds c env zero p = p
poll_rounds c env (suc rounds) p = continue_if (poll_one c env p) (poll_rounds c env rounds)

-- (*Worker).poll
unfoldable pub poll : Config → Env → Pool → Pool
unfolding poll_rounds
poll c env p = poll_rounds c env (pos_part c.batch_size) p

abbrev pub remove_at : ℕ → List Job → List Job
remove_at i [] = []
remove_at zero (job ∷ jobs) = jobs
remove_at (suc i) (job ∷ jobs) = job ∷ remove_at i jobs

-- The goroutine of the running job with the index: run, then the deferred release.
unfoldable pub end_one : Handler → ℕ → Env → Pool → Pool
end_one handler i env p = elim (get_elem? p.running i) [
  | none ↦ p
  | some job ↦
      release
        (record p { world = (run handler job env p.world).1; running = remove_at i p.running })
]

-- What may happen: a poll, the end of a running job, a write from elsewhere.
pub data PoolEvent : Type 0 where
  polled : Env → PoolEvent
  ended : ℕ → Env → PoolEvent
  elsewhere : World → PoolEvent

abbrev pub step : Handler → Config → PoolEvent → Pool → Pool
step handler c (polled env) p = poll c env p
step handler c (ended i env) p = end_one handler i env p
step handler c (elsewhere w) p = record p { world = w }

abbrev pub steps : Handler → Config → List PoolEvent → Pool → Pool
steps handler c [] p = p
steps handler c (e ∷ es) p = steps handler c es (step handler c e p)

-- NewWorker
abbrev pub idle : World → Pool
idle w = record { world = w; slots = 0; running = [] }

-- A slot is taken for each running job, and there are no more of them than workers.
pub record IsBounded (c : Config) (p : Pool) : Type 0 where
  pub matched : p.slots ≡ length p.running
  pub bounded : length p.running ≤ pos_part c.workers

start-IsBounded :
    (c : Config) (r : Result Job × World) (p : Pool)
    → IsBounded c p
    → ltb p.slots (pos_part c.workers) ≡ true
    → IsBounded c (start_claimed r (acquire p)).1
unfolding start_claimed
start-IsBounded c (ok job, w) p b free =
    let more = length-append p.running (job ∷ []) in
    record { matched = omega (arith, more, b.matched); bounded = ground (arith, more, b.matched) }
start-IsBounded c (Result.failed e, w) p b free = record {
  matched = omega (arith, b.matched);
  bounded = b.bounded;
}

poll_one-IsBounded :
    (c : Config) (env : Env) (p : Pool) → IsBounded c p → IsBounded c (poll_one c env p).1
unfolding poll_one
poll_one-IsBounded c env p b = elim (Bool-cases (ltb p.slots (pos_part c.workers))) [
  | inl e ↦ rw e (start-IsBounded c (claim c env p.world) p b e)
  | inr e ↦ rw e b
]

continue-IsBounded :
    (c : Config) (r : Bool × Pool) (next : Pool → Pool)
    → IsBounded c r.1
    → ((p : Pool) → IsBounded c p → IsBounded c (next p))
    → IsBounded c (continue_if r next)
unfolding continue_if
continue-IsBounded c (true, p) next b h = h p b
continue-IsBounded c (false, p) next b h = b

rounds-IsBounded :
    (c : Config) (env : Env) (n : ℕ) (p : Pool)
    → IsBounded c p
    → IsBounded c (poll_rounds c env n p)
unfolding poll_rounds
rounds-IsBounded c env zero p b = b
rounds-IsBounded c env (suc n) p b =
    continue-IsBounded c (poll_one c env p) (poll_rounds c env n) (poll_one-IsBounded c env p b)
      (rounds-IsBounded c env n)

length-remove_at :
    (i : ℕ) (js : List Job) (j : Job)
    → get_elem? js i ≡ some j
    → suc (length (remove_at i js)) ≡ length js
length-remove_at i [] j h = absurd (cc)
length-remove_at zero (x ∷ js) j h = refl
length-remove_at (suc i) (x ∷ js) j h = ap suc (length-remove_at i js j h)

end-IsBounded :
    (handler : Handler) (c : Config) (i : ℕ) (env : Env) (p : Pool)
    → IsBounded c p
    → IsBounded c (end_one handler i env p)
unfolding end_one
end-IsBounded handler c i env p b = elim (Option-cases (get_elem? p.running i)) [
  | inl e ↦ rw (e, end_one) b
  | inr (j, e) ↦
      let less = length-remove_at i p.running j e in
      rw (e, end_one)
        (record {
          matched = omega (arith, less, b.matched);
          bounded = omega (arith, less, b.bounded);
        })
]

step-IsBounded :
    (handler : Handler) (c : Config) (e : PoolEvent) (p : Pool)
    → IsBounded c p
    → IsBounded c (step handler c e p)
unfolding poll
step-IsBounded handler c (polled env) p b = rounds-IsBounded c env (pos_part c.batch_size) p b
step-IsBounded handler c (ended i env) p b = end-IsBounded handler c i env p b
step-IsBounded handler c (elsewhere w) p b = record { matched = b.matched; bounded = b.bounded }

steps_kept :
    (handler : Handler) (c : Config) (es : List PoolEvent) (p : Pool)
    → IsBounded c p
    → IsBounded c (steps handler c es p)
steps_kept handler c [] p b = b
steps_kept handler c (e ∷ es) p b =
    steps_kept handler c es (step handler c e p) (step-IsBounded handler c e p b)

-- However polls, ends of jobs and writes from elsewhere follow each other, the worker never runs more
-- jobs at a time than its configuration has workers, and it holds exactly one slot for each.
pub steps-IsBounded :
    (handler : Handler) (c : Config) (es : List PoolEvent) (w : World)
    → IsBounded c (steps handler c es (idle w))
steps-IsBounded handler c es w =
    steps_kept handler c es (idle w) (record { matched = refl; bounded = omega arith })
