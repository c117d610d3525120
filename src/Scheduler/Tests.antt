-- ===== src/Scheduler/Tests.antt =====
-- Runs of the theorems of internal/manager/scheduler at concrete inputs.
use aso_bell.Common.{true, false, ℕ, refl, [], ◌∷◌, List, none, ◌*◌}
use aso_bell.Common.Int.{pos, ◌+ℤ◌, ◌-ℤ◌}
use aso_bell.Common.{arith}
use aso_bell.Common.Text.{codes, text_eq}
use aso_bell.Domain.Errors.{Error, Result}
use aso_bell.Domain.Job.{Job, new_auto_end_job, backoff, hour}
use aso_bell.Domain.Provider.{ProviderKind, ProviderStatus}
use aso_bell.Store.State.{new, hex_id}
use aso_bell.Store.Jobs.{queued, claimed}
use aso_bell.Store.Jobs
use aso_bell.Usecase.Effects.{Env, World, fail_with, now}
use aso_bell.Scheduler.{
  Handler, Config, run, run_once, run_rounds, claim, run_handler, settle, settle_error,
}
use aso_bell.Scheduler.Attempts.{KeepsFailing, IsDue, IsFailed, rounds, rounds-IsFailed}
use aso_bell.Scheduler.Pool.{IsBounded, steps, idle, polled, ended, steps-IsBounded}

-- The provider is away: every job fails with an error that is retried.
abbrev away : Handler
away job = fail_with Error.provider_unavailable

away-KeepsFailing : KeepsFailing away
away-KeepsFailing job env w = (Error.provider_unavailable, refl, refl, refl)

abbrev at_hour : ℕ → Env
at_hour h = record {
  clock = λ calls. pos (h * hour);
  status = λ calls. ProviderStatus.offline;
  answer = λ calls c. Result.failed Error.provider_unavailable;
  load_location = λ name. none;
  describe = λ e. codes "provider unavailable";
  kind = ProviderKind.discord;
  unicode = record { fold = λ s. s; is_letter = λ c. true; is_digit = λ c. false };
  month_day = λ loc t. [];
  hash_token = λ t. t;
  generate_token = λ calls. Result.failed Error.permanent;
}

abbrev end_job : Job
end_job = record (queued (new_auto_end_job (codes "e1") (pos 10)) 1 (pos 1)) {
  max_attempts = pos 2;
}

abbrev one_job : World
one_job = record { store = record new { jobs = end_job ∷ [] }; calls = [] }

abbrev plain : Config
plain = record { poll_interval = pos 1; batch_size = pos 10; lease = pos 100; workers = pos 4 }

abbrev three_hours : List Env
three_hours = at_hour 1 ∷ at_hour 2 ∷ at_hour 3 ∷ []

each_hour-IsDue : IsDue away plain three_hours one_job
unfolding run_once run_rounds run claim run_handler settle settle_error queued new_auto_end_job
    Jobs.claim Jobs.retry now claimed text_eq ◌+ℤ◌ backoff hex_id ◌-ℤ◌
each_hour-IsDue = ((omega arith, tt), ((omega arith, tt), ((omega arith, tt), tt)))

-- Two attempts, and the round that gives up.
rounds-IsFailed_example : IsFailed end_job.id (rounds away plain three_hours one_job)
unfolding queued
rounds-IsFailed_example =
    rounds-IsFailed away plain three_hours one_job end_job.id 0 2 away-KeepsFailing
      (end_job, refl, refl, refl, refl, refl) refl (omega arith) each_hour-IsDue

steps-IsBounded_example :
    IsBounded plain
      (steps away plain (polled (at_hour 1) ∷ ended 0 (at_hour 2) ∷ []) (idle one_job))
steps-IsBounded_example =
    steps-IsBounded away plain (polled (at_hour 1) ∷ ended 0 (at_hour 2) ∷ []) one_job
