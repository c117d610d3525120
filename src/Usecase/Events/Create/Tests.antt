-- ===== src/Usecase/Events/Create/Tests.antt =====
-- Runs of the theorems of usecase/event.go, Create, at concrete inputs.
use aso_bell.Common.{◌≡◌, refl, ◌*◌, ◌+◌, [], ◌∷◌, none, some, map}
use aso_bell.Common.Int.{pos, ◌+ℤ◌, ◌-ℤ◌, ◌*ℤ◌}
use aso_bell.Common.Text.{codes, text_eq}
use aso_bell.Domain.Errors.{Error, Result, ok, check, addf}
use aso_bell.Domain.Event.{Event}
use aso_bell.Domain.Job.{JobKind, hour}
use aso_bell.Domain.Reminder.{
  ReminderPolicy, ReminderMode, schedule, rejected, one_day, default_reminder_policy, advance,
}
use aso_bell.Domain.TimeOfDay.{is_valid}
use aso_bell.Store.Jobs.{cancel_one}
use aso_bell.Usecase.Effects.{Env, ◌>>=◌, call}
use aso_bell.Usecase.Events.Create.{provision, finish_create, create_channel}
use aso_bell.Usecase.Events.Create.Aborted.{IsAborted, provision-IsAborted, finish_create-rejected}
use aso_bell.Usecase.Tests.{home, picnic, start, zoned, utc}

-- The bot may not create channels.
abbrev refusing : Env
refusing = record zoned { answer = λ calls c. Result.failed Error.bot_permission }

refused_channel : (provision home picnic refusing start).0 ≡ ok (picnic, some Error.bot_permission)
unfolding provision create_channel call
refused_channel = refl

provision-IsAborted_example :
    (((provision home picnic >>= finish_create home) refusing start).0
      ≡ Result.failed Error.bot_permission)
    × IsAborted
        (codes "e1")
        ((provision home picnic >>= finish_create home) refusing start).1.store.events
unfolding text_eq
provision-IsAborted_example =
    provision-IsAborted home picnic picnic Error.bot_permission refusing start refl refl
      refused_channel

-- A reminder each hour, for 40 hours.
abbrev hourly : ReminderPolicy
hourly = record default_reminder_policy { mode = ReminderMode.interval; every = pos hour }

abbrev vigil : Event
vigil = record picnic { reminder_policy = hourly; starts_at = pos (one_day + 40 * hour) }

abbrev too_many : Error
too_many =
    Error.validation
      (addf [] (codes "reminder_policy") (codes "generates %d reminders, limit is %d"))

vigil_refused : schedule hourly (pos 100) vigil.starts_at utc ≡ rejected too_many
unfolding schedule check default_reminder_policy is_valid ◌+ℤ◌ ◌*ℤ◌ ◌-ℤ◌ advance
vigil_refused = refl

finish_create-rejected_example :
    ((finish_create home (vigil, none) zoned start).0 ≡ Result.failed too_many)
    × ((finish_create home (vigil, none) zoned start).1.store.events ≡ start.store.events)
    × ((finish_create home (vigil, none) zoned start).1.store.jobs
        ≡ map (cancel_one (codes "e1") (JobKind.reminder ∷ []) (pos 100)) start.store.jobs)
finish_create-rejected_example =
    finish_create-rejected home vigil utc too_many zoned start refl refl vigil_refused
