-- ===== src/Bot/EventCommands/Refused.antt =====
-- dispatch.go: what a command of another user than the organizer leaves alone.
use aso_bell.Common.{
  ◌≡◌, refl, List, ◌∷◌, Bool, true, false, not, ◌||◌, Option, none, some, Bool-cases, inl, inr,
}
use aso_bell.Common.Lists.{is_empty, keep}
use aso_bell.Common.Text.{codes, text_eq}
use aso_bell.Domain.Errors.{Error, Result, ok}
use aso_bell.Domain.Event.{Event, EndReason, EventUpdate}
use aso_bell.Domain.Workspace.{Workspace}
use aso_bell.Store.Events.{find_event, get_by_channel_id}
use aso_bell.Store.Events
use aso_bell.Usecase.Effects.{Call, Env, World, event, now, clock_now}
use aso_bell.Usecase.Events.{CloseEventInput, authorize_manage, close}
use aso_bell.Usecase.Events.Create.{UpdateEventInput, update, set_reminder_policy}
use aso_bell.Domain.Reminder.{ReminderPolicy}
use aso_bell.Bot.Pace.{parse_reminder_pace}
use aso_bell.Bot.Forms.{Form, edit_event_form}
use aso_bell.Bot.Commands.{Command, Subcommand, arg, organizer_only}
use aso_bell.Bot.Reply.{
  Services, BotReply, Parsed, tell, tell_or, parsed, wrong, or_wrong, or_reply, msg_invalid_pace,
  msg_event_updated, form_in, open_or_fail,
}
use aso_bell.Bot.Arguments.{chat_actor, has_edit_args, parse_edit_args}
use aso_bell.Bot.EventCommands.{
  edit_event, set_pace, pace_set, close_event, on_event, event_command,
}

update-refused :
    (i : UpdateEventInput) (ev : Event) (env : Env) (w : World)
    → find_event i.event_id w.store ≡ some ev
    → (i.actor.console || text_eq i.actor.chat_user_id ev.organizer.user_id) ≡ false
    → update i env w ≡ (Result.failed Error.forbidden, w)
unfolding update event Events.get authorize_manage
update-refused i ev env w found f = rw (found, f) refl

close-refused :
    (i : CloseEventInput) (ev : Event) (env : Env) (w : World)
    → find_event i.event_id w.store ≡ some ev
    → (i.actor.console || text_eq i.actor.chat_user_id ev.organizer.user_id) ≡ false
    → close i env w ≡ (Result.failed Error.forbidden, w)
unfolding close event Events.get authorize_manage
close-refused i ev env w found f = rw (found, f) refl

abbrev is_clock : Call → Bool
is_clock clock_now = true
is_clock _ = false

-- The calls but for the readings of the clock.
abbrev pub asked : World → List Call
asked w = keep (λ c. not (is_clock c)) w.calls

-- The dispatcher answers, changes no record, and asks nothing but the time.
abbrev pub LeavesAlone : Result BotReply × World → World → Type 0
LeavesAlone r w =
    ((reply : BotReply) × (r.0 ≡ ok reply)) × (r.1.store ≡ w.store) × (asked r.1 ≡ asked w)

module _ (d : Services) (ws : Workspace) (cmd : Command) (ev : Event) (env : Env) (w : World)
    (found : find_event ev.id w.store ≡ some ev)
    (stranger : text_eq cmd.user_id ev.organizer.user_id ≡ false) where
  close_event-LeavesAlone : (reason : EndReason) → LeavesAlone (close_event ev cmd reason env w) w
  unfolding close_event
  close_event-LeavesAlone reason =
      rw
        (close-refused record { event_id = ev.id; reason = reason; actor = chat_actor cmd.user_id }
          ev env w found stranger)
        ((_, refl), refl, refl)

  abbrev policy_change : ReminderPolicy → UpdateEventInput
  policy_change policy = record {
    event_id = ev.id;
    update = record {
      title = none;
      description = none;
      location = none;
      starts_at = none;
      ends_at = none;
      clear_ends_at = false;
      reminder_policy = some policy;
    };
    actor = chat_actor cmd.user_id;
  }

  set_pace-LeavesAlone : LeavesAlone (set_pace d ev cmd env w) w
  unfolding set_pace set_reminder_policy
  set_pace-LeavesAlone = elim (Bool-cases (is_empty (arg cmd (codes "pace")))) [
    | inl e ↦ rw e ((_, refl), refl, refl)
    | inr e ↦ rw e (at_policy (parse_reminder_pace d.library (arg cmd (codes "pace"))))
  ]
    where
      at_policy :
          (policy : Option ReminderPolicy)
          → LeavesAlone
              (tell_or
                (or_wrong msg_invalid_pace policy)
                (λ p.
                  or_reply
                    (set_reminder_policy ev.id p (chat_actor cmd.user_id))
                    λ ev'. tell (pace_set d p))
                env
                w)
              w
      at_policy none = ((_, refl), refl, refl)
      at_policy (some policy) =
          rw (update-refused (policy_change policy) ev env w found stranger) ((_, refl), refl, refl)

  edit_event-LeavesAlone : LeavesAlone (edit_event d ws ev cmd env w) w
  unfolding edit_event now
  edit_event-LeavesAlone = elim (Bool-cases (has_edit_args cmd)) [
    | inl e ↦ rw e (at_update (parse_edit_args d ws cmd (env.clock w.calls)))
    | inr e ↦ rw e (at_form (form_in d ws (edit_event_form ev)))
  ]
    where
      at_form : (form : Option Form) → LeavesAlone (open_or_fail form env w) w
      at_form none = ((_, refl), refl, refl)
      at_form (some form) = ((_, refl), refl, refl)

      at_update :
          (changes : Parsed EventUpdate)
          → LeavesAlone
              (tell_or changes
                (λ u.
                  or_reply
                    (update record { event_id = ev.id; update = u; actor = chat_actor cmd.user_id })
                    λ ev'. tell msg_event_updated)
                env
                (record w { calls = clock_now ∷ w.calls }))
              w
      at_update (wrong text) = ((_, refl), refl, refl)
      at_update (parsed u) =
          rw
            (update-refused record { event_id = ev.id; update = u; actor = chat_actor cmd.user_id }
              ev env (record w { calls = clock_now ∷ w.calls }) found stranger)
            ((_, refl), refl, refl)

  on_event-LeavesAlone :
      (sub : Subcommand)
      → organizer_only sub ≡ true
      → LeavesAlone (on_event d ws cmd sub ev env w) w
  unfolding on_event
  on_event-LeavesAlone Subcommand.edit h = edit_event-LeavesAlone
  on_event-LeavesAlone Subcommand.remind h = set_pace-LeavesAlone
  on_event-LeavesAlone Subcommand.end_event h = close_event-LeavesAlone EndReason.manual
  on_event-LeavesAlone Subcommand.cancel h = close_event-LeavesAlone EndReason.canceled_reason
  on_event-LeavesAlone Subcommand.new h = absurd (cc)
  on_event-LeavesAlone Subcommand.leave h = absurd (cc)
  on_event-LeavesAlone Subcommand.info h = absurd (cc)
  on_event-LeavesAlone Subcommand.list h = absurd (cc)
  on_event-LeavesAlone Subcommand.recruit h = absurd (cc)
  on_event-LeavesAlone Subcommand.login h = absurd (cc)
  on_event-LeavesAlone Subcommand.unlink h = absurd (cc)
  on_event-LeavesAlone Subcommand.help h = absurd (cc)
  on_event-LeavesAlone (Subcommand.unknown name) h = absurd (cc)

  pub event_command-LeavesAlone :
      get_by_channel_id cmd.channel_id w.store ≡ ok ev
      → organizer_only cmd.sub ≡ true
      → LeavesAlone (event_command d ws cmd env w) w
  unfolding event_command
  event_command-LeavesAlone here h = rw here (on_event-LeavesAlone cmd.sub h)
