-- ===== src/Bot/Forms.antt =====
-- internal/manager/bot/form.go. A form keeps what its code varies; labels, hints and options are
-- constants of the source.
use aso_bell.Common.{
  ◌*◌, Bool, true, false, not, ◌||◌, [], ◌∷◌, ◌++◌, Option, none, some, if◌then◌else◌,
}
use aso_bell.Common.Int.{ℤ, pos, ltb_ℤ}
use aso_bell.Common.Lists.{is_empty}
use aso_bell.Common.Text.{Text, codes, text_eq, trim_space}
use aso_bell.Domain.Event.{Event, EventUpdate}
use aso_bell.Domain.Job.{hour}
use aso_bell.Domain.Reminder.{
  ReminderMode, ReminderPolicy, one_day, default_final_offset, default_reminder_policy,
}
use aso_bell.Domain.TimeOfDay.{to_text}
use aso_bell.Domain.Workspace.{WorkspaceSettings, is_unset}
use aso_bell.Bot.Input.{Library, Calendar}
use aso_bell.Bot.DateTime.{parse_start_time, parse_end_time}
use aso_bell.Bot.Pace.{bare_policy}
use aso_bell.Bot.Commands.{Args, lookup}

abbrev pub form_event_new : Text
form_event_new = codes "event_new"

abbrev pub form_event_edit : Text
form_event_edit = codes "event_edit"

-- The initial values of the fields, with the IDs of the form.
pub record Form : Type 0 where
  pub form_id : Text
  pub metadata : Text
  pub title : Text
  pub date : Text
  pub time : Text
  pub ends : Text
  pub description : Text
  pub remind : Text

pub record EventFormInput : Type 0 where
  pub title : Text
  pub description : Text
  pub starts_at : ℤ
  pub ends_at : Option ℤ
  pub reminder_policy : Option ReminderPolicy

-- NewEventForm in a location.
unfoldable pub new_event_form : ℤ → WorkspaceSettings → Text → Calendar → Form
unfolding to_text
new_event_form now settings origin_channel_id loc = record {
  form_id = form_event_new;
  metadata = origin_channel_id;
  title = [];
  date = loc.date_text (loc.zone.add_days now (pos 1));
  time = to_text settings.default_start_time;
  ends = [];
  description = [];
  remind = codes "standard";
}

abbrev ends_text : Option ℤ → Calendar → Text
ends_text none loc = []
ends_text (some at) loc = loc.clock_text at

-- EditEventForm in a location.
unfoldable pub edit_event_form : Event → Calendar → Form
edit_event_form ev loc = record {
  form_id = form_event_edit;
  metadata = ev.id;
  title = ev.title;
  date = loc.date_text ev.starts_at;
  time = loc.clock_text ev.starts_at;
  ends = ends_text ev.ends_at loc;
  description = ev.description;
  remind = codes "custom";
}

-- settings.Location(), or UTC.
abbrev pub location_or_utc : Library → WorkspaceSettings → Calendar
location_or_utc l settings = elim (l.load settings.timezone) [ none ↦ l.utc | some loc ↦ loc ]

-- A value, and the errors by field.
abbrev Checked : Type 0 → Type 0
Checked A = A × Args

abbrev rejected : Text → Text → Checked (Option ℤ)
rejected field message = (none, (field, message) ∷ [])

abbrev future_start : Option ℤ → ℤ → Checked (Option ℤ)
future_start none now = rejected (codes "date") (codes "日付または時刻を解釈できませんでした")
future_start (some starts_at) now =
    if not (ltb_ℤ now starts_at)
    then rejected (codes "date") (codes "開始日時は未来を指定してください")
    else (some starts_at, [])

abbrev clock_of : Text → WorkspaceSettings → Text
clock_of clock settings = if is_empty clock then to_text settings.default_start_time else clock

-- parseFormStart
unfoldable pub parse_form_start :
    Library → Args → ℤ → Calendar → WorkspaceSettings → Checked (Option ℤ)
unfolding parse_start_time lookup
parse_form_start l values now loc settings =
    let date = trim_space (lookup (codes "date") values) in
    let clock = clock_of (trim_space (lookup (codes "time") values)) settings in
    if is_empty date
    then rejected (codes "date") (codes "日付を選んでください")
    else future_start
        (parse_start_time l (date ++ b' ' ∷ clock) now loc settings.default_start_time) now

abbrev end_or_error : Option ℤ → Checked (Option ℤ)
end_or_error none =
    rejected (codes "ends") (codes "終了予定は `+3h` `22:00` `9/21 12:00` のいずれかの形式で入力してください")
end_or_error (some at) = (some at, [])

-- parseFormEnds
unfoldable pub parse_form_ends : Library → Args → ℤ → Calendar → Checked (Option ℤ)
unfolding parse_end_time lookup
parse_form_ends l values starts_at loc =
    let raw = trim_space (lookup (codes "ends") values) in
    if is_empty raw then (none, []) else end_or_error (parse_end_time l raw starts_at loc)

-- The choice of the settings, or the default where the mode is empty.
abbrev standard_policy : WorkspaceSettings → ReminderPolicy
standard_policy settings =
    if is_unset settings.default_reminder_policy.mode
    then default_reminder_policy
    else settings.default_reminder_policy

abbrev day_before : ReminderPolicy
day_before = record (bare_policy ReminderMode.offsets) {
  offsets = pos one_day ∷ pos (3 * hour) ∷ [];
}

abbrev daily_20 : ReminderPolicy
daily_20 = record (bare_policy ReminderMode.interval) {
  every = pos one_day;
  at = record { hour = pos 20; minute = pos 0 };
  final_offset = default_final_offset;
}

-- parseRemindPreset: `none` is a value that is no choice.
unfoldable pub parse_remind_preset : Text → WorkspaceSettings → Option (Option ReminderPolicy)
unfolding default_reminder_policy
parse_remind_preset value settings =
    let choice = trim_space value in
    if is_empty choice || text_eq choice (codes "custom")
    then some none
    else if text_eq choice (codes "standard")
    then some (some (standard_policy settings))
    else if text_eq choice (codes "day_before")
    then some (some day_before)
    else if text_eq choice (codes "daily_20")
    then some (some daily_20)
    else if text_eq choice (codes "none")
    then some (some (bare_policy ReminderMode.none_mode))
    else none

-- The times of the form; without a start there is no end, and the start is the zero time.
abbrev times_of : Library → Args → Calendar → Checked (Option ℤ) → Checked (ℤ × Option ℤ)
times_of l values loc (none, errs) = ((pos 0, none), errs)
times_of l values loc (some starts_at, errs) =
    let (ends_at, more) = parse_form_ends l values starts_at loc in
    ((starts_at, ends_at), errs ++ more)

abbrev title_errors : Text → Args
title_errors title = if is_empty title then (codes "title", codes "タイトルを入力してください") ∷ [] else []

abbrev remind_errors : Option (Option ReminderPolicy) → Args
remind_errors none = (codes "remind", codes "リマインドの選択肢が不正です") ∷ []
remind_errors (some policy) = []

abbrev chosen : Option (Option ReminderPolicy) → Option ReminderPolicy
chosen none = none
chosen (some policy) = policy

-- ParseEventForm
unfoldable pub parse_event_form : Library → Args → ℤ → WorkspaceSettings → EventFormInput × Args
unfolding lookup parse_form_start parse_form_ends parse_remind_preset
parse_event_form l values now settings =
    let loc = location_or_utc l settings in
    let title = trim_space (lookup (codes "title") values) in
    let (times, time_errors) = times_of l values loc (parse_form_start l values now loc settings) in
    let policy = parse_remind_preset (lookup (codes "remind") values) settings in
    (
      record {
        title = title;
        description = trim_space (lookup (codes "description") values);
        starts_at = times.0;
        ends_at = times.1;
        reminder_policy = chosen policy;
      },
      title_errors title ++ (time_errors ++ remind_errors policy),
    )

abbrev is_none {ℓ} : {A : Type ℓ} → Option A → Bool
is_none none = true
is_none (some a) = false

-- dispatch.go, (EventFormInput).Update: an empty field of a form clears the value.
unfoldable pub update_of : EventFormInput → EventUpdate
update_of i = record {
  title = some i.title;
  description = some i.description;
  location = none;
  starts_at = some i.starts_at;
  ends_at = i.ends_at;
  clear_ends_at = is_none i.ends_at;
  reminder_policy = i.reminder_policy;
}
