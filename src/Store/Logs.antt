-- ===== src/Store/Logs.antt =====
-- memstore.go, reminderLogsRepo and metaRepo.
use aso_bell.Common.{Bool, ◌&&◌, List, if◌then◌else◌, [], ◌∷◌, ◌++◌, none, some}
use aso_bell.Common.Int.{ℤ, eq_ℤ, leb_ℤ}
use aso_bell.Common.Lists.{any, keep}
use aso_bell.Common.Text.{Text, text_eq}
use aso_bell.Domain.Errors.{Error, Result, ok}
use aso_bell.Domain.Provider.{ProviderState}
use aso_bell.Store.State.{Store, ReminderLog, next_seq, hex_id}

-- Append
unfoldable pub append : ReminderLog → Store → ReminderLog × Store
append log s =
    let created = record log { id = hex_id (next_seq s) } in
    (created, record s { seq = next_seq s; reminder_logs = s.reminder_logs ++ created ∷ [] })

-- SentAt
unfoldable pub sent_at : Text → ℤ → Store → Bool
sent_at event_id scheduled_for s =
    any (λ log. text_eq log.event_id event_id && eq_ℤ log.scheduled_for scheduled_for)
      s.reminder_logs

-- SentSequence
unfoldable pub sent_sequence : Text → ℤ → Store → Bool
sent_sequence event_id sequence s =
    any (λ log. text_eq log.event_id event_id && eq_ℤ log.sequence sequence) s.reminder_logs

-- slices.SortFunc by SentAt.
insert_log : ReminderLog → List ReminderLog → List ReminderLog
insert_log log [] = log ∷ []
insert_log log (l ∷ ls) =
    if leb_ℤ log.sent_at l.sent_at then log ∷ l ∷ ls else l ∷ insert_log log ls

sort_logs : List ReminderLog → List ReminderLog
unfolding insert_log
sort_logs [] = []
sort_logs (log ∷ logs) = insert_log log (sort_logs logs)

-- ListByEvent
unfoldable pub list_by_event : Text → Store → List ReminderLog
unfolding sort_logs
list_by_event event_id s = sort_logs (keep (λ log. text_eq log.event_id event_id) s.reminder_logs)

-- metaRepo.SchemaVersion
unfoldable pub get_schema_version : Store → ℤ
get_schema_version s = s.schema_version

-- metaRepo.SetSchemaVersion
unfoldable pub set_schema_version : ℤ → Store → Store
set_schema_version version s = record s { schema_version = version }

-- metaRepo.GetProvider
unfoldable pub get_provider : Store → Result ProviderState
get_provider s = elim s.provider [ none ↦ Result.failed Error.not_found | some p ↦ ok p ]

-- metaRepo.SaveProvider
unfoldable pub save_provider : ProviderState → Store → Store
save_provider p s = elim s.provider [
  | none ↦ record s { provider = some p }
  | some old ↦ record s { provider = some (record p { first_seen_at = old.first_seen_at }) }
]
