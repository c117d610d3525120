-- ===== src/Bot/Reply.antt =====
-- internal/manager/bot/dispatch.go: replies, and what answers an error or an argument that cannot be
-- read.
use aso_bell.Common.{List, [], ◌∷◌, ◌++◌, Option, none, some, if◌then◌else◌}
use aso_bell.Common.Lists.{is_empty}
use aso_bell.Common.Text.{Text, codes}
use aso_bell.Domain.Errors.{Error, FieldError, Result, ok}
use aso_bell.Domain.Workspace.{Workspace}
use aso_bell.Store.Paging.{Codec}
use aso_bell.Usecase.Effects.{Message, M, pure, ◌>>=◌, attempt, notice}
use aso_bell.Bot.Input.{Library, Calendar}
use aso_bell.Bot.Commands.{Args}
use aso_bell.Bot.Forms.{Form}

-- What Services adds to the services: the library of texts, the cursor's encoding and ConsoleURL.
pub record Services : Type 0 where
  pub library : Library
  pub codec : Codec
  pub console_url : Text

-- Reply of manager.proto.
pub data BotReply : Type 0 where
  ephemeral : Message → BotReply
  open_form : Form → BotReply
  form_errors : Args → BotReply

-- The fields in (*ValidationError).Error.
abbrev pub field_texts : List FieldError → Text
field_texts [] = []
field_texts (f ∷ []) = f.field ++ (codes ": " ++ f.message)
field_texts (f ∷ g ∷ fs) =
    f.field ++ (codes ": " ++ (f.message ++ (codes ", " ++ field_texts (g ∷ fs))))

-- messageForError
abbrev pub message_for_error : Error → Message
message_for_error Error.forbidden = notice (codes "この操作は主催者のみ実行できます")
message_for_error Error.event_closed = notice (codes "このイベントは終了しています")
message_for_error Error.organizer_cannot_leave =
    notice (codes "主催者は抜けられません。`/asobell end` で終了するか `/asobell cancel` で中止してください")
message_for_error Error.not_found = notice (codes "ワークスペースがまだ同期されていません。しばらくしてからお試しください")
message_for_error (Error.validation fs) = notice (codes "validation failed: " ++ field_texts fs)
message_for_error _ = notice (codes "チャンネルへの追加に失敗しました。時間をおいて再度お試しください")

abbrev pub say : Message → M BotReply
say msg = pure (ephemeral msg)

abbrev pub tell : Text → M BotReply
tell text = say (notice text)

-- replyForError
abbrev pub reply_for_error : Error → M BotReply
reply_for_error e = say (message_for_error e)

-- `if err != nil { return d.replyForError(err), nil }`
abbrev pub reply_or {ℓ} : {A : Type ℓ} → (A → M BotReply) → Result A → M BotReply
reply_or next (ok a) = next a
reply_or next (Result.failed e) = reply_for_error e

abbrev pub or_reply {ℓ} : {A : Type ℓ} → M A → (A → M BotReply) → M BotReply
or_reply m next = attempt m >>= reply_or next

-- The same with an own text behind ErrNotFound.
abbrev pub reply_missing {ℓ} : {A : Type ℓ} → Text → (A → M BotReply) → Result A → M BotReply
reply_missing text next (ok a) = next a
reply_missing text next (Result.failed Error.not_found) = tell text
reply_missing text next (Result.failed e) = reply_for_error e

abbrev pub or_missing {ℓ} : {A : Type ℓ} → Text → M A → (A → M BotReply) → M BotReply
or_missing text m next = attempt m >>= reply_missing text next

abbrev pub msg_unknown_command : Text
msg_unknown_command = codes "知らないコマンドです。`/asobell help` で使い方を確認できます"

abbrev pub msg_invalid_when : Text
msg_invalid_when = codes "日時を解釈できません。`2026-09-20 19:00` `9/20 19:00` `明日 19:00` のように指定してください"

abbrev pub msg_invalid_ends : Text
msg_invalid_ends = codes "終了予定を解釈できません。`+3h` `22:00` `9/20 22:00` のように指定してください"

abbrev pub msg_invalid_pace : Text
msg_invalid_pace = codes "リマインドを解釈できません。`7d,1d,3h` `every 2d 20:00` `off` のように指定してください"

abbrev pub msg_event_updated : Text
msg_event_updated = codes "イベントを更新しました"

-- A value, or the text that answers an argument which cannot be read.
pub data Parsed {ℓ} (A : Type ℓ) : Type ℓ where
  parsed : A → Parsed A
  wrong : Text → Parsed A

abbrev pub bind {ℓ κ} : {A : Type ℓ} {B : Type κ} → Parsed A → (A → Parsed B) → Parsed B
bind (parsed a) f = f a
bind (wrong text) f = wrong text

abbrev pub or_wrong {ℓ} : {A : Type ℓ} → Text → Option A → Parsed A
or_wrong text none = wrong text
or_wrong text (some a) = parsed a

-- `if raw := cmd.Arg(…); raw != ""`
abbrev pub optional {ℓ} : {A : Type ℓ} → Text → Text → (Text → Option A) → Parsed (Option A)
optional raw text read =
    if is_empty raw then parsed none else bind (or_wrong text (read raw)) λ a. parsed (some a)

abbrev pub tell_or {ℓ} : {A : Type ℓ} → Parsed A → (A → M BotReply) → M BotReply
tell_or (parsed a) next = next a
tell_or (wrong text) next = tell text

abbrev pub open_or_fail : Option Form → M BotReply
open_or_fail none = reply_for_error (Error.other (codes "workspace timezone"))
open_or_fail (some form) = pure (open_form form)

abbrev pub form_in : Services → Workspace → (Calendar → Form) → Option Form
form_in d ws form = elim (d.library.load ws.settings.timezone) [
  | none ↦ none
  | some loc ↦ some (form loc)
]
