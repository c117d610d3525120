-- ===== src/Mongo/Upsert.antt =====
-- internal/manager/store/mongo/participations.go: the update of Upsert, one stage of an aggregation
-- pipeline that the server carries out on the stored document. The server is an argument, and so is
-- `date`, by which the driver writes a time.Time as a BSON datetime, a count of milliseconds.
pub mod Lawful
pub mod Agrees
use aso_bell.Common.{Bool, true, false, List, [], ◌∷◌, Option, none, some, if◌then◌else◌}
use aso_bell.Common.Int.{ℤ, pos}
use aso_bell.Common.Text.{Text, codes, text_eq}
use aso_bell.Domain.Participation.{Role, Status}
use aso_bell.Domain.Job.{JobStatus}
use aso_bell.Store.Participations.{ParticipationUpsert, peek_increment}
use aso_bell.Mongo.{utc}

-- The values in the documents. A role and a status are strings there.
pub data Value (O : Type 0) : Type 0 where
  null : Value O
  boolean : Bool → Value O
  text : Text → Value O
  role_value : Role → Value O
  status_value : Status → Value O
  job_status : JobStatus → Value O
  object : O → Value O
  instant : ℤ → Value O
  number : ℤ → Value O

-- The expressions of the pipeline. `field f` is "$f", and `bare v` is a Go value that stands in an
-- expression as it is: the server takes a string that starts with a dollar sign for a path.
pub data Expr (O : Type 0) : Type 0 where
  bare : Value O → Expr O
  field : Text → Expr O
  if_null equal both add : Expr O → Expr O → Expr O
  cond : Expr O → Expr O → Expr O → Expr O

-- A document by the values of its fields; a field that is missing has the value null.
abbrev pub Fields : Type 0 → Type 0
Fields O = Text → Value O

-- bson.D{{"$set", …}}
abbrev pub Stage : Type 0 → Type 0
Stage O = List (Text × Expr O)

pub record Server (O : Type 0) : Type 0 where
  pub evaluate : Fields O → Expr O → Value O
  pub set : Fields O → Stage O → Fields O

-- keepsParticipant
abbrev pub keeps_participant : {O : Type 0} → Expr O
keeps_participant =
    both (equal (field (codes "role")) (bare (role_value Role.participant)))
      (equal (field (codes "status")) (bare (status_value Status.active)))

-- requestedExpiry
abbrev pub requested_expiry : {O : Type 0} → (ℤ → ℤ) → Option ℤ → Value O
requested_expiry date none = null
requested_expiry date (some at) = instant (date (utc at))

-- participationUpdatePipeline, its one stage
unfoldable pub participation_update_pipeline :
    {O : Type 0} → (ℤ → ℤ) → ParticipationUpsert → O → O → Stage O
participation_update_pipeline date i event_id workspace_id =
    (codes "eventId", bare (object event_id))
    ∷ (codes "workspaceId", bare (object workspace_id))
    ∷ (codes "chatUserId", bare (text i.chat_user_id))
    ∷ (codes "displayName", bare (text i.display_name))
    ∷ (codes "joinedAt", if_null (field (codes "joinedAt")) (bare (instant (date (utc i.now)))))
    ∷ (codes "status", bare (status_value Status.active))
    ∷ (
      codes "role",
      cond keeps_participant (bare (role_value Role.participant)) (bare (role_value i.role)),
    )
    ∷ (
      codes "expiresAt",
      cond keeps_participant (field (codes "expiresAt"))
          (bare (requested_expiry date i.expires_at)),
    )
    ∷ (
      codes "peekCount",
      add (if_null (field (codes "peekCount")) (bare (number (pos 0))))
          (cond keeps_participant (bare (number (pos 0))) (bare (number (peek_increment i.role)))),
    )
    ∷ (codes "updatedAt", bare (instant (date (utc i.now))))
    ∷ []
