-- ===== src/Mongo/Upsert/Lawful.antt =====
-- participations.go: what the pipeline relies on of the server, and the document of a record.
use aso_bell.Common.{
  ℕ, ◌==◌, ◌≡◌, Bool, true, false, ◌&&◌, [], ◌∷◌, Option, none, some, if◌then◌else◌,
}
use aso_bell.Common.Int.{ℤ, ◌+ℤ◌}
use aso_bell.Common.Text.{Text, codes, text_eq}
use aso_bell.Domain.Participation.{Participation, Role, Status, is_participant, is_active}
use aso_bell.Store.Participations.{ParticipationUpsert}
use aso_bell.Mongo.{ObjectIds}
use aso_bell.Mongo.Upsert.{
  Value, null, boolean, text, role_value, status_value, object, instant, number, Expr, bare, field,
  if_null, equal, both, add, cond, Fields, Stage, Server, requested_expiry,
}

-- The expression of a field in a stage.
unfoldable pub expression_of : {O : Type 0} → Text → Stage O → Option (Expr O)
expression_of name [] = none
expression_of name ((key, e) ∷ rest) = if text_eq name key then some e else expression_of name rest

abbrev pub set_value : {O : Type 0} → (Expr O → Value O) → Value O → Option (Expr O) → Value O
set_value evaluate old none = old
set_value evaluate old (some e) = evaluate e

-- $ifNull
abbrev pub or_else : {O : Type 0} → Value O → Value O → Value O
or_else null v = v
or_else u v = u

-- $cond, whose condition is a Boolean here
abbrev pub chosen : {O : Type 0} → Value O → Value O → Value O → Value O
chosen (boolean true) u v = u
chosen _ u v = v

-- $eq of a role or a status of the document with one of the code
abbrev pub same : {O : Type 0} → Value O → Value O → Bool
same (role_value r) (role_value Role.participant) = is_participant r
same (status_value s) (status_value Status.active) = is_active s
same _ _ = false

abbrev pub sum : {O : Type 0} → Value O → Value O → Value O
sum (number m) (number n) = number (m +ℤ n)
sum _ _ = null

abbrev pub is_true : {O : Type 0} → Value O → Bool
is_true (boolean b) = b
is_true _ = false

abbrev pub starts_with_dollar : Text → Bool
starts_with_dollar [] = false
starts_with_dollar (c ∷ s) = c == b'$'

-- A string that the server evaluates, as a path or a variable.
abbrev pub is_path : {O : Type 0} → Value O → Bool
is_path (text s) = starts_with_dollar s
is_path (role_value (Role.unknown s)) = starts_with_dollar s
is_path _ = false

-- The strings of the input that the pipeline takes as they are are not paths.
abbrev pub IsPlain : ParticipationUpsert → Type 0
IsPlain i =
    (starts_with_dollar i.chat_user_id ≡ false)
    × (starts_with_dollar i.display_name ≡ false)
    × (is_path {O = ℕ} (role_value i.role) ≡ false)

-- What the server's documentation says of the operators, as the pipeline uses them.
pub record IsServer {O : Type 0} (m : Server O) : Type 0 where
  pub of_bare : (d : Fields O) (v : Value O) → is_path v ≡ false → m.evaluate d (bare v) ≡ v
  pub of_field : (d : Fields O) (f : Text) → m.evaluate d (field f) ≡ d f
  pub of_if_null :
      (d : Fields O) (a b : Expr O)
      → m.evaluate d (if_null a b) ≡ or_else (m.evaluate d a) (m.evaluate d b)
  pub of_equal_role :
      (d : Fields O) (f : Text)
      → m.evaluate d (equal (field f) (bare (role_value Role.participant)))
        ≡ boolean (same (d f) (role_value Role.participant))
  pub of_equal_status :
      (d : Fields O) (f : Text)
      → m.evaluate d (equal (field f) (bare (status_value Status.active)))
        ≡ boolean (same (d f) (status_value Status.active))
  pub of_both :
      (d : Fields O) (a b : Expr O)
      → m.evaluate d (both a b) ≡ boolean (is_true (m.evaluate d a) && is_true (m.evaluate d b))
  pub of_cond :
      (d : Fields O) (c a b : Expr O)
      → m.evaluate d (cond c a b) ≡ chosen (m.evaluate d c) (m.evaluate d a) (m.evaluate d b)
  pub of_add :
      (d : Fields O) (a b : Expr O) → m.evaluate d (add a b) ≡ sum (m.evaluate d a) (m.evaluate d b)
  pub of_set :
      (d : Fields O) (stage : Stage O) (name : Text)
      → m.set d stage name ≡ set_value (m.evaluate d) (d name) (expression_of name stage)

-- A field that holds the object id of a text.
abbrev pub HoldsId : {O : Type 0} → ObjectIds O → Value O → Text → Type 0
HoldsId ids v id = (o : _) × (v ≡ object o) × (id ≡ ids.hex o)

-- The document of a participation, with its instants as the driver writes them.
pub record Shows {O : Type 0} (date : ℤ → ℤ) (ids : ObjectIds O) (d : Fields O) (p : Participation)
    : Type 0 where
  pub id : HoldsId ids (d (codes "_id")) p.id
  pub event_id : HoldsId ids (d (codes "eventId")) p.event_id
  pub workspace_id : HoldsId ids (d (codes "workspaceId")) p.workspace_id
  pub chat_user_id : d (codes "chatUserId") ≡ text p.chat_user_id
  pub display_name : d (codes "displayName") ≡ text p.display_name
  pub role : d (codes "role") ≡ role_value p.role
  pub status : d (codes "status") ≡ status_value p.status
  pub joined_at : d (codes "joinedAt") ≡ instant (date p.joined_at)
  pub expires_at : d (codes "expiresAt") ≡ requested_expiry date p.expires_at
  pub peek_count : d (codes "peekCount") ≡ number p.peek_count
  pub updated_at : d (codes "updatedAt") ≡ instant (date p.updated_at)

-- The document that the server updates: that of the record found, or a new one.
abbrev pub Matches :
    {O : Type 0} → (ℤ → ℤ) → ObjectIds O → Fields O → Text → Text → Option Participation → Type 0
Matches date ids d id workspace_id none =
    HoldsId ids (d (codes "_id")) id
    × (d (codes "role") ≡ null)
    × (d (codes "joinedAt") ≡ null)
    × (d (codes "peekCount") ≡ null)
Matches date ids d id workspace_id (some p) = Shows date ids d p × (p.workspace_id ≡ workspace_id)
