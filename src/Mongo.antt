-- ===== src/Mongo.antt =====
-- internal/manager/store/mongo/store.go: object ids and instants. bson.ObjectID and its two
-- conversions are arguments.
pub mod Documents
pub mod Convert
pub mod Events
pub mod Records
pub mod Upsert
pub mod Jobs
mod Tests
use aso_bell.Common.{List, [], ◌∷◌, Option, none, some}
use aso_bell.Common.Int.{ℤ}
use aso_bell.Common.Text.{Text}
use aso_bell.Domain.Errors.{Error, Result, ok, failed}

pub record ObjectIds (O : Type 0) : Type 0 where
  -- bson.ObjectIDFromHex
  pub from_hex : Text → Option O
  -- (bson.ObjectID).Hex
  pub hex : O → Text
  -- the zero value
  pub nil : O

abbrev found {ℓ} : {A : Type ℓ} → Option A → Result A
found none = failed Error.not_found
found (some a) = ok a

-- objectID
unfoldable pub object_id : {O : Type 0} → ObjectIds O → Text → Result O
object_id ids id = found (ids.from_hex id)

abbrev with_id : {O : Type 0} → O → Result (List O) → Result (List O)
with_id o (failed e) = failed e
with_id o (ok os) = ok (o ∷ os)

abbrev id_and_rest : {O : Type 0} → Result O → Result (List O) → Result (List O)
id_and_rest (failed e) rest = failed e
id_and_rest (ok o) rest = with_id o rest

-- objectIDs of convert.go
unfoldable pub object_ids : {O : Type 0} → ObjectIds O → List Text → Result (List O)
unfolding object_id
object_ids ids [] = ok []
object_ids ids (id ∷ rest) = id_and_rest (object_id ids id) (object_ids ids rest)

-- utc: an instant has no location here.
abbrev pub utc : ℤ → ℤ
utc t = t

-- utcPtr
abbrev pub utc_ptr : Option ℤ → Option ℤ
utc_ptr none = none
utc_ptr (some t) = some (utc t)
