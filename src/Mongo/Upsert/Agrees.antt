-- ===== src/Mongo/Upsert/Agrees.antt =====
-- participations.go beside participationsRepo of memstore.go: the update and the method.
use aso_bell.Common.Int.{ℤ}
use aso_bell.Common.Text.{Text}
use aso_bell.Domain.Participation.{Participation}
use aso_bell.Store.State.{Store}
use aso_bell.Store.Participations.{ParticipationUpsert}
use aso_bell.Mongo.Upsert.{Value, Fields, Server, participation_update_pipeline}
use aso_bell.Mongo.Upsert.Lawful.{IsServer, IsPlain}

module _ {O : Type 0} (date : ℤ → ℤ) (m : Server O) (lawful : IsServer m) (d : Fields O)
    (i : ParticipationUpsert) (plain : IsPlain i) (e w : O) where
  abbrev updated : Text → Value O
  updated name = m.set d (participation_update_pipeline date i e w) name
