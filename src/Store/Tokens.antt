-- ===== src/Store/Tokens.antt =====
-- memstore.go, linkTokensRepo and sessionsRepo: maps whose values carry their keys.
use aso_bell.Common.{Bool, not, List, [], ◌∷◌, ◌++◌, Option, none, some, if◌then◌else◌}
use aso_bell.Common.Int.{ℤ}
use aso_bell.Common.Lists.{any, find, update, keep}
use aso_bell.Common.Text.{Text, text_eq}
use aso_bell.Domain.Errors.{Error, Result, ok}
use aso_bell.Domain.Account.{LinkToken, Session, usable}
use aso_bell.Store.State.{Store}
pub mod Once

abbrev pub has_id : Text → LinkToken → Bool
has_id id t = text_eq t.id id

-- linkTokensRepo.Create
unfoldable pub create_token : LinkToken → Store → Option Error × Store
create_token t s =
    if any (has_id t.id) s.link_tokens
    then (some Error.already_exists, s)
    else (none, record s { link_tokens = s.link_tokens ++ t ∷ [] })

-- linkTokensRepo.Get
unfoldable pub get_token : Text → Store → Result LinkToken
get_token id s = elim (find (has_id id) s.link_tokens) [
  | none ↦ Result.failed Error.not_found
  | some t ↦ ok t
]

-- What Consume writes.
abbrev pub consumed : ℤ → LinkToken → LinkToken
consumed now t = record t { consumed_at = some now }

-- The part of Consume behind the lookup.
unfoldable pub consume_found : Text → ℤ → Store → LinkToken → Result LinkToken × Store
consume_found id now s t = elim (usable t now) [
  | some e ↦ (Result.failed e, s)
  | none ↦ (
    ok (consumed now t),
    record s { link_tokens = update (has_id id) (consumed now) s.link_tokens },
  )
]

-- linkTokensRepo.Consume
unfoldable pub consume : Text → ℤ → Store → Result LinkToken × Store
unfolding consume_found
consume id now s = elim (find (has_id id) s.link_tokens) [
  | none ↦ (Result.failed Error.not_found, s)
  | some t ↦ consume_found id now s t
]

abbrev pub session_id : Text → Session → Bool
session_id id x = text_eq x.id id

-- sessionsRepo.Create
unfoldable pub create_session : Session → Store → Option Error × Store
create_session x s =
    if any (session_id x.id) s.sessions
    then (some Error.already_exists, s)
    else (none, record s { sessions = s.sessions ++ x ∷ [] })

-- sessionsRepo.Get
unfoldable pub get_session : Text → Store → Result Session
get_session id s = elim (find (session_id id) s.sessions) [
  | none ↦ Result.failed Error.not_found
  | some x ↦ ok x
]

-- sessionsRepo.Touch
unfoldable pub touch_session : Text → ℤ → Store → Option Error × Store
touch_session id now s = elim (find (session_id id) s.sessions) [
  | none ↦ (some Error.not_found, s)
  | some x ↦ (
    none,
    record s {
      sessions = update (session_id id) (λ y. record y { last_seen_at = now }) s.sessions;
    },
  )
]

-- sessionsRepo.Delete
unfoldable pub delete_session : Text → Store → Store
delete_session id s = record s { sessions = keep (λ x. not (text_eq x.id id)) s.sessions }

-- sessionsRepo.DeleteByUser
unfoldable pub delete_by_user : Text → Store → Store
delete_by_user user_id s = record s {
  sessions = keep (λ x. not (text_eq x.user_id user_id)) s.sessions;
}
