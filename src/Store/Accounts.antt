-- ===== src/Store/Accounts.antt =====
-- memstore.go, consoleUsersRepo, chatIdentitiesRepo and oAuthStatesRepo.
pub mod Linked
use aso_bell.Common.{
  Bool, true, false, not, ◌&&◌, List, [], ◌∷◌, ◌++◌, Option, none, some, if◌then◌else◌,
}
use aso_bell.Common.Int.{ℤ, leb_ℤ, ltb_ℤ}
use aso_bell.Common.Lists.{any, find, update, keep}
use aso_bell.Common.Text.{Text, text_eq}
use aso_bell.Domain.Account.{ConsoleUser, ChatIdentity, OauthState}
use aso_bell.Domain.Errors.{Error, Result, ok}
use aso_bell.Store.Events.{or_not_found}
use aso_bell.Store.State.{Store, next_seq, hex_id}

abbrev pub is_user : Text → ConsoleUser → Bool
is_user id u = text_eq u.id id

-- consoleUsersRepo.Get
unfoldable pub get_user : Text → Store → Result ConsoleUser
get_user id s = or_not_found (find (is_user id) s.console_users)

abbrev has_sub : Text → ConsoleUser → Bool
has_sub sub u = text_eq u.google_sub sub

-- GetByGoogleSub
unfoldable pub get_by_google_sub : Text → Store → Result ConsoleUser
get_by_google_sub sub s = or_not_found (find (has_sub sub) s.console_users)

-- consoleUsersRepo.Create
unfoldable pub create_user : ConsoleUser → Store → Result ConsoleUser × Store
create_user u s =
    if any (has_sub u.google_sub) s.console_users
    then (Result.failed Error.already_exists, s)
    else (let created = record u { id = hex_id (next_seq s) } in
        (
          ok created,
          record s { seq = next_seq s; console_users = s.console_users ++ created ∷ [] },
        ))

-- TouchLogin
unfoldable pub touch_login : Text → ℤ → Store → Option Error × Store
touch_login id now s = elim (find (is_user id) s.console_users) [
  | none ↦ (some Error.not_found, s)
  | some u ↦ (
    none,
    record s {
      console_users = update (is_user id) (λ x. record x { last_login_at = now }) s.console_users;
    },
  )
]

-- The test of Link's and of Get's loop.
abbrev pub is_chat_user : Text → Text → ChatIdentity → Bool
is_chat_user workspace_id chat_user_id i =
    text_eq i.workspace_id workspace_id && text_eq i.chat_user_id chat_user_id

-- Link
unfoldable pub link : ChatIdentity → Store → Result ChatIdentity × Store
link i s =
    if any (is_chat_user i.workspace_id i.chat_user_id) s.chat_identities
    then (Result.failed Error.identity_linked_elsewhere, s)
    else (let created = record i { id = hex_id (next_seq s) } in
        (
          ok created,
          record s { seq = next_seq s; chat_identities = s.chat_identities ++ created ∷ [] },
        ))

-- chatIdentitiesRepo.Get
unfoldable pub get_identity : Text → Text → Store → Result ChatIdentity
get_identity workspace_id chat_user_id s =
    or_not_found (find (is_chat_user workspace_id chat_user_id) s.chat_identities)

-- slices.SortFunc by LinkedAt.
insert_identity : ChatIdentity → List ChatIdentity → List ChatIdentity
insert_identity i [] = i ∷ []
insert_identity i (j ∷ js) =
    if leb_ℤ i.linked_at j.linked_at then i ∷ j ∷ js else j ∷ insert_identity i js

sort_identities : List ChatIdentity → List ChatIdentity
unfolding insert_identity
sort_identities [] = []
sort_identities (i ∷ is) = insert_identity i (sort_identities is)

-- ListByUser
unfoldable pub list_by_user : Text → Store → List ChatIdentity
unfolding sort_identities
list_by_user user_id s =
    sort_identities (keep (λ i. text_eq i.console_user_id user_id) s.chat_identities)

abbrev pub is_identity : Text → ChatIdentity → Bool
is_identity id i = text_eq i.id id

-- slices.Delete at the first one that passes the test.
abbrev pub delete_first : (ChatIdentity → Bool) → List ChatIdentity → List ChatIdentity
delete_first p [] = []
delete_first p (i ∷ is) = if p i then is else i ∷ delete_first p is

-- Unlink
unfoldable pub unlink : Text → Store → Option Error × Store
unlink id s =
    if any (is_identity id) s.chat_identities
    then (none, record s { chat_identities = delete_first (is_identity id) s.chat_identities })
    else (some Error.not_found, s)

abbrev is_state : Text → OauthState → Bool
is_state state o = text_eq o.state state

-- oAuthStatesRepo.Create: a map, whose values carry their keys.
unfoldable pub create_state : OauthState → Store → Option Error × Store
create_state o s =
    if any (is_state o.state) s.oauth_states
    then (some Error.already_exists, s)
    else (none, record s { oauth_states = s.oauth_states ++ o ∷ [] })

-- oAuthStatesRepo.Consume behind the lookup.
consume_found : Text → ℤ → Store → OauthState → Result OauthState × Store
consume_found state now s o =
    if not (ltb_ℤ now o.expires_at)
    then (Result.failed Error.not_found, s)
    else (ok o, record s { oauth_states = keep (λ x. not (is_state state x)) s.oauth_states })

-- oAuthStatesRepo.Consume
unfoldable pub consume_state : Text → ℤ → Store → Result OauthState × Store
unfolding consume_found
consume_state state now s = elim (find (is_state state) s.oauth_states) [
  | none ↦ (Result.failed Error.not_found, s)
  | some o ↦ consume_found state now s o
]
