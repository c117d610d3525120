-- ===== src/Store/Accounts/Linked.antt =====
-- memstore.go: a login state is consumed once, and a chat user is linked to one console user.
use aso_bell.Common.{
  ◌≡◌, refl, ap, Bool, true, false, not, List, [], ◌∷◌, ◌++◌, Option, none, some, arith, Bool-cases,
  inl, inr,
}
use aso_bell.Common.Int.{ℤ, pos, ltb_ℤ, ◌<ℤ◌}
use aso_bell.Common.Lists.{any, find, keep}
use aso_bell.Common.Text.{Text, text_eq_refl}
use aso_bell.Domain.Account.{ChatIdentity, OauthState}
use aso_bell.Domain.Errors.{Error, Result, ok}
use aso_bell.Store.State.{Store, next_seq, hex_id}
use aso_bell.Store.Accounts.{
  is_state, consume_found, consume_state, is_chat_user, link, get_identity,
}

abbrev expiry : Result OauthState → ℤ
expiry (ok o) = o.expires_at
expiry (Result.failed e) = pos 0

find_kept_out :
    (p : OauthState → Bool) (xs : List OauthState) → find p (keep (λ x. not (p x)) xs) ≡ none
find_kept_out p [] = refl
find_kept_out p (x ∷ xs) = elim (Bool-cases (p x)) [
  | inl e ↦ rw e (find_kept_out p xs)
  | inr e ↦ rw (e, e) (find_kept_out p xs)
]

-- A Consume that succeeds does so before the expiry, and every later Consume of the state finds
-- nothing.
pub consume_state-once :
    (state : Text) (now later : ℤ) (s : Store) (o : OauthState)
    → (consume_state state now s).0 ≡ ok o
    → (now <ℤ o.expires_at)
      × (consume_state state later (consume_state state now s).1
          ≡ (Result.failed Error.not_found, (consume_state state now s).1))
unfolding consume_state consume_found
consume_state-once state now later s o h = found (find (is_state state) s.oauth_states) refl h
  where
    rest : Store
    rest = record s { oauth_states = keep (λ x. not (is_state state x)) s.oauth_states }

    found :
        (r : Option OauthState)
        → find (is_state state) s.oauth_states ≡ r
        → (consume_state state now s).0 ≡ ok o
        → (now <ℤ o.expires_at)
          × (consume_state state later (consume_state state now s).1
              ≡ (Result.failed Error.not_found, (consume_state state now s).1))
    found none e h = absurd (cc (rw (e, consume_state) at h))
    found (some x) e h = elim (Bool-cases (ltb_ℤ now x.expires_at)) [
      | inr late ↦ absurd (cc (rw (e, consume_state, late, consume_found) at h))
      | inl early ↦
          let done : consume_state state now s ≡ (ok x, rest) =
            rw (e, consume_state, early, consume_found) refl in
          let gone : consume_state state later rest ≡ (Result.failed Error.not_found, rest) =
            rw (find_kept_out (is_state state) s.oauth_states, consume_state) refl in
          let same : x.expires_at ≡ o.expires_at = ap expiry (rw done at h) in
          rw done (ground (arith, same, early), gone)
    ]

find-append_fresh :
    (p : ChatIdentity → Bool) (is : List ChatIdentity) (i : ChatIdentity)
    → any p is ≡ false
    → p i ≡ true
    → find p (is ++ i ∷ []) ≡ some i
find-append_fresh p [] i none_yet here = rw here refl
find-append_fresh p (j ∷ is) i none_yet here = elim (Bool-cases (p j)) [
  | inl e ↦ absurd (cc (rw e at none_yet))
  | inr e ↦ rw e (find-append_fresh p is i (rw e at none_yet) here)
]

-- What Link stores is what Get finds.
pub link-get_identity :
    (i j : ChatIdentity) (s : Store)
    → (link i s).0 ≡ ok j
    → get_identity i.workspace_id i.chat_user_id (link i s).1 ≡ ok j
unfolding link get_identity
link-get_identity i j s h =
    elim (Bool-cases (any (is_chat_user i.workspace_id i.chat_user_id) s.chat_identities)) [
      | inl e ↦ absurd (cc (rw e at h))
      | inr e ↦
          let new : ChatIdentity = record i { id = hex_id (next_seq s) } in
          rw
            (
              e,
              find-append_fresh (is_chat_user i.workspace_id i.chat_user_id) s.chat_identities new e
                  (rw (text_eq_refl i.workspace_id, text_eq_refl i.chat_user_id) refl),
            )
            (rw e at h)
    ]

-- The identity has the keys and the console user of another one.
abbrev pub IsCopy : ChatIdentity → Result ChatIdentity → Type 0
IsCopy i (Result.failed e) = Unit
IsCopy i (ok j) =
    (i.workspace_id ≡ j.workspace_id)
    × (i.chat_user_id ≡ j.chat_user_id)
    × (i.console_user_id ≡ j.console_user_id)

pub link-IsCopy : (i : ChatIdentity) (s : Store) → IsCopy i (link i s).0
unfolding link
link-IsCopy i s =
    elim (Bool-cases (any (is_chat_user i.workspace_id i.chat_user_id) s.chat_identities)) [
      | inl e ↦ rw e tt
      | inr e ↦ rw e (refl, refl, refl)
    ]
