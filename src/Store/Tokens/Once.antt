-- ===== src/Store/Tokens/Once.antt =====
-- account.go and memstore.go: a link token is consumed once, before it expires.
use aso_bell.Common.{◌≡◌, refl, none, some, arith, Option-cases, inl, inr}
use aso_bell.Common.Int.{ℤ, ◌<ℤ◌}
use aso_bell.Common.Lists.{find, find-holds, find-update_self, update}
use aso_bell.Common.Text.{Text}
use aso_bell.Domain.Errors.{Error, Result, ok}
use aso_bell.Domain.Account.{LinkToken, usable}
use aso_bell.Store.State.{Store}
use aso_bell.Store.Tokens.{has_id, consumed, consume_found, consume}

-- The outcome of Consume: a token that was neither consumed nor expired, which a second Consume
-- then refuses at any time; or an error, and the store as it was.
abbrev pub ConsumedOnce : Text → ℤ → Store → Result LinkToken × Store → Type 0
ConsumedOnce id now s (Result.failed e, s') = s' ≡ s
ConsumedOnce id now s (ok t, s') =
    (now <ℤ t.expires_at)
    × (t.consumed_at ≡ some now)
    × ((later : ℤ) → consume id later s' ≡ (Result.failed Error.link_token_consumed, s'))

usable_before : (t : LinkToken) (now : ℤ) → usable t now ≡ none → now <ℤ t.expires_at
unfolding usable
usable_before t now h = ground arith

consumed_refused :
    (id : Text) (later now : ℤ) (s : Store) (t : LinkToken)
    → find (has_id id) s.link_tokens ≡ some (consumed now t)
    → consume id later s ≡ (Result.failed Error.link_token_consumed, s)
unfolding consume usable
consumed_refused id later now s t e = rw (e, consume) refl

-- Consume succeeds only on a token that is neither consumed nor expired, and only once.
pub consume-ConsumedOnce :
    (id : Text) (now : ℤ) (s : Store) → ConsumedOnce id now s (consume id now s)
unfolding consume
consume-ConsumedOnce id now s = elim (Option-cases (find (has_id id) s.link_tokens)) [
  | inl e ↦ rw (e, consume) refl
  | inr (t, e) ↦ elim (Option-cases (usable t now)) [
    | inr (x, u) ↦ rw (e, consume) (rw (u, consume_found) refl)
    | inl u ↦
        let s' = record s { link_tokens = update (has_id id) (consumed now) s.link_tokens } in
        rw (e, consume)
          (rw (u, consume_found)
            (
              usable_before t now u,
              refl,
              λ later. consumed_refused id later now s' t (
                  find-update_self (has_id id) (consumed now) s.link_tokens t e
                    (find-holds (has_id id) s.link_tokens t e)),
            ))
  ]
]
