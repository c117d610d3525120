-- ===== src/Bot/Commands/ActionIds.antt =====
-- action.go: a button leads back to its action and its event.
use aso_bell.Common.{
  ℕ, ◌≡◌, refl, true, false, [], ◌∷◌, ◌++◌, some, arith, &&_true, Bool-cases, inl, inr, ◌==◌,
}
use aso_bell.Common.Lists.{All, All-append, All-mono, is_empty}
use aso_bell.Common.Text.{
  Text, codes, is_space, trim_left, trim_right, trim_space, keep_unless, text_eq, byte_len,
}
use aso_bell.Domain.Identifier.{is_id, is_hex, all_hex, id_length}
use aso_bell.Domain.Participation.{Action}
use aso_bell.Bot.Input.{split_at}
use aso_bell.Bot.Commands.{action_id, parse_action_id}

is_hex-space : (c : ℕ) → is_hex c ≡ true → is_space c ≡ false
is_hex-space c h = ground arith

is_hex-colon : (c : ℕ) → is_hex c ≡ true → (c == b':') ≡ false
is_hex-colon c h = ground arith

All-all_hex : (s : Text) → all_hex s ≡ true → All (λ c. is_hex c ≡ true) s
unfolding all_hex
All-all_hex [] h = tt
All-all_hex (c ∷ s) h =
    let (first, rest) = &&_true (is_hex c) (all_hex s) h in (first, All-all_hex s rest)

kept_whole : (c : ℕ) (s : Text) → keep_unless false c s ≡ c ∷ s
kept_whole c [] = refl
kept_whole c (d ∷ s) = refl

trim_right_none : (s : Text) → All (λ c. is_space c ≡ false) s → trim_right is_space s ≡ s
unfolding trim_right
trim_right_none [] h = refl
trim_right_none (c ∷ s) h = rw (h.0, trim_right_none s h.1) (kept_whole c s)

split_at_none : (s : Text) → All (λ c. (c == b':') ≡ false) s → split_at (λ c. c == b':') s ≡ s ∷ []
unfolding split_at
split_at_none [] h = refl
split_at_none (c ∷ s) h = rw (h.0, split_at_none s h.1) refl

is_id-hex : (s : Text) → is_id s ≡ true → (all_hex s ≡ true) × (is_empty s ≡ false)
unfolding is_id byte_len
is_id-hex [] h = absurd (cc)
is_id-hex (c ∷ s) h = elim (Bool-cases (byte_len (c ∷ s) == id_length)) [
  | inl e ↦ (rw e at h, refl)
  | inr e ↦ absurd (false_true (rw e at h))
]
  where
    false_true : false ≡ true → ⊥
    false_true h = cc

-- The actions that have a button.
abbrev pub IsButton : Action → Type 0
IsButton Action.join = Unit
IsButton Action.peek = Unit
IsButton (Action.other_action name) = ⊥

module _ (id : Text) (hex : All (λ c. is_hex c ≡ true) id) where
  trim_space-behind :
      (c : ℕ) (front : Text)
      → is_space c ≡ false
      → All (λ c. is_space c ≡ false) front
      → trim_space (c ∷ front ++ id) ≡ c ∷ front ++ id
  unfolding trim_space trim_left
  trim_space-behind c front first h =
      let back = All-mono (λ c. is_hex c ≡ true) (λ c. is_space c ≡ false) id is_hex-space hex in
      rw first (
        trim_right_none (c ∷ front ++ id)
          (first, All-append (λ c. is_space c ≡ false) front id h back))

  split-id : split_at (λ c. c == b':') id ≡ id ∷ []
  split-id =
      split_at_none id
        (All-mono (λ c. is_hex c ≡ true) (λ c. (c == b':') ≡ false) id is_hex-colon hex)

  parse-join :
      is_empty id ≡ false → parse_action_id (codes "asobell:join:" ++ id) ≡ some (Action.join, id)
  unfolding parse_action_id split_at text_eq
  parse-join full =
      rw (trim_space-behind b'a' (codes "sobell:join:") refl (ground arith), split-id, full) refl

  parse-peek :
      is_empty id ≡ false → parse_action_id (codes "asobell:peek:" ++ id) ≡ some (Action.peek, id)
  unfolding parse_action_id split_at text_eq
  parse-peek full =
      rw (trim_space-behind b'a' (codes "sobell:peek:") refl (ground arith), split-id, full) refl

-- ParseActionID reads back the action and the event of every button that ActionID names, where the
-- event has an object ID.
pub parse_action_id-action_id :
    (action : Action) (id : Text)
    → IsButton action
    → is_id id ≡ true
    → parse_action_id (action_id action id) ≡ some (action, id)
unfolding action_id
parse_action_id-action_id Action.join id b h =
    let (hex, full) = is_id-hex id h in parse-join id (All-all_hex id hex) full
parse_action_id-action_id Action.peek id b h =
    let (hex, full) = is_id-hex id h in parse-peek id (All-all_hex id hex) full
parse_action_id-action_id (Action.other_action name) id b h = absurd b
