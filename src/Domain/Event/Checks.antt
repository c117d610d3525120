-- ===== src/Domain/Event/Checks.antt =====
-- event.go: which inputs NewEvent and Apply accept.
use aso_bell.Common.{◌≤◌, ◌≡◌, ◌↔◌, true, false, [], ◌∷◌, Option, none, some, arith}
use aso_bell.Common.Int.{ℤ, ◌<ℤ◌}
use aso_bell.Common.Lists.{is_empty}
use aso_bell.Common.Text.{Text, codes, trim_space, rune_count}
use aso_bell.Domain.Errors.{ValidationError, addf-ne-nil, check-nil_iff}
use aso_bell.Domain.Identifier.{is_id}
use aso_bell.Domain.Reminder.Valid.{IsPolicy, merge-validate}
use aso_bell.Domain.Event.{
  NewEventParams, title_max_len, description_max_len, location_max_len, validate_title,
  validate_description, validate_location, validate_ends_at, check_new, is_known,
}

abbrev pub IsTitle : Text → Type 0
IsTitle t = (is_empty t ≡ false) × (rune_count t ≤ title_max_len)

abbrev pub IsDescription : Text → Type 0
IsDescription t = rune_count t ≤ description_max_len

abbrev pub IsLocation : Text → Type 0
IsLocation t = rune_count t ≤ location_max_len

-- An end, if there is one, lies after the start.
abbrev pub EndsAfter : ℤ → Option ℤ → Type 0
EndsAfter starts_at none = Unit
EndsAfter starts_at (some at) = starts_at <ℤ at

pub validate_title-nil :
    (v : ValidationError) (t : Text) → (validate_title v t ≡ []) ↔ ((v ≡ []) × IsTitle t)
unfolding validate_title
validate_title-nil v [] = (
  λ h. absurd (addf-ne-nil v (codes "title") (codes "must not be empty") h),
  λ h. absurd (cc (h.1.0)),
)
validate_title-nil v (c ∷ t) = grind (arith, check-nil_iff)

pub validate_description-nil :
    (v : ValidationError) (t : Text)
    → (validate_description v t ≡ []) ↔ ((v ≡ []) × IsDescription t)
unfolding validate_description
validate_description-nil v t = grind (arith, check-nil_iff)

pub validate_location-nil :
    (v : ValidationError) (t : Text) → (validate_location v t ≡ []) ↔ ((v ≡ []) × IsLocation t)
unfolding validate_location
validate_location-nil v t = grind (arith, check-nil_iff)

pub validate_ends_at-nil :
    (v : ValidationError) (s : ℤ) (e : Option ℤ)
    → (validate_ends_at v s e ≡ []) ↔ ((v ≡ []) × EndsAfter s e)
unfolding validate_ends_at
validate_ends_at-nil v s none = (λ h. (h, tt), λ h. h.0)
validate_ends_at-nil v s (some at) = grind (arith, check-nil_iff)

-- What NewEvent asks of its input: texts within their limits after trimming, an object id, an
-- organizer, a start in the future, an end behind the start, an accepted policy, a known origin.
pub record IsAccepted (p : NewEventParams) (now : ℤ) : Type 0 where
  pub title : IsTitle (trim_space p.title)
  pub description : IsDescription (trim_space p.description)
  pub location : IsLocation (trim_space p.location)
  pub workspace : is_id p.workspace_id ≡ true
  pub organizer : is_empty p.organizer.user_id ≡ false
  pub future : now <ℤ p.starts_at
  pub end : EndsAfter p.starts_at p.ends_at
  pub policy : IsPolicy p.reminder_policy.mode p.reminder_policy
  pub origin : is_known p.created_via ≡ true

pub check_new-nil :
    (p : NewEventParams) (now : ℤ)
    → (check_new p (trim_space p.title) (trim_space p.description) (trim_space p.location) now ≡ [])
      ↔ IsAccepted p now
unfolding check_new
check_new-nil p now = grind (
  arith, check-nil_iff, merge-validate, validate_title-nil, validate_description-nil,
  validate_location-nil, validate_ends_at-nil,
)
