-- ===== src/Domain/Errors.antt =====
-- internal/manager/domain/errors.go: the sentinel errors and the collected field errors.
use aso_bell.Common.{
  Bool, List, [], ◌∷◌, ◌++◌, Option, none, some, ◌||◌, if◌then◌else◌, ◌≡◌, ◌↔◌, refl, false, true,
}
use aso_bell.Common.Text.{Text, text_eq, codes}

-- FieldError. The message is the format string: no code reads the formatted text back.
pub record FieldError : Type 0 where
  pub field : Text
  pub message : Text

-- The sentinels, a ValidationError with its fields, and `other` for every error the package does
-- not name (those of a transport or of the runtime). Wrapping by %w keeps the sentinel.
pub data Error : Type 0 where
  not_found already_exists event_closed forbidden : Error
  identity_required identity_linked_elsewhere provider_unavailable : Error
  link_token_expired link_token_consumed organizer_cannot_leave : Error
  permanent provider_kind_mismatch : Error
  -- usecase/errors.go: what a provider reports
  name_taken bot_permission rate_limited pin_limit dm_blocked unsupported : Error
  -- scheduler/handler.go, ErrRescheduled
  rescheduled : Error
  validation : List FieldError → Error
  other : Text → Error

-- A value and an error of which one is nil.
pub data Result {ℓ} (A : Type ℓ) : Type ℓ where
  ok : A → Result A
  failed : Error → Result A

-- ValidationError: a list that grows at its end.
abbrev pub ValidationError : Type 0
ValidationError = List FieldError

unfoldable pub addf : ValidationError → Text → Text → ValidationError
addf v field message = v ++ record { field = field; message = message } ∷ []

-- `if bad { v.addf(field, message) }`
unfoldable pub check : Bool → Text → Text → ValidationError → ValidationError
unfolding addf
check bad field message v = if bad then addf v field message else v

-- (*ValidationError).err: nil when nothing was collected.
unfoldable pub err : ValidationError → Option Error
err [] = none
err (f ∷ fs) = some (Error.validation (f ∷ fs))

-- The text of an error that is not a ValidationError; only its presence is observed.
abbrev error_text : Error → Text
error_text (Error.other t) = t
error_text e = codes "error"

unfoldable pub merge : ValidationError → Text → Option Error → ValidationError
merge v field none = v
merge v field (some (Error.validation fs)) = v ++ fs
merge v field (some e) = addf v field (error_text e)

-- (*ValidationError).Has
unfoldable pub has : ValidationError → Text → Bool
has [] field = Bool.false
has (f ∷ fs) field = text_eq f.field field || has fs field

pub addf-ne-nil : (v : ValidationError) (f m : Text) → addf v f m ≡ [] → ⊥
unfolding addf
addf-ne-nil [] f m h = cc
addf-ne-nil (x ∷ v) f m h = cc

-- No field error is ever taken back.
pub check-nil_iff :
    (bad : Bool) (f m : Text) (v : ValidationError)
    → (check bad f m v ≡ []) ↔ ((bad ≡ false) × (v ≡ []))
unfolding check
check-nil_iff true f m v = (λ h. absurd (addf-ne-nil v f m h), λ h. absurd (cc (h.0)))
check-nil_iff false f m v = (λ h. (refl, h), λ h. h.1)

pub err-none_iff : (v : ValidationError) → (err v ≡ none) ↔ (v ≡ [])
unfolding err
err-none_iff [] = (λ h. refl, λ h. refl)
err-none_iff (f ∷ fs) = (λ h. absurd (cc), λ h. absurd (cc))

append-nil_iff : (v w : ValidationError) → (v ++ w ≡ []) ↔ ((v ≡ []) × (w ≡ []))
append-nil_iff [] w = (λ h. (refl, h), λ h. h.1)
append-nil_iff (x ∷ v) w = (λ h. absurd (cc), λ h. absurd (cc (h.0)))

pub merge-nil_iff :
    (v : ValidationError) (f : Text) (w : ValidationError)
    → (merge v f (err w) ≡ []) ↔ ((v ≡ []) × (w ≡ []))
unfolding merge err
merge-nil_iff v f [] = (λ h. (h, refl), λ h. h.0)
merge-nil_iff v f (x ∷ w) = append-nil_iff v (x ∷ w)
