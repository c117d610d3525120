-- ===== src/Store/Paging/Next.antt =====
-- memstore.go, filterEvents: what it finds behind the cursor of an event that it found.
use aso_bell.Common.{
  ℕ, zero, suc, ◌≤◌, ◌≡◌, ◌≢◌, refl, ap, subst, ◌∙◌, Bool, true, false, ◌&&◌, List, [], ◌∷◌, Option,
  none, some, arith, Bool-cases, inl, inr, &&_true,
}
use aso_bell.Common.Int.{ℤ}
use aso_bell.Common.Lists.{
  All-keep, All-keep_holds, All-get_elem?, length, keep, keep-All, keep-keep, drop, get_elem?,
}
use aso_bell.Common.Text.{Text}
use aso_bell.Domain.Event.{Event}
use mathlib.Core.Option.{some-injective}
use aso_bell.Store.State.{Store}
use aso_bell.Store.Paging.{
  EventFilter, before_cursor, is_ahead, is_past, is_wanted, insert_event, sort_events,
  matches_event_filter, filter_from,
}
use aso_bell.Store.Paging.Order.{
  IsOrdered, IsApart, All-sort_events, is_ahead_asym, is_ahead_irrefl, sort_events-IsOrdered,
  keep-sort_events, text_lt_trans,
}

before_cursor_trans :
    (x y : Event) (t : ℤ) (id : Text)
    → is_ahead y x ≡ true
    → before_cursor y (t, id) ≡ true
    → before_cursor x (t, id) ≡ true
before_cursor_trans x y t id h k = ground (arith, text_lt_trans x.id y.id id)

-- What comes behind an event that passes the cursor passes it too.
is_past-behind :
    (cursor : Option (ℤ × Text)) (x last : Event)
    → is_past cursor last ≡ true
    → is_ahead last x ≡ true
    → is_past cursor x ≡ true
is_past-behind none x last h k = refl
is_past-behind (some (t, id)) x last h k = before_cursor_trans x last t id k h

pub IsApart-keep : (q : Event → Bool) (xs : List Event) → IsApart xs → IsApart (keep q xs)
IsApart-keep q [] h = tt
IsApart-keep q (x ∷ xs) h = elim (Bool-cases (q x)) [
  | inl t ↦ rw t (All-keep (λ y. x.id ≢ y.id) q xs h.0, IsApart-keep q xs h.1)
  | inr f ↦ rw f (IsApart-keep q xs h.1)
]

-- Behind an element of an ordered list stands what the element comes before.
keep-is_ahead :
    (i : ℕ) (xs : List Event) (last : Event)
    → IsOrdered xs
    → get_elem? xs i ≡ some last
    → keep (is_ahead last) xs ≡ drop (suc i) xs
keep-is_ahead i [] last h e = refl
keep-is_ahead zero (x ∷ xs) last h e =
    subst (λ y. keep (is_ahead y) (x ∷ xs) ≡ xs) (some-injective x last e)
      (rw (is_ahead_irrefl x) (keep-All (is_ahead x) xs h.0))
keep-is_ahead (suc i) (x ∷ xs) last h e =
    let ahead = All-get_elem? (λ y. is_ahead x y ≡ true) i xs last h.0 e in
    rw (is_ahead_asym x last ahead) (keep-is_ahead i xs last h.1 e)

narrow : (a p m : Bool) → (a ≡ true → p ≡ true) → (a && m) ≡ (a && (p && m))
narrow true p m h = rw (h refl) refl
narrow false p m h = refl

-- The events behind a matching one are those behind the cursor that it makes.
pub filter_from-next :
    (f g : EventFilter) (cursor : Option (ℤ × Text)) (s : Store) (i : ℕ) (last : Event)
    → IsApart s.events
    → ((e : Event) → matches_event_filter e g ≡ matches_event_filter e f)
    → get_elem? (filter_from f cursor s) i ≡ some last
    → filter_from g (some (last.starts_at, last.id)) s ≡ drop (suc i) (filter_from f cursor s)
unfolding filter_from
filter_from-next f g cursor s i last apart same e =
    let wanted = keep (is_wanted f cursor) s.events in
    let apart_wanted = IsApart-keep (is_wanted f cursor) s.events apart in
    let passes : is_past cursor last ≡ true =
      (&&_true (is_past cursor last) (matches_event_filter last f) (
        All-get_elem? (λ x. is_wanted f cursor x ≡ true) i (sort_events wanted) last
          (All-sort_events (λ x. is_wanted f cursor x ≡ true) wanted
            (All-keep_holds (is_wanted f cursor) s.events))
          e)).0 in
    ap sort_events (
      keep-keep (is_wanted g (some (last.starts_at, last.id))) (is_ahead last) (is_wanted f cursor)
        s.events
        (λ x. rw (same x) (
          narrow (is_ahead last x) (is_past cursor x) (matches_event_filter x f)
            (is_past-behind cursor x last passes))))
    ∙ keep-sort_events (is_ahead last) wanted apart_wanted
    ∙ keep-is_ahead i (sort_events wanted) last (sort_events-IsOrdered wanted apart_wanted) e

length-insert_event : (e : Event) (xs : List Event) → length (insert_event e xs) ≡ suc (length xs)
unfolding insert_event
length-insert_event e [] = refl
length-insert_event e (x ∷ xs) = ground (arith, length-insert_event e xs)

pub length-sort_events : (xs : List Event) → length (sort_events xs) ≡ length xs
unfolding sort_events
length-sort_events [] = refl
length-sort_events (x ∷ xs) =
    omega (arith, length-insert_event x (sort_events xs), length-sort_events xs)

pub length-keep : (q : Event → Bool) (xs : List Event) → length (keep q xs) ≤ length xs
length-keep q [] = omega arith
length-keep q (x ∷ xs) = ground (arith, length-keep q xs)
