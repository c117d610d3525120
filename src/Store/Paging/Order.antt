-- ===== src/Store/Paging/Order.antt =====
-- memstore.go, the sort of filterEvents: the order is strict and total on events of different keys,
-- and sorting commutes with a filter.
use aso_bell.Common.{
  ◌≡◌, ◌≢◌, refl, sym, ap, Bool, true, false, List, [], ◌∷◌, arith, Bool-cases, inl, inr,
}
use aso_bell.Common.Lists.{All, All-mono, All-keep, keep}
use aso_bell.Common.Text.{Text}
use aso_bell.Domain.Event.{Event}
use aso_bell.Store.Paging.{text_lt, is_ahead, insert_event, sort_events}

text_lt_asym : (a b : Text) → text_lt a b ≡ true → text_lt b a ≡ false
unfolding text_lt
text_lt_asym [] [] h = refl
text_lt_asym [] (y ∷ ys) h = refl
text_lt_asym (x ∷ xs) [] h = ground arith
text_lt_asym (x ∷ xs) (y ∷ ys) h = ground (arith, text_lt_asym xs ys)

pub text_lt_trans : (a b c : Text) → text_lt a b ≡ true → text_lt b c ≡ true → text_lt a c ≡ true
unfolding text_lt
text_lt_trans [] [] c h k = ground arith
text_lt_trans [] (y ∷ ys) [] h k = ground arith
text_lt_trans [] (y ∷ ys) (z ∷ zs) h k = refl
text_lt_trans (x ∷ xs) [] c h k = ground arith
text_lt_trans (x ∷ xs) (y ∷ ys) [] h k = ground arith
text_lt_trans (x ∷ xs) (y ∷ ys) (z ∷ zs) h k = ground (arith, text_lt_trans xs ys zs)

text_lt_total : (a b : Text) → text_lt a b ≡ false → text_lt b a ≡ false → a ≡ b
unfolding text_lt
text_lt_total [] [] h k = refl
text_lt_total [] (y ∷ ys) h k = ground arith
text_lt_total (x ∷ xs) [] h k = ground arith
text_lt_total (x ∷ xs) (y ∷ ys) h k = ground (arith, text_lt_total xs ys)

pub is_ahead_asym : (a b : Event) → is_ahead a b ≡ true → is_ahead b a ≡ false
is_ahead_asym a b h = ground (arith, text_lt_asym b.id a.id)

pub is_ahead_irrefl : (a : Event) → is_ahead a a ≡ false
is_ahead_irrefl a = elim (Bool-cases (is_ahead a a)) [ inl t ↦ is_ahead_asym a a t | inr f ↦ f ]

pub is_ahead_trans :
    (a b c : Event) → is_ahead a b ≡ true → is_ahead b c ≡ true → is_ahead a c ≡ true
is_ahead_trans a b c h k = ground (arith, text_lt_trans c.id b.id a.id)

is_ahead_total : (a b : Event) → a.id ≢ b.id → is_ahead a b ≡ false → is_ahead b a ≡ true
is_ahead_total a b d h = ground (arith, text_lt_total b.id a.id)

-- Every event comes before those behind it.
abbrev pub IsOrdered : List Event → Type 0
IsOrdered [] = Unit
IsOrdered (x ∷ xs) = All (λ y. is_ahead x y ≡ true) xs × IsOrdered xs

-- No two events have one ID.
abbrev pub IsApart : List Event → Type 0
IsApart [] = Unit
IsApart (x ∷ xs) = All (λ y. x.id ≢ y.id) xs × IsApart xs

pub All-insert_event :
    (P : Event → Type 0) (e : Event) (xs : List Event) → P e → All P xs → All P (insert_event e xs)
unfolding insert_event
All-insert_event P e [] h k = (h, tt)
All-insert_event P e (x ∷ xs) h k = elim (Bool-cases (is_ahead x e)) [
  | inl t ↦ rw t (k.0, All-insert_event P e xs h k.1)
  | inr f ↦ rw f (h, k)
]

pub All-sort_events : (P : Event → Type 0) (xs : List Event) → All P xs → All P (sort_events xs)
unfolding sort_events
All-sort_events P [] h = tt
All-sort_events P (x ∷ xs) h = All-insert_event P x (sort_events xs) h.0 (All-sort_events P xs h.1)

-- What is behind an event is behind those before it.
ahead-All :
    (e x : Event) (xs : List Event)
    → is_ahead e x ≡ true
    → All (λ y. is_ahead x y ≡ true) xs
    → All (λ y. is_ahead e y ≡ true) xs
ahead-All e x xs h =
    All-mono (λ y. is_ahead x y ≡ true) (λ y. is_ahead e y ≡ true) xs (λ y. is_ahead_trans e x y h)

insert_event-IsOrdered :
    (e : Event) (xs : List Event)
    → All (λ y. e.id ≢ y.id) xs
    → IsOrdered xs
    → IsOrdered (insert_event e xs)
unfolding insert_event
insert_event-IsOrdered e [] d h = (tt, tt)
insert_event-IsOrdered e (x ∷ xs) d h = elim (Bool-cases (is_ahead x e)) [
  | inl t ↦
      rw t (
        All-insert_event (λ y. is_ahead x y ≡ true) e xs t h.0,
        insert_event-IsOrdered e xs d.1 h.1,
      )
  | inr f ↦
      let first = is_ahead_total x e (λ q. d.0 (sym q)) f in
      rw f ((first, ahead-All e x xs first h.0), h)
]

pub sort_events-IsOrdered : (xs : List Event) → IsApart xs → IsOrdered (sort_events xs)
unfolding sort_events
sort_events-IsOrdered [] h = tt
sort_events-IsOrdered (x ∷ xs) h =
    insert_event-IsOrdered x (sort_events xs) (All-sort_events (λ y. x.id ≢ y.id) xs h.0)
      (sort_events-IsOrdered xs h.1)

-- An event that comes before all of a list is put at its head.
insert_event-head :
    (e : Event) (xs : List Event) → All (λ y. is_ahead e y ≡ true) xs → insert_event e xs ≡ e ∷ xs
unfolding insert_event
insert_event-head e [] h = refl
insert_event-head e (x ∷ xs) h = rw (is_ahead_asym e x h.0) refl

keep-insert_event :
    (q : Event → Bool) (e : Event) (xs : List Event)
    → All (λ y. e.id ≢ y.id) xs
    → IsOrdered xs
    → q e ≡ true
    → keep q (insert_event e xs) ≡ insert_event e (keep q xs)
unfolding insert_event
keep-insert_event q e [] d h t = rw t refl
keep-insert_event q e (x ∷ xs) d h t = elim (Bool-cases (is_ahead x e)) [
  | inl a ↦ elim (Bool-cases (q x)) [
    | inl b ↦ rw (a, b, a) (ap (λ ys. x ∷ ys) (keep-insert_event q e xs d.1 h.1 t))
    | inr b ↦ rw (a, b) (keep-insert_event q e xs d.1 h.1 t)
  ]
  | inr a ↦
      let first = is_ahead_total x e (λ s. d.0 (sym s)) a in
      let behind : All (λ y. is_ahead e y ≡ true) (x ∷ xs) = (first, ahead-All e x xs first h.0) in
      rw (a, t)
        (sym (
          insert_event-head e (keep q (x ∷ xs))
            (All-keep (λ y. is_ahead e y ≡ true) q (x ∷ xs) behind)))
]

keep-insert_event_out :
    (q : Event → Bool) (e : Event) (xs : List Event)
    → q e ≡ false
    → keep q (insert_event e xs) ≡ keep q xs
unfolding insert_event
keep-insert_event_out q e [] f = rw f refl
keep-insert_event_out q e (x ∷ xs) f = ground (arith, keep-insert_event_out q e xs)

-- A filter may come before the sort or behind it.
pub keep-sort_events :
    (q : Event → Bool) (xs : List Event)
    → IsApart xs
    → sort_events (keep q xs) ≡ keep q (sort_events xs)
unfolding sort_events
keep-sort_events q [] h = refl
keep-sort_events q (x ∷ xs) h = elim (Bool-cases (q x)) [
  | inl t ↦
      rw (t, keep-sort_events q xs h.1)
        (sym (
          keep-insert_event q x (sort_events xs) (All-sort_events (λ y. x.id ≢ y.id) xs h.0)
            (sort_events-IsOrdered xs h.1) t))
  | inr f ↦ rw (f, keep-sort_events q xs h.1) (sym (keep-insert_event_out q x (sort_events xs) f))
]
