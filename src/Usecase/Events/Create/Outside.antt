-- ===== src/Usecase/Events/Create/Outside.antt =====
-- usecase/event.go, provision: its calls keep the event in the store and return it.
use aso_bell.Common.{
  ℕ, zero, suc, ◌≡◌, refl, sym, ◌∙◌, true, ◌||◌, List, [], ◌∷◌, Option, none, some, is_some,
  Bool-cases, Option-cases, inl, inr, subst,
}
use aso_bell.Common.Lists.{is_empty, find, update}
use aso_bell.Common.Text.{Text, text_eq}
use aso_bell.Domain.Errors.{Error, Result, ok}
use aso_bell.Domain.Event.{Event, ChannelRef, MessageRef, MessageRefs}
use aso_bell.Domain.Workspace.{Workspace}
use aso_bell.Store.Events.{find_event, has_id, saved}
use aso_bell.Store.Events
use aso_bell.Usecase.Effects.{
  Env, World, Call, Reply, M, pure, continue, ◌>>=◌, writes, now, call, pin, load_location,
  clock_now, create_private_channel, workspace_ref_of,
}
use aso_bell.Usecase.Events.Create.{
  provision, or_stop, create_channel, try_names, month_day, base_name, post_announcements,
  post_recruit, posted, is_taken, attempt_name, next_name, stop_or, channel_name_attempts,
}

-- The call keeps the event with the ID in the store.
abbrev IsKept {ℓ} : Text → {A : Type ℓ} → M A → Type 0
IsKept id m =
    (env : Env) (w : World)
    → is_some (find_event id w.store) ≡ true
    → is_some (find_event id (m env w).1.store) ≡ true

-- A call that leaves the store alone.
abbrev IsOutside {ℓ} : {A : Type ℓ} → M A → Type 0
IsOutside m = (env : Env) (w : World) → (m env w).1.store ≡ w.store

outside-IsKept {ℓ} : (id : Text) {A : Type ℓ} (m : M A) → IsOutside m → IsKept id m
outside-IsKept id m o env w h = subst (λ s. is_some (find_event id s) ≡ true) (sym (o env w)) h

bind-IsOutside {ℓ κ} :
    {A : Type ℓ} {B : Type κ} (m : M A) (k : A → M B)
    → IsOutside m
    → ((a : A) → IsOutside (k a))
    → IsOutside (m >>= k)
bind-IsOutside {A = A} m k om ok_ env w = after (m env w).0 (m env w).1 ∙ om env w
  where
    after : (r : Result A) (w1 : World) → (continue k env r w1).1.store ≡ w1.store
    after (ok a) w1 = ok_ a env w1
    after (Result.failed e) w1 = refl

bind-IsKept {ℓ κ} :
    (id : Text) {A : Type ℓ} {B : Type κ} (m : M A) (k : A → M B)
    → IsKept id m
    → ((a : A) → IsKept id (k a))
    → IsKept id (m >>= k)
bind-IsKept id {A = A} m k km kk env w h = after (m env w).0 (m env w).1 (km env w h)
  where
    after :
        (r : Result A) (w1 : World)
        → is_some (find_event id w1.store) ≡ true
        → is_some (find_event id (continue k env r w1).1.store) ≡ true
    after (ok a) w1 h1 = kk a env w1 h1
    after (Result.failed e) w1 h1 = h1

call-IsOutside : (c : Call) → IsOutside (call c)
unfolding call
call-IsOutside c env w = refl

pin-IsOutside : (ws : Workspace) (ref : MessageRef) → IsOutside (pin ws ref)
unfolding pin
pin-IsOutside ws ref env w = refl

-- The call of an attempt.
abbrev named : Workspace → Event → Text → ℕ → Call
named ws ev base number = create_private_channel (workspace_ref_of ws) record {
  name = attempt_name ws base number;
  topic = ev.title;
  member_ids = ev.organizer.user_id ∷ [];
  category_id = ws.settings.discord.event_category_id;
}

try_names-IsOutside :
    (ws : Workspace) (ev : Event) (base : Text) (number left : ℕ) (last : Error)
    → IsOutside (try_names ws ev base number left last)
unfolding try_names call
try_names-IsOutside ws ev base number zero last env w = refl
try_names-IsOutside ws ev base number (suc left) last env w =
    tried (try_names-IsOutside ws ev base (suc number) left)
      (env.answer w.calls (named ws ev base number))
      (record w { calls = named ws ev base number ∷ w.calls })
  where
    tried :
        ((e : Error) → IsOutside (try_names ws ev base (suc number) left e))
        → (r : Result Reply) (w1 : World)
        → (next_name (try_names ws ev base (suc number) left) r env w1).1.store ≡ w1.store
    tried later (ok reply) w1 = refl
    tried later (Result.failed e) w1 = elim (Bool-cases (is_taken e)) [
      | inl t ↦ rw t (later e env w1)
      | inr t ↦ rw t refl
    ]

load_location-IsOutside : (name : Text) → IsOutside (load_location name)
load_location-IsOutside name env w = elim (Option-cases (env.load_location name)) [
  | inl e ↦ rw (e, load_location) refl
  | inr (loc, e) ↦ rw (e, load_location) refl
]

create_channel-IsOutside : (ws : Workspace) (ev : Event) → IsOutside (create_channel ws ev)
unfolding create_channel
create_channel-IsOutside ws ev =
    bind-IsOutside (month_day ev.starts_at ws.settings.timezone) _
      (bind-IsOutside (load_location ws.settings.timezone) _
        (load_location-IsOutside ws.settings.timezone) (λ loc env w. refl))
      (λ date.
        bind-IsOutside (base_name ws ev date)
          (λ base. try_names ws ev base 0 channel_name_attempts Error.name_taken) (λ env w. refl)
          (λ base. try_names-IsOutside ws ev base 0 channel_name_attempts Error.name_taken))

posted-IsOutside :
    (ws : Workspace) (channel_id : Text) (ev : Event) → IsOutside (posted ws channel_id ev)
posted-IsOutside ws channel_id ev = bind-IsOutside (call _) _ (call-IsOutside _) (λ r env w. refl)

post_recruit-IsOutside : (ws : Workspace) (ev : Event) → IsOutside (post_recruit ws ev)
unfolding post_recruit
post_recruit-IsOutside ws ev env w =
    elim (Bool-cases (
      is_empty ws.settings.recruit_channel_id
      || text_eq ws.settings.recruit_channel_id ev.origin_channel_id)) [
        | inl e ↦ rw e refl
        | inr e ↦ rw e (
            bind-IsOutside (posted ws ws.settings.recruit_channel_id ev) (λ ref. pure (some ref))
              (posted-IsOutside ws ws.settings.recruit_channel_id ev) (λ ref env w. refl) env w)
      ]

post_announcements-IsOutside : (ws : Workspace) (ev : Event) → IsOutside (post_announcements ws ev)
unfolding post_announcements
post_announcements-IsOutside ws ev =
    bind-IsOutside (posted ws ev.origin_channel_id ev) _
      (posted-IsOutside ws ev.origin_channel_id ev)
      (λ first. bind-IsOutside (pin ws first) _ (pin-IsOutside ws first) (λ u.
        bind-IsOutside (post_recruit ws ev) _ (post_recruit-IsOutside ws ev) (λ recruit.
          bind-IsOutside (call _) _ (call-IsOutside _) (λ r.
            bind-IsOutside (pin ws r.message) _ (pin-IsOutside ws r.message) (λ v env w. refl)))))

find_update_some :
    (id jd : Text) (f : Event → Event) (es : List Event)
    → ((e : Event) → (f e).id ≡ e.id)
    → is_some (find (has_id id) es) ≡ true
    → is_some (find (has_id id) (update (has_id jd) f es)) ≡ true
find_update_some id jd f [] same h = h
find_update_some id jd f (e ∷ es) same h = elim (Bool-cases (has_id id e)) [
  | inl m ↦ elim (Bool-cases (has_id jd e)) [
    | inl n ↦ rw (n, same e, m) refl
    | inr n ↦ rw (n, m) refl
  ]
  | inr m ↦ elim (Bool-cases (has_id jd e)) [
    | inl n ↦ rw (n, same e, m) (rw m at h)
    | inr n ↦ rw (n, m) (find_update_some id jd f es same (rw m at h))
  ]
]

update_event-IsKept :
    (id jd : Text) (f : Event → Event)
    → ((e : Event) → (f e).id ≡ e.id)
    → IsKept id (writes (Events.update_event jd f))
update_event-IsKept id jd f same env w h = elim (Option-cases (find_event jd w.store)) [
  | inl e ↦ rw (e, Events.update_event) h
  | inr (old, e) ↦ rw (e, Events.update_event) (find_update_some id jd f w.store.events same h)
]

-- The event with its error: still the one that provision was given.
abbrev pub IsSame : Event → Result (Event × Option Error) → Type 0
IsSame ev (ok (e, err)) = (e.id ≡ ev.id) × (e.status ≡ ev.status)
IsSame ev (Result.failed e) = Unit

-- The call keeps the event in the store and returns it.
abbrev pub Carries : Event → M (Event × Option Error) → Type 0
Carries ev m =
    (env : Env) (w : World)
    → is_some (find_event ev.id w.store) ≡ true
    → (is_some (find_event ev.id (m env w).1.store) ≡ true) × IsSame ev (m env w).0

or_stop-Carries {ℓ} :
    {A : Type ℓ} (ev now_ev : Event) (m : M A) (next : A → M (Event × Option Error))
    → now_ev.id ≡ ev.id
    → now_ev.status ≡ ev.status
    → IsKept ev.id m
    → ((a : A) → Carries ev (next a))
    → Carries ev (or_stop now_ev m next)
or_stop-Carries {A = A} ev now_ev m next id status kept later env w h =
    after (m env w).0 (m env w).1 (kept env w h)
  where
    after :
        (r : Result A) (w1 : World)
        → is_some (find_event ev.id w1.store) ≡ true
        → let end = stop_or now_ev next r env w1 in
          (is_some (find_event ev.id end.1.store) ≡ true) × IsSame ev end.0
    after (ok a) w1 h1 = later a env w1 h1
    after (Result.failed e) w1 h1 = (h1, (id, status))

set_channel-IsKept :
    (id : Text) (ref : ChannelRef) → IsKept id (do at ← now; writes (Events.set_channel id ref at))
unfolding now Events.set_channel
set_channel-IsKept id ref env w h =
    update_event-IsKept id id (λ e. record e { channel = ref; updated_at = env.clock w.calls })
      (λ e. refl) env (record w { calls = clock_now ∷ w.calls }) h

set_messages-IsKept :
    (id : Text) (refs : MessageRefs)
    → IsKept id (do at ← now; writes (Events.set_messages id refs at))
unfolding now Events.set_messages
set_messages-IsKept id refs env w h =
    update_event-IsKept id id (λ e. record e { messages = refs; updated_at = env.clock w.calls })
      (λ e. refl) env (record w { calls = clock_now ∷ w.calls }) h

pub provision-Carries : (ws : Workspace) (ev : Event) → Carries ev (provision ws ev)
unfolding provision
provision-Carries ws ev =
    or_stop-Carries ev ev (create_channel ws ev) _ refl refl
      (outside-IsKept ev.id (create_channel ws ev) (create_channel-IsOutside ws ev))
      (λ channel.
        let ref : ChannelRef = record {
          channel_id = channel.id;
          name = channel.name;
          archived = channel.archived;
        } in
        let ev1 : Event = record ev { channel = ref } in
        or_stop-Carries ev ev1 (do at ← now; writes (Events.set_channel ev.id ref at)) _ refl refl
          (set_channel-IsKept ev.id ref)
          (λ u.
            or_stop-Carries ev ev1 (post_announcements ws ev1) _ refl refl
              (outside-IsKept ev.id (post_announcements ws ev1)
                (post_announcements-IsOutside ws ev1))
              (λ messages.
                let ev2 : Event = record ev1 { messages = messages } in
                or_stop-Carries ev ev2 (do at ← now; writes (Events.set_messages ev.id messages at))
                  (λ v. pure (ev2, none)) refl refl (set_messages-IsKept ev.id messages)
                  (λ v env w h. (h, (refl, refl))))))
