-- ===== src/Store/Participations/Unique.antt =====
-- memstore.go, participationsRepo: one record for each event and user, each with its own ID.
use aso_bell.Common.{
  ℕ, suc, ◌+◌, ◌≤◌, ◌≡◌, refl, Bool, false, ◌&&◌, ◌||◌, List, [], ◌∷◌, ◌++◌, none, arith,
  Bool-cases, Option-cases, inl, inr, ◌∙◌,
}
use aso_bell.Common.Int.{ℤ}
use aso_bell.Common.Lists.{All, All-append, All-mono, find, update}
use aso_bell.Common.Text.{Text, text_eq, text_eq_iff}
use aso_bell.Domain.Participation.{Participation, Status}
use aso_bell.Store.State.{Store, new, hex_id}
use aso_bell.Store.State.Ids.{hex_id-injective}
use aso_bell.Store.Participations.{
  ParticipationUpsert, is_of, created_from, upserted, find_participation, upsert, has_id,
  with_status, set_status,
}

-- Two records with one ID, or of one event and user.
abbrev pub same_key : Participation → Participation → Bool
same_key p q = has_id p.id q || is_of p.event_id p.chat_user_id q

abbrev pub IsUnique : List Participation → Type 0
IsUnique [] = Unit
IsUnique (p ∷ ps) = All (λ q. same_key p q ≡ false) ps × IsUnique ps

abbrev pub IsNumbered : ℕ → Text → Type 0
IsNumbered seq id = (n : ℕ) × (id ≡ hex_id n) × (n ≤ seq)

pub record IsRoster (s : Store) : Type 0 where
  pub unique : IsUnique s.participations
  pub numbered : All (λ p. IsNumbered s.seq p.id) s.participations

-- What every write keeps: the ID, the event and the user.
abbrev KeepsKey : (Participation → Participation) → Type 0
KeepsKey f =
    (p : Participation)
    → (((f p).id ≡ p.id) × ((f p).event_id ≡ p.event_id) × ((f p).chat_user_id ≡ p.chat_user_id))

All-update_key :
    (P : Text → Text → Text → Type 0) (t : Participation → Bool) (f : Participation → Participation)
    (ps : List Participation)
    → KeepsKey f
    → All (λ q. P q.id q.event_id q.chat_user_id) ps
    → All (λ q. P q.id q.event_id q.chat_user_id) (update t f ps)
All-update_key P t f [] k h = tt
All-update_key P t f (p ∷ ps) k h = elim (Bool-cases (t p)) [
  | inl e ↦ rw (e, (k p).0, (k p).1, (k p).2) h
  | inr e ↦ rw e (h.0, All-update_key P t f ps k h.1)
]

update-IsUnique :
    (t : Participation → Bool) (f : Participation → Participation) (ps : List Participation)
    → KeepsKey f
    → IsUnique ps
    → IsUnique (update t f ps)
update-IsUnique t f [] k h = tt
update-IsUnique t f (p ∷ ps) k h = elim (Bool-cases (t p)) [
  | inl e ↦ rw (e, (k p).0, (k p).1, (k p).2) h
  | inr e ↦ rw e (
    All-update_key
        (λ i ev u. (text_eq i p.id || (text_eq ev p.event_id && text_eq u p.chat_user_id)) ≡ false)
        t f ps k h.0,
    update-IsUnique t f ps k h.1,
  )
]

update-IsRoster :
    (t : Participation → Bool) (f : Participation → Participation) (s : Store)
    → KeepsKey f
    → IsRoster s
    → IsRoster (record s { participations = update t f s.participations })
update-IsRoster t f s k r = record {
  unique = update-IsUnique t f s.participations k r.unique;
  numbered = All-update_key (λ i ev u. IsNumbered s.seq i) t f s.participations k r.numbered;
}

next_id_fresh : (seq : ℕ) (id : Text) → IsNumbered seq id → text_eq (hex_id (suc seq)) id ≡ false
next_id_fresh seq id (n, e, le) = elim (Bool-cases (text_eq (hex_id (suc seq)) id)) [
  | inr f ↦ f
  | inl t ↦
      let same : hex_id (suc seq) ≡ hex_id n = (text_eq_iff (hex_id (suc seq)) id).0 t ∙ e in
      absurd (omega (arith, hex_id-injective (suc seq) n same))
]

none_found :
    (event_id user : Text) (ps : List Participation)
    → find (is_of event_id user) ps ≡ none
    → All (λ q. is_of event_id user q ≡ false) ps
none_found event_id user [] h = tt
none_found event_id user (p ∷ ps) h = (ground arith, none_found event_id user ps (ground arith))

IsUnique-append :
    (ps : List Participation) (p : Participation)
    → IsUnique ps
    → All (λ q. same_key q p ≡ false) ps
    → IsUnique (ps ++ p ∷ [])
IsUnique-append [] p h f = (tt, tt)
IsUnique-append (q ∷ ps) p h f =
    (All-append (λ r. same_key q r ≡ false) ps (p ∷ []) h.0 (f.0, tt), IsUnique-append ps p h.1 f.1)

flip_key :
    (i : ParticipationUpsert) (seq : ℕ) (ps : List Participation)
    → All (λ q. IsNumbered seq q.id) ps
    → All (λ q. is_of i.event_id i.chat_user_id q ≡ false) ps
    → All (λ q. same_key q (created_from i (hex_id (suc seq))) ≡ false) ps
flip_key i seq [] n f = tt
flip_key i seq (q ∷ ps) n f = (
  ground (
    arith,
    next_id_fresh seq q.id n.0,
    text_eq_iff q.event_id i.event_id,
    text_eq_iff i.event_id q.event_id,
    text_eq_iff q.chat_user_id i.chat_user_id,
    text_eq_iff i.chat_user_id q.chat_user_id,
  ),
  flip_key i seq ps n.1 f.1,
)

IsNumbered-suc : (seq : ℕ) (id : Text) → IsNumbered seq id → IsNumbered (suc seq) id
IsNumbered-suc seq id (n, e, le) = (n, e, omega arith)

-- Upsert keeps one record for each event and user, with distinct IDs of the sequence.
pub upsert-IsRoster : (i : ParticipationUpsert) (s : Store) → IsRoster s → IsRoster (upsert i s).1
unfolding upsert
upsert-IsRoster i s r = elim (Option-cases (find_participation i.event_id i.chat_user_id s)) [
  | inr (p, e) ↦
      rw (e, upsert)
        (update-IsRoster (is_of i.event_id i.chat_user_id) (upserted i) s (λ q. (refl, refl, refl))
          r)
  | inl e ↦
      rw (e, upsert)
        record {
          unique = IsUnique-append s.participations (created_from i (hex_id (suc s.seq))) r.unique (
              flip_key i s.seq s.participations r.numbered
                (none_found i.event_id i.chat_user_id s.participations e));
          numbered =
              All-append (λ p. IsNumbered (suc s.seq) p.id) s.participations _
                (All-mono (λ p. IsNumbered s.seq p.id) (λ p. IsNumbered (suc s.seq) p.id)
                  s.participations (λ p. IsNumbered-suc s.seq p.id) r.numbered)
                ((suc s.seq, refl, omega arith), tt);
        }
]

-- SetStatus keeps one record for each event and user, with distinct IDs of the sequence.
pub set_status-IsRoster :
    (id : Text) (st : Status) (now : ℤ) (s : Store)
    → IsRoster s
    → IsRoster (set_status id st now s).1
unfolding set_status
set_status-IsRoster id st now s r = elim (Option-cases (find (has_id id) s.participations)) [
  | inl e ↦ rw (e, set_status) r
  | inr (p, e) ↦
      rw (e, set_status)
        (update-IsRoster (has_id id) (with_status st now) s (λ q. (refl, refl, refl)) r)
]

-- A method of participationsRepo that writes, or methods of other repositories that take so many
-- IDs of the sequence.
pub data RosterOp : Type 0 where
  op_upsert : ParticipationUpsert → RosterOp
  op_set_status : Text → Status → ℤ → RosterOp
  op_others : ℕ → RosterOp

abbrev perform : RosterOp → Store → Store
perform (op_upsert i) s = (upsert i s).1
perform (op_set_status id st now) s = (set_status id st now s).1
perform (op_others n) s = record s { seq = s.seq + n }

abbrev pub perform_all : List RosterOp → Store → Store
perform_all [] s = s
perform_all (op ∷ ops) s = perform_all ops (perform op s)

IsNumbered-add : (n seq : ℕ) (id : Text) → IsNumbered seq id → IsNumbered (seq + n) id
IsNumbered-add n seq id (m, e, le) = (m, e, omega arith)

perform-IsRoster : (op : RosterOp) (s : Store) → IsRoster s → IsRoster (perform op s)
perform-IsRoster (op_upsert i) s r = upsert-IsRoster i s r
perform-IsRoster (op_set_status id st now) s r = set_status-IsRoster id st now s r
perform-IsRoster (op_others n) s r = record {
  unique = r.unique;
  numbered =
      All-mono (λ p. IsNumbered s.seq p.id) (λ p. IsNumbered (s.seq + n) p.id) s.participations
        (λ p. IsNumbered-add n s.seq p.id) r.numbered;
}

perform_all_from : (ops : List RosterOp) (s : Store) → IsRoster s → IsRoster (perform_all ops s)
perform_all_from [] s r = r
perform_all_from (op ∷ ops) s r = perform_all_from ops (perform op s) (perform-IsRoster op s r)

-- After any sequence of Upsert, SetStatus and methods of other repositories from New, there is at
-- most one record for each event and user, and the records have different IDs of the sequence.
pub reachable-IsRoster : (ops : List RosterOp) → IsRoster (perform_all ops new)
unfolding new
reachable-IsRoster ops = perform_all_from ops new record { unique = tt; numbered = tt }
