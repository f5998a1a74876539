-- ===== src/Pins/Forced.antt =====
-- What a forced talk is, in apps/hub-server/src/services/pins.ts.
use conference_operator.Common.{
  ℕ, ◌≡◌, ◌≢◌, inl, inr, sym, ap, ◌∙◌, String, true, false, Option, none, some, List, [], ◌∷◌,
  arith, str_eq, eq_iff, find?, Bool-cases, Option-cases, In,
}
use mathlib.Core.Option
use conference_operator.Common.Maps.{get, set, get-set}
use conference_operator.Schedule.{talk}
use conference_operator.Lifecycle.{ended}
use conference_operator.Room.{SessionStatuses}
use conference_operator.Pins.{
  Pins, Pin, ServedSession, get_pin, set_pin, pin_refusal, pin_talk, is_pinned_on,
}

find-In :
    (id : String) (sessions : List ServedSession) (s : ServedSession)
    → find? (λ x. str_eq x.id id) sessions ≡ some s
    → In s sessions × (s.id ≡ id)
find-In id [] s h = absurd (ground arith)
find-In id (x ∷ sessions) s h = elim (Bool-cases (str_eq x.id id)) [
  | inl here ↦
      let e : x ≡ s = first here h in
      (inl (sym e), ap (λ (y : ServedSession). y.id) (sym e) ∙ same here)
  | inr there ↦ let (m, e) = find-In id sessions s (later there h) in (inr m, e)
]
  where
    same : str_eq x.id id ≡ true → x.id ≡ id
    same here = ground (arith, eq_iff x.id id)

    first : str_eq x.id id ≡ true → find? (λ y. str_eq y.id id) (x ∷ sessions) ≡ some s → x ≡ s
    first here k = ground arith

    later :
        str_eq x.id id ≡ false
        → find? (λ y. str_eq y.id id) (x ∷ sessions) ≡ some s
        → find? (λ y. str_eq y.id id) sessions ≡ some s
    later there k = ground arith

-- What a talk must be to be forced in a room.
pub record IsForcible (sessions : List ServedSession) (statuses : SessionStatuses)
    (room_id id : String) : Type 0 where
  pub session : ServedSession
  pub served : In session sessions
  pub named : session.id ≡ id
  pub is_a_talk : session.kind ≡ talk
  pub held : session.room_id ≡ some room_id
  pub open_still : statuses id ≢ some ended

pin_refusal-none :
    (sessions : List ServedSession) (statuses : SessionStatuses) (room_id id : String)
    → pin_refusal sessions statuses room_id id ≡ none
    → IsForcible sessions statuses room_id id
unfolding pin_refusal
pin_refusal-none sessions statuses room_id id h =
    elim (Option-cases (find? (λ s. str_eq s.id id) sessions)) [
      | inl unknown ↦ absurd (ground (arith, unknown))
      | inr (s, found) ↦
          let (m, e) = find-In id sessions s found in
          record {
            session = s;
            served = m;
            named = e;
            is_a_talk = ground (arith, found);
            held = elim (Option-cases s.room_id) [
              | inl nowhere ↦ absurd (ground (arith, found))
              | inr (r, e') ↦ e' ∙ ap some (ground (arith, found, eq_iff r room_id))
            ];
            open_still = λ k. ground (arith, found);
          }
    ]

pinned-eq : (o : Option String) (id : String) → is_pinned_on o id ≡ true → o ≡ some id
pinned-eq none id h = absurd (ground arith)
pinned-eq (some pinned) id h = ap some (ground (arith, eq_iff pinned id))

-- A talk that is forced without an error is the one its room reads as forced afterwards, and it is
-- a talk of the served programme, held in that room, that has not ended.
pub pin_talk-get_pin :
    (sessions : List ServedSession) (statuses : SessionStatuses) (room_id id author : String)
    (now_ms : ℕ) (p q : Pins)
    → pin_talk (some sessions) statuses room_id (some id) author now_ms p ≡ inr q
    → (get_pin room_id q ≡ some id) × IsForcible sessions statuses room_id id
unfolding pin_talk get_pin set_pin
pin_talk-get_pin sessions statuses room_id id author now_ms p q h =
    elim (Option-cases (pin_refusal sessions statuses room_id id)) [
      | inr (e, refused) ↦ absurd (ground (arith, refused))
      | inl free ↦ (
        elim (Bool-cases (is_pinned_on (get_pin room_id p) id)) [
          | inl already ↦
              let same : p ≡ q = ground (arith, free, already) in
              ap (get_pin room_id) (sym same) ∙ pinned-eq (get_pin room_id p) id already
          | inr new ↦
              let row : Pin = record { session_id = id; pinned_by = author; pinned_at = now_ms } in
              let now : set room_id row p.pins ≡ q.pins = ground (arith, free, new) in
              ap (Option.map (λ (x : Pin). x.session_id))
                (ap (get room_id) (sym now) ∙ get-set room_id row p.pins)
        ],
        pin_refusal-none sessions statuses room_id id free,
      )
    ]
