-- ===== src/Room/Overrun.antt =====
-- Overruns: the state `depassement` of packages/room-state/src/state.ts, and the scheduling rule.
use conference_operator.Common.{
  ℕ, ◌≤◌, ◌≡◌, ◌↔◌, String, true, false, Option, some, List, arith, In, or_else,
}
use conference_operator.Schedule.{talk, Slot, Placed, effective_end_at}
use conference_operator.Schedule.Search.{IsAt, some_of, some-true, filter-mem, some_from}
use conference_operator.Lifecycle.{running, scheduled}
use conference_operator.Room.{
  SessionStatuses, depassement, pinned_slot, overruns, state_of_slots, same_slot, AutoEndSetting,
  should_auto_end, to_auto_end,
}

-- A talk that somebody launched, that is not the forced one, and whose slot is over.
pub record IsOverrunning (slots : List Slot) (now_ms : ℕ) (statuses : SessionStatuses)
    (pinned : Option Placed) (p : Placed) : Type 0 where
  pub at : IsAt slots p
  pub launched : statuses p.slot.id ≡ some running
  pub is_a_talk : p.slot.kind ≡ talk
  pub unforced : same_slot p pinned ≡ false
  pub end_ms : ℕ
  pub end_known : effective_end_at slots p.place ≡ some end_ms
  pub end_past : end_ms ≤ now_ms

module _ (slots : List Slot) (now_ms : ℕ) (statuses : SessionStatuses) where
  overruns-true :
      (pinned : Option Placed) (p : Placed)
      → overruns slots now_ms statuses pinned p ≡ true
      → (statuses p.slot.id ≡ some running)
        × (p.slot.kind ≡ talk)
        × (same_slot p pinned ≡ false)
        × ((e : ℕ) × (effective_end_at slots p.place ≡ some e) × (e ≤ now_ms))
  unfolding overruns
  overruns-true pinned p h = ground arith

  overruns_of :
      (pinned : Option Placed) (p : Placed)
      → IsOverrunning slots now_ms statuses pinned p
      → overruns slots now_ms statuses pinned p ≡ true
  unfolding overruns
  overruns_of pinned p h =
      ground (arith, h.launched, h.is_a_talk, h.unforced, h.end_known, h.end_past)

  state_of_slots-some_from :
      (pinned_id : Option String)
      → state_of_slots slots now_ms statuses pinned_id ≡ depassement
      → some_from 0 (overruns slots now_ms statuses (pinned_slot slots statuses pinned_id)) slots
        ≡ true
  unfolding state_of_slots
  state_of_slots-some_from pinned_id h = ground arith

  -- A room is in overrun exactly when one of its slots is a launched talk, other than the forced
  -- one, whose effective end is known and past.
  pub depassement_iff :
      (pinned_id : Option String)
      → (state_of_slots slots now_ms statuses pinned_id ≡ depassement) ↔ (
          (p : Placed) × IsOverrunning slots now_ms statuses
            (pinned_slot slots statuses pinned_id)
            p)
  unfolding state_of_slots
  depassement_iff pinned_id = (to, from)
    where
      to :
          state_of_slots slots now_ms statuses pinned_id ≡ depassement
          → (p : Placed) × IsOverrunning slots now_ms statuses
              (pinned_slot slots statuses pinned_id)
              p
      to h =
          let (p, at, t) = some-true _ slots (state_of_slots-some_from pinned_id h) in
          let (l, k, u, (e, known, past)) =
            overruns-true (pinned_slot slots statuses pinned_id) p t in
          (
            p,
            record {
              at = at;
              launched = l;
              is_a_talk = k;
              unforced = u;
              end_ms = e;
              end_known = known;
              end_past = past;
            },
          )

      from :
          ((p : Placed) × IsOverrunning slots now_ms statuses
              (pinned_slot slots statuses pinned_id)
              p)
          → state_of_slots slots now_ms statuses pinned_id ≡ depassement
      from (p, h) = rw (
          some_of (overruns slots now_ms statuses (pinned_slot slots statuses pinned_id)) slots h.at
            (overruns_of _ p h))

  closes-true :
      (setting : AutoEndSetting) (p : Placed)
      → should_auto_end
          (effective_end_at slots p.place)
          (or_else (statuses p.slot.id) scheduled)
          now_ms
          setting
        ≡ true
      → (statuses p.slot.id ≡ some running)
        × ((e : ℕ) × (effective_end_at slots p.place ≡ some e) × (e ≤ now_ms))
  unfolding should_auto_end
  closes-true setting p h = ground arith

  -- A talk that the scheduling rule closes shows the room in overrun, whatever the grace, unless
  -- it is the forced talk: the two rules read one end.
  pub to_auto_end-depassement :
      (setting : AutoEndSetting) (pinned_id : Option String) (p : Placed)
      → In p (to_auto_end slots now_ms statuses setting)
      → p.slot.kind ≡ talk
      → same_slot p (pinned_slot slots statuses pinned_id) ≡ false
      → state_of_slots slots now_ms statuses pinned_id ≡ depassement
  unfolding to_auto_end
  to_auto_end-depassement setting pinned_id p m kind unforced =
      let (at, t) = filter-mem _ slots m in
      let (l, (e, known, past)) = closes-true setting p t in
      (depassement_iff pinned_id).1 (
        p,
        record {
          at = at;
          launched = l;
          is_a_talk = kind;
          unforced = unforced;
          end_ms = e;
          end_known = known;
          end_past = past;
        },
      )
