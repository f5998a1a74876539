-- ===== src/Room/Clock.antt =====
-- What the clock says of a room: `stateFromProgram`, `stateOfSlots` without overrun and
-- `breakOfSlots` of packages/room-state/src/state.ts.
use conference_operator.Common.{
  ℕ, ◌+◌, ◌≤◌, ◌<◌, ◌≡◌, ◌≢◌, ◌⊎◌, ◌↔◌, String, Option, some, none, List, arith, inl, inr,
  Option-cases, Bool-cases,
}
use conference_operator.Schedule.{talk, break, Slot, Placed, timeline_position, effective_end_at}
use conference_operator.Lifecycle.{scheduled, running}
use conference_operator.Room.{
  SessionStatuses, retard, depassement, pinned_slot, clock_state, state_of_slots,
  state_from_program, late_ms, is_break, Break, break_en_cours, break_a_venir, break_of_slots,
  break_soon_ms,
}

module _ (slots : List Slot) (now_ms : ℕ) (statuses : SessionStatuses) where
  -- With no pin that holds, no overrun, and the clock's slot launched, the room shows what the
  -- program alone says.
  pub state_of_slots-eq-state_from_program :
      (pinned_id : Option String) (c : Placed)
      → pinned_slot slots statuses pinned_id ≡ none
      → state_of_slots slots now_ms statuses pinned_id ≢ depassement
      → (timeline_position slots now_ms).current ≡ some c
      → statuses c.slot.id ≡ some running
      → state_of_slots slots now_ms statuses pinned_id ≡ state_from_program slots now_ms
  unfolding state_of_slots state_from_program
  state_of_slots-eq-state_from_program pinned_id c unpinned calm current live = ground arith

  -- No overrun, no pin that holds, and on the clock a talk that nobody started or ended, whose
  -- start is past by more than the tolerance.
  pub record IsLate (pinned_id : Option String) (c : Placed) : Type 0 where
    pub calm : state_of_slots slots now_ms statuses pinned_id ≢ depassement
    pub unpinned : pinned_slot slots statuses pinned_id ≡ none
    pub on_the_clock : (timeline_position slots now_ms).current ≡ some c
    pub is_a_talk : c.slot.kind ≡ talk
    pub untouched : (statuses c.slot.id ≡ none) ⊎ (statuses c.slot.id ≡ some scheduled)
    pub overdue : c.slot.starts_at_ms + late_ms < now_ms

  -- A room is late exactly when some talk makes it so.
  pub retard_iff :
      (pinned_id : Option String)
      → (state_of_slots slots now_ms statuses pinned_id ≡ retard)
        ↔ ((c : Placed) × IsLate pinned_id c)
  unfolding state_of_slots clock_state
  retard_iff pinned_id = (to, from)
    where
      to :
          state_of_slots slots now_ms statuses pinned_id ≡ retard
          → (c : Placed) × IsLate pinned_id c
      to h = elim (Option-cases (timeline_position slots now_ms).current) [
        | inl idle ↦ ground arith
        | inr (c, current) ↦ (
          c,
          record {
            calm = ground arith;
            unpinned = ground arith;
            on_the_clock = current;
            is_a_talk = ground arith;
            untouched = ground arith;
            overdue = ground arith;
          },
        )
      ]

      from :
          ((c : Placed) × IsLate pinned_id c)
          → state_of_slots slots now_ms statuses pinned_id ≡ retard
      from (c, h) =
          ground (arith, h.calm, h.unpinned, h.on_the_clock, h.is_a_talk, h.untouched, h.overdue)

module _ (slots : List Slot) (now_ms : ℕ) where
  -- What the announced break `b` must be.
  pub record IsAnnounced (b : Break) : Type 0 where
    pub is_a_break : b.session.slot.kind ≡ break
    pub resumes : b.ends_at_ms ≡ effective_end_at slots b.session.place
    pub when :
        ((b.state ≡ break_en_cours) × ((timeline_position slots now_ms).current ≡ some b.session))
        ⊎ ((b.state ≡ break_a_venir)
            × (((timeline_position slots now_ms).current ≡ none)
                ⊎ ((c : Placed) × ((timeline_position slots now_ms).current ≡ some c)
                    × (c.slot.kind ≡ talk)))
            × ((timeline_position slots now_ms).next ≡ some b.session)
            × (b.session.slot.starts_at_ms ≤ now_ms + break_soon_ms))

  -- A break is announced exactly when it is the clock's slot, or when no break is on the clock and
  -- the next slot is a break that starts within a quarter of an hour; its resumption is the
  -- effective end of its slot.
  pub break_of_slots_iff : (b : Break) → (break_of_slots slots now_ms ≡ some b) ↔ IsAnnounced b
  unfolding break_of_slots
  break_of_slots_iff b = (to, from)
    where
      to : break_of_slots slots now_ms ≡ some b → IsAnnounced b
      to h = elim (Option-cases (timeline_position slots now_ms).current) [
        | inl idle ↦ record {
          is_a_break = ground arith;
          resumes = ground arith;
          when = inr (ground arith, inl idle, ground arith, ground arith);
        }
        | inr (c, current) ↦ elim (Bool-cases (is_break c.slot.kind)) [
          | inl t ↦ record {
            is_a_break = ground arith;
            resumes = ground arith;
            when = inl (ground arith, ground arith);
          }
          | inr f ↦ record {
            is_a_break = ground arith;
            resumes = ground arith;
            when = inr (ground arith, inr (c, current, ground arith), ground arith, ground arith);
          }
        ]
      ]

      from : IsAnnounced b → break_of_slots slots now_ms ≡ some b
      from h = ground (arith, h.is_a_break, h.resumes, h.when)
