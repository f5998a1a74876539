-- ===== src/Tests/Rooms.antt =====
-- The room state at a sample day.
use conference_operator.Common.{◌≡◌, ◌↔◌, refl, inl, some, none}
use conference_operator.Schedule.{
  Placed, placed, timeline_position, effective_end_at, effective_end_ms,
}
use conference_operator.Schedule.Search.{find_from, find_last_from, some_from, filter_from}
use conference_operator.Room.{
  overruns, depassement, retard, pinned_slot, state_of_slots, state_from_program, talk_to_control,
  break_en_cours, Break, to_auto_end, default_auto_end,
}
use conference_operator.Room.Overrun.{IsOverrunning, depassement_iff, to_auto_end-depassement}
use conference_operator.Room.Target.{IsTarget, talk_to_control_iff}
use conference_operator.Room.Clock.{state_of_slots-eq-state_from_program}
use conference_operator.Tests.Day.{day, opening, lunch, untouched, opened}

depassement_iff_example :
    (state_of_slots day 2500000 opened none ≡ depassement)
    ↔ ((p : Placed) × IsOverrunning day 2500000 opened (pinned_slot day opened none) p)
depassement_iff_example = depassement_iff day 2500000 opened none

auto_end_example : state_of_slots day 2500000 opened none ≡ depassement
unfolding to_auto_end effective_end_at pinned_slot filter_from effective_end_ms
auto_end_example =
    to_auto_end-depassement day 2500000 opened default_auto_end none (placed 0 opening) (inl refl)
      refl refl

talk_to_control_iff_example :
    (talk_to_control day 2500000 opened none ≡ some (placed 0 opening))
    ↔ IsTarget day 2500000 opened none (placed 0 opening)
talk_to_control_iff_example = talk_to_control_iff day 2500000 opened none (placed 0 opening)

target_run : talk_to_control day 2500000 opened none ≡ some (placed 0 opening)
unfolding talk_to_control pinned_slot timeline_position find_last_from
target_run = refl

late_run : state_of_slots day 1500000 untouched none ≡ retard
unfolding state_of_slots overruns pinned_slot timeline_position effective_end_at effective_end_ms
    find_from some_from
late_run = refl

program_example : state_of_slots day 1100000 opened none ≡ state_from_program day 1100000
unfolding state_of_slots overruns pinned_slot timeline_position effective_end_at effective_end_ms
    find_from some_from
program_example =
    state_of_slots-eq-state_from_program day 1100000 opened none (placed 0 opening) refl (λ h. cc)
      refl refl

abbrev at_lunch : Break
at_lunch = record { state = break_en_cours; session = placed 1 lunch; ends_at_ms = some 4000000 }
