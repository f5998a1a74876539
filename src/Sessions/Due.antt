-- ===== src/Sessions/Due.antt =====
-- Which talks the sweep of apps/hub-server/src/services/sessions.ts ends.
use conference_operator.Common.{
  ℕ, ◌*◌, ◌+◌, ◌≤◌, ◌≡◌, ◌↔◌, inl, inr, refl, sym, ◌∙◌, String, true, false, ◌&&◌, Option, none,
  some, is_some, List, [], ◌∷◌, arith, Bool-cases, In, str_eq, eq_iff,
}
use conference_operator.Common.Maps.{get}
use conference_operator.Lifecycle.{SessionStatus, scheduled, running, ended}
use conference_operator.Room.{should_auto_end}
use conference_operator.Sessions.{
  SessionState, SessionService, applicable, effective_end_in_program, ProgramSession, closes, sweep,
  HubSettings, has,
}
use conference_operator.Sessions.Sweep.{IsTable, sweep-after_if}

-- A talk that the rule has to close at this instant.
pub record IsDue (now_ms : ℕ) (settings : HubSettings) (program : List ProgramSession)
    (pinned : List String) (id : String) (state : SessionState) : Type 0 where
  pub is_running : state.status ≡ running
  pub observed : applicable now_ms state ≡ true
  pub unforced : ¬ In id pinned
  pub end_ms : ℕ
  pub end_known : effective_end_in_program program id ≡ some end_ms
  pub end_past : end_ms + settings.auto_end_grace_minutes * 60000 ≤ now_ms

has_iff : (ids : List String) (id : String) → (has ids id ≡ true) ↔ In id ids
has_iff [] id = (λ h. cc, λ h. absurd h)
has_iff (i ∷ ids) id = elim (Bool-cases (str_eq i id)) [
  | inl same ↦ (λ h. inl (sym ((eq_iff i id).0 same)), λ h. rw same refl)
  | inr other ↦ (
    λ h. inr ((has_iff ids id).0 (rw other at h)),
    λ h. elim h [
      | inl same ↦ let bad : str_eq i id ≡ true = (eq_iff i id).1 (sym same) in cc
      | inr m ↦ rw other ((has_iff ids id).1 m)
    ],
  )
]

should_auto_end_iff :
    (end_ms : Option ℕ) (status : SessionStatus) (now_ms grace : ℕ)
    → (should_auto_end end_ms status now_ms (record { enabled = true; grace_minutes = grace })
        ≡ true)
      ↔ ((status ≡ running) × (e : ℕ) × (end_ms ≡ some e) × (e + grace * 60000 ≤ now_ms))
unfolding should_auto_end
should_auto_end_iff none scheduled now_ms grace = (λ h. cc, λ (s, e, t, u). cc)
should_auto_end_iff none running now_ms grace = (λ h. cc, λ (s, e, known, past). cc)
should_auto_end_iff none ended now_ms grace = (λ h. cc, λ (s, e, t, u). cc)
should_auto_end_iff (some e) scheduled now_ms grace = (λ h. cc, λ (s, f, t, u). cc)
should_auto_end_iff (some e) ended now_ms grace = (λ h. cc, λ (s, f, t, u). cc)
should_auto_end_iff (some e) running now_ms grace = (
  λ h. (refl, e, refl, ground arith),
  λ (s, f, known, past). let same : e ≡ f = cc in rw same (ground arith),
)

closes-IsDue :
    (now_ms : ℕ) (settings : HubSettings) (program : List ProgramSession) (pinned : List String)
    (id : String) (state : SessionState)
    → (applicable now_ms state
          && closes now_ms
              (record { enabled = true; grace_minutes = settings.auto_end_grace_minutes })
              program
              pinned
              id
              state
        ≡ true)
      ↔ IsDue now_ms settings program pinned id state
closes-IsDue now_ms settings program pinned id state =
    let end_ms = effective_end_in_program program id in
    let grace = settings.auto_end_grace_minutes in
    (
      λ h.
          let (running_now, e, known, past) =
            (should_auto_end_iff end_ms state.status now_ms grace).0 (ground arith) in
          record {
            is_running = running_now;
            observed = ground arith;
            unforced =
                λ m. let forced : has pinned id ≡ true = (has_iff pinned id).1 m in ground arith;
            end_ms = e;
            end_known = known;
            end_past = past;
          },
      λ d.
          let over =
            (should_auto_end_iff end_ms state.status now_ms grace).1
              (d.is_running, d.end_ms, d.end_known, d.end_past) in
          let free : has pinned id ≡ false = elim (Bool-cases (has pinned id)) [
            | inl forced ↦ absurd (d.unforced ((has_iff pinned id).0 forced))
            | inr free ↦ free
          ] in
          rw (d.observed, free, over) refl,
    )

-- With the automatic end enabled and a programme known, over a table that holds each talk once, the
-- sweep is never refused a gesture. It ends, with its instant and the name `auto`, and with their
-- start kept, the talks that are running, observed and not forced, and whose slot in the programme
-- is over by the grace, and leaves every other talk as it is.
pub sweep-IsDue :
    (now_ms : ℕ) (settings : HubSettings) (program : List ProgramSession) (pinned : List String)
    (s : SessionService)
    → IsTable s.rows
    → settings.auto_end_enabled ≡ true
    → (is_some (sweep now_ms settings (some program) pinned s).1 ≡ true)
      × ((id : String) (state : SessionState)
          → get id s.rows ≡ some state
          → (IsDue now_ms settings program pinned id state
              → get id (sweep now_ms settings (some program) pinned s).0.rows
                ≡ some (record {
                  room_id = state.room_id;
                  status = ended;
                  started_at = state.started_at;
                  ended_at = some now_ms;
                  decided_by = "auto";
                }))
            × (¬ IsDue now_ms settings program pinned id state
                → get id (sweep now_ms settings (some program) pinned s).0.rows ≡ some state))
      × ((id : String)
          → get id s.rows ≡ none
          → get id (sweep now_ms settings (some program) pinned s).0.rows ≡ none)
sweep-IsDue now_ms settings program pinned s table enabled =
    let (done, rows) = sweep-after_if now_ms settings program pinned s table enabled in
    (
      done,
      λ id state there. (
        λ due.
            rows id ∙ rw (there, (closes-IsDue now_ms settings program pinned id state).1 due) refl,
        λ idle.
            rows id
            ∙ rw there
                (elim (Bool-cases (
                  applicable now_ms state
                  && closes now_ms
                      (record { enabled = true; grace_minutes = settings.auto_end_grace_minutes })
                      program pinned id state)) [
                        | inl closed ↦
                            absurd (
                              idle
                                ((closes-IsDue now_ms settings program pinned id state).0 closed))
                        | inr left ↦ rw left refl
                      ]),
      ),
      λ id absent. rows id ∙ rw absent refl,
    )
