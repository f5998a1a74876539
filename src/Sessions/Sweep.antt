-- ===== src/Sessions/Sweep.antt =====
-- The sweep of the scheduling rule, in apps/hub-server/src/services/sessions.ts.
use conference_operator.Common.{
  ℕ, ◌≡◌, ◌≢◌, ◌⊎◌, inl, inr, refl, sym, ap, ◌∙◌, String, Bool, true, false, ◌&&◌, ◌||◌, Option,
  none, some, List, [], ◌∷◌, ◌++◌, arith, Option-cases, Bool-cases, All, All-In, All_of_In, In,
  In-filter, Pairwise, Pairwise-filter, filter, str_eq, eq_iff, eq_refl, if◌then◌else◌, is_some,
}
use conference_operator.Common.Maps.{get, set, get-set, get-set_other}
use conference_operator.Lifecycle.{SessionStatus, scheduled, running, ended, end, status_after}
use conference_operator.Room.{AutoEndSetting, should_auto_end}
use conference_operator.Sessions.{
  SessionState, SessionService, state_of, written, decided, end_talk, applicable,
  effective_end_in_program, ProgramSession, closes, sweep_states, sweep, HubSettings, states,
  listed,
}
use conference_operator.Sessions.Gestures.{write_lem, state_of-get}

-- The primary key of the table.
abbrev pub IsTable : List (String × SessionState) → Type 0
IsTable = Pairwise (λ a b. a.0 ≢ b.0)

abbrev keyed : List (String × SessionState) → String → Bool
keyed [] id = false
keyed (row ∷ rows) id = str_eq row.0 id || keyed rows id

keyed-absent :
    (id : String) (rows : List (String × SessionState))
    → All (λ row. id ≢ row.0) rows
    → keyed rows id ≡ false
keyed-absent id [] h = refl
keyed-absent id (row ∷ rows) (ne, h) = ground (arith, eq_iff row.0 id, keyed-absent id rows h)

should_auto_end-running :
    (end_ms : Option ℕ) (status : SessionStatus) (now_ms : ℕ) (setting : AutoEndSetting)
    → should_auto_end end_ms status now_ms setting ≡ true
    → status ≡ running
unfolding should_auto_end
should_auto_end-running end_ms scheduled now_ms setting h = ground arith
should_auto_end-running end_ms running now_ms setting h = refl
should_auto_end-running end_ms ended now_ms setting h = ground arith

module _ (now_ms : ℕ) (setting : AutoEndSetting) (program : List ProgramSession)
    (pinned : List String) where
  -- A row after the sweep.
  abbrev pub after_sweep : String → SessionState → SessionState
  after_sweep session_id state =
      if applicable now_ms state && closes now_ms setting program pinned session_id state
      then decided now_ms state.room_id ended "auto" (some state)
      else state

  abbrev pub after_if : String → Option SessionState → Option SessionState
  after_if session_id none = none
  after_if session_id (some state) = some (after_sweep session_id state)

  closes-running :
      (session_id : String) (state : SessionState)
      → closes now_ms setting program pinned session_id state ≡ true
      → state.status ≡ running
  closes-running session_id state h =
      should_auto_end-running (effective_end_in_program program session_id) state.status now_ms
        setting (ground arith)

  -- The pass over rows that stand in the table as they were read.
  abbrev AsRead : SessionService → List (String × SessionState) → Type 0
  AsRead s = All (λ row. (get row.0 s.rows ≡ some row.1) × (applicable now_ms row.1 ≡ true))

  abbrev swept :
      List (String × SessionState) → SessionService → SessionService × Option (List String)
  swept rows s = sweep_states now_ms setting program pinned rows s

  -- What a pass over `rows` makes of the table.
  abbrev IsSwept :
      List (String × SessionState) → SessionService → SessionService × Option (List String) → Type 0
  IsSwept rows s r =
      (is_some r.1 ≡ true)
      × ((id : String)
          → get id r.0.rows
            ≡ (if keyed rows id then after_if id (get id s.rows) else get id s.rows))

  AsRead-set :
      (id : String) (state : SessionState) (s : SessionService) (changed : List (Option String))
      (rows : List (String × SessionState))
      → All (λ row. id ≢ row.0) rows
      → AsRead s rows
      → AsRead (record { rows = set id state s.rows; changed = changed }) rows
  AsRead-set id state s changed [] ne h = tt
  AsRead-set id state s changed (row ∷ rows) (other, ne) ((read, dated), h) = (
    (get-set_other id row.0 state s.rows other ∙ read, dated),
    AsRead-set id state s changed rows ne h,
  )

  after_sweep_left :
      (session_id : String) (state : SessionState)
      → closes now_ms setting program pinned session_id state ≡ false
      → after_sweep session_id state ≡ state
  after_sweep_left session_id state h = ground arith

  same_key : (id k : String) → (k ≡ id) ⊎ ((k ≢ id) × (str_eq k id ≡ false))
  same_key id k = elim (Bool-cases (str_eq k id)) [
    | inl same ↦ inl ((eq_iff k id).0 same)
    | inr other ↦ inr (ground (arith, eq_iff k id), other)
  ]

  left_step :
      (k : String) (state : SessionState) (rows : List (String × SessionState)) (s : SessionService)
      (r : SessionService × Option (List String))
      → get k s.rows ≡ some state
      → All (λ row. k ≢ row.0) rows
      → closes now_ms setting program pinned k state ≡ false
      → IsSwept rows s r
      → IsSwept ((k, state) ∷ rows) s r
  left_step k state rows s r read ne left (done, rest) = (
    done,
    λ id. elim (same_key id k) [
      | inl same ↦
          let at_k = rest k in
          rw (← same, eq_refl k, read, after_sweep_left k state left)
            ((rw (keyed-absent k rows ne) at at_k) ∙ read)
      | inr (other, apart) ↦ rw apart (rest id)
    ],
  )

  closed_step :
      (k : String) (state : SessionState) (rows : List (String × SessionState)) (s : SessionService)
      (changed : List (Option String)) (r : SessionService × Option (List String))
      → get k s.rows ≡ some state
      → All (λ row. k ≢ row.0) rows
      → IsSwept rows (record { rows = set k (after_sweep k state) s.rows; changed = changed }) r
      → IsSwept ((k, state) ∷ rows) s (listed k r)
  closed_step k state rows s changed (last, none) read ne (done, rest) = cc
  closed_step k state rows s changed (last, some ids) read ne (done, rest) = (
    refl,
    λ id. elim (same_key id k) [
      | inl same ↦
          let at_k = rest k in
          rw (← same, eq_refl k, read)
            ((rw (keyed-absent k rows ne) at at_k) ∙ get-set k (after_sweep k state) s.rows)
      | inr (other, apart) ↦
          let at_id = rest id in
          rw apart (rw (get-set_other k id (after_sweep k state) s.rows other) at at_id)
    ],
  )

  swept-written :
      (k : String) (state : SessionState) (rows : List (String × SessionState))
      (s s' : SessionService) (row : SessionState)
      → closes now_ms setting program pinned k state ≡ true
      → end_talk now_ms k state.room_id "auto" s ≡ (s', written row)
      → swept ((k, state) ∷ rows) s ≡ listed k (swept rows s')
  unfolding sweep_states
  swept-written k state rows s s' row closed wrote =
      rw (closed, wrote) (ap (λ r. listed k (swept rows r.0)) wrote)

  swept-closed :
      (k : String) (state : SessionState) (rows : List (String × SessionState)) (s : SessionService)
      → get k s.rows ≡ some state
      → applicable now_ms state ≡ true
      → closes now_ms setting program pinned k state ≡ true
      → swept ((k, state) ∷ rows) s
        ≡ listed k (
            swept rows (record {
              rows = set k (after_sweep k state) s.rows;
              changed = s.changed ++ (state.room_id ∷ []);
            }))
  unfolding sweep_states end_talk
  swept-closed k state rows s read dated closed =
      let known : state_of now_ms k s ≡ some state = state_of-get now_ms k state s read dated in
      let allowed : status_after state.status end ≡ some ended =
        rw (closes-running k state closed) refl in
      let row = decided now_ms state.room_id ended "auto" (some state) in
      let s' : SessionService = record {
        rows = set k row s.rows;
        changed = s.changed ++ (state.room_id ∷ []);
      } in
      let wrote : end_talk now_ms k state.room_id "auto" s ≡ (s', written row) =
        write_lem now_ms k state.room_id end "auto" s (some state) ended known allowed in
      let after : after_sweep k state ≡ row = rw (dated, closed) refl in
      swept-written k state rows s s' row closed wrote
      ∙ ap (λ x. listed k (swept rows (record { rows = set k x s.rows; changed = s'.changed })))
          (sym after)

  swept-left :
      (k : String) (state : SessionState) (rows : List (String × SessionState)) (s : SessionService)
      → closes now_ms setting program pinned k state ≡ false
      → swept ((k, state) ∷ rows) s ≡ swept rows s
  unfolding sweep_states
  swept-left k state rows s left = rw left refl

  sweep_states-IsSwept :
      (rows : List (String × SessionState)) (s : SessionService)
      → AsRead s rows
      → IsTable rows
      → IsSwept rows s (swept rows s)
  unfolding sweep_states
  sweep_states-IsSwept [] s h table = (refl, λ id. refl)
  sweep_states-IsSwept ((k, state) ∷ rows) s ((read, dated), h) (ne, table) =
      elim (Bool-cases (closes now_ms setting program pinned k state)) [
        | inl closed ↦ rw (swept-closed k state rows s read dated closed) (
            closed_step k state rows s (s.changed ++ (state.room_id ∷ [])) _ read ne (
              sweep_states-IsSwept rows _
                (AsRead-set k (after_sweep k state) s (s.changed ++ (state.room_id ∷ [])) rows ne h)
                table))
        | inr left ↦ rw (swept-left k state rows s left) (
            left_step k state rows s (swept rows s) read ne left
              (sweep_states-IsSwept rows s h table))
      ]

keyed-In :
    (id : String) (state : SessionState) (rows : List (String × SessionState))
    → In (id, state) rows
    → keyed rows id ≡ true
keyed-In id state [] m = elim m [ ]
keyed-In id state (row ∷ rows) (inl same) =
    let key : row.0 ≡ id = sym (ap (λ (r : String × SessionState). r.0) same) in
    rw (key, eq_refl id) refl
keyed-In id state (row ∷ rows) (inr m) = ground (arith, keyed-In id state rows m)

get-In :
    (rows : List (String × SessionState)) (row : String × SessionState)
    → IsTable rows
    → In row rows
    → get row.0 rows ≡ some row.1
get-In [] row table m = elim m [ ]
get-In (r ∷ rows) row (ne, table) (inl same) = rw (← same, eq_refl row.0) refl
get-In (r ∷ rows) row (ne, table) (inr m) =
    let other : r.0 ≢ row.0 = All-In (λ b. r.0 ≢ b.0) rows row ne m in
    ground (arith, eq_iff r.0 row.0, get-In rows row table m)

In-get :
    (id : String) (rows : List (String × SessionState)) (state : SessionState)
    → get id rows ≡ some state
    → In (id, state) rows
In-get id [] state h = cc
In-get id (row ∷ rows) state h = elim (Bool-cases (str_eq row.0 id)) [
  | inl same ↦
      let key : row.0 ≡ id = (eq_iff row.0 id).0 same in
      let found : some row.1 ≡ some state = sym (rw same refl) ∙ h in
      let value : row.1 ≡ state = cc in inl (rw (← key, ← value) refl)
  | inr other ↦ inr (In-get id rows state (rw other at h))
]

filter_all : (rows : List (String × SessionState)) → filter (λ row. true) rows ≡ rows
filter_all [] = refl
filter_all (row ∷ rows) = ap (λ rest. row ∷ rest) (filter_all rows)

pub sweep-after_if :
    (now_ms : ℕ) (settings : HubSettings) (program : List ProgramSession) (pinned : List String)
    (s : SessionService)
    → IsTable s.rows
    → settings.auto_end_enabled ≡ true
    → (is_some (sweep now_ms settings (some program) pinned s).1 ≡ true)
      × ((id : String)
          → get id (sweep now_ms settings (some program) pinned s).0.rows
            ≡ after_if now_ms
                (record { enabled = true; grace_minutes = settings.auto_end_grace_minutes })
                program
                pinned
                id
                (get id s.rows))
unfolding sweep states
sweep-after_if now_ms settings program pinned s table enabled =
    let setting : AutoEndSetting = record {
      enabled = true;
      grace_minutes = settings.auto_end_grace_minutes;
    } in
    let is_observed = λ (row : String × SessionState). applicable now_ms row.1 in
    let observed = filter is_observed s.rows in
    let read =
      All_of_In (λ row. (get row.0 s.rows ≡ some row.1) × (applicable now_ms row.1 ≡ true)) observed
        (λ row m.
          let (there, dated) = (In-filter is_observed s.rows row).0 m in
          (get-In s.rows row table there, dated)) in
    let (done, rest) =
      sweep_states-IsSwept now_ms setting program pinned observed s read
        (Pairwise-filter (λ a b. a.0 ≢ b.0) is_observed s.rows table) in
    rw (enabled, filter_all s.rows)
      (
        done,
        λ id. rest id ∙ elim (Option-cases (get id s.rows)) [
          | inl absent ↦ rw absent (ground arith)
          | inr (state, there) ↦ elim (Bool-cases (applicable now_ms state)) [
            | inl dated ↦
                rw
                  (keyed-In id state observed (
                    (In-filter is_observed s.rows (id, state)).1
                      (In-get id s.rows state there, dated)))
                  refl
            | inr undated ↦ rw (there, undated) (ground arith)
          ]
        ],
      )
