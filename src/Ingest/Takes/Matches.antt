-- ===== src/Ingest/Takes/Matches.antt =====
-- How the takes of apps/hub-server/src/services/ingest.ts are matched: a start, a stop, and the loop
-- over the events of a room.
use conference_operator.Common.{
  ℕ, ◌≡◌, inl, inr, refl, sym, String, Bool, true, false, Option, none, some, List, [], ◌∷◌, ◌++◌,
  length, arith, Bool-cases, Option-cases,
}
use conference_operator.Ingest.Project.{
  Report, HubPayload, recording_started, recording_stopped, ObsInstance, obs_a, obs_b,
}
use conference_operator.Ingest.Takes.{
  RawCapture, same_obs, Pairing, assign, change_at, superseded, closed_by, started_take, lone_stop,
  supersede, take_start, take_stop, pair_payload, pair_takes,
}
use conference_operator.Ingest.Takes.Pairs.{
  rolls, OpenAt, IsPairing, Stops, change_at-here, change_at-there, append-OpenAt, append-opens,
}

same_obs_self : (o : ObsInstance) → same_obs o o ≡ true
same_obs_self obs_a = refl
same_obs_self obs_b = refl

pub same_obs_eq : (o obs : ObsInstance) → same_obs o obs ≡ true → o ≡ obs
same_obs_eq obs_a obs_a e = refl
same_obs_eq obs_b obs_b e = refl
same_obs_eq obs_a obs_b e = cc
same_obs_eq obs_b obs_a e = cc

idle-Stops : (o : ObsInstance) (c : RawCapture) → c.en_cours ≡ false → rolls o c ≡ false
idle-Stops o c e = ground arith

pub supersede-here :
    (captures : List RawCapture) (obs : ObsInstance) (place : Option ℕ)
    → OpenAt captures obs place
    → OpenAt (supersede place captures) obs none
supersede-here captures obs none v = v
supersede-here captures obs (some i) v =
    change_at-here superseded captures obs i (λ o c. idle-Stops o (superseded c) refl) v

supersede-there :
    (captures : List RawCapture) (obs o : ObsInstance) (place other : Option ℕ)
    → OpenAt captures obs place
    → same_obs o obs ≡ false
    → OpenAt captures o other
    → OpenAt (supersede place captures) o other
supersede-there captures obs o none other v ne w = w
supersede-there captures obs o (some i) other v ne w =
    change_at-there superseded captures obs o i other (λ x c. idle-Stops x (superseded c) refl) v ne
      w

-- `OpenAt` at a place that is known.
OpenAt-place :
    (captures : List RawCapture) (o : ObsInstance) (p q : Option ℕ)
    → p ≡ q
    → OpenAt captures o q
    → OpenAt captures o p
OpenAt-place captures o p q e v = rw e v

pub assign_self :
    (obs o : ObsInstance) (place : Option ℕ) (opened : ObsInstance → Option ℕ)
    → same_obs o obs ≡ true
    → assign obs place opened o ≡ place
assign_self obs o place opened e = rw e refl

pub assign_other :
    (obs o : ObsInstance) (place : Option ℕ) (opened : ObsInstance → Option ℕ)
    → same_obs o obs ≡ false
    → assign obs place opened o ≡ opened o
assign_other obs o place opened e = rw e refl

take_start-IsPairing :
    (room_id : String) (obs : ObsInstance) (session_id : Option String) (at : ℕ) (s : Pairing)
    → IsPairing s
    → IsPairing (take_start room_id obs session_id at s)
unfolding take_start
take_start-IsPairing room_id obs session_id at s v o =
    let captures = supersede (s.opened obs) s.captures in
    let c = started_take room_id obs session_id at in
    let new = some (length captures) in
    elim (Bool-cases (same_obs o obs)) [
      | inl same ↦
          OpenAt-place _ o (assign obs new s.opened o) new (assign_self obs o new s.opened same) (
            append-opens captures c o (rw same refl) refl
              (rw (same_obs_eq o obs same) (supersede-here s.captures obs (s.opened obs) (v obs))))
      | inr other ↦
          OpenAt-place _ o (assign obs new s.opened o) (s.opened o)
            (assign_other obs o new s.opened other)
            (append-OpenAt captures c o (s.opened o) (rw other refl)
              (supersede-there s.captures obs o (s.opened obs) (s.opened o) (v obs) other (v o)))
    ]

-- A stop, once what the instance holds open is known.
unfoldable pub stopped_take :
    Option ℕ → ObsInstance → RawCapture → (RawCapture → RawCapture) → Pairing → Pairing
stopped_take none obs c f s = record s { captures = s.captures ++ (c ∷ []) }
stopped_take (some i) obs c f s = record {
  captures = change_at f i s.captures;
  opened = assign obs none s.opened;
}

stopped_take-IsPairing :
    (place : Option ℕ) (obs : ObsInstance) (c : RawCapture) (f : RawCapture → RawCapture)
    (s : Pairing)
    → IsPairing s
    → s.opened obs ≡ place
    → c.en_cours ≡ false
    → Stops f
    → IsPairing (stopped_take place obs c f s)
unfolding stopped_take
stopped_take-IsPairing none obs c f s v e idle stops o =
    append-OpenAt s.captures c o (s.opened o) (idle-Stops o c idle) (v o)
stopped_take-IsPairing (some i) obs c f s v e idle stops o =
    let here : OpenAt s.captures obs (some i) =
      OpenAt-place s.captures obs (some i) (s.opened obs) (sym e) (v obs) in
    elim (Bool-cases (same_obs o obs)) [
      | inl same ↦
          OpenAt-place _ o (assign obs none s.opened o) none (assign_self obs o none s.opened same)
            (change_at-here f s.captures o i stops (rw (same_obs_eq o obs same) here))
      | inr other ↦
          OpenAt-place _ o (assign obs none s.opened o) (s.opened o)
            (assign_other obs o none s.opened other)
            (change_at-there f s.captures obs o i (s.opened o) stops here other (v o))
    ]

pub take_stop_lem :
    (room_id : String) (obs : ObsInstance) (session_id file : Option String) (duration_ms : ℕ)
    (sidecar : Bool) (at : ℕ) (s : Pairing)
    → take_stop room_id obs session_id file duration_ms sidecar at s
      ≡ stopped_take
          (s.opened obs)
          obs
          (lone_stop room_id obs session_id at file duration_ms sidecar)
          (closed_by at session_id file duration_ms sidecar)
          s
unfolding take_stop stopped_take
take_stop_lem room_id obs session_id file duration_ms sidecar at s =
    elim (Option-cases (s.opened obs)) [
      | inl nothing ↦ rw (nothing, take_stop, stopped_take) refl
      | inr (i, place) ↦ rw (place, take_stop, stopped_take) refl
    ]

pub pair_payload-IsPairing :
    (room_id : String) (at : ℕ) (payload : HubPayload) (s : Pairing)
    → IsPairing s
    → IsPairing (pair_payload room_id at payload s)
pair_payload-IsPairing room_id at payload s v =
    elim payload as (λ p. IsPairing (pair_payload room_id at p s)) [
      | recording_started obs session_id ↦ take_start-IsPairing room_id obs session_id at s v
      | recording_stopped obs session_id file duration_ms sidecar ↦
          rw (take_stop_lem room_id obs session_id file duration_ms sidecar at s) (
            stopped_take-IsPairing (s.opened obs) obs
              (lone_stop room_id obs session_id at file duration_ms sidecar)
              (closed_by at session_id file duration_ms sidecar) s v refl refl
              (λ o c. idle-Stops o (closed_by at session_id file duration_ms sidecar c) refl))
      | _ ↦ v
    ]

pub pair_takes-IsPairing :
    (room_id : String) (rows : List Report) (s : Pairing)
    → IsPairing s
    → IsPairing (pair_takes room_id rows s)
unfolding pair_takes
pair_takes-IsPairing room_id [] s v = v
pair_takes-IsPairing room_id (e ∷ rows) s v =
    pair_takes-IsPairing room_id rows _ (pair_payload-IsPairing room_id e.occurred_at e.payload s v)
