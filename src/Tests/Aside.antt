-- ===== src/Tests/Aside.antt =====
-- A read tried again, a stream that comes back, breaks that are shared, groups that add up, calls
-- that are limited, and a machine that is paired.
use conference_operator.Common.{
  ℕ, ◌+◌, ◌-◌, ◌==◌, ◌*◌, ◌≤◌, ◌≡◌, ◌⊎◌, refl, String, Bool, true, false, none, some, List, [], ◌∷◌,
  arith, In, map, leb, if◌then◌else◌,
}
use conference_operator.Schedule.{SessionKind, talk, break}
use conference_operator.Retry.{
  Read, answered, thrown, Tried, with_retries, IsTried, retry_from, with_retries-IsTried,
}
use conference_operator.Outage.{at_rest, failure, failures}
use conference_operator.Breaks.{Session, Program, apply_shared_breaks, with_ends}
use conference_operator.Breaks.Free.{IsShared, apply_shared_breaks-IsShared}
use conference_operator.Common.Maps.{set}
use conference_operator.Limiter.{RateLimitOptions, Call, taking, pruning, take, prune, answers}
use conference_operator.Limiter.Runs.{
  Suits, takes_only, last_instant, granted, answers-takes_only, granted_bounds,
}
use conference_operator.Pairing.{
  DeviceCodeResponse, Reply, granted as grants, refused, paired, on_code, on_pending,
  on_unreachable, Paired, run_pairing, poll_from,
}
use conference_operator.Pairing.Polls.{IsPaired, run_pairing-IsPaired}
use conference_operator.Access.{roles_allow, permissions_of, has_permission}
use conference_operator.Access.Rights.{permissions_of-roles_allow}

-- A hub that is down for two reads.
abbrev restarting : ℕ → Read String ℕ
restarting n = if leb n 2 then thrown 503 else answered "project"

abbrev never : ℕ → Bool
never e = false

retry_run :
    with_retries restarting never 7
    ≡ some (record {
      result = answered "project";
      reads = 3;
      waited_ms = 12000;
      retried = (503, 1) ∷ (503, 2) ∷ [];
    })
unfolding with_retries retry_from
retry_run = refl

with_retries-IsTried_example :
    (t : Tried String ℕ) × (with_retries restarting never 7 ≡ some t) × IsTried restarting never 1 t
with_retries-IsTried_example = with_retries-IsTried restarting never

abbrev instants : List ℕ
instants = 3000 ∷ 30000 ∷ 61000 ∷ 63000 ∷ []

outage_run : (failures 60000 (1000 ∷ instants) at_rest).1 ≡ 2
unfolding failures failure
outage_run = refl

abbrev planned : String → SessionKind → String → ℕ → ℕ → Session
planned id kind room_id start end = record {
  slot = record {
    id = id;
    kind = kind;
    starts_at_ms = start;
    ends_at_ms = some end;
    duration_minutes = none;
  };
  room_id = some room_id;
  title = id;
  shared_from = none;
}

abbrev by_name : String → String → Bool
by_name a b = true

-- Room r2 is free at lunch, room r3 has a talk that lasts into it.
abbrev programme : Program
programme = record {
  rooms = "r1" ∷ "r2" ∷ "r3" ∷ [];
  sessions =
      planned "t1" talk "r1" 0 100
      ∷ planned "t3" talk "r3" 50 150
      ∷ planned "lunch" break "r1" 100 200
      ∷ [];
}

shared_run :
    map (λ (s : Session). s.slot.id) (apply_shared_breaks by_name programme).sessions
    ≡ "t1" ∷ "t3" ∷ "lunch" ∷ "lunch@r2" ∷ []
unfolding apply_shared_breaks
shared_run = refl

abbrev lunch_copy : Session
lunch_copy = record (planned "lunch@r2" break "r2" 100 200) {
  title = "lunch";
  shared_from = some "lunch";
}

apply_shared_breaks-IsShared_example :
    (In lunch_copy programme.sessions
      → In lunch_copy (apply_shared_breaks by_name programme).sessions)
    × (In lunch_copy (apply_shared_breaks by_name programme).sessions
        → In lunch_copy programme.sessions
          ⊎ ((room_id : String) × In room_id programme.rooms
              × IsShared (with_ends programme.sessions) room_id lunch_copy))
apply_shared_breaks-IsShared_example = apply_shared_breaks-IsShared by_name programme lunch_copy

permissions_run :
    roles_allow ("moderation" ∷ "urgence" ∷ []) (record { resource = "message"; action = "urgent" })
    ≡ true
unfolding roles_allow
permissions_run = refl

permissions_example :
    has_permission
      (record { resource = "message"; action = "urgent" })
      (permissions_of ("moderation" ∷ "urgence" ∷ []))
    ≡ roles_allow
        ("moderation" ∷ "urgence" ∷ [])
        (record { resource = "message"; action = "urgent" })
permissions_example =
    permissions_of-roles_allow ("moderation" ∷ "urgence" ∷ [])
      (record { resource = "message"; action = "urgent" })

-- Five tokens, one given back in ten seconds.
abbrev sign_in : RateLimitOptions
sign_in = record { capacity = 5000000; refill_per_second = 100 }

abbrev tries : List Call
tries =
    taking 0 "a"
    ∷ taking 0 "a"
    ∷ taking 0 "b"
    ∷ taking 0 "a"
    ∷ taking 1 "a"
    ∷ taking 2 "a"
    ∷ taking 3 "a"
    ∷ pruning 600000 700000
    ∷ taking 700000 "a"
    ∷ []

tries-Suits : Suits sign_in 0 tries
tries-Suits = (
  omega arith,
  (
    omega arith,
    (
      omega arith,
      (
        omega arith,
        (omega arith, (omega arith, (omega arith, (omega arith, omega arith, (omega arith, tt))))),
      ),
    ),
  ),
)

tries_run : granted "a" (answers sign_in tries []) ≡ 6
unfolding answers take prune set
tries_run = refl

limited_example :
    granted "a" (answers sign_in tries []) * 1000000 ≤ 5000000 + (last_instant 0 tries - 0) * 100
limited_example = granted_bounds sign_in 0 "a" tries tries-Suits

pruned_example : answers sign_in tries [] ≡ answers sign_in (takes_only tries) []
pruned_example = answers-takes_only sign_in 0 tries tries-Suits

-- An operator who approves the machine after a cut of the network and an answer to slow down.
abbrev hub_replies : ℕ → Reply
hub_replies n =
    if n == 1
    then refused "network"
    else if n == 2
    then refused "slow_down"
    else grants (some "token")

abbrev quiet : ℕ → Bool
quiet n = false

abbrev on_time : ℕ → ℕ
on_time n = 0

abbrev half_an_hour : DeviceCodeResponse
half_an_hour = record { interval = 5; expires_in = 1800 }

pairing_run :
    run_pairing hub_replies quiet quiet on_time 10 half_an_hour 0
    ≡ some (record {
      outcome = paired "token";
      polls = 3;
      hooks =
          on_code
          ∷ on_pending 1 5000
          ∷ on_unreachable 1
          ∷ on_pending 2 5000
          ∷ on_pending 3 10000
          ∷ [];
    })
unfolding run_pairing poll_from
pairing_run = refl

run_pairing-IsPaired_example :
    (p : Paired) × (run_pairing hub_replies quiet quiet on_time (1800 + 1) half_an_hour 0 ≡ some p)
    × IsPaired hub_replies quiet quiet on_time half_an_hour p
run_pairing-IsPaired_example =
    run_pairing-IsPaired hub_replies quiet quiet on_time half_an_hour 0 (omega arith)
