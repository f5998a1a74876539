-- ===== src/Montage/Queue.antt =====
-- The queue of apps/hub-server/src/services/montage.ts: `enqueue`, `expireLeases`, `claim`, and the
-- workers.
use conference_operator.Common.{
  ℕ, ◌+◌, String, Bool, true, false, not, ◌&&◌, ◌||◌, Option, none, some, List, [], ◌∷◌, ◌++◌,
  str_eq, filter, find?, if◌then◌else◌, leb, ltb,
}
use conference_operator.Montage.{
  attente, en_cours, echoue, MontagePhase, analyse, montage, telechargement, MontageCoupe, JobRow,
  WorkerRow, Montages, Upload, VodService, Result, refused, done, precondition_failed, is_attente,
  is_en_cours, same_text, has_job_id, update_jobs, finish, requeued_row, require_vod, lease_ms,
  max_attempts,
}

pub record MontageInput : Type 0 where
  pub session_id : String
  pub room_id : String
  pub sidecar_upload_id : String

abbrev pub awaits : MontageInput → Bool → JobRow → Bool
awaits input this_take_only j =
    str_eq j.session_id input.session_id
    && is_attente j.state
    && (not this_take_only || str_eq j.sidecar_upload_id input.sidecar_upload_id)

abbrev pub replaced_row : ℕ → MontageInput → JobRow → JobRow
replaced_row now_ms input j = record j {
  sidecar_upload_id = input.sidecar_upload_id;
  room_id = input.room_id;
  pas_avant = none;
  erreur = none;
  phase = analyse;
  analyse_json = none;
  coupe_json = none;
  validee_par = none;
  updated_at = now_ms;
}

abbrev pub new_row : ℕ → String → MontageInput → JobRow
new_row now_ms id input = record {
  id = id;
  session_id = input.session_id;
  room_id = input.room_id;
  sidecar_upload_id = input.sidecar_upload_id;
  state = attente;
  etape = none;
  pourcent = 0;
  worker_id = none;
  lease_until = none;
  bail_id = none;
  pas_avant = none;
  tentatives = 0;
  output_key = none;
  s3_upload_id = none;
  duration_ms = none;
  phase = analyse;
  analyse_json = none;
  coupe_json = none;
  validee_par = none;
  erreur = none;
  created_at = now_ms;
  updated_at = now_ms;
  finished_at = none;
}

-- `enqueue`, with the ULID drawn for a new job; its answer is the job's id.
unfoldable pub enqueue : ℕ → String → MontageInput → Bool → Montages → Montages × String
enqueue now_ms ulid input this_take_only m = elim (find? (awaits input this_take_only) m.jobs) [
  | some waiting ↦ (update_jobs (has_job_id waiting.id) (replaced_row now_ms input) m, waiting.id)
  | none ↦ (record m { jobs = m.jobs ++ (new_row now_ms ulid input ∷ []) }, ulid)
]

abbrev pub is_lapsed : ℕ → JobRow → Bool
is_lapsed now_ms j =
    is_en_cours j.state && (elim j.lease_until [ none ↦ false | some until ↦ ltb until now_ms ])

abbrev pub still_en_cours : String → JobRow → Bool
still_en_cours id j = has_job_id id j && is_en_cours j.state

-- The loop of `expireLeases` over the lapsed jobs.
unfoldable pub expire_jobs : ℕ → List JobRow → Montages → Montages
unfolding finish
expire_jobs now_ms [] m = m
expire_jobs now_ms (j ∷ lapsed) m = expire_jobs now_ms lapsed (
    if leb max_attempts j.tentatives
    then finish now_ms j.id echoue (some "abandonné par son worker") m
    else update_jobs (still_en_cours j.id) (requeued_row now_ms) m)

unfoldable pub expire_leases : ℕ → Montages → Montages
unfolding expire_jobs
expire_leases now_ms m = expire_jobs now_ms (filter (is_lapsed now_ms) m.jobs) m

pub record MontageClaim : Type 0 where
  pub job_id : String
  pub bail_id : String
  pub session_id : String
  pub room_id : String
  pub sidecar_url : String
  pub bail : ℕ
  pub phase : MontagePhase
  pub coupe : Option MontageCoupe

-- A stable sort on `createdAt`.
unfoldable pub insert_by_creation : JobRow → List JobRow → List JobRow
insert_by_creation j [] = j ∷ []
insert_by_creation j (k ∷ jobs) =
    let later = insert_by_creation j jobs in
    if leb j.created_at k.created_at then j ∷ k ∷ jobs else k ∷ later

unfoldable pub order_by_creation : List JobRow → List JobRow
unfolding insert_by_creation
order_by_creation [] = []
order_by_creation (j ∷ jobs) = insert_by_creation j (order_by_creation jobs)

abbrev pub is_offered : ℕ → JobRow → Bool
is_offered now_ms j = elim j.pas_avant [ none ↦ true | some instant ↦ leb instant now_ms ]

unfoldable pub candidates : ℕ → List JobRow → List JobRow
unfolding order_by_creation
candidates now_ms jobs =
    filter (is_offered now_ms) (order_by_creation (filter (λ j. is_attente j.state) jobs))

abbrev pub claimed_row : ℕ → String → String → ℕ → JobRow → JobRow
claimed_row now_ms worker_id bail_id tentatives j = record j {
  state = en_cours;
  worker_id = some worker_id;
  lease_until = some (now_ms + lease_ms);
  bail_id = some bail_id;
  tentatives = tentatives;
  etape = some telechargement;
  pourcent = 0;
  erreur = none;
  updated_at = now_ms;
}

abbrev pub still_attente : String → JobRow → Bool
still_attente id j = has_job_id id j && is_attente j.state

abbrev pub given_coupe : MontagePhase → Option MontageCoupe → Option MontageCoupe
given_coupe analyse coupe = none
given_coupe montage coupe = coupe

abbrev pub claim_of : ℕ → String → Upload → JobRow → MontageClaim
claim_of now_ms bail_id sidecar j = record {
  job_id = j.id;
  bail_id = bail_id;
  session_id = j.session_id;
  room_id = j.room_id;
  sidecar_url = sidecar.object_key;
  bail = now_ms + lease_ms;
  phase = j.phase;
  coupe = given_coupe j.phase j.coupe_json;
}

-- `sidecar == null || sidecar.state !== 'termine'`, the other way round.
abbrev pub sidecar_of : VodService → String → Option Upload
sidecar_of vod id = elim (vod.upload id) [
  | none ↦ none
  | some sidecar ↦ if sidecar.is_termine then some sidecar else none
]

-- The loop of `claim` over the candidates; `draw` gives the ULID of a lease.
unfoldable pub claim_first :
    ℕ
    → VodService
    → String
    → (String → String)
    → List JobRow
    → Montages
    → Montages × Option MontageClaim
unfolding finish
claim_first now_ms vod worker_id draw [] m = (m, none)
claim_first now_ms vod worker_id draw (j ∷ jobs) m =
    let lost =
      claim_first now_ms vod worker_id draw jobs
        (finish now_ms j.id echoue (some "le sidecar de la prise n’est plus dans le stockage") m) in
    let missed = claim_first now_ms vod worker_id draw jobs m in
    elim (sidecar_of vod j.sidecar_upload_id) [
      | none ↦ lost
      | some sidecar ↦ elim (find? (still_attente j.id) m.jobs) [
        | none ↦ missed
        | some row ↦ (
          update_jobs (still_attente j.id)
              (claimed_row now_ms worker_id (draw j.id) (j.tentatives + 1)) m,
          some (claim_of now_ms (draw j.id) sidecar j),
        )
      ]
    ]

unfoldable pub claim :
    ℕ
    → Option VodService
    → Bool
    → String
    → (String → String)
    → Montages
    → Montages × Result (Option MontageClaim)
unfolding claim_first expire_leases candidates
claim now_ms vod en_pause worker_id draw m = elim (require_vod vod) [
  | none ↦ (m, refused precondition_failed)
  | some storage ↦
      let expired = expire_leases now_ms m in
      if en_pause
      then (expired, done none)
      else let (after, taken) =
          claim_first now_ms storage worker_id draw (candidates now_ms expired.jobs) expired in
        (after, done taken)
]

abbrev pub held_by : String → JobRow → Bool
held_by worker_id j = same_text j.worker_id worker_id && is_en_cours j.state

abbrev pub is_active : String → WorkerRow → Bool
is_active id w = str_eq w.id id && (elim w.revoked_at [ none ↦ true | some at ↦ false ])

abbrev revoke_rows : ℕ → String → List WorkerRow → List WorkerRow
revoke_rows now_ms id [] = []
revoke_rows now_ms id (w ∷ workers) =
    (if is_active id w then record w { revoked_at = some now_ms; token_hash = none } else w)
    ∷ revoke_rows now_ms id workers

-- `revoke`
unfoldable pub revoke : ℕ → String → Montages → Montages × Bool
revoke now_ms id m = elim (find? (is_active id) m.workers) [
  | none ↦ (m, false)
  | some w ↦ (
    update_jobs (held_by id) (requeued_row now_ms)
        (record m { workers = revoke_rows now_ms id m.workers }),
    true,
  )
]
