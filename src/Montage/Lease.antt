-- ===== src/Montage/Lease.antt =====
-- The calls of a worker under its lease, in apps/hub-server/src/services/montage.ts. A call that
-- waits for the storage is in two halves, before and after: what happens meanwhile is up to others.
use conference_operator.Common.{
  ℕ, ◌+◌, ◌-◌, String, Bool, true, false, not, ◌&&◌, Option, none, some, if◌then◌else◌, leb,
  or_else,
}
use conference_operator.Montage.{
  MontageState, a_valider, termine, echoue, annule, MontagePhase, analyse, montage, Etape, envoi,
  MontageCoupe, MontageAnalyse, Confiance, haute, MontageAuto, toujours, si_confiance_haute, JobRow,
  Montages, VodService, MontageLease, Result, refused, done, not_found, conflict,
  precondition_failed, is_en_cours, same_text, has_job_id, update_jobs, job_of, finish,
  requeued_row, abort_output, require_vod, lease_ms, retry_delay_ms, max_attempts,
}

abbrev pub has_lease : String → MontageLease → JobRow → Bool
has_lease worker_id lease j = same_text j.worker_id worker_id && same_text j.bail_id lease.bail_id

-- `held`
unfoldable pub held : String → MontageLease → Montages → Result JobRow
held worker_id lease m = elim (job_of lease.job_id m) [
  | none ↦ refused not_found
  | some j ↦
      if not (has_lease worker_id lease j)
      then refused conflict
      else if is_en_cours j.state
      then done j
      else refused conflict
]

pub record Beat : Type 0 where
  pub ok : Bool
  pub is_annule : Bool
  pub bail : ℕ

abbrev pub is_cancelled : MontageState → Bool
is_cancelled annule = true
is_cancelled _ = false

abbrev pub of_lease : MontageLease → JobRow → Bool
of_lease lease j = has_job_id lease.job_id j && same_text j.bail_id lease.bail_id

abbrev pub beaten_row : ℕ → Etape → ℕ → JobRow → JobRow
beaten_row now_ms etape pourcent j = record j {
  etape = some etape;
  pourcent = pourcent;
  lease_until = some (now_ms + lease_ms);
  updated_at = now_ms;
}

unfoldable pub heartbeat : ℕ → String → MontageLease → Etape → ℕ → Montages → Montages × Result Beat
heartbeat now_ms worker_id lease etape pourcent m = elim (job_of lease.job_id m) [
  | none ↦ (m, done (record { ok = false; is_annule = true; bail = now_ms + lease_ms }))
  | some j ↦
      if not (has_lease worker_id lease j)
      then (m, refused conflict)
      else if not (is_en_cours j.state)
      then (
        m,
        done (record {
          ok = false;
          is_annule = is_cancelled j.state;
          bail = or_else j.lease_until (now_ms + lease_ms);
        }),
      )
      else (
        update_jobs (of_lease lease) (beaten_row now_ms etape pourcent) m,
        done (record { ok = true; is_annule = false; bail = now_ms + lease_ms }),
      )
]

-- `openUpload`: the checks, then what it writes once the storage has opened `s3_upload_id`.
unfoldable pub open_upload_begin :
    Option VodService → String → MontageLease → Montages → Montages × Result String
unfolding held abort_output
open_upload_begin vod worker_id lease m = elim (require_vod vod) [
  | none ↦ (m, refused precondition_failed)
  | some storage ↦ elim (held worker_id lease m) [
    | refused e ↦ (m, refused e)
    | done j ↦ elim (storage.upload j.sidecar_upload_id) [
      | none ↦ (m, refused not_found)
      | some sidecar ↦ (abort_output vod j m, done (storage.montage_key_for sidecar.object_key))
    ]
  ]
]

abbrev pub opened_row : ℕ → String → String → JobRow → JobRow
opened_row now_ms output_key s3_upload_id j = record j {
  output_key = some output_key;
  s3_upload_id = some s3_upload_id;
  etape = some envoi;
  pourcent = 0;
  updated_at = now_ms;
}

unfoldable pub open_upload_end : ℕ → MontageLease → String → String → Montages → Montages
open_upload_end now_ms lease output_key s3_upload_id m =
    update_jobs (has_job_id lease.job_id) (opened_row now_ms output_key s3_upload_id) m

-- `complete`: the checks, with the keys of the multipart to complete, then what it writes.
unfoldable pub complete_begin :
    Option VodService → String → MontageLease → Montages → Result (String × String)
unfolding held
complete_begin vod worker_id lease m = elim (require_vod vod) [
  | none ↦ refused precondition_failed
  | some storage ↦ elim (held worker_id lease m) [
    | refused e ↦ refused e
    | done j ↦ elim j.s3_upload_id [
      | none ↦ refused precondition_failed
      | some s3 ↦ elim j.output_key [
        | none ↦ refused precondition_failed
        | some key ↦ done (key, s3)
      ]
    ]
  ]
]

abbrev pub or_kept : Option MontageCoupe → Option MontageCoupe → Option MontageCoupe
or_kept none kept = kept
or_kept (some coupe) kept = some coupe

abbrev pub completed_row : ℕ → ℕ → Option MontageCoupe → JobRow → JobRow
completed_row now_ms duration_ms coupe j = record j {
  state = termine;
  etape = none;
  pourcent = 100;
  s3_upload_id = none;
  lease_until = none;
  duration_ms = some duration_ms;
  coupe_json = or_kept coupe j.coupe_json;
  erreur = none;
  finished_at = some now_ms;
  updated_at = now_ms;
}

unfoldable pub complete_end : ℕ → String → ℕ → Option MontageCoupe → Montages → Montages
complete_end now_ms job_id duration_ms coupe m =
    update_jobs (has_job_id job_id) (completed_row now_ms duration_ms coupe) m

-- `fail`: the checks; `none` when the job is no longer under way and nothing is to be done.
unfoldable pub fail_begin :
    Option VodService → String → MontageLease → Montages → Montages × Result (Option JobRow)
unfolding abort_output
fail_begin vod worker_id lease m = elim (job_of lease.job_id m) [
  | none ↦ (m, refused not_found)
  | some j ↦
      if not (has_lease worker_id lease j)
      then (m, refused conflict)
      else if not (is_en_cours j.state)
      then (m, done none)
      else (abort_output vod j m, done (some j))
]

abbrev pub retried_row : ℕ → String → JobRow → JobRow
retried_row now_ms raison j = record (requeued_row now_ms j) { erreur = some raison }

abbrev pub delayed_row : ℕ → String → ℕ → JobRow → JobRow
delayed_row now_ms raison tentatives j = record (requeued_row now_ms j) {
  tentatives = tentatives;
  pas_avant = some (now_ms + retry_delay_ms);
  erreur = some raison;
}

-- What `fail` writes, on the job it read before the wait.
unfoldable pub fail_end : ℕ → JobRow → String → Bool → Bool → Montages → Montages
unfolding finish
fail_end now_ms j raison reessayer compter m =
    if reessayer && compter
    then if leb max_attempts j.tentatives
      then finish now_ms j.id echoue (some raison) m
      else update_jobs (has_job_id j.id) (retried_row now_ms raison) m
    else if reessayer
    then update_jobs (has_job_id j.id) (delayed_row now_ms raison (j.tentatives - 1)) m
    else finish now_ms j.id echoue (some raison) m

pub data Suite : Type 0 where
  suite_montage : MontageCoupe → Suite
  suite_validation : Suite

abbrev pub goes_on : MontageAuto → Confiance → Bool
goes_on toujours confiance = true
goes_on si_confiance_haute haute = true
goes_on _ _ = false

abbrev pub through_row : ℕ → MontageAnalyse → JobRow → JobRow
through_row now_ms a j = record j {
  analyse_json = some a;
  phase = montage;
  coupe_json = some a.proposition;
  validee_par = some "auto";
  lease_until = some (now_ms + lease_ms);
  updated_at = now_ms;
}

abbrev pub to_validate_row : ℕ → MontageAnalyse → JobRow → JobRow
to_validate_row now_ms a j = record j {
  analyse_json = some a;
  state = a_valider;
  worker_id = none;
  lease_until = none;
  etape = none;
  pourcent = 0;
  updated_at = now_ms;
}

abbrev pub is_analyse : MontagePhase → Bool
is_analyse analyse = true
is_analyse montage = false

unfoldable pub analysis_done :
    ℕ → MontageAuto → String → MontageLease → MontageAnalyse → Montages → Montages × Result Suite
unfolding held
analysis_done now_ms policy worker_id lease a m = elim (held worker_id lease m) [
  | refused e ↦ (m, refused e)
  | done j ↦
      if not (is_analyse j.phase)
      then (m, refused conflict)
      else if goes_on policy a.confiance
      then (
        update_jobs (has_job_id lease.job_id) (through_row now_ms a) m,
        done (suite_montage a.proposition),
      )
      else (
        update_jobs (has_job_id lease.job_id) (to_validate_row now_ms a) m,
        done suite_validation,
      )
]
