-- ===== src/Montage/Console.antt =====
-- The console's gestures on the montages, in apps/hub-server/src/services/montage.ts.
use conference_operator.Common.{
  ℕ, String, Bool, true, false, not, ◌&&◌, ◌||◌, Option, none, some, [], if◌then◌else◌, leb, ltb,
  ◌==◌,
}
use conference_operator.Common.Int.{sub_ℕ}
use conference_operator.Montage.{
  MontageState, attente, en_cours, annule, montage, manuel, CutSide, MontageCoupe, MontageAnalyse,
  JobRow, Montages, VodService, Result, refused, done, not_found, conflict, precondition_failed,
  is_attente, is_en_cours, has_job_id, update_jobs, job_of, finish, abort_output,
}

abbrev pub side : CutSide → ℕ → ℕ → CutSide
side proposed proposed_ms ms =
    if ms == proposed_ms
    then proposed
    else record { source = manuel; calee = false; deplacement_ms = sub_ℕ ms proposed_ms }

abbrev pub cut_of : MontageAnalyse → ℕ → ℕ → MontageCoupe
cut_of a debut_ms fin_ms = record {
  debut_ms = debut_ms;
  fin_ms = fin_ms;
  debut = side a.proposition.debut a.proposition.debut_ms debut_ms;
  fin = side a.proposition.fin a.proposition.fin_ms fin_ms;
}

abbrev pub may_validate : MontageState → Bool
may_validate attente = false
may_validate en_cours = false
may_validate _ = true

abbrev pub validated_row : ℕ → MontageCoupe → String → JobRow → JobRow
validated_row now_ms coupe by j = record j {
  phase = montage;
  state = attente;
  coupe_json = some coupe;
  validee_par = some by;
  tentatives = 0;
  pas_avant = none;
  erreur = none;
  finished_at = none;
  updated_at = now_ms;
}

unfoldable pub validate : ℕ → String → ℕ → ℕ → String → Montages → Montages × Result MontageCoupe
validate now_ms job_id debut_ms fin_ms by m = elim (job_of job_id m) [
  | none ↦ (m, refused not_found)
  | some j ↦ if not (may_validate j.state) then (m, refused conflict) else elim j.analyse_json [
    | none ↦ (m, refused precondition_failed)
    | some a ↦
        if leb fin_ms debut_ms || ltb a.take_ms fin_ms then (m, refused precondition_failed) else (
          update_jobs (has_job_id job_id) (validated_row now_ms (cut_of a debut_ms fin_ms) by) m,
          done (cut_of a debut_ms fin_ms),
        )
  ]
]

-- `cancel`: what it does before it waits for the storage, then what it writes.
unfoldable pub cancel_begin : Option VodService → String → Montages → Montages × Result Bool
unfolding abort_output
cancel_begin vod job_id m = elim (job_of job_id m) [
  | none ↦ (m, refused not_found)
  | some j ↦
      if not (is_attente j.state) && not (is_en_cours j.state)
      then (m, done false)
      else (abort_output vod j m, done true)
]

unfoldable pub cancel_end : ℕ → String → Montages → Montages
unfolding finish
cancel_end now_ms job_id m = finish now_ms job_id annule none m

-- `forgetAll`
unfoldable pub forget_all : Montages → Montages
forget_all m = record m { jobs = [] }
