-- ===== src/Montage/Held.antt =====
-- The calls under a lease of apps/hub-server/src/services/montage.ts, and those of the console, keep the
-- table of jobs well formed.
use conference_operator.Common.{
  ℕ, ◌+◌, ◌-◌, ◌≡◌, ◌⊎◌, inl, inr, refl, String, Bool, true, false, ◌||◌, Option, none, some,
  Bool-cases, Option-cases, leb, ltb,
}
use conference_operator.Montage.{
  en_cours, a_valider, echoue, MontagePhase, analyse, montage, Etape, MontageCoupe, MontageAnalyse,
  MontageAuto, JobRow, Montages, VodService, MontageLease, MontageError, Result, refused, done,
  has_job_id, job_of, abort_output, max_attempts, is_en_cours, lease_ms,
}
use conference_operator.Montage.Lease.{
  held, heartbeat, has_lease, of_lease, beaten_row, complete_end, completed_row, or_kept, fail_end,
  retried_row, delayed_row, analysis_done, through_row, to_validate_row, is_analyse, goes_on,
}
use conference_operator.Montage.Console.{validate, validated_row, cut_of, may_validate}
use conference_operator.Montage.Sound.{
  IsSound, IsValid, PhaseOk, StateOk, update_where-IsValid, finish-IsValid,
}

pub Result-cases :
    {A : Type 0} (r : Result A) → ((e : MontageError) × (r ≡ refused e)) ⊎ ((a : A) × (r ≡ done a))
Result-cases (refused e) = inl (e, refl)
Result-cases (done a) = inr (a, refl)

pub abort_output-jobs :
    (vod : Option VodService) (j : JobRow) (m : Montages) → (abort_output vod j m).jobs ≡ m.jobs
unfolding abort_output
abort_output-jobs none j m = refl
abort_output-jobs (some vod) j m = refl

beaten_row-IsSound :
    (now_ms : ℕ) (etape : Etape) (pourcent : ℕ) (j : JobRow)
    → IsSound j
    → IsSound (beaten_row now_ms etape pourcent j)
beaten_row-IsSound now_ms etape pourcent j (h, k) = (
  elim j.state
        as (λ st.
          StateOk st j.worker_id j.lease_until j.bail_id j.analyse_json j.finished_at
          → StateOk st j.worker_id (some (now_ms + lease_ms)) j.bail_id j.analyse_json
              j.finished_at) [ en_cours ↦ λ (x, y, z). (x, refl, z) | _ ↦ λ x. x ]
      h,
  k,
)

pub heartbeat-IsValid :
    (now_ms : ℕ) (worker_id : String) (lease : MontageLease) (etape : Etape) (pourcent : ℕ)
    (m : Montages)
    → IsValid m.jobs
    → IsValid (heartbeat now_ms worker_id lease etape pourcent m).0.jobs
unfolding heartbeat
heartbeat-IsValid now_ms worker_id lease etape pourcent m v =
    elim (Option-cases (job_of lease.job_id m)) [
      | inl absent ↦ rw (absent, heartbeat) v
      | inr (j, found) ↦ elim (Bool-cases (has_lease worker_id lease j)) [
        | inr stale ↦ rw (found, stale, heartbeat) v
        | inl ours ↦ elim (Bool-cases (is_en_cours j.state)) [
          | inr over ↦ rw (found, ours, over, heartbeat) v
          | inl under_way ↦
              rw (found, ours, under_way, heartbeat)
                (update_where-IsValid (of_lease lease) (beaten_row now_ms etape pourcent) m.jobs
                  (λ k. refl) (λ k there t h. beaten_row-IsSound now_ms etape pourcent k h) v)
        ]
      ]
    ]

pub complete_end-IsValid :
    (now_ms : ℕ) (job_id : String) (duration_ms : ℕ) (coupe : Option MontageCoupe) (m : Montages)
    → IsValid m.jobs
    → IsValid (complete_end now_ms job_id duration_ms coupe m).jobs
unfolding complete_end
complete_end-IsValid now_ms job_id duration_ms coupe m v =
    update_where-IsValid (has_job_id job_id) (completed_row now_ms duration_ms coupe) m.jobs
      (λ j. refl) (λ j there t h. (refl, cut_kept j.phase j.coupe_json coupe h.1)) v
  where
    cut_kept :
        (phase : MontagePhase) (kept coupe : Option MontageCoupe)
        → PhaseOk phase kept
        → PhaseOk phase (or_kept coupe kept)
    cut_kept analyse kept coupe h = tt
    cut_kept montage kept none h = h
    cut_kept montage kept (some c) h = refl

pub fail_end-IsValid :
    (now_ms : ℕ) (j : JobRow) (raison : String) (reessayer compter : Bool) (m : Montages)
    → IsValid m.jobs
    → IsValid (fail_end now_ms j raison reessayer compter m).jobs
unfolding fail_end
fail_end-IsValid now_ms j raison false compter m v =
    finish-IsValid now_ms j.id echoue (some raison) m tt v
fail_end-IsValid now_ms j raison true false m v =
    update_where-IsValid (has_job_id j.id) (delayed_row now_ms raison (j.tentatives - 1)) m.jobs
      (λ k. refl) (λ k there t h. (tt, h.1)) v
fail_end-IsValid now_ms j raison true true m v = elim (Bool-cases (leb max_attempts j.tentatives)) [
  | inl spent ↦ rw (spent, fail_end) (finish-IsValid now_ms j.id echoue (some raison) m tt v)
  | inr left ↦
      rw (left, fail_end)
        (update_where-IsValid (has_job_id j.id) (retried_row now_ms raison) m.jobs (λ k. refl)
          (λ k there t h. (tt, h.1)) v)
]

through_row-IsSound :
    (now_ms : ℕ) (a : MontageAnalyse) (j : JobRow) → IsSound j → IsSound (through_row now_ms a j)
through_row-IsSound now_ms a j (h, k) = (
  elim j.state
        as (λ st.
          StateOk st j.worker_id j.lease_until j.bail_id j.analyse_json j.finished_at
          → StateOk st j.worker_id (some (now_ms + lease_ms)) j.bail_id (some a) j.finished_at) [
            | en_cours ↦ λ (x, y, z). (x, refl, z)
            | a_valider ↦ λ x. refl
            | _ ↦ λ x. x
          ]
      h,
  refl,
)

pub analysis_done-IsValid :
    (now_ms : ℕ) (policy : MontageAuto) (worker_id : String) (lease : MontageLease)
    (a : MontageAnalyse) (m : Montages)
    → IsValid m.jobs
    → IsValid (analysis_done now_ms policy worker_id lease a m).0.jobs
unfolding analysis_done
analysis_done-IsValid now_ms policy worker_id lease a m v =
    elim (Result-cases (held worker_id lease m)) [
      | inl (e, no_lease) ↦ rw (no_lease, analysis_done) v
      | inr (j, ours) ↦ elim (Bool-cases (is_analyse j.phase)) [
        | inr edited ↦ rw (ours, edited, analysis_done) v
        | inl analysed ↦ elim (Bool-cases (goes_on policy a.confiance)) [
          | inl through ↦
              rw (ours, analysed, through, analysis_done)
                (update_where-IsValid (has_job_id lease.job_id) (through_row now_ms a) m.jobs
                  (λ k. refl) (λ k there t h. through_row-IsSound now_ms a k h) v)
          | inr doubtful ↦
              rw (ours, analysed, doubtful, analysis_done)
                (update_where-IsValid (has_job_id lease.job_id) (to_validate_row now_ms a) m.jobs
                  (λ k. refl) (λ k there t h. (refl, h.1)) v)
        ]
      ]
    ]

pub validate-IsValid :
    (now_ms : ℕ) (job_id : String) (debut_ms fin_ms : ℕ) (by : String) (m : Montages)
    → IsValid m.jobs
    → IsValid (validate now_ms job_id debut_ms fin_ms by m).0.jobs
unfolding validate
validate-IsValid now_ms job_id debut_ms fin_ms by m v = elim (Option-cases (job_of job_id m)) [
  | inl absent ↦ rw (absent, validate) v
  | inr (j, found) ↦ elim (Bool-cases (may_validate j.state)) [
    | inr early ↦ rw (found, early, validate) v
    | inl ready ↦ elim (Option-cases j.analyse_json) [
      | inl unread ↦ rw (found, ready, unread, validate) v
      | inr (a, read) ↦ elim (Bool-cases (leb fin_ms debut_ms || ltb a.take_ms fin_ms)) [
        | inl bad ↦ rw (found, ready, read, bad, validate) v
        | inr good ↦
            rw (found, ready, read, good, validate)
              (update_where-IsValid (has_job_id job_id)
                (validated_row now_ms (cut_of a debut_ms fin_ms) by) m.jobs (λ k. refl)
                (λ k there t h. (tt, refl)) v)
      ]
    ]
  ]
]
