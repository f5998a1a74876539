-- ===== src/Montage/Stale.antt =====
-- Who may write a job under way, in apps/hub-server/src/services/montage.ts.
use conference_operator.Common.{
  eq_iff, ◌≢◌, ◌⊎◌, ◌↔◌, ℕ, ◌≡◌, inl, inr, refl, sym, ap, ◌∙◌, String, true, false, Option, none,
  some, List, [], ◌∷◌, arith, Bool-cases, Option-cases, find?,
}
use conference_operator.Montage.{
  same_text, termine, annule, Etape, MontageCoupe, MontageAnalyse, MontageAuto, JobRow, Montages,
  VodService, MontageLease, Result, refused, done, conflict, not_found, finish, finished_row,
  job_of, has_job_id, update_where, is_en_cours,
}
use conference_operator.Montage.Lease.{
  held, heartbeat, has_lease, open_upload_begin, complete_begin, complete_end, fail_begin,
  analysis_done, completed_row,
}
use conference_operator.Montage.Console.{cancel_begin, cancel_end}

-- A call that is refused and writes nothing.
abbrev pub Denied : {A : Type 0} → Montages × Result A → Montages → Type 0
Denied answer m = (answer.0 ≡ m) × (answer.1 ≡ refused conflict)

held-conflict :
    (worker_id : String) (lease : MontageLease) (m : Montages) (j : JobRow)
    → job_of lease.job_id m ≡ some j
    → has_lease worker_id lease j ≡ false
    → held worker_id lease m ≡ refused conflict
unfolding held
held-conflict worker_id lease m j found stale = rw (found, stale, held) refl

same_text_iff : (o : Option String) (t : String) → (same_text o t ≡ true) ↔ (o ≡ some t)
same_text_iff none t = (λ h. cc, λ h. cc)
same_text_iff (some s) t =
    (λ h. ap some ((eq_iff s t).0 h), λ h. let same : s ≡ t = cc in (eq_iff s t).1 same)

has_lease-false :
    (worker_id : String) (lease : MontageLease) (j : JobRow)
    → (j.worker_id ≢ some worker_id) ⊎ (j.bail_id ≢ some lease.bail_id)
    → has_lease worker_id lease j ≡ false
has_lease-false worker_id lease j other = elim (Bool-cases (has_lease worker_id lease j)) [
  | inr stale ↦ stale
  | inl ours ↦ absurd (elim other [
    | inl worker ↦ worker ((same_text_iff j.worker_id worker_id).0 (ground arith))
    | inr bail ↦ bail ((same_text_iff j.bail_id lease.bail_id).0 (ground arith))
  ])
]

-- With a storage that is ready, a call that another worker makes, or that names another lease than the
-- one the job is under, is refused as a conflict and writes nothing, whatever the job's state: a
-- heartbeat, the opening of an upload, the end of the work, its failure or the end of an analysis.
pub has_lease-Denied :
    (now_ms : ℕ) (vod : VodService) (worker_id : String) (lease : MontageLease) (etape : Etape)
    (pourcent : ℕ) (policy : MontageAuto) (a : MontageAnalyse) (m : Montages) (j : JobRow)
    → vod.ready ≡ true
    → job_of lease.job_id m ≡ some j
    → (j.worker_id ≢ some worker_id) ⊎ (j.bail_id ≢ some lease.bail_id)
    → Denied (heartbeat now_ms worker_id lease etape pourcent m) m
      × Denied (open_upload_begin (some vod) worker_id lease m) m
      × (complete_begin (some vod) worker_id lease m ≡ refused conflict)
      × Denied (fail_begin (some vod) worker_id lease m) m
      × Denied (analysis_done now_ms policy worker_id lease a m) m
unfolding heartbeat open_upload_begin complete_begin fail_begin analysis_done
has_lease-Denied now_ms vod worker_id lease etape pourcent policy a m j ready found other =
    let stale = has_lease-false worker_id lease j other in
    let denied = held-conflict worker_id lease m j found stale in
    (
      (rw (found, stale, heartbeat) refl, rw (found, stale, heartbeat) refl),
      (rw (ready, denied, open_upload_begin) refl, rw (ready, denied, open_upload_begin) refl),
      rw (ready, denied, complete_begin) refl,
      (rw (found, stale, fail_begin) refl, rw (found, stale, fail_begin) refl),
      (rw (denied, analysis_done) refl, rw (denied, analysis_done) refl),
    )

find?-update_where :
    (f : JobRow → JobRow) (id : String) (jobs : List JobRow) (j : JobRow)
    → ((k : JobRow) → (f k).id ≡ k.id)
    → find? (has_job_id id) jobs ≡ some j
    → find? (has_job_id id) (update_where (has_job_id id) f jobs) ≡ some (f j)
find?-update_where f id [] j same h = cc
find?-update_where f id (k ∷ jobs) j same h = elim (Bool-cases (has_job_id id k)) [
  | inl t ↦
      let found : some k ≡ some j = sym (rw t refl) ∙ h in
      let eq : k ≡ j = cc in
      let still : has_job_id id (f k) ≡ true = rw (same k) t in
      rw (t, still) (ap (λ x. some (f x)) eq)
  | inr t ↦ rw (t, t) (find?-update_where f id jobs j same (rw t at h))
]

held-en_cours :
    (worker_id : String) (lease : MontageLease) (m : Montages) (j : JobRow)
    → held worker_id lease m ≡ done j
    → (job_of lease.job_id m ≡ some j) × (is_en_cours j.state ≡ true)
unfolding held
held-en_cours worker_id lease m j h = elim (Option-cases (job_of lease.job_id m)) [
  | inl absent ↦ let bad : refused not_found ≡ done j = sym (rw (absent, held) refl) ∙ h in cc
  | inr (k, found) ↦ elim (Bool-cases (has_lease worker_id lease k)) [
    | inr stale ↦ let bad : refused conflict ≡ done j = sym (rw (found, stale, held) refl) ∙ h in cc
    | inl ours ↦ elim (Bool-cases (is_en_cours k.state)) [
      | inr over ↦
          let bad : refused conflict ≡ done j = sym (rw (found, ours, over, held) refl) ∙ h in cc
      | inl under_way ↦
          let ok : done k ≡ done j = sym (rw (found, ours, under_way, held) refl) ∙ h in
          let same : k ≡ j = cc in (rw (← same) found, rw (← same) under_way)
    ]
  ]
]

-- The operator cancels a job whose completion waits for the storage: the console is told that it is
-- cancelled, the job is then cancelled, and the end of the completion makes it done all the same.
pub complete_end-cancel_end :
    (vod : Option VodService) (cancelled_ms now_ms : ℕ) (worker_id : String) (lease : MontageLease)
    (duration_ms : ℕ) (coupe : Option MontageCoupe) (m : Montages) (j : JobRow)
    → held worker_id lease m ≡ done j
    → ((cancel_begin vod lease.job_id m).1 ≡ done true)
      × ((k : JobRow) × (job_of lease.job_id (cancel_end cancelled_ms lease.job_id m) ≡ some k)
          × (k.state ≡ annule))
      × ((k : JobRow) × (job_of lease.job_id (
              complete_end now_ms lease.job_id duration_ms coupe
                (cancel_end cancelled_ms lease.job_id m))
            ≡ some k)
          × (k.state ≡ termine))
unfolding cancel_begin cancel_end complete_end finish
complete_end-cancel_end vod cancelled_ms now_ms worker_id lease duration_ms coupe m j h =
    let (found, under_way) = held-en_cours worker_id lease m j h in
    let after =
      find?-update_where (finished_row cancelled_ms annule none) lease.job_id m.jobs j (λ k. refl)
        found in
    let last =
      find?-update_where (completed_row now_ms duration_ms coupe) lease.job_id
        (update_where (has_job_id lease.job_id) (finished_row cancelled_ms annule none) m.jobs)
        (finished_row cancelled_ms annule none j) (λ k. refl) after in
    (
      rw (found, under_way, cancel_begin) (ground arith),
      (finished_row cancelled_ms annule none j, after, refl),
      (
        completed_row now_ms duration_ms coupe (finished_row cancelled_ms annule none j),
        last,
        refl,
      ),
    )
