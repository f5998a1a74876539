-- ===== src/Montage/Life.antt =====
-- The life of a job of apps/hub-server/src/services/montage.ts: the calls in any order, the halves of a
-- call that waits taken apart.
use conference_operator.Common.{ℕ, refl, String, Bool, Option, none}
use conference_operator.Montage.{
  annule, Etape, MontageCoupe, MontageAnalyse, MontageAuto, JobRow, Montages, VodService,
  MontageLease, has_job_id, abort_output,
}
use conference_operator.Montage.Queue.{MontageInput, enqueue, claim, revoke, expire_leases}
use conference_operator.Montage.Lease.{
  heartbeat, open_upload_end, opened_row, complete_end, fail_end, analysis_done,
}
use conference_operator.Montage.Console.{validate, cancel_end, forget_all}
use conference_operator.Montage.Sound.{IsValid, update_where-IsValid, finish-IsValid}
use conference_operator.Montage.Valid.{
  IsFresh, enqueue-IsValid, claim-IsValid, revoke-IsValid, expire_leases-IsValid,
}
use conference_operator.Montage.Held.{
  abort_output-jobs, heartbeat-IsValid, complete_end-IsValid, fail_end-IsValid,
  analysis_done-IsValid, validate-IsValid,
}

-- One operation, or one half of one. The second half of an operation that waited may come at any
-- moment, with anything it may have read before.
pub data Step : Montages → Montages → Type 0 where
  enqueues :
      {m : Montages} (now_ms : ℕ) (ulid : String) (input : MontageInput) (this_take_only : Bool)
      → IsFresh ulid m.jobs
      → Step m (enqueue now_ms ulid input this_take_only m).0
  claims :
      {m : Montages} (now_ms : ℕ) (vod : Option VodService) (en_pause : Bool) (worker_id : String)
      (draw : String → String)
      → Step m (claim now_ms vod en_pause worker_id draw m).0
  expires : {m : Montages} (now_ms : ℕ) → Step m (expire_leases now_ms m)
  revokes : {m : Montages} (now_ms : ℕ) (id : String) → Step m (revoke now_ms id m).0
  beats :
      {m : Montages} (now_ms : ℕ) (worker_id : String) (lease : MontageLease) (etape : Etape)
      (pourcent : ℕ)
      → Step m (heartbeat now_ms worker_id lease etape pourcent m).0
  aborts : {m : Montages} (vod : Option VodService) (j : JobRow) → Step m (abort_output vod j m)
  opens :
      {m : Montages} (now_ms : ℕ) (lease : MontageLease) (output_key s3_upload_id : String)
      → Step m (open_upload_end now_ms lease output_key s3_upload_id m)
  completes :
      {m : Montages} (now_ms : ℕ) (job_id : String) (duration_ms : ℕ) (coupe : Option MontageCoupe)
      → Step m (complete_end now_ms job_id duration_ms coupe m)
  fails :
      {m : Montages} (now_ms : ℕ) (j : JobRow) (raison : String) (reessayer compter : Bool)
      → Step m (fail_end now_ms j raison reessayer compter m)
  analyses :
      {m : Montages} (now_ms : ℕ) (policy : MontageAuto) (worker_id : String) (lease : MontageLease)
      (a : MontageAnalyse)
      → Step m (analysis_done now_ms policy worker_id lease a m).0
  validates :
      {m : Montages} (now_ms : ℕ) (job_id : String) (debut_ms fin_ms : ℕ) (by : String)
      → Step m (validate now_ms job_id debut_ms fin_ms by m).0
  cancels : {m : Montages} (now_ms : ℕ) (job_id : String) → Step m (cancel_end now_ms job_id m)
  forgets : {m : Montages} → Step m (forget_all m)

pub data Reach (m : Montages) : Montages → Type 0 where
  here : Reach m m
  next : {n p : Montages} → Reach m n → Step n p → Reach m p

Step-IsValid : {m n : Montages} → IsValid m.jobs → Step m n → IsValid n.jobs
unfolding open_upload_end cancel_end forget_all
Step-IsValid {m} v (enqueues now_ms ulid input this_take_only fresh) =
    enqueue-IsValid now_ms ulid input this_take_only m fresh v
Step-IsValid {m} v (claims now_ms vod en_pause worker_id draw) =
    claim-IsValid now_ms vod en_pause worker_id draw m v
Step-IsValid {m} v (expires now_ms) = expire_leases-IsValid now_ms m v
Step-IsValid {m} v (revokes now_ms id) = revoke-IsValid now_ms id m v
Step-IsValid {m} v (beats now_ms worker_id lease etape pourcent) =
    heartbeat-IsValid now_ms worker_id lease etape pourcent m v
Step-IsValid {m} v (aborts vod j) = rw (abort_output-jobs vod j m) v
Step-IsValid {m} v (opens now_ms lease output_key s3_upload_id) =
    update_where-IsValid (has_job_id lease.job_id) (opened_row now_ms output_key s3_upload_id)
      m.jobs (λ j. refl) (λ j there t h. h) v
Step-IsValid {m} v (completes now_ms job_id duration_ms coupe) =
    complete_end-IsValid now_ms job_id duration_ms coupe m v
Step-IsValid {m} v (fails now_ms j raison reessayer compter) =
    fail_end-IsValid now_ms j raison reessayer compter m v
Step-IsValid {m} v (analyses now_ms policy worker_id lease a) =
    analysis_done-IsValid now_ms policy worker_id lease a m v
Step-IsValid {m} v (validates now_ms job_id debut_ms fin_ms by) =
    validate-IsValid now_ms job_id debut_ms fin_ms by m v
Step-IsValid {m} v (cancels now_ms job_id) = finish-IsValid now_ms job_id annule none m tt v
Step-IsValid {m} v forgets = record { unique = tt; sound = tt }

-- Whatever the operations and their order, and whatever comes while one waits for the storage: ids
-- stay unique, a job under way has a worker, a lease and a lease identity, a job to validate has its
-- analysis, a job that is over has its date, and a job in the phase of the montage has its cut.
pub Reach-IsValid : {m n : Montages} → IsValid m.jobs → Reach m n → IsValid n.jobs
Reach-IsValid v here = v
Reach-IsValid v (next r s) = Step-IsValid (Reach-IsValid v r) s
