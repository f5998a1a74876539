-- ===== src/Montage.antt =====
-- apps/hub-server/src/services/montage.ts: the montage jobs and their workers, over the tables
-- `montage_job` and `montage_worker` of packages/db/src/hub/schema.ts. The storage service is an
-- argument, `vod`; so are the instant, in milliseconds, and the ULIDs that are drawn. What a call
-- refuses keeps its code, without its text.
pub mod Queue
pub mod Lease
pub mod Console
pub mod Sound
pub mod Valid
pub mod Held
pub mod Life
pub mod Stale
use conference_operator.Common.{
  ℕ, ◌+◌, String, Bool, true, false, ◌&&◌, ◌||◌, Option, none, some, List, [], ◌∷◌, ◌++◌, str_eq,
  filter, find?, if◌then◌else◌,
}
use conference_operator.Common.Int.{ℤ}

abbrev pub lease_ms : ℕ
lease_ms = 600000

abbrev pub retry_delay_ms : ℕ
retry_delay_ms = 600000

abbrev pub max_attempts : ℕ
max_attempts = 3

pub data MontageError : Type 0 where
  not_found conflict precondition_failed : MontageError

pub data MontageState : Type 0 where
  attente en_cours a_valider termine echoue annule : MontageState

pub data MontagePhase : Type 0 where
  analyse montage : MontagePhase

pub data Etape : Type 0 where
  telechargement analyse_etape intro outro assemblage envoi : Etape

pub data CutSource : Type 0 where
  marque regie parole prise manuel : CutSource

pub record CutSide : Type 0 where
  pub source : CutSource
  pub calee : Bool
  pub deplacement_ms : ℤ

pub record MontageCoupe : Type 0 where
  pub debut_ms : ℕ
  pub fin_ms : ℕ
  pub debut : CutSide
  pub fin : CutSide

pub data Confiance : Type 0 where
  haute moyenne basse : Confiance

pub record MontageAnalyse : Type 0 where
  pub proposition : MontageCoupe
  pub confiance : Confiance
  pub take_ms : ℕ

pub data MontageAuto : Type 0 where
  toujours si_confiance_haute jamais : MontageAuto

pub record JobRow : Type 0 where
  pub id : String
  pub session_id : String
  pub room_id : String
  pub sidecar_upload_id : String
  pub state : MontageState
  pub etape : Option Etape
  pub pourcent : ℕ
  pub worker_id : Option String
  pub lease_until : Option ℕ
  pub bail_id : Option String
  pub pas_avant : Option ℕ
  pub tentatives : ℕ
  pub output_key : Option String
  pub s3_upload_id : Option String
  pub duration_ms : Option ℕ
  pub phase : MontagePhase
  pub analyse_json : Option MontageAnalyse
  pub coupe_json : Option MontageCoupe
  pub validee_par : Option String
  pub erreur : Option String
  pub created_at : ℕ
  pub updated_at : ℕ
  pub finished_at : Option ℕ

pub record WorkerRow : Type 0 where
  pub id : String
  pub nom : String
  pub token_hash : Option String
  pub revoked_at : Option ℕ

-- The two tables, and the multiparts that the storage was asked to abort.
pub record Montages : Type 0 where
  pub jobs : List JobRow
  pub workers : List WorkerRow
  pub aborted : List (String × String)

-- What the hub's storage service answers of an upload.
pub record Upload : Type 0 where
  pub is_termine : Bool
  pub object_key : String

pub record VodService : Type 0 where
  pub ready : Bool
  pub upload : String → Option Upload
  pub montage_key_for : String → String
  pub latest_sidecar : String → Option (String × String)

pub record MontageLease : Type 0 where
  pub job_id : String
  pub bail_id : String

pub data Result (A : Type 0) : Type 0 where
  refused : MontageError → Result A
  done : A → Result A

abbrev pub is_attente : MontageState → Bool
is_attente attente = true
is_attente _ = false

abbrev pub is_en_cours : MontageState → Bool
is_en_cours en_cours = true
is_en_cours _ = false

abbrev pub same_text : Option String → String → Bool
same_text none t = false
same_text (some s) t = str_eq s t

-- `update(montageJob).set(…).where(…)`
abbrev pub update_where : (JobRow → Bool) → (JobRow → JobRow) → List JobRow → List JobRow
update_where test f [] = []
update_where test f (j ∷ jobs) = (if test j then f j else j) ∷ update_where test f jobs

abbrev pub has_job_id : String → JobRow → Bool
has_job_id id j = str_eq j.id id

abbrev pub update_jobs : (JobRow → Bool) → (JobRow → JobRow) → Montages → Montages
update_jobs test f m = record m { jobs = update_where test f m.jobs }

-- `job`
abbrev pub job_of : String → Montages → Option JobRow
job_of id m = find? (has_job_id id) m.jobs

abbrev pub finished_row : ℕ → MontageState → Option String → JobRow → JobRow
finished_row now_ms state erreur j = record j {
  state = state;
  erreur = erreur;
  etape = none;
  lease_until = none;
  s3_upload_id = none;
  finished_at = some now_ms;
  updated_at = now_ms;
}

unfoldable pub finish : ℕ → String → MontageState → Option String → Montages → Montages
finish now_ms id state erreur m = update_jobs (has_job_id id) (finished_row now_ms state erreur) m

-- A job put back in the queue.
abbrev pub requeued_row : ℕ → JobRow → JobRow
requeued_row now_ms j = record j {
  state = attente;
  worker_id = none;
  lease_until = none;
  etape = none;
  pourcent = 0;
  updated_at = now_ms;
}

abbrev abort_keys : Option String → Option String → List (String × String)
abort_keys (some s3) (some key) = (key, s3) ∷ []
abort_keys _ _ = []

-- `abortOutput`; `vod` says whether there is a storage.
unfoldable pub abort_output : Option VodService → JobRow → Montages → Montages
abort_output none j m = m
abort_output (some vod) j m = record m {
  aborted = m.aborted ++ abort_keys j.s3_upload_id j.output_key;
}

abbrev pub require_vod : Option VodService → Option VodService
require_vod none = none
require_vod (some vod) = if vod.ready then some vod else none
