-- ===== src/Tests/Jobs.antt =====
-- The montage jobs, at small examples.
use conference_operator.Common.{◌≡◌, inr, refl, true, false, none, some, [], ◌∷◌}
use conference_operator.Montage.{
  en_cours, annule, termine, telechargement, toujours, haute, parole, analyse, CutSide,
  MontageAnalyse, JobRow, Montages, VodService, MontageLease, refused, done, conflict, job_of,
}
use conference_operator.Common.Int.{pos}
use conference_operator.Tests.Queue.{apart}
use conference_operator.Montage.Queue.{enqueue, claim}
use conference_operator.Montage.Lease.{
  heartbeat, held, open_upload_begin, complete_begin, complete_end, fail_begin, analysis_done,
}
use conference_operator.Montage.Console.{cancel_begin, cancel_end}
use conference_operator.Montage.Sound.{IsValid}
use conference_operator.Montage.Life.{here, next, enqueues, claims, Reach-IsValid}
use conference_operator.Montage.Stale.{Denied, has_lease-Denied, complete_end-cancel_end}

abbrev storage : VodService
storage = record {
  ready = true;
  upload = λ id. some (record { is_termine = true; object_key = "r1/take.json" });
  montage_key_for = λ key. "r1/take.mp4";
  latest_sidecar = λ id. none;
}

abbrev nothing_queued : Montages
nothing_queued = record { jobs = []; workers = []; aborted = [] }

abbrev queued : Montages
queued =
    (enqueue 1000 "j1" (record { session_id = "t1"; room_id = "r1"; sidecar_upload_id = "u1" })
      false nothing_queued).0

abbrev claimed : Montages
claimed = (claim 2000 (some storage) false "w1" (λ id. "b1") queued).0

life_example : IsValid claimed.jobs
life_example =
    Reach-IsValid {m = nothing_queued} (record { unique = tt; sound = tt })
      (next
        (next here (
          enqueues 1000 "j1"
            (record { session_id = "t1"; room_id = "r1"; sidecar_upload_id = "u1" }) false tt))
        (claims 2000 (some storage) false "w1" (λ id. "b1")))

abbrev under_way : JobRow
under_way = record {
  id = "j1";
  session_id = "t1";
  room_id = "r1";
  sidecar_upload_id = "u1";
  state = en_cours;
  etape = some telechargement;
  pourcent = 0;
  worker_id = some "w1";
  lease_until = some 602000;
  bail_id = some "b2";
  pas_avant = none;
  tentatives = 2;
  output_key = some "r1/take.mp4";
  s3_upload_id = some "s3";
  duration_ms = none;
  phase = analyse;
  analyse_json = none;
  coupe_json = none;
  validee_par = none;
  erreur = none;
  created_at = 1000;
  updated_at = 2000;
  finished_at = none;
}

abbrev rendering : Montages
rendering = record { jobs = under_way ∷ []; workers = []; aborted = [] }

-- The lease of the first claim, which lapsed.
abbrev lapsed : MontageLease
lapsed = record { job_id = "j1"; bail_id = "b1" }

abbrev current : MontageLease
current = record { job_id = "j1"; bail_id = "b2" }

abbrev at_edge : CutSide
at_edge = record { source = parole; calee = false; deplacement_ms = pos 0 }

abbrev whole : MontageAnalyse
whole = record {
  proposition = record { debut_ms = 0; fin_ms = 5000; debut = at_edge; fin = at_edge };
  confiance = haute;
  take_ms = 5000;
}

has_lease-Denied_example :
    Denied (heartbeat 3000 "w1" lapsed telechargement 10 rendering) rendering
    × Denied (open_upload_begin (some storage) "w1" lapsed rendering) rendering
    × (complete_begin (some storage) "w1" lapsed rendering ≡ refused conflict)
    × Denied (fail_begin (some storage) "w1" lapsed rendering) rendering
    × Denied (analysis_done 3000 toujours "w1" lapsed whole rendering) rendering
has_lease-Denied_example =
    has_lease-Denied 3000 storage "w1" lapsed telechargement 10 toujours whole rendering under_way
      refl refl (inr (λ same. let texts : "b2" ≡ "b1" = cc in apart "b2" "b1" refl texts))

held_now : held "w1" current rendering ≡ done under_way
unfolding held
held_now = refl

cancelled_example :
    ((cancel_begin (some storage) "j1" rendering).1 ≡ done true)
    × ((k : JobRow) × (job_of "j1" (cancel_end 4000 "j1" rendering) ≡ some k) × (k.state ≡ annule))
    × ((k : JobRow) × (job_of "j1"
            (complete_end 5000 "j1" 5000 none (cancel_end 4000 "j1" rendering))
          ≡ some k)
        × (k.state ≡ termine))
cancelled_example =
    complete_end-cancel_end (some storage) 4000 5000 "w1" current 5000 none rendering under_way
      held_now
