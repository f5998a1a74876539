-- ===== src/Montage/Sound.antt =====
-- The well-formed table of jobs of apps/hub-server/src/services/montage.ts, and the updates of its rows.
use conference_operator.Common.{
  ℕ, ◌≡◌, ◌≢◌, inl, inr, refl, String, Bool, true, Option, is_some, List, [], ◌∷◌, map, All, In,
  Pairwise, Bool-cases,
}
use conference_operator.Montage.{
  MontageState, attente, en_cours, a_valider, termine, echoue, annule, MontagePhase, analyse,
  montage, JobRow, Montages, MontageAnalyse, MontageCoupe, update_where, has_job_id, finish,
  finished_row,
}

-- What the columns of a row owe to its state, and to its phase.
abbrev pub StateOk :
    MontageState
    → Option String
    → Option ℕ
    → Option String
    → Option MontageAnalyse
    → Option ℕ
    → Type 0
StateOk attente worker lease bail analysed finished = Unit
StateOk en_cours worker lease bail analysed finished =
    (is_some worker ≡ true) × (is_some lease ≡ true) × (is_some bail ≡ true)
StateOk a_valider worker lease bail analysed finished = is_some analysed ≡ true
StateOk _ worker lease bail analysed finished = is_some finished ≡ true

abbrev pub PhaseOk : MontagePhase → Option MontageCoupe → Type 0
PhaseOk analyse coupe = Unit
PhaseOk montage coupe = is_some coupe ≡ true

-- A job under way has a worker, a lease and its identity; one to validate has its analysis; one
-- that is over has its date; one in the phase of the montage has its cut.
abbrev pub IsSound : JobRow → Type 0
IsSound j =
    StateOk j.state j.worker_id j.lease_until j.bail_id j.analyse_json j.finished_at
    × PhaseOk j.phase j.coupe_json

pub record IsValid (jobs : List JobRow) : Type 0 where
  pub unique : Pairwise (λ a b. a ≢ b) (map (λ (j : JobRow). j.id) jobs)
  pub sound : All IsSound jobs

-- An update that keeps the ids and the rows it touches sound.
abbrev pub Keeps : List JobRow → (JobRow → Bool) → (JobRow → JobRow) → Type 0
Keeps jobs test f = (j : JobRow) → In j jobs → test j ≡ true → IsSound j → IsSound (f j)

update_where-ids :
    (test : JobRow → Bool) (f : JobRow → JobRow) (jobs : List JobRow)
    → ((j : JobRow) → (f j).id ≡ j.id)
    → map (λ (j : JobRow). j.id) (update_where test f jobs) ≡ map (λ (j : JobRow). j.id) jobs
update_where-ids test f [] same = refl
update_where-ids test f (j ∷ jobs) same = elim (Bool-cases (test j)) [
  | inl t ↦ rw (t, same j, update_where-ids test f jobs same) refl
  | inr t ↦ rw (t, update_where-ids test f jobs same) refl
]

update_where-IsSound :
    (test : JobRow → Bool) (f : JobRow → JobRow) (jobs : List JobRow)
    → Keeps jobs test f
    → All IsSound jobs
    → All IsSound (update_where test f jobs)
update_where-IsSound test f [] keeps v = tt
update_where-IsSound test f (j ∷ jobs) keeps (h, v) =
    let rest = update_where-IsSound test f jobs (λ k m. keeps k (inr m)) v in
    elim (Bool-cases (test j)) [
      | inl t ↦ rw t (keeps j (inl refl) t h, rest)
      | inr t ↦ rw t (h, rest)
    ]

pub update_where-IsValid :
    (test : JobRow → Bool) (f : JobRow → JobRow) (jobs : List JobRow)
    → ((j : JobRow) → (f j).id ≡ j.id)
    → Keeps jobs test f
    → IsValid jobs
    → IsValid (update_where test f jobs)
update_where-IsValid test f jobs same keeps v = record {
  unique = rw (update_where-ids test f jobs same) v.unique;
  sound = update_where-IsSound test f jobs keeps v.sound;
}

-- A state that ends a job.
abbrev pub IsEnd : MontageState → Type 0
IsEnd termine = Unit
IsEnd echoue = Unit
IsEnd annule = Unit
IsEnd _ = ⊥

finished_row-IsSound :
    (now_ms : ℕ) (state : MontageState) (erreur : Option String) (j : JobRow)
    → IsEnd state
    → IsSound j
    → IsSound (finished_row now_ms state erreur j)
finished_row-IsSound now_ms termine erreur j e (h, k) = (refl, k)
finished_row-IsSound now_ms echoue erreur j e (h, k) = (refl, k)
finished_row-IsSound now_ms annule erreur j e (h, k) = (refl, k)
finished_row-IsSound now_ms attente erreur j e h = absurd e
finished_row-IsSound now_ms en_cours erreur j e h = absurd e
finished_row-IsSound now_ms a_valider erreur j e h = absurd e

pub finish-IsValid :
    (now_ms : ℕ) (id : String) (state : MontageState) (erreur : Option String) (m : Montages)
    → IsEnd state
    → IsValid m.jobs
    → IsValid (finish now_ms id state erreur m).jobs
unfolding finish
finish-IsValid now_ms id state erreur m e v =
    update_where-IsValid (has_job_id id) (finished_row now_ms state erreur) m.jobs (λ j. refl)
      (λ j there t h. finished_row-IsSound now_ms state erreur j e h) v
