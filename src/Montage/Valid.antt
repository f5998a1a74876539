-- ===== src/Montage/Valid.antt =====
-- The operations of apps/hub-server/src/services/montage.ts on the queue keep its table well formed.
use conference_operator.Common.{
  ℕ, ◌+◌, ◌≡◌, ◌≢◌, inl, inr, refl, sym, ◌∙◌, String, Bool, true, Option, some, List, [], ◌∷◌, ◌++◌,
  map, eq_iff, arith, All, All-append, All-map, In, Pairwise, Pairwise-map, Pairwise-snoc,
  Pairwise-cases, Bool-cases, Option-cases, find?, filter, leb,
}
use conference_operator.Montage.{
  MontageState, attente, en_cours, a_valider, termine, echoue, annule, JobRow, Montages, VodService,
  is_attente, update_jobs, has_job_id, requeued_row, require_vod, max_attempts,
}
use conference_operator.Montage.Queue.{
  MontageInput, awaits, replaced_row, new_row, enqueue, expire_jobs, expire_leases, still_en_cours,
  claim_first, claim, claimed_row, still_attente, sidecar_of, candidates, revoke, is_lapsed,
  held_by, is_active,
}
use conference_operator.Montage.Sound.{IsSound, IsValid, update_where-IsValid, finish-IsValid}

find?-In :
    (test : JobRow → Bool) (jobs : List JobRow) (j : JobRow)
    → find? test jobs ≡ some j
    → In j jobs × (test j ≡ true)
find?-In test [] j h = cc
find?-In test (k ∷ jobs) j h = elim (Bool-cases (test k)) [
  | inl t ↦
      let found : some k ≡ some j = sym (rw t refl) ∙ h in
      let same : k ≡ j = cc in (inl (sym same), rw (← same) t)
  | inr t ↦ let (m, u) = find?-In test jobs j (rw t at h) in (inr m, u)
]

-- Two rows of the table with one id are the same.
same_row :
    (jobs : List JobRow) (a b : JobRow)
    → Pairwise (λ x y. x ≢ y) (map (λ (j : JobRow). j.id) jobs)
    → In a jobs
    → In b jobs
    → a.id ≡ b.id
    → a ≡ b
same_row jobs a b unique m n same =
    elim (Pairwise-cases (λ (x y : JobRow). x.id ≢ y.id) jobs a b
      ((Pairwise-map (λ x y. x ≢ y) (λ (j : JobRow). j.id) jobs).0 unique) m n) [
        | inl eq ↦ eq
        | inr (inl ne) ↦ absurd (ne same)
        | inr (inr ne) ↦ absurd (ne (sym same))
      ]

replaced_row-IsSound :
    (now_ms : ℕ) (input : MontageInput) (this_take_only : Bool) (waiting : JobRow)
    → awaits input this_take_only waiting ≡ true
    → IsSound (replaced_row now_ms input waiting)
replaced_row-IsSound now_ms input this_take_only waiting h =
    let waits : waiting.state ≡ attente = is_attente_iff waiting.state (ground arith) in
    (rw waits tt, tt)
  where
    is_attente_iff : (state : MontageState) → is_attente state ≡ true → state ≡ attente
    is_attente_iff attente h = refl
    is_attente_iff en_cours h = cc
    is_attente_iff a_valider h = cc
    is_attente_iff termine h = cc
    is_attente_iff echoue h = cc
    is_attente_iff annule h = cc

-- An id that no row has.
abbrev pub IsFresh : String → List JobRow → Type 0
IsFresh id jobs = All (λ other. other ≢ id) (map (λ (j : JobRow). j.id) jobs)

pub enqueue-IsValid :
    (now_ms : ℕ) (ulid : String) (input : MontageInput) (this_take_only : Bool) (m : Montages)
    → IsFresh ulid m.jobs
    → IsValid m.jobs
    → IsValid (enqueue now_ms ulid input this_take_only m).0.jobs
unfolding enqueue
enqueue-IsValid now_ms ulid input this_take_only m fresh v =
    elim (Option-cases (find? (awaits input this_take_only) m.jobs)) [
      | inl nobody ↦
          rw (nobody, enqueue)
            (record {
              unique =
                  (Pairwise-map (λ x y. x ≢ y) (λ (j : JobRow). j.id)
                      (m.jobs ++ (new_row now_ms ulid input ∷ []))).1
                    (Pairwise-snoc (λ (x y : JobRow). x.id ≢ y.id) m.jobs
                      (new_row now_ms ulid input)
                      ((Pairwise-map (λ x y. x ≢ y) (λ (j : JobRow). j.id) m.jobs).0 v.unique)
                      ((All-map (λ other. other ≢ ulid) (λ (j : JobRow). j.id) m.jobs).0 fresh));
              sound =
                  All-append IsSound m.jobs (new_row now_ms ulid input ∷ []) v.sound ((tt, tt), tt);
            })
      | inr (waiting, found) ↦
          let (there, awaited) = find?-In (awaits input this_take_only) m.jobs waiting found in
          rw (found, enqueue)
            (update_where-IsValid (has_job_id waiting.id) (replaced_row now_ms input) m.jobs
              (λ j. refl)
              (λ j here t h.
                let same =
                  same_row m.jobs j waiting v.unique here there ((eq_iff j.id waiting.id).0 t) in
                rw same (replaced_row-IsSound now_ms input this_take_only waiting awaited))
              v)
    ]

expire_jobs-IsValid :
    (now_ms : ℕ) (lapsed : List JobRow) (m : Montages)
    → IsValid m.jobs
    → IsValid (expire_jobs now_ms lapsed m).jobs
unfolding expire_jobs
expire_jobs-IsValid now_ms [] m v = v
expire_jobs-IsValid now_ms (j ∷ lapsed) m v = elim (Bool-cases (leb max_attempts j.tentatives)) [
  | inl spent ↦
      rw (spent, expire_jobs)
        (expire_jobs-IsValid now_ms lapsed _
          (finish-IsValid now_ms j.id echoue (some "abandonné par son worker") m tt v))
  | inr left ↦
      rw (left, expire_jobs)
        (expire_jobs-IsValid now_ms lapsed
          (update_jobs (still_en_cours j.id) (requeued_row now_ms) m)
          (update_where-IsValid (still_en_cours j.id) (requeued_row now_ms) m.jobs (λ k. refl)
            (λ k there t h. (tt, h.1)) v))
]

pub expire_leases-IsValid :
    (now_ms : ℕ) (m : Montages) → IsValid m.jobs → IsValid (expire_leases now_ms m).jobs
unfolding expire_leases
expire_leases-IsValid now_ms m v = expire_jobs-IsValid now_ms (filter (is_lapsed now_ms) m.jobs) m v

claim_first-IsValid :
    (now_ms : ℕ) (vod : VodService) (worker_id : String) (draw : String → String)
    (jobs : List JobRow) (m : Montages)
    → IsValid m.jobs
    → IsValid (claim_first now_ms vod worker_id draw jobs m).0.jobs
unfolding claim_first
claim_first-IsValid now_ms vod worker_id draw [] m v = v
claim_first-IsValid now_ms vod worker_id draw (j ∷ jobs) m v =
    elim (Option-cases (sidecar_of vod j.sidecar_upload_id)) [
      | inl absent ↦
          rw (absent, claim_first)
            (claim_first-IsValid now_ms vod worker_id draw jobs _ (
              finish-IsValid now_ms j.id echoue
                (some "le sidecar de la prise n’est plus dans le stockage") m tt v))
      | inr (sidecar, there) ↦ elim (Option-cases (find? (still_attente j.id) m.jobs)) [
        | inl missed ↦
            rw (there, missed, claim_first) (claim_first-IsValid now_ms vod worker_id draw jobs m v)
        | inr (row, found) ↦
            rw (there, found, claim_first)
              (update_where-IsValid (still_attente j.id)
                (claimed_row now_ms worker_id (draw j.id) (j.tentatives + 1)) m.jobs (λ k. refl)
                (λ k here t h. ((refl, refl, refl), h.1)) v)
      ]
    ]

pub claim-IsValid :
    (now_ms : ℕ) (vod : Option VodService) (en_pause : Bool) (worker_id : String)
    (draw : String → String) (m : Montages)
    → IsValid m.jobs
    → IsValid (claim now_ms vod en_pause worker_id draw m).0.jobs
unfolding claim
claim-IsValid now_ms vod en_pause worker_id draw m v = elim (Option-cases (require_vod vod)) [
  | inl absent ↦ rw (absent, claim) v
  | inr (storage, ready) ↦
      let expired = expire_leases-IsValid now_ms m v in
      elim (Bool-cases en_pause) [
        | inl paused ↦ rw (ready, paused, claim) expired
        | inr running ↦
            rw (ready, running, claim)
              (claim_first-IsValid now_ms storage worker_id draw
                (candidates now_ms (expire_leases now_ms m).jobs) _ expired)
      ]
]

pub revoke-IsValid :
    (now_ms : ℕ) (id : String) (m : Montages) → IsValid m.jobs → IsValid (revoke now_ms id m).0.jobs
unfolding revoke
revoke-IsValid now_ms id m v = elim (Option-cases (find? (is_active id) m.workers)) [
  | inl absent ↦ rw (absent, revoke) v
  | inr (w, found) ↦
      rw (found, revoke)
        (update_where-IsValid (held_by id) (requeued_row now_ms) m.jobs (λ k. refl)
          (λ k there t h. (tt, h.1)) v)
]
