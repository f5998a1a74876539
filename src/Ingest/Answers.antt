-- ===== src/Ingest/Answers.antt =====
-- The YouTube consents that the rooms report, in apps/hub-server/src/services/ingest.ts, over the
-- table `session_consent`.
use conference_operator.Common.{
  ℕ, ◌<◌, ◌≡◌, refl, sym, ap, ◌∙◌, String, Bool, true, false, Option, none, some, List, ltb,
  if◌then◌else◌, arith, Bool-cases, inl, inr,
}
use conference_operator.Common.Maps.{get, set, delete, get-set, get-delete}
use conference_operator.Ingest.Project.{HubPayload, vod_consent}

pub record Consent : Type 0 where
  pub statut : String
  pub decide_a : ℕ
  pub room_id : String
  pub updated_at : ℕ

-- `known != null && known.decideA > decideA`
abbrev pub is_later : Option Consent → ℕ → Bool
is_later none decide_a = false
is_later (some known) decide_a = ltb decide_a known.decide_a

-- An answer, or its withdrawal, on the room's clock.
unfoldable pub file_consent :
    ℕ → String → String → Option String → ℕ → List (String × Consent) → List (String × Consent)
file_consent now_ms room_id session_id consentement decide_a consents =
    if is_later (get session_id consents) decide_a then consents else elim consentement [
      | none ↦ delete session_id consents
      | some statut ↦
          set session_id
            (record {
              statut = statut;
              decide_a = decide_a;
              room_id = room_id;
              updated_at = now_ms;
            })
            consents
    ]

unfoldable pub apply_consent :
    ℕ → String → HubPayload → List (String × Consent) → List (String × Consent)
unfolding file_consent
apply_consent now_ms room_id (vod_consent session_id consentement decide_a) consents =
    file_consent now_ms room_id session_id consentement decide_a consents
apply_consent now_ms room_id _ consents = consents

file_consent-stored :
    (now_ms : ℕ) (room_id session_id statut : String) (decide_a : ℕ)
    (consents : List (String × Consent))
    → is_later (get session_id consents) decide_a ≡ false
    → get session_id (file_consent now_ms room_id session_id (some statut) decide_a consents)
      ≡ some
          (record { statut = statut; decide_a = decide_a; room_id = room_id; updated_at = now_ms })
unfolding file_consent
file_consent-stored now_ms room_id session_id statut decide_a consents h =
    rw h (get-set session_id _ consents)

file_consent-left :
    (now_ms : ℕ) (room_id session_id : String) (consentement : Option String) (decide_a : ℕ)
    (consents : List (String × Consent))
    → is_later (get session_id consents) decide_a ≡ true
    → file_consent now_ms room_id session_id consentement decide_a consents ≡ consents
unfolding file_consent
file_consent-left now_ms room_id session_id consentement decide_a consents h = rw h refl

is_later_mono :
    (known : Option Consent) (a b : ℕ) → a < b → is_later known b ≡ true → is_later known a ≡ true
is_later_mono none a b h k = k
is_later_mono (some c) a b h k = ground arith

-- Two answers of different dates to the question of one talk leave the same row in whatever order
-- they are filed, when neither withdraws.
pub file_consent_comm :
    (now_ms now_ms' : ℕ) (room_id room_id' session_id statut statut' : String)
    (decide_a decide_a' : ℕ) (consents : List (String × Consent))
    → decide_a < decide_a'
    → get session_id (
        file_consent now_ms' room_id' session_id
          (some statut')
          decide_a'
          (file_consent now_ms room_id session_id (some statut) decide_a consents))
      ≡ get session_id (
          file_consent now_ms room_id session_id
            (some statut)
            decide_a
            (file_consent now_ms' room_id' session_id (some statut') decide_a' consents))
file_consent_comm now_ms now_ms' room_id room_id' session_id statut statut' decide_a decide_a'
      consents h =
    let first = file_consent now_ms room_id session_id (some statut) decide_a consents in
    let last = file_consent now_ms' room_id' session_id (some statut') decide_a' consents in
    elim (Bool-cases (is_later (get session_id consents) decide_a')) [
      | inl newer ↦
          let older : is_later (get session_id consents) decide_a ≡ true =
            is_later_mono (get session_id consents) decide_a decide_a' h newer in
          ap (get session_id) (
            ap (file_consent now_ms' room_id' session_id (some statut') decide_a')
              (file_consent-left now_ms room_id session_id (some statut) decide_a consents older)
            ∙ sym (
                ap (file_consent now_ms room_id session_id (some statut) decide_a) (
                  file_consent-left now_ms' room_id' session_id (some statut') decide_a' consents
                    newer)
                ∙ file_consent-left now_ms room_id session_id (some statut) decide_a consents older
                ∙ sym (
                    file_consent-left now_ms' room_id' session_id (some statut') decide_a' consents
                      newer)))
      | inr free ↦
          let kept =
            file_consent-stored now_ms' room_id' session_id statut' decide_a' consents free in
          file_consent-stored now_ms' room_id' session_id statut' decide_a' first
            (elim (Bool-cases (is_later (get session_id consents) decide_a)) [
              | inl older ↦
                  rw
                    (file_consent-left now_ms room_id session_id (some statut) decide_a consents
                      older)
                    free
              | inr open_row ↦
                  rw
                    (file_consent-stored now_ms room_id session_id statut decide_a consents
                      open_row)
                    (ground arith)
            ])
          ∙ sym (
              ap (get session_id) (
                file_consent-left now_ms room_id session_id (some statut) decide_a last
                  (rw kept (ground arith)))
              ∙ kept)
    ]

-- A withdrawal that is filed leaves no row, so that an answer of any date is stored after it, one
-- given before the withdrawal too.
pub file_consent_withdrawn :
    (now_ms now_ms' : ℕ) (room_id room_id' session_id statut : String) (decide_a decide_a' : ℕ)
    (consents : List (String × Consent))
    → is_later (get session_id consents) decide_a ≡ false
    → get session_id (
        file_consent now_ms' room_id' session_id
          (some statut)
          decide_a'
          (file_consent now_ms room_id session_id none decide_a consents))
      ≡ some (record {
        statut = statut;
        decide_a = decide_a';
        room_id = room_id';
        updated_at = now_ms';
      })
unfolding file_consent
file_consent_withdrawn now_ms now_ms' room_id room_id' session_id statut decide_a decide_a' consents
      h =
    file_consent-stored now_ms' room_id' session_id statut decide_a' _
      (rw (h, get-delete session_id consents) refl)
