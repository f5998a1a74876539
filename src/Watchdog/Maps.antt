-- ===== src/Watchdog/Maps.antt =====
-- The maps of apps/room-client/src/core/audio-watchdog.ts.
use conference_operator.Common.{
  ℕ, ◌≡◌, refl, sym, ◌∙◌, String, true, ◌&&◌, ◌||◌, List, [], ◌∷◌, arith, str_eq, eq_iff, find?,
  or_else, Bool-cases, inl, inr,
}
use conference_operator.Watchdog.{
  AlertKind, AudioAlert, same_kind, has_key_of, has_alert, set_alert, keep,
}

same_kind-eq : (a b : AlertKind) → same_kind a b ≡ true → a ≡ b
same_kind-eq a b h = ground arith

has_key_of-eq :
    (k : AlertKind) (i : String) (a b : AudioAlert)
    → has_key_of a.kind a.input b ≡ true
    → has_key_of k i a ≡ has_key_of k i b
has_key_of-eq k i a b h = ground (arith, same_kind-eq b.kind a.kind, eq_iff b.input a.input)

has_alert-set_alert :
    (k : AlertKind) (i : String) (a : AudioAlert) (next : List AudioAlert)
    → has_alert k i (set_alert a next) ≡ has_key_of k i a || has_alert k i next
unfolding set_alert
has_alert-set_alert k i a [] = refl
has_alert-set_alert k i a (b ∷ next) = elim (Bool-cases (has_key_of a.kind a.input b)) [
  | inl same ↦ rw same (ground (arith, has_key_of-eq k i a b same))
  | inr other ↦ rw (other, has_alert-set_alert k i a next) (ground arith)
]

found-key :
    (k : AlertKind) (i : String) (kind : AlertKind) (input : String) (now_ms : ℕ)
    (alerts : List AudioAlert)
    → has_key_of k i (
        or_else
          (find? (has_key_of kind input) alerts)
          (record { kind = kind; input = input; since = now_ms }))
      ≡ (same_kind kind k && str_eq input i)
found-key k i kind input now_ms [] = refl
found-key k i kind input now_ms (a ∷ alerts) = elim (Bool-cases (has_key_of kind input a)) [
  | inl same ↦
      rw same
        (sym (has_key_of-eq k i (record { kind = kind; input = input; since = now_ms }) a same))
  | inr other ↦ rw other (found-key k i kind input now_ms alerts)
]

pub has_alert-keep :
    (now_ms : ℕ) (alerts : List AudioAlert) (kind : AlertKind) (input : String)
    (next : List AudioAlert) (k : AlertKind) (i : String)
    → has_alert k i (keep now_ms alerts kind input next)
      ≡ (same_kind kind k && str_eq input i) || has_alert k i next
unfolding keep
has_alert-keep now_ms alerts kind input next k i =
    has_alert-set_alert k i _ next ∙ rw (found-key k i kind input now_ms alerts) refl
