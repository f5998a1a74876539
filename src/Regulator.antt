-- ===== src/Regulator.antt =====
-- apps/room-client/src/core/regulator.ts: when a room may upload its rushes. Shares of the machine
-- are numbers in [0, 1]; they are read as thousandths, and the memory's share by its two counts.
pub mod Order
use conference_operator.Common.{
  ℕ, suc, ◌+◌, ◌*◌, ◌^◌, ◌≤◌, Bool, true, false, not, ◌&&◌, Option, none, some, leb, ltb, min,
  if◌then◌else◌,
}

pub data WaitReason : Type 0 where
  sans_stockage auto_desactive enregistrement conference fenetre charge debit : WaitReason

pub record VodPolicy : Type 0 where
  pub actif : Bool
  pub debit_max_octets_s : Option ℕ
  pub cpu_max : ℕ
  pub marge_conference_minutes : ℕ

pub record Memory : Type 0 where
  pub used_bytes : ℕ
  pub total_bytes : ℕ

pub record HostLoad : Type 0 where
  pub cpu : Option ℕ
  pub memory : Option Memory

pub record RegulatorInputs : Type 0 where
  pub storage_ready : Bool
  pub policy : VodPolicy
  pub manual : Bool
  pub recording : Bool
  pub talk_running : Bool
  pub ms_before_next : Option ℕ
  pub load : HostLoad
  pub observed_rate_bytes_s : Option ℕ

pub data UploadVerdict : Type 0 where
  wait : WaitReason → UploadVerdict
  allowed : Option ℕ → UploadVerdict

abbrev pub rate_floor_bytes_s : ℕ
rate_floor_bytes_s = 204800

-- `value != null && value <= limit`
abbrev at_most : Option ℕ → ℕ → Bool
at_most none limit = false
at_most (some value) limit = leb value limit

-- `value != null && value < limit`
abbrev below : Option ℕ → ℕ → Bool
below none limit = false
below (some value) limit = ltb value limit

-- `cpu == null || cpu > max`
abbrev is_busy : Option ℕ → ℕ → Bool
is_busy none max = true
is_busy (some cpu) max = ltb max cpu

-- `memory != null && usedBytes / totalBytes > 0.9`
abbrev is_saturated : Option Memory → Bool
is_saturated none = false
is_saturated (some m) = ltb (9 * m.total_bytes) (10 * m.used_bytes)

unfoldable pub upload_verdict : RegulatorInputs → UploadVerdict
upload_verdict input =
    if not input.storage_ready
    then wait sans_stockage
    else if not input.policy.actif && not input.manual
    then wait auto_desactive
    else if input.recording
    then wait enregistrement
    else if input.talk_running
    then wait conference
    else if input.manual
    then allowed input.policy.debit_max_octets_s
    else if at_most input.ms_before_next (input.policy.marge_conference_minutes * 60000)
    then wait fenetre
    else if is_busy input.load.cpu input.policy.cpu_max
    then wait charge
    else if is_saturated input.load.memory
    then wait charge
    else if below input.observed_rate_bytes_s rate_floor_bytes_s
    then wait debit
    else allowed input.policy.debit_max_octets_s

unfoldable pub wait_after : WaitReason → ℕ → ℕ
wait_after debit failures = min 900000 (30000 * 2 ^ min failures 5)
wait_after _ failures = 15000
