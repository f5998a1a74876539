-- ===== src/TalkFlow.antt =====
-- packages/room-state/src/talk-flow.ts: what to ask before a talk starts or ends, and the gestures
-- to send, in order. `act` sends one gesture to the room: it is the caller's, and stands here as a
-- function over a state of the room.
pub mod Guards
pub mod Sequence
use conference_operator.Common.{
  ℕ, ◌+◌, String, Bool, true, false, not, ◌&&◌, Option, none, some, List, [], ◌∷◌, ◌++◌, str_eq,
  if◌then◌else◌,
}
use conference_operator.Common.Int.{ℤ, pos, sub_ℕ, ltb_ℤ}
use mathlib.Core.Option

abbrev pub too_early_ms : ℕ
too_early_ms = 900000

pub record FlowTarget : Type 0 where
  pub id : String
  pub starts_at_ms : ℕ
  pub ends_at_ms : Option ℕ

-- The start settings; a field that is absent is `none`, and a null scene is `some none`.
pub record FlowConfig : Type 0 where
  pub prompt_recording_on_start : Option Bool
  pub prompt_recording_on_stop : Option Bool
  pub scene_on_start : Option (Option String)

pub record TalkFlowInput : Type 0 where
  pub now_ms : ℕ
  pub target : Option FlowTarget
  pub pinned_session_id : Option String
  pub recording : Bool
  pub config : Option FlowConfig

pub data TalkGesture : Type 0 where
  recording_start session_start recording_stop session_end : TalkGesture
  scene_set : String → TalkGesture

pub record TalkStep : Type 0 where
  pub gesture : TalkGesture
  pub guard : Bool

pub record TalkSettings : Type 0 where
  pub warn : Bool
  pub warn_on_stop : Bool
  pub scene : Option String

-- `value !== false`
abbrev not_false : Option Bool → Bool
not_false (some false) = false
not_false _ = true

-- `value === undefined ? 'LIVE' : value`
abbrev scene_or_live : Option (Option String) → Option String
scene_or_live none = some "LIVE"
scene_or_live (some scene) = scene

unfoldable pub talk_settings : Option FlowConfig → TalkSettings
talk_settings none = record { warn = true; warn_on_stop = true; scene = some "LIVE" }
talk_settings (some config) = record {
  warn = not_false config.prompt_recording_on_start;
  warn_on_stop = not_false config.prompt_recording_on_stop;
  scene = scene_or_live config.scene_on_start;
}

unfoldable pub early_by_ms : TalkFlowInput → Option ℤ
early_by_ms input = Option.map (λ (t : FlowTarget). sub_ℕ t.starts_at_ms input.now_ms) input.target

unfoldable pub left_ms : TalkFlowInput → Option ℤ
left_ms input = elim input.target [
  | none ↦ none
  | some t ↦ Option.map (λ (end : ℕ). sub_ℕ end input.now_ms) t.ends_at_ms
]

-- `pinned != null && pinned === target?.id`
abbrev is_forced : Option String → Option FlowTarget → Bool
is_forced (some pinned) (some t) = str_eq pinned t.id
is_forced _ _ = false

-- `value != null && value > limit`
abbrev exceeds : Option ℤ → ℕ → Bool
exceeds none limit = false
exceeds (some value) limit = ltb_ℤ (pos limit) value

unfoldable pub start_too_early : TalkFlowInput → Bool
unfolding early_by_ms
start_too_early input =
    not (is_forced input.pinned_session_id input.target) && exceeds (early_by_ms input) too_early_ms

unfoldable pub start_asks_recording : TalkFlowInput → Bool
unfolding talk_settings
start_asks_recording input = (talk_settings input.config).warn && not input.recording

abbrev step : TalkGesture → Bool → TalkStep
step gesture guard = record { gesture = gesture; guard = guard }

-- `if (scene) …`: neither null nor empty.
abbrev scene_steps : Option String → List TalkStep
scene_steps none = []
scene_steps (some scene) = if str_eq scene "" then [] else step (scene_set scene) false ∷ []

unfoldable pub start_steps : TalkFlowInput → Bool → List TalkStep
unfolding talk_settings
start_steps input recorded =
    (if recorded then step recording_start true ∷ [] else [])
    ++ (step session_start false ∷ scene_steps (talk_settings input.config).scene)

unfoldable pub end_early : TalkFlowInput → Bool
unfolding left_ms
end_early input = exceeds (left_ms input) 0

unfoldable pub end_asks_stop_recording : TalkFlowInput → Bool
unfolding talk_settings
end_asks_stop_recording input = (talk_settings input.config).warn_on_stop && input.recording

unfoldable pub end_steps : Bool → List TalkStep
end_steps stop =
    (if stop then step recording_stop true ∷ [] else []) ++ (step session_end false ∷ [])

-- The loop of `runTalkSteps`; the answer of `act` is its `ok`.
module _ {W : Type 0} (act : TalkGesture → W → W × Bool) where
  unfoldable pub run_talk_steps : List TalkStep → W → W × Bool
  run_talk_steps [] w = (w, true)
  run_talk_steps (s ∷ rest) w =
      let (w', answered) = act s.gesture w in
      let later = run_talk_steps rest w' in if s.guard && not answered then (w', false) else later
