-- ===== src/Validation/Streaming.antt =====
-- StreamingModerationWindow of backend/app/application/validation/streaming.py: the text of a
-- stream is held until a window has accumulated, and released when a validator has seen it. The
-- validator is a parameter; V are its violations.
pub mod Driver
pub mod Windows
mod Tests
use agent_studio.Base.{
  ℕ, Bool, true, false, Option, none, some, List, [], ◌∷◌, ◌++◌, length, ltb, if◌then◌else◌,
}
use agent_studio.Base.Text.{Text}

-- The result of a validator: allowed, with a redacted text or without, or blocked; or it raises.
pub data Verdict (V : Type 0) : Type 0 where
  allowed : Option Text → Verdict V
  blocked : List V → Verdict V
  raised : Verdict V

pub record WindowRelease (V : Type 0) : Type 0 where
  pub text : Text
  pub released_raw : Bool
  pub redacted : Bool
  pub truncated : Bool
  pub violations : List V

pub record Config (V : Type 0) : Type 0 where
  pub validator : Option (Text → Verdict V)
  pub window_size : ℕ
  pub fallback_text : Text

pub record Window : Type 0 where
  pub pending : Text
  pub truncated : Bool

abbrev pub new_window : Window
new_window = record { pending = []; truncated = false }

module _ {V : Type 0} where
  abbrev pub raw : Text → WindowRelease V
  raw text = record {
    text = text;
    released_raw = true;
    redacted = false;
    truncated = false;
    violations = [];
  }

  -- What `_validate_window` makes of the answer for a window.
  abbrev pub release_of : Text → Text → Verdict V → WindowRelease V
  release_of fallback text (allowed none) = raw text
  release_of fallback text (allowed (some redacted)) = record {
    text = redacted;
    released_raw = false;
    redacted = true;
    truncated = false;
    violations = [];
  }
  release_of fallback text (blocked vs) = record {
    text = fallback;
    released_raw = false;
    redacted = false;
    truncated = true;
    violations = vs;
  }
  release_of fallback text raised = raw text

module _ {V : Type 0} (cfg : Config V) (validate : Text → Verdict V) where
  unfoldable pub validate_window : Window → Option (WindowRelease V) × Window
  validate_window w =
      let r = release_of cfg.fallback_text w.pending (validate w.pending) in
      (some r, record { pending = []; truncated = r.truncated })

  unfoldable pub push_text : Text → Window → Option (WindowRelease V) × Window
  unfolding validate_window
  push_text chunk w =
      let w' = record w { pending = w.pending ++ chunk } in
      if ltb (length w'.pending) cfg.window_size then (none, w') else validate_window w'

  abbrev is_empty : Text → Bool
  is_empty [] = true
  is_empty (c ∷ s) = false

  unfoldable pub finish_text : Window → Option (WindowRelease V) × Window
  unfolding validate_window
  finish_text w =
      if w.truncated then (none, w) else if is_empty w.pending then (none, w) else validate_window w

module _ {V : Type 0} where
  push_enabled :
      Config V → Option (Text → Verdict V) → Text → Window → Option (WindowRelease V) × Window
  unfolding push_text
  push_enabled cfg none chunk w = (some (raw chunk), w)
  push_enabled cfg (some validate) chunk w = push_text cfg validate chunk w

  unfoldable pub push : Config V → Text → Window → Option (WindowRelease V) × Window
  unfolding push_enabled
  push cfg chunk w = if w.truncated then (none, w) else push_enabled cfg cfg.validator chunk w

  -- A disabled window never holds anything back, so there is nothing to finish.
  finish_enabled : Config V → Option (Text → Verdict V) → Window → Option (WindowRelease V) × Window
  unfolding finish_text
  finish_enabled cfg none w = (none, w)
  finish_enabled cfg (some validate) w = finish_text cfg validate w

  unfoldable pub finish : Config V → Window → Option (WindowRelease V) × Window
  unfolding finish_enabled
  finish cfg w = finish_enabled cfg cfg.validator w
