-- ===== src/Challenge/Input.antt =====
-- internal/platform/browser/browser.go: the input events of a remote controller, and
-- internal/jobs/challenge_handler.go: the loop of serveWS that forwards them. A float64 that is
-- finite is a whole number of steps, `one` of which make 1; a text is the list of its bytes, or the
-- text itself where it is only compared.
use shiori_server.Prelude.{
  ℕ, suc, ◌+◌, ◌*◌, String, Bool, true, false, not, ◌&&◌, ◌||◌, Option, none, some, List, [], ◌∷◌,
  ltb, leb, ◌==◌, if◌then◌else◌, str_eq, length,
}

pub data Float : Type 0 where
  nan infinite minus_infinite : Float
  minus plus : ℕ → Float

-- An int64: below 0, or the number.
pub data Integer : Type 0 where
  negative : Integer
  natural : ℕ → Integer

pub record InputEvent : Type 0 where
  pub kind : String
  pub x : Float
  pub y : Float
  pub button : String
  pub delta_x : Float
  pub delta_y : Float
  pub key : List ℕ
  pub code : List ℕ
  pub text : List ℕ
  pub modifiers : Integer
  pub width : Integer
  pub height : Integer

abbrev pub int_between : ℕ → ℕ → Integer → Bool
int_between a b negative = false
int_between a b (natural n) = leb a n && leb n b

-- v is finite, and 0 <= v <= limit; minus 0 is 0.
abbrev pub float_to : ℕ → Float → Bool
float_to limit (plus n) = leb n limit
float_to limit (minus n) = n == 0
float_to limit _ = false

-- v is finite, and |v| <= limit.
abbrev pub float_within : ℕ → Float → Bool
float_within limit (plus n) = leb n limit
float_within limit (minus n) = leb n limit
float_within limit _ = false

unfoldable pub is_button : String → Bool
is_button s = str_eq s "none" || str_eq s "left" || str_eq s "middle" || str_eq s "right"

abbrev has_byte : List ℕ → Bool
has_byte [] = false
has_byte (b ∷ bs) = true

module _ (one : ℕ) where
  abbrev pub valid_point : InputEvent → Bool
  valid_point e = float_to (20000 * one) e.x && float_to (20000 * one) e.y

  unfoldable pub is_mouse : InputEvent → Bool
  is_mouse e =
      str_eq e.kind "mouseMoved" || str_eq e.kind "mousePressed" || str_eq e.kind "mouseReleased"

  abbrev pub is_small : InputEvent → Bool
  is_small e =
      int_between 0 15 e.modifiers
      && leb (length e.key) 64
      && leb (length e.code) 64
      && leb (length e.text) 16

  -- InputEvent.Valid
  unfoldable pub valid : InputEvent → Bool
  valid e =
      if not (is_small e)
      then false
      else if is_mouse e
      then valid_point e && is_button e.button
      else if str_eq e.kind "mouseWheel"
      then valid_point e
        && float_within (4000 * one) e.delta_x
        && float_within (4000 * one) e.delta_y
      else if str_eq e.kind "keyDown" || str_eq e.kind "keyUp"
      then has_byte e.key && has_byte e.code
      else if str_eq e.kind "viewport"
      then int_between 320 3840 e.width && int_between 240 2160 e.height
      else false

  -- A message with the time of its reading, and the event that it decodes to.
  abbrev pub Message : Type 0
  Message = ℕ × Option InputEvent

  -- A second, in nanoseconds.
  abbrev pub second : ℕ
  second = 1000000000

  abbrev pub valid_event : Option InputEvent → Option InputEvent
  valid_event none = none
  valid_event (some e) = if valid e then some e else none

  abbrev pub with_event : Option InputEvent → List InputEvent → List InputEvent
  with_event none rest = rest
  with_event (some e) rest = e ∷ rest

  -- windowStarted and eventCount where a message has come at `now`.
  unfoldable pub window : ℕ → ℕ → ℕ → ℕ × ℕ
  window now started count = if leb (started + second) now then (now, 1) else (started, suc count)

  -- The events that the loop forwards until reading fails or the context is done.
  unfoldable pub forward : ℕ → ℕ → List Message → List InputEvent
  unfolding window
  forward started count [] = []
  forward started count ((now, event) ∷ rest) =
      let w = window now started count in
      let later = forward w.0 w.1 rest in
      with_event (if ltb 180 w.1 then none else valid_event event) later
