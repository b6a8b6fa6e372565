-- ===== src/Api/Stream.antt =====
-- internal/jobs/http.go: JobEvents, the event stream of a job over the event hub.
use shiori_server.Prelude.{
  ℕ, ◌≡◌, refl, String, Bool, true, false, ◌||◌, List, [], ◌∷◌, ◌++◌, arith, str_eq, if◌then◌else◌,
  ◌==◌,
}
use shiori_server.Prelude.Map.{find}
use shiori_server.Events.Hub.{Event, Hub, subscribe_from, unsubscribe_event, ensured, newer}

-- What is published: an object with the name of an event and its data, or something else.
pub data Message : Type 0 where
  message : String → String → Message
  anything : Message

abbrev pub is_last : String → Bool
is_last name = str_eq name "done" || str_eq name "error" || str_eq name "cancelled"

abbrev pub is_final : Message → Bool
is_final (message name data_of) = is_last name
is_final anything = false

abbrev pub is_sent : Message → Bool
is_sent (message name data_of) = true
is_sent anything = false

-- The loop over the replay and the one over the channel: the events that are written, up to the
-- first that ends the stream, and whether there was one.
unfoldable pub forward_all : List (Event Message) → List (Event Message) × Bool
forward_all [] = ([], false)
forward_all (e ∷ es) =
    let rest = forward_all es in
    if is_final e.content
    then (e ∷ [], true)
    else if is_sent e.content
    then (e ∷ rest.0, rest.1)
    else rest

-- ParseLastEventID of the header and, where that gives 0, of the query.
abbrev pub after_of : ℕ → ℕ → ℕ
after_of header query = if header == 0 then query else header

-- The events that a client gets and the hub afterwards. `live` is what comes in over the channel
-- until the client goes, and `others` what happens to the hub meanwhile.
unfoldable pub job_events :
    ℕ
    → ℕ
    → String
    → ℕ
    → ℕ
    → List (Event Message)
    → (Hub Message → Hub Message)
    → Hub Message
    → List (Event Message) × Hub Message
unfolding forward_all
job_events now now' topic header query live others h =
    let ((c, replay), h') = subscribe_from now topic (after_of header query) h in
    let (first, stopped) = forward_all replay in
    (
      if stopped then first else first ++ (forward_all live).0,
      unsubscribe_event now' topic c (others h'),
    )

-- Events up to and with the first final one.
abbrev until_final : List (Event Message) → List (Event Message)
until_final [] = []
until_final (e ∷ es) = let rest = until_final es in if is_final e.content then e ∷ [] else e ∷ rest

-- The events that are messages.
abbrev messages : List (Event Message) → List (Event Message)
messages [] = []
messages (e ∷ es) = let rest = messages es in if is_sent e.content then e ∷ rest else rest

-- The stream that the client is owed.
abbrev pub owed : List (Event Message) → List (Event Message)
owed es = until_final (messages es)

forward_all-owed : (es : List (Event Message)) → (forward_all es).0 ≡ owed es
unfolding forward_all
forward_all-owed [] = refl
forward_all-owed (e ∷ es) = ground (arith, forward_all-owed es)

forward_all-append :
    (es fs : List (Event Message))
    → (forward_all (es ++ fs)).0 ≡ (
        if (forward_all es).1 then (forward_all es).0 else (forward_all es).0 ++ (forward_all fs).0)
unfolding forward_all
forward_all-append [] fs = refl
forward_all-append (e ∷ es) fs = ground (arith, forward_all-append es fs)

-- Replay and live events are one stream: a client of JobEvents gets, of the kept events after the one
-- it names and then the live ones, those that are messages, in order, up to the first that says the
-- job is done, failed or cancelled, and nothing after it.
pub job_events-owed :
    (now now' : ℕ) (topic : String) (header query : ℕ) (live : List (Event Message))
    (others : Hub Message → Hub Message) (h : Hub Message)
    → (job_events now now' topic header query live others h).0
      ≡ owed (newer (after_of header query) (ensured now (find topic h.topics)).history ++ live)
unfolding job_events subscribe_from
job_events-owed now now' topic header query live others h =
    let replay = newer (after_of header query) (ensured now (find topic h.topics)).history in
    ground (arith, forward_all-append replay live, forward_all-owed (replay ++ live))
