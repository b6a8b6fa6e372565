-- ===== src/Events/Hub.antt =====
-- internal/platform/events/hub.go. The hub's methods run under its lock, so a method is a function
-- of the hub; `now` is time.Now() in nanoseconds. A channel is an index into the buffers, which
-- hold what has been sent and not yet received. `D` is the type of the data.
use shiori_server.Prelude.{
  ℕ, suc, ◌+◌, ◌-◌, ◌%◌, ◌^◌, String, Bool, true, false, not, ◌&&◌, ◌||◌, Option, none, some, List,
  [], ◌∷◌, ◌++◌, ltb, ◌==◌, if◌then◌else◌, length, drop, str_eq,
}
use shiori_server.Prelude.Map.{find, put, keep_if}

module _ (D : Type 0) where
  pub record Event : Type 0 where
    pub id : ℕ
    pub content : D

  pub record Topic : Type 0 where
    pub legacy : List ℕ
    pub sequenced : List ℕ
    pub history : List Event
    pub next_id : ℕ
    pub last_active : ℕ

  pub record Hub : Type 0 where
    pub topics : List (String × Topic)
    pub next_channel : ℕ
    pub legacy_buffer : ℕ → List D
    pub event_buffer : ℕ → List Event

-- make(chan …, 100)
abbrev pub channel_capacity : ℕ
channel_capacity = 100

abbrev pub history_limit : ℕ
history_limit = 512

-- 24 * time.Hour
abbrev pub inactive_after : ℕ
inactive_after = 86400000000000

-- A uint64 counter.
abbrev pub u64 : ℕ → ℕ
u64 n = n % 2 ^ 64

abbrev pub is_empty : {A : Type 0} → List A → Bool
is_empty [] = true
is_empty (x ∷ xs) = false

abbrev pub update : {A : Type 0} → (ℕ → A) → ℕ → A → ℕ → A
update f c a c' = if c' == c then a else f c'

-- select { case ch <- v: default: }
abbrev pub send : {A : Type 0} → A → List A → List A
send v buffer = if ltb (length buffer) channel_capacity then buffer ++ v ∷ [] else buffer

abbrev pub send_all : {A : Type 0} → A → List ℕ → (ℕ → List A) → ℕ → List A
send_all v [] buffers = buffers
send_all v (c ∷ cs) buffers = send_all v cs (update buffers c (send v (buffers c)))

-- Removes the first occurrence, the last entry taking its place.
unfoldable pub last_or : {A : Type 0} → A → List A → A
last_or d [] = d
last_or d (x ∷ xs) = last_or x xs

unfoldable pub but_last : {A : Type 0} → List A → List A
but_last [] = []
but_last (x ∷ []) = []
but_last (x ∷ y ∷ ys) = x ∷ but_last (y ∷ ys)

unfoldable pub swap_remove : ℕ → List ℕ → List ℕ
unfolding last_or but_last
swap_remove c [] = []
swap_remove c (x ∷ []) = if x == c then [] else x ∷ []
swap_remove c (x ∷ y ∷ ys) =
    let rest = swap_remove c (y ∷ ys) in
    if x == c then last_or y ys ∷ but_last (y ∷ ys) else x ∷ rest

module _ {D : Type 0} where
  unfoldable pub new_hub : Hub D
  new_hub = record {
    topics = [];
    next_channel = 0;
    legacy_buffer = λ _. [];
    event_buffer = λ _. [];
  }

  unfoldable pub ensured : ℕ → Option (Topic D) → Topic D
  ensured now none = record {
    legacy = [];
    sequenced = [];
    history = [];
    next_id = 0;
    last_active = now;
  }
  ensured now (some t) = record t { last_active = now }

  unfoldable pub ensure_topic : ℕ → String → Hub D → Topic D × Hub D
  unfolding ensured
  ensure_topic now name h =
      let t = ensured now (find name h.topics) in (t, record h { topics = put name t h.topics })

  unfoldable pub subscribe : ℕ → String → Hub D → ℕ × Hub D
  unfolding ensure_topic
  subscribe now name h =
      let (t, h') = ensure_topic now name h in
      let c = h'.next_channel in
      (
        c,
        record h' {
          topics = put name (record t { legacy = t.legacy ++ c ∷ [] }) h'.topics;
          next_channel = suc c;
          legacy_buffer = update h'.legacy_buffer c [];
        },
      )

  unfoldable pub newer : ℕ → List (Event D) → List (Event D)
  newer after [] = []
  newer after (e ∷ es) = let rest = newer after es in if ltb after e.id then e ∷ rest else rest

  unfoldable pub subscribe_from : ℕ → String → ℕ → Hub D → (ℕ × List (Event D)) × Hub D
  unfolding ensure_topic
  subscribe_from now name after h =
      let (t, h') = ensure_topic now name h in
      let c = h'.next_channel in
      (
        (c, newer after t.history),
        record h' {
          topics = put name (record t { sequenced = t.sequenced ++ c ∷ [] }) h'.topics;
          next_channel = suc c;
          event_buffer = update h'.event_buffer c [];
        },
      )

  unfoldable pub unsubscribe : ℕ → String → ℕ → Hub D → Hub D
  unsubscribe now name c h = elim (find name h.topics) [
    | none ↦ h
    | some t ↦ record h {
      topics = put name (record t { legacy = swap_remove c t.legacy; last_active = now }) h.topics;
    }
  ]

  unfoldable pub unsubscribe_event : ℕ → String → ℕ → Hub D → Hub D
  unsubscribe_event now name c h = elim (find name h.topics) [
    | none ↦ h
    | some t ↦ record h {
      topics =
          put name (record t { sequenced = swap_remove c t.sequenced; last_active = now }) h.topics;
    }
  ]

  -- The history after an event is appended, cut to the latest 512.
  unfoldable pub retain : List (Event D) → List (Event D)
  retain es = if ltb history_limit (length es) then drop (length es - history_limit) es else es

  -- A topic that Publish on another one leaves in the hub.
  unfoldable pub survives : ℕ → String → String → Topic D → Bool
  survives now name other t =
      str_eq other name
      || not (is_empty t.legacy && is_empty t.sequenced && ltb (t.last_active + inactive_after) now)

  -- The topic with the event recorded.
  unfoldable pub record_event : D → Topic D → Topic D
  unfolding retain
  record_event d t =
      let i = u64 (t.next_id + 1) in
      record t { next_id = i; history = retain (t.history ++ record { id = i; content = d } ∷ []) }

  unfoldable pub publish : ℕ → String → D → Hub D → Hub D
  unfolding ensure_topic record_event survives
  publish now name d h =
      let (t, h') = ensure_topic now name h in
      let t' = record_event d t in
      record h' {
        topics = keep_if (survives now name) (put name t' h'.topics);
        legacy_buffer = send_all d t'.legacy h'.legacy_buffer;
        event_buffer =
            send_all (record { id = t'.next_id; content = d }) t'.sequenced h'.event_buffer;
      }
