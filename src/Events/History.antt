-- ===== src/Events/History.antt =====
-- internal/platform/events/hub.go: the numbering of a topic's events and the window that it keeps.
use native.Mathlib.Decide.{dec_le}
use mathlib.Core.Path.{subst}
use shiori_server.Prelude.{
  ◌∙◌, ℕ, zero, suc, ◌+◌, ◌-◌, ◌^◌, ◌≤◌, ◌<◌, ◌≡◌, refl, List, [], ◌∷◌, ◌++◌, arith, inl, inr, ◌⊎◌,
  ltb, length, drop, length-append, Bool-cases,
}
use shiori_server.Events.Hub.{Event, Topic, u64, retain, record_event, newer}

module _ {D : Type 0} where
  -- The events are numbered without a gap, the first one by `a + 1`.
  abbrev pub From : ℕ → List (Event D) → Type 0
  From a [] = Unit
  From a (e ∷ es) = (e.id ≡ a + 1) × From (a + 1) es

  -- The history is the latest events of the topic: they end with the last number given out, and
  -- earlier ones are missing only where the window of 512 is full.
  pub record IsValid (t : Topic D) : Type 0 where
    pub start : ℕ
    pub numbered : From start t.history
    pub ends : start + length t.history ≡ t.next_id
    pub bounded : length t.history ≤ 512
    pub whole : (start ≡ 0) ⊎ (length t.history ≡ 512)

  pub From-append :
      (a : ℕ) (es : List (Event D)) (e : Event D)
      → From a es
      → e.id ≡ a + length es + 1
      → From a (es ++ e ∷ [])
  From-append a [] e h q = (omega arith, tt)
  From-append a (x ∷ es) e h q = (h.0, From-append (a + 1) es e h.1 (omega arith))

  From-eq : (b c : ℕ) (es : List (Event D)) → b ≡ c → From b es → From c es
  From-eq b c es q f = subst (λ a. From a es) q f

  From-drop : (n a : ℕ) (es : List (Event D)) → From a es → n ≤ length es → From (a + n) (drop n es)
  From-drop zero a es h le = From-eq a (a + 0) es (omega arith) h
  From-drop (suc n) a [] h le = tt
  From-drop (suc n) a (x ∷ es) h le =
      From-eq (a + 1 + n) (a + suc n) (drop n es) (omega arith)
        (From-drop n (a + 1) es h.1 (omega arith))

  length-drop : (n : ℕ) (es : List (Event D)) → length (drop n es) ≡ length es - n
  length-drop zero es = omega arith
  length-drop (suc n) [] = omega arith
  length-drop (suc n) (x ∷ es) = omega (arith, length-drop n es)

  -- A list of at most 513 events, cut to the window.
  retain-IsValid :
      (t : Topic D) (es : List (Event D)) (a n : ℕ)
      → From a es
      → a + length es ≡ n
      → length es ≤ 513
      → (a ≡ 0) ⊎ (length es ≡ 513)
      → IsValid (record t { next_id = n; history = retain es })
  unfolding retain
  retain-IsValid t es a n numbered ends small whole = elim (Bool-cases (ltb 512 (length es))) [
    | inl full ↦ rw full (record {
      start = a + (length es - 512);
      numbered = From-drop (length es - 512) a es numbered (omega arith);
      ends = ground (arith, length-drop (length es - 512) es);
      bounded = ground (arith, length-drop (length es - 512) es);
      whole = inr (ground (arith, length-drop (length es - 512) es));
    })
    | inr room ↦ rw room (record {
      start = a;
      numbered = numbered;
      ends = ends;
      bounded = ground arith;
      whole = ground arith;
    })
  ]

  -- Recording an event keeps the history valid, as long as the 64-bit counter does not wrap.
  pub record_event-IsValid :
      (d : D) (t : Topic D) → t.next_id + 1 < 2 ^ 64 → IsValid t → IsValid (record_event d t)
  unfolding record_event retain
  record_event-IsValid d t small v =
      let e : Event D = record { id = u64 (t.next_id + 1); content = d } in
      let es : List (Event D) = t.history ++ e ∷ [] in
      let one_more : length es ≡ length t.history + 1 =
        length-append t.history (e ∷ []) ∙ omega arith in
      let ids : u64 (t.next_id + 1) ≡ t.next_id + 1 = omega arith in
      let numbered : From v.start es =
        From-append v.start t.history e v.numbered (omega (arith, v.ends)) in
      retain-IsValid t es v.start (u64 (t.next_id + 1)) numbered (omega (arith, v.ends))
        (omega (arith, v.bounded)) (ground (arith, v.whole))

  -- Nothing is skipped by a cursor before the first event.
  newer_all : (after a : ℕ) (es : List (Event D)) → after ≤ a → From a es → newer after es ≡ es
  unfolding newer
  newer_all after a [] le h = refl
  newer_all after a (e ∷ es) le h = ground (arith, newer_all after (a + 1) es)

  newer_rest :
      (after a : ℕ) (es : List (Event D))
      → a ≤ after
      → after ≤ a + length es
      → From a es
      → From after (newer after es) × (after + length (newer after es) ≡ a + length es)
  unfolding newer
  newer_rest after a [] le le' h = (tt, omega arith)
  newer_rest after a (e ∷ es) le le' h = elim (Bool-cases (ltb after e.id)) [
    | inl next ↦
        let here : after ≡ a = ground (arith, h.0) in
        let rest : newer after es ≡ es = newer_all after (a + 1) es (omega arith) h.1 in
        rw (next, rest)
          ((ground (arith, h.0), From-eq (a + 1) (after + 1) es (omega arith) h.1), omega arith)
    | inr old ↦
        let (f, l) = newer_rest after (a + 1) es (ground (arith, h.0)) (omega arith) h.1 in
        rw old (f, omega arith)
  ]

  -- What a cursor `after` is answered from a valid history: events numbered without a gap up to the
  -- last one, which begin right after the cursor, or with the oldest of 512 retained events.
  pub newer_lem :
      (after : ℕ) (t : Topic D)
      → IsValid t
      → after ≤ t.next_id
      → (first : ℕ) × (after ≤ first)
        × From first (newer after t.history)
        × (first + length (newer after t.history) ≡ t.next_id)
        × ((first ≡ after) ⊎ (first + 512 ≡ t.next_id))
  newer_lem after t v le = elim (dec_le v.start after) [
    | yes p ↦
        let (f, l) = newer_rest after v.start t.history p (omega (arith, v.ends)) v.numbered in
        (after, omega arith, f, omega (arith, v.ends), inl refl)
    | no p ↦
        let all : newer after t.history ≡ t.history =
          newer_all after v.start t.history (omega arith) v.numbered in
        rw all (v.start, omega arith, v.numbered, v.ends, ground (arith, v.whole, v.ends))
  ]
