-- ===== src/Events/Runs.antt =====
-- internal/platform/events/hub.go: calls of the hub in any order, and its invariant.
use shiori_server.Prelude.{
  ℕ, suc, ◌+◌, ◌^◌, ◌≤◌, ◌<◌, ◌≡◌, refl, String, Bool, true, Option, none, some, List, [], ◌∷◌,
  arith, inl, inr, eq_iff, str_eq, length, if◌then◌else◌, Bool-cases, Option-cases,
}
use shiori_server.Prelude.Map.{find, put, find-put, find-keep_if, only_if}
use shiori_server.Events.Hub.{
  Topic, Hub, ensured, ensure_topic, subscribe, subscribe_from, unsubscribe, unsubscribe_event,
  publish, record_event, survives, swap_remove,
}
use shiori_server.Events.History.{IsValid, record_event-IsValid}

module _ (D : Type 0) where
  pub data Op : Type 0 where
    subscribe_op : ℕ → String → Op
    subscribe_from_op : ℕ → String → ℕ → Op
    unsubscribe_op unsubscribe_event_op : ℕ → String → ℕ → Op
    publish_op : ℕ → String → D → Op

module _ {D : Type 0} where
  -- The hub after one call.
  unfoldable pub apply : Op D → Hub D → Hub D
  apply (subscribe_op now name) h = (subscribe now name h).1
  apply (subscribe_from_op now name after) h = (subscribe_from now name after h).1
  apply (unsubscribe_op now name c) h = unsubscribe now name c h
  apply (unsubscribe_event_op now name c) h = unsubscribe_event now name c h
  apply (publish_op now name d) h = publish now name d h

  unfoldable pub run : List (Op D) → Hub D → Hub D
  run [] h = h
  run (o ∷ os) h = run os (apply o h)

  -- The events of two topics are numbered alike and kept alike.
  abbrev SameEvents : Topic D → Topic D → Type 0
  SameEvents t u = (u.history ≡ t.history) × (u.next_id ≡ t.next_id)

  -- What one call makes of a topic: nothing, its absence, a new record of its subscribers and time,
  -- or one event more.
  pub data Fate (e r : Option (Topic D)) : Type 0 where
    same : r ≡ e → Fate e r
    gone : r ≡ none → Fate e r
    kept : (now : ℕ) (u : Topic D) → SameEvents (ensured now e) u → r ≡ some u → Fate e r
    published : (now : ℕ) (d : D) → r ≡ some (record_event d (ensured now e)) → Fate e r

  -- The invariant of a topic's entry after at most `n` publications.
  abbrev pub ValidEntry : ℕ → Option (Topic D) → Type 0
  ValidEntry n none = Unit
  ValidEntry n (some t) = IsValid t × (t.next_id ≤ n)

  put_twice :
      (k name : String) (t u : Topic D) (m : List (String × Topic D))
      → find name (put k u (put k t m)) ≡ (if str_eq k name then some u else find name m)
  put_twice k name t u m = ground (arith, find-put k name u (put k t m), find-put k name t m)

  -- A call on the topic `k` whose result at `k` is a topic with the same events.
  kept-Fate :
      (k name : String) (now : ℕ) (m m' : List (String × Topic D)) (u : Topic D)
      → find name m' ≡ (if str_eq k name then some u else find name m)
      → SameEvents (ensured now (find k m)) u
      → Fate (find name m) (find name m')
  kept-Fate k name now m m' u q s = elim (Bool-cases (str_eq k name)) [
    | inl e ↦
        let here : k ≡ name = (eq_iff k name).0 e in kept now u (rw here at s) (rw q (rw e refl))
    | inr e ↦ same (rw q (rw e refl))
  ]

  unsubscribed-Fate :
      (k name : String) (now : ℕ) (h : Hub D) (f : Topic D → Topic D) (m' : List (String × Topic D))
      → ((t : Topic D) → SameEvents (ensured now (some t)) (f t))
      → m' ≡ elim (find k h.topics) [ none ↦ h.topics | some t ↦ put k (f t) h.topics ]
      → Fate (find name h.topics) (find name m')
  unsubscribed-Fate k name now h f m' s q = elim (Option-cases (find k h.topics)) [
    | inl missing ↦ same (ground arith)
    | inr (t, found) ↦
        kept-Fate k name now h.topics m' (f t) (ground (arith, find-put k name (f t) h.topics))
          (rw found (s t))
  ]

  own_survives : (now : ℕ) (k name : String) (t : Topic D) → k ≡ name → survives now k name t ≡ true
  unfolding survives
  own_survives now k name t here = ground (arith, eq_iff name k)

  kept_or_gone : (test : Topic D → Bool) (e : Option (Topic D)) → Fate e (only_if test e)
  kept_or_gone test none = same refl
  kept_or_gone test (some t) = elim (Bool-cases (test t)) [
    | inl yes_kept ↦ rw yes_kept (same refl)
    | inr pruned ↦ rw pruned (gone refl)
  ]

  publish-Fate :
      (now : ℕ) (k : String) (d : D) (name : String) (h : Hub D)
      → Fate (find name h.topics) (find name (publish now k d h).topics)
  unfolding publish ensure_topic
  publish-Fate now k d name h = rw (find-keep_if (survives now k) name) (
      rw (put_twice k name (ensured now (find k h.topics))) (elim (Bool-cases (str_eq k name)) [
        | inl e ↦
            let here : k ≡ name = (eq_iff k name).0 e in
            let stays : survives now k name (record_event d (ensured now (find k h.topics)))
                ≡ true =
              own_survives now k name (record_event d (ensured now (find k h.topics))) here in
            published now d (rw (e, stays) (rw here refl))
        | inr e ↦ rw e (kept_or_gone (survives now k name) (find name h.topics))
      ]))

  apply-Fate :
      (o : Op D) (name : String) (h : Hub D)
      → Fate (find name h.topics) (find name (apply o h).topics)
  unfolding apply subscribe subscribe_from unsubscribe unsubscribe_event
  apply-Fate (subscribe_op now k) name h =
      kept-Fate k name now h.topics _ _ (put_twice k name _ _ h.topics) (refl, refl)
  apply-Fate (subscribe_from_op now k after) name h =
      kept-Fate k name now h.topics _ _ (put_twice k name _ _ h.topics) (refl, refl)
  apply-Fate (unsubscribe_op now k c) name h =
      unsubscribed-Fate k name now h
        (λ t. record t { legacy = swap_remove c t.legacy; last_active = now })
        (unsubscribe now k c h).topics (λ t. unfold ensured in (refl, refl)) (ground arith)
  apply-Fate (unsubscribe_event_op now k c) name h =
      unsubscribed-Fate k name now h
        (λ t. record t { sequenced = swap_remove c t.sequenced; last_active = now })
        (unsubscribe_event now k c h).topics (λ t. unfold ensured in (refl, refl)) (ground arith)
  apply-Fate (publish_op now k d) name h = publish-Fate now k d name h

  SameEvents-IsValid : (t u : Topic D) → SameEvents t u → IsValid t → IsValid u
  SameEvents-IsValid t u s v = record {
    start = v.start;
    numbered = rw s.0 v.numbered;
    ends = rw (s.0, s.1) v.ends;
    bounded = rw s.0 v.bounded;
    whole = rw s.0 v.whole;
  }

  weaken : (n : ℕ) (e : Option (Topic D)) → ValidEntry n e → ValidEntry (n + 1) e
  weaken n none v = tt
  weaken n (some t) (v, le) = (v, omega arith)

  next_le : (d : D) (t : Topic D) (n : ℕ) → t.next_id ≤ n → (record_event d t).next_id ≤ n + 1
  unfolding record_event
  next_le d t n le = omega arith

  ensured-Valid :
      (now n : ℕ) (e : Option (Topic D)) → ValidEntry n e → ValidEntry n (some (ensured now e))
  unfolding ensured
  ensured-Valid now n none v = (
    record { start = 0; numbered = tt; ends = refl; bounded = omega arith; whole = inl refl },
    omega arith,
  )
  ensured-Valid now n (some t) (v, le) = (SameEvents-IsValid t _ (refl, refl) v, le)

  Fate-Valid :
      (n : ℕ) (e r : Option (Topic D))
      → Fate e r
      → n + 1 < 2 ^ 64
      → ValidEntry n e
      → ValidEntry (n + 1) r
  Fate-Valid n e r (same q) small v = rw q (weaken n e v)
  Fate-Valid n e r (gone q) small v = rw q tt
  Fate-Valid n e r (kept now u s q) small v =
      let (w, le) = ensured-Valid now n e v in
      rw q (SameEvents-IsValid (ensured now e) u s w, omega (arith, s.1))
  Fate-Valid n e r (published now d q) small v =
      let (w, le) = ensured-Valid now n e v in
      rw q (record_event-IsValid d (ensured now e) (omega arith) w, next_le d (ensured now e) n le)

  -- After any calls, where all calls so far are fewer than 2 ^ 64, a topic that was valid, or not
  -- there, before them holds the latest of its events, at most 512, numbered without a gap up to
  -- its counter, or is not there.
  pub run-Valid :
      (os : List (Op D)) (n : ℕ) (h : Hub D) (name : String)
      → n + length os < 2 ^ 64
      → ValidEntry n (find name h.topics)
      → ValidEntry (n + length os) (find name (run os h).topics)
  unfolding run
  run-Valid [] n h name small v = let e : n + 0 ≡ n = omega arith in rw e v
  run-Valid (o ∷ os) n h name small v =
      let e : n + suc (length os) ≡ n + 1 + length os = omega arith in
      rw e (
        run-Valid os (n + 1) (apply o h) name (omega arith)
          (Fate-Valid n _ _ (apply-Fate o name h) (omega arith) v))
