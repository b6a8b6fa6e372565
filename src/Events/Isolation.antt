-- ===== src/Events/Isolation.antt =====
-- internal/platform/events/hub.go: what a publication leaves alone.
use shiori_server.Prelude.{
  ℕ, ◌+◌, ◌≤◌, ◌<◌, ◌≡◌, refl, ◌≢◌, String, true, false, none, some, List, [], ◌∷◌, arith, inl, inr,
  ◌⊎◌, eq_iff, length, length-append, ◌∙◌, ap,
}
use shiori_server.Prelude.Map.{find, put, find-put, find-keep_if, only_if}
use shiori_server.Events.Hub.{
  Topic, Hub, ensured, ensure_topic, publish, record_event, survives, send, send_all, update,
  inactive_after,
}

-- No buffer holds more than its channel's capacity.
abbrev pub WithinCapacity : {A : Type 0} → (ℕ → List A) → Type 0
WithinCapacity b = (c : ℕ) → length (b c) ≤ 100

send_all-WithinCapacity :
    {A : Type 0} (v : A) (cs : List ℕ) (b : ℕ → List A)
    → WithinCapacity b
    → WithinCapacity (send_all v cs b)
send_all-WithinCapacity v [] b h = h
send_all-WithinCapacity v (c ∷ cs) b h =
    send_all-WithinCapacity v cs (update b c (send v (b c)))
      λ c'. ground (arith, h c', h c, length-append (b c) (v ∷ []))

module _ {D : Type 0} where
  -- Publishing never blocks and never overfills: where every channel's buffer is within its
  -- capacity it stays so, for both kinds of subscribers.
  pub publish-WithinCapacity :
      (now : ℕ) (name : String) (d : D) (h : Hub D)
      → WithinCapacity h.legacy_buffer
      → WithinCapacity h.event_buffer
      → WithinCapacity (publish now name d h).legacy_buffer
        × WithinCapacity (publish now name d h).event_buffer
  unfolding publish ensure_topic
  publish-WithinCapacity now name d h l e =
      let t = record_event d (ensure_topic now name h).0 in
      (
        send_all-WithinCapacity d t.legacy h.legacy_buffer l,
        send_all-WithinCapacity (record { id = t.next_id; content = d }) t.sequenced h.event_buffer
            e,
      )

  survives-cases :
      (now : ℕ) (name other : String) (t : Topic D)
      → other ≢ name
      → ((survives now name other t ≡ true)
          × ((t.legacy ≢ []) ⊎ (t.sequenced ≢ []) ⊎ (now ≤ t.last_active + inactive_after)))
        ⊎ ((survives now name other t ≡ false)
            × ((t.legacy ≡ []) × (t.sequenced ≡ []) × (t.last_active + inactive_after < now)))
  unfolding survives
  survives-cases now name other t differs = ground (arith, eq_iff other name)

  find-publish_other :
      (now : ℕ) (name other : String) (d : D) (h : Hub D) (t : Topic D)
      → other ≢ name
      → find other h.topics ≡ some t
      → find other (publish now name d h).topics ≡ only_if (survives now name other) (some t)
  unfolding publish ensure_topic
  find-publish_other now name other d h t differs found =
      find-keep_if (survives now name) other _
      ∙ ap (only_if (survives now name other)) {y = some t} (
          ground (
            arith,
            eq_iff name other,
            find-put name other (record_event d (ensured now (find name h.topics)))
                (put name (ensured now (find name h.topics)) h.topics),
            find-put name other (ensured now (find name h.topics)) h.topics,
          ))

  -- A publication leaves every other topic as it is, or removes it: the latter exactly where the
  -- topic has no subscriber and was last active more than 24 hours ago.
  pub publish_other :
      (now : ℕ) (name other : String) (d : D) (h : Hub D) (t : Topic D)
      → other ≢ name
      → find other h.topics ≡ some t
      → ((find other (publish now name d h).topics ≡ some t)
          × ((t.legacy ≢ []) ⊎ (t.sequenced ≢ []) ⊎ (now ≤ t.last_active + inactive_after)))
        ⊎ ((find other (publish now name d h).topics ≡ none)
            × ((t.legacy ≡ []) × (t.sequenced ≡ []) × (t.last_active + inactive_after < now)))
  publish_other now name other d h t differs found =
      let at_other = find-publish_other now name other d h t differs found in
      elim (survives-cases now name other t differs) [
        | inl (stays, why) ↦ inl (at_other ∙ rw stays refl, why)
        | inr (goes, why) ↦ inr (at_other ∙ rw goes refl, why)
      ]
