-- ===== src/Events/Resume.antt =====
-- internal/platform/events/hub.go: a subscriber that resumes from a number misses nothing.
use shiori_server.Prelude.{
  ℕ, ◌+◌, ◌≡◌, refl, ◌≢◌, String, List, [], ◌∷◌, ◌++◌, arith, length, All, ◌∙◌,
}
use shiori_server.Events.Hub.{Event, Topic, Hub, publish, u64, send, send_all, update}
use shiori_server.Events.History.{From}

module _ {A : Type 0} where
  send_all_other :
      (v : A) (c : ℕ) (cs : List ℕ) (b : ℕ → List A)
      → All (λ c'. c' ≢ c) cs
      → send_all v cs b c ≡ b c
  send_all_other v c [] b h = refl
  send_all_other v c (c' ∷ cs) b h =
      send_all_other v c cs (update b c' (send v (b c'))) h.1 ∙ ground (arith, h.0)

module _ {D : Type 0} where
  -- Publications on one topic, each at its time.
  unfoldable pub publish_all : String → List (ℕ × D) → Hub D → Hub D
  publish_all name [] h = h
  publish_all name ((now, d) ∷ ds) h = publish_all name ds (publish now name d h)

  -- What the event is that a publication makes.
  abbrev event_of : D → Topic D → Event D
  event_of d t = record { id = u64 (t.next_id + 1); content = d }

  -- What a subscriber with the replay `r` and the channel `c` has of the events after `first`.
  abbrev Delivered : ℕ → List (Event D) → ℕ → Hub D → ℕ → Type 0
  Delivered first r c h n =
      From first (r ++ h.event_buffer c) × (first + length (r ++ h.event_buffer c) ≡ n)

  -- The topic with one more subscriber.
  abbrev joined : ℕ → ℕ → Topic D → Topic D
  joined now c t = record t { last_active = now; sequenced = t.sequenced ++ c ∷ [] }
