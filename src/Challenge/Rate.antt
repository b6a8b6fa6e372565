-- ===== src/Challenge/Rate.antt =====
-- internal/jobs/challenge_handler.go: what serveWS lets through to the browser.
use shiori_server.Prelude.{
  ℕ, suc, ◌+◌, ◌-◌, ◌*◌, ◌≤◌, ◌<◌, ◌≡◌, true, false, ◌&&◌, Option, none, some, List, [], ◌∷◌, arith,
  inl, inr, ltb, leb, length, All, Bool-cases,
}
use shiori_server.Challenge.Input.{
  InputEvent, Message, second, valid, valid_event, with_event, window, forward, is_mouse, is_small,
  valid_point, float_to, is_button,
}

module _ (one : ℕ) where
  length-with_event :
      (o : Option InputEvent) (rest : List InputEvent)
      → length (with_event one o rest) ≤ suc (length rest)
  length-with_event none rest = omega arith
  length-with_event (some e) rest = omega arith

  -- Within one window.
  forward-window :
      (started count : ℕ) (ms : List (Message one))
      → All (λ m. m.0 < started + second one) ms
      → length (forward one started count ms) ≤ 180 - count
  unfolding forward window
  forward-window started count [] h = omega arith
  forward-window started count ((now, event) ∷ rest) h =
      let same : leb (started + second one) now ≡ false = ground (arith, h.0) in
      let later = forward-window started (suc count) rest h.1 in
      elim (Bool-cases (ltb 180 (suc count))) [
        | inl over ↦ rw (same, over) (omega (arith, later))
        | inr under ↦
            let room : suc count ≤ 180 = ground (arith, under) in
            let more =
              length-with_event (valid_event one event) (forward one started (suc count) rest) in
            rw (same, under) (omega (arith, later, room, more))
      ]

  -- A second holds parts of two windows at most.
  forward-second :
      (t started count : ℕ) (ms : List (Message one))
      → All (λ m. (t ≤ m.0) × (m.0 < t + second one)) ms
      → length (forward one started count ms) ≤ (180 - count) + 180
  unfolding forward window
  forward-second t started count [] h = omega arith
  forward-second t started count ((now, event) ∷ rest) h =
      elim (Bool-cases (leb (started + second one) now)) [
        | inl over ↦
            let later = forward-window now 1 rest (soon rest h.1) in
            let more = length-with_event (valid_event one event) (forward one now 1 rest) in
            rw over (omega (arith, later, more))
        | inr same ↦
            let later = forward-second t started (suc count) rest h.1 in
            elim (Bool-cases (ltb 180 (suc count))) [
              | inl over ↦ rw (same, over) (omega (arith, later))
              | inr under ↦
                  let room : suc count ≤ 180 = ground (arith, under) in
                  let more =
                    length-with_event (valid_event one event)
                      (forward one started (suc count) rest) in
                  rw (same, under) (omega (arith, later, room, more))
            ]
      ]
    where
      soon :
          (xs : List (Message one))
          → All (λ m. (t ≤ m.0) × (m.0 < t + second one)) xs
          → All (λ m. m.0 < now + second one) xs
      soon [] k = tt
      soon (x ∷ xs) k = (omega (arith, k.0, h.0), soon xs k.1)

  -- What an event that is let through is, whatever was sent.
  abbrev pub Harmless : InputEvent → Type 0
  Harmless e =
      (length e.key ≤ 64)
      × (length e.code ≤ 64)
      × (length e.text ≤ 16)
      × (is_mouse one e ≡ true
          → (float_to (20000 * one) e.x ≡ true)
            × (float_to (20000 * one) e.y ≡ true)
            × (is_button e.button ≡ true))

  mouse_clear :
      (e : InputEvent)
      → valid one e ≡ true
      → is_small one e ≡ true
      → is_mouse one e ≡ true
      → (valid_point one e && is_button e.button) ≡ true
  unfolding valid
  mouse_clear e h small mouse = ground (arith, h, small, mouse)

  valid-Harmless : (e : InputEvent) → valid one e ≡ true → Harmless e
  unfolding valid
  valid-Harmless e h = elim (Bool-cases (is_small one e)) [
    | inr big ↦ cc (h, big)
    | inl small ↦ (
      ground (arith, small),
      ground (arith, small),
      ground (arith, small),
      λ mouse.
          let clear = mouse_clear e h small mouse in
          (ground (arith, clear), ground (arith, clear), ground (arith, clear)),
    )
  ]

  valid_event-Harmless :
      (o : Option InputEvent) (rest : List InputEvent)
      → All Harmless rest
      → All Harmless (with_event one (valid_event one o) rest)
  valid_event-Harmless none rest h = h
  valid_event-Harmless (some e) rest h = elim (Bool-cases (valid one e)) [
    | inl good ↦ rw good (valid-Harmless e good, h)
    | inr bad ↦ rw bad h
  ]

  forward-Harmless :
      (started count : ℕ) (ms : List (Message one)) → All Harmless (forward one started count ms)
  unfolding forward window
  forward-Harmless started count [] = tt
  forward-Harmless started count ((now, event) ∷ rest) =
      elim (Bool-cases (leb (started + second one) now)) [
        | inl new ↦ rw new (valid_event-Harmless event _ (forward-Harmless now 1 rest))
        | inr same ↦ elim (Bool-cases (ltb 180 (suc count))) [
          | inl over ↦ rw (same, over) (forward-Harmless started (suc count) rest)
          | inr under ↦
              rw (same, under)
                (valid_event-Harmless event _ (forward-Harmless started (suc count) rest))
        ]
      ]

  -- Of the messages of one connection that are read within one second, wherever the window stands
  -- and whatever the counter, at most 360 are forwarded to the browser; each one forwarded has a key
  -- and a code of at most 64 bytes and a text of at most 16, and a mouseMoved, mousePressed or
  -- mouseReleased has a finite point within 20000 by 20000 and a button that exists.
  pub forward_lem :
      (t started count : ℕ) (ms : List (Message one))
      → All (λ m. (t ≤ m.0) × (m.0 < t + second one)) ms
      → (length (forward one started count ms) ≤ 360) × All Harmless (forward one started count ms)
  forward_lem t started count ms h =
      (omega (arith, forward-second t started count ms h), forward-Harmless started count ms)
