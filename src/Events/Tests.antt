-- ===== src/Events/Tests.antt =====
-- A hub with one topic, and the theorems about the event hub at it.
use shiori_server.Prelude.{ℕ, ◌+◌, ◌≢◌, String, [], ◌∷◌, arith, eq_iff}
use shiori_server.Prelude.Map.{find}
use shiori_server.Events.Hub.{Topic, Hub, new_hub}
use shiori_server.Events.Runs.{publish_op, subscribe_from_op, run, ValidEntry, run-Valid}

abbrev topic : Topic ℕ
topic = record {
  legacy = 0 ∷ [];
  sequenced = [];
  history = record { id = 1; content = 70 } ∷ record { id = 2; content = 71 } ∷ [];
  next_id = 2;
  last_active = 5;
}

abbrev hub : Hub ℕ
hub = record {
  topics = ("job:1", topic) ∷ [];
  next_channel = 1;
  legacy_buffer = λ _. [];
  event_buffer = λ _. [];
}

run-Valid_example : ValidEntry (0 + 2) (
    find "job:1"
      (run (subscribe_from_op 1 "job:1" 0 ∷ publish_op 2 "job:1" 70 ∷ []) (new_hub {D = ℕ})).topics)
unfolding new_hub
run-Valid_example =
    run-Valid (subscribe_from_op 1 "job:1" 0 ∷ publish_op 2 "job:1" 70 ∷ []) 0 (new_hub {D = ℕ})
      "job:1" (omega arith) tt

names_differ : ◌≢◌ {A = String} "job:1" "job:2"
names_differ = ground (arith, eq_iff "job:1" "job:2")
