-- ===== src/Queue/Sqlite/Runs.antt =====
-- Sequences of calls on the SQLite queue, as the API and the workers make them in any order.
use shiori_server.Prelude.{ℕ, String, List, [], ◌∷◌}
use shiori_server.Queue.Types.{Job}
use shiori_server.Queue.Table.{Table, Call}
use shiori_server.Queue.Sqlite.{enqueue, dequeue, ack, nack, heartbeat, cancel}

pub data Op : Type 0 where
  enqueue_op : Call → Job → Op
  dequeue_op : Call → List String → Op
  ack_op heartbeat_op cancel_op status_op : Call → ℕ → Op
  nack_op : Call → ℕ → String → Op

-- The table after one call, whatever the call returns.
unfoldable pub apply : Op → Table → Table
apply (enqueue_op c j) t = (enqueue c j t).1
apply (dequeue_op c types) t = (dequeue c types t).1
apply (ack_op c i) t = (ack c i t).1
apply (heartbeat_op c i) t = (heartbeat c i t).1
apply (cancel_op c i) t = (cancel c i t).1
apply (status_op c i) t = t
apply (nack_op c i reason) t = (nack c i reason t).1

unfoldable pub run : List Op → Table → Table
run [] t = t
run (o ∷ os) t = run os (apply o t)

abbrev pub empty_table : Table
empty_table = record { rows = []; next_id = 1 }
