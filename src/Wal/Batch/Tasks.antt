-- ===== src/Wal/Batch/Tasks.antt =====
-- What becomes of the entries where `add_entry`, `flush_batch`, the task of `start_periodic_flush`,
-- `next_batch` and `shutdown` run side by side: kaelix-storage/src/wal/batch.rs.
use mathlib.Core.List.{Perm}
use mathlib.Core.List.Perm
use kaelix.Base.{ℕ, ◌<◌, ◌≡◌, refl, List, [], ◌∷◌, ◌++◌, length, arith}
use kaelix.Wal.Entry.{LogEntry}
use kaelix.Wal.Batch.{
  BatchCoordinator, BatchConfig, make_coordinator, push_entry, take_batch, send_batch, count_flush,
  count_tick, set_shutdown, receive, taken,
}
use kaelix.Wal.Batch.Order.{joined, contents}

-- The entries pushed, those given out, the batches that were taken and not sent yet, and the
-- coordinator, after the parts of any number of operations in any order. A batch in flight is sent
-- whenever its task goes on.
pub data Run (config : BatchConfig)
    : List LogEntry → List LogEntry → List (List LogEntry) → BatchCoordinator → Type 0 where
  made : Run config [] [] [] (make_coordinator config)
  pushed :
      {es ts : List LogEntry} {fs : List (List LogEntry)} {c : BatchCoordinator} (e : LogEntry)
      → Run config es ts fs c
      → Run config (es ++ (e ∷ [])) ts fs (push_entry e c)
  took :
      {es ts : List LogEntry} {fs : List (List LogEntry)} {c : BatchCoordinator}
      → Run config es ts fs c
      → 0 < length c.current_batch
      → Run config es ts ((take_batch c).1 ∷ fs) (take_batch c).0
  sent :
      {es ts : List LogEntry} {fs : List (List LogEntry)} {c : BatchCoordinator}
      (gs hs : List (List LogEntry)) (b : List LogEntry)
      → Run config es ts fs c
      → fs ≡ gs ++ (b ∷ hs)
      → Run config es ts (gs ++ hs) (send_batch b c)
  counted :
      {es ts : List LogEntry} {fs : List (List LogEntry)} {c : BatchCoordinator} (now : ℕ)
      (b : List LogEntry)
      → Run config es ts fs c
      → Run config es ts fs (count_flush now b c)
  counted_tick :
      {es ts : List LogEntry} {fs : List (List LogEntry)} {c : BatchCoordinator} (b : List LogEntry)
      → Run config es ts fs c
      → Run config es ts fs (count_tick b c)
  received :
      {es ts : List LogEntry} {fs : List (List LogEntry)} {c : BatchCoordinator} (b : List LogEntry)
      → Run config es ts fs c
      → (receive c c.batch_ready).1 ≡ taken b
      → Run config es (ts ++ b) fs (receive c c.batch_ready).0
  closed :
      {es ts : List LogEntry} {fs : List (List LogEntry)} {c : BatchCoordinator}
      → Run config es ts fs c
      → Run config es ts fs (set_shutdown c)

-- What is held: in the current batch, in flight, and in the channel.
unfoldable pub held : List (List LogEntry) → BatchCoordinator → List LogEntry
held fs c = joined fs ++ contents c

-- Two flushes that overlap can send their batches in the other order: the entry pushed second then
-- stands in the channel before the first.
batches_overtake :
    (config : BatchConfig) (a b : LogEntry)
    → (c : BatchCoordinator) × Run config (a ∷ b ∷ []) [] [] c
      × (c.batch_ready ≡ (b ∷ []) ∷ (a ∷ []) ∷ [])
unfolding make_coordinator push_entry take_batch send_batch
batches_overtake config a b =
    let first = took (pushed a made) (omega arith) in
    let second = took (pushed b first) (omega arith) in
    (_, sent [] [] (a ∷ []) (sent [] ((a ∷ []) ∷ []) (b ∷ []) second refl) refl, refl)
