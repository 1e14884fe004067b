-- ===== src/Wal/Batch/Order.antt =====
-- What becomes of the entries where no two operations overlap: kaelix-storage/src/wal/batch.rs.
use mathlib.Core.List.{append_assoc, append-nil}
use kaelix.Base.{
  ℕ, leb, if◌then◌else◌, ◌≡◌, refl, sym, ap, ◌∙◌, arith, Bool, true, false, List, [], ◌∷◌, ◌++◌,
  length, none, Bool-cases, inl, inr,
}
use kaelix.Wal.Types.{shutdown, WalResult, ok, err}
use kaelix.Wal.Entry.{LogEntry}
use kaelix.Wal.Batch.{
  BatchCoordinator, BatchConfig, make_coordinator, flush_entries, flush_batch, add_entry,
  tick_entries, periodic_tick, NextBatch, taken, ended, receive, next_batch, stop,
}

unfoldable pub joined : List (List LogEntry) → List LogEntry
joined [] = []
joined (b ∷ bs) = b ++ joined bs

-- The entries that a coordinator holds, those that wait in the channel first.
unfoldable pub contents : BatchCoordinator → List LogEntry
unfolding joined
contents c = joined c.batch_ready ++ c.current_batch

pub joined-append :
    (bs : List (List LogEntry)) (b : List LogEntry) → joined (bs ++ (b ∷ [])) ≡ joined bs ++ b
unfolding joined
joined-append [] b = append-nil b
joined-append (a ∷ bs) b =
    ap (λ r. a ++ r) (joined-append bs b) ∙ sym (append_assoc a (joined bs) b)

flush_entries-contents :
    (now duration : ℕ) (c : BatchCoordinator) (es : List LogEntry)
    → c.current_batch ≡ es
    → contents (flush_entries now duration c es).0 ≡ contents c
unfolding contents flush_entries
flush_entries-contents now duration c [] same = refl
flush_entries-contents now duration c (e ∷ es) same =
    append-nil (joined (c.batch_ready ++ ((e ∷ es) ∷ [])))
    ∙ joined-append c.batch_ready (e ∷ es)
    ∙ ap (λ r. joined c.batch_ready ++ r) (sym same)

flush_batch-contents :
    (now duration : ℕ) (c : BatchCoordinator) → contents (flush_batch now duration c).0 ≡ contents c
unfolding flush_batch
flush_batch-contents now duration c = elim (Bool-cases c.is_shutdown) [
  | inl closed ↦ simp (closed) refl
  | inr open_still ↦ simp (open_still) (flush_entries-contents now duration c c.current_batch refl)
]

tick-contents :
    (c : BatchCoordinator) (es : List LogEntry)
    → c.current_batch ≡ es
    → contents (tick_entries c es) ≡ contents c
unfolding contents tick_entries
tick-contents c [] same = refl
tick-contents c (e ∷ es) same =
    append-nil (joined (c.batch_ready ++ ((e ∷ es) ∷ [])))
    ∙ joined-append c.batch_ready (e ∷ es)
    ∙ ap (λ r. joined c.batch_ready ++ r) (sym same)

-- The entries that `add_entry` accepted, those that `next_batch` gave out, and the coordinator.
pub data Run (config : BatchConfig)
    : List LogEntry → List LogEntry → BatchCoordinator → Type 0 where
  made : Run config [] [] (make_coordinator config)
  added :
      {es ts : List LogEntry} {c : BatchCoordinator} (now duration : ℕ) (e : LogEntry)
      → Run config es ts c
      → c.is_shutdown ≡ false
      → Run config (es ++ (e ∷ [])) ts (add_entry now duration e c).0
  flushed :
      {es ts : List LogEntry} {c : BatchCoordinator} (now duration : ℕ)
      → Run config es ts c
      → Run config es ts (flush_batch now duration c).0
  ticked :
      {es ts : List LogEntry} {c : BatchCoordinator}
      → Run config es ts c
      → Run config es ts (periodic_tick c)
  received :
      {es ts : List LogEntry} {c : BatchCoordinator} (b : List LogEntry)
      → Run config es ts c
      → (next_batch c).1 ≡ taken b
      → Run config es (ts ++ b) (next_batch c).0
  stopped :
      {es ts : List LogEntry} {c : BatchCoordinator} (now duration : ℕ)
      → Run config es ts c
      → Run config es ts (stop now duration c)

passed :
    (b : Bool) (x y : BatchCoordinator × WalResult (Unit {0})) (es : List LogEntry)
    → b ≡ false
    → contents y.0 ≡ es
    → contents (if b then x else y).0 ≡ es
passed true x y es no_b h = absurd (ground arith)
passed false x y es no_b h = h

either :
    (b : Bool) (x y : BatchCoordinator × WalResult (Unit {0})) (es : List LogEntry)
    → contents x.0 ≡ es
    → contents y.0 ≡ es
    → contents (if b then x else y).0 ≡ es
either true x y es h k = h
either false x y es h k = k

add-contents :
    (now duration : ℕ) (e : LogEntry) (c : BatchCoordinator)
    → c.is_shutdown ≡ false
    → contents (add_entry now duration e c).0 ≡ contents c ++ (e ∷ [])
unfolding add_entry contents
add-contents now duration e c running =
    let c' = record c { current_batch = c.current_batch ++ (e ∷ []) } in
    let grown = sym (append_assoc (joined c.batch_ready) c.current_batch (e ∷ [])) in
    passed c.is_shutdown (c, err shutdown) _ _ running
      (either (leb c.config.max_batch_size (length c'.current_batch)) _ (c', ok tt) _
        (flush_batch-contents now duration c' ∙ grown) grown)

pub receive-contents :
    (c : BatchCoordinator) (bs : List (List LogEntry)) (b : List LogEntry)
    → c.batch_ready ≡ bs
    → (receive c bs).1 ≡ taken b
    → b ++ contents (receive c bs).0 ≡ contents c
unfolding contents joined
receive-contents c [] b same h = absurd (ground arith)
receive-contents c (a ∷ bs) b same h =
    let e : b ≡ a = ground arith in
    sym (append_assoc b (joined bs) c.current_batch)
    ∙ ap (λ x. (x ++ joined bs) ++ c.current_batch) e
    ∙ ap (λ q. joined q ++ c.current_batch) (sym same)

gave :
    (b : Bool) (c : BatchCoordinator) (x : BatchCoordinator × NextBatch) (t : List LogEntry)
    → b ≡ false
    → (if b then (c, ended) else x).1 ≡ taken t
    → x.1 ≡ taken t
gave true c x t running h = absurd (ground arith)
gave false c x t running h = h

got :
    (b : Bool) (c : BatchCoordinator) (x : BatchCoordinator × NextBatch) (t es : List LogEntry)
    → b ≡ false
    → t ++ contents x.0 ≡ es
    → t ++ contents (if b then (c, ended) else x).0 ≡ es
got true c x t es running h = absurd (ground arith)
got false c x t es running h = h

next-contents :
    (c : BatchCoordinator) (b : List LogEntry)
    → (next_batch c).1 ≡ taken b
    → b ++ contents (next_batch c).0 ≡ contents c
unfolding next_batch
next-contents c b h = elim (Bool-cases c.is_shutdown) [
  | inl closed ↦ absurd (ground arith)
  | inr running ↦ got c.is_shutdown c (receive c c.batch_ready) b _ running (
      receive-contents c c.batch_ready b refl
        (gave c.is_shutdown c (receive c c.batch_ready) b running h))
]

-- Where no two operations overlap, the entries given out, those that wait in the channel and those of
-- the current batch, in this order, are the entries accepted, in the order in which they were accepted.
pub entries_in_order :
    (config : BatchConfig) {es ts : List LogEntry} {c : BatchCoordinator}
    → Run config es ts c
    → ts ++ contents c ≡ es
unfolding make_coordinator contents joined periodic_tick stop
entries_in_order config made = refl
entries_in_order config (added {es} {ts} {c} now duration e r running) =
    ap (λ x. ts ++ x) (add-contents now duration e c running)
    ∙ sym (append_assoc ts (contents c) (e ∷ []))
    ∙ ap (λ x. x ++ (e ∷ [])) (entries_in_order config r)
entries_in_order config (flushed {es} {ts} {c} now duration r) =
    ap (λ x. ts ++ x) (flush_batch-contents now duration c) ∙ entries_in_order config r
entries_in_order config (ticked {es} {ts} {c} r) =
    ap (λ x. ts ++ x) (tick-contents c c.current_batch refl) ∙ entries_in_order config r
entries_in_order config (received {es} {ts} {c} b r h) =
    append_assoc ts b (contents (next_batch c).0)
    ∙ ap (λ x. ts ++ x) (next-contents c b h)
    ∙ entries_in_order config r
entries_in_order config (stopped {es} {ts} {c} now duration r) =
    ap (λ x. ts ++ x) (flush_batch-contents now duration (record c { is_shutdown = true }))
    ∙ entries_in_order config r

-- A shutdown flushes nothing: it sets the flag first, and the flush that follows then does nothing. The
-- entries that were held stay held, no batch is given out any more, and no later flush moves them.
stop_strands :
    (now duration later lasting : ℕ) (c : BatchCoordinator)
    → (contents (stop now duration c) ≡ contents c)
      × ((next_batch (stop now duration c)).1 ≡ ended)
      × (flush_batch later lasting (stop now duration c) ≡ (stop now duration c, none))
unfolding stop next_batch flush_batch contents
stop_strands now duration later lasting c = (refl, refl, refl)
