-- ===== src/Wal/Log/Shutdown.antt =====
-- The end of the log: kaelix-storage/src/wal/mod.rs.
use Prim.Native.String.{String}
use kaelix.Base.{ℕ, ◌≡◌, refl, arith, true, List, Option, none, some}
use kaelix.Wal.Types.{shutdown, WalResult, ok, err}
use kaelix.Wal.Entry.{Codec}
use kaelix.Wal.Segment.{WalSegment, WriteCall}
use kaelix.Wal.Rotation.{RotationManager}
use kaelix.Wal.Rotation.Rotating.{stop}
use kaelix.Wal.Log.{Wal, write, read, close, after_stop, seal_active}

active-flag :
    (now : ℕ) (failed : Option String) (w : Wal) (s : Option WalSegment)
    → (seal_active now failed w s).0.shutdown_flag ≡ w.shutdown_flag
unfolding seal_active
active-flag now failed w none = refl
active-flag now failed w (some s) = refl

stop-flag :
    (now : ℕ) (failed : Option String) (w : Wal) (r : RotationManager × WalResult (Unit {0}))
    → (after_stop now failed w r).0.shutdown_flag ≡ w.shutdown_flag
unfolding after_stop
stop-flag now failed w (m, ok u) =
    active-flag now failed (record w { rotation_manager = m }) w.active_segment
stop-flag now failed w (m, err e) = refl

write-closed :
    (hash : List ℕ → ℕ) (codec : Codec) (call : WriteCall) (now : ℕ) (message : WalResult (List ℕ))
    (w : Wal)
    → w.shutdown_flag ≡ true
    → (write hash codec call now message w ≡ (w, err shutdown))
unfolding write
write-closed hash codec call now message w closed = ground arith

read-closed :
    (start limit : ℕ) (w : Wal) → w.shutdown_flag ≡ true → read start limit w ≡ (w, err shutdown)
unfolding read
read-closed start limit w closed = ground arith

-- After a shutdown, even one that failed to seal a segment, the log refuses every message and every
-- read, and no longer changes.
closed_refuses :
    (hash : List ℕ → ℕ) (codec : Codec) (call : WriteCall) (now later : ℕ)
    (message : WalResult (List ℕ)) (start limit : ℕ) (manager_failed failed : Option String)
    (w : Wal)
    → (write hash codec call later message (close now manager_failed failed w).0
        ≡ ((close now manager_failed failed w).0, err shutdown))
      × (read start limit (close now manager_failed failed w).0
          ≡ ((close now manager_failed failed w).0, err shutdown))
unfolding close
closed_refuses hash codec call now later message start limit manager_failed failed w =
    let marked = record w { shutdown_flag = true } in
    let closed = stop-flag now failed marked (stop now manager_failed w.rotation_manager) in
    (
      write-closed hash codec call later message (close now manager_failed failed w).0 closed,
      read-closed start limit (close now manager_failed failed w).0 closed,
    )
