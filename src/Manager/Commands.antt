-- ===== src/Manager/Commands.antt =====
-- `handle_add_command` and `handle_cancel_command`, one behind the other.
use nfs_system.Base.{none, some, false, ◌≡◌, ◌≢◌, refl, arith, Bool-cases, Option-cases, inl, inr}
use nfs_system.Text.{Bytes}
use nfs_system.Spec.{DirectorySpec, parse_directory_spec}
use nfs_system.Store.{
  Status, success, refused, failure, SyncInfo, SyncInfoStore, copy_directory, create_sync_info,
  find_sync_info, add_sync_info, deactivate_sync_info, deactivate_first,
}
use nfs_system.Store.Laws.{find_first-deactivate_first}
use nfs_system.Manager.{
  World, Manager, log_message, already_in_queue, sync_stopped, has_empty_field,
  start_directory_sync, started, added, add_pair, handle_add_command, cancelled,
  handle_cancel_command,
}
use nfs_system.Manager.Kept.{copy-parsed, add_pair-found}

refused_when_found :
    (w : World) (m : Manager) (s t : Bytes) (source target : DirectorySpec)
    → parse_directory_spec s ≡ some source
    → parse_directory_spec t ≡ some target
    → find_sync_info m.sync_store source ≢ none
    → handle_add_command w m s t ≡ (refused, log_message m (already_in_queue source))
unfolding handle_add_command add_pair
refused_when_found w m s t source target es et h =
    elim (Option-cases (find_sync_info m.sync_store source)) [
      | inl e ↦ absurd (h e)
      | inr (i, e) ↦ rw (handle_add_command, es, et, add_pair, e)
    ]

-- Once `handle_add_command` has been called with a source and a target that both parse, whatever it
-- returned, a later call for that source with any target that parses, in any world, returns 1 and
-- writes "Already in queue", and changes nothing else: no job enters the queue.
pub handle_add_command_again :
    (w later : World) (m : Manager) (s t u : Bytes) (source target other : DirectorySpec)
    → parse_directory_spec s ≡ some source
    → parse_directory_spec t ≡ some target
    → parse_directory_spec u ≡ some other
    → handle_add_command later (handle_add_command w m s t).1 s u
      ≡ (refused, log_message (handle_add_command w m s t).1 (already_in_queue source))
handle_add_command_again w later m s t u source target other es et eu =
    refused_when_found later (handle_add_command w m s t).1 s u source other es eu (
      unfold handle_add_command in
      rw (handle_add_command, es, et) (add_pair-found w m source target (copy-parsed s source es)))

-- The first call of such two calls, where the source cannot be reached and was not in the store.
pub record FailsForGood (m : Manager) (source : DirectorySpec) (r : Status × Manager)
    (later : World) (s u : Bytes) : Type 0 where
  pub fails : r.0 ≡ failure
  pub queues_nothing : r.1.offered ≡ m.offered
  pub blocks :
      handle_add_command later r.1 s u ≡ (refused, log_message r.1 (already_in_queue source))

started_failure :
    (source target : DirectorySpec) (m : Manager) (r : Status × Manager)
    → r.0 ≡ failure
    → r.1.offered ≡ m.offered
    → ((started source target r).0 ≡ failure) × ((started source target r).1.offered ≡ m.offered)
unfolding started log_message
started_failure source target m (success, n) e o = absurd (ground arith)
started_failure source target m (refused, n) e o = (refl, o)
started_failure source target m (failure, n) e o = (refl, o)

unreachable :
    (w : World) (m : Manager) (info : SyncInfo)
    → w.connects info.source ≡ false
    → ((start_directory_sync w m info).0 ≡ failure)
      × ((start_directory_sync w m info).1.offered ≡ m.offered)
unfolding start_directory_sync log_message
unreachable w m info e = elim (Bool-cases (has_empty_field info)) [
  | inl e1 ↦ rw (start_directory_sync, e1) (refl, refl)
  | inr e1 ↦ rw (start_directory_sync, e1, e) (refl, refl)
]

added_unreachable :
    (w : World) (m : Manager) (source target : DirectorySpec) (info : SyncInfo)
    (r : Status × SyncInfoStore)
    → w.connects info.source ≡ false
    → ((added w m source target info r).0 ≡ failure)
      × ((added w m source target info r).1.offered ≡ m.offered)
unfolding added
added_unreachable w m source target info (success, s) e =
    let (fails, same) = unreachable w (record m { sync_store = s }) info e in
    started_failure source target m (start_directory_sync w (record m { sync_store = s }) info)
      fails same
added_unreachable w m source target info (refused, s) e = (refl, refl)
added_unreachable w m source target info (failure, s) e = (refl, refl)

-- When the source's server cannot be reached at the time of the command, and the source is not in
-- the store, `handle_add_command` fails and queues nothing; and a later call for this
-- source, with any target that parses, returns 1, "Already in queue", also where the server can be reached again.
pub handle_add_command-FailsForGood :
    (w later : World) (m : Manager) (s t u : Bytes) (source target other : DirectorySpec)
    → parse_directory_spec s ≡ some source
    → parse_directory_spec t ≡ some target
    → parse_directory_spec u ≡ some other
    → find_sync_info m.sync_store source ≡ none
    → w.connects source ≡ false
    → FailsForGood m source (handle_add_command w m s t) later s u
unfolding handle_add_command add_pair
handle_add_command-FailsForGood w later m s t u source target other es et eu none_yet down =
    rw (handle_add_command, es, et)
      (record {
        fails = rw (add_pair, none_yet) (both.0);
        queues_nothing = rw (add_pair, none_yet) (both.1);
        blocks =
            refused_when_found later (add_pair w m source target).1 s u source other es eu
              (add_pair-found w m source target same);
      })
  where
    same : copy_directory source ≡ source
    same = copy-parsed s source es

    info : SyncInfo
    info = create_sync_info source target w.now

    both :
        ((added w m source target info (add_sync_info m.sync_store info)).0 ≡ failure)
        × ((added w m source target info (add_sync_info m.sync_store info)).1.offered ≡ m.offered)
    both =
        added_unreachable w m source target info (add_sync_info m.sync_store info)
          (unfold create_sync_info in rw same down)

-- A source of the store is cancelled: the call succeeds, the jobs in the queue are as before, and
-- a later call does not add the source.
pub record CancelledForGood (m : Manager) (source : DirectorySpec) (r : Status × Manager)
    (later : World) (s u : Bytes) : Type 0 where
  pub succeeds : r.0 ≡ success
  pub keeps_jobs : r.1.offered ≡ m.offered
  pub keeps_running : r.1.pool_shutdown ≡ m.pool_shutdown
  pub blocks :
      handle_add_command later r.1 s u ≡ (refused, log_message r.1 (already_in_queue source))

cancel_found :
    (m : Manager) (s : Bytes) (source : DirectorySpec)
    → parse_directory_spec s ≡ some source
    → find_sync_info m.sync_store source ≢ none
    → handle_cancel_command m s ≡ (
      success,
      log_message
          (record m {
            sync_store = record m.sync_store {
              entries = deactivate_first source m.sync_store.entries;
            };
          })
          (sync_stopped source),
    )
unfolding handle_cancel_command deactivate_sync_info cancelled
cancel_found m s source es h = elim (Option-cases (find_sync_info m.sync_store source)) [
  | inl e ↦ absurd (h e)
  | inr (i, e) ↦ rw (handle_cancel_command, es, deactivate_sync_info, e)
]

-- `handle_cancel_command` for a source that is in the store succeeds and takes no job out of the
-- queue; and a later `handle_add_command` for this source, with any target that parses, returns 1 and
-- queues nothing, so that what was cancelled is not started again.
pub handle_cancel_command-CancelledForGood :
    (later : World) (m : Manager) (s u : Bytes) (source other : DirectorySpec)
    → parse_directory_spec s ≡ some source
    → parse_directory_spec u ≡ some other
    → find_sync_info m.sync_store source ≢ none
    → CancelledForGood m source (handle_cancel_command m s) later s u
unfolding log_message find_sync_info
handle_cancel_command-CancelledForGood later m s u source other es eu h =
    rw (cancel_found m s source es h) (record {
      succeeds = refl;
      keeps_jobs = refl;
      keeps_running = refl;
      blocks =
          refused_when_found later _ s u source other es eu
            (ground (arith, find_first-deactivate_first source source m.sync_store.entries));
    })
