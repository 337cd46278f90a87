-- ===== src/Manager/Start.antt =====
-- `start_directory_sync` with the file server's answer to LIST: which files get a job.
use nfs_system.Base.{
  ◌-◌, ◌<◌, List, [], ◌∷◌, ◌++◌, append_assoc, append-nil, some, true, false, length, length-append,
  ◌≡◌, ◌≢◌, refl, ap, arith, sym, ◌∙◌, subst, All,
}
use nfs_system.Text.{Bytes}
use nfs_system.Net.{Stream, recv, flatten, c_string}
use nfs_system.Net.Laws.{recv_whole, append-ne-nil}
use nfs_system.Store.{Status, success, SyncInfo}
use nfs_system.Pool.{SyncJob, create_sync_job}
use nfs_system.Client.{Disk, relative, handle_list_command}
use nfs_system.Transfer.{max_buffer_size}
use nfs_system.Manager.{
  World, Manager, log_message, offer, offer_all, has_empty_field, tokens, listed,
  start_directory_sync,
}
use nfs_system.Manager.Listing.{
  IsFilename, visible, lines, IsListed, listing, read_lines, read_lines-lines, visible-IsListed,
  one_line_read,
}

abbrev pub jobs_for : SyncInfo → List Bytes → List SyncJob
jobs_for info [] = []
jobs_for info (name ∷ names) = create_sync_job info.source info.target name ∷ jobs_for info names

offer_open :
    (m : Manager) (info : SyncInfo) (line : Bytes)
    → m.pool_shutdown ≡ false
    → ((offer m info line).offered ≡ m.offered ++ create_sync_job info.source info.target line ∷ [])
      × ((offer m info line).pool_shutdown ≡ false)
unfolding offer log_message
offer_open m info line h = ground arith

offer_all_open :
    (m : Manager) (info : SyncInfo) (names : List Bytes)
    → m.pool_shutdown ≡ false
    → (offer_all m info names).offered ≡ m.offered ++ jobs_for info names
unfolding offer_all
offer_all_open m info [] h = sym (append-nil m.offered)
offer_all_open m info (name ∷ names) h =
    let (more, still) = offer_open m info name h in
    offer_all_open (offer m info name) info names still
    ∙ ap (λ l. l ++ jobs_for info names) more
    ∙ append_assoc m.offered (create_sync_job info.source info.target name ∷ [])
        (jobs_for info names)

-- A start that has succeeded and queued jobs for these files.
pub record Started (m : Manager) (info : SyncInfo) (names : List Bytes) (r : Status × Manager)
    : Type 0 where
  pub succeeds : r.0 ≡ success
  pub queues : r.1.offered ≡ m.offered ++ jobs_for info names

start_received :
    (w : World) (m : Manager) (info : SyncInfo) (buffer : Bytes) (rest : Stream)
    → has_empty_field info ≡ false
    → w.connects info.source ≡ true
    → w.list_sent info.source ≡ true
    → recv (max_buffer_size - 1) (w.answer info.source) ≡ some (buffer, rest)
    → start_directory_sync w m info
      ≡ (success, offer_all m info (listed (tokens (c_string buffer))))
unfolding start_directory_sync
start_received w m info buffer rest e c l r = rw (start_directory_sync, e, c, l, r)

lines-ne-nil : (names : List Bytes) → flatten (lines names) ≢ []
lines-ne-nil [] e = cc
lines-ne-nil ([] ∷ names) e = cc
lines-ne-nil ((x ∷ name) ∷ names) e = cc

-- The four names in the pair are not empty, the calls to the source succeed, its directory can be
-- read and all its entries are file names of one line without NUL that fit; the answer to LIST
-- arrives in one piece that fits the buffer, and the pool is not shutting down. Then
-- `start_directory_sync` queues a job for each regular file of the directory whose name does not
-- begin with a dot, in order, and no others.
pub start_directory_sync-Started :
    (w : World) (m : Manager) (info : SyncInfo) (disk : Disk) (names : List Bytes)
    → has_empty_field info ≡ false
    → w.connects info.source ≡ true
    → w.list_sent info.source ≡ true
    → disk.entries (relative info.source.dir) ≡ some names
    → All IsFilename names
    → w.answer info.source ≡ flatten (handle_list_command disk info.source.dir) ∷ []
    → length (flatten (handle_list_command disk info.source.dir)) < max_buffer_size
    → m.pool_shutdown ≡ false
    → Started m info (visible disk (relative info.source.dir) names) (start_directory_sync w m info)
start_directory_sync-Started w m info disk names full c l e h answer fits opened =
    rw
      (start_received w m info (flatten (lines found)) [] full c l (
        rw (answer, sends)
          (recv_whole (max_buffer_size - 1) (flatten (lines found)) [] (lines-ne-nil found)
            (omega (arith, ap (λ s. length (flatten s)) sends)))))
      (record {
        succeeds = refl;
        queues =
            offer_all_open m info (read_lines found) opened
            ∙ ap (λ l. m.offered ++ jobs_for info l)
                (read_lines-lines found (visible-IsListed disk (relative info.source.dir) names h));
      })
  where
    found : List Bytes
    found = visible disk (relative info.source.dir) names

    sends : handle_list_command disk info.source.dir ≡ lines found
    sends = listing disk info.source.dir names e h

-- With the same conditions, but with each line of the answer to LIST in a segment of its own, as the
-- server sends them: only the first file gets a job, whatever other files the directory has, and
-- `start_directory_sync` returns success.
pub start_directory_sync_first :
    (w : World) (m : Manager) (info : SyncInfo) (disk : Disk) (names more : List Bytes)
    (first : Bytes)
    → has_empty_field info ≡ false
    → w.connects info.source ≡ true
    → w.list_sent info.source ≡ true
    → disk.entries (relative info.source.dir) ≡ some names
    → All IsFilename names
    → visible disk (relative info.source.dir) names ≡ first ∷ more
    → w.answer info.source ≡ handle_list_command disk info.source.dir
    → m.pool_shutdown ≡ false
    → Started m info (first ∷ []) (start_directory_sync w m info)
start_directory_sync_first w m info disk names more first full c l e h found answer opened =
    rw
      (start_received w m info (first ++ 10 ∷ []) (lines more) full c l (
        rw (answer, listing disk info.source.dir names e h, found)
          (recv_whole (max_buffer_size - 1) (first ++ 10 ∷ []) (lines more)
            (append-ne-nil first 10 [])
            (omega (arith, length-append first (10 ∷ []), first_listed.0.fits)))))
      (record {
        succeeds = refl;
        queues =
            offer_all_open m info _ opened
            ∙ ap (λ k. m.offered ++ jobs_for info k) (one_line_read first first_listed);
      })
  where
    first_listed : IsListed first
    first_listed =
        (subst (All IsListed) found (visible-IsListed disk (relative info.source.dir) names h)).0
