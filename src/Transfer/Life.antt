-- ===== src/Transfer/Life.antt =====
-- thread_pool.c: `sync_single_file`, by the sockets that it opens and closes. `readable` says whether
-- the answer to PULL has a blank and a size that is not negative. The calls behind the start of the
-- upload are not checked by the code, and open and close nothing.
use nfs_system.Base.{List, [], ◌∷◌, none, some, Bool, true, false, if◌then◌else◌, ℕ, arith}
use nfs_system.Process.{
  Sys, pure, ◌>>=◌, ◌>>◌, ask, release, Resource, resource, socket, send, recv,
}
use nfs_system.Process.Laws.{
  Keeps, pure-Keeps, >>-Keeps, if-Keeps, ask-then, opened-then, same-Keeps, release-Keeps,
}
use nfs_system.Net.Sockets.{connect_to_server, connect_to_server-Keeps}
use nfs_system.Pool.{SyncJob}

-- `close(source_fd); close(target_fd); return`, with the result 0 or -1.
unfoldable pub close_both : ℕ → ℕ → Bool → Sys Bool
close_both source target result = do
  release (resource socket source)
  release (resource socket target)
  pure result

-- With both connections open.
unfoldable pub copy_file : Bool → ℕ → ℕ → Sys Bool
copy_file readable source target = do
  pull_sent ← ask (send source)
  if pull_sent
      then (do
        received ← ask (recv source)
        if received
            then if readable
              then (do
                start_sent ← ask (send target)
                if start_sent
                    then close_both source target true
                    else close_both source target false)
              else close_both source target false
            else close_both source target false)
      else close_both source target false

unfoldable pub sync_single_file : SyncJob → Bool → Sys Bool
sync_single_file job readable = do
  source_fd ← connect_to_server job.source.host job.source.port
  elim source_fd [
    | none ↦ pure false
    | some source ↦ do
      target_fd ← connect_to_server job.target.host job.target.port
      elim target_fd [
        | none ↦ release (resource socket source) >> pure false
        | some target ↦ copy_file readable source target
      ]
  ]

close_both-Keeps :
    (source target : ℕ) (result : Bool) (rs : List Resource)
    → Keeps
        (resource socket target ∷ resource socket source ∷ rs)
        (close_both source target result)
        (λ _. rs)
unfolding close_both
close_both-Keeps source target result rs =
    same-Keeps _ (resource socket source ∷ resource socket target ∷ rs) (λ r. omega arith)
      (>>-Keeps (resource socket target ∷ rs)
        (release-Keeps (resource socket source) (resource socket target ∷ rs))
        (>>-Keeps rs (release-Keeps (resource socket target) rs) (pure-Keeps result (λ _. rs))))

copy_file-Keeps :
    (readable : Bool) (source target : ℕ) (rs : List Resource)
    → Keeps
        (resource socket target ∷ resource socket source ∷ rs)
        (copy_file readable source target)
        (λ _. rs)
unfolding copy_file
copy_file-Keeps readable source target rs =
    let fails = close_both-Keeps source target false rs in
    ask-then (send source)
      (ask-then (recv source)
        (if-Keeps readable (ask-then (send target) (close_both-Keeps source target true rs) fails)
          fails)
        fails)
      fails

pub sync_single_file-Keeps :
    (job : SyncJob) (readable : Bool) (rs : List Resource)
    → Keeps rs (sync_single_file job readable) (λ _. rs)
unfolding sync_single_file
sync_single_file-Keeps job readable rs =
    opened-then (λ n. resource socket n ∷ [])
      (connect_to_server-Keeps job.source.host job.source.port rs) (pure-Keeps false (λ _. rs))
      (λ source.
        opened-then (λ n. resource socket n ∷ [])
          (connect_to_server-Keeps job.target.host job.target.port (resource socket source ∷ rs))
          (>>-Keeps rs (release-Keeps (resource socket source) rs) (pure-Keeps false (λ _. rs)))
          (λ target. copy_file-Keeps readable source target rs))
