-- ===== src/Transfer/Directory.antt =====
-- The jobs of one pair of directories, carried out by `sync_single_file` one after the other between the
-- servers of the source and of the target.
-- A file server serves one connection at a time, so the sessions of several workers have an order.
use nfs_system.Base.{
  ℕ, ◌+◌, ◌*◌, ◌<◌, ◌^◌, ◌==◌, List, [], ◌∷◌, ◌++◌, Option, some, true, false, length, ◌≡◌, ◌≢◌,
  refl, ap, arith, sym, ◌∙◌, subst, All, Bool-cases, inl, inr,
}
use nfs_system.Text.{Bytes, str_eq, str_eq_iff}
use nfs_system.Text.Decimal.{print_nat}
use nfs_system.Net.{Stream, flatten}
use nfs_system.Net.Laws.{stream_size, bounded_short}
use nfs_system.Net.Receive.{IsSolid}
use nfs_system.Client.{Disk, FileServer, relative, handle_pull_command, max_buffer_size}
use nfs_system.Client.Serve.{handle_client_connection, closed}
use nfs_system.Client.Commands.{IsPath}
use nfs_system.Client.Upload.{holding}
use nfs_system.Spec.{max_path}
use nfs_system.Store.{success}
use nfs_system.Pool.{SyncJob}
use nfs_system.Transfer.{Peers, Transfer, sync_single_file, join_path}
use nfs_system.Transfer.Sent.{AllUp}
use nfs_system.Transfer.EndToEnd.{Copied, copied, sync_single_file-Copied, same_tail}

abbrev pub source_path : SyncJob → Bytes
source_path job = relative (join_path job.source.dir job.filename)

abbrev pub target_path : SyncJob → Bytes
target_path job = relative (join_path job.target.dir job.filename)

same_relative : (dir f g : Bytes) → relative (dir ++ b'/' ∷ f) ≡ relative (dir ++ b'/' ∷ g) → f ≡ g
unfolding relative
same_relative [] f g e = e
same_relative (c ∷ dir) f g e = elim (Bool-cases (c == b'/')) [
  | inl slash ↦ same_tail (b'/' ∷ []) f g (same_tail dir _ _ (inside slash))
  | inr other ↦ same_tail (b'/' ∷ []) f g (same_tail (c ∷ dir) _ _ (outside other))
]
  where
    inside : (c == b'/') ≡ true → dir ++ b'/' ∷ f ≡ dir ++ b'/' ∷ g
    inside h = ground arith

    outside : (c == b'/') ≡ false → c ∷ (dir ++ b'/' ∷ f) ≡ c ∷ (dir ++ b'/' ∷ g)
    outside h = ground arith

-- The job of a pair of directories, in a path that is not cut.
pub record OfPair (source_dir target_dir : Bytes) (job : SyncJob) : Type 0 where
  pub in_source : job.source.dir ≡ source_dir
  pub in_target : job.target.dir ≡ target_dir
  pub short : length (job.target.dir ++ b'/' ∷ job.filename) < max_path * 2

-- In one pair, the path at the target tells the path at the source.
same_source :
    (sd td : Bytes) (j k : SyncJob)
    → OfPair sd td j
    → OfPair sd td k
    → target_path j ≡ target_path k
    → source_path j ≡ source_path k
unfolding join_path
same_source sd td j k hj hk e =
    let whole : (i : SyncJob)
        → OfPair sd td i
        → target_path i ≡ relative (td ++ b'/' ∷ i.filename) =
      λ i h.
        ap relative (bounded_short (max_path * 2) (i.target.dir ++ b'/' ∷ i.filename) h.short)
        ∙ ap (λ d. relative (d ++ b'/' ∷ i.filename)) h.in_target in
    let name = same_relative td j.filename k.filename (sym (whole j hj) ∙ e ∙ whole k hk) in
    ap (λ d. relative (join_path d j.filename)) (hj.in_source ∙ sym hk.in_source)
    ∙ ap (λ f. relative (join_path k.source.dir f)) name

module _ (fuel : ℕ) (peers : Peers) (source target : Disk) (a : FileServer)
    (answers : SyncJob → Stream) where
  -- The source has the job's file, shorter than 2 ^ 63 bytes; its answer arrives whole, the size and its
  -- blank in the first segment, which fits one `recv`; the target's path is one word that fits, and its
  -- disk opens and writes the file.
  pub record Ready (job : SyncJob) : Type 0 where
    pub content : Bytes
    pub first : Bytes
    pub rest : Stream
    pub file : a.files (source_path job) ≡ some content
    pub small : length content < 2 ^ 63
    pub arrives : answers job ≡ (print_nat (length content) ++ 32 ∷ first) ∷ rest
    pub whole :
        flatten ((print_nat (length content) ++ 32 ∷ first) ∷ rest)
        ≡ flatten (handle_pull_command source a (join_path job.source.dir job.filename))
    pub fits : length (print_nat (length content) ++ 32 ∷ first) < max_buffer_size
    pub solid : IsSolid rest
    pub enough : stream_size rest < fuel
    pub word : IsPath (join_path job.target.dir job.filename)
    pub opens : target.opens (target_path job) ≡ true
    pub accepts : (b : Bytes) → target.accepts (target_path job) b ≡ true

  -- The jobs are carried out, each with success, and the target's server serves what each sends to it as
  -- one session, in which each `send` arrives as a segment of its own.
  pub data Carried : FileServer → List SyncJob → FileServer → Type 0 where
    none_left : {b : FileServer} → Carried b [] b
    carried :
        {b c d : FileServer} {job : SyncJob} {jobs : List SyncJob} (t : Transfer)
        → sync_single_file fuel peers job (answers job) ≡ some t
        → t.status ≡ success
        → handle_client_connection target (length t.to_target + 1) t.to_target b [] ≡ closed c []
        → Carried c jobs d
        → Carried b (job ∷ jobs) d

  -- Every job's file is at the target as it is at the source, and the other files are as they were.
  pub record Mirrored (b : FileServer) (jobs : List SyncJob) : Type 0 where
    pub server : FileServer
    pub carries : Carried b jobs server
    pub holds :
        All (λ (job : SyncJob). server.files (target_path job) ≡ a.files (source_path job)) jobs
    pub keeps :
        (p : Bytes) → All (λ (job : SyncJob). target_path job ≢ p) jobs → server.files p ≡ b.files p

  -- No job writes anything but `v` to the path `p`.
  abbrev OnlyWrites : Bytes → Option Bytes → SyncJob → Type 0
  OnlyWrites p v job = target_path job ≡ p → a.files (source_path job) ≡ v

  record Run (b : FileServer) (jobs : List SyncJob) : Type 0 where
    server : FileServer
    carries : Carried b jobs server
    holds : All (λ (job : SyncJob). server.files (target_path job) ≡ a.files (source_path job)) jobs
    stays :
        (p : Bytes) (v : Option Bytes)
        → b.files p ≡ v
        → All (OnlyWrites p v) jobs
        → server.files p ≡ v

  holding_writes :
      (b : FileServer) (path content p : Bytes) (v : Option Bytes)
      → b.files p ≡ v
      → (path ≡ p → some content ≡ v)
      → (holding b path content).files p ≡ v
  holding_writes b path content p v old new = elim (Bool-cases (str_eq path p)) [
    | inl same ↦ rw same (new ((str_eq_iff path p).0 same))
    | inr other ↦ rw other old
  ]

  only_writes :
      (sd td : Bytes) (job : SyncJob) (jobs : List SyncJob)
      → OfPair sd td job
      → All (OfPair sd td) jobs
      → All (OnlyWrites (target_path job) (a.files (source_path job))) jobs
  only_writes sd td job [] h hs = tt
  only_writes sd td job (k ∷ jobs) h (hk, hs) =
      ((λ e. ap a.files (same_source sd td k job hk h e)), only_writes sd td job jobs h hs)

  copy_one :
      (b : FileServer) (job : SyncJob)
      → AllUp peers
      → (r : Ready job)
      → Copied 0 target b
          (join_path job.target.dir job.filename)
          r.content
          (sync_single_file fuel peers job (answers job))
  copy_one b job up r =
      subst
        (λ s.
          Copied 0 target b (join_path job.target.dir job.filename) r.content
            (sync_single_file fuel peers job s))
        (sym r.arrives)
        (sync_single_file-Copied fuel 0 peers job target b r.first r.rest up r.solid r.enough r.word
          r.opens r.accepts source a r.content r.file r.small r.whole r.fits)

  jobs-Run :
      (sd td : Bytes) (jobs : List SyncJob) (b : FileServer)
      → AllUp peers
      → All (OfPair sd td) jobs
      → All Ready jobs
      → Run b jobs
  jobs-Run sd td [] b up hs rs = record {
    server = b;
    carries = none_left;
    holds = tt;
    stays = λ p v e w. e;
  }
  jobs-Run sd td (job ∷ jobs) b up (h, hs) (r, rs) = elim (copy_one b job up r) [
    | copied t e ok n served ↦
        let path = target_path job in
        let c = holding b path r.content in
        let ih = jobs-Run sd td jobs c up hs rs in
        record {
          server = ih.server;
          carries = carried t e ok served ih.carries;
          holds = (
            ih.stays path (a.files (source_path job))
                (holding_first b path r.content (a.files (source_path job)) (sym r.file))
                (only_writes sd td job jobs h hs),
            ih.holds,
          );
          stays = λ p v e (w, ws).
              ih.stays p v (holding_writes b path r.content p v e (λ q. sym r.file ∙ w q)) ws;
        }
  ]
    where
      holding_first :
          (b : FileServer) (path content : Bytes) (v : Option Bytes)
          → some content ≡ v
          → (holding b path content).files path ≡ v
      holding_first b path content v e = rw ((str_eq_iff path path).1 refl) e

  untouched :
      (p : Bytes) (v : Option Bytes) (jobs : List SyncJob)
      → All (λ (job : SyncJob). target_path job ≢ p) jobs
      → All (OnlyWrites p v) jobs
  untouched p v [] h = tt
  untouched p v (job ∷ jobs) (h, hs) = ((λ e. absurd (h e)), untouched p v jobs hs)

  -- When all calls succeed and each of the jobs of one pair is ready, the jobs are carried out, in
  -- their order and each with success, and then the target's server, when it receives what each
  -- has sent, one `send` per segment, has every job's file as the source has it, and its other
  -- files as they were.
  pub sync_single_file-Mirrored :
      (sd td : Bytes) (jobs : List SyncJob) (b : FileServer)
      → AllUp peers
      → All (OfPair sd td) jobs
      → All Ready jobs
      → Mirrored b jobs
  sync_single_file-Mirrored sd td jobs b up hs rs =
      let r = jobs-Run sd td jobs b up hs rs in
      record {
        server = r.server;
        carries = r.carries;
        holds = r.holds;
        keeps = λ p others. r.stays p (b.files p) refl (untouched p (b.files p) jobs others);
      }
