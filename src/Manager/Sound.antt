-- ===== src/Manager/Sound.antt =====
-- The manager's invariant, over its commands.
use nfs_system.Base.{
  ℕ, ◌-◌, List, [], ◌∷◌, none, take, length-take, take_all, ◌≡◌, ◌≢◌, refl, arith, All, All-append,
  Bool-cases, Option-cases, if_intro, inl, inr,
}
use nfs_system.Text.{Bytes}
use nfs_system.Net.{recv}
use nfs_system.Spec.{DirectorySpec, parse_directory_spec}
use nfs_system.Store.{
  Status, success, refused, failure, SyncInfo, SyncInfoStore, copy_into, copy_directory,
  create_sync_info, find_first, find_sync_info, add_sync_info, deactivate_sync_info,
}
use nfs_system.Store.Laws.{same_directory_refl, find_first-deactivate_first}
use nfs_system.Store.Valid.{IsValid, add_sync_info-IsValid, deactivate_sync_info-IsValid}
use nfs_system.Pool.{SyncJob, create_sync_job}
use nfs_system.Transfer.{max_buffer_size}
use nfs_system.Manager.{
  World, Manager, LogLine, log_message, offer, offer_all, has_empty_field, start_directory_sync,
  started, added, add_pair, handle_add_command, cancelled, handle_cancel_command,
  handle_shutdown_command,
}

abbrev pub IsRegistered : SyncInfoStore → SyncJob → Type 0
IsRegistered s job = find_first job.source s.entries ≢ none

pub record IsSound (m : Manager) : Type 0 where
  pub valid : IsValid m.sync_store
  pub registered : All (IsRegistered m.sync_store) m.offered

log-IsSound : (m : Manager) (line : LogLine) → IsSound m → IsSound (log_message m line)
unfolding log_message
log-IsSound m line h = record { valid = h.valid; registered = h.registered }

copy_into_twice : (n : ℕ) (s : Bytes) → copy_into n (copy_into n s) ≡ copy_into n s
unfolding copy_into
copy_into_twice n s = take_all (n - 1) (take (n - 1) s) (omega (arith, length-take (n - 1) s))

copy_directory_twice : (d : DirectorySpec) → copy_directory (copy_directory d) ≡ copy_directory d
unfolding copy_directory
copy_directory_twice d = rw (copy_into_twice _ d.host, copy_into_twice _ d.dir)

offer-IsSound :
    (m : Manager) (info : SyncInfo) (line : Bytes)
    → find_first (copy_directory info.source) m.sync_store.entries ≢ none
    → IsSound m
    → IsSound (offer m info line)
unfolding offer
offer-IsSound m info line found h =
    if_intro IsSound m.pool_shutdown (λ e. log-IsSound m _ h)
      (λ e. log-IsSound _ _ (record {
        valid = h.valid;
        registered =
            All-append (IsRegistered m.sync_store) m.offered _ h.registered
              (unfold create_sync_job in found, tt);
      }))

pub offer-store :
    (m : Manager) (info : SyncInfo) (line : Bytes) → (offer m info line).sync_store ≡ m.sync_store
unfolding offer log_message
offer-store m info line =
    if_intro (λ (n : Manager). n.sync_store ≡ m.sync_store) m.pool_shutdown (λ e. refl) (λ e. refl)

offer_all-IsSound :
    (m : Manager) (info : SyncInfo) (lines : List Bytes)
    → find_first (copy_directory info.source) m.sync_store.entries ≢ none
    → IsSound m
    → IsSound (offer_all m info lines)
unfolding offer_all
offer_all-IsSound m info [] found h = h
offer_all-IsSound m info (line ∷ lines) found h =
    offer_all-IsSound (offer m info line) info lines (rw (offer-store m info line) found)
      (offer-IsSound m info line found h)

start-IsSound :
    (w : World) (m : Manager) (info : SyncInfo)
    → find_first (copy_directory info.source) m.sync_store.entries ≢ none
    → IsSound m
    → IsSound (start_directory_sync w m info).1
unfolding start_directory_sync
start-IsSound w m info found h = elim (Bool-cases (has_empty_field info)) [
  | inl e ↦ rw (start_directory_sync, e) h
  | inr e ↦ elim (Bool-cases (w.connects info.source)) [
    | inr e1 ↦ rw (start_directory_sync, e, e1) (log-IsSound m _ h)
    | inl e1 ↦ elim (Bool-cases (w.list_sent info.source)) [
      | inr e2 ↦ rw (start_directory_sync, e, e1, e2) h
      | inl e2 ↦ elim (Option-cases (recv (max_buffer_size - 1) (w.answer info.source))) [
        | inl q ↦ rw (start_directory_sync, e, e1, e2, q) h
        | inr ((buffer, rest), q) ↦
            rw (start_directory_sync, e, e1, e2, q) (offer_all-IsSound m info _ found h)
      ]
    ]
  ]
]

started-IsSound :
    (source target : DirectorySpec) (r : Status × Manager)
    → IsSound r.1
    → IsSound (started source target r).1
unfolding started
started-IsSound source target (success, m) h = log-IsSound m _ h
started-IsSound source target (refused, m) h = log-IsSound m _ h
started-IsSound source target (failure, m) h = log-IsSound m _ h

-- A pair stays in the store when another is added.
add-keeps :
    (s : SyncInfoStore) (info : SyncInfo) (key : DirectorySpec)
    → find_first key s.entries ≢ none
    → find_first key (add_sync_info s info).1.entries ≢ none
unfolding add_sync_info find_first
add-keeps s info key h = ground arith

add-finds :
    (s : SyncInfoStore) (info : SyncInfo)
    → find_first info.source s.entries ≡ none
    → find_first info.source (add_sync_info s info).1.entries ≢ none
unfolding add_sync_info find_first
add-finds s info h = ground (arith, same_directory_refl info.source)

pub deactivate-keeps :
    (s : SyncInfoStore) (source key : DirectorySpec)
    → find_first key s.entries ≢ none
    → find_first key (deactivate_sync_info s source).1.entries ≢ none
unfolding deactivate_sync_info find_sync_info
deactivate-keeps s source key h = ground (arith, find_first-deactivate_first source key s.entries)

All-mono :
    (P Q : SyncJob → Type 0) (xs : List SyncJob) → ((x : SyncJob) → P x → Q x) → All P xs → All Q xs
All-mono P Q [] f h = tt
All-mono P Q (x ∷ xs) f (p, ps) = (f x p, All-mono P Q xs f ps)

added-IsSound :
    (w : World) (m : Manager) (source target : DirectorySpec) (info : SyncInfo)
    (r : Status × SyncInfoStore)
    → find_first (copy_directory info.source) r.1.entries ≢ none
    → IsSound (record m { sync_store = r.1 })
    → IsSound (added w m source target info r).1
unfolding added
added-IsSound w m source target info (success, s) found h =
    started-IsSound source target _ (start-IsSound w (record m { sync_store = s }) info found h)
added-IsSound w m source target info (refused, s) found h = h
added-IsSound w m source target info (failure, s) found h = h

pub add-found :
    (s : SyncInfoStore) (info : SyncInfo)
    → find_first info.source (add_sync_info s info).1.entries ≢ none
add-found s info = elim (Option-cases (find_first info.source s.entries)) [
  | inl e ↦ add-finds s info e
  | inr (i, e) ↦ add-keeps s info info.source (λ q. cc)
]

copied_source :
    (source target : DirectorySpec) (now : ℕ)
    → copy_directory (create_sync_info source target now).source
      ≡ (create_sync_info source target now).source
unfolding create_sync_info
copied_source source target now = copy_directory_twice source

pub add_pair-IsSound :
    (w : World) (m : Manager) (source target : DirectorySpec)
    → IsSound m
    → IsSound (add_pair w m source target).1
unfolding add_pair
add_pair-IsSound w m source target h = elim (Option-cases (find_sync_info m.sync_store source)) [
  | inr (i, e) ↦ rw (add_pair, e) (log-IsSound m _ h)
  | inl e ↦
      let info = create_sync_info source target w.now in
      rw (add_pair, e)
        (added-IsSound w m source target info (add_sync_info m.sync_store info)
          (rw (copied_source source target w.now) (add-found m.sync_store info))
          (record {
            valid = add_sync_info-IsValid m.sync_store info h.valid;
            registered =
                All-mono _ _ m.offered (λ j p. add-keeps m.sync_store info j.source p) h.registered;
          }))
]

pub handle_add_command-IsSound :
    (w : World) (m : Manager) (source_spec target_spec : Bytes)
    → IsSound m
    → IsSound (handle_add_command w m source_spec target_spec).1
unfolding handle_add_command
handle_add_command-IsSound w m source_spec target_spec h =
    elim (Option-cases (parse_directory_spec source_spec)) [
      | inl e ↦ rw (handle_add_command, e) h
      | inr (source, e) ↦ elim (Option-cases (parse_directory_spec target_spec)) [
        | inl e1 ↦ rw (handle_add_command, e, e1) h
        | inr (target, e1) ↦ rw (handle_add_command, e, e1) (add_pair-IsSound w m source target h)
      ]
    ]

cancelled-IsSound :
    (m : Manager) (source : DirectorySpec) (r : Status × SyncInfoStore)
    → IsSound (record m { sync_store = r.1 })
    → IsSound (cancelled m source r).1
unfolding cancelled
cancelled-IsSound m source (success, s) h = log-IsSound _ _ h
cancelled-IsSound m source (refused, s) h = log-IsSound _ _ h
cancelled-IsSound m source (failure, s) h = log-IsSound _ _ h

pub handle_cancel_command-IsSound :
    (m : Manager) (source_spec : Bytes)
    → IsSound m
    → IsSound (handle_cancel_command m source_spec).1
unfolding handle_cancel_command
handle_cancel_command-IsSound m source_spec h =
    elim (Option-cases (parse_directory_spec source_spec)) [
      | inl e ↦ rw (handle_cancel_command, e) h
      | inr (source, e) ↦
          rw (handle_cancel_command, e)
            (cancelled-IsSound m source (deactivate_sync_info m.sync_store source) (record {
              valid = deactivate_sync_info-IsValid m.sync_store source h.valid;
              registered =
                  All-mono _ _ m.offered (λ j p. deactivate-keeps m.sync_store source j.source p)
                    h.registered;
            }))
    ]

pub handle_shutdown_command-IsSound :
    (m : Manager) → IsSound m → IsSound (handle_shutdown_command m)
unfolding handle_shutdown_command
handle_shutdown_command-IsSound m h = record { valid = h.valid; registered = h.registered }
