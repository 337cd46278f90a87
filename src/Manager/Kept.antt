-- ===== src/Manager/Kept.antt =====
-- What `handle_add_command` leaves in the store.
use nfs_system.Base.{
  ◌-◌, List, [], ◌∷◌, none, some, take_all, ◌≡◌, ◌≢◌, refl, arith, ◌∙◌, subst, Bool-cases,
  Option-cases, inl, inr,
}
use nfs_system.Text.{Bytes}
use nfs_system.Net.{recv, c_string}
use nfs_system.Spec.{DirectorySpec, parse_directory_spec, max_path, max_host_size}
use nfs_system.Spec.Laws.{parse_directory_spec_iff, Spells}
use nfs_system.Store.{
  Status, success, refused, failure, SyncInfo, SyncInfoStore, copy_into, copy_directory,
  create_sync_info, find_first, find_sync_info, add_sync_info,
}
use nfs_system.Transfer.{max_buffer_size}
use nfs_system.Manager.{
  World, Manager, log_message, offer, offer_all, has_empty_field, listed, tokens,
  start_directory_sync, started, added, add_pair,
}
use nfs_system.Manager.Sound.{offer-store, add-found}

offer_all-store :
    (m : Manager) (info : SyncInfo) (lines : List Bytes)
    → (offer_all m info lines).sync_store ≡ m.sync_store
unfolding offer_all
offer_all-store m info [] = refl
offer_all-store m info (line ∷ lines) =
    offer_all-store (offer m info line) info lines ∙ offer-store m info line

start-store :
    (w : World) (m : Manager) (info : SyncInfo)
    → (start_directory_sync w m info).1.sync_store ≡ m.sync_store
unfolding start_directory_sync log_message
start-store w m info = elim (Bool-cases (has_empty_field info)) [
  | inl e ↦ rw (start_directory_sync, e)
  | inr e ↦ elim (Bool-cases (w.connects info.source)) [
    | inr e1 ↦ rw (start_directory_sync, e, e1)
    | inl e1 ↦ elim (Bool-cases (w.list_sent info.source)) [
      | inr e2 ↦ rw (start_directory_sync, e, e1, e2)
      | inl e2 ↦ elim (Option-cases (recv (max_buffer_size - 1) (w.answer info.source))) [
        | inl q ↦ rw (start_directory_sync, e, e1, e2, q)
        | inr ((buffer, rest), q) ↦
            rw (start_directory_sync, e, e1, e2, q)
              (offer_all-store m info (listed (tokens (c_string buffer))))
      ]
    ]
  ]
]

started-store :
    (source target : DirectorySpec) (r : Status × Manager)
    → (started source target r).1.sync_store ≡ r.1.sync_store
unfolding started log_message
started-store source target (success, m) = refl
started-store source target (refused, m) = refl
started-store source target (failure, m) = refl

added-store :
    (w : World) (m : Manager) (source target : DirectorySpec) (info : SyncInfo)
    (r : Status × SyncInfoStore)
    → (added w m source target info r).1.sync_store ≡ r.1
unfolding added
added-store w m source target info (success, s) =
    started-store source target (start_directory_sync w (record m { sync_store = s }) info)
    ∙ start-store w (record m { sync_store = s }) info
added-store w m source target info (refused, s) = refl
added-store w m source target info (failure, s) = refl

-- What the parser has accepted fits the arrays that it is copied to.
pub copy-parsed :
    (spec : Bytes) (source : DirectorySpec)
    → parse_directory_spec spec ≡ some source
    → copy_directory source ≡ source
unfolding copy_directory copy_into
copy-parsed spec source e =
    let s : Spells spec source = (parse_directory_spec_iff spec source).0 e in
    rw (
      take_all (max_host_size - 1) source.host (omega (arith, s.host_fits)),
      take_all (max_path - 1) source.dir (omega (arith, s.dir_fits)),
    )

pub add_pair-found :
    (w : World) (m : Manager) (source target : DirectorySpec)
    → copy_directory source ≡ source
    → find_sync_info (add_pair w m source target).1.sync_store source ≢ none
unfolding add_pair find_sync_info create_sync_info log_message
add_pair-found w m source target same =
    elim (Option-cases (find_first source m.sync_store.entries)) [
      | inr (i, e) ↦ rw (add_pair, e) (λ q. cc)
      | inl e ↦
          let info = create_sync_info source target w.now in
          rw (add_pair, e, added-store w m source target info (add_sync_info m.sync_store info))
            (subst (λ k. find_first k (add_sync_info m.sync_store info).1.entries ≢ none) same
              (add-found m.sync_store info))
    ]
