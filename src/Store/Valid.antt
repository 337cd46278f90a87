-- ===== src/Store/Valid.antt =====
-- The invariant of `sync_info_store_t`.
use nfs_system.Base.{
  suc, List, [], ◌∷◌, some, length, ◌≡◌, refl, arith, Bool-cases, Option-cases, inl, inr,
}
use nfs_system.Spec.{DirectorySpec}
use nfs_system.Store.{
  SyncInfo, SyncInfoStore, same_directory, find_first, remove_first, deactivate_first,
  create_sync_info_store, find_sync_info, add_sync_info, remove_sync_info, deactivate_sync_info,
}
use nfs_system.Store.Laws.{IsUnique, find_first-remove_first, find_first-deactivate_first}

pub record IsValid (s : SyncInfoStore) : Type 0 where
  pub counted : s.count ≡ length s.entries
  pub unique : IsUnique s.entries

pub create_sync_info_store-IsValid : IsValid create_sync_info_store
unfolding create_sync_info_store
create_sync_info_store-IsValid = record { counted = refl; unique = tt }

length-remove_first :
    (key : DirectorySpec) (is : List SyncInfo) (i : SyncInfo)
    → find_first key is ≡ some i
    → suc (length (remove_first key is)) ≡ length is
unfolding find_first remove_first
length-remove_first key [] i e = absurd (ground arith)
length-remove_first key (x ∷ is) i e = ground (arith, length-remove_first key is i)

length-deactivate_first :
    (key : DirectorySpec) (is : List SyncInfo) → length (deactivate_first key is) ≡ length is
unfolding deactivate_first
length-deactivate_first key [] = refl
length-deactivate_first key (x ∷ is) = ground (arith, length-deactivate_first key is)

remove_first-IsUnique :
    (key : DirectorySpec) (is : List SyncInfo) → IsUnique is → IsUnique (remove_first key is)
unfolding remove_first
remove_first-IsUnique key [] u = tt
remove_first-IsUnique key (i ∷ is) u = elim (Bool-cases (same_directory i.source key)) [
  | inl hit ↦ rw hit (u.1)
  | inr miss ↦ rw miss (
    ground (arith, find_first-remove_first key i.source is u.1, u.0),
    remove_first-IsUnique key is u.1,
  )
]

deactivate_first-IsUnique :
    (key : DirectorySpec) (is : List SyncInfo) → IsUnique is → IsUnique (deactivate_first key is)
unfolding deactivate_first
deactivate_first-IsUnique key [] u = tt
deactivate_first-IsUnique key (i ∷ is) u = elim (Bool-cases (same_directory i.source key)) [
  | inl hit ↦ rw hit u
  | inr miss ↦ rw miss (
    ground (arith, find_first-deactivate_first key i.source is, u.0),
    deactivate_first-IsUnique key is u.1,
  )
]

pub add_sync_info-IsValid :
    (s : SyncInfoStore) (info : SyncInfo) → IsValid s → IsValid (add_sync_info s info).1
unfolding add_sync_info
add_sync_info-IsValid s info v = ground arith

pub remove_sync_info-IsValid :
    (s : SyncInfoStore) (key : DirectorySpec) → IsValid s → IsValid (remove_sync_info s key).1
unfolding remove_sync_info
remove_sync_info-IsValid s key v = elim (Option-cases (find_first key s.entries)) [
  | inl e ↦ rw (remove_sync_info, e) v
  | inr (i, e) ↦
      rw (remove_sync_info, e)
        (record {
          counted = omega (arith, length-remove_first key s.entries i e, v.counted);
          unique = remove_first-IsUnique key s.entries v.unique;
        })
]

pub deactivate_sync_info-IsValid :
    (s : SyncInfoStore) (key : DirectorySpec) → IsValid s → IsValid (deactivate_sync_info s key).1
unfolding deactivate_sync_info
deactivate_sync_info-IsValid s key v = elim (Option-cases (find_sync_info s key)) [
  | inl e ↦ rw (deactivate_sync_info, e) v
  | inr (i, e) ↦
      rw (deactivate_sync_info, e)
        (record {
          counted = omega (arith, length-deactivate_first key s.entries, v.counted);
          unique = deactivate_first-IsUnique key s.entries v.unique;
        })
]
