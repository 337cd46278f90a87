-- ===== src/Store.antt =====
-- sync_info.c: the store of the directory pairs that the manager synchronises. The linked list is
-- the list of its entries from the head on. The three arguments that name a source (host, port,
-- directory) are a `DirectorySpec`. No pointer is NULL, the memory does not run out, and the count
-- stays below 2 ^ 31. Each function holds the mutex from its first access to its last, but
-- `deactivate_sync_info`, whose two critical sections are joined: nothing removes an entry meanwhile.
pub mod Laws
pub mod Valid
pub mod Refine
pub mod Life
pub mod Print
use nfs_system.Base.{
  ℕ, zero, suc, ◌+◌, ◌-◌, List, [], ◌∷◌, Option, none, some, Bool, true, false, ◌&&◌, if◌then◌else◌,
  int_eq, take,
}
use nfs_system.Text.{Bytes, str_eq}
use nfs_system.Spec.{DirectorySpec, max_path, max_host_size}

-- The results 0, 1 and -1.
pub data Status : Type 0 where
  success refused failure : Status

-- `sync_info_t`
pub record SyncInfo : Type 0 where
  pub source : DirectorySpec
  pub target : DirectorySpec
  pub active : Bool
  pub last_sync_time : ℕ
  pub error_count : ℕ

-- `sync_info_store_t`
pub record SyncInfoStore : Type 0 where
  pub entries : List SyncInfo
  pub count : ℕ

unfoldable pub create_sync_info_store : SyncInfoStore
create_sync_info_store = record { entries = []; count = 0 }

-- `strncpy` into an array of `n` bytes whose last byte is then set to NUL.
unfoldable pub copy_into : ℕ → Bytes → Bytes
copy_into n s = take (n - 1) s

unfoldable pub copy_directory : DirectorySpec → DirectorySpec
copy_directory d = record {
  host = copy_into max_host_size d.host;
  port = d.port;
  dir = copy_into max_path d.dir;
}

-- `now` is what `time(NULL)` returns.
unfoldable pub create_sync_info : DirectorySpec → DirectorySpec → ℕ → SyncInfo
create_sync_info source target now = record {
  source = copy_directory source;
  target = copy_directory target;
  active = true;
  last_sync_time = now;
  error_count = 0;
}

-- The test that each loop over the entries makes.
unfoldable pub same_directory : DirectorySpec → DirectorySpec → Bool
same_directory a b = str_eq a.host b.host && int_eq a.port b.port && str_eq a.dir b.dir

unfoldable pub find_first : DirectorySpec → List SyncInfo → Option SyncInfo
find_first key [] = none
find_first key (i ∷ is) = if same_directory i.source key then some i else find_first key is

unfoldable pub find_sync_info : SyncInfoStore → DirectorySpec → Option SyncInfo
find_sync_info s key = find_first key s.entries

-- `info` is put in front, unless its source is in the list already.
unfoldable pub add_sync_info : SyncInfoStore → SyncInfo → Status × SyncInfoStore
add_sync_info s info = elim (find_first info.source s.entries) [
  | some _ ↦ (refused, s)
  | none ↦ (success, record s { entries = info ∷ s.entries; count = s.count + 1 })
]

-- The list without its first entry for `key`: `prev->next`, or the head, skips it.
unfoldable pub remove_first : DirectorySpec → List SyncInfo → List SyncInfo
remove_first key [] = []
remove_first key (i ∷ is) = if same_directory i.source key then is else i ∷ remove_first key is

unfoldable pub remove_sync_info : SyncInfoStore → DirectorySpec → Status × SyncInfoStore
remove_sync_info s key = elim (find_first key s.entries) [
  | some _ ↦ (success, record s { entries = remove_first key s.entries; count = s.count - 1 })
  | none ↦ (refused, s)
]

-- The write through the pointer that `find_sync_info` returned: to the first entry for `key`.
unfoldable pub deactivate_first : DirectorySpec → List SyncInfo → List SyncInfo
deactivate_first key [] = []
deactivate_first key (i ∷ is) =
    if same_directory i.source key
    then record i { active = false } ∷ is
    else i ∷ deactivate_first key is

unfoldable pub deactivate_sync_info : SyncInfoStore → DirectorySpec → Status × SyncInfoStore
deactivate_sync_info s key = elim (find_sync_info s key) [
  | none ↦ (refused, s)
  | some _ ↦ (success, record s { entries = deactivate_first key s.entries })
]

unfoldable pub get_sync_info_count : SyncInfoStore → ℕ
get_sync_info_count s = s.count
