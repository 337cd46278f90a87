-- ===== src/Store/Laws.antt =====
-- What a lookup finds after each operation on the list of entries.
use nfs_system.Base.{
  List, [], ◌∷◌, none, some, true, false, if◌then◌else◌, int_eq_iff, ◌≡◌, ◌↔◌, refl, arith,
}
use mathlib.Core.Option
use nfs_system.Text.{str_eq_iff}
use nfs_system.Spec.{DirectorySpec}
use nfs_system.Store.{SyncInfo, same_directory, find_first, remove_first, deactivate_first}

pub same_directory_iff : (a b : DirectorySpec) → (same_directory a b ≡ true) ↔ (a ≡ b)
unfolding same_directory
same_directory_iff a b =
    ground (arith, str_eq_iff a.host b.host, int_eq_iff a.port b.port, str_eq_iff a.dir b.dir)

pub same_directory_refl : (a : DirectorySpec) → same_directory a a ≡ true
same_directory_refl a = (same_directory_iff a a).1 refl

-- An entry that is found has the source that was looked for.
pub find_first_source :
    (key : DirectorySpec) (is : List SyncInfo) (i : SyncInfo)
    → find_first key is ≡ some i
    → i.source ≡ key
unfolding find_first
find_first_source key [] i e = absurd (ground arith)
find_first_source key (x ∷ is) i e =
    ground (arith, same_directory_iff x.source key, find_first_source key is i)

abbrev pub deactivated : SyncInfo → SyncInfo
deactivated i = record i { active = false }

pub find_first-deactivate_first :
    (key other : DirectorySpec) (is : List SyncInfo)
    → find_first other (deactivate_first key is) ≡ (
        if same_directory key other
        then Option.map deactivated (find_first other is)
        else find_first other is)
unfolding find_first deactivate_first
find_first-deactivate_first key other [] = ground arith
find_first-deactivate_first key other (i ∷ is) = ground (
  arith,
  same_directory_iff i.source key,
  same_directory_iff i.source other,
  same_directory_iff key other,
  find_first-deactivate_first key other is,
)

-- No two entries have one source: behind each entry its source is not found.
abbrev pub IsUnique : List SyncInfo → Type 0
IsUnique [] = Unit {0}
IsUnique (i ∷ is) = (find_first i.source is ≡ none) × IsUnique is

pub find_first-remove_first :
    (key other : DirectorySpec) (is : List SyncInfo)
    → IsUnique is
    → find_first other (remove_first key is)
      ≡ (if same_directory key other then none else find_first other is)
unfolding find_first remove_first
find_first-remove_first key other [] u = ground arith
find_first-remove_first key other (i ∷ is) u = ground (
  arith,
  same_directory_iff i.source key,
  same_directory_iff i.source other,
  same_directory_iff key other,
  find_first-remove_first key other is u.1,
  u.0,
)
