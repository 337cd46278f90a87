-- ===== src/Store/Print.antt =====
-- sync_info.c: `print_sync_info_store`, as the texts of its calls of `printf`. `stamp` is what
-- `localtime` and `strftime` make of a time.
use nfs_system.Base.{
  ℕ, suc, ◌+◌, ◌*◌, List, [], ◌∷◌, ◌++◌, ◌==◌, if◌then◌else◌, length, length-append, ◌≡◌, refl,
  arith, Bool-cases, inl, inr,
}
use nfs_system.Text.{Bytes, codes}
use nfs_system.Text.Decimal.{print_nat, print_int}
use nfs_system.Spec.{DirectorySpec}
use nfs_system.Store.{SyncInfo, SyncInfoStore}
use nfs_system.Store.Valid.{IsValid}

-- `%s@%s:%d`, and the end of the line.
unfoldable pub directory_line : Bytes → DirectorySpec → Bytes
directory_line label d =
    label ++ (d.dir ++ (codes "@" ++ (d.host ++ (codes ":" ++ (print_int d.port ++ codes "\n")))))

unfoldable pub state_line : (ℕ → Bytes) → SyncInfo → Bytes
state_line stamp info =
    codes "   Active: "
    ++ ((if info.active then codes "Yes" else codes "No")
        ++ (codes ", Last Sync: "
            ++ (stamp info.last_sync_time
                ++ (codes ", Errors: " ++ (print_nat info.error_count ++ codes "\n")))))

-- The loop, from the entry of this index on.
unfoldable pub print_entries : (ℕ → Bytes) → ℕ → List SyncInfo → List Bytes
print_entries stamp index [] = []
print_entries stamp index (info ∷ infos) =
    directory_line (print_nat (index + 1) ++ codes ". Source: ") info.source
    ∷ directory_line (codes "   Target: ") info.target
    ∷ state_line stamp info
    ∷ codes "\n"
    ∷ print_entries stamp (suc index) infos

unfoldable pub print_foot : ℕ → List Bytes
print_foot count =
    (if count == 0 then codes "No sync pairs configured.\n" ∷ [] else [])
    ++ (codes "=====================================\n" ∷ [])

unfoldable pub print_sync_info_store : (ℕ → Bytes) → SyncInfoStore → List Bytes
unfolding print_foot
print_sync_info_store stamp s =
    (codes "=== Sync Info Store (Count: " ++ (print_nat s.count ++ codes ") ===\n"))
    ∷ (print_entries stamp 0 s.entries ++ print_foot s.count)

length-print_foot : (n : ℕ) → length (print_foot n) ≡ (if n == 0 then 2 else 1)
unfolding print_foot
length-print_foot n = elim (Bool-cases (n == 0)) [ inl e ↦ rw e refl | inr e ↦ rw e refl ]

length-print_entries :
    (stamp : ℕ → Bytes) (index : ℕ) (infos : List SyncInfo)
    → length (print_entries stamp index infos) ≡ 4 * length infos
unfolding print_entries
length-print_entries stamp index [] = omega arith
length-print_entries stamp index (info ∷ infos) =
    omega (arith, length-print_entries stamp (suc index) infos)

-- Four texts for each pair of a store that is valid, between a head and a foot, and one that says that
-- there is none.
pub length-print_sync_info_store :
    (stamp : ℕ → Bytes) (s : SyncInfoStore)
    → IsValid s
    → length (print_sync_info_store stamp s) ≡ 4 * s.count + (if s.count == 0 then 3 else 2)
unfolding print_sync_info_store
length-print_sync_info_store stamp s v =
    let es = print_entries stamp 0 s.entries in
    ground (
      arith,
      v.counted,
      length-append es (print_foot s.count),
      length-print_entries stamp 0 s.entries,
      length-print_foot s.count,
    )
