-- ===== src/Tests/Stores.antt =====
-- The store of the directory pairs.
use nfs_system.Base.{List, [], ◌∷◌, pos, ◌≡◌}
use nfs_system.Text.{codes}
use nfs_system.Spec.{DirectorySpec}
use nfs_system.Store.{create_sync_info, create_sync_info_store}
use nfs_system.Store.Valid.{create_sync_info_store-IsValid}
use nfs_system.Store.Refine.{
  Op, adds, finds, removes, deactivates, run, spec_run, run_refines, view, counts,
}

abbrev source : DirectorySpec
source = record { host = codes "h"; port = pos 80; dir = codes "/a" }

abbrev target : DirectorySpec
target = record { host = codes "h"; port = pos 81; dir = codes "/b" }

abbrev calls : List Op
calls =
    adds (create_sync_info source target 5)
    ∷ adds (create_sync_info source target 6)
    ∷ counts
    ∷ deactivates source
    ∷ finds source
    ∷ removes source
    ∷ counts
    ∷ finds source
    ∷ []

run_refines_example :
    run create_sync_info_store calls ≡ spec_run (view create_sync_info_store) calls
run_refines_example = run_refines create_sync_info_store calls create_sync_info_store-IsValid
