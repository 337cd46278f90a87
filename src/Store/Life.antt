-- ===== src/Store/Life.antt =====
-- sync_info.c: `create_sync_info_store` and `destroy_sync_info_store`, by the memory and the mutex
-- that they take and give back.
use nfs_system.Base.{ℕ, List, [], ◌∷◌, ◌++◌, Option, none, some, subst, sym, append_assoc, ◌≡◌}
use nfs_system.Process.{
  Sys, pure, ◌>>=◌, ◌>>◌, acquire, acquire_call, release, Resource, resource, resources, memory,
  mutex,
}
use nfs_system.Process.Laws.{
  Keeps, count, count-middle, owning, pure-Keeps, >>-Keeps, acquire-then, release-Keeps,
}

-- `sync_info_store_t`, by the names of what it refers to: `infos` holds its entries from the head on.
pub record StoreParts : Type 0 where
  pub block : ℕ
  pub store_mutex : ℕ
  pub infos : List ℕ

unfoldable pub store_resources : StoreParts → List Resource
store_resources s =
    resources memory s.infos ++ (resource mutex s.store_mutex ∷ resource memory s.block ∷ [])

unfoldable pub create_sync_info_store : Sys (Option StoreParts)
create_sync_info_store = do
  store ← acquire memory
  elim store [
    | none ↦ pure none
    | some block ↦ do
      lock ← acquire mutex
      elim lock [
        | none ↦ release (resource memory block) >> pure none
        | some m ↦ pure (some (record { block = block; store_mutex = m; infos = [] }))
      ]
  ]

unfoldable pub free_sync_info : Option ℕ → Sys Unit
free_sync_info none = pure tt
free_sync_info (some info) = release (resource memory info)

-- The loop over the entries.
unfoldable pub free_infos : List ℕ → Sys Unit
free_infos [] = pure tt
free_infos (info ∷ infos) = free_sync_info (some info) >> free_infos infos

unfoldable pub destroy_sync_info_store : Option StoreParts → Sys Unit
destroy_sync_info_store none = pure tt
destroy_sync_info_store (some s) = do
  free_infos s.infos
  release (resource mutex s.store_mutex)
  release (resource memory s.block)

pub create_sync_info_store-Keeps :
    (rs : List Resource) → Keeps rs create_sync_info_store (owning store_resources rs)
unfolding create_sync_info_store store_resources resources
create_sync_info_store-Keeps rs =
    acquire-then (acquire_call memory) memory (pure-Keeps none (owning store_resources rs))
      (λ block.
        acquire-then (acquire_call mutex) mutex
          (>>-Keeps rs (release-Keeps (resource memory block) rs)
            (pure-Keeps none (owning store_resources rs)))
          (λ m.
            pure-Keeps (some (record { block = block; store_mutex = m; infos = [] }))
              (owning store_resources rs)))

free_infos-Keeps :
    (infos : List ℕ) (rs : List Resource)
    → Keeps (resources memory infos ++ rs) (free_infos infos) (λ _. rs)
unfolding free_infos free_sync_info resources
free_infos-Keeps [] rs = pure-Keeps tt (λ _. rs)
free_infos-Keeps (info ∷ infos) rs =
    >>-Keeps (resources memory infos ++ rs)
      (release-Keeps (resource memory info) (resources memory infos ++ rs))
      (free_infos-Keeps infos rs)

pub destroy_sync_info_store-Keeps :
    (store : Option StoreParts) (rs : List Resource)
    → Keeps (owning store_resources rs store) (destroy_sync_info_store store) (λ _. rs)
unfolding destroy_sync_info_store store_resources
destroy_sync_info_store-Keeps none rs = pure-Keeps tt (λ _. rs)
destroy_sync_info_store-Keeps (some s) rs =
    let fixed = resource mutex s.store_mutex ∷ resource memory s.block ∷ [] in
    subst (λ held. Keeps held (destroy_sync_info_store (some s)) (λ _. rs))
      (sym (append_assoc (resources memory s.infos) fixed rs))
      (>>-Keeps (fixed ++ rs) (free_infos-Keeps s.infos (fixed ++ rs)) (
        >>-Keeps (resource memory s.block ∷ rs)
          (release-Keeps (resource mutex s.store_mutex) (resource memory s.block ∷ rs))
          (release-Keeps (resource memory s.block) rs)))

-- One more entry.
pub count-added :
    (r : Resource) (i : ℕ) (s : StoreParts) (ts rs : List Resource)
    → count r (resource memory i ∷ (ts ++ (store_resources s ++ rs)))
      ≡ count r (ts ++ (store_resources (record s { infos = i ∷ s.infos }) ++ rs))
unfolding store_resources resources
count-added r i s ts rs = count-middle r (resource memory i) ts (store_resources s ++ rs)
