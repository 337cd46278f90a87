-- ===== src/Manager/Life/Main/Released.antt =====
-- What a manager that has ended has given back.
use nfs_system.Base.{
  ℕ, List, [], ◌∷◌, ◌++◌, Option, none, some, Bool, true, false, ℤ, arith, ◌≡◌, refl, sym, subst,
  ap, ◌∙◌,
}
use nfs_system.Text.{Bytes}
use nfs_system.Process.{Process, pure, ◌>>=◌, ◌>>◌, fopen, Resource, resource, socket, file, memory}
use nfs_system.Process.Laws.{
  Holds, Keeps, owning, count, count-append, count-middle, pure-Keeps, >>-Keeps, >>=-Keeps,
  acquire-then, opened-then, if-Keeps, release-Keeps, same-Keeps,
}
use nfs_system.Net.Sockets.{create_server_socket-Keeps}
use nfs_system.Pool.Life.{PoolParts, pool_resources}
use nfs_system.Pool.Life.Laws.{create_thread_pool-Keeps}
use nfs_system.Store.Life.{
  StoreParts, store_resources, create_sync_info_store-Keeps, destroy_sync_info_store-Keeps,
}
use nfs_system.Manager.Life.{
  ManagerParts, Descriptor, closed, standard_input, opened, parsed, manager_resources,
  handle_resources, descriptor_resources, cleanup_manager, initialize_manager,
}
use nfs_system.Manager.Life.Serve.{Act, load_config_file}
use nfs_system.Manager.Life.Laws.{live, cleanup_manager-Keeps, run_acts-Keeps}
use nfs_system.Manager.Life.Main.{
  Workload, with_parts, load_and_serve, start_serving, finish_main, run_main,
}

-- A resource may stand before or behind those of the store and the pool.
count-live :
    (r y : Resource) (x : StoreParts × PoolParts) (rs : List Resource)
    → count r (y ∷ live rs x) ≡ count r (live (y ∷ rs) x)
count-live r y x rs =
    let ts = pool_resources x.1 in
    let ss = store_resources x.0 in
    omega (
      arith,
      count-middle r y ts (ss ++ rs),
      count-append r ts (y ∷ (ss ++ rs)),
      count-append r ts (ss ++ (y ∷ rs)),
      count-middle r y ss rs,
    )

-- Whether these fields of a manager whose `initialize_manager` failed refer only to what is held: the
-- descriptor is not the 0 of a log that was not opened, nor the store the one of a failed pool.
unfoldable pub fits : Descriptor → Option StoreParts → Option PoolParts → Bool
fits closed none none = true
fits (opened fd) none none = true
fits _ _ _ = false

unfoldable pub is_settled : Bool × ManagerParts → Bool
is_settled (true, m) = true
is_settled (false, m) = fits m.server_sockfd m.sync_store m.thread_pool

abbrev pub settled_descriptor : Descriptor → Descriptor
settled_descriptor standard_input = closed
settled_descriptor closed = closed
settled_descriptor (opened fd) = opened fd

-- The fields without what a failed `initialize_manager` does not hold.
unfoldable pub settled : ManagerParts → ManagerParts
settled m = record m {
  server_sockfd = settled_descriptor m.server_sockfd;
  sync_store = none;
  thread_pool = none;
}

fits_lem :
    (d : Descriptor) (store : Option StoreParts) (pool : Option PoolParts)
    → fits d store pool ≡ true
    → (settled_descriptor d ≡ d) × ((none ≡ store) × (none ≡ pool))
unfolding fits
fits_lem closed none none e = (refl, (refl, refl))
fits_lem (opened fd) none none e = (refl, (refl, refl))
fits_lem standard_input store pool e = absurd (cc)
fits_lem closed none (some t) e = absurd (cc)
fits_lem closed (some s) pool e = absurd (cc)
fits_lem (opened fd) none (some t) e = absurd (cc)
fits_lem (opened fd) (some s) pool e = absurd (cc)

settled_lem : (m : ManagerParts) → is_settled (false, m) ≡ true → settled m ≡ m
unfolding is_settled settled
settled_lem m e =
    let (ed, (es, et)) = fits_lem m.server_sockfd m.sync_store m.thread_pool e in
    ap (λ d. record m { server_sockfd = d; sync_store = none; thread_pool = none }) ed
    ∙ ap (λ store. record m { sync_store = store; thread_pool = none }) es
    ∙ ap (λ pool. record m { thread_pool = pool }) et

-- What is held behind `initialize_manager`.
abbrev pub initialized : List Resource → Bool × ManagerParts → List Resource
initialized rs (true, m) = manager_resources m rs
initialized rs (false, m) = manager_resources (settled m) rs

abbrev pub path_resources : ℕ → ℕ → List Resource → List Resource
path_resources log config rs = resource memory log ∷ resource memory config ∷ rs

pub initialize_manager-Keeps :
    (path : Bytes) (port : ℤ) (workers log config : ℕ) (rs : List Resource)
    → Keeps
        (path_resources log config rs)
        (initialize_manager path port workers (parsed log config))
        (initialized rs)
unfolding initialize_manager parsed settled manager_resources handle_resources descriptor_resources
initialize_manager-Keeps path port workers log config rs =
    let ps = path_resources log config rs in
    acquire-then (fopen path) file (pure-Keeps (false, parsed log config) (initialized rs)) (λ f.
      let fs = resource file f ∷ ps in
      opened-then (λ n. resource socket n ∷ []) (create_server_socket-Keeps port fs)
        (pure-Keeps (false, record (parsed log config) { logfile = some f; server_sockfd = closed })
          (initialized rs))
        (λ fd.
          let hs = resource file f ∷ resource socket fd ∷ ps in
          same-Keeps _ hs (λ r. omega arith)
            (opened-then store_resources (create_sync_info_store-Keeps hs)
              (pure-Keeps
                (false, record (parsed log config) { logfile = some f; server_sockfd = opened fd })
                (initialized rs))
              (λ s.
                let ready : ManagerParts = record (parsed log config) {
                  logfile = some f;
                  server_sockfd = opened fd;
                  sync_store = some s;
                } in
                opened-then pool_resources
                  (create_thread_pool-Keeps workers (store_resources s ++ hs))
                  (>>-Keeps hs (destroy_sync_info_store-Keeps (some s) hs)
                    (pure-Keeps (false, ready) (initialized rs)))
                  (λ t.
                    pure-Keeps (true, record ready { thread_pool = some t }) (initialized rs))))))

pub cleanup_and_return-Keeps :
    (m : ManagerParts) (rs : List Resource) (b : Bool)
    → Keeps (manager_resources m rs) (cleanup_manager m >> pure b) (λ _. rs)
cleanup_and_return-Keeps m rs b = >>-Keeps rs (cleanup_manager-Keeps m rs) (pure-Keeps b (λ _. rs))

load_config_file-Keeps :
    (path : Bytes) (acts : List Act) (x : StoreParts × PoolParts) (rs : List Resource)
    → Keeps (live rs x) (load_config_file path acts x) (λ y. live rs y.1)
unfolding load_config_file
load_config_file-Keeps path acts x rs =
    acquire-then (fopen path) file (pure-Keeps (false, x) (λ y. live rs y.1)) (λ f.
      let fs = resource file f ∷ rs in
      same-Keeps _ (live fs x) (λ r. count-live r (resource file f) x rs)
        (>>=-Keeps (live fs) (run_acts-Keeps acts x fs) (λ y.
          same-Keeps _ (resource file f ∷ live rs y)
            (λ r. sym (count-live r (resource file f) y rs))
            (>>-Keeps (live rs y) (release-Keeps (resource file f) (live rs y))
              (pure-Keeps (true, y) (λ y. live rs y.1))))))

load_and_serve-Keeps :
    (w : Workload) (m : ManagerParts) (x : StoreParts × PoolParts) (rs : List Resource)
    → Keeps (live (handle_resources m rs) x) (load_and_serve w m x) (λ _. rs)
unfolding load_and_serve with_parts manager_resources handle_resources
load_and_serve-Keeps w m x rs =
    let hs = handle_resources m rs in
    >>=-Keeps (λ y. live hs y.1) (load_config_file-Keeps w.config_path w.lines x hs)
      (λ y.
        if-Keeps y.0
          (>>=-Keeps (live hs) (run_acts-Keeps w.served y.1 hs)
            (λ z. cleanup_and_return-Keeps (with_parts m z) rs true))
          (cleanup_and_return-Keeps (with_parts m y.1) rs false))

start_serving-Keeps :
    (w : Workload) (m : ManagerParts) (store : Option StoreParts) (pool : Option PoolParts)
    (rs : List Resource)
    → m.sync_store ≡ store
    → m.thread_pool ≡ pool
    → Keeps (manager_resources m rs) (start_serving w m store pool) (λ _. rs)
unfolding start_serving manager_resources
start_serving-Keeps w m (some s) (some t) rs es et =
    let hs = handle_resources m rs in
    subst
      (λ o.
        Keeps (owning pool_resources (owning store_resources hs m.sync_store) o)
          (load_and_serve w m (s, t)) (λ _. rs))
      (sym et)
      (subst
        (λ o.
          Keeps (pool_resources t ++ owning store_resources hs o) (load_and_serve w m (s, t))
            (λ _. rs))
        (sym es) (load_and_serve-Keeps w m (s, t) rs))
start_serving-Keeps w m (some s) none rs es et = cleanup_and_return-Keeps m rs false
start_serving-Keeps w m none (some t) rs es et = cleanup_and_return-Keeps m rs false
start_serving-Keeps w m none none rs es et = cleanup_and_return-Keeps m rs false

finish_main-Keeps :
    (w : Workload) (x : Bool × ManagerParts) (rs : List Resource)
    → is_settled x ≡ true
    → Keeps (initialized rs x) (finish_main w x) (λ _. rs)
unfolding finish_main
finish_main-Keeps w (true, m) rs e = start_serving-Keeps w m m.sync_store m.thread_pool rs refl refl
finish_main-Keeps w (false, m) rs e =
    subst (λ ready. Keeps (manager_resources ready rs) (cleanup_manager m >> pure false) (λ _. rs))
      (sym (settled_lem m e)) (cleanup_and_return-Keeps m rs false)

-- Where `initialize_manager` succeeds, or fails with the log open and before it has a store, `main`
-- behind `parse_arguments` ends, whatever the calls of the system return and whatever is loaded and
-- served, with everything given back that it has opened, allocated, initialized and started, each once.
pub run_main-Released :
    (path : Bytes) (port : ℤ) (workers log config : ℕ) (w : Workload) (rs : List Resource)
    (p : Process)
    → Holds (path_resources log config rs) p
    → is_settled (initialize_manager path port workers (parsed log config) p).0 ≡ true
    → Holds rs (run_main path port workers w (parsed log config) p).1
unfolding run_main ◌>>=◌
run_main-Released path port workers log config w rs p h e =
    let x = initialize_manager path port workers (parsed log config) p in
    (finish_main-Keeps w x.0 rs e).runs x.1
      ((initialize_manager-Keeps path port workers log config rs).runs p h)
