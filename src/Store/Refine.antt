-- ===== src/Store/Refine.antt =====
-- The store as its clients see it: a map from sources to entries, under sequences of calls.
use mathlib.Core.Path.{fun_ext}
use nfs_system.Base.{
  ℕ, ◌+◌, ◌-◌, Bool, true, false, ◌↔◌, inl, inr, ap, sym, ◌∙◌, Option-cases, Bool-cases, int_eq,
  int_eq_iff, List, [], ◌∷◌, Option, none, some, if◌then◌else◌, ◌≡◌, refl, arith,
}
use nfs_system.Text.{str_eq, str_eq_iff}
use nfs_system.Spec.{DirectorySpec}
use nfs_system.Store.{
  Status, success, refused, SyncInfo, SyncInfoStore, same_directory, find_first, deactivate_first,
  find_sync_info, add_sync_info, remove_sync_info, deactivate_sync_info, get_sync_info_count,
}
use nfs_system.Store.Laws.{
  deactivated, find_first-remove_first, find_first-deactivate_first, same_directory_iff,
}
use nfs_system.Store.Valid.{
  IsValid, add_sync_info-IsValid, remove_sync_info-IsValid, deactivate_sync_info-IsValid,
}

pub data Op : Type 0 where
  adds : SyncInfo → Op
  finds removes deactivates : DirectorySpec → Op
  counts : Op

-- What a call returns.
pub data Reply : Type 0 where
  status : Status → Reply
  entry : Option SyncInfo → Reply
  number : ℕ → Reply

-- The store's calls in order, with what each returns.
pub step : SyncInfoStore → Op → Reply × SyncInfoStore
step s (adds info) = let (r, t) = add_sync_info s info in (status r, t)
step s (finds key) = (entry (find_sync_info s key), s)
step s (removes key) = let (r, t) = remove_sync_info s key in (status r, t)
step s (deactivates key) = let (r, t) = deactivate_sync_info s key in (status r, t)
step s counts = (number (get_sync_info_count s), s)

pub run : SyncInfoStore → List Op → List Reply
run s [] = []
run s (op ∷ ops) = (step s op).0 ∷ run (step s op).1 ops

-- The specification: a map, keyed by equal sources, and its size.
dec_of_test : {A : Type 0} {a b : A} (t : Bool) → (t ≡ true) ↔ (a ≡ b) → Dec (a ≡ b)
dec_of_test true h = yes (h.0 refl)
dec_of_test false h = no (λ e. let f = h.1 e in cc)

pub dec_directory : (a b : DirectorySpec) → Dec (a ≡ b)
dec_directory a b = elim (dec_of_test (str_eq a.host b.host) (str_eq_iff a.host b.host)) [
  | no n ↦ no (λ e. n (ap (λ d. d.host) e))
  | yes h ↦ elim (dec_of_test (int_eq a.port b.port) (int_eq_iff a.port b.port)) [
    | no n ↦ no (λ e. n (ap (λ d. d.port) e))
    | yes p ↦ elim (dec_of_test (str_eq a.dir b.dir) (str_eq_iff a.dir b.dir)) [
      | no n ↦ no (λ e. n (ap (λ d. d.dir) e))
      | yes d ↦ yes (λ i. record { host = h i; port = p i; dir = d i })
    ]
  ]
]

abbrev pub SyncMap : Type 0
SyncMap = DirectorySpec → Option SyncInfo

abbrev pub update : SyncMap → DirectorySpec → Option SyncInfo → SyncMap
update m key v other = elim (dec_directory key other) [ yes e ↦ v | no n ↦ m other ]

pub record Model : Type 0 where
  pub map : SyncMap
  pub size : ℕ

pub spec_step : Model → Op → Reply × Model
spec_step m (adds info) = elim (m.map info.source) [
  | some _ ↦ (status refused, m)
  | none ↦
      (status success, record { map = update m.map info.source (some info); size = m.size + 1 })
]
spec_step m (finds key) = (entry (m.map key), m)
spec_step m (removes key) = elim (m.map key) [
  | some _ ↦ (status success, record { map = update m.map key none; size = m.size - 1 })
  | none ↦ (status refused, m)
]
spec_step m (deactivates key) = elim (m.map key) [
  | some i ↦ (status success, record m { map = update m.map key (some (deactivated i)) })
  | none ↦ (status refused, m)
]
spec_step m counts = (number m.size, m)

pub spec_run : Model → List Op → List Reply
spec_run m [] = []
spec_run m (op ∷ ops) = (spec_step m op).0 ∷ spec_run (spec_step m op).1 ops

-- The store, as its clients see it.
abbrev pub view : SyncInfoStore → Model
view s = record { map = find_sync_info s; size = get_sync_info_count s }

-- The loops' test tells equal sources from others.
update_lem :
    (m : SyncMap) (key other : DirectorySpec) (v : Option SyncInfo)
    → update m key v other ≡ (if same_directory key other then v else m other)
update_lem m key other v = by_test (dec_directory key other)
  where
    by_test :
        (d : Dec (key ≡ other))
        → elim d [ yes e ↦ v | no n ↦ m other ] ≡ (if same_directory key other then v else m other)
    by_test (yes e) = rw ((same_directory_iff key other).1 e) refl
    by_test (no n) = elim (Bool-cases (same_directory key other)) [
      | inl t ↦ absurd (n ((same_directory_iff key other).0 t))
      | inr f ↦ rw f refl
    ]

step-IsValid : (s : SyncInfoStore) (op : Op) → IsValid s → IsValid (step s op).1
unfolding step
step-IsValid s (adds info) v = add_sync_info-IsValid s info v
step-IsValid s (finds key) v = v
step-IsValid s (removes key) v = remove_sync_info-IsValid s key v
step-IsValid s (deactivates key) v = deactivate_sync_info-IsValid s key v
step-IsValid s counts v = v

-- One call answers as the specification does.
step_reply : (s : SyncInfoStore) (op : Op) → (step s op).0 ≡ (spec_step (view s) op).0
unfolding step spec_step add_sync_info remove_sync_info deactivate_sync_info find_sync_info
step_reply s (adds info) = ground arith
step_reply s (finds key) = refl
step_reply s (removes key) = ground arith
step_reply s (deactivates key) = ground arith
step_reply s counts = refl

-- And it leaves the map and the size that the specification leaves.
step_map :
    (s : SyncInfoStore) (op : Op) (key : DirectorySpec)
    → IsValid s
    → find_sync_info (step s op).1 key ≡ (spec_step (view s) op).1.map key
unfolding step spec_step add_sync_info remove_sync_info deactivate_sync_info find_sync_info
step_map s (adds info) key v = elim (Option-cases (find_first info.source s.entries)) [
  | inr (i, e) ↦ rw (add_sync_info, spec_step, e) refl
  | inl e ↦
      let found : find_first key (info ∷ s.entries)
          ≡ (if same_directory info.source key then some info else find_first key s.entries) =
        unfold find_first in refl in
      rw (add_sync_info, spec_step, e)
        (found ∙ sym (update_lem (find_sync_info s) info.source key (some info)))
]
step_map s (finds k) key v = refl
step_map s (removes k) key v = elim (Option-cases (find_first k s.entries)) [
  | inl e ↦ rw (remove_sync_info, spec_step, e) refl
  | inr (i, e) ↦
      rw (remove_sync_info, spec_step, e)
        (find_first-remove_first k key s.entries v.unique
          ∙ sym (update_lem (find_sync_info s) k key none))
]
step_map s (deactivates k) key v = elim (Option-cases (find_first k s.entries)) [
  | inl e ↦ rw (deactivate_sync_info, spec_step, e) refl
  | inr (i, e) ↦
      let found : find_first key (deactivate_first k s.entries)
          ≡ (if same_directory k key then some (deactivated i) else find_first key s.entries) =
        ground (arith, find_first-deactivate_first k key s.entries, same_directory_iff k key) in
      rw (deactivate_sync_info, spec_step, e)
        (found ∙ sym (update_lem (find_sync_info s) k key (some (deactivated i))))
]
step_map s counts key v = refl

step_size :
    (s : SyncInfoStore) (op : Op)
    → get_sync_info_count (step s op).1 ≡ (spec_step (view s) op).1.size
unfolding step spec_step add_sync_info remove_sync_info deactivate_sync_info find_sync_info
    get_sync_info_count
step_size s (adds info) = ground arith
step_size s (finds key) = refl
step_size s (removes key) = ground arith
step_size s (deactivates key) = ground arith
step_size s counts = refl

view-step :
    (s : SyncInfoStore) (op : Op) → IsValid s → view (step s op).1 ≡ (spec_step (view s) op).1
view-step s op v =
    λ i. record { map = fun_ext (λ key. step_map s op key v) i; size = step_size s op i }

-- Any sequence of calls on a valid store, `get_sync_info_count` among them, returns what the same
-- calls return on a map from sources to entries, whose keys are compared for equality, with its
-- size.
pub run_refines :
    (s : SyncInfoStore) (ops : List Op) → IsValid s → run s ops ≡ spec_run (view s) ops
unfolding run spec_run
run_refines s [] v = refl
run_refines s (op ∷ ops) v =
    rw (run_refines (step s op).1 ops (step-IsValid s op v), view-step s op v, step_reply s op) refl
