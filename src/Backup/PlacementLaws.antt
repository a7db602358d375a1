-- ===== src/Backup/PlacementLaws.antt =====
-- Which Job of a backup stores which claim.
use mathlib.Core.Path.{subst}
use pbs_k8s_operator.Base.{
  String, List, [], ◌∷◌, ◌++◌, ◌≡◌, refl, sym, false, some, Bool-cases, inl, inr, append_assoc,
  append-nil,
}
use pbs_k8s_operator.Kube.{Pod, PersistentVolume, PersistentVolumeClaim}
use pbs_k8s_operator.Base.Text.{is_empty}
use pbs_k8s_operator.Placement
use pbs_k8s_operator.Placement.{on_node, unplaceable, resolve_node}
use pbs_k8s_operator.Placement.Laws.{Resolution, resolve_node-Resolution}
use pbs_k8s_operator.Reconcile.{M, Got, got, not_found, get_failed, pure, on_got}
use pbs_k8s_operator.Backup.Results.{Call}
use pbs_k8s_operator.Repo.Creds.{Resolved, usable, problem}
use pbs_k8s_operator.Reconcile.Returns.{
  From, Returns, Returns-pure, Returns-raise, Returns-asked, Returns-chain, Returns-map,
}
use pbs_k8s_operator.Backup.Cluster.{Cluster, placed_on, place_pvc}
use pbs_k8s_operator.Backup.Groups.{Groups, add_to_group}
use pbs_k8s_operator.Backup.GroupLaws.{
  Placed, IsPartition, Grouped, Grouped-none, add_to_group-Grouped, IsPartition-of_Grouped,
}
use pbs_k8s_operator.Backup.Reconciler.{place_all}

module _ {W : Type 0} (cluster : Cluster W) (pods : List Pod) where
  -- A claim that is bound, on the node that its volume, as the API server answers it, and the pods
  -- give it.
  pub record IsPlaced (pvc : PersistentVolumeClaim) (p : Placed) : Type 0 where
    pub claim : p.claim ≡ pvc.meta.name
    pub bound : is_empty pvc.volume_name ≡ false
    pub volume : PersistentVolume
    pub read : From (cluster.get_pv pvc.volume_name) (got volume)
    pub node : Resolution pvc (some volume) pods (on_node p.node)

  pub data ArePlaced : List PersistentVolumeClaim → List Placed → Type 0 where
    no_more : ArePlaced [] []
    more :
        (pvc : PersistentVolumeClaim) (p : Placed) (pvcs : List PersistentVolumeClaim)
        (placed : List Placed)
        → IsPlaced pvc p
        → ArePlaced pvcs placed
        → ArePlaced (pvc ∷ pvcs) (p ∷ placed)

  -- The groups are a partition of the claims by their nodes.
  abbrev pub Partitions : List PersistentVolumeClaim → Resolved Groups → Type 0
  Partitions pvcs (usable groups) =
      (placed : List Placed) × ArePlaced pvcs placed × IsPartition placed groups
  Partitions pvcs (problem p) = Unit

  abbrev Adds : List Placed → List PersistentVolumeClaim → Resolved Groups → Type 0
  Adds before pvcs (usable groups) =
      (placed : List Placed) × ArePlaced pvcs placed × Grouped (before ++ placed) groups
  Adds before pvcs (problem p) = Unit

  Adds-cons :
      (before : List Placed) (p : Placed) (pvc : PersistentVolumeClaim)
      (pvcs : List PersistentVolumeClaim) (r : Resolved Groups)
      → IsPlaced pvc p
      → Adds (before ++ p ∷ []) pvcs r
      → Adds before (pvc ∷ pvcs) r
  Adds-cons before p pvc pvcs (usable groups) e (placed, same, g) = (
    p ∷ placed,
    more pvc p pvcs placed e same,
    subst (λ (l : List Placed). Grouped l groups) (append_assoc before (p ∷ []) placed) g,
  )
  Adds-cons before p pvc pvcs (problem q) e h = tt

  abbrev Found : PersistentVolumeClaim → Resolved String → Type 0
  Found pvc (usable node) = IsPlaced pvc (record { node = node; claim = pvc.meta.name })
  Found pvc (problem p) = Unit

  placed_on-Found :
      (pvc : PersistentVolumeClaim) (pv : PersistentVolume) (r : Placement.Placed)
      → is_empty pvc.volume_name ≡ false
      → From (cluster.get_pv pvc.volume_name) (got pv)
      → Resolution pvc (some pv) pods r
      → Found pvc (placed_on cluster r)
  placed_on-Found pvc pv (on_node node) b from res = record {
    claim = refl;
    bound = b;
    volume = pv;
    read = from;
    node = res;
  }
  placed_on-Found pvc pv (unplaceable e) b from res = tt

  on_volume-Found :
      (pvc : PersistentVolumeClaim) (r : Got PersistentVolume) (m : M W Call (Resolved String))
      → is_empty pvc.volume_name ≡ false
      → From (cluster.get_pv pvc.volume_name) r
      → Returns (Found pvc) m
      → Returns
          (Found pvc)
          (on_got r m λ pv. pure (placed_on cluster (resolve_node pvc (some pv) pods)))
  unfolding on_got
  on_volume-Found pvc (got pv) m b from h = Returns-pure _ (
      placed_on-Found pvc pv (resolve_node pvc (some pv) pods) b from
        (resolve_node-Resolution pvc (some pv) pods))
  on_volume-Found pvc not_found m b from h = h
  on_volume-Found pvc (get_failed e) m b from h = Returns-raise e

  place_pvc-Found : (pvc : PersistentVolumeClaim) → Returns (Found pvc) (place_pvc cluster pods pvc)
  unfolding place_pvc
  place_pvc-Found pvc = elim (Bool-cases (is_empty pvc.volume_name)) [
    | inl e ↦ rw e (Returns-pure _ tt)
    | inr e ↦ rw e (
        Returns-asked (cluster.get_pv pvc.volume_name) _
          λ r from. on_volume-Found pvc r _ e from (Returns-pure _ tt))
  ]

  place_all-Adds :
      (before : List Placed) (pvcs : List PersistentVolumeClaim) (groups : Groups)
      → Grouped before groups
      → Returns (Adds before pvcs) (place_all cluster pods pvcs groups)
  unfolding place_all
  place_all-Adds before [] groups g =
      Returns-pure _
        ([], no_more, subst (λ (l : List Placed). Grouped l groups) (sym (append-nil before)) g)
  place_all-Adds before (pvc ∷ pvcs) groups g = Returns-chain _ _ (place_pvc-Found pvc) (elim [
    | problem q ↦ λ u. Returns-pure _ tt
    | usable node ↦ λ h.
        let p : Placed = record { node = node; claim = pvc.meta.name } in
        Returns-map _ (λ r rest. Adds-cons before p pvc pvcs r h rest)
          (place_all-Adds (before ++ p ∷ []) pvcs (add_to_group node pvc.meta.name groups)
            (add_to_group-Grouped node pvc.meta.name before groups g))
  ])

  finished :
      (pvcs : List PersistentVolumeClaim) (r : Resolved Groups) → Adds [] pvcs r → Partitions pvcs r
  finished pvcs (usable groups) (placed, same, g) =
      (placed, same, IsPartition-of_Grouped placed groups g)
  finished pvcs (problem p) h = tt

  -- Whatever the API server answers, where all claims of a backup are placed, each is bound and
  -- belongs to the node that its volume, as the API server answers it, pins it to, or else to that of
  -- the first scheduled pod that mounts it; each node that has a claim is named once, and its group
  -- has just the claims of the node.
  pub place_all-Partitions :
      (pvcs : List PersistentVolumeClaim)
      → Returns (Partitions pvcs) (place_all cluster pods pvcs [])
  place_all-Partitions pvcs = Returns-map _ (finished pvcs) (place_all-Adds [] pvcs [] Grouped-none)
