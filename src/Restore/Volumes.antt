-- ===== src/Restore/Volumes.antt =====
-- Which volume Job restores which claim.
use pbs_k8s_operator.Base.{
  String, true, false, List, [], ◌∷◌, ◌++◌, map, ◌≡◌, refl, sym, All, contains, if◌then◌else◌, ◌≢◌,
  ap, ◌∙◌, ◌⊎◌, inl, inr,
}
use pbs_k8s_operator.Base.Text.{is_empty}
use pbs_k8s_operator.RestorePlan.Parse.{ParsedDoc}
use pbs_k8s_operator.RestorePlan.Nodes.{node_for_pvc}
use pbs_k8s_operator.RestorePlan.Nodes.Laws.{Decides, LeavesOpen, node_for_pvc-Decides}
use pbs_k8s_operator.Repo.Creds.{Resolved, usable, problem}
use pbs_k8s_operator.Backup.Groups.{Groups}
use pbs_k8s_operator.Backup.GroupLaws.{Placed, IsPartition, Grouped, IsPartition-of_Grouped}

is_empty_of_ne : (s : String) → s ≢ "" → is_empty s ≡ false
is_empty_of_ne String.[] h = absurd (h refl)
is_empty_of_ne (String.◌∷◌ c s) h = refl

eq_of_empty : (s : String) → is_empty s ≡ true → s ≡ ""
eq_of_empty String.[] h = refl
eq_of_empty (String.◌∷◌ c s) h = absurd (cc h)

module _ (docs : List ParsedDoc) (fallback : String) where
  -- The node of a claim: that of the workload that uses it, else the first of the cluster.
  abbrev pub node_for : String → String
  node_for pvc = if is_empty (node_for_pvc docs pvc) then fallback else node_for_pvc docs pvc

  abbrev pub placed : String → Placed
  placed pvc = record { node = node_for pvc; claim = pvc }

  -- The node of a claim: that of the first pinned workload that matches it, and the fallback where
  -- there is none.
  abbrev pub IsNodeOf : String → String → Type 0
  IsNodeOf pvc node = Decides pvc docs node ⊎ (All (LeavesOpen pvc) docs × (node ≡ fallback))

  abbrev pub IsPlaced : Placed → Type 0
  IsPlaced p = IsNodeOf p.claim p.node × (is_empty p.node ≡ false)

  abbrev pub claim_of : Placed → String
  claim_of p = p.claim

  -- The groups are a partition of the claims by their nodes; or there is a claim that no pinned
  -- workload matches, and the fallback is empty.
  abbrev pub Places : List String → Resolved Groups → Type 0
  Places pvcs (usable groups) =
      (ps : List Placed) × (map claim_of ps ≡ pvcs) × All IsPlaced ps × IsPartition ps groups
  Places pvcs (problem p) =
      (pvc : String) × (contains pvcs pvc ≡ true)
      × All (LeavesOpen pvc) docs
      × (is_empty fallback ≡ true)

  abbrev Adds : List Placed → List String → Resolved Groups → Type 0
  Adds before pvcs (usable groups) =
      Grouped (before ++ map placed pvcs) groups
      × All (λ (pvc : String). is_empty (node_for pvc) ≡ false) pvcs
  Adds before pvcs (problem p) =
      (pvc : String) × (contains pvcs pvc ≡ true) × (is_empty (node_for pvc) ≡ true)

  node_for-IsNodeOf :
      (pvc : String)
      → Decides pvc docs (node_for pvc) ⊎ (All (LeavesOpen pvc) docs × (node_for pvc ≡ fallback))
  node_for-IsNodeOf pvc = elim (node_for_pvc-Decides docs pvc) [
    | inl d ↦ inl (rw (is_empty_of_ne (node_for_pvc docs pvc) d.some_node) d)
    | inr (e, o) ↦ inr (o, rw e refl)
  ]

  All-placed :
      (pvcs : List String)
      → All (λ (pvc : String). is_empty (node_for pvc) ≡ false) pvcs
      → All IsPlaced (map placed pvcs)
  All-placed [] h = tt
  All-placed (pvc ∷ pvcs) (h, hs) = ((node_for-IsNodeOf pvc, h), All-placed pvcs hs)

  claims-placed : (pvcs : List String) → map claim_of (map placed pvcs) ≡ pvcs
  claims-placed [] = refl
  claims-placed (pvc ∷ pvcs) = ap (λ (l : List String). pvc ∷ l) (claims-placed pvcs)

  nowhere :
      (pvc : String)
      → is_empty (node_for pvc) ≡ true
      → All (LeavesOpen pvc) docs × (is_empty fallback ≡ true)
  nowhere pvc h = elim (node_for-IsNodeOf pvc) [
    | inl d ↦ absurd (d.some_node (eq_of_empty (node_for pvc) h))
    | inr (o, e) ↦ (o, ap is_empty (sym e) ∙ h)
  ]

  finished : (pvcs : List String) (r : Resolved Groups) → Adds [] pvcs r → Places pvcs r
  finished pvcs (usable groups) (g, h) =
      (map placed pvcs, claims-placed pvcs, All-placed pvcs h, IsPartition-of_Grouped _ groups g)
  finished pvcs (problem p) (pvc, m, h) = let (o, e) = nowhere pvc h in (pvc, m, o, e)
