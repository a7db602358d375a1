-- ===== src/Backup/Groups.antt =====
-- internal/controller/pbsbackup_controller.go: the claims of a backup by node. A Go map from nodes to
-- names is a list of entries with different nodes.
use pbs_k8s_operator.Base.{String, List, [], ◌∷◌, ◌++◌, map, if◌then◌else◌, ◌==◌}
use pbs_k8s_operator.Base.Text.{sort_strings}

abbrev pub Groups : Type 0
Groups = List (String × List String)

-- `groups[node] = append(groups[node], pvc)`.
unfoldable pub add_to_group : String → String → Groups → Groups
add_to_group node pvc [] = (node, pvc ∷ []) ∷ []
add_to_group node pvc ((n, pvcs) ∷ groups) =
    if n == node then (n, pvcs ++ pvc ∷ []) ∷ groups else (n, pvcs) ∷ add_to_group node pvc groups

-- `groups[node]`.
unfoldable pub group_of : String → Groups → List String
group_of node [] = []
group_of node ((n, pvcs) ∷ groups) = if n == node then pvcs else group_of node groups

abbrev pub node_of : String × List String → String
node_of (node, pvcs) = node

-- The nodes, sorted.
unfoldable pub nodes_of : Groups → List String
nodes_of groups = sort_strings (map node_of groups)
