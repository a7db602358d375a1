-- ===== src/Backup/GroupLaws.antt =====
-- The claims by node are a partition.
use pbs_k8s_operator.Base.{
  String, Bool, ◌||◌, List, [], ◌∷◌, ◌++◌, map, ◌≡◌, ◌≢◌, refl, sym, ap, ◌∙◌, arith, All, select,
  contains, Distinct, if◌then◌else◌, ◌==◌, eq_iff, Bool-cases, inl, inr, map-append,
}
use pbs_k8s_operator.Base.Text.Sorts.{sort_strings-Distinct, contains-sort_strings}
use pbs_k8s_operator.Backup.Groups.{Groups, add_to_group, group_of, node_of, nodes_of}

-- A claim with its node.
pub record Placed : Type 0 where
  pub node : String
  pub claim : String

abbrev pub claims_on : String → List Placed → List String
claims_on n placed = map (λ (p : Placed). p.claim) (select (λ (p : Placed). p.node == n) placed)

abbrev pub nodes_among : List Placed → List String
nodes_among placed = map (λ (p : Placed). p.node) placed

-- Each node's group has just the claims on the node, in their order; the nodes are those of the
-- claims, each once.
pub record IsPartition (placed : List Placed) (groups : Groups) : Type 0 where
  pub group : (n : String) → group_of n groups ≡ claims_on n placed
  pub nodes : (n : String) → contains (nodes_of groups) n ≡ contains (nodes_among placed) n
  pub once : Distinct (nodes_of groups)

group_of-add_to_group :
    (n node pvc : String) (groups : Groups)
    → group_of n (add_to_group node pvc groups)
      ≡ (if node == n then group_of n groups ++ pvc ∷ [] else group_of n groups)
unfolding group_of add_to_group
group_of-add_to_group n node pvc [] = refl
group_of-add_to_group n node pvc ((m, pvcs) ∷ groups) =
    ground
      (arith, eq_iff m node, eq_iff m n, eq_iff node n, group_of-add_to_group n node pvc groups)

contains-add_to_group :
    (n node pvc : String) (groups : Groups)
    → contains (map node_of (add_to_group node pvc groups)) n
      ≡ (contains (map node_of groups) n || node == n)
unfolding contains add_to_group
contains-add_to_group n node pvc [] = ground arith
contains-add_to_group n node pvc ((m, pvcs) ∷ groups) =
    ground
      (arith, eq_iff m node, eq_iff m n, eq_iff node n, contains-add_to_group n node pvc groups)

All-ne-add_to_group :
    (m node pvc : String) (groups : Groups)
    → m ≢ node
    → All (λ k. m ≢ k) (map node_of groups)
    → All (λ k. m ≢ k) (map node_of (add_to_group node pvc groups))
unfolding add_to_group
All-ne-add_to_group m node pvc [] ne h = (ne, tt)
All-ne-add_to_group m node pvc ((k, pvcs) ∷ groups) ne (hk, h) = elim (Bool-cases (k == node)) [
  | inl e ↦ rw e (hk, h)
  | inr e ↦ rw e (hk, All-ne-add_to_group m node pvc groups ne h)
]

add_to_group-Distinct :
    (node pvc : String) (groups : Groups)
    → Distinct (map node_of groups)
    → Distinct (map node_of (add_to_group node pvc groups))
unfolding add_to_group
add_to_group-Distinct node pvc [] d = (tt, tt)
add_to_group-Distinct node pvc ((k, pvcs) ∷ groups) (f, d) = elim (Bool-cases (k == node)) [
  | inl e ↦ rw e (f, d)
  | inr e ↦ rw e (
    All-ne-add_to_group k node pvc groups (λ same. cc (e, (eq_iff k node).1 same)) f,
    add_to_group-Distinct node pvc groups d,
  )
]

contains-concat :
    (xs : List String) (x n : String) → contains (xs ++ x ∷ []) n ≡ (contains xs n || x == n)
unfolding contains
contains-concat [] x n = ground arith
contains-concat (y ∷ xs) x n = ground (arith, contains-concat xs x n)

claims_on-concat :
    (n : String) (placed : List Placed) (p : Placed)
    → claims_on n (placed ++ p ∷ [])
      ≡ (if p.node == n then claims_on n placed ++ p.claim ∷ [] else claims_on n placed)
claims_on-concat n [] p = elim (Bool-cases (p.node == n)) [ inl e ↦ rw e refl | inr e ↦ rw e refl ]
claims_on-concat n (q ∷ placed) p =
    let ih = claims_on-concat n placed p in
    elim (Bool-cases (q.node == n)) [
      | inl e ↦ elim (Bool-cases (p.node == n)) [
        | inl k ↦ rw (e, k) (ap (λ (l : List String). q.claim ∷ l) (rw k at ih))
        | inr k ↦ rw (e, k) (ap (λ (l : List String). q.claim ∷ l) (rw k at ih))
      ]
      | inr e ↦ rw e ih
    ]

-- The groups while the claims are placed.
pub record Grouped (placed : List Placed) (groups : Groups) : Type 0 where
  pub group : (n : String) → group_of n groups ≡ claims_on n placed
  pub nodes : (n : String) → contains (map node_of groups) n ≡ contains (nodes_among placed) n
  pub once : Distinct (map node_of groups)

pub Grouped-none : Grouped [] []
unfolding group_of
Grouped-none = record { group = λ n. refl; nodes = λ n. refl; once = tt }

pub add_to_group-Grouped :
    (node pvc : String) (placed : List Placed) (groups : Groups)
    → Grouped placed groups
    → Grouped (placed ++ record { node = node; claim = pvc } ∷ []) (add_to_group node pvc groups)
add_to_group-Grouped node pvc placed groups h = record {
  group = λ n.
      group_of-add_to_group n node pvc groups
      ∙ ap (λ (l : List String). if node == n then l ++ pvc ∷ [] else l) (h.group n)
      ∙ sym (claims_on-concat n placed (record { node = node; claim = pvc }));
  nodes = λ n.
      contains-add_to_group n node pvc groups
      ∙ ap (λ (b : Bool). b || node == n) (h.nodes n)
      ∙ sym (contains-concat (nodes_among placed) node n)
      ∙ ap (λ (l : List String). contains l n)
          (sym (
            map-append (λ (p : Placed). p.node) placed (record { node = node; claim = pvc } ∷ [])));
  once = add_to_group-Distinct node pvc groups h.once;
}

pub IsPartition-of_Grouped :
    (placed : List Placed) (groups : Groups) → Grouped placed groups → IsPartition placed groups
unfolding nodes_of
IsPartition-of_Grouped placed groups h = record {
  group = h.group;
  nodes = λ n. contains-sort_strings (map node_of groups) n ∙ h.nodes n;
  once = sort_strings-Distinct (map node_of groups) h.once;
}
