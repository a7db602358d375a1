-- ===== src/Placement/Laws.antt =====
-- What decides a claim's node.
use pbs_k8s_operator.Base.{
  String, true, false, not, ◌&&◌, Option, none, some, List, [], ◌∷◌, ◌++◌, ◌==◌, eq_iff, ◌≡◌, ◌≢◌,
  ◌⊎◌, inl, inr, refl, arith, All, Bool-cases, First, First-here, First-later,
}
use pbs_k8s_operator.Kube.{
  NodeSelectorRequirement, NodeSelectorTerm, Pod, PersistentVolume, PersistentVolumeClaim,
}
use pbs_k8s_operator.Placement.{
  node_of_requirement, or_else, node_of_requirements, node_of_terms, node_from_affinity,
  mounts_claim, node_of_pods, Placed, on_node, unplaceable, unplaceable_message, resolve_node,
  hostname_key,
}

-- The requirements of an affinity in the order in which they count.
unfoldable pub requirements : List NodeSelectorTerm → List NodeSelectorRequirement
requirements [] = []
requirements (t ∷ ts) = (t.match_expressions ++ t.match_fields) ++ requirements ts

node_of_requirements-append :
    (xs ys : List NodeSelectorRequirement)
    → node_of_requirements (xs ++ ys) ≡ or_else (node_of_requirements xs) (node_of_requirements ys)
unfolding node_of_requirements
node_of_requirements-append [] ys = refl
node_of_requirements-append (x ∷ xs) ys = ground (arith, node_of_requirements-append xs ys)

node_of_terms-eq-requirements :
    (ts : List NodeSelectorTerm) → node_of_terms ts ≡ node_of_requirements (requirements ts)
unfolding node_of_terms requirements node_of_requirements
node_of_terms-eq-requirements [] = refl
node_of_terms-eq-requirements (t ∷ ts) = ground (
  arith,
  node_of_requirements-append (t.match_expressions ++ t.match_fields) (requirements ts),
  node_of_requirements-append t.match_expressions t.match_fields,
  node_of_terms-eq-requirements ts,
)

-- A requirement that pins a volume to a node: `kubernetes.io/hostname In [node, …]`.
pub record Pins (node : String) (req : NodeSelectorRequirement) : Type 0 where
  pub key : req.key ≡ hostname_key
  pub operator : req.operator ≡ "In"
  pub others : List String
  pub values : req.values ≡ node ∷ others

-- The volume's requirements, none where it has no required node affinity.
unfoldable pub required : Option PersistentVolume → List NodeSelectorRequirement
required none = []
required (some pv) = elim pv.affinity [
  | none ↦ []
  | some affinity ↦ elim affinity.required [ none ↦ [] | some terms ↦ requirements terms ]
]

node_from_affinity-eq-required :
    (pv : Option PersistentVolume) → node_from_affinity pv ≡ node_of_requirements (required pv)
unfolding node_from_affinity required node_of_requirements
node_from_affinity-eq-required none = refl
node_from_affinity-eq-required (some pv) = grind (arith, node_of_terms-eq-requirements)

-- A requirement that pins a volume to some node.
abbrev pub IsPin : NodeSelectorRequirement → Type 0
IsPin req = (node : String) × Pins node req

-- What the search over the requirements has found.
abbrev pub FirstPin : List NodeSelectorRequirement → Option String → Type 0
FirstPin reqs none = All (λ req. ¬ IsPin req) reqs
FirstPin reqs (some node) = (f : First IsPin reqs) × (f.holds.0 ≡ node)

node_of_requirement_cases :
    (req : NodeSelectorRequirement)
    → ((p : IsPin req) × (node_of_requirement req ≡ some p.0))
      ⊎ ((¬ IsPin req) × (node_of_requirement req ≡ none))
unfolding node_of_requirement
node_of_requirement_cases req =
    go req.values refl (Bool-cases (req.key == hostname_key && req.operator == "In"))
  where
    go :
        (vs : List String)
        → req.values ≡ vs
        → ((req.key == hostname_key && req.operator == "In") ≡ true)
          ⊎ ((req.key == hostname_key && req.operator == "In") ≡ false)
        → ((p : IsPin req) × (node_of_requirement req ≡ some p.0))
          ⊎ ((¬ IsPin req) × (node_of_requirement req ≡ none))
    go [] e c = inr ((λ p. cc (p.1.values)), rw (e, node_of_requirement) refl)
    go (v ∷ vs) e (inl h) = inl (
      (
        v,
        record {
          key = ground (arith, eq_iff req.key hostname_key);
          operator = ground (arith, eq_iff req.operator "In");
          others = vs;
          values = e;
        },
      ),
      rw (e, node_of_requirement) (rw h refl),
    )
    go (v ∷ vs) e (inr h) = inr (
      (λ p.
          ground
            (arith, p.1.key, p.1.operator, eq_iff req.key hostname_key, eq_iff req.operator "In")),
      rw (e, node_of_requirement) (rw h refl),
    )

later :
    (req : NodeSelectorRequirement) (reqs : List NodeSelectorRequirement)
    → ¬ IsPin req
    → (o : Option String) → FirstPin reqs o
    → FirstPin (req ∷ reqs) o
later req reqs n none h = (n, h)
later req reqs n (some node) (f, e) = (First-later IsPin req reqs n f, e)

node_of_requirements-FirstPin :
    (reqs : List NodeSelectorRequirement) → FirstPin reqs (node_of_requirements reqs)
unfolding node_of_requirements
node_of_requirements-FirstPin [] = tt
node_of_requirements-FirstPin (req ∷ reqs) = elim (node_of_requirement_cases req) [
  | inl (p, e) ↦ rw e (First-here IsPin req reqs p, refl)
  | inr (n, e) ↦
      rw e (later req reqs n (node_of_requirements reqs) (node_of_requirements-FirstPin reqs))
]

-- A scheduled pod that mounts the claim.
abbrev pub Holds : String → Pod → Type 0
Holds pvc pod = (mounts_claim pod.spec.volumes pvc ≡ true) × (pod.spec.node_name ≢ "")

abbrev pub FirstHolder : String → List Pod → Option String → Type 0
FirstHolder pvc pods none = All (λ pod. ¬ Holds pvc pod) pods
FirstHolder pvc pods (some node) = (f : First (Holds pvc) pods) × (f.found.spec.node_name ≡ node)

later_holder :
    (pvc : String) (pod : Pod) (pods : List Pod)
    → ¬ Holds pvc pod
    → (o : Option String) → FirstHolder pvc pods o
    → FirstHolder pvc (pod ∷ pods) o
later_holder pvc pod pods n none h = (n, h)
later_holder pvc pod pods n (some node) (f, e) = (First-later (Holds pvc) pod pods n f, e)

node_of_pods-FirstHolder :
    (pods : List Pod) (pvc : String) → FirstHolder pvc pods (node_of_pods pods pvc)
unfolding node_of_pods
node_of_pods-FirstHolder [] pvc = tt
node_of_pods-FirstHolder (pod ∷ pods) pvc =
    elim (Bool-cases (mounts_claim pod.spec.volumes pvc && not (pod.spec.node_name == ""))) [
      | inl e ↦ rw e (
        First-here (Holds pvc) pod pods
            (ground arith, ground (arith, eq_iff pod.spec.node_name "")),
        refl,
      )
      | inr e ↦
          let n : ¬ Holds pvc pod = λ h. ground (arith, h.0, h.1, eq_iff pod.spec.node_name "") in
          rw e (later_holder pvc pod pods n _ (node_of_pods-FirstHolder pods pvc))
    ]

-- The decision, with its reasons.
pub data Resolution (pvc : PersistentVolumeClaim) (pv : Option PersistentVolume) (pods : List Pod)
    (r : Placed) : Type 0 where
  by_affinity :
      (node : String)
      → r ≡ on_node node
      → FirstPin (required pv) (some node)
      → Resolution pvc pv pods r
  by_pod :
      (node : String)
      → r ≡ on_node node
      → FirstPin (required pv) none
      → FirstHolder pvc.meta.name pods (some node)
      → Resolution pvc pv pods r
  by_nothing :
      r ≡ unplaceable (unplaceable_message pvc)
      → FirstPin (required pv) none
      → FirstHolder pvc.meta.name pods none
      → Resolution pvc pv pods r

-- A claim is placed on the node of the first requirement of its volume that pins it to one; without
-- such a requirement on the node of the first scheduled pod that mounts it; and without such a pod
-- it is refused with the message that names it.
pub resolve_node-Resolution :
    (pvc : PersistentVolumeClaim) (pv : Option PersistentVolume) (pods : List Pod)
    → Resolution pvc pv pods (resolve_node pvc pv pods)
unfolding resolve_node
resolve_node-Resolution pvc pv pods =
    decide (node_from_affinity pv) refl (node_of_pods pods pvc.meta.name) refl
  where
    pins : FirstPin (required pv) (node_from_affinity pv)
    pins = rw (node_from_affinity-eq-required pv) (node_of_requirements-FirstPin (required pv))

    decide :
        (a : Option String)
        → node_from_affinity pv ≡ a
        → (b : Option String) → node_of_pods pods pvc.meta.name ≡ b
        → Resolution pvc pv pods (resolve_node pvc pv pods)
    decide (some node) e b e' = by_affinity node (rw (e, resolve_node)) (rw e at pins)
    decide none e (some node) e' =
        by_pod node (rw (e, resolve_node) (rw e' refl)) (rw e at pins)
          (rw e' at (node_of_pods-FirstHolder pods pvc.meta.name))
    decide none e none e' =
        by_nothing (rw (e, resolve_node) (rw e' refl)) (rw e at pins)
          (rw e' at (node_of_pods-FirstHolder pods pvc.meta.name))
