-- ===== src/RestorePlan/Nodes/Laws.antt =====
-- Which node a claim is restored on.
use text.Mathlib.Text.{starts_with}
use text.Mathlib.TextPositions.{starts_with-append}
use text.Mathlib.TextEquality.{starts_with_iff}
use text.Mathlib.TextLemmas
use pbs_k8s_operator.Base.{
  String, Bool, true, false, not, ◌&&◌, ◌||◌, List, [], ◌∷◌, ◌++◌, ◌≡◌, ◌≢◌, refl, ap, sym, ◌==◌,
  eq_iff, arith, contains, All, Bool-cases, inl, inr, ◌⊎◌, ==-false_of_ne,
}
use pbs_k8s_operator.Base.Text.{◌+++◌}
use pbs_k8s_operator.Value.{Value, Items, nil, cons, lookup, as_list, any_item}
use pbs_k8s_operator.RestorePlan.Parse.{ParsedDoc}
use pbs_k8s_operator.RestorePlan.Buckets.{workload_kinds}
use pbs_k8s_operator.RestorePlan.Nodes.{
  template_name, sts_claim_template, claims_pod_volume, claim_name, hostname_selector, spec_of,
  pod_spec_of, consumes, node_for_pvc,
}

pub data Among (v : Value) : Items → Type 0 where
  head : (xs : Items) → Among v (cons v xs)
  tail : (w : Value) (xs : Items) → Among v xs → Among v (cons w xs)

any_item_of_Among :
    (p : Value → Bool) (v : Value) (xs : Items) → Among v xs → p v ≡ true → any_item p xs ≡ true
unfolding any_item
any_item_of_Among p v xs (head ys) h = rw h
any_item_of_Among p v xs (tail w ys m) h = ground (arith, any_item_of_Among p v ys m h)

Among-of_any_item :
    (p : Value → Bool) (xs : Items) → any_item p xs ≡ true → (v : Value) × Among v xs × (p v ≡ true)
unfolding any_item
Among-of_any_item p nil h = absurd (cc h)
Among-of_any_item p (cons w xs) h = elim (Bool-cases (p w)) [
  | inl here ↦ (w, head xs, here)
  | inr e ↦ let (v, m, q) = Among-of_any_item p xs (ground arith) in (v, tail w xs m, q)
]

-- A pod of the document mounts the claim.
abbrev pub Mounts : String → ParsedDoc → Type 0
Mounts pvc d =
    (v : Value) × Among v (as_list (lookup "volumes" (pod_spec_of d))) × (claim_name v ≡ pvc)

-- The claim's name begins with the names of a claim template and of the document. This holds of the
-- claims that are made from the template, which have a number after it, and of others.
abbrev pub Derives : String → ParsedDoc → Type 0
Derives pvc d =
    (t : Value) × Among t (as_list (lookup "volumeClaimTemplates" (spec_of d)))
    × (template_name t ≢ "")
    × ((rest : String) × (pvc ≡ (template_name t +++ "-" +++ d.name +++ "-") +++ rest))

abbrev pub Matches : String → ParsedDoc → Type 0
Matches pvc d = (contains workload_kinds d.kind ≡ true) × (Mounts pvc d ⊎ Derives pvc d)

-- A document that does not decide the node: it does not match the claim, or is pinned to none.
abbrev pub LeavesOpen : String → ParsedDoc → Type 0
LeavesOpen pvc d = (Matches pvc d → ⊥) ⊎ (hostname_selector (pod_spec_of d) ≡ "")

or_true : (a b : Bool) → b ≡ true → (a || b) ≡ true
or_true a b h = ground arith

abbrev fits : String → String → Value → Bool
fits pvc name v =
    not (template_name v == "") && starts_with pvc (template_name v +++ "-" +++ name +++ "-")

Derives-of_fits :
    (pvc : String) (d : ParsedDoc) (t : Value)
    → Among t (as_list (lookup "volumeClaimTemplates" (spec_of d)))
    → fits pvc d.name t ≡ true
    → Derives pvc d
Derives-of_fits pvc d t m h =
    let starts : starts_with pvc (template_name t +++ "-" +++ d.name +++ "-") ≡ true =
      ground arith in
    let (rest, e) = (starts_with_iff pvc (template_name t +++ "-" +++ d.name +++ "-")).0 starts in
    (t, m, ground (arith, eq_iff (template_name t) ""), (rest, sym e))

Matches-of_consumes : (pvc : String) (d : ParsedDoc) → consumes pvc d ≡ true → Matches pvc d
unfolding consumes claims_pod_volume sts_claim_template
Matches-of_consumes pvc d h = (
  ground arith,
  elim (Bool-cases (claims_pod_volume (pod_spec_of d) pvc)) [
    | inl mounts ↦
        let (v, m, e) = Among-of_any_item (λ v. claim_name v == pvc) _ mounts in
        inl (v, m, (eq_iff (claim_name v) pvc).0 e)
    | inr e ↦
        let (t, m, f) = Among-of_any_item (fits pvc d.name) _ (ground arith) in
        inr (Derives-of_fits pvc d t m f)
  ],
)

consumes_of_Matches : (pvc : String) (d : ParsedDoc) → Matches pvc d → consumes pvc d ≡ true
unfolding consumes claims_pod_volume sts_claim_template
consumes_of_Matches pvc d (w, inl (v, m, e)) =
    let found =
      any_item_of_Among (λ v. claim_name v == pvc) v _ m ((eq_iff (claim_name v) pvc).1 e) in
    rw (w, found) refl
consumes_of_Matches pvc d (w, inr (t, m, n, (rest, e))) =
    let starts : starts_with pvc (template_name t +++ "-" +++ d.name +++ "-") ≡ true =
      rw e (starts_with-append (template_name t +++ "-" +++ d.name +++ "-") rest) in
    let fit : fits pvc d.name t ≡ true = rw (==-false_of_ne _ _ n, starts) refl in
    let found = any_item_of_Among (fits pvc d.name) t _ m fit in rw w (or_true _ _ found)

-- The first document that matches the claim and is pinned to a node.
pub record Decides (pvc : String) (docs : List ParsedDoc) (node : String) : Type 0 where
  pub before : List ParsedDoc
  pub decider : ParsedDoc
  pub after : List ParsedDoc
  pub split : docs ≡ before ++ decider ∷ after
  pub open_before : All (LeavesOpen pvc) before
  pub uses : Matches pvc decider
  pub pinned : hostname_selector (pod_spec_of decider) ≡ node
  pub some_node : node ≢ ""

Decides-cons :
    {pvc : String} {docs : List ParsedDoc} {node : String} (d : ParsedDoc)
    → LeavesOpen pvc d
    → Decides pvc docs node
    → Decides pvc (d ∷ docs) node
Decides-cons d o s = record {
  before = d ∷ s.before;
  decider = s.decider;
  after = s.after;
  split = ap (λ (l : List ParsedDoc). d ∷ l) s.split;
  open_before = (o, s.open_before);
  uses = s.uses;
  pinned = s.pinned;
  some_node = s.some_node;
}

open_of :
    (pvc : String) (d : ParsedDoc)
    → (consumes pvc d && not (hostname_selector (pod_spec_of d) == "")) ≡ false
    → LeavesOpen pvc d
open_of pvc d h = elim (Bool-cases (consumes pvc d)) [
  | inr other ↦ inl (λ m. cc (consumes_of_Matches pvc d m, other))
  | inl uses ↦ inr (ground (arith, eq_iff (hostname_selector (pod_spec_of d)) ""))
]

-- The node of a claim is that of the first workload that is pinned to a node by name and matches the
-- claim: it mounts the claim, or the claim's name begins with the names of a claim template of it and
-- of itself. It is empty only where no document does.
pub node_for_pvc-Decides :
    (docs : List ParsedDoc) (pvc : String)
    → Decides pvc docs (node_for_pvc docs pvc)
      ⊎ ((node_for_pvc docs pvc ≡ "") × All (LeavesOpen pvc) docs)
unfolding node_for_pvc
node_for_pvc-Decides [] pvc = inr (refl, tt)
node_for_pvc-Decides (d ∷ ds) pvc =
    let node = hostname_selector (pod_spec_of d) in
    elim (Bool-cases (consumes pvc d && not (node == ""))) [
      | inl yes_here ↦ rw yes_here (
          inl (record {
            before = [];
            decider = d;
            after = ds;
            split = refl;
            open_before = tt;
            uses = Matches-of_consumes pvc d (ground arith);
            pinned = refl;
            some_node = ground (arith, eq_iff node "");
          }))
      | inr not_here ↦
          let o = open_of pvc d not_here in
          rw not_here (elim (node_for_pvc-Decides ds pvc) [
            | inl found ↦ inl (Decides-cons d o found)
            | inr (empty, all_open) ↦ inr (empty, (o, all_open))
          ])
    ]
