-- ===== src/Serialize/Collect.antt =====
-- What `SerializeNamespace` is to collect: the objects of the namespace, resource by resource.
use mathlib.Core.Path.{subst}
use mathlib.Core.List.{append-nil, append_assoc, Perm}
use mathlib.Core.List.Perm
use pbs_k8s_operator.Base.{
  String, Bool, true, false, ◌≡◌, refl, sym, ap, ◌∙◌, List, [], ◌∷◌, ◌++◌, map, select, Bool-cases,
  inl, inr,
}
use pbs_k8s_operator.Base.Text.{is_empty}
use pbs_k8s_operator.Value.{Fields}
use pbs_k8s_operator.Kube.{value_at}
use pbs_k8s_operator.JobSpec.{managed_label}
use pbs_k8s_operator.Reconcile.{answer, M}
use pbs_k8s_operator.Reconcile.Returns.{
  From, Returns, Returns-pure, Returns-raise, Returns-map, Returns-chain, Returns-asked,
  Returns-need,
}
use pbs_k8s_operator.Serialize.Namespace.{
  GroupVersion, GroupKind, ApiResource, ApiResourceList, ErrorReason, Listed, listed, list_failed,
  Serializer, Doc, skippable_list_error, kind_in, is_skipped, doc_lt, insert_doc, sort_docs,
  found_in, on_listed, list_resources, list_groups,
}

insert_doc-Perm : (d : Doc) (xs : List Doc) → Perm (insert_doc d xs) (d ∷ xs)
unfolding insert_doc
insert_doc-Perm d [] = Perm.rfl
insert_doc-Perm d (x ∷ xs) = elim (Bool-cases (doc_lt x d)) [
  | inl e ↦ rw e (Perm.trans (Perm.cons x (insert_doc-Perm d xs)) (Perm.swap d x xs))
  | inr e ↦ rw e Perm.rfl
]

pub sort_docs-Perm : (ds : List Doc) → Perm (sort_docs ds) ds
unfolding sort_docs
sort_docs-Perm [] = Perm.rfl
sort_docs-Perm (d ∷ ds) =
    Perm.trans (insert_doc-Perm d (sort_docs ds)) (Perm.cons d (sort_docs-Perm ds))

module _ {W : Type 0} (api : Serializer W) (ns : String) where
  abbrev pub is_unmanaged : Fields → Bool
  is_unmanaged u = is_empty (value_at managed_label (api.labels u))

  abbrev pub doc_of : GroupKind → Fields → Doc
  doc_of gk u = record { gk = api.group_kind_text gk; name = api.name u; obj = u }

  -- What a resource contributes: nothing where it is skipped, or where its list fails in a way that
  -- is passed over; and the documents of all objects that the operator did not make, in the order of
  -- a list that the cluster gives.
  pub data Part (gv : GroupVersion) (ar : ApiResource) : List Doc → Type 0 where
    skipped : is_skipped gv ar ≡ true → Part gv ar []
    passed :
        (reason : ErrorReason) (e : String)
        → is_skipped gv ar ≡ false
        → From (api.list gv ar.name ns) (list_failed reason e)
        → skippable_list_error reason ≡ true
        → Part gv ar []
    kept :
        (us : List Fields)
        → is_skipped gv ar ≡ false
        → From (api.list gv ar.name ns) (listed us)
        → Part gv ar (map (doc_of (kind_in gv ar)) (select is_unmanaged us))

  pub data Parts (gv : GroupVersion) : List ApiResource → List Doc → Type 0 where
    none : Parts gv [] []
    more :
        (ar : ApiResource) (ars : List ApiResource) (xs ys : List Doc)
        → Part gv ar xs
        → Parts gv ars ys
        → Parts gv (ar ∷ ars) (xs ++ ys)

  -- The contributions of all groups, in their order.
  pub data Collects : List ApiResourceList → List Doc → Type 0 where
    none : Collects [] []
    more :
        (l : ApiResourceList) (ls : List ApiResourceList) (gv : GroupVersion) (xs ys : List Doc)
        → api.parse_group_version l.group_version ≡ answer gv
        → Parts gv l.resources xs
        → Collects ls ys
        → Collects (l ∷ ls) (xs ++ ys)

  found_in_lem :
      (gk : GroupKind) (us : List Fields)
      → found_in api gk us ≡ map (doc_of gk) (select is_unmanaged us)
  unfolding found_in
  found_in_lem gk [] = refl
  found_in_lem gk (u ∷ us) = elim (Bool-cases (is_unmanaged u)) [
    | inl e ↦ rw e (ap (λ (ds : List Doc). doc_of gk u ∷ ds) (found_in_lem gk us))
    | inr e ↦ rw e (found_in_lem gk us)
  ]

  -- What is found in the end: what was found, and what the rest contributes.
  abbrev Extends : (List Doc → Type 0) → List Doc → List Doc → Type 0
  Extends P found all = (xs : List Doc) × P xs × (all ≡ found ++ xs)

  found_in-Part :
      (gv : GroupVersion) (ar : ApiResource) (us : List Fields)
      → is_skipped gv ar ≡ false
      → From (api.list gv ar.name ns) (listed us)
      → Part gv ar (found_in api (kind_in gv ar) us)
  found_in-Part gv ar us n from =
      subst (λ (ds : List Doc). Part gv ar ds) (sym (found_in_lem (kind_in gv ar) us))
        (kept us n from)

  -- A contribution before what is found from there on.
  extended :
      {P Q : List Doc → Type 0} (found part all : List Doc)
      → ((xs : List Doc) → P xs → Q (part ++ xs))
      → Extends P (found ++ part) all
      → Extends Q found all
  extended found part all h (xs, p, e) = (part ++ xs, h xs p, e ∙ append_assoc found part xs)

  on_listed-Extends :
      (gv : GroupVersion) (ar : ApiResource) (ars : List ApiResource) (r : Listed)
      (found : List Doc) (k : List Doc → M W ⊥ (List Doc))
      → is_skipped gv ar ≡ false
      → From (api.list gv ar.name ns) r
      → ((now : List Doc) → Returns (Extends (Parts gv ars) now) (k now))
      → Returns (Extends (Parts gv (ar ∷ ars)) found) (on_listed api r (kind_in gv ar) found k)
  on_listed-Extends gv ar ars (listed us) found k n from h =
      let part = found_in api (kind_in gv ar) us in
      Returns-map _
        (λ all x.
          extended found part all (λ xs p. more ar ars part xs (found_in-Part gv ar us n from) p) x)
        (h (found ++ part))
  on_listed-Extends gv ar ars (list_failed reason e) found k n from h =
      elim (Bool-cases (skippable_list_error reason)) [
        | inl passable ↦ rw passable (
            Returns-map _
              (λ all (xs, p, i). (xs, more ar ars [] xs (passed reason e n from passable) p, i))
              (h found))
        | inr fatal ↦ rw fatal (Returns-raise e)
      ]

  list_resources-Parts :
      (gv : GroupVersion) (ars : List ApiResource) (found : List Doc)
      → Returns (Extends (Parts gv ars) found) (list_resources api ns gv ars found)
  unfolding list_resources
  list_resources-Parts gv [] found = Returns-pure found ([], none, sym (append-nil found))
  list_resources-Parts gv (ar ∷ ars) found = elim (Bool-cases (is_skipped gv ar)) [
    | inl s ↦ rw s (
        Returns-map _ (λ all (xs, p, i). (xs, more ar ars [] xs (skipped s) p, i))
          (list_resources-Parts gv ars found))
    | inr n ↦ rw n (
        Returns-asked (api.list gv ar.name ns) _ λ items from.
          on_listed-Extends gv ar ars items found _ n from λ now. list_resources-Parts gv ars now)
  ]

  -- Whatever the cluster answers, the loop over the groups finds what the groups contribute.
  pub list_groups-Collects :
      (ls : List ApiResourceList) (found : List Doc)
      → Returns (Extends (Collects ls) found) (list_groups api ns ls found)
  unfolding list_groups
  list_groups-Collects [] found = Returns-pure found ([], none, sym (append-nil found))
  list_groups-Collects (l ∷ ls) found =
      Returns-chain {R = λ gv. api.parse_group_version l.group_version ≡ answer gv} _ _
        (Returns-need (api.parse_group_version l.group_version))
        λ gv parses. Returns-chain _ _ (list_resources-Parts gv l.resources found) λ now (xs, p, i).
          Returns-map _
            (λ all x.
              extended found xs all (λ ys q. more l ls gv xs ys parses p q)
                (subst (λ (now : List Doc). Extends (Collects ls) now all) i x))
            (list_groups-Collects ls now)
