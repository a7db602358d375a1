-- ===== src/Serialize/Archive.antt =====
-- What `SerializeNamespace` puts in its archive.
use mathlib.Core.Path.{subst}
use mathlib.Core.List.{Perm}
use pbs_k8s_operator.Base.{
  String, ◌==◌, not, Bool, true, false, ◌≡◌, refl, List, [], ◌∷◌, if◌then◌else◌, arith, Bool-cases,
  inl, inr, ◌⊎◌, map, select, sym,
}
use pbs_k8s_operator.Base.{All, All-append}
use pbs_k8s_operator.Base.Text.{is_empty}
use pbs_k8s_operator.Base.Text.Order.{str_lt-asym, ==-sym}
use pbs_k8s_operator.Value.{Fields}
use pbs_k8s_operator.Kube.{value_at}
use pbs_k8s_operator.JobSpec.{managed_label}
use pbs_k8s_operator.Reconcile.{Answer, answer, refused, pure, raise, need, ◌>>=◌}
use pbs_k8s_operator.Reconcile.Returns.{From, Returns, Returns-raise, Returns-asked, Returns-chain}
use pbs_k8s_operator.Serialize.Namespace.{
  GroupVersion, GroupKind, ApiResource, ApiResourceList, Discovered, discovered, partly,
  undiscovered, Serializer, Doc, is_excluded, kind_in, is_skipped, doc_lt, insert_doc, sort_docs,
  archive_text, list_groups, render, on_discovered, serialize_namespace,
}
use pbs_k8s_operator.Serialize.Collect.{
  Part, skipped, passed, kept, Parts, Collects, is_unmanaged, doc_of, sort_docs-Perm,
  list_groups-Collects,
}

-- No document is before the one in front of it.
abbrev pub IsSorted : List Doc → Type 0
IsSorted [] = Unit
IsSorted (x ∷ []) = Unit
IsSorted (x ∷ y ∷ xs) = (doc_lt y x ≡ false) × IsSorted (y ∷ xs)

asym_by :
    (same u v u' v' : Bool)
    → (u ≡ true → u' ≡ false)
    → (v ≡ true → v' ≡ false)
    → (if not same then u else v) ≡ true
    → (if not same then u' else v') ≡ false
asym_by true u v u' v' f g e = g e
asym_by false u v u' v' f g e = f e

doc_lt-asym : (a b : Doc) → doc_lt a b ≡ true → doc_lt b a ≡ false
unfolding doc_lt
doc_lt-asym a b h =
    rw (==-sym a.gk b.gk)
      (asym_by (a.gk == b.gk) _ _ _ _ (str_lt-asym a.gk b.gk) (str_lt-asym a.name b.name) h)

-- A document in front of what an insertion behind it gives.
cons-IsSorted :
    (x d y : Doc) (rest xs : List Doc) (b : Bool)
    → doc_lt x d ≡ true
    → doc_lt y x ≡ false
    → IsSorted (if b then y ∷ rest else d ∷ y ∷ xs)
    → IsSorted (x ∷ (if b then y ∷ rest else d ∷ y ∷ xs))
cons-IsSorted x d y rest xs true e f h = (f, h)
cons-IsSorted x d y rest xs false e f h = (doc_lt-asym x d e, h)

insert_doc-IsSorted : (d : Doc) (xs : List Doc) → IsSorted xs → IsSorted (insert_doc d xs)
unfolding insert_doc
insert_doc-IsSorted d [] h = tt
insert_doc-IsSorted d (x ∷ []) h = elim (Bool-cases (doc_lt x d)) [
  | inl e ↦ rw e (doc_lt-asym x d e, tt)
  | inr e ↦ rw e (e, tt)
]
insert_doc-IsSorted d (x ∷ y ∷ xs) h =
    let behind = insert_doc-IsSorted d (y ∷ xs) h.1 in
    elim (Bool-cases (doc_lt x d)) [
      | inl e ↦ rw e (cons-IsSorted x d y (insert_doc d xs) xs (doc_lt y d) e h.0 behind)
      | inr e ↦ rw e (e, h)
    ]

sort_docs-IsSorted : (ds : List Doc) → IsSorted (sort_docs ds)
unfolding sort_docs
sort_docs-IsSorted [] = tt
sort_docs-IsSorted (d ∷ ds) = insert_doc-IsSorted d (sort_docs ds) (sort_docs-IsSorted ds)

module _ (P : Doc → Type 0) where
  All-insert_doc : (d : Doc) (xs : List Doc) → P d → All P xs → All P (insert_doc d xs)
  unfolding insert_doc
  All-insert_doc d [] p h = (p, tt)
  All-insert_doc d (x ∷ xs) p (px, h) = elim (Bool-cases (doc_lt x d)) [
    | inl e ↦ rw e (px, All-insert_doc d xs p h)
    | inr e ↦ rw e (p, (px, h))
  ]

  All-sort_docs : (ds : List Doc) → All P ds → All P (sort_docs ds)
  unfolding sort_docs
  All-sort_docs [] h = tt
  All-sort_docs (d ∷ ds) (p, h) = All-insert_doc d (sort_docs ds) p (All-sort_docs ds h)

module _ {W : Type 0} (api : Serializer W) (ns : String) where
  -- A document of an object that the operator did not make, of a kind that is archived.
  pub record IsArchivable (d : Doc) : Type 0 where
    pub kind : GroupKind
    pub archived : is_excluded kind ≡ false
    pub name : d.gk ≡ api.group_kind_text kind
    pub unmanaged : is_empty (value_at managed_label (api.labels d.obj)) ≡ true

  -- The archive of just the documents that the discovered resources contribute, each archivable, in
  -- the order of their kinds and names.
  pub record IsArchive (text : String) : Type 0 where
    pub lists : List ApiResourceList
    pub discovers : From api.discover (discovered lists) ⊎ From api.discover (partly lists)
    pub found : List Doc
    pub collects : Collects api ns lists found
    pub docs : List Doc
    pub rearranged : Perm docs found
    pub archivable : All IsArchivable docs
    pub texts : List String
    pub sorted : IsSorted docs
    pub rendered : render api docs ≡ answer texts
    pub joined : text ≡ archive_text texts

  kind_in-archived :
      (gv : GroupVersion) (ar : ApiResource)
      → is_skipped gv ar ≡ false
      → is_excluded (kind_in gv ar) ≡ false
  unfolding is_skipped
  kind_in-archived gv ar e = ground arith

  unmanaged-Archivable :
      (gk : GroupKind) (us : List Fields)
      → is_excluded gk ≡ false
      → All IsArchivable (map (doc_of api ns gk) (select (is_unmanaged api ns) us))
  unmanaged-Archivable gk [] e = tt
  unmanaged-Archivable gk (u ∷ us) e =
      let rest = unmanaged-Archivable gk us e in
      elim (Bool-cases (is_unmanaged api ns u)) [
        | inl free ↦
            rw free (record { kind = gk; archived = e; name = refl; unmanaged = free }, rest)
        | inr ours ↦ rw ours rest
      ]

  Part-Archivable :
      (gv : GroupVersion) (ar : ApiResource) {xs : List Doc}
      → Part api ns gv ar xs
      → All IsArchivable xs
  Part-Archivable gv ar (skipped s) = tt
  Part-Archivable gv ar (passed reason e n from p) = tt
  Part-Archivable gv ar (kept us n from) = unmanaged-Archivable _ us (kind_in-archived gv ar n)

  Parts-Archivable :
      (gv : GroupVersion) {ars : List ApiResource} {xs : List Doc}
      → Parts api ns gv ars xs
      → All IsArchivable xs
  Parts-Archivable gv Parts.none = tt
  Parts-Archivable gv (Parts.more ar ars xs ys p q) =
      All-append IsArchivable xs ys (Part-Archivable gv ar p) (Parts-Archivable gv q)

  Collects-Archivable :
      {ls : List ApiResourceList} {xs : List Doc} → Collects api ns ls xs → All IsArchivable xs
  Collects-Archivable Collects.none = tt
  Collects-Archivable (Collects.more l ls gv xs ys e p q) =
      All-append IsArchivable xs ys (Parts-Archivable gv p) (Collects-Archivable q)

  module _ (lists : List ApiResourceList)
      (discovers : From api.discover (discovered lists) ⊎ From api.discover (partly lists)) where
    need-Archive :
        (found : List Doc) (r : Answer (List String))
        → render api (sort_docs found) ≡ r
        → Collects api ns lists found
        → Returns {W = W} {C = ⊥} IsArchive (need r >>= λ texts. pure (archive_text texts))
    unfolding need ◌>>=◌ pure raise
    need-Archive found (answer texts) e h = record {
      at = λ s. record {
        lists = lists;
        discovers = discovers;
        found = found;
        collects = h;
        docs = sort_docs found;
        rearranged = sort_docs-Perm found;
        archivable = All-sort_docs IsArchivable found (Collects-Archivable h);
        texts = texts;
        sorted = sort_docs-IsSorted found;
        rendered = e;
        joined = refl;
      };
    }
    need-Archive found (refused x) e h = record { at = λ s. tt }

    archived_of : Returns IsArchive (
        list_groups api ns lists [] >>= λ found.
        need (render api (sort_docs found)) >>= λ texts. pure (archive_text texts))
    archived_of = Returns-chain _ _ (list_groups-Collects api ns lists []) λ found (xs, h, e).
        need-Archive found _ refl (subst (λ (ds : List Doc). Collects api ns lists ds) (sym e) h)

  -- Whatever the cluster answers, an archive that `SerializeNamespace` returns holds just the
  -- documents, each once, that the discovered resources contribute: all objects without the operator's
  -- label in a list that the cluster gives, of each resource that is not skipped, except where the list
  -- fails in a way that is passed over. They are of kinds that are not excluded, and sorted by kind
  -- and then by name.
  pub serialize_namespace-IsArchive : Returns IsArchive (serialize_namespace api ns)
  unfolding serialize_namespace
  serialize_namespace-IsArchive = Returns-asked api.discover _ λ d from. answered d from
    where
      answered :
          (d : Discovered)
          → From api.discover d
          → Returns IsArchive (
              on_discovered api d λ lists. list_groups api ns lists [] >>= λ found.
              need (render api (sort_docs found)) >>= λ texts. pure (archive_text texts))
      answered (discovered ls) from = archived_of ls (inl from)
      answered (partly ls) from = archived_of ls (inr from)
      answered (undiscovered e) from = Returns-raise e
