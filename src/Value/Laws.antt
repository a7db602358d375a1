-- ===== src/Value/Laws.antt =====
-- What the operations on maps do to the value read at each key.
use pbs_k8s_operator.Base.{
  none, some, false, String, ◌==◌, eq_iff, eq_refl, if◌then◌else◌, ◌≡◌, arith,
}
use mathlib.Core.Option
use pbs_k8s_operator.Value.{
  Value, Fields, end, field, lookup, delete, put, update, update_map, as_map,
}

pub lookup-delete :
    (k j : String) (fs : Fields) → lookup j (delete k fs) ≡ (if k == j then none else lookup j fs)
unfolding lookup delete
lookup-delete k j end = ground arith
lookup-delete k j (field i v fs) =
    ground (arith, eq_iff k j, eq_iff i k, eq_iff i j, lookup-delete k j fs)

pub lookup-put :
    (k j : String) (v : Value) (fs : Fields)
    → lookup j (put k v fs) ≡ (if k == j then some v else lookup j fs)
unfolding lookup put
lookup-put k j v end = ground arith
lookup-put k j v (field i w fs) =
    ground (arith, eq_iff k j, eq_iff i k, eq_iff i j, lookup-put k j v fs)

pub lookup-update :
    (k j : String) (g : Value → Value) (fs : Fields)
    → lookup j (update k g fs) ≡ (if k == j then Option.map g (lookup j fs) else lookup j fs)
unfolding lookup update
lookup-update k j g end = ground arith
lookup-update k j g (field i v fs) =
    ground (arith, eq_iff k j, eq_iff i k, eq_iff i j, lookup-update k j g fs)

-- A change at one key leaves the value at another.
pub lookup-update_ne :
    (k j : String) (g : Value → Value) (fs : Fields)
    → (k == j) ≡ false
    → lookup j (update k g fs) ≡ lookup j fs
lookup-update_ne k j g fs e = rw (lookup-update k j g fs, e)

pub lookup-delete_ne :
    (k j : String) (fs : Fields) → (k == j) ≡ false → lookup j (delete k fs) ≡ lookup j fs
lookup-delete_ne k j fs e = rw (lookup-delete k j fs, e)

pub lookup-delete_self : (k : String) (fs : Fields) → lookup k (delete k fs) ≡ none
lookup-delete_self k fs = rw (lookup-delete k k fs, eq_refl k)

-- The map below the changed key is the changed map, where there is one.
pub as_map-update_map :
    (k : String) (f : Fields → Fields) (fs : Fields)
    → f end ≡ end
    → as_map (lookup k (update_map k f fs)) ≡ f (as_map (lookup k fs))
unfolding lookup update
as_map-update_map k f end e = ground arith
as_map-update_map k f (field i v fs) e = ground (arith, eq_iff i k, as_map-update_map k f fs)
