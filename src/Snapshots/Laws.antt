-- ===== src/Snapshots/Laws.antt =====
-- The snapshot that `LatestSnapshot` returns, and the shape of a reference.
use mathlib.Core.List.{Memᴰ}
use Prim.Native.String.{String, [], ◌∷◌}
use pbs_k8s_operator.Base.{
  true, false, Option, none, some, List, [], ◌∷◌, ◌≡◌, refl, ap, sym, ◌∙◌, All, Bool-cases, inl,
  inr, ◌⊎◌,
}
use pbs_k8s_operator.Base.Text.{◌+++◌, split}
use pbs_k8s_operator.Base.Text.Splits.{Free, split-append, split-Free}
use pbs_k8s_operator.Snapshots.{
  Snapshot, Clock, compose_snapshot_ref, in_group, latest_from, latest_snapshot,
}

-- What holds of `>` on the floats, not-a-numbers included.
pub record IsStrict {F : Type 0} (clock : Clock F) : Type 0 where
  pub irrefl : (a : F) → clock.gt a a ≡ false
  pub trans : (a b c : F) → clock.gt a b ≡ true → clock.gt b c ≡ true → clock.gt a c ≡ true

module _ {F : Type 0} (clock : Clock F) (strict : IsStrict clock) (t id : String) where
  -- No snapshot of the group is newer than `s`.
  abbrev NoneNewer : Snapshot F → List (Snapshot F) → Type 0
  NoneNewer s =
      All (λ r. in_group clock t id r ≡ true → clock.gt r.backup_time s.backup_time ≡ false)

  -- `x` is `b`, or newer than it.
  abbrev Beats : Snapshot F → Snapshot F → Type 0
  Beats b x = (b ≡ x) ⊎ (clock.gt x.backup_time b.backup_time ≡ true)

  -- What beats a snapshot that is newer than `s` is not older than `s`, and so for one that is not
  -- older.
  not_newer_of_lt :
      (b s x : Snapshot F) → clock.gt s.backup_time b.backup_time ≡ true → Beats s x → Beats b x
  not_newer_of_lt b s x h (inl e) = inr (rw e at h)
  not_newer_of_lt b s x h (inr g) = inr (strict.trans x.backup_time s.backup_time b.backup_time g h)

  not-gt_of_Beats : (b x : Snapshot F) → Beats b x → clock.gt b.backup_time x.backup_time ≡ false
  not-gt_of_Beats b x (inl e) = rw e (strict.irrefl x.backup_time)
  not-gt_of_Beats b x (inr g) = elim (Bool-cases (clock.gt b.backup_time x.backup_time)) [
    | inl h ↦
        cc (strict.trans x.backup_time b.backup_time x.backup_time g h, strict.irrefl x.backup_time)
    | inr e ↦ e
  ]

  not-gt_of_kept :
      (b s x : Snapshot F)
      → clock.gt s.backup_time b.backup_time ≡ false
      → Beats b x
      → clock.gt s.backup_time x.backup_time ≡ false
  not-gt_of_kept b s x h (inl e) = rw e at h
  not-gt_of_kept b s x h (inr g) = elim (Bool-cases (clock.gt s.backup_time x.backup_time)) [
    | inl k ↦ cc (strict.trans s.backup_time x.backup_time b.backup_time k g, h)
    | inr e ↦ e
  ]

  -- The loop with a snapshot in hand.
  record Improves (b : Snapshot F) (snaps : List (Snapshot F)) : Type 0 where
    best : Snapshot F
    result : latest_from clock t id (some b) snaps ≡ some best
    origin : (b ≡ best) ⊎ Memᴰ best snaps
    grouped : in_group clock t id best ≡ true
    newest : NoneNewer best snaps
    beats : Beats b best

  latest_from-Improves :
      (b : Snapshot F) (snaps : List (Snapshot F)) → in_group clock t id b ≡ true → Improves b snaps
  unfolding latest_from
  latest_from-Improves b [] g = record {
    best = b;
    result = refl;
    origin = inl refl;
    grouped = g;
    newest = tt;
    beats = inl refl;
  }
  latest_from-Improves b (s ∷ snaps) g = elim (Bool-cases (in_group clock t id s)) [
    | inr other ↦
        let i = latest_from-Improves b snaps g in
        record {
          best = i.best;
          result = rw other i.result;
          origin = elim i.origin [ inl e ↦ inl e | inr m ↦ inr (Memᴰ.tail m) ];
          grouped = i.grouped;
          newest = (λ h. cc, i.newest);
          beats = i.beats;
        }
    | inl mine ↦ elim (Bool-cases (clock.gt s.backup_time b.backup_time)) [
      | inl newer ↦
          let i = latest_from-Improves s snaps mine in
          record {
            best = i.best;
            result = rw (mine, newer) i.result;
            origin = inr (elim i.origin [ inl e ↦ Memᴰ.head (sym e) | inr m ↦ Memᴰ.tail m ]);
            grouped = i.grouped;
            newest = ((λ h. not-gt_of_Beats s i.best i.beats), i.newest);
            beats = not_newer_of_lt b s i.best newer i.beats;
          }
      | inr kept ↦
          let i = latest_from-Improves b snaps g in
          record {
            best = i.best;
            result = rw (mine, kept) i.result;
            origin = elim i.origin [ inl e ↦ inl e | inr m ↦ inr (Memᴰ.tail m) ];
            grouped = i.grouped;
            newest = ((λ h. not-gt_of_kept b s i.best kept i.beats), i.newest);
            beats = i.beats;
          }
    ]
  ]

  -- The newest snapshot of the group.
  pub record IsLatest (snaps : List (Snapshot F)) (best : Snapshot F) : Type 0 where
    pub listed : Memᴰ best snaps
    pub grouped : in_group clock t id best ≡ true
    pub newest :
        All
          (λ r. in_group clock t id r ≡ true → clock.gt r.backup_time best.backup_time ≡ false)
          snaps

  -- What `LatestSnapshot` answers.
  abbrev pub Answer : List (Snapshot F) → Option (Snapshot F) → Type 0
  Answer snaps none = All (λ r. in_group clock t id r ≡ false) snaps
  Answer snaps (some best) = IsLatest snaps best

  skip :
      (s : Snapshot F) (snaps : List (Snapshot F)) (o : Option (Snapshot F))
      → in_group clock t id s ≡ false
      → Answer snaps o
      → Answer (s ∷ snaps) o
  skip s snaps none other a = (other, a)
  skip s snaps (some best) other a = record {
    listed = Memᴰ.tail a.listed;
    grouped = a.grouped;
    newest = (λ h. cc, a.newest);
  }

  -- The answer is a listed snapshot of the group such that none of the group is newer, and there is
  -- no answer exactly where none is of the group.
  pub latest_snapshot-Answer :
      (snaps : List (Snapshot F)) → Answer snaps (latest_snapshot clock snaps t id)
  unfolding latest_snapshot latest_from
  latest_snapshot-Answer [] = tt
  latest_snapshot-Answer (s ∷ snaps) = elim (Bool-cases (in_group clock t id s)) [
    | inr other ↦ rw other (skip s snaps _ other (latest_snapshot-Answer snaps))
    | inl mine ↦
        let i = latest_from-Improves s snaps mine in
        rw (mine, i.result)
          (record {
            listed = elim i.origin [ inl e ↦ Memᴰ.head (sym e) | inr m ↦ Memᴰ.tail m ];
            grouped = i.grouped;
            newest = ((λ h. not-gt_of_Beats s i.best i.beats), i.newest);
          })
  ]

-- A composed reference splits at its slashes into exactly the type, the identifier and the time,
-- where none of these holds a slash.
pub split-compose_snapshot_ref :
    {F : Type 0} (clock : Clock F) (t id : String) (time : F)
    → Free b'/' t
    → Free b'/' id
    → Free b'/' (clock.iso time)
    → split b'/' (compose_snapshot_ref clock t id time) ≡ t ∷ id ∷ clock.iso time ∷ []
unfolding compose_snapshot_ref
split-compose_snapshot_ref clock t id time ht hi hz =
    split-append b'/' "/" t (id +++ "/" +++ clock.iso time) refl ht
    ∙ ap (λ (l : List String). t ∷ l)
        (split-append b'/' "/" id (clock.iso time) refl hi
          ∙ ap (λ (l : List String). id ∷ l) (split-Free b'/' (clock.iso time) hz))
