-- ===== src/Scenarios/Machinery.antt =====
-- Deep copies of the metadata, of a time and of a condition.
use cluster.Prelude.{◌≡◌, refl, arith}
use cluster.Api.{ObjectMeta}
use cluster.Copies.Memory.{
  Address, Cell, M, ◌>>=◌, pure, ListMeta, StoredObjectMeta, StoredListMeta,
}
use cluster.Copies.Views.{as_time, as_int64}
use cluster.Copies.Copy.{Machinery, unless_nil, copy_new, copy_map, copy_strings}
use cluster.Copies.Denotation.{IsObjectMeta}
use cluster.Copies.Combinators.{
  Copies, Copies-Same, Copies-like, Copies-both, Copies-struct, Copies-copy_new,
}
use cluster.Copies.Pointers.{Copies-unless_nil}
use cluster.Copies.Maps.{Copies-copy_map, Copies-copy_strings}
use cluster.Copies.Pipelines.{MachineryCopies}

abbrev copy_time : Address → M Address
copy_time = copy_new as_time Cell.time pure

abbrev copy_meta : StoredObjectMeta → M StoredObjectMeta
copy_meta x = do
  finalizers ← copy_strings x.finalizers
  at ← unless_nil x.deletion_timestamp copy_time
  labels ← copy_map x.labels
  owners ← copy_strings x.owners
  pure (record x {
    finalizers = finalizers;
    deletion_timestamp = at;
    labels = labels;
    owners = owners;
  })

abbrev copy_list_meta : StoredListMeta → M StoredListMeta
copy_list_meta x = do
  count ← unless_nil x.remaining_item_count (copy_new as_int64 Cell.int64 pure)
  pure (record x { remaining_item_count = count })

abbrev pub machinery : Machinery
machinery = record {
  copy_time = copy_time;
  copy_condition = pure;
  copy_object_meta = copy_meta;
  copy_list_meta = copy_list_meta;
}

copy_meta-Copies : Copies IsObjectMeta copy_meta
copy_meta-Copies =
    Copies-like
      (Copies-struct
        (λ (x : StoredObjectMeta). (x.finalizers, (x.deletion_timestamp, (x.labels, x.owners))))
        (λ x y. record x {
          finalizers = y.0;
          deletion_timestamp = y.1.0;
          labels = y.1.1.0;
          owners = y.1.1.1;
        })
        (λ (v : ObjectMeta). (v.finalizers, (v.deletion_timestamp, (v.labels, v.owners))))
        (λ x v. (x.name ≡ v.name) × (x.namespace ≡ v.namespace) × (x.generation ≡ v.generation))
        (Copies-both Copies-copy_strings (
          Copies-both
            (Copies-unless_nil (Copies-copy_new as_time Cell.time (λ x. refl) Copies-Same))
            (Copies-both Copies-copy_map Copies-copy_strings)))
        (λ x y v h. h) (λ x y. refl))
      (λ u x v r. (r.0.0, r.0.1.0, r.0.1.1.0, r.0.1.1.1, r.1.0, r.1.1, r.1.2))
      (λ u x v r. ((r.0, (r.1, (r.2, r.3))), (r.4, r.5, r.6))) (λ x h. ground arith)

pub machinery-MachineryCopies : MachineryCopies machinery
machinery-MachineryCopies = record {
  times = Copies-copy_new as_time Cell.time (λ x. refl) Copies-Same;
  conditions = Copies-Same;
  object_metas = copy_meta-Copies;
  list_metas =
      Copies-like
        (Copies-struct (λ (x : StoredListMeta). x.remaining_item_count)
          (λ x y. record x { remaining_item_count = y }) (λ (v : ListMeta). v.remaining_item_count)
          (λ x v. (x.resource_version ≡ v.resource_version) × (x.continue_token ≡ v.continue_token))
          (Copies-unless_nil (Copies-copy_new as_int64 Cell.int64 (λ x. refl) Copies-Same))
          (λ x y v h. h) (λ x y. refl))
        (λ u x v r. (r.0, r.1.0, r.1.1)) (λ u x v r. (r.0, (r.1, r.2))) (λ x h. refl);
}
