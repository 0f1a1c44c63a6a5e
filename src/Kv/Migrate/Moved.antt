-- ===== src/Kv/Migrate/Moved.antt =====
-- MigrateFromBolt where it succeeds: what each key of pebble has.
use place.Common.{
  ℕ, ◌≡◌, refl, sym, ap, ◌∙◌, Bool, true, false, List, [], ◌∷◌, Option, none, some, arith, ◌==◌,
  if◌then◌else◌, Bool-cases, inl, inr, eq_of_==,
}
use place.Errors.{Error, Result, ok, err}
use place.Keys.{tag_node, tag_dirent, tag_stripe, store_next_inode_key}
use place.Kv.{Bytes, Op, put, Pebble, new_batch, set}
use place.Kv.Entries.{entry, bytes_eq, apply_ops, IsSorted}
use place.Kv.Entries.Lookup.{last_op, entry-apply_ops}
use place.Kv.Laws.{Laws, commit_lem}
use place.Kv.Migrate.{
  Bbolt, Files, MigrateFaults, meta_bucket, nodes_bucket, dirents_bucket, stripes_bucket,
  copy_found, copy_bucket, next_inode_of, put_next_inode, copy_all, retire, unless,
  migrate_from_bolt, map_node, map_dirent, map_stripe, ◌then◌,
}
use place.Kv.Migrate.Names.{Tags, map_node-Tags, map_dirent-Tags, map_stripe-Tags}
use place.Kv.Migrate.Copied.{puts, KeyBytes, or_old, last_op-puts, last_op-puts_nil, copy_loop-puts}

module _ (bolt : Bbolt) where
  abbrev pub pairs : Option bolt.Bucket → List (Bytes × Bytes)
  pairs none = []
  pairs (some b) = bolt.for_each b

  -- What bbolt documents of ForEach: the keys of a bucket, each once, in the order of their bytes.
  abbrev pub IsBucket : List (Bytes × Bytes) → Type 0
  IsBucket l = KeyBytes l × IsSorted l

  pub record HasBuckets (src : bolt.Db) : Type 0 where
    pub nodes : IsBucket (pairs (bolt.tx_bucket src nodes_bucket))
    pub dirents : IsBucket (pairs (bolt.tx_bucket src dirents_bucket))
    pub stripes : IsBucket (pairs (bolt.tx_bucket src stripes_bucket))

  -- Where a key of pebble's was in the legacy database.
  abbrev pub legacy_entry : bolt.Db → Bytes → Option Bytes
  legacy_entry src [] = none
  legacy_entry src (tag ∷ k) =
      if tag_stripe == tag
      then entry (pairs (bolt.tx_bucket src stripes_bucket)) k
      else if tag_dirent == tag
      then entry (pairs (bolt.tx_bucket src dirents_bucket)) k
      else if tag_node == tag
      then entry (pairs (bolt.tx_bucket src nodes_bucket)) k
      else if bytes_eq store_next_inode_key (tag ∷ k)
      then next_inode_of bolt (bolt.tx_bucket src meta_bucket)
      else none

module _ {p : Pebble} (laws : Laws p) (bolt : Bbolt) where
  -- Both parts of a chain succeeded.
  then_inv :
      (x : p.Db × Result (Unit {0})) (next : p.Db → p.Db × Result (Unit {0})) (dst' : p.Db)
      → ◌then◌ p x next ≡ (dst', ok tt)
      → (x.1 ≡ ok tt) × (next x.0 ≡ (dst', ok tt))
  then_inv (dst, err e) next dst' h = absurd (ground arith)
  then_inv (dst, ok u) next dst' h = (refl, h)

  copy_found-puts :
      (t : ℕ) (map_key : Bytes → Result Bytes) (found : Option bolt.Bucket) (dst dst' : p.Db)
      → Tags t map_key
      → KeyBytes (pairs bolt found)
      → copy_found p bolt found map_key dst ≡ (dst', ok tt)
      → laws.entries dst' ≡ apply_ops (puts t (pairs bolt found)) (laws.entries dst)
  unfolding apply_ops
  copy_found-puts t map_key none dst dst' tags h e = λ i. laws.entries (sym e i).0
  copy_found-puts t map_key (some b) dst dst' tags h e =
      copy_loop-puts laws map_key t tags dst dst' new_batch 0 (bolt.for_each b) h e

  abbrev next_ops : Option Bytes → List Op
  next_ops none = []
  next_ops (some v) = put store_next_inode_key v ∷ []

  put_next_inode-ops :
      (v : Option Bytes) (dst dst' : p.Db)
      → put_next_inode p bolt v dst ≡ (dst', ok tt)
      → laws.entries dst' ≡ apply_ops (next_ops v) (laws.entries dst)
  unfolding apply_ops set
  put_next_inode-ops none dst dst' e = λ i. laws.entries (sym e i).0
  put_next_inode-ops (some v) dst dst' e = commit_lem p laws dst dst' _ e

  module _ (src : bolt.Db) (good : HasBuckets bolt src) (dst dst' : p.Db)
      (copied : copy_all p bolt src dst ≡ (dst', ok tt)) where
    abbrev bucket : Bytes → List (Bytes × Bytes)
    bucket name = pairs bolt (bolt.tx_bucket src name)

    abbrev next_value : Option Bytes
    next_value = next_inode_of bolt (bolt.tx_bucket src meta_bucket)

    copy_all-ops :
        laws.entries dst'
        ≡ apply_ops (puts tag_stripe (bucket stripes_bucket)) (
            apply_ops (puts tag_dirent (bucket dirents_bucket)) (
              apply_ops
                (puts tag_node (bucket nodes_bucket))
                (apply_ops (next_ops next_value) (laws.entries dst))))
    unfolding copy_all
    copy_all-ops =
        let next : p.Db × Result (Unit {0}) = put_next_inode p bolt next_value dst in
        let nodes : p.Db × Result (Unit {0}) =
          ◌then◌ p next (copy_bucket p bolt src nodes_bucket map_node) in
        let dirents : p.Db × Result (Unit {0}) =
          ◌then◌ p nodes (copy_bucket p bolt src dirents_bucket map_dirent) in
        let (dirents_done, stripes_done) = then_inv dirents _ dst' copied in
        let (nodes_done, dirents_to) =
          then_inv nodes _ dirents.0 (λ i. (dirents.0, dirents_done i)) in
        let (next_done, nodes_to) = then_inv next _ nodes.0 (λ i. (nodes.0, nodes_done i)) in
        copy_found-puts tag_stripe map_stripe _ dirents.0 dst' map_stripe-Tags good.stripes.0
          stripes_done
        ∙ ap (apply_ops (puts tag_stripe (bucket stripes_bucket))) (
            copy_found-puts tag_dirent map_dirent _ nodes.0 dirents.0 map_dirent-Tags good.dirents.0
              dirents_to
            ∙ ap (apply_ops (puts tag_dirent (bucket dirents_bucket))) (
                copy_found-puts tag_node map_node _ next.0 nodes.0 map_node-Tags good.nodes.0
                  nodes_to
                ∙ ap (apply_ops (puts tag_node (bucket nodes_bucket)))
                    (put_next_inode-ops next_value dst next.0 (λ i. (next.0, next_done i)))))

    copy_all-entry :
        (empty : laws.entries dst ≡ []) (q : Bytes)
        → entry (laws.entries dst') q
          ≡ last_op (puts tag_stripe (bucket stripes_bucket)) q (
              last_op (puts tag_dirent (bucket dirents_bucket)) q (
                last_op
                  (puts tag_node (bucket nodes_bucket))
                  q
                  (last_op (next_ops next_value) q none)))
    unfolding entry
    copy_all-entry empty q =
        let stripes : List Op = puts tag_stripe (bucket stripes_bucket) in
        let dirents : List Op = puts tag_dirent (bucket dirents_bucket) in
        let nodes : List Op = puts tag_node (bucket nodes_bucket) in
        ap (λ l. entry l q) copy_all-ops
        ∙ entry-apply_ops stripes _ q
        ∙ ap (last_op stripes q) (
            entry-apply_ops dirents _ q
            ∙ ap (last_op dirents q) (
                entry-apply_ops nodes _ q
                ∙ ap (last_op nodes q) (
                    entry-apply_ops (next_ops next_value) (laws.entries dst) q
                    ∙ ap (λ l. last_op (next_ops next_value) q (entry l q)) empty)))

    last_op-next_ops :
        (u : ℕ) (k : Bytes) (v : Option Bytes)
        → last_op (next_ops v) (u ∷ k) none
          ≡ (if bytes_eq store_next_inode_key (u ∷ k) then v else none)
    unfolding last_op
    last_op-next_ops u k none = ground arith
    last_op-next_ops u k (some v) = refl

    or_old-none : (o : Option Bytes) → or_old o none ≡ o
    or_old-none none = refl
    or_old-none (some v) = refl

    last_op-next_ops_nil : (v : Option Bytes) → last_op (next_ops v) [] none ≡ none
    unfolding last_op bytes_eq
    last_op-next_ops_nil none = refl
    last_op-next_ops_nil (some v) = refl

    copy_all-legacy_entry :
        (empty : laws.entries dst ≡ []) (q : Bytes)
        → entry (laws.entries dst') q ≡ legacy_entry bolt src q
    unfolding bytes_eq
    copy_all-legacy_entry empty [] =
        copy_all-entry empty []
        ∙ rw
            (
              last_op-next_ops_nil next_value,
              last_op-puts_nil tag_node (bucket nodes_bucket),
              last_op-puts_nil tag_dirent (bucket dirents_bucket),
              last_op-puts_nil tag_stripe (bucket stripes_bucket),
            )
            refl
    copy_all-legacy_entry empty (u ∷ k) =
        copy_all-entry empty (u ∷ k)
        ∙ rw
            (
              last_op-puts tag_stripe (bucket stripes_bucket) u k _ good.stripes.1,
              last_op-puts tag_dirent (bucket dirents_bucket) u k _ good.dirents.1,
              last_op-puts tag_node (bucket nodes_bucket) u k _ good.nodes.1,
              last_op-next_ops u k next_value,
            )
            (elim (Bool-cases (tag_stripe == u)) [
              | inl stripe ↦
                  rw (← (eq_of_== tag_stripe u stripe))
                    (or_old-none (entry (bucket stripes_bucket) k))
              | inr other ↦ elim (Bool-cases (tag_dirent == u)) [
                | inl dirent ↦
                    rw (← (eq_of_== tag_dirent u dirent))
                      (or_old-none (entry (bucket dirents_bucket) k))
                | inr other' ↦ elim (Bool-cases (tag_node == u)) [
                  | inl node ↦
                      rw (← (eq_of_== tag_node u node))
                        (or_old-none (entry (bucket nodes_bucket) k))
                  | inr none_of ↦ rw (other, other', none_of) refl
                ]
              ]
            ])

unless_inv {ℓ} :
    {A : Type ℓ} (failed : Bool) (e : Error) (before after : A) (rest : A × Result (Unit {0}))
    → unless failed e before rest ≡ (after, ok tt)
    → rest ≡ (after, ok tt)
unless_inv true e before after rest h = absurd (ground arith)
unless_inv false e before after rest h = h

retire_inv :
    {p : Pebble} {bolt : Bbolt} (fresh : p.Db) (faults : MigrateFaults) (src : bolt.Db)
    (x : p.Db × Result (Unit {0})) (files' : Files p bolt)
    → retire fresh faults src x ≡ (files', ok tt)
    → (x.1 ≡ ok tt) × (◌≡◌ {A = Files p bolt} (record { legacy = none; pebble = some x.0 }) files')
retire_inv fresh faults src (dst, err e) files' h = absurd (ground arith)
retire_inv fresh faults src (dst, ok u) files' h = (
  refl,
  λ i.
      (unless_inv faults.rename_fails _ _ files' _ (unless_inv faults.close_fails _ _ files' _ h)
        i).0,
)

module _ {p : Pebble} (laws : Laws p) (bolt : Bbolt) (src : bolt.Db) (good : HasBuckets bolt src)
    (fresh : p.Db) (empty : laws.entries fresh ≡ []) (faults : MigrateFaults)
    (files' : Files p bolt)
    (done : migrate_from_bolt fresh faults (record { legacy = some src; pebble = none })
      ≡ (files', ok tt)) where
  -- MigrateFromBolt, where it succeeds on a legacy database and no pebble database, retires the legacy
  -- file and leaves a pebble database that has under each key what the legacy database had for it, and
  -- nothing else: a node, a dirent or a stripe under its tag and its legacy key, and the next inode. A
  -- new pebble database is empty, and a bucket's keys are of bytes and come once each, in order.
  pub migrate_from_bolt-entry :
      (dst : p.Db) × (files'.legacy ≡ none)
      × (files'.pebble ≡ some dst)
      × ((q : Bytes) → entry (laws.entries dst) q ≡ legacy_entry bolt src q)
  unfolding migrate_from_bolt
  migrate_from_bolt-entry =
      let x : p.Db × Result (Unit {0}) = copy_all p bolt src fresh in
      let (copied, same) = retire_inv fresh faults src x files' (
        unless_inv faults.open_fails _ _ files' _ (
          unless_inv faults.bolt_open_fails _ _ files' _
            (unless_inv faults.stat_fails _ _ files' _ done))) in
      (
        x.0,
        λ i. (sym same i).legacy,
        λ i. (sym same i).pebble,
        λ q. copy_all-legacy_entry laws bolt src good fresh x.0 (λ i. (x.0, copied i)) empty q,
      )
