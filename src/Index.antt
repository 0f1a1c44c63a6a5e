-- ===== src/Index.antt =====
-- index/index.go, the state and what reads it, with the two operations that drop fragments. The
-- appends are in Append and Bulk; Upkeep counts stripes, and Move, Gc and Migrate rewrite or remove.
pub mod Append
pub mod Pieces
pub mod Written
pub mod Stored
pub mod Lasting
pub mod Staging
pub mod Committed
pub mod Aborted
pub mod Appended
pub mod Numbered
pub mod Bulk
pub mod Upkeep
pub mod Move
pub mod Copied
pub mod Moved
pub mod Gc
pub mod Migrate
pub mod Split
pub mod Conversion
pub mod Migrated
pub mod Open
pub mod Opened
pub mod Rekeyed
pub mod Relocated
pub mod Forget
mod Examples
use place.Common.{
  ℕ, ◌+◌, ◌-◌, ◌*◌, ◌/◌, ◌%◌, ◌^◌, Bool, true, false, List, [], ◌∷◌, ◌++◌, Option, none, some, ltb,
  leb, ◌==◌, if◌then◌else◌, length,
}
use place.Errors.{Error, Result, ok, err, ◌>>=◌}
use place.Keys.{
  fragment_stripe_prefix, stripe_prefix, prefix_upper_bound, is_fragment_key,
  stripe_id_from_fragment_key,
}
use place.Fragment.{
  Fragment, Locator, ReadSlice, decode_fragments, encode_fragments, plan_read, frag_end, tier_cold,
  sort_by,
}
use place.Segment.{Segment}
use place.Segment
use place.SegmentSet.{SegmentSet}
use place.SegmentSet
use place.Kv.{Bytes, Pebble, Batch, new_batch, set, delete, iter, commit}

pub record Index (p : Pebble) : Type 0 where
  pub stripe_size : ℕ
  pub db : p.Db
  pub hot : SegmentSet
  pub cold : SegmentSet
  pub seq_gen : ℕ

-- uint32(logicalOff / stripeSize)
unfoldable pub stripe_of : ℕ → ℕ → ℕ
stripe_of stripe_size logical_off = (logical_off / stripe_size) % 2 ^ 32

-- One decoded fragment of a value that the code reads as `decodeFragments(v)[0]`; `none` is its panic.
abbrev pub first_fragment : List Fragment → Option Fragment
first_fragment [] = none
first_fragment (f ∷ fs) = some f

-- The fragments under the keys of a scan.
unfoldable pub fragments_in : List (Bytes × Bytes) → List Fragment
fragments_in [] = []
fragments_in ((k, v) ∷ rest) =
    let more = fragments_in rest in if is_fragment_key k then decode_fragments v ++ more else more

unfoldable pub stripe_ids_in : List (Bytes × Bytes) → List ℕ
stripe_ids_in [] = []
stripe_ids_in ((k, v) ∷ rest) =
    let more = stripe_ids_in rest in
    if is_fragment_key k then stripe_id_from_fragment_key k ∷ more else more

-- One id of each run of equal ones: a set, once sorted.
unfoldable pub distinct : List ℕ → List ℕ
distinct [] = []
distinct (a ∷ []) = a ∷ []
distinct (a ∷ b ∷ l) = let rest = distinct (b ∷ l) in if a == b then rest else a ∷ rest

unfoldable pub keys_of : List (Bytes × Bytes) → List Bytes
keys_of [] = []
keys_of ((k, v) ∷ rest) = k ∷ keys_of rest

unfoldable pub delete_all : Batch → List Bytes → Batch
delete_all b [] = b
delete_all b (k ∷ ks) = delete_all (delete b k) ks

-- A fragment that begins at the size or past it goes, and one that reaches past it is clipped.
abbrev clip_entry : ℕ → Bytes → Fragment → Batch → Batch
clip_entry size k frag b =
    if leb size frag.logical_off
    then delete b k
    else if ltb size (frag_end frag)
    then set b k (encode_fragments (record frag { length = size - frag.logical_off } ∷ []))
    else b

-- What Truncate decides for one fragment key and value: to delete, to clip, or to leave it. The value
-- is read only if the stripe begins before the size; `none` is a panic on an empty value.
unfoldable pub truncate_entry : ℕ → ℕ → Bytes → Bytes → Batch → Option Batch
truncate_entry stripe_size size k v b =
    if leb size (stripe_id_from_fragment_key k * stripe_size)
    then some (delete b k)
    else elim (first_fragment (decode_fragments v)) [
      | none ↦ none
      | some f ↦ some (clip_entry size k f b)
    ]

-- The loop of Truncate, whose batch has the collected operations.
unfoldable pub truncate_ops : ℕ → ℕ → List (Bytes × Bytes) → Batch → Option Batch
truncate_ops stripe_size size [] b = some b
truncate_ops stripe_size size ((k, v) ∷ rest) b = elim (is_fragment_key k) [
  | false ↦ truncate_ops stripe_size size rest b
  | true ↦ elim (truncate_entry stripe_size size k v b) [
    | none ↦ none
    | some b' ↦ truncate_ops stripe_size size rest b'
  ]
]

unfoldable pub used_bytes : List Segment → ℕ
used_bytes [] = 0
used_bytes (s ∷ l) = s.size + used_bytes l

abbrev pub read_result : Segment.Result (List ℕ) → Result (List ℕ)
read_result (Segment.ok bytes) = ok bytes
read_result (Segment.err e) = err Error.read_failed

module _ {p : Pebble} where
  abbrev pub set_for : Index p → ℕ → SegmentSet
  set_for idx tier = if tier == tier_cold then idx.cold else idx.hot

  abbrev pub with_set : Index p → ℕ → SegmentSet → Index p
  with_set idx tier s =
      if tier == tier_cold then record idx { cold = s } else record idx { hot = s }

  -- nextSeq: the counter after it is the seq.
  abbrev pub bump_seq : Index p → Index p
  bump_seq idx = record idx { seq_gen = (idx.seq_gen + 1) % 2 ^ 64 }

  -- fragmentsInRange over the stripes from `first` to `last`.
  unfoldable pub fragments_in_stripes : Index p → ℕ → ℕ → ℕ → Result (List Fragment)
  fragments_in_stripes idx inode first last = do
    let lo = fragment_stripe_prefix inode first
    let hi =
        if last == 2 ^ 32 - 1
        then prefix_upper_bound (stripe_prefix inode)
        else some (fragment_stripe_prefix inode (last + 1))
    entries ← iter p idx.db lo hi
    ok (fragments_in entries)

  unfoldable pub fragments_in_range : Index p → ℕ → ℕ → ℕ → Result (List Fragment)
  fragments_in_range idx inode off len =
      if len == 0
      then ok []
      else fragments_in_stripes idx inode (stripe_of idx.stripe_size off)
          (stripe_of idx.stripe_size (off + len - 1))

  unfoldable pub plan_read_ctx : Index p → ℕ → ℕ → ℕ → Result (List ReadSlice)
  plan_read_ctx idx inode off len = if len == 0 then ok [] else do
    frags ←
        fragments_in_stripes idx inode (stripe_of idx.stripe_size off)
          (stripe_of idx.stripe_size (off + len - 1))
    ok (plan_read frags off len)

  unfoldable pub fragments_of : Index p → ℕ → ℕ → Result (List Fragment)
  fragments_of idx inode stripe_id = do
    let prefix = fragment_stripe_prefix inode stripe_id
    entries ← iter p idx.db prefix (prefix_upper_bound prefix)
    ok (fragments_in entries)

  unfoldable pub stripes_of : Index p → ℕ → Result (List ℕ)
  stripes_of idx inode = do
    let prefix = stripe_prefix inode
    entries ← iter p idx.db prefix (prefix_upper_bound prefix)
    ok (distinct (sort_by ltb (stripe_ids_in entries)))

  -- ReadAtCtx for a destination of `n` bytes.
  unfoldable pub read_at : Index p → Locator → ℕ → Result (List ℕ)
  read_at idx loc n = elim (SegmentSet.get (set_for idx loc.tier) loc.segment_id) [
    | none ↦ err Error.segment_missing
    | some seg ↦
        read_result (Segment.read_at seg loc.offset (if ltb loc.length n then loc.length else n))
  ]

  unfoldable pub hot_used_bytes : Index p → ℕ
  hot_used_bytes idx = used_bytes idx.hot.segments

  -- A commit, and what the state is after it.
  abbrev pub commit_index : Index p → Batch → Index p × Result (Unit {0})
  commit_index idx b = let (db', r) = commit p idx.db b in (record idx { db = db' }, r)

  unfoldable pub delete_inode : Index p → ℕ → Index p × Result (Unit {0})
  delete_inode idx inode =
      let prefix = stripe_prefix inode in
      elim (iter p idx.db prefix (prefix_upper_bound prefix)) [
        | err e ↦ (idx, err e)
        | ok [] ↦ (idx, ok tt)
        | ok (e ∷ es) ↦ commit_index idx (delete_all new_batch (keys_of (e ∷ es)))
      ]

  -- `none` is a panic.
  unfoldable pub truncate : Index p → ℕ → ℕ → Option (Index p × Result (Unit {0}))
  truncate idx inode size =
      let prefix = stripe_prefix inode in
      elim (iter p idx.db prefix (prefix_upper_bound prefix)) [
        | err e ↦ some (idx, err e)
        | ok entries ↦ elim (truncate_ops idx.stripe_size size entries new_batch) [
          | none ↦ none
          | some b ↦ some (commit_index idx b)
        ]
      ]
