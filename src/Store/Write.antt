-- ===== src/Store/Write.antt =====
-- store/handle.go, the write paths of a Handle that go around the buffer, and the update of a node's
-- size and times that they and the flush share.
use place.Common.{ℕ, ◌+◌, List, [], ◌∷◌, Option, none, some, ltb, if◌then◌else◌, length, Bool}
use place.Errors.{Error, Result, ok, err, ◌>>=◌}
use place.Keys.{node_key}
use place.Node.{Node, encode_node, decode_node}
use place.Kv.{Pebble, Batch, new_batch, set, get}
use place.Index.{Index}
use place.Index.Append.{Disk, append_to_with_tx_ctx}
use place.Index.Bulk.{BulkSession, new_bulk_session}
use place.Index.Bulk
use place.Store.{Store, decoded, or_fail, commit_store}

-- if end > n.Size { n.Size = end }; n.Mtime = now; n.Ctime = now
unfoldable pub written_node : Node → ℕ → ℕ → Node
written_node n end now = record n {
  size = if ltb n.size end then end else n.size;
  mtime = now;
  ctime = now;
}

module _ (p : Pebble) where
  -- The hook of a write: the node, read from the database, with its new size and times.
  unfoldable pub node_update : ℕ → ℕ → ℕ → p.Db → Batch → Result Batch
  node_update inode end now db b = do
    v ← get p db (node_key inode)
    blob ← or_fail v Error.no_node
    n ← decoded (decode_node blob)
    ok (set b (node_key inode) (encode_node (written_node n end now)))

module _ {p : Pebble} where
  -- The count of bytes that a write returns, or its error.
  abbrev pub with_count : Store p → ℕ → Index p × Result (Unit {0}) → Store p × Result ℕ
  with_count s n (idx, err e) = (record s { index = idx }, err e)
  with_count s n (idx, ok u) = (record s { index = idx }, ok n)

  -- `none` is the panic on an offset that no stripe holds.
  unfoldable pub write_at_tier_sync :
      Disk → Store p → ℕ → List ℕ → ℕ → ℕ → ℕ → Option (Store p × Result ℕ)
  write_at_tier_sync disk s inode written off tier now =
      elim (append_to_with_tx_ctx disk s.index inode off written tier
        (some (node_update p inode (off + length written) now))) [
          | none ↦ none
          | some r ↦ some (with_count s (length written) r)
        ]

pub record BulkWriter : Type 0 where
  pub sess : BulkSession
  pub max_end : ℕ

-- NewBulkWriter
abbrev pub new_bulk_writer : ℕ → ℕ → BulkWriter
new_bulk_writer inode tier = record { sess = new_bulk_session inode tier; max_end = 0 }

module _ {p : Pebble} where
  unfoldable pub write :
      Disk → Store p → BulkWriter → ℕ → List ℕ → Option (Store p × BulkWriter × Result (Unit {0}))
  write disk s b off [] = some (s, b, ok tt)
  write disk s b off (x ∷ payload) =
      let end = off + length (x ∷ payload) in
      let max_end = if ltb b.max_end end then end else b.max_end in
      elim (Bulk.write disk s.index b.sess off (x ∷ payload)) [
        | none ↦ none
        | some (idx, sess, r) ↦
            some (record s { index = idx }, record { sess = sess; max_end = max_end }, r)
      ]

  -- The second part of Commit: the node's size and times, in a batch of its own.
  unfoldable pub commit_node : Store p → ℕ → ℕ → ℕ → Store p × Result (Unit {0})
  commit_node s inode end now = elim (node_update p inode end now s.index.db new_batch) [
    | err e ↦ (s, err e)
    | ok batch ↦ commit_store s batch tt
  ]

  unfoldable pub commit : Store p → BulkWriter → Bool → ℕ → Store p × Result (Unit {0})
  commit s b sync_fails now =
      let (idx, r) = Bulk.commit s.index b.sess sync_fails in
      elim r [
        | err e ↦ (record s { index = idx }, err e)
        | ok u ↦ commit_node (record s { index = idx }) b.sess.inode b.max_end now
      ]

unfoldable pub abort : BulkWriter → BulkWriter
abort b = record b { sess = Bulk.abort b.sess }
