-- ===== src/Store/Written.antt =====
-- The writes that update a node in the batch of their fragments.
use place.Common.{
  ℕ, ◌^◌, ◌<◌, ◌≡◌, refl, sym, ap, ◌∙◌, false, List, [], ◌∷◌, Option, none, some, All, ◌==◌,
  if◌then◌else◌, length,
}
use place.Errors.{Error, ok, >>=-eq-ok, ok_inj}
use place.Keys.{fragment_key, node_key, dirent_key}
use place.Node.{Node, encode_node, decode_node}
use place.Node
use place.Fragment.{Fragment, encode_fragments}
use place.Kv.{Pebble, Batch, Bytes, new_batch, set, get}
use place.Kv.Entries.{entry, bytes_eq}
use place.Kv.Entries.Lookup.{last_op, last_op-set}
use place.Kv.Laws.{Laws, get_lem}
use place.Kv.Names.{bytes_eq-node_key, node-ne-dirent}
use place.Index.{Index}
use place.Index.Append.{AppendExtent, Disk, fragment_batch, append_batch_ctx}
use place.Index.Staging.{Ready}
use place.Index.Committed.{append_batch_ctx-committed}
use place.Index.Appended.{Spares, Found, key_of, Distinct, append_batch_ctx-Found}
use place.Store.{decoded, or_fail}
use place.Store.Write.{node_update, written_node}

fragment-ne-node : (i st q j : ℕ) → bytes_eq (fragment_key i st q) (node_key j) ≡ false
unfolding bytes_eq fragment_key node_key
fragment-ne-node i st q j = refl

node-ne-fragment : (j i st q : ℕ) → bytes_eq (node_key j) (fragment_key i st q) ≡ false
unfolding bytes_eq fragment_key node_key
node-ne-fragment j i st q = refl

fragment-ne-dirent :
    (i st q j : ℕ) (m : Bytes) → bytes_eq (fragment_key i st q) (dirent_key j m) ≡ false
unfolding bytes_eq fragment_key dirent_key
fragment-ne-dirent i st q j m = refl

-- A key that no fragment has is left alone.
last_op-fragment_batch :
    (inode : ℕ) (ys : List (ℕ × Fragment)) (b : Batch) (k : Bytes) (o : Option Bytes)
    → ((st q : ℕ) → bytes_eq (fragment_key inode st q) k ≡ false)
    → last_op (fragment_batch inode ys b) k o ≡ last_op b k o
unfolding fragment_batch
last_op-fragment_batch inode [] b k o apart = refl
last_op-fragment_batch inode ((st, f) ∷ ys) b k o apart =
    last_op-fragment_batch inode ys _ k o apart
    ∙ last_op-set b (fragment_key inode st f.seq) (encode_fragments (f ∷ [])) k o
    ∙ rw (apart st f.seq) refl

decoded_inv : (d : Node.Decoded) (n : Node) → decoded d ≡ ok n → d ≡ Node.ok n
unfolding decoded
decoded_inv (Node.ok m) n e = ap Node.ok (ok_inj m n e)
decoded_inv (Node.err x) n e = absurd (cc)

or_fail_inv : {A : Type 0} (o : Option A) (x : Error) (a : A) → or_fail o x ≡ ok a → o ≡ some a
or_fail_inv none x a e = absurd (cc)
or_fail_inv (some b) x a e = ap some (ok_inj b a e)

module _ {p : Pebble} (laws : Laws p) (inode end now : ℕ) where
  -- The node that the hook read, and the write that it adds.
  node_update_inv :
      (db : p.Db) (b b' : Batch)
      → node_update p inode end now db b ≡ ok b'
      → (n : Node) × (blob : Bytes) × (entry (laws.entries db) (node_key inode) ≡ some blob)
        × (decode_node blob ≡ Node.ok n)
        × (b' ≡ set b (node_key inode) (encode_node (written_node n end now)))
  unfolding node_update
  node_update_inv db b b' done =
      let (v, read, rest) = >>=-eq-ok (get p db (node_key inode)) _ done in
      let (blob, there, rest') = >>=-eq-ok (or_fail v Error.no_node) _ rest in
      let (n, well, made) = >>=-eq-ok (decoded (decode_node blob)) _ rest' in
      (
        n,
        blob,
        ok_inj _ v (sym (get_lem p laws db (node_key inode)) ∙ read)
            ∙ or_fail_inv v Error.no_node blob there,
        decoded_inv (decode_node blob) n well,
        sym (ok_inj _ b' made),
      )

  pub node_update-Spares : Spares p (some (node_update p inode end now))
  node_update-Spares idx b b' built i st q o =
      let (n, blob, there, well, same) = node_update_inv idx.db b b' built in
      ap (λ c. last_op c (fragment_key i st q) o) same
      ∙ last_op-set b (node_key inode) (encode_node (written_node n end now)) (fragment_key i st q)
          o
      ∙ rw (node-ne-fragment inode i st q) refl

-- The node of `inode` has its new size and times, and every other node and entry is as it was.
abbrev pub NodeWritten : {p : Pebble} → Laws p → ℕ → ℕ → ℕ → p.Db → p.Db → Type 0
NodeWritten laws inode end now db db' =
    (n : Node) × (blob : Bytes) × (entry (laws.entries db) (node_key inode) ≡ some blob)
    × (decode_node blob ≡ Node.ok n)
    × ((j : ℕ)
        → j < 2 ^ 64
        → entry (laws.entries db') (node_key j) ≡ (
            if inode == j
            then some (encode_node (written_node n end now))
            else entry (laws.entries db) (node_key j)))
    × ((q : ℕ) (m : Bytes)
        → entry (laws.entries db') (dirent_key q m) ≡ entry (laws.entries db) (dirent_key q m))

module _ {p : Pebble} (laws : Laws p) (idx idx' : Index p) (inode end now : ℕ) (e : AppendExtent)
    (es : List AppendExtent) (disk : Disk) (fits : inode < 2 ^ 64)
    (ready : Ready (length (e ∷ es)) idx) (small : All (λ d. length d.bytes < 2 ^ 32) (e ∷ es))
    (done : append_batch_ctx disk idx inode (e ∷ es) (some (node_update p inode end now))
      ≡ (idx', ok tt)) where
  pub append_batch_ctx-NodeWritten : NodeWritten laws inode end now idx.db idx'.db
  unfolding last_op
  append_batch_ctx-NodeWritten =
      let (out, b, built, there, at) =
        append_batch_ctx-committed laws idx idx' inode e es disk _ ready small done in
      let (n, blob, stored, well, same) = node_update_inv laws inode end now idx.db _ b built in
      let after : (k : Bytes)
          → ((st q : ℕ) → bytes_eq (fragment_key inode st q) k ≡ false)
          → entry (laws.entries idx'.db) k ≡ (
              if bytes_eq (node_key inode) k
              then some (encode_node (written_node n end now))
              else entry (laws.entries idx.db) k) =
        λ k apart.
          at k
          ∙ ap (λ c. last_op c k (entry (laws.entries idx.db) k)) same
          ∙ last_op-set (fragment_batch inode out new_batch) (node_key inode) _ k _
          ∙ ap
              (λ o.
                if bytes_eq (node_key inode) k
                then some (encode_node (written_node n end now))
                else o)
              (last_op-fragment_batch inode out new_batch k _ apart) in
      (
        n,
        blob,
        stored,
        well,
        λ j small_j.
            after (node_key j) (λ st q. fragment-ne-node inode st q j)
            ∙ rw (bytes_eq-node_key inode j fits small_j) refl,
        λ q m.
            after (dirent_key q m) (λ st s. fragment-ne-dirent inode st s q m)
            ∙ rw (node-ne-dirent inode q m) refl,
      )

  pub append_batch_ctx-Kept :
      Distinct (e ∷ es)
      → All (λ d. Found inode idx' d (entry (laws.entries idx'.db) (key_of inode idx' d))) (e ∷ es)
  append_batch_ctx-Kept distinct =
      append_batch_ctx-Found laws idx idx' inode e es disk _ (node_update-Spares laws inode end now)
        ready small distinct done
