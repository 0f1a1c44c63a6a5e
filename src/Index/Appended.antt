-- ===== src/Index/Appended.antt =====
-- AppendBatchCtx: every extent of a batch can be read back.
use place.Common.{
  ℕ, ◌^◌, ◌<◌, ◌≡◌, refl, sym, ap, ◌∙◌, false, List, [], ◌∷◌, Option, none, some, arith, All,
  All-map, ◌==◌, length,
}
use place.Common.Bytes.{put_be, length-put_be}
use place.Errors.{ok, ok_inj}
use place.Keys.{fragment_key}
use place.Fragment.{Fragment, encode_fragments}
use place.Kv.{Pebble, Batch, Bytes, new_batch, set}
use place.Kv.Entries.{entry, bytes_eq, bytes_eq_self}
use place.Kv.Entries.Lookup.{last_op, last_op-set}
use place.Kv.Laws.{Laws}
use place.Kv.Names.{bytes_eq-append, bytes_eq-put_be}
use place.Index.{Index, stripe_of, read_at}
use place.Index.Append.{AppendExtent, Disk, fragment_at, fragment_batch, run_hook, append_batch_ctx}
use place.Index.Stored.{whole_of, read_at-Reads}
use place.Index.Staging.{Ready, Staged, along}
use place.Index.Committed.{Hook, append_batch_ctx-committed}

-- Fragments of one inode with other sequence numbers have other keys.
pub fragment_key_other :
    (inode st st' q q' : ℕ)
    → q < 2 ^ 64
    → q' < 2 ^ 64
    → (q == q') ≡ false
    → bytes_eq (fragment_key inode st q) (fragment_key inode st' q') ≡ false
unfolding bytes_eq fragment_key
fragment_key_other inode st st' q q' h h' ne =
    bytes_eq-append (put_be 8 inode) (put_be 8 inode) _ _ refl
    ∙ rw
        (
          bytes_eq-append (put_be 4 st) (put_be 4 st') (put_be 8 q) (put_be 8 q')
              (length-put_be 4 st ∙ sym (length-put_be 4 st')),
          bytes_eq-put_be 8 q q' h h',
          ne,
        )
        (ground arith)

-- The sequence numbers of the extents are uint64 and all different.
abbrev pub Distinct : List AppendExtent → Type 0
Distinct [] = Unit {0}
Distinct (e ∷ es) = (e.seq < 2 ^ 64) × All (λ d. (d.seq == e.seq) ≡ false) es × Distinct es

module _ {p : Pebble} (inode : ℕ) (idx : Index p) where
  abbrev pub key_of : AppendExtent → Bytes
  key_of e = fragment_key inode (stripe_of idx.stripe_size e.off) e.seq

  batch_rest :
      (es : List AppendExtent) (ys : List (ℕ × Fragment)) (b : Batch) (st q : ℕ) (o : Option Bytes)
      → Staged idx es ys
      → Distinct es
      → All (λ d. (d.seq == q) ≡ false) es
      → q < 2 ^ 64
      → last_op (fragment_batch inode ys b) (fragment_key inode st q) o
        ≡ last_op b (fragment_key inode st q) o
  unfolding fragment_batch
  batch_rest [] ys b st q o staged distinct other small = rw staged refl
  batch_rest (e ∷ es) ys b st q o (y, rest, ys_is, (id, off, y_is, reads), staged) distinct other
        small =
      rw (ys_is, y_is, fragment_batch)
        (batch_rest es rest _ st q o staged distinct.2 other.1 small
          ∙ last_op-set b _ _ (fragment_key inode st q) o
          ∙ rw
              (fragment_key_other inode (stripe_of idx.stripe_size e.off) st e.seq q distinct.0
                small other.0)
              refl)

  -- What is stored for an extent, with a read of it.
  abbrev pub Found : AppendExtent → Option Bytes → Type 0
  Found e stored =
      (f : Fragment) × (stored ≡ some (encode_fragments (f ∷ [])))
      × (f.seq ≡ e.seq)
      × (f.logical_off ≡ e.off)
      × (f.length ≡ length e.bytes)
      × (f.tier ≡ e.tier)
      × (read_at idx (whole_of f) (length e.bytes) ≡ ok e.bytes)

  batch-Found :
      (es : List AppendExtent) (ys : List (ℕ × Fragment)) (b : Batch) (l : List (Bytes × Bytes))
      → Staged idx es ys
      → Distinct es
      → All (λ e. Found e (last_op (fragment_batch inode ys b) (key_of e) (entry l (key_of e)))) es
  unfolding fragment_batch
  batch-Found [] ys b l staged distinct = tt
  batch-Found (e ∷ es) ys b l (y, rest, ys_is, (id, off, y_is, reads), staged) distinct =
      let f : Fragment = fragment_at e id off in
      let b' : Batch = set b (key_of e) (encode_fragments (f ∷ [])) in
      let same : fragment_batch inode ys b ≡ fragment_batch inode rest b' =
        rw (ys_is, y_is, fragment_batch) refl in
      along (λ c. All (λ d. Found d (last_op c (key_of d) (entry l (key_of d)))) (e ∷ es))
        (sym same)
        (
          (
            f,
            batch_rest es rest b' (stripe_of idx.stripe_size e.off) e.seq (entry l (key_of e))
                  staged distinct.2 distinct.1 distinct.0
                ∙ last_op-set b (key_of e) (encode_fragments (f ∷ [])) (key_of e)
                    (entry l (key_of e))
                ∙ rw (bytes_eq_self (key_of e)) refl,
            refl,
            refl,
            refl,
            refl,
            read_at-Reads idx f e.bytes refl reads,
          ),
          batch-Found es rest b' l staged distinct.2,
        )

-- A hook whose writes are under no fragment key.
abbrev pub Spares : (p : Pebble) → Hook p → Type 0
Spares p hook =
    (idx : Index p) (b b' : Batch)
    → run_hook idx hook b ≡ ok b'
    → (inode st q : ℕ) (o : Option Bytes)
    → last_op b' (fragment_key inode st q) o ≡ last_op b (fragment_key inode st q) o

pub none-Spares : (p : Pebble) → Spares p none
none-Spares p idx b b' built inode st q o =
    ap (λ c. last_op c (fragment_key inode st q) o) (sym (ok_inj b b' built))

module _ {p : Pebble} (laws : Laws p) (idx idx' : Index p) (inode : ℕ) (e : AppendExtent)
    (es : List AppendExtent) (disk : Disk) (hook : Hook p) (spares : Spares p hook)
    (ready : Ready (length (e ∷ es)) idx) (small : All (λ d. length d.bytes < 2 ^ 32) (e ∷ es))
    (distinct : Distinct (e ∷ es))
    (done : append_batch_ctx disk idx inode (e ∷ es) hook ≡ (idx', ok tt)) where
  -- AppendBatchCtx, where it succeeds, leaves a fragment for each extent under the inode, the extent's
  -- stripe and its sequence number, and a read at that fragment gives the extent's bytes. The hook
  -- writes under no fragment key, every open segment's count is its file's length, the segment ids do
  -- not run out, the sequence numbers differ, and an extent is shorter than 2^32 bytes.
  pub append_batch_ctx-Found :
      All (λ d. Found inode idx' d (entry (laws.entries idx'.db) (key_of inode idx' d))) (e ∷ es)
  append_batch_ctx-Found =
      let (out, b, built, there, at) =
        append_batch_ctx-committed laws idx idx' inode e es disk hook ready small done in
      All-map (e ∷ es)
        (λ d found.
          along (Found inode idx' d)
            (sym (
              at (key_of inode idx' d)
              ∙ spares idx (fragment_batch inode out new_batch) b built inode
                  (stripe_of idx'.stripe_size d.off) d.seq
                  (entry (laws.entries idx.db) (key_of inode idx' d))))
            found)
        (batch-Found inode idx' (e ∷ es) out new_batch (laws.entries idx.db) there distinct)
