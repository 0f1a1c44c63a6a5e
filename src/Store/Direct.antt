-- ===== src/Store/Direct.antt =====
-- What a write that goes around the buffer leaves in the index and in the database.
use place.Common.{
  ℕ, ◌+◌, ◌*◌, ◌^◌, ◌≤◌, ◌<◌, ◌≡◌, refl, sym, ap, ◌∙◌, List, [], ◌∷◌, some, arith, All, length,
}
use place.Errors.{Result, ok, err, ok_inj}
use place.Kv.{Pebble}
use place.Kv.Entries.{entry}
use place.Kv.Laws.{Laws}
use place.Index.{Index}
use place.Index.Append.{AppendExtent, Disk, split_payload, append_batch_ctx, append_to_with_tx_ctx}
use place.Index.Pieces.{Pieces, split_payload_lem}
use place.Index.Staging.{Ready, along}
use place.Index.Committed.{Hook}
use place.Index.Appended.{Found, key_of}
use place.Index.Numbered.{Pieces-Numbered, Pieces-db, Pieces-Ready, Ready-fewer}
use place.Store.{Store}
use place.Store.Write.{node_update, write_at_tier_sync, with_count}
use place.Store.Written.{NodeWritten, append_batch_ctx-NodeWritten, append_batch_ctx-Kept}

append_to-split :
    {p : Pebble} (disk : Disk) (idx mid : Index p) (inode off x : ℕ) (xs : List ℕ) (tier : ℕ)
    (hook : Hook p) (es : List AppendExtent)
    → split_payload (length (x ∷ xs)) idx off (x ∷ xs) tier [] ≡ some (mid, es)
    → append_to_with_tx_ctx disk idx inode off (x ∷ xs) tier hook
      ≡ some (append_batch_ctx disk mid inode es hook)
unfolding append_to_with_tx_ctx
append_to-split disk idx mid inode off x xs tier hook es cut = rw (cut, append_to_with_tx_ctx) refl

with_count_inv :
    {p : Pebble} (s s' : Store p) (n n' : ℕ) (r : Index p × Result (Unit {0}))
    → with_count s n r ≡ (s', ok n')
    → (r.1 ≡ ok tt) × (r.0 ≡ s'.index) × (n ≡ n')
with_count_inv s s' n n' (idx, err x) e = absurd (ground arith)
with_count_inv s s' n n' (idx, ok u) e = (refl, ap (λ z. z.0.index) e, ok_inj n n' (λ i. (e i).1))

write_at_tier_sync-split :
    {p : Pebble} (disk : Disk) (s : Store p) (mid : Index p) (inode off x : ℕ) (xs : List ℕ)
    (tier now : ℕ) (es : List AppendExtent)
    → split_payload (length (x ∷ xs)) s.index off (x ∷ xs) tier [] ≡ some (mid, es)
    → write_at_tier_sync disk s inode (x ∷ xs) off tier now
      ≡ some (
          with_count s (length (x ∷ xs)) (
            append_batch_ctx disk mid inode es
              (some (node_update p inode (off + length (x ∷ xs)) now))))
unfolding write_at_tier_sync
write_at_tier_sync-split disk s mid inode off x xs tier now es cut =
    rw (append_to-split disk s.index mid inode off x xs tier _ es cut, write_at_tier_sync) refl

some_inj : {A : Type 0} (a b : A) → some a ≡ some b → a ≡ b
some_inj a b e = cc

-- The bytes are kept from `off` on in consecutive extents, each with a fragment at which a read gives
-- the extent's bytes, and the node has the size that reaches their end.
abbrev pub Kept : {p : Pebble} → Laws p → Store p → Store p → ℕ → ℕ → List ℕ → ℕ → ℕ → Type 0
Kept {p} laws s s' inode off written tier now =
    (es : List AppendExtent) × (mid : Index p) × Pieces s.index es off written tier mid
    × All (λ d. Found inode s'.index d (entry (laws.entries s'.index.db) (key_of inode s'.index d)))
        es
    × NodeWritten laws inode (off + length written) now s.index.db s'.index.db

module _ {p : Pebble} (laws : Laws p) (disk : Disk) (s s' : Store p) (inode off x : ℕ) (xs : List ℕ)
    (tier now n : ℕ) (fits : inode < 2 ^ 64) (stripes : 0 < s.index.stripe_size)
    (within : off + length (x ∷ xs) ≤ 2 ^ 32 * s.index.stripe_size)
    (short : length (x ∷ xs) < 2 ^ 32) (room : s.index.seq_gen + length (x ∷ xs) < 2 ^ 64)
    (ready : Ready (length (x ∷ xs)) s.index)
    (done : write_at_tier_sync disk s inode (x ∷ xs) off tier now ≡ some (s', ok n)) where
  abbrev end : ℕ
  end = off + length (x ∷ xs)

  kept :
      (es : List AppendExtent) (mid : Index p)
      → split_payload (length (x ∷ xs)) s.index off (x ∷ xs) tier [] ≡ some (mid, es)
      → Pieces s.index es off (x ∷ xs) tier mid
      → (n ≡ length (x ∷ xs)) × Kept laws s s' inode off (x ∷ xs) tier now
  kept [] mid cut pieces = absurd (cc)
  kept (e ∷ es) mid cut pieces =
      let hook : Hook p = some (node_update p inode end now) in
      let r : Index p × Result (Unit {0}) = append_batch_ctx disk mid inode (e ∷ es) hook in
      let (went, index, count) = with_count_inv s s' (length (x ∷ xs)) n r (
        some_inj _ (s', ok n)
          (sym (write_at_tier_sync-split disk s mid inode off x xs tier now (e ∷ es) cut)
            ∙ done)) in
      let (few, small, above, distinct) =
        Pieces-Numbered (e ∷ es) s.index mid off (x ∷ xs) tier pieces short room in
      let ready' : Ready (length (e ∷ es)) mid =
        Pieces-Ready (e ∷ es) (length (e ∷ es)) s.index mid off (x ∷ xs) tier pieces
          (Ready-fewer (length (e ∷ es)) (length (x ∷ xs)) s.index few ready) in
      let done' : append_batch_ctx disk mid inode (e ∷ es) hook ≡ (s'.index, ok tt) =
        λ i. (index i, went i) in
      (
        sym count,
        (
          e ∷ es,
          mid,
          pieces,
          append_batch_ctx-Kept laws mid s'.index inode end now e es disk fits ready' small done'
              distinct,
          along (λ db. NodeWritten laws inode end now db s'.index.db)
              (Pieces-db (e ∷ es) s.index mid off (x ∷ xs) tier pieces)
              (append_batch_ctx-NodeWritten laws mid s'.index inode end now e es disk fits ready'
                small done'),
        ),
      )

  -- A write around the buffer, where it succeeds, returns the length of what it wrote, keeps it in
  -- consecutive extents from the offset on, each with a fragment at which a read gives the extent's
  -- bytes, and gives the node the size that reaches its end and the time; every other node and entry
  -- is as it was. The write has a byte or more, is shorter than 2^32 bytes and ends within the 2^32
  -- stripes of a file, a stripe has a byte or more, the inode is a uint64, every open segment's count
  -- is its file's length and its id below the next one, and neither the segment ids nor the sequence
  -- numbers run out.
  pub write_at_tier_sync-Kept : (n ≡ length (x ∷ xs)) × Kept laws s s' inode off (x ∷ xs) tier now
  write_at_tier_sync-Kept =
      let (es, mid, cut, pieces) =
        split_payload_lem (length (x ∷ xs)) s.index off (x ∷ xs) tier [] stripes (omega arith)
          within in
      kept es mid cut pieces
