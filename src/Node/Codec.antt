-- ===== src/Node/Codec.antt =====
-- A node survives its encoding.
use place.Common.{
  false, Bool-cases, inl, inr, drop-take, length-take_of_le, ℕ, ◌+◌, ◌-◌, ◌%◌, ◌^◌, ◌<◌, ◌≤◌, ◌≡◌,
  refl, sym, ap, ◌∙◌, List, [], arith, ltb, ltb_of_le, ltb_of_lt, length, take, drop, take-append,
}
use place.Common.Bytes.{put_le, le_at, from_le, from_le-put_le}
use place.Node.{
  Node, NodeError, ok, err, too_short, target_too_long, encode_node, decode_node, node_fixed_size,
}
use mathlib.Core.List.{append-nil}

-- The ranges of the code's types; sizes and times are int64 and not negative, and the target's length
-- is stored in 16 bits.
pub record Fits (n : Node) : Type 0 where
  pub inode_fits : n.inode < 2 ^ 64
  pub mode_fits : n.mode < 2 ^ 32
  pub nlink_fits : n.nlink < 2 ^ 32
  pub uid_fits : n.uid < 2 ^ 32
  pub gid_fits : n.gid < 2 ^ 32
  pub size_fits : n.size < 2 ^ 63
  pub mtime_fits : n.mtime < 2 ^ 63
  pub ctime_fits : n.ctime < 2 ^ 63
  pub atime_fits : n.atime < 2 ^ 63
  pub target_fits : length n.symlink_target < 2 ^ 16

length-encode_node : (n : Node) → length (encode_node n) ≡ 58 + length n.symlink_target
unfolding encode_node put_le
length-encode_node n = omega arith

target_length : (n : Node) → Fits n → le_at (encode_node n) 56 2 ≡ length n.symlink_target
unfolding encode_node put_le le_at
target_length n f =
    from_le-put_le 2 (length n.symlink_target % 2 ^ 16) (omega arith) ∙ omega (arith, f.target_fits)

take_all : (xs : List ℕ) → take (length xs) xs ≡ xs
take_all xs = ap (take (length xs)) (sym (append-nil xs)) ∙ take-append xs []

le_at-take : (off w k : ℕ) (buf : List ℕ) → off + w ≤ k → le_at (take k buf) off w ≡ le_at buf off w
unfolding le_at
le_at-take off w k buf h = ap from_le (drop-take off w k buf h)

target_bytes :
    (n : Node) (k : ℕ)
    → k ≡ length n.symlink_target
    → take k (drop node_fixed_size (encode_node n)) ≡ n.symlink_target
unfolding encode_node put_le
target_bytes n k e = rw e (take_all n.symlink_target)

module _ (n : Node) (f : Fits n) where
  fixed_fields :
      (target : List ℕ)
      → ok (record {
        inode = le_at (encode_node n) 0 8;
        mode = le_at (encode_node n) 8 4;
        nlink = le_at (encode_node n) 12 4;
        uid = le_at (encode_node n) 16 4;
        gid = le_at (encode_node n) 20 4;
        size = le_at (encode_node n) 24 8;
        mtime = le_at (encode_node n) 32 8;
        ctime = le_at (encode_node n) 40 8;
        atime = le_at (encode_node n) 48 8;
        symlink_target = target;
      })
        ≡ ok (record n { symlink_target = target })
  unfolding encode_node put_le le_at
  fixed_fields target = λ i. ok (record {
    inode = from_le-put_le 8 n.inode f.inode_fits i;
    mode = from_le-put_le 4 n.mode f.mode_fits i;
    nlink = from_le-put_le 4 n.nlink f.nlink_fits i;
    uid = from_le-put_le 4 n.uid f.uid_fits i;
    gid = from_le-put_le 4 n.gid f.gid_fits i;
    size = from_le-put_le 8 n.size (omega (arith, f.size_fits)) i;
    mtime = from_le-put_le 8 n.mtime (omega (arith, f.mtime_fits)) i;
    ctime = from_le-put_le 8 n.ctime (omega (arith, f.ctime_fits)) i;
    atime = from_le-put_le 8 n.atime (omega (arith, f.atime_fits)) i;
    symlink_target = target;
  })

-- Decoding an encoded node gives it back, where every field is in the range of its type and the
-- symlink target is shorter than 65536 bytes.
pub decode_node-encode_node : (n : Node) → Fits n → decode_node (encode_node n) ≡ ok n
unfolding decode_node
decode_node-encode_node n f =
    rw
      (
        ltb_of_le (length (encode_node n)) 58 (omega (arith, length-encode_node n)),
        ltb_of_le (length (encode_node n) - 58) (le_at (encode_node n) 56 2)
            (omega (arith, length-encode_node n, target_length n f)),
      )
      (fixed_fields n f _
        ∙ ap (λ t. ok (record n { symlink_target = t }))
            (target_bytes n (le_at (encode_node n) 56 2) (target_length n f)))

-- An encoded node that was cut short at any byte is refused, under the same ranges.
pub decode_node-cut_short :
    (n : Node) (k : ℕ)
    → Fits n
    → k < length (encode_node n)
    → (e : NodeError) × (decode_node (take k (encode_node n)) ≡ err e)
unfolding decode_node
decode_node-cut_short n k f cut = elim (Bool-cases (ltb (length torn) 58)) [
  | inl short ↦ (too_short (length torn), rw short refl)
  | inr long ↦ (target_too_long (le_at torn 56 2), rw (long, ltb_of_lt _ _ (target_cut long)) refl)
]
  where
    torn : List ℕ
    torn = take k (encode_node n)

    length-torn : length torn ≡ k
    length-torn = length-take_of_le k (encode_node n) (omega arith)

    target_cut : ltb (length torn) 58 ≡ false → length torn - 58 < le_at torn 56 2
    target_cut long =
        let enough : 58 ≤ length torn = ground (arith, long) in
        omega (
          arith,
          length-torn,
          length-encode_node n,
          target_length n f,
          le_at-take 56 2 k (encode_node n) (omega (arith, length-torn)),
        )
