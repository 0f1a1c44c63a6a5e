-- ===== src/Fuse.antt =====
-- fuselayer/fuselayer.go: what the kernel is answered. An operation of the store, its error as an
-- errno, and a node's attributes. What go-fuse hands over (the caller's ids, the fields that are set)
-- is an argument.
pub mod Metrics
pub mod Answers
mod Examples
use place.Common.{ℕ, ◌+◌, ◌/◌, ◌%◌, ◌^◌, List, [], ◌∷◌, Option, none, some, ltb, if◌then◌else◌}
use place.Errors.{Error, Result, ok, err}
use place.Coalescer
use place.Node.{Node}
use place.Kv.{Bytes, Pebble}
use place.Fragment.{tier_hot}
use place.Store.{Store, is_dir, mode_mask, stat, open_inode}
use place.Store
use place.Store.Attr.{SetAttr, DirEntry, setattr}
use place.Store.Attr as Attributes
use place.Store.Create
use place.Store.Remove
use place.Store.Rename
use place.Store.Read
use place.Store.Flush.{write_at_tier_ctx}
use Prim.Native.Nat.{bit_and}

abbrev pub eio : ℕ
eio = 5

abbrev pub einval : ℕ
einval = 22

-- The syscall.Errno in the chain of an error; that of a failed call of the operating system is given
-- by `os`.
unfoldable pub as_errno : (Error → Option ℕ) → Error → Option ℕ
as_errno os Error.not_exist = some 2
as_errno os Error.exist = some 17
as_errno os Error.not_dir = some 20
as_errno os Error.is_dir = some 21
as_errno os Error.not_empty = some 39
as_errno os Error.invalid = some 22
as_errno os Error.not_permitted = some 1
as_errno os Error.straddles = none
as_errno os Error.segment_missing = none
as_errno os Error.dangling = none
as_errno os Error.bad_blob = none
as_errno os Error.no_node = none
as_errno os Error.bad_key = none
as_errno os Error.already_migrated = none
as_errno os Error.cancelled = none
as_errno os Error.db_failed = os Error.db_failed
as_errno os Error.commit_failed = os Error.commit_failed
as_errno os Error.segment_failed = os Error.segment_failed
as_errno os Error.read_failed = os Error.read_failed

abbrev pub or_eio : Option ℕ → ℕ
or_eio none = eio
or_eio (some e) = e

unfoldable pub errno : (Error → Option ℕ) → Error → ℕ
unfolding as_errno
errno os e = or_eio (as_errno os e)

-- The errno of the buffer's errors: those of a failed flush and of the store are passed on.
unfoldable pub buffer_errno : (Error → Option ℕ) → Coalescer.Error → ℕ
unfolding errno
buffer_errno os (Coalescer.flush_failed e) = errno os e
buffer_errno os (Coalescer.store_failed e) = errno os e
buffer_errno os Coalescer.closing = eio
buffer_errno os Coalescer.no_buffer = eio
buffer_errno os Coalescer.extent_gone = eio
buffer_errno os Coalescer.out_of_bounds = eio
buffer_errno os Coalescer.cancelled = eio

pub record Attr : Type 0 where
  pub mode : ℕ
  pub size : ℕ
  pub uid : ℕ
  pub gid : ℕ
  pub mtime : ℕ
  pub mtimensec : ℕ
  pub ctime : ℕ
  pub ctimensec : ℕ
  pub atime : ℕ
  pub atimensec : ℕ
  pub nlink : ℕ
  pub blksize : ℕ
  pub blocks : ℕ

abbrev pub second : ℕ
second = 1_000_000_000

unfoldable pub fill_attr : Node → Attr
fill_attr n = record {
  mode = n.mode;
  size = n.size;
  uid = n.uid;
  gid = n.gid;
  mtime = n.mtime / second;
  mtimensec = n.mtime % second;
  ctime = n.ctime / second;
  ctimensec = n.ctime % second;
  atime = n.atime / second;
  atimensec = n.atime % second;
  nlink = if is_dir n.mode then 2 else if ltb 0 n.nlink then n.nlink else 1;
  blksize = 4096;
  blocks = (n.size + 511) / 512;
}

pub record StableAttr : Type 0 where
  pub mode : ℕ
  pub ino : ℕ
  pub gen : ℕ

unfoldable pub stable_attr : Node → StableAttr
stable_attr n = record { mode = bit_and n.mode mode_mask; ino = n.inode; gen = 1 }

-- A new or found inode, as the kernel is told of it.
pub record Entry : Type 0 where
  pub attr : Attr
  pub stable : StableAttr

abbrev pub entry_of : Node → Entry
entry_of n = record { attr = fill_attr n; stable = stable_attr n }

-- An answer, or an errno; an answer's errno is 0.
pub data Reply {ℓ} (R : Type ℓ) : Type ℓ where
  done : R → Reply R
  fails : ℕ → Reply R

abbrev pub errno_of {ℓ} : {R : Type ℓ} → Reply R → ℕ
errno_of (done r) = 0
errno_of (fails e) = e

abbrev pub reply {ℓ κ} :
    {R : Type ℓ} {S : Type κ} → (Error → Option ℕ) → (R → S) → Result R → Reply S
reply os f (ok r) = done (f r)
reply os f (err e) = fails (errno os e)

abbrev pub reply_to {ℓ κ μ} :
    {T : Type μ} {R : Type ℓ} {S : Type κ}
    → (Error → Option ℕ)
    → (R → S)
    → T × Result R
    → T × Reply S
reply_to os f (s, r) = (s, reply os f r)

abbrev pub no_value : Unit {0} → Unit {0}
no_value u = u

-- callerCreds: root where there is no caller.
abbrev pub caller_creds : Option (ℕ × ℕ) → ℕ × ℕ
caller_creds none = (0, 0)
caller_creds (some ids) = ids

-- uint32(e.Mode) & uint32(store.ModeMask)
unfoldable pub dir_stream : List DirEntry → List DirEntry
dir_stream [] = []
dir_stream (e ∷ es) = record e { mode = bit_and e.mode mode_mask } ∷ dir_stream es

module _ {p : Pebble} (os : Error → Option ℕ) where
  unfoldable pub lookup : Store p → ℕ → Bytes → Reply Entry
  lookup s inode name = reply os entry_of (Store.lookup s inode name)

  unfoldable pub getattr : Store p → ℕ → Reply Attr
  getattr s inode = reply os fill_attr (stat s inode)

  -- Setattr; the fields that are set come from the request. `none` is a panic of Truncate.
  unfoldable pub set_attr : Store p → ℕ → SetAttr → ℕ → Option (Store p × Reply Attr)
  set_attr s inode given now = elim (setattr s inode given now) [
    | none ↦ none
    | some r ↦ some (reply_to os fill_attr r)
  ]

  -- Create and Open answer with a handle on the inode.
  unfoldable pub create : Store p → ℕ → Bytes → ℕ → Option (ℕ × ℕ) → ℕ → Store p × Reply (Entry × ℕ)
  create s inode name mode caller now =
      let (uid, gid) = caller_creds caller in
      reply_to os (λ (n : Node). (entry_of n, n.inode))
        (Create.create s inode name mode uid gid now)

  unfoldable pub open_file : Store p → ℕ → Reply ℕ
  open_file s inode = reply os (λ i. i) (open_inode s inode)

  unfoldable pub mkdir : Store p → ℕ → Bytes → ℕ → Option (ℕ × ℕ) → ℕ → Store p × Reply Entry
  mkdir s inode name mode caller now =
      let (uid, gid) = caller_creds caller in
      reply_to os entry_of (Create.mkdir s inode name mode uid gid now)

  unfoldable pub symlink : Store p → ℕ → Bytes → Bytes → Option (ℕ × ℕ) → ℕ → Store p × Reply Entry
  symlink s inode target name caller now =
      let (uid, gid) = caller_creds caller in
      reply_to os entry_of (Create.symlink s inode name target uid gid now)

  unfoldable pub readlink : Store p → ℕ → Reply Bytes
  readlink s inode = reply os (λ t. t) (Store.readlink s inode)

  -- The target and the new parent are nodes of this file system, or EINVAL.
  unfoldable pub link : Store p → ℕ → Option ℕ → Bytes → ℕ → Store p × Reply Entry
  link s inode none name now = (s, fails einval)
  link s inode (some target) name now = reply_to os entry_of (Create.link s target inode name now)

  unfoldable pub unlink : Store p → ℕ → Bytes → ℕ → Store p × Reply (Unit {0})
  unlink s inode name now = reply_to os no_value (Remove.unlink s inode name now)

  unfoldable pub rmdir : Store p → ℕ → Bytes → ℕ → Store p × Reply (Unit {0})
  rmdir s inode name now = reply_to os no_value (Remove.rmdir s inode name now)

  unfoldable pub rename : Store p → ℕ → Bytes → Option ℕ → Bytes → ℕ → Store p × Reply (Unit {0})
  rename s inode name none new_name now = (s, fails einval)
  rename s inode name (some parent) new_name now =
      reply_to os no_value (Rename.rename s inode name parent new_name now)

  unfoldable pub readdir : Store p → ℕ → Reply (List DirEntry)
  unfolding dir_stream
  readdir s inode = reply os dir_stream (Attributes.readdir s inode)

  unfoldable pub read : Store p → ℕ → List ℕ → ℕ → Reply (List ℕ)
  unfolding buffer_errno
  read s inode dest off = elim (Read.read_at s inode dest off) [
    | Coalescer.ok bytes ↦ done bytes
    | Coalescer.err e ↦ fails (buffer_errno os e)
  ]

  -- Write goes to the hot tier. `none` is the panic on an offset that no stripe holds.
  unfoldable pub write : Store p → ℕ → List ℕ → ℕ → ℕ → Option (Store p × Reply ℕ)
  unfolding buffer_errno
  write s inode written off now = elim (write_at_tier_ctx s inode written off tier_hot now) [
    | none ↦ none
    | some (s', Coalescer.ok n) ↦ some (s', done (n % 2 ^ 32))
    | some (s', Coalescer.err e) ↦ some (s', fails (buffer_errno os e))
  ]
