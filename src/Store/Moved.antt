-- ===== src/Store/Moved.antt =====
-- What Rename leaves in the database.
use place.Common.{
  ℕ, ◌^◌, ◌<◌, ◌≡◌, refl, sym, ap, ◌∙◌, Bool, true, false, ◌&&◌, Option, none, some, arith, All,
  ◌==◌, if◌then◌else◌, ==_self,
}
use place.Common.Bytes.{IsByte}
use place.Common.Lex.{has_prefix}
use place.Errors.{Error, Result, ok, err, ◌>>=◌, ◌>>◌, >>=-eq-ok, fail_if, fail_if-eq-ok, ok_inj}
use place.Keys.{node_key, dirent_key, stripe_prefix}
use place.Node.{Node, encode_node}
use place.Kv.{Bytes, Pebble, Batch, new_batch, set, delete}
use place.Kv.Entries.{bytes_eq}
use place.Kv.Entries.Lookup.{last_op, last_op-set, last_op-delete}
use place.Kv.Laws.{Laws}
use place.Kv.Names.{bytes_eq-node_key, bytes_eq-dirent_key, dirent-ne-node}
use place.Store.{
  Store, valid_name, stat, read_dirent, is_dir, has_dirent_children, fewer_links, more_links,
  require_dir, dirent_value,
}
use place.Store.Rename.{
  rename, rename_batch, renamed, require_no_cycle, replace_target, reparent, move_entry,
}
use place.Store.Childless.{has_dirent_children-held}
use place.Store.View.{held}
use place.Store.Gone.{
  held-then_free, node_key-IsByte, dirent_key-IsByte, stripe-apart-node, stripe-apart-dirent,
}

renamed_inv :
    {p : Pebble} (s s' : Store p) (r : Result (Option (Batch × Option ℕ)))
    → renamed s r ≡ (s', ok tt)
    → (x : Option (Batch × Option ℕ)) × (r ≡ ok x)
unfolding renamed
renamed_inv s s' (err e) h = absurd (ground arith)
renamed_inv s s' (ok x) h = (x, refl)

module _ {p : Pebble} (laws : Laws p) (s s' : Store p) (old_parent new_parent : ℕ)
    (old_name new_name : Bytes) (now : ℕ) (old_fits : old_parent < 2 ^ 64)
    (new_fits : new_parent < 2 ^ 64)
    (e : rename s old_parent old_name new_parent new_name now ≡ (s', ok tt)) where
  built :
      (x : Option (Batch × Option ℕ)) × (rename_batch s old_parent old_name new_parent new_name now
        ≡ ok x)
  unfolding rename
  built = renamed_inv s s' (rename_batch s old_parent old_name new_parent new_name now) e

  held_built :
      (b : Batch) (freed : Option ℕ) (q : Bytes)
      → All IsByte q
      → ((j : ℕ) → has_prefix (stripe_prefix j) q ≡ false)
      → rename_batch s old_parent old_name new_parent new_name now ≡ ok (some (b, freed))
      → held laws s' q ≡ last_op b q (held laws s q)
  unfolding rename renamed
  held_built b freed q bytes apart done =
      let (ops, f, same, at) =
        held-then_free laws s s' (ok (b, freed)) q bytes apart (ap (renamed s) (sym done) ∙ e) in
      at
      ∙ ap (λ c. last_op c q (held laws s q))
          (ap (λ (x : Batch × Option ℕ). x.0) (sym (ok_inj _ _ same)))

  module _ (src : ℕ) (src_node : Node) (there : read_dirent s old_parent old_name ≡ ok (some src))
      (at : stat s src ≡ ok src_node) where
    abbrev after_guards : Result (Option (Batch × Option ℕ))
    after_guards =
        require_no_cycle s src src_node new_parent
        >> (read_dirent s new_parent new_name >>= λ target. elim target [
          | none ↦
              move_entry s src src_node old_parent old_name new_parent new_name now
                (new_batch, none)
          | some dst ↦ elim (dst == src) [
            | true ↦ ok none
            | false ↦ replace_target s src_node new_parent dst now >>= λ replaced.
                move_entry s src src_node old_parent old_name new_parent new_name now replaced
          ]
        ])

    guarded : rename_batch s old_parent old_name new_parent new_name now ≡ after_guards
    unfolding rename_batch
    guarded =
        let (x, done) = built in
        let (u, valid_old, e1) = >>=-eq-ok (valid_name old_name) _ done in
        let (v, valid_new, e2) = >>=-eq-ok (valid_name new_name) _ e1 in
        let (w, dir, e3) = >>=-eq-ok (require_dir s new_parent) _ (rw (there, at) at e2) in
        rw (valid_old, valid_new, there, at, dir) refl

    abbrev moved : Batch
    moved =
        set (delete new_batch (dirent_key old_parent old_name)) (dirent_key new_parent new_name)
          (dirent_value src)

    module _ (file : is_dir src_node.mode ≡ false)
        (free : read_dirent s new_parent new_name ≡ ok none) where
      file_batch :
          rename_batch s old_parent old_name new_parent new_name now ≡ ok (some (moved, none))
      unfolding require_no_cycle move_entry reparent
      file_batch =
          guarded ∙ rw (file, free, require_no_cycle) (rw (file, move_entry, reparent) refl)

      -- Rename of a file to a name that is free moves its entry there: the old name is gone, the new
      -- one has the file's inode, and every node and every other entry is as it was. The inodes are
      -- uint64.
      pub rename-held :
          (i q : ℕ) (m : Bytes)
          → q < 2 ^ 64
          → All IsByte m
          → (held laws s' (node_key i) ≡ held laws s (node_key i))
            × (held laws s' (dirent_key q m) ≡ (
                if new_parent == q && bytes_eq new_name m
                then some (dirent_value src)
                else (if old_parent == q && bytes_eq old_name m
                    then none
                    else held laws s (dirent_key q m))))
      unfolding last_op
      rename-held i q m hq hm = (
        held_built moved none (node_key i) (node_key-IsByte i) (λ j. stripe-apart-node j i)
              file_batch
            ∙ rw (last_op-set, dirent-ne-node, last_op-delete, dirent-ne-node) refl,
        held_built moved none (dirent_key q m) (dirent_key-IsByte q m hm)
              (λ j. stripe-apart-dirent j q m) file_batch
            ∙ rw
                (
                  last_op-set,
                  bytes_eq-dirent_key new_parent q new_name m new_fits hq,
                  last_op-delete,
                  bytes_eq-dirent_key old_parent q old_name m old_fits hq,
                )
                refl,
      )

    module _ (dst : ℕ) (dst_node old_node new_node : Node) (dir : is_dir src_node.mode ≡ true)
        (taken : read_dirent s new_parent new_name ≡ ok (some dst)) (other : (dst == src) ≡ false)
        (dst_at : stat s dst ≡ ok dst_node) (dst_dir : is_dir dst_node.mode ≡ true)
        (apart : (old_parent == new_parent) ≡ false) (old_at : stat s old_parent ≡ ok old_node)
        (new_at : stat s new_parent ≡ ok new_node) where
      abbrev replaced : Batch
      replaced =
          set (delete new_batch (node_key dst)) (node_key new_parent)
            (encode_node (fewer_links new_node now))

      abbrev dir_ops : Batch
      dir_ops =
          set
            (set
              (set (delete replaced (dirent_key old_parent old_name))
                (dirent_key new_parent new_name) (dirent_value src))
              (node_key old_parent) (encode_node (fewer_links old_node now)))
            (node_key new_parent) (encode_node (more_links new_node now))

      -- What a target does, by whether it is the source.
      abbrev unless_same : Bool → Result (Option (Batch × Option ℕ))
      unless_same same = elim same [
        | true ↦ ok none
        | false ↦ replace_target s src_node new_parent dst now >>= λ freed.
            move_entry s src src_node old_parent old_name new_parent new_name now freed
      ]

      target_empty :
          (r : Batch × Option ℕ)
          → replace_target s src_node new_parent dst now ≡ ok r
          → has_dirent_children s dst ≡ ok false
      unfolding replace_target
      target_empty r put =
          let (w, children, e1) =
            >>=-eq-ok (has_dirent_children s dst) _
              (rw (dst_at, dir, dst_dir, replace_target) at put) in
          let (x, empty, e2) = >>=-eq-ok (fail_if w Error.not_empty) _ e1 in
          children ∙ ap ok (fail_if-eq-ok w Error.not_empty x empty)

      replaced_target :
          has_dirent_children s dst ≡ ok false
          → replace_target s src_node new_parent dst now ≡ ok (replaced, none)
      unfolding replace_target
      replaced_target empty = rw (dst_at, dir, dst_dir, replace_target) (rw (empty, new_at) refl)

      moved_dir :
          move_entry s src src_node old_parent old_name new_parent new_name now (replaced, none)
          ≡ ok (some (dir_ops, none))
      unfolding move_entry reparent
      moved_dir = rw (dir, apart, move_entry, reparent) (rw (old_at, new_at) refl)

      dir_batch :
          has_dirent_children s dst ≡ ok false
          → rename_batch s old_parent old_name new_parent new_name now ≡ ok (some (dir_ops, none))
      dir_batch empty =
          let (x, done) = built in
          let (u, acyclic, e1) =
            >>=-eq-ok (require_no_cycle s src src_node new_parent) _ (sym guarded ∙ done) in
          guarded
          ∙ rw (acyclic, taken) (ap unless_same other ∙ rw (replaced_target empty) moved_dir)

      -- Rename of a directory over another one in another parent succeeds only if no name has an entry
      -- in that one, and leaves the new parent with one link more than it had, although a subdirectory
      -- of it went as one came. The inodes are uint64, and names are of bytes.
      pub rename-more_links :
          (m : Bytes)
          → All IsByte m
          → (held laws s (dirent_key dst m) ≡ none)
            × (held laws s' (node_key new_parent) ≡ some (encode_node (more_links new_node now)))
      unfolding last_op
      rename-more_links m bytes =
          let (x, done) = built in
          let (u, acyclic, e1) =
            >>=-eq-ok (require_no_cycle s src src_node new_parent) _ (sym guarded ∙ done) in
          let (r, put, e2) =
            >>=-eq-ok (replace_target s src_node new_parent dst now) _
              (ap unless_same (sym other) ∙ rw taken at e1) in
          (
            has_dirent_children-held laws s dst (target_empty r put) m bytes,
            held_built dir_ops none (node_key new_parent) (node_key-IsByte new_parent)
                  (λ j. stripe-apart-node j new_parent) (dir_batch (target_empty r put))
                ∙ rw
                    (
                      last_op-set,
                      bytes_eq-node_key new_parent new_parent new_fits new_fits,
                      ==_self new_parent,
                    )
                    refl,
          )
