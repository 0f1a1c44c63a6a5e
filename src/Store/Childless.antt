-- ===== src/Store/Childless.antt =====
-- hasDirentChildren of store/store.go: a directory without entries.
use place.Common.{ℕ, ◌≡◌, refl, sym, ap, ◌∙◌, true, false, List, [], ◌∷◌, ◌++◌, none, arith, All}
use place.Common.Bytes.{IsByte, put_be-IsByte}
use place.Common.Lex.{has_prefix}
use place.Errors.{ok, ok_inj}
use place.Keys.{dirent_key, dirent_prefix, prefix_upper_bound}
use place.Kv.{Bytes, Pebble}
use place.Kv.Entries.{entry, range}
use place.Kv.Entries.Lookup.{entry-range}
use place.Kv.Laws.{Laws, iter_lem}
use place.Kv.Names.{in_prefix_range}
use place.Store.{Store, has_dirent_children, has_entries}
use place.Store.View.{held}
use place.Store.Gone.{dirent_key-IsByte}

has_prefix-append : (xs ys : Bytes) → has_prefix xs (xs ++ ys) ≡ true
unfolding has_prefix
has_prefix-append [] ys = refl
has_prefix-append (x ∷ xs) ys = ground (arith, has_prefix-append xs ys)

dirent_key-has_prefix : (q : ℕ) (m : Bytes) → has_prefix (dirent_prefix q) (dirent_key q m) ≡ true
unfolding dirent_prefix dirent_key
dirent_key-has_prefix q m = has_prefix-append (dirent_prefix q) m

dirent_prefix-IsByte : (q : ℕ) → All IsByte (dirent_prefix q)
unfolding dirent_prefix
dirent_prefix-IsByte q = (omega arith, put_be-IsByte 8 q)

nothing_found : (l : List (Bytes × Bytes)) → has_entries l ≡ false → l ≡ []
nothing_found [] e = refl
nothing_found (x ∷ l) e = absurd (ground arith)

module _ {p : Pebble} (laws : Laws p) (s : Store p) (parent : ℕ) where
  abbrev children : List (Bytes × Bytes)
  children =
      range (laws.entries s.index.db) (dirent_prefix parent)
        (prefix_upper_bound (dirent_prefix parent))

  -- No name has an entry in a directory that has no children.
  pub has_dirent_children-held :
      has_dirent_children s parent ≡ ok false
      → (m : Bytes) → All IsByte m
      → held laws s (dirent_key parent m) ≡ none
  unfolding has_dirent_children entry
  has_dirent_children-held e m bytes =
      let found =
        rw
          (
            has_dirent_children,
            iter_lem p laws s.index.db (dirent_prefix parent)
                (prefix_upper_bound (dirent_prefix parent)),
          )
          at e in
      let scanned =
        entry-range (laws.entries s.index.db) (dirent_prefix parent)
          (prefix_upper_bound (dirent_prefix parent)) (dirent_key parent m) in
      let in_range =
        in_prefix_range (dirent_prefix parent) (dirent_key parent m) (dirent_prefix-IsByte parent)
          (dirent_key-IsByte parent m bytes) in
      sym (rw (in_range, dirent_key-has_prefix parent m) at scanned)
      ∙ ap (λ l. entry l (dirent_key parent m))
          (nothing_found children (ok_inj (has_entries children) false found))
