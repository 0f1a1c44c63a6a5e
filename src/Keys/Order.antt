-- ===== src/Keys/Order.antt =====
-- The byte order of the keys is the numeric order of their fields.
use place.Common.{ℕ, ◌^◌, ◌<◌, ◌≡◌, sym, ◌∙◌, true, false, ltb, if◌then◌else◌}
use place.Common.Bytes.{put_be, length-put_be}
use place.Common.Lex.{bytes_lt, bytes_lt-append, bytes_lt-put_be}
use place.Keys.{fragment_key}

-- Fragment keys sort by inode, then stripe id, then seq.
pub bytes_lt-fragment_key :
    (i s q i' s' q' : ℕ)
    → i < 2 ^ 64
    → s < 2 ^ 32
    → q < 2 ^ 64
    → i' < 2 ^ 64
    → s' < 2 ^ 32
    → q' < 2 ^ 64
    → bytes_lt (fragment_key i s q) (fragment_key i' s' q') ≡ (
        if ltb i i'
        then true
        else if ltb i' i
        then false
        else if ltb s s'
        then true
        else if ltb s' s
        then false
        else ltb q q')
unfolding fragment_key bytes_lt
bytes_lt-fragment_key i s q i' s' q' hi hs hq hi' hs' hq' = rw (
  bytes_lt-append (put_be 8 i) (put_be 8 i') _ _ (length-put_be 8 i ∙ sym (length-put_be 8 i')),
  bytes_lt-append (put_be 4 s) (put_be 4 s') _ _ (length-put_be 4 s ∙ sym (length-put_be 4 s')),
  bytes_lt-put_be 8 i i' hi hi',
  bytes_lt-put_be 8 i' i hi' hi,
  bytes_lt-put_be 4 s s' hs hs',
  bytes_lt-put_be 4 s' s hs' hs,
  bytes_lt-put_be 8 q q' hq hq',
)
