-- ===== src/Index/Opened.antt =====
-- Open of index/index.go: what it establishes for all that comes after it.
use place.Common.{
  ℕ, ◌+◌, ◌%◌, ◌^◌, ◌<◌, ◌≡◌, refl, sym, ap, ◌∙◌, Bool, List, [], ◌∷◌, arith, All, ltb, Bool-cases,
  Option-cases, inl, inr, length, take, length-take_of_le,
}
use place.Errors.{Result, ok, err, ok_inj, >>=-eq-ok}
use place.Fragment.{tier_hot, tier_cold, sort_by}
use place.Segment.{Segment, scan, done, failed, out_of_fuel, truncate, Scanned}
use place.Segment.Append.{InStep}
use place.SegmentSet.{SegmentSet, accept, cut_to, repair_segment, get_segment}
use place.SegmentSet
use place.SegmentSet.Names.{listed_ids}
use place.SegmentSet.Rotate.{delete_segment-All}
use place.SegmentSet.Open.{
  open_set, opened, open_loop, open_loop_step, activated_inv, open_set-IsValid, new_set,
}
use place.Kv.{Pebble}
use place.Kv.Laws.{Laws}
use place.Kv.Migrate.{Bbolt, Files, MigrateFaults, open_database}
use place.Index.{Index}
use place.Index.Append.{put_segment}
use place.Index.Written.{AllInStep, open_segment-InStep}
use place.Index.Lasting.{Sound, put_segment-All, get_segment-All}
use place.Index.Migrate.{no_legacy, scan_legacy, migrate_blobs_to_fragments}
use place.Index.Split.{blob_keys, blob_sets, seqs_of}
use place.Index.Conversion.{Single}
use place.Index.Migrated.{
  stripes, migrate_blobs_to_fragments-converted, migrate_blobs_to_fragments-sets,
}
use place.Index.Open.{
  Tier, in_index, open_tier, put_repaired, repair_tail, started, open_parts, open_index,
}

open_loop-InStep :
    (fails : ℕ → Bool) (ids : List ℕ) (set set' : SegmentSet)
    → open_loop fails ids set ≡ SegmentSet.ok set'
    → AllInStep set
    → AllInStep set'
unfolding open_loop opened
open_loop-InStep fails [] set set' e h = let same : set' ≡ set = ground arith in rw same h
open_loop-InStep fails (id ∷ ids) set set' e h =
    open_loop-InStep fails ids (opened set id) set' (open_loop_step fails id ids set set' e)
      (open_segment-InStep set.stray id, delete_segment-All InStep set.segments id h)

open_set-Sound :
    (tier max_size : ℕ) (files : List Segment) (listing : List ℕ) (fails : ℕ → Bool)
    (set : SegmentSet)
    → All (λ id. id + 1 < 2 ^ 32) listing
    → open_set tier max_size files listing fails ≡ SegmentSet.ok set
    → Sound set
open_set-Sound tier max_size files listing fails set room e =
    let ids = sort_by ltb listing in
    let start = new_set tier max_size files in
    let (s, all, same) = activated_inv ids (open_loop fails ids start) set (unfold open_set in e) in
    record {
      steps = rw same (open_loop-InStep fails ids start s all tt);
      below = (open_set-IsValid tier max_size files listing fails set room e).below;
    }

abbrev Same : Segment → Segment → Type 0
Same seg seg' = InStep seg' × (seg'.id ≡ seg.id)

cut_to-Same : (seg : Segment) (pos : ℕ) → InStep seg → Same seg (cut_to seg pos).0
unfolding cut_to truncate
cut_to-Same seg pos h = elim (Bool-cases (ltb pos seg.size)) [
  | inl shorter ↦
      let kept : length (take pos seg.bytes) ≡ pos =
        length-take_of_le pos seg.bytes (ground (arith, h, shorter)) in
      (ground (arith, shorter, kept), ground (arith, shorter))
  | inr whole ↦ rw whole (h, refl)
]

scanned-Same :
    (seg : Segment) (r : Scanned (Unit {0}))
    → scan accept seg tt ≡ r
    → InStep seg
    → Same seg (repair_segment seg).0
unfolding repair_segment
scanned-Same seg (done u pos) e h = rw (repair_segment, e) (cut_to-Same seg pos h)
scanned-Same seg failed e h = rw (repair_segment, e) (h, refl)
scanned-Same seg out_of_fuel e h = rw (repair_segment, e) (h, refl)

put_repaired-Sound :
    (set set' : SegmentSet) (seg : Segment) (r : Segment × SegmentSet.Result (Unit {0}))
    → Sound set
    → Same seg r.0
    → seg.id < set.next_id
    → put_repaired set r ≡ SegmentSet.ok set'
    → Sound set'
put_repaired-Sound set set' seg (seg', SegmentSet.err x) h same below e = absurd (ground arith)
put_repaired-Sound set set' seg (seg', SegmentSet.ok u) h same below e =
    let put : ◌≡◌ {A = SegmentSet} (record set { segments = put_segment set.segments seg' }) set' =
      ground arith in
    rw (← put) (record {
      steps = put_segment-All InStep set.segments seg' h.steps same.0;
      below =
          put_segment-All (λ t. t.id < set.next_id) set.segments seg' h.below
            (omega (arith, same.1, below));
    })

set_inj :
    (set set' : SegmentSet)
    → ◌≡◌ {A = SegmentSet.Result SegmentSet} (SegmentSet.ok set) (SegmentSet.ok set')
    → set ≡ set'
set_inj set set' e = cc

repair_tail-Sound :
    (set set' : SegmentSet) → Sound set → repair_tail set ≡ SegmentSet.ok set' → Sound set'
unfolding repair_tail
repair_tail-Sound set set' h e = elim (Option-cases set.active) [
  | inl idle ↦ rw (← set_inj set set' (rw (repair_tail, idle) at e)) h
  | inr (a, active) ↦ elim (Option-cases (get_segment set.segments a)) [
    | inl missing ↦ rw (← set_inj set set' (rw (repair_tail, active, missing) at e)) h
    | inr (seg, found) ↦
        put_repaired-Sound set set' seg (repair_segment seg) h
          (scanned-Same seg (scan accept seg tt) refl
            (get_segment-All InStep set.segments a seg h.steps found))
          (get_segment-All (λ t. t.id < set.next_id) set.segments a seg h.below found)
          (rw (repair_tail, active, found) at e)
  ]
]

in_index_inv :
    (r : SegmentSet.Result SegmentSet) (set : SegmentSet)
    → in_index r ≡ ok set
    → r ≡ SegmentSet.ok set
in_index_inv (SegmentSet.ok s) set e = ap SegmentSet.ok (ok_inj s set e)
in_index_inv (SegmentSet.err x) set e = absurd (ground arith)

open_tier-Sound :
    (tier max_size : ℕ) (dir : Tier) (set : SegmentSet)
    → All (λ id. id + 1 < 2 ^ 32) (listed_ids dir.listing)
    → open_tier tier max_size dir ≡ ok set
    → Sound set
open_tier-Sound tier max_size dir set room e = elim (Bool-cases dir.listing_fails) [
  | inl unlisted ↦ absurd (ground (arith, rw unlisted at e))
  | inr listed ↦
      open_set-Sound tier max_size dir.files (listed_ids dir.listing) dir.fails set room
        (in_index_inv _ set (rw listed at e))
]

started_inv :
    {p : Pebble} (idx' : Index p) (r : Index p × Result (Unit {0}))
    → started r ≡ ok idx'
    → r ≡ (idx', ok tt)
started_inv idx' (idx, err e) h = absurd (ground arith)
started_inv idx' (idx, ok u) h = ap (λ i. (i, ok tt)) (ok_inj idx idx' h)

module _ {p : Pebble} (stripe_size max_size now : ℕ) (hot cold : Tier) where
  open_parts-Sound :
      (db : p.Db) (idx : Index p)
      → All (λ id. id + 1 < 2 ^ 32) (listed_ids hot.listing)
      → All (λ id. id + 1 < 2 ^ 32) (listed_ids cold.listing)
      → open_parts stripe_size max_size now hot cold db ≡ ok idx
      → Sound idx.hot × Sound idx.cold × (idx.db ≡ db) × (idx.seq_gen ≡ now % 2 ^ 64)
  unfolding open_parts
  open_parts-Sound db idx hot_room cold_room e =
      let (h, h_opened, e1) = >>=-eq-ok (open_tier tier_hot max_size hot) _ e in
      let (c, c_opened, e2) = >>=-eq-ok (open_tier tier_cold max_size cold) _ e1 in
      let (h', h_cut, e3) = >>=-eq-ok (in_index (repair_tail h)) _ e2 in
      let (c', c_cut, e4) = >>=-eq-ok (in_index (repair_tail c)) _ e3 in
      rw (← ok_inj _ idx e4) (
        repair_tail-Sound h h' (open_tier-Sound tier_hot max_size hot h hot_room h_opened)
            (in_index_inv _ h' h_cut),
        repair_tail-Sound c c' (open_tier-Sound tier_cold max_size cold c cold_room c_opened)
            (in_index_inv _ c' c_cut),
        refl,
        refl,
      )

  -- An Open that returns an index has both tiers sound: every open segment's count is its file's
  -- length and its id below the next one. No blob is left in the database, and the counter is past
  -- every seq the database had. No file's id is the largest uint32, the clock is not 0, the largest
  -- seq is below 2^64 - 1, and no two fragments of the database's blobs have one key.
  pub open_index-Sound :
      {bolt : Bbolt} (laws : Laws p) (fresh : p.Db) (faults : MigrateFaults) (files : Files p bolt)
      (db : p.Db) (idx' : Index p)
      → All (λ id. id + 1 < 2 ^ 32) (listed_ids hot.listing)
      → All (λ id. id + 1 < 2 ^ 32) (listed_ids cold.listing)
      → 0 < now % 2 ^ 64
      → (open_database fresh faults files).1 ≡ ok db
      → (scan_legacy (stripes laws db) no_legacy).max_seq + 1 < 2 ^ 64
      → Single (blob_sets (stripes laws db))
      → open_index stripe_size max_size now hot cold fresh faults files ≡ ok idx'
      → Sound idx'.hot
        × Sound idx'.cold
        × (blob_keys (stripes laws idx'.db) ≡ [])
        × All (λ e. All (λ s. s < idx'.seq_gen) (seqs_of e)) (stripes laws db)
  unfolding open_index
  open_index-Sound laws fresh faults files db idx' hot_room cold_room clock there small single e =
      let (db', at, e1) = >>=-eq-ok (open_database fresh faults files).1 _ e in
      let (idx, parts, e2) = >>=-eq-ok (open_parts stripe_size max_size now hot cold db') _ e1 in
      let (hot_sound, cold_sound, db_is, gen_is) =
        open_parts-Sound db' idx hot_room cold_room parts in
      let same : idx.db ≡ db = db_is ∙ ok_inj db' db (sym at ∙ there) in
      let moved = started_inv idx' (migrate_blobs_to_fragments idx) e2 in
      let (hot_is, cold_is) = migrate_blobs_to_fragments-sets laws idx idx' moved in
      let (_, none_left, above) =
        migrate_blobs_to_fragments-converted laws idx idx' [] (rw gen_is clock) (rw same small)
          (rw same single) moved in
      (rw (← hot_is) hot_sound, rw (← cold_is) cold_sound, none_left, rw (← same) above)
