-- ===== src/Kv/Migrate/Interrupted.antt =====
-- MigrateFromBolt where it fails, and the starts after it.
use place.Common.{◌≡◌, refl, ap, ◌∙◌, ◌⊎◌, inl, inr, Bool, true, false, none, some, arith}
use place.Errors.{Error, Result, ok, err}
use place.Kv.{Pebble}
use place.Kv.Migrate.{
  Bbolt, Files, MigrateFaults, retire, unless, copy_all, migrate_from_bolt, open_database,
}

unless_err {ℓ} :
    {A : Type ℓ} (failed : Bool) (x e : Error) (before after : A) (rest : A × Result (Unit {0}))
    → unless failed x before rest ≡ (after, err e)
    → (before ≡ after) ⊎ (rest ≡ (after, err e))
unless_err true x e before after rest h = inl (λ i. (h i).0)
unless_err false x e before after rest h = inr h

module _ {p : Pebble} {bolt : Bbolt} (fresh : p.Db) (src : bolt.Db) (files' : Files p bolt)
    (e : Error) where
  retire_err :
      (faults : MigrateFaults) (x : p.Db × Result (Unit {0}))
      → retire fresh faults src x ≡ (files', err e)
      → ◌≡◌ {A = Files p bolt} (record { legacy = some src; pebble = some x.0 }) files'
  retire_err faults (dst, err x) h = λ i. (h i).0
  retire_err faults (dst, ok u) h = elim (unless_err faults.close_fails _ e _ files' _ h) [
    | inl same ↦ same
    | inr closed ↦ elim (unless_err faults.rename_fails _ e _ files' _ closed) [
      | inl same ↦ same
      | inr renamed ↦ absurd (ground arith)
    ]
  ]

  -- Nothing was begun before the copy.
  not_begun :
      (dst : p.Db)
      → ◌≡◌ {A = Files p bolt} (record { legacy = some src; pebble = none }) files'
      → files'.pebble ≡ some dst
      → ⊥
  not_begun dst same made = ground (arith, ap (λ (f : Files p bolt). f.pebble) same ∙ made)

  begun_inv :
      (faults : MigrateFaults) (dst : p.Db)
      → migrate_from_bolt fresh faults (record { legacy = some src; pebble = none })
        ≡ (files', err e)
      → files'.pebble ≡ some dst
      → ◌≡◌ {A = Files p bolt}
          (record { legacy = some src; pebble = some (copy_all p bolt src fresh).0 })
          files'
  unfolding migrate_from_bolt
  begun_inv faults dst h made = elim (unless_err faults.stat_fails _ e _ files' _ h) [
    | inl same ↦ absurd (not_begun dst same made)
    | inr there ↦ elim (unless_err faults.bolt_open_fails _ e _ files' _ there) [
      | inl same ↦ absurd (not_begun dst same made)
      | inr bolt_open ↦ elim (unless_err faults.open_fails _ e _ files' _ bolt_open) [
        | inl same ↦ absurd (not_begun dst same made)
        | inr opened ↦ retire_err faults (copy_all p bolt src fresh) opened
      ]
    ]
  ]

  -- A migration that fails once pebble's database exists is not taken up again: any later start, where
  -- the legacy file can be looked at and pebble opened, succeeds on the database as the copy had left
  -- it, changes no file, and leaves the legacy file where it is.
  pub open_database-interrupted :
      (faults later : MigrateFaults) (dst : p.Db)
      → migrate_from_bolt fresh faults (record { legacy = some src; pebble = none })
        ≡ (files', err e)
      → files'.pebble ≡ some dst
      → later.stat_fails ≡ false
      → later.open_fails ≡ false
      → (open_database fresh later files' ≡ (files', ok (copy_all p bolt src fresh).0))
        × (files'.legacy ≡ some src)
  unfolding open_database migrate_from_bolt
  open_database-interrupted faults later dst h made seen openable =
      rw (← begun_inv faults dst h made) (rw (seen, openable) refl, refl)
