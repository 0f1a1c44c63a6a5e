-- ===== src/Errors.antt =====
-- The errors that the key/value wrapper, the index and the store return, and calls that may fail.
use place.Common.{◌≡◌, refl, ◌⊎◌, inl, inr, Bool, true, false}

pub data Error : Type 0 where
  db_failed commit_failed cancelled : Error
  straddles segment_failed segment_missing read_failed : Error
  not_exist exist not_dir is_dir not_empty invalid not_permitted dangling bad_blob no_node : Error
  bad_key already_migrated : Error

pub data Result {ℓ} (R : Type ℓ) : Type ℓ where
  err : (failure : Error) → Result R
  ok : (value : R) → Result R

-- if c { return e }
abbrev pub fail_if : Bool → Error → Result (Unit {0})
fail_if false failure = ok tt
fail_if true failure = err failure

-- A guard that passed.
pub fail_if-eq-ok : (c : Bool) (e : Error) (u : Unit {0}) → fail_if c e ≡ ok u → c ≡ false
fail_if-eq-ok true e u passed = absurd (cc)
fail_if-eq-ok false e u passed = refl

pub ok_inj {ℓ} : {R : Type ℓ} (x y : R) → ◌≡◌ {A = Result R} (ok x) (ok y) → x ≡ y
ok_inj x y same = cc

infixl 5 ◌>>=◌
-- if err != nil { return err }
abbrev pub ◌>>=◌ {ℓ κ} : {R : Type ℓ} {S : Type κ} → Result R → (R → Result S) → Result S
err failure >>= rest = err failure
ok value >>= rest = rest value

-- A chain that succeeds had every part succeed.
pub >>=-eq-ok {ℓ κ} :
    {R : Type ℓ} {S : Type κ} (call : Result R) (rest : R → Result S) {result : S}
    → (call >>= rest) ≡ ok result
    → (value : R) × (call ≡ ok value) × (rest value ≡ ok result)
>>=-eq-ok (err failure) rest done = absurd (cc)
>>=-eq-ok (ok value) rest done = (value, refl, done)

infixl 5 ◌>>◌
abbrev pub ◌>>◌ {ℓ} : {S : Type ℓ} → Result (Unit {0}) → Result S → Result S
first >> rest = first >>= λ checked. rest

-- A call succeeds or fails.
pub Result-cases {ℓ} :
    {R : Type ℓ} (call : Result R)
    → ((value : R) × (call ≡ ok value)) ⊎ ((failure : Error) × (call ≡ err failure))
Result-cases (ok value) = inl (value, refl)
Result-cases (err failure) = inr (failure, refl)
