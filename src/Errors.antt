-- ===== src/Errors.antt =====
-- The sentinel errors of internal/assets (types.go, recording_capture.go, recording_package.go) and
-- the result of an operation that may fail with one. `unavailable` stands for the failure of a call
-- that leaves the process: a query, a queue, a blob store, a media tool.
use asset_api.Base.{if◌then◌else◌, ◌≡◌, ◌≢◌, refl, Bool, true, false, ◌⊎◌, inl, inr}

pub data Error : Type 0 where
  invalid_input invalid_upload not_found forbidden conflict : Error
  capture_missing_objects capture_expired package_too_large : Error
  -- the local sentinel of Confirm, and an index out of range
  needs_objects panicked : Error
  unavailable : Error

pub data Result {κ} (V : Type κ) : Type κ where
  err : Error → Result V
  ok : V → Result V

infixl 5 ◌>>=◌ ◌>>◌
abbrev pub ◌>>=◌ {μ ν} : {V : Type μ} {W : Type ν} → Result V → (V → Result W) → Result W
err x >>= next = err x
ok v >>= next = next v

-- `if err := r; err != nil { return err }`
abbrev pub ◌>>◌ {ν} : {W : Type ν} → Result (Unit {0}) → Result W → Result W
r >> next = r >>= λ done. next

-- `if !test { return e }`
abbrev pub guard : Bool → Error → Result (Unit {0})
guard false x = err x
guard true x = ok tt

pub >>=-eq-ok {μ ν} :
    {V : Type μ} {W : Type ν} (r : Result V) (next : V → Result W) {w : W}
    → (r >>= next) ≡ ok w
    → (v : V) × (r ≡ ok v) × (next v ≡ ok w)
>>=-eq-ok (err x) next p = cc
>>=-eq-ok (ok v) next p = (v, refl, p)

pub Result-cases {μ} :
    {V : Type μ} (r : Result V) → ((v : V) × (r ≡ ok v)) ⊎ ((x : Error) × (r ≡ err x))
Result-cases (err x) = inr (x, refl)
Result-cases (ok v) = inl (v, refl)

pub ok_injective {ℓ} : {A : Type ℓ} {a b : A} → ok a ≡ ok b → a ≡ b
ok_injective e = cc

-- A chain avoids an error that each of its steps avoids.
pub avoids->>= {ℓ κ} :
    {A : Type ℓ} {B : Type κ} (e : Error) (m : Result A) (f : A → Result B)
    → m ≢ err e
    → ((a : A) → m ≡ ok a → f a ≢ err e)
    → (m >>= f) ≢ err e
avoids->>= e (ok a) f h k = k a refl
avoids->>= e (err x) f h k = λ p. h cc

pub guard-eq-ok : (test : Bool) (e : Error) {u : Unit {0}} → guard test e ≡ ok u → test ≡ true
guard-eq-ok true e p = refl
guard-eq-ok false e p = absurd (cc)

pub err_not_ok {κ} : {V : Type κ} (e : Error) (v : V) → err e ≢ ok v
err_not_ok e v p = cc

-- A branch that succeeds, against one that fails.
pub then-eq-ok {κ} :
    {V : Type κ} (b : Bool) (r : Result V) (x : Error) {v : V}
    → (if b then r else err x) ≡ ok v
    → (b ≡ true) × (r ≡ ok v)
then-eq-ok true r x e = (refl, e)
then-eq-ok false r x e = absurd (err_not_ok x _ e)

pub else-eq-ok {κ} :
    {V : Type κ} (b : Bool) (r : Result V) (x : Error) {v : V}
    → (if b then err x else r) ≡ ok v
    → (b ≡ false) × (r ≡ ok v)
else-eq-ok true r x e = absurd (err_not_ok x _ e)
else-eq-ok false r x e = (refl, e)
