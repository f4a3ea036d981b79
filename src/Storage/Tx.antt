-- ===== src/Storage/Tx.antt =====
-- A method of an adapter inside one unit of work (db/postgres/connection.py). A raised exception
-- rolls the whole unit back, so that it carries no state.
use parts_bin.Prelude.{ℕ, ◌≡◌, refl, ap, Bool, true, false, arith, if◌then◌else◌}
use parts_bin.Storage.Rows.{Db}

-- `ErrorCode` of domain/errors.py
pub data ErrorCode : Type 0 where
  invalid_input part_not_found duplicate_part review_not_found domain_conflict : ErrorCode
  ambiguous_target approval_required enrichment_unavailable : ErrorCode

-- The exceptions of domain/repositories.py and agent_runtime/store.py, and Python's own.
pub data Failure : Type 0 where
  unavailable busy conflict value_error key_error : Failure
  runtime_selection unsupported_runtime not_initialized type_error : Failure
  -- a number that does not fit its column
  out_of_range : Failure
  -- `DomainError`
  domain_error : ErrorCode → Failure
  -- `ExecutionBusy`, with its `retry_after_seconds`
  execution_busy : ℕ → Failure

pub data Result {ℓ} (A : Type ℓ) : Type ℓ where
  ok : A → Result A
  err : Failure → Result A

abbrev pub Tx : Type 0 → Type 0
Tx A = Db → Result (A × Db)

module _ {A : Type 0} where
  abbrev pub pure : A → Tx A
  pure a db = ok (a, db)

  abbrev pub raise : Failure → Tx A
  raise e db = err e

  abbrev pub gets : (Db → A) → Tx A
  gets f db = ok (f db, db)

abbrev pub modify : (Db → Db) → Tx Unit
modify f db = ok (tt, f db)

infixl 5 ◌>>=◌ ◌>>◌
abbrev pub ◌>>=◌ : {A B : Type 0} → Tx A → (A → Tx B) → Tx B
◌>>=◌ m f db = elim (m db) [ ok r ↦ f r.0 r.1 | err e ↦ err e ]

abbrev pub ◌>>◌ : {B : Type 0} → Tx Unit → Tx B → Tx B
m >> k = m >>= λ _. k

-- `if test: raise e`
abbrev pub raise_if : Bool → Failure → Tx Unit
raise_if test e db = if test then err e else ok (tt, db)

-- `if test: m`
abbrev pub when : Bool → Tx Unit → Tx Unit
when test m db = if test then m db else ok (tt, db)

-- Inversion of a successful step and what follows it.
pub >>=-eq-ok :
    {A B : Type 0} (m : Tx A) (f : A → Tx B) (db : Db) {b : B} {db' : Db}
    → (m >>= f) db ≡ ok (b, db')
    → (a : A) × (mid : Db) × (m db ≡ ok (a, mid)) × (f a mid ≡ ok (b, db'))
>>=-eq-ok {A} {B} m f db {b} {db'} h = go (m db) refl h
  where
    go :
        (r : Result (A × Db))
        → m db ≡ r
        → (elim r [ ok p ↦ f p.0 p.1 | err e ↦ err e ]) ≡ ok (b, db')
        → (a : A) × (mid : Db) × (m db ≡ ok (a, mid)) × (f a mid ≡ ok (b, db'))
    go (ok (a, mid)) e k = (a, mid, e, k)
    go (err e) _ k = cc

pub raise_if-eq-ok :
    (test : Bool) (e : Failure) (db : Db) (u : Unit) (db' : Db)
    → raise_if test e db ≡ ok (u, db')
    → (test ≡ false) × (db ≡ db')
raise_if-eq-ok true e db u db' h = absurd (ground arith)
raise_if-eq-ok false e db u db' h = (refl, ground arith)

-- The first step of a method that succeeds, and a check that passes.
pub >>=-run :
    {A B : Type 0} (m : Tx A) (f : A → Tx B) (db : Db) (a : A) (mid : Db)
    → m db ≡ ok (a, mid)
    → (m >>= f) db ≡ f a mid
>>=-run {A} {B} m f db a mid h =
    ap (λ (r : Result (A × Db)). elim r [ ok p ↦ f p.0 p.1 | err e ↦ err e ]) h

pub raise_if-run :
    (test : Bool) (e : Failure) (db : Db) → test ≡ false → raise_if test e db ≡ ok (tt, db)
raise_if-run test e db h = ap (λ t. raise_if t e db) h

-- A check before what follows it: where the whole succeeds, the check passed.
pub raise_if_then-eq-ok :
    {B : Type 0} (test : Bool) (e : Failure) (k : Tx B) (db : Db) {b : B} {db' : Db}
    → (raise_if test e >> k) db ≡ ok (b, db')
    → (test ≡ false) × (k db ≡ ok (b, db'))
raise_if_then-eq-ok true e k db h = absurd (ground arith)
raise_if_then-eq-ok false e k db h = (refl, h)

pub ok-injective :
    {A : Type 0} {a b : A} {db db' : Db}
    → ◌≡◌ {A = Result (A × Db)} (ok (a, db)) (ok (b, db'))
    → (a ≡ b) × (db ≡ db')
ok-injective h = ground arith

pub ok_value-injective : {A : Type 0} {a b : A} → ◌≡◌ {A = Result A} (ok a) (ok b) → a ≡ b
ok_value-injective h = ground arith
