-- ===== src/Status.antt =====
-- include/transactiondb.h: the status codes that the operations return, as `Result` for an operation
-- that hands a value over when it succeeds.

use transaction_db.Base.{◌≡◌, refl}

-- `enum tdb_status`, without `TDB_OK`.
pub data Failure : Type 0 where
  error busy locked nomem readonly ioerr corrupt notfound full : Failure
  constraint mismatch misuse range abort unsupported : Failure

-- A status with what an out parameter holds when the status is `TDB_OK`. `stuck` is no status: a loop
-- of the code has not ended when its fuel ran out, or the code has no defined behaviour.
pub data Result {ℓ} (A : Type ℓ) : Type ℓ where
  ok : A → Result A
  err : Failure → Result A
  stuck : Result A

infixl 5 ◌>>=◌ ◌>>◌
abbrev pub ◌>>=◌ {ℓ κ} : {A : Type ℓ} {B : Type κ} → Result A → (A → Result B) → Result B
err failure >>= next = err failure
stuck >>= next = stuck
ok value >>= next = next value

abbrev pub ◌>>◌ {ℓ κ} : {A : Type ℓ} {B : Type κ} → Result A → Result B → Result B
first >> second = first >>= λ _. second

module _ {ℓ κ} {A : Type ℓ} {B : Type κ} where
  -- A chain that succeeded: what its first part handed over, and what the rest made of it.
  pub >>=-eq-ok :
      (first : Result A) (next : A → Result B) {out : B}
      → (first >>= next) ≡ ok out
      → (value : A) × (first ≡ ok value) × (next value ≡ ok out)
  >>=-eq-ok (err failure) next done = cc
  >>=-eq-ok stuck next done = cc
  >>=-eq-ok (ok value) next done = (value, refl, done)
