-- ===== src/Manager/Database/Keeps.antt =====
-- What an action (oathgate/src/database.rs) keeps true of the database, whether it succeeds or
-- fails: one rule for each way to build one.
use oathgate.Common.{◌≡◌, refl, Bool, true, false, if◌then◌else◌, Outcome, ok, err, panic}
use oathgate.Manager.Database.{
  Database, Error, Action, pure, raise, lift, continue, ◌>>=◌, finish, transaction, read,
}

pub record Keeps {A : Type 0} (P : Database → Type 0) (m : Action A) : Type 0 where
  pub at : (db : Database) → P db → P (m db).1

module _ {A : Type 0} {P : Database → Type 0} where
  pub pure-Keeps : (a : A) → Keeps P (pure a)
  unfolding pure
  pure-Keeps a = record { at = λ db h. h }

  pub raise-Keeps : (e : Error) → Keeps P (raise {A = A} e)
  unfolding raise
  raise-Keeps e = record { at = λ db h. h }

  pub lift-Keeps : (r : Outcome Error A) → Keeps P (lift r)
  unfolding lift
  lift-Keeps r = record { at = λ db h. h }

  pub read-Keeps : (f : Database → Outcome Error A) → Keeps P (read f)
  unfolding read lift
  read-Keeps f = record { at = λ db h. h }

  pub if-Keeps : (b : Bool) (m n : Action A) → Keeps P m → Keeps P n → Keeps P (if b then m else n)
  if-Keeps true m n km kn = km
  if-Keeps false m n km kn = kn

  finish-Keeps :
      (db : Database) (r : Outcome Error (A × Database))
      → P db
      → ((db' : Database) (a : A) → r ≡ ok (a, db') → P db')
      → P (finish db r).1
  unfolding finish
  finish-Keeps db (ok (a, db')) hdb h = h db' a refl
  finish-Keeps db (err x) hdb h = hdb
  finish-Keeps db panic hdb h = hdb

  -- A transaction that fails leaves the database as it was.
  pub transaction-Keeps :
      (f : Database → Outcome Error (A × Database))
      (h : (db db' : Database) (a : A) → P db → f db ≡ ok (a, db') → P db')
      → Keeps P (transaction f)
  unfolding transaction
  transaction-Keeps f h = record {
    at = λ db hdb. finish-Keeps db (f db) hdb (λ db' a e. h db db' a hdb e);
  }

module _ {A B : Type 0} {P : Database → Type 0} where
  continue-Keeps :
      (f : A → Action B) (h : (a : A) → Keeps P (f a)) (r : Outcome Error A) (db : Database)
      → P db
      → P (continue f (r, db)).1
  unfolding continue
  continue-Keeps f h (ok a) db hdb = (h a).at db hdb
  continue-Keeps f h (err e) db hdb = hdb
  continue-Keeps f h panic db hdb = hdb

  pub bind-Keeps :
      (m : Action A) (f : A → Action B) → Keeps P m → ((a : A) → Keeps P (f a)) → Keeps P (m >>= f)
  unfolding ◌>>=◌
  bind-Keeps m f km kf = record {
    at = λ db h. let (r, db') = m db in continue-Keeps f kf r db' (km.at db h);
  }

pub ruleset keeps_rules = (pure-Keeps, raise-Keeps, lift-Keeps, read-Keeps, if-Keeps, bind-Keeps)
