-- ===== src/Manager/Database/Runs.antt =====
-- What the parts of an action (oathgate/src/database.rs) gave when it succeeded.
use oathgate.Common.{◌≡◌, refl, arith, Outcome, ok, err, panic}
use oathgate.Manager.Database.{Database, Error, Action, continue, ◌>>=◌}

module _ {A B : Type 0} where
  continued :
      (r : Outcome Error A × Database) (f : A → Action B) {b : B} {db' : Database}
      → continue f r ≡ (ok b, db')
      → (a : A) × (r.0 ≡ ok a) × (f a r.1 ≡ (ok b, db'))
  unfolding continue
  continued (ok a, db) f e = (a, refl, e)
  continued (err x, db) f e = absurd (ground (arith, e))
  continued (panic, db) f e = absurd (ground (arith, e))

  pub bind_ok :
      (m : Action A) (f : A → Action B) (db : Database) {b : B} {db' : Database}
      → (m >>= f) db ≡ (ok b, db')
      → (a : A) × ((m db).0 ≡ ok a) × (f a (m db).1 ≡ (ok b, db'))
  unfolding ◌>>=◌
  bind_ok m f db e = continued (m db) f e
