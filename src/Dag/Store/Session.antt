-- ===== src/Dag/Store/Session.antt =====
-- Code that runs against one store: it may raise, and it may change the store.
use db_version_control.Prelude.Errors.{Error, Result, ok, err}
use db_version_control.Dag.Store.{DagStore}

abbrev pub Session {ℓ} : Type ℓ → Type ℓ
Session A = DagStore → Result (A × DagStore)

module _ {ℓ} {A : Type ℓ} where
  abbrev pub pure : A → Session A
  pure a store = ok (a, store)

  abbrev pub raise : Error → Session A
  raise e store = err e

  -- A call that only reads the store.
  abbrev pub reads : (DagStore → Result A) → Session A
  reads f store = elim (f store) [ ok a ↦ ok (a, store) | err e ↦ err e ]

abbrev pub next {ℓ κ} :
    {A : Type ℓ} {B : Type κ}
    → Result (A × DagStore)
    → (A → DagStore → Result (B × DagStore))
    → Result (B × DagStore)
next (ok (a, store)) f = f a store
next (err e) f = err e

infixl 5 ◌>>=◌
abbrev pub ◌>>=◌ {ℓ κ} : {A : Type ℓ} {B : Type κ} → Session A → (A → Session B) → Session B
◌>>=◌ m f store = next (m store) f
