-- ===== src/Registry/Rules.antt =====
-- crates/artel-daemon/src/session.rs: a rule for each way in which an operation of the registry is
-- put together. A predicate on the registry that every part keeps is kept by the whole.
use artel.Common.{
  ◌≡◌, refl, Bool, true, false, Option, none, some, Result, ok, err, panic, if◌then◌else◌,
}
use artel.Common.Map
use artel.Protocol.Ids.{SessionId}
use artel.Session.{Session, SessionKind, local, remote}
use artel.Store.{Io, done, failed}
use artel.Registry.State.{Registry, Reply, with_store, with_session, with_local, stored, and_then}

module _ {σ : Type 0} (P : Registry σ → Type 0) where
  -- A storage call that fails ends the operation; the registry differs in the storage only.
  pub stored-keeps :
      {A B : Type 0} (x : Io A × σ) (r : Registry σ) (f : A → Registry σ → Reply σ B)
      → ((st : σ) → P (with_store st r))
      → ((a : A) (r1 : Registry σ) → P r1 → r1.sessions ≡ r.sessions → P (f a r1).1)
      → P (stored x r f).1
  unfolding with_store
  stored-keeps (done a, st) r f base step = step a (with_store st r) (base st) refl
  stored-keeps (failed e, st) r f base step = base st

  pub if-keeps :
      {A : Type 0} (c : Bool) (x y : Reply σ A)
      → (c ≡ true → P x.1)
      → (c ≡ false → P y.1)
      → P (if c then x else y).1
  if-keeps true x y t e = t refl
  if-keeps false x y t e = e refl

  pub and_then-keeps :
      {A B : Type 0} (x : Reply σ A) (f : A → Registry σ → Reply σ B)
      → P x.1
      → ((a : A) (r : Registry σ) → x.0 ≡ ok a → P r → P (f a r).1)
      → P (and_then x f).1
  and_then-keeps (ok a, r) f p step = step a r refl p
  and_then-keeps (err e, r) f p step = p
  and_then-keeps (panic, r) f p step = p

  -- A lookup, through any function of it.
  pub lookup-keeps :
      {A B : Type 0} (o : Option A) (d : B) (f : A → B) (g : B → Registry σ)
      → P (g d)
      → ((a : A) → o ≡ some a → P (g (f a)))
      → P (g (elim o [ none ↦ d | some a ↦ f a ]))
  lookup-keeps none d f g p step = p
  lookup-keeps (some a) d f g p step = step a refl

  pub with_session-keeps :
      {A : Type 0} (id : SessionId) (r : Registry σ) (f : Session → Reply σ A)
      → P r
      → ((s : Session) → Map.get id r.sessions ≡ some s → P (f s).1)
      → P (with_session id r f).1
  with_session-keeps id r f p step = lookup-keeps (Map.get id r.sessions) _ f (λ x. x.1) p step

  kind-keeps :
      {A : Type 0} (k : SessionKind) (x y : Reply σ A)
      → (k ≡ local → P x.1)
      → P y.1
      → (let z : Reply σ A = elim k [ local ↦ x | remote ↦ y ] in P z.1)
  kind-keeps local x y p q = p refl
  kind-keeps remote x y p q = q

  pub with_local-keeps :
      {A : Type 0} (id : SessionId) (r : Registry σ) (f : Session → Reply σ A)
      → P r
      → ((s : Session) → Map.get id r.sessions ≡ some s → s.kind ≡ local → P (f s).1)
      → P (with_local id r f).1
  with_local-keeps id r f p step =
      with_session-keeps id r _ p λ s found. kind-keeps s.kind _ _ (step s found) p

  -- An answer that ends the operation unless it is a value.
  pub result-keeps :
      {A B E : Type 0} (x : Result E A) (y : E → Reply σ B) (z : Reply σ B) (f : A → Reply σ B)
      → ((e : E) → P (y e).1)
      → P z.1
      → ((a : A) → x ≡ ok a → P (f a).1)
      → let w : Reply σ B = elim x [ err e ↦ y e | panic ↦ z | ok a ↦ f a ] in P w.1
  result-keeps (ok a) y z f p q step = step a refl
  result-keeps (err e) y z f p q step = p e
  result-keeps panic y z f p q step = q
