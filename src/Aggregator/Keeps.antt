-- ===== src/Aggregator/Keeps.antt =====
-- What a function of the aggregator leaves alone: an observation of the committed tables that is the
-- same after every run, whatever the outcome. The rules follow the do blocks.
use zkevm_aggregator.Prelude.{ℕ, ◌≡◌, refl, ◌∙◌, Option, none, some, arith}
use zkevm_aggregator.Prelude.Result.{Result, ok, err, panic}
use zkevm_aggregator.State.{Proof}
use zkevm_aggregator.State.Storage.{Db, update_generated_proof}
use zkevm_aggregator.Aggregator.{
  Err, Env, World, M, pure, throw, crash, attempt, or_throw, ◌>>=◌, continue,
}
use zkevm_aggregator.Aggregator.Calls.{Handle, pool, ask, query, exec, update_proof}

pub record Keeps {A X : Type 0} (obs : Db → X) (m : M A) : Type 0 where
  pub run : (w : World) → obs (m w).1.db ≡ obs w.db

module _ {X : Type 0} (obs : Db → X) where
  pub Keeps-continue :
      {A B : Type 0} (f : A → M B) (r : Result Err A) (w : World)
      → ((a : A) → Keeps obs (f a))
      → obs (continue f r w).1.db ≡ obs w.db
  Keeps-continue f (ok a) w h = (h a).run w
  Keeps-continue f (err e) w h = refl
  Keeps-continue f panic w h = refl

  pub Keeps-bind :
      {A B : Type 0} (m : M A) (f : A → M B)
      → Keeps obs m
      → ((a : A) → Keeps obs (f a))
      → Keeps obs (m >>= f)
  Keeps-bind m f hm hf = record { run = λ w. Keeps-continue f (m w).0 (m w).1 hf ∙ hm.run w }

  -- The same, where the second part is reached only with values that the first returns.
  pub Keeps-bind_of :
      {A B : Type 0} (m : M A) (f : A → M B)
      → Keeps obs m
      → ((a : A) (w : World) → (m w).0 ≡ ok a → Keeps obs (f a))
      → Keeps obs (m >>= f)
  Keeps-bind_of {A} m f hm hf = record { run = λ w. go w (m w).0 refl ∙ hm.run w }
    where
      go :
          (w : World) (r : Result Err A)
          → (m w).0 ≡ r
          → obs (continue f (m w).0 (m w).1).1.db ≡ obs (m w).1.db
      go w (ok a) e = rw e ((hf a w e).run (m w).1)
      go w (err x) e = rw e
      go w panic e = rw e

  pub Keeps-pure : {A : Type 0} (a : A) → Keeps obs (pure a)
  Keeps-pure a = record { run = λ w. refl }

  pub Keeps-throw : {A : Type 0} (e : Err) → Keeps obs (throw {A = A} e)
  Keeps-throw e = record { run = λ w. refl }

  pub Keeps-crash : {A : Type 0} → Keeps obs (crash {A = A})
  Keeps-crash = record { run = λ w. refl }

  pub Keeps-attempt : {A : Type 0} (m : M A) → Keeps obs m → Keeps obs (attempt m)
  Keeps-attempt m h = record { run = λ w. h.run w }

  pub Keeps-or_throw : {A : Type 0} (e : Err) (o : Option A) → Keeps obs (or_throw e o)
  Keeps-or_throw e none = record { run = λ w. refl }
  Keeps-or_throw e (some a) = record { run = λ w. refl }

  pub Keeps-ask : (env : Env) {A : Type 0} (f : ℕ → A) → Keeps obs (ask env f)
  Keeps-ask env f = record { run = λ w. refl }

  pub Keeps-query : (env : Env) {A : Type 0} (h : Handle) (f : Db → A) → Keeps obs (query env h f)
  Keeps-query env h f = record { run = λ w. ground arith }

  -- A statement on the pool keeps what the write keeps.
  pub Keeps-exec :
      (env : Env) (f : Db → Db)
      → ((db : Db) → obs (f db) ≡ obs db)
      → Keeps obs (exec env pool (λ db. some (f db)))
  Keeps-exec env f h = record { run = λ w. ground (arith, h w.db) }

  pub Keeps-update_proof :
      (env : Env) (p : Proof)
      → ((now : ℕ) (db : Db) → obs (update_generated_proof now p db) ≡ obs db)
      → Keeps obs (update_proof env pool p)
  Keeps-update_proof env p h =
      Keeps-bind _ _ (Keeps-ask env env.clock) (λ now. Keeps-exec env _ (h now))

pub ruleset keeps = (
  Keeps-bind, Keeps-pure, Keeps-throw, Keeps-crash, Keeps-attempt, Keeps-or_throw, Keeps-ask,
  Keeps-query, Keeps-update_proof,
)
