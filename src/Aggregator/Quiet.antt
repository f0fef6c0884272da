-- ===== src/Aggregator/Quiet.antt =====
-- Code that leaves the tables and the fields of the aggregator alone, whatever its outcome; it may
-- make calls. The rules follow the do blocks.
use zkevm_aggregator.Prelude.{ℕ, ◌≡◌, refl, ◌∙◌, Option, none, some, arith}
use zkevm_aggregator.Prelude.Result.{Result, ok, err, panic}
use zkevm_aggregator.State.Storage.{Db}
use zkevm_aggregator.Aggregator.{
  Err, Env, World, M, pure, throw, crash, attempt, or_throw, ◌>>=◌, continue,
}
use zkevm_aggregator.Aggregator.Calls.{Handle, ask, query}

pub record Same (w w' : World) : Type 0 where
  pub db : w'.db ≡ w.db
  pub verifying : w'.verifying_proof ≡ w.verifying_proof
  pub time : w'.time_send_final_proof ≡ w.time_send_final_proof

pub Same-refl : (w : World) → Same w w
Same-refl w = record { db = refl; verifying = refl; time = refl }

pub Same-trans : {u v w : World} → Same u v → Same v w → Same u w
Same-trans a b = record {
  db = b.db ∙ a.db;
  verifying = b.verifying ∙ a.verifying;
  time = b.time ∙ a.time;
}

pub record Quiet {A : Type 0} (m : M A) : Type 0 where
  pub run : (w : World) → Same w (m w).1

Quiet-continue :
    {A B : Type 0} (f : A → M B) (r : Result Err A) (w : World)
    → ((a : A) → Quiet (f a))
    → Same w (continue f r w).1
Quiet-continue f (ok a) w h = (h a).run w
Quiet-continue f (err e) w h = Same-refl w
Quiet-continue f panic w h = Same-refl w

pub Quiet-bind :
    {A B : Type 0} (m : M A) (f : A → M B) → Quiet m → ((a : A) → Quiet (f a)) → Quiet (m >>= f)
Quiet-bind m f hm hf = record {
  run = λ w. Same-trans (hm.run w) (Quiet-continue f (m w).0 (m w).1 hf);
}

pub Quiet-pure : {A : Type 0} (a : A) → Quiet (pure a)
Quiet-pure a = record { run = λ w. Same-refl w }

pub Quiet-throw : {A : Type 0} (e : Err) → Quiet (throw {A = A} e)
Quiet-throw e = record { run = λ w. Same-refl w }

pub Quiet-crash : {A : Type 0} → Quiet (crash {A = A})
Quiet-crash = record { run = λ w. Same-refl w }

pub Quiet-or_throw : {A : Type 0} (e : Err) (o : Option A) → Quiet (or_throw e o)
Quiet-or_throw e none = record { run = λ w. Same-refl w }
Quiet-or_throw e (some a) = record { run = λ w. Same-refl w }

pub Quiet-ask : (env : Env) {A : Type 0} (f : ℕ → A) → Quiet (ask env f)
Quiet-ask env f = record { run = λ w. record { db = refl; verifying = refl; time = refl } }

pub Quiet-query : (env : Env) {A : Type 0} (h : Handle) (f : Db → A) → Quiet (query env h f)
Quiet-query env h f = record { run = λ w. ground arith }

pub Quiet-attempt : {A : Type 0} (m : M A) → Quiet m → Quiet (attempt m)
Quiet-attempt m h = record { run = λ w. h.run w }

pub ruleset quiet = (
  Quiet-bind, Quiet-pure, Quiet-throw, Quiet-crash, Quiet-or_throw, Quiet-ask, Quiet-query,
  Quiet-attempt,
)
