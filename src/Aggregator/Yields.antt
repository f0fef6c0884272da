-- ===== src/Aggregator/Yields.antt =====
-- What the results of a function have in common, whatever the world. The rules follow the do blocks.
use zkevm_aggregator.Prelude.{◌≡◌, subst}
use zkevm_aggregator.Prelude.Result.{Result, ok, err, panic}
use zkevm_aggregator.Aggregator.{Err, World, M, pure, continue, ◌>>=◌}

-- What it returns, where it returns, is so.
pub record Yields {A : Type 0} (Q : A → Type 0) (m : M A) : Type 0 where
  pub run : (w w' : World) (a : A) → m w ≡ (ok a, w') → Q a

module _ {A : Type 0} (Q : A → Type 0) where
  pub Yields-pure : (a : A) → Q a → Yields Q (pure a)
  Yields-pure a h = record { run = λ w w' b e. subst Q (cc) h }

  Yields-continue :
      {B : Type 0} (f : B → M A) (r : Result Err B) (w w' : World) (a : A)
      → ((b : B) → Yields Q (f b))
      → continue f r w ≡ (ok a, w')
      → Q a
  Yields-continue f (ok b) w w' a h e = (h b).run w w' a e
  Yields-continue f (err x) w w' a h e = absurd (cc)
  Yields-continue f panic w w' a h e = absurd (cc)

  pub Yields-bind :
      {B : Type 0} (m : M B) (f : B → M A) → ((b : B) → Yields Q (f b)) → Yields Q (m >>= f)
  Yields-bind m f h = record { run = λ w w' a e. Yields-continue f (m w).0 (m w).1 w' a h e }
