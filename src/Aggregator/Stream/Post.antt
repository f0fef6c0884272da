-- ===== src/Aggregator/Stream/Post.antt =====
-- What holds after a function of the stream: of its value, the fields and the world, or of what an
-- error or a panic leaves. The rules follow the do blocks.
use zkevm_aggregator.Prelude.{◌≡◌, refl}
use zkevm_aggregator.Prelude.Result.{Result, ok, err, panic}
use zkevm_aggregator.Aggregator.{Err, World, M}
use zkevm_aggregator.Aggregator.Quiet.{Quiet}
use zkevm_aggregator.Aggregator.Stream.{Stream, Handler, call, follow, ◌>>=◌}

module _ {Tx : Type 0} where
  abbrev pub Meets :
      {A : Type 0}
      → (A → Stream Tx → World → Type 0)
      → (Stream Tx → World → Type 0)
      → Result Err A
      → Stream Tx × World
      → Type 0
  Meets Q E (ok a) (s, w) = Q a s w
  Meets Q E (err e) (s, w) = E s w
  Meets Q E panic (s, w) = E s w

  pub record Post {A : Type 0} (Q : A → Stream Tx → World → Type 0) (E : Stream Tx → World → Type 0)
      (m : Handler Tx A) (s : Stream Tx) (w : World) : Type 0 where
    pub meets : Meets Q E (m s w).0 (m s w).1

  module _ (E : Stream Tx → World → Type 0) where
    Meets-follow :
        {A B : Type 0} (Q : A → Stream Tx → World → Type 0) (P : B → Stream Tx → World → Type 0)
        (f : A → Handler Tx B) (r : Result Err A) (q : Stream Tx × World)
        → Meets Q E r q
        → ((a : A) (s : Stream Tx) (w : World) → Q a s w → Post P E (f a) s w)
        → Meets P E (follow f r q).0 (follow f r q).1
    Meets-follow Q P f (ok a) (s, w) h k = (k a s w h).meets
    Meets-follow Q P f (err e) (s, w) h k = h
    Meets-follow Q P f panic (s, w) h k = h

    pub Post-bind :
        {A B : Type 0} (Q : A → Stream Tx → World → Type 0) (P : B → Stream Tx → World → Type 0)
        (m : Handler Tx A) (f : A → Handler Tx B) (s : Stream Tx) (w : World)
        → Post Q E m s w
        → ((a : A) (s' : Stream Tx) (w' : World) → Q a s' w' → Post P E (f a) s' w')
        → Post P E (m >>= f) s w
    Post-bind Q P m f s w h k = record { meets = Meets-follow Q P f (m s w).0 (m s w).1 h.meets k }

    called :
        {A : Type 0} (Q : A → Stream Tx → World → Type 0) (r : Result Err A) (s : Stream Tx)
        (w : World)
        → (E s w)
        → ((a : A) → r ≡ ok a → Q a s w)
        → Meets Q E r (s, w)
    called Q (ok a) s w n y = y a refl
    called Q (err e) s w n y = n
    called Q panic s w n y = n

    -- A call that touches no table, and the value that it returns.
    pub Post-call :
        {A : Type 0} (Q : A → Stream Tx → World → Type 0) (m : M A) (s : Stream Tx) (w : World)
        → Quiet m
        → ((w' : World) → w'.db ≡ w.db → E s w')
        → ((a : A) (w' : World) → w'.db ≡ w.db → (m w).0 ≡ ok a → Q a s w')
        → Post Q E (call m) s w
    Post-call Q m s w quiet n y = record {
      meets =
          called Q (m w).0 s (m w).1 (n (m w).1 ((quiet.run w).db))
            (λ a e. y a (m w).1 ((quiet.run w).db) e);
    }

    Meets-weaken :
        {A : Type 0} (Q P : A → Stream Tx → World → Type 0) (r : Result Err A)
        (q : Stream Tx × World)
        → ((a : A) (s : Stream Tx) (w : World) → Q a s w → P a s w)
        → Meets Q E r q
        → Meets P E r q
    Meets-weaken Q P (ok a) (s, w) f h = f a s w h
    Meets-weaken Q P (err e) (s, w) f h = h
    Meets-weaken Q P panic (s, w) f h = h

    pub Post-weaken :
        {A : Type 0} (Q P : A → Stream Tx → World → Type 0) (m : Handler Tx A) (s : Stream Tx)
        (w : World)
        → ((a : A) (s : Stream Tx) (w : World) → Q a s w → P a s w)
        → Post Q E m s w
        → Post P E m s w
    Post-weaken Q P m s w f h = record { meets = Meets-weaken Q P (m s w).0 (m s w).1 f h.meets }
