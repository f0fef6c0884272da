-- ===== src/Aggregator/Post.antt =====
-- What holds after code that does not panic: of its value and the world, or of its error and the
-- world. The rules follow the do blocks.
use zkevm_aggregator.Prelude.{
  Bool, true, false, if◌then◌else◌, ◌≡◌, refl, Option, none, some, Bool-cases, inl, inr,
  Option-cases,
}
use zkevm_aggregator.Prelude.Result.{Result, ok, err, panic}
use zkevm_aggregator.State.Storage.{Db}
use zkevm_aggregator.Aggregator.{
  Err, db_failure, Env, World, M, or_throw, ◌>>=◌, continue, next_call,
}
use zkevm_aggregator.Aggregator.Calls.{Handle, pool, query, exec, put, target}

abbrev pub Meets :
    {A : Type 0} → (A → World → Type 0) → (Err → World → Type 0) → Result Err A → World → Type 0
Meets Q E (ok a) w = Q a w
Meets Q E (err e) w = E e w
Meets Q E panic w = ⊥

pub record Post {A : Type 0} (Q : A → World → Type 0) (E : Err → World → Type 0) (m : M A)
    (w : World) : Type 0 where
  pub meets : Meets Q E (m w).0 (m w).1

module _ (E : Err → World → Type 0) where
  Meets-continue :
      {A B : Type 0} (Q : A → World → Type 0) (P : B → World → Type 0) (f : A → M B)
      (r : Result Err A) (w : World)
      → Meets Q E r w
      → ((a : A) (w' : World) → Q a w' → Post P E (f a) w')
      → Meets P E (continue f r w).0 (continue f r w).1
  Meets-continue Q P f (ok a) w h k = (k a w h).meets
  Meets-continue Q P f (err e) w h k = h
  Meets-continue Q P f panic w h k = h

  pub Post-bind :
      {A B : Type 0} (Q : A → World → Type 0) (P : B → World → Type 0) (m : M A) (f : A → M B)
      (w : World)
      → Post Q E m w
      → ((a : A) (w' : World) → Q a w' → Post P E (f a) w')
      → Post P E (m >>= f) w
  Post-bind Q P m f w h k = record { meets = Meets-continue Q P f (m w).0 (m w).1 h.meets k }

  pub Post-or_throw :
      {A : Type 0} (Q : A → World → Type 0) (e : Err) (o : Option A) (w : World)
      → (o ≡ none → E e w)
      → ((a : A) → o ≡ some a → Q a w)
      → Post Q E (or_throw e o) w
  Post-or_throw Q e none w h k = record { meets = h refl }
  Post-or_throw Q e (some a) w h k = record { meets = k a refl }

  pub Post-query :
      {A : Type 0} (Q : A → World → Type 0) (env : Env) (h : Handle) (f : Db → A) (w : World)
      → E db_failure (next_call w)
      → Q (f (target h w)) (next_call w)
      → Post Q E (query env h f) w
  Post-query Q env h f w n y = elim (Bool-cases (env.db_fails w.calls)) [
    | inl e ↦ record { meets = rw e n }
    | inr e ↦ record { meets = rw e y }
  ]

  -- A statement on the pool: it fails, as it does on a violated constraint, or it writes.
  pub Post-exec :
      (Q : World → Type 0) (env : Env) (f : Db → Option Db) (w : World)
      → E db_failure (next_call w)
      → ((db : Db) → f w.db ≡ some db → Q (put pool db (next_call w)))
      → Post (λ _. Q) E (exec env pool f) w
  Post-exec Q env f w n y = elim (Bool-cases (env.db_fails w.calls)) [
    | inl e ↦ record { meets = rw e n }
    | inr e ↦ elim (Option-cases (f w.db)) [
      | inl g ↦ record { meets = rw (e, g) n }
      | inr (db, g) ↦ record { meets = rw (e, g) (y db g) }
    ]
  ]

  Meets-weaken :
      {A : Type 0} (Q P : A → World → Type 0) (r : Result Err A) (w : World)
      → ((a : A) (w : World) → Q a w → P a w)
      → Meets Q E r w
      → Meets P E r w
  Meets-weaken Q P (ok a) w f h = f a w h
  Meets-weaken Q P (err e) w f h = h
  Meets-weaken Q P panic w f h = h

  pub Post-weaken :
      {A : Type 0} (Q P : A → World → Type 0) (m : M A) (w : World)
      → ((a : A) (w : World) → Q a w → P a w)
      → Post Q E m w
      → Post P E m w
  Post-weaken Q P m w f h = record { meets = Meets-weaken Q P (m w).0 (m w).1 f h.meets }

  pub Post-if :
      {A : Type 0} (Q : A → World → Type 0) (c : Bool) (m k : M A) (w : World)
      → (c ≡ true → Post Q E m w)
      → (c ≡ false → Post Q E k w)
      → Post Q E (if c then m else k) w
  Post-if Q true m k w f g = f refl
  Post-if Q false m k w f g = g refl
