-- ===== src/Prelude/Result.antt =====
-- What a Go call leaves: a value, an error, or a panic (an index out of range, a nil dereference, a
-- failed type assertion, `log.Fatal`). A panic is no error: no caller handles it.

pub data Result (E A : Type 0) : Type 0 where
  ok : A → Result E A
  err : E → Result E A
  panic : Result E A

infixl 5 ◌>>=◌ ◌>>◌
abbrev pub ◌>>=◌ : {E A B : Type 0} → Result E A → (A → Result E B) → Result E B
ok a >>= f = f a
err e >>= f = err e
panic >>= f = panic

abbrev pub ◌>>◌ : {E A B : Type 0} → Result E A → Result E B → Result E B
m >> k = m >>= λ _. k
