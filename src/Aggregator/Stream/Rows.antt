-- ===== src/Aggregator/Stream/Rows.antt =====
-- An entry of the stream and the rows of the proofs.
use zkevm_aggregator.Prelude.{
  ℕ, ◌≡◌, refl, ◌∙◌, ap, Bool, true, false, Option, none, some, ◌==◌, if◌then◌else◌,
}
use zkevm_aggregator.Prelude.Result.{Result, ok, err, panic}
use zkevm_aggregator.State.{Bytes}
use zkevm_aggregator.Ethereum.{Ethereum}
use zkevm_aggregator.Aggregator.{Err, failure, Env, World}
use zkevm_aggregator.Aggregator.Stream.{
  EntryType, bookmark, batch_start, batch_end, l2_block, transaction, other, FileEntry, BatchEnd,
  Datastream, Stream, Handler, give, given, modify, stream, follow, ◌>>=◌, ◌>>◌,
}
use zkevm_aggregator.Aggregator.Stream.Save.{set_batch, save_batch}
use zkevm_aggregator.Aggregator.Stream.Entry.{
  close_batch, add_last_block, reset, on_batch_end, on_entry, handle_received_data_stream,
}
use zkevm_aggregator.Aggregator.Stream.Stored.{SavedOf, Before, save_batch-Post}
use zkevm_aggregator.Aggregator.Stream.Post.{Meets}

module _ {Tx : Type 0} where
  -- The rows of the proofs are left alone, whatever the outcome.
  pub record Untouched {A : Type 0} (m : Handler Tx A) : Type 0 where
    pub run : (s : Stream Tx) (w : World) → (m s w).1.1.db.proofs ≡ w.db.proofs

  follow-Untouched :
      {A B : Type 0} (f : A → Handler Tx B) (r : Result Err A) (q : Stream Tx × World)
      → ((a : A) → Untouched (f a))
      → (follow f r q).1.1.db.proofs ≡ q.1.db.proofs
  follow-Untouched f (ok a) (s, w) h = (h a).run s w
  follow-Untouched f (err e) q h = refl
  follow-Untouched f panic q h = refl

  Untouched-bind :
      {A B : Type 0} (m : Handler Tx A) (f : A → Handler Tx B)
      → Untouched m
      → ((a : A) → Untouched (f a))
      → Untouched (m >>= f)
  Untouched-bind m f hm hf = record {
    run = λ s w. follow-Untouched f (m s w).0 (m s w).1 hf ∙ hm.run s w;
  }

  Untouched-give : {A : Type 0} (a : A) → Untouched (give a)
  Untouched-give a = record { run = λ s w. refl }

  Untouched-stream : Untouched stream
  Untouched-stream = record { run = λ s w. refl }

  Untouched-modify : (f : Stream Tx → Stream Tx) → Untouched (modify f)
  Untouched-modify f = record { run = λ s w. refl }

  Untouched-given : {A : Type 0} (o : Option A) → Untouched (given failure o)
  Untouched-given none = record { run = λ s w. refl }
  Untouched-given (some a) = record { run = λ s w. refl }

  Untouched-if :
      {A : Type 0} (c : Bool) (m k : Handler Tx A)
      → Untouched m
      → Untouched k
      → Untouched (if c then m else k)
  Untouched-if true m k hm hk = hm
  Untouched-if false m k hm hk = hk

ruleset untouched = (
  Untouched-bind, Untouched-give, Untouched-stream, Untouched-modify, Untouched-given, Untouched-if,
)

module _ (env : Env) (eth : Ethereum) (ds : Datastream) (rounds : ℕ) where
  rows-Untouched :
      (s : Stream eth.Tx) (w : World) (n : ℕ) (r : Result Err (Unit {0}))
      (q : Stream eth.Tx × World)
      → Meets (λ _ s' w'. SavedOf env eth rounds w.db n s w'.db) (Before env eth rounds w.db) r q
      → q.1.db.proofs ≡ w.db.proofs
  rows-Untouched s w n (ok _) (s', w') h = h.proofs
  rows-Untouched s w n (err e) (s', w') h = ap (λ d. d.proofs) h
  rows-Untouched s w n panic (s', w') h = ap (λ d. d.proofs) h

  -- The batch that is saved is the one of the fields.
  save-Untouched :
      Untouched (stream >>= λ s. save_batch env eth rounds s.current_stream_batch.batch_number)
  save-Untouched = record {
    run = λ s w.
        rows-Untouched s w s.current_stream_batch.batch_number _ _
          (save_batch-Post env eth rounds w.db s.current_stream_batch.batch_number s w refl
            refl).meets;
  }

  saving :
      (c : Bool) (s : Stream eth.Tx) (w : World)
      → ((if c then give tt else save_batch env eth rounds s.current_stream_batch.batch_number) s
          w).1.1.db.proofs
        ≡ w.db.proofs
  saving true s w = refl
  saving false s w = save-Untouched.run s w

  end-Untouched : Untouched (
      stream >>= λ s.
      (if s.current_stream_batch.batch_number == 0
        then give tt
        else save_batch env eth rounds s.current_stream_batch.batch_number)
      >> modify reset)
  end-Untouched = record {
    run = λ s w.
        follow-Untouched (λ _. modify reset) _
          ((if s.current_stream_batch.batch_number == 0
              then give tt
              else save_batch env eth rounds s.current_stream_batch.batch_number)
            s w).1
          (λ _. Untouched-modify reset)
        ∙ saving (s.current_stream_batch.batch_number == 0) s w;
  }

  on_batch_end-Untouched : (m : BatchEnd) → Untouched (on_batch_end env eth ds rounds m)
  unfolding on_batch_end
  on_batch_end-Untouched m =
      Untouched-bind (modify (set_batch (close_batch m))) _ (Untouched-modify _)
        (λ _. Untouched-bind (modify add_last_block) _ (Untouched-modify _) (λ _. end-Untouched))

  on_entry-Untouched : (t : EntryType) (bs : Bytes) → Untouched (on_entry env eth ds rounds t bs)
  unfolding on_entry
  on_entry-Untouched batch_start bs = search untouched
  on_entry-Untouched batch_end bs = search (untouched, on_batch_end-Untouched)
  on_entry-Untouched l2_block bs = search untouched
  on_entry-Untouched transaction bs = search untouched
  on_entry-Untouched bookmark bs = Untouched-give tt
  on_entry-Untouched other bs = Untouched-give tt

  -- An entry leaves the rows of the proofs alone.
  pub handle-Untouched :
      (e : FileEntry) → Untouched (handle_received_data_stream env eth ds rounds e)
  unfolding handle_received_data_stream
  handle-Untouched e = search (untouched, on_entry-Untouched)
