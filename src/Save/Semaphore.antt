-- ===== src/Save/Semaphore.antt =====
-- internal/save/semaphore.go and `newBlobStore` of internal/save/save.go: the semaphores that are
-- held while a blob is saved. Each store that uses one reaches it in its state.
use comeback.Prelude.{ℕ, zero, suc, Bool, true, false, Option, none, some}
use comeback.Prelude.Go.{Error, Result, err, panic}
use comeback.Blob.Score.{Score}
use comeback.Blob.Store.{
  SaveRequest, Store, WithScores, checking_store, encrypting_store, existing_scores_store,
}
use comeback.Blob.Gcs.{gcs_store}
use comeback.Blob.Stack.{Parts}

-- A semaphore as one call sees it: the units in the channel; the `needToRelease` of the function
-- that `markSemAcquired` has put into the context, if there is one; and whether a `Release` waits for a
-- unit that nobody holds.
pub record Semaphore : Type 0 where
  pub units : ℕ
  pub need_to_release : Option Bool
  pub stuck : Bool

-- The channel is never closed, so that `Release` does not panic.
abbrev pub release_units : ℕ → Semaphore → Semaphore
release_units zero sem = record sem { stuck = true }
release_units (suc n) sem = record sem { units = n }

abbrev pub release : Semaphore → Semaphore
release sem = release_units sem.units sem

-- What is deferred: a release unless a store has done it. The mark goes with the context.
abbrev pub deferred : (outer : Option Bool) → Option Bool → Semaphore → Semaphore
deferred outer (some true) sem = record (release sem) { need_to_release = outer }
deferred outer _ sem = record sem { need_to_release = outer }

-- Where a semaphore is in a state.
pub record Place (S : Type 0) : Type 0 where
  pub get : S → Semaphore
  pub set : Semaphore → S → S

module _ {S : Type 0} (place : Place S) where
  abbrev acquired : Semaphore → Semaphore
  acquired sem = record { units = suc sem.units; need_to_release = some true; stuck = sem.stuck }

  -- `Acquire`, `markSemAcquired` and the deferred release, round a call. `acquire_err` is the error of
  -- the context if it is done before there is room.
  unfoldable pub holding {ℓ} :
      {R : Type ℓ} → (acquire_err : Option Error) → (S → Result R × S) → S → Result R × S
  holding (some e) call s = (err e, s)
  holding none call s =
      let sem = place.get s in
      let (r, s') = call (place.set (acquired sem) s) in
      let sem' = place.get s' in
      (r, place.set (deferred sem.need_to_release sem'.need_to_release sem') s')

  -- `semaphoreAcquiringBlobStore`.
  abbrev pub acquiring_store : (acquire_err : Option Error) → Store S → Store S
  acquiring_store acquire_err wrapped = record {
    save = λ req s. holding acquire_err (wrapped.save req) s;
    load = wrapped.load;
  }

  -- The panic is for a semaphore that is not marked in the context.
  abbrev pub release_sem : Option Bool → Store S → SaveRequest → S → Result Score × S
  release_sem none wrapped req s = (panic, s)
  release_sem (some _) wrapped req s =
      wrapped.save req
        (place.set (release (record (place.get s) { need_to_release = some false })) s)

  -- `semaphoreReleasingBlobStore`.
  unfoldable pub releasing_save : Store S → SaveRequest → S → Result Score × S
  releasing_save wrapped req s = release_sem (place.get s).need_to_release wrapped req s

  abbrev pub releasing_store : Store S → Store S
  releasing_store wrapped = record { save = releasing_save wrapped; load = wrapped.load }

-- The state of the bucket with the two semaphores.
pub record Guarded (B : Type 0) : Type 0 where
  pub blobs : B
  pub read_from_disk_sem : Semaphore
  pub encrypt_sem : Semaphore

module _ {B : Type 0} where
  abbrev lifted_store : Store B → Store (Guarded B)
  lifted_store store = record {
    save = λ req g. (let (r, b) = store.save req g.blobs in (r, record g { blobs = b }));
    load = λ score g. store.load score g.blobs;
  }

  abbrev inner_encrypt : Place (Guarded B)
  inner_encrypt = record { get = λ g. g.encrypt_sem; set = λ sem g. record g { encrypt_sem = sem } }

  abbrev pub encrypt_place : Place (WithScores (Guarded B))
  encrypt_place = record {
    get = λ w. w.inner.encrypt_sem;
    set = λ sem w. record w { inner = record (w.inner) { encrypt_sem = sem } };
  }

  abbrev pub read_place : Place (WithScores (Guarded B))
  read_place = record {
    get = λ w. w.inner.read_from_disk_sem;
    set = λ sem w. record w { inner = record (w.inner) { read_from_disk_sem = sem } };
  }

  abbrev pub network_store : Parts B → Store (Guarded B)
  network_store p =
      releasing_store inner_encrypt (lifted_store (gcs_store p.bucket p.prefix p.sums))

  -- `newBlobStore`.
  abbrev pub new_blob_store :
      (acquire_err : Option Error) → Parts B → Store (WithScores (Guarded B))
  new_blob_store acquire_err p = acquiring_store encrypt_place acquire_err (
      releasing_store read_place (
        encrypting_store p.crypter
          (checking_store p.hash (existing_scores_store p.hash (network_store p)))))
