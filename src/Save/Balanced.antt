-- ===== src/Save/Balanced.antt =====
-- internal/save: the stores with semaphores do what those of internal/restore do, and give back what
-- they hold.
use comeback.Prelude.{◌≡◌, refl, false, none, arith, Bool-cases, inl, inr}
use comeback.Prelude.Go.{Bytes, Result, ok, err, panic}
use comeback.Blob.Score.{Score, compute_score, hex}
use comeback.Blob.Store.{SaveRequest, WithScores, encrypting_save, existing_scores_save}
use comeback.Blob.Gcs.{gcs_save}
use comeback.Blob.Stack
use comeback.Blob.Stack.{Parts}
use comeback.Blob.Stack.Saving.{compute_score_lem}
use comeback.Util.StringSet.{contains}
use comeback.Save.Semaphore.{Guarded, holding, releasing_save, read_place, new_blob_store}

-- Without the semaphores.
abbrev pub blobs_of : {B : Type 0} → WithScores (Guarded B) → WithScores B
blobs_of w = record { inner = w.inner.blobs; scores = w.scores }

module _ {B : Type 0} (p : Parts B) where
  -- Saving for a visitor that takes the first semaphore.
  abbrev pub save_guarded :
      SaveRequest → WithScores (Guarded B) → Result Score × WithScores (Guarded B)
  save_guarded req w = holding read_place none ((new_blob_store none p).save req) w

  -- The same answer and the same blobs as without semaphores, and the semaphores as before: what was
  -- taken has been released once, and no release waits.
  pub record Balances (req : SaveRequest) (w : WithScores (Guarded B)) : Type 0 where
    pub same_result : (save_guarded req w).0 ≡ ((Stack.new_blob_store p).save req (blobs_of w)).0
    pub same_blobs :
        blobs_of (save_guarded req w).1 ≡ ((Stack.new_blob_store p).save req (blobs_of w)).1
    pub read_balanced : (save_guarded req w).1.inner.read_from_disk_sem ≡ w.inner.read_from_disk_sem
    pub encrypt_balanced : (save_guarded req w).1.inner.encrypt_sem ≡ w.inner.encrypt_sem

  -- A save through the stores of internal/save, under the visitor's semaphore, answers and stores what
  -- the stores without semaphores do, and whatever comes of it, both semaphores are as they were: all
  -- that was taken is released, once, and no release waits for a unit that nobody holds. The context
  -- is not done while a semaphore is acquired.
  pub save_guarded-Balances : (req : SaveRequest) (w : WithScores (Guarded B)) → Balances req w
  unfolding holding releasing_save encrypting_save existing_scores_save compute_score
  save_guarded-Balances req w = encrypts (p.crypter.encrypt req.blob) refl
    where
      sends :
          (c : Bytes)
          → p.crypter.encrypt req.blob ≡ ok c
          → contains (hex (p.hash.sum c)) w.scores ≡ false
          → (r : Result Score)
          → (gcs_save p.bucket p.prefix p.sums
              (record { blob = c; score = p.hash.sum c })
              w.inner.blobs).0
            ≡ r
          → Balances req w
      sends c e new (ok score) q = record {
        same_result = ground (arith, e, new, q, compute_score_lem p.hash c);
        same_blobs = ground (arith, e, new, q, compute_score_lem p.hash c);
        read_balanced = ground (arith, e, new, q, compute_score_lem p.hash c);
        encrypt_balanced = ground (arith, e, new, q, compute_score_lem p.hash c);
      }
      sends c e new (err x) q = record {
        same_result = ground (arith, e, new, q, compute_score_lem p.hash c);
        same_blobs = ground (arith, e, new, q, compute_score_lem p.hash c);
        read_balanced = ground (arith, e, new, q, compute_score_lem p.hash c);
        encrypt_balanced = ground (arith, e, new, q, compute_score_lem p.hash c);
      }
      sends c e new panic q = record {
        same_result = ground (arith, e, new, q, compute_score_lem p.hash c);
        same_blobs = ground (arith, e, new, q, compute_score_lem p.hash c);
        read_balanced = ground (arith, e, new, q, compute_score_lem p.hash c);
        encrypt_balanced = ground (arith, e, new, q, compute_score_lem p.hash c);
      }

      encrypts : (r : Result Bytes) → p.crypter.encrypt req.blob ≡ r → Balances req w
      encrypts (err x) e = record {
        same_result = ground (arith, e);
        same_blobs = ground (arith, e);
        read_balanced = ground (arith, e);
        encrypt_balanced = ground (arith, e);
      }
      encrypts panic e = record {
        same_result = ground (arith, e);
        same_blobs = ground (arith, e);
        read_balanced = ground (arith, e);
        encrypt_balanced = ground (arith, e);
      }
      encrypts (ok c) e = elim (Bool-cases (contains (hex (p.hash.sum c)) w.scores)) [
        | inl old ↦ record {
          same_result = ground (arith, e, old, compute_score_lem p.hash c);
          same_blobs = ground (arith, e, old, compute_score_lem p.hash c);
          read_balanced = ground (arith, e, old, compute_score_lem p.hash c);
          encrypt_balanced = ground (arith, e, old, compute_score_lem p.hash c);
        }
        | inr new ↦ sends c e new _ refl
      ]
