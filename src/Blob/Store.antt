-- ===== src/Blob/Store.antt =====
-- internal/blob/store.go, checking.go, encrypting.go and existing_scores_store.go: the interface of
-- stores of blobs, and the stores that wrap another.
-- A store keeps its state apart: `Save` returns the state after it, and `Load` reads the state. The
-- request is passed by value, as no caller reads it after the call.
use comeback.Prelude.{if◌then◌else◌}
use comeback.Prelude.Go.{Bytes, message, Result, ok, err, panic, within, ◌>>=◌, eq_bytes}
use comeback.Blob.Score.{Score, Hash, compute_score, hex}
use comeback.Util.StringSet.{StringSet, contains, add}

pub record SaveRequest : Type 0 where
  pub blob : Bytes
  pub score : Score

pub record Store (S : Type 0) : Type 0 where
  pub save : SaveRequest → S → Result Score × S
  pub load : Score → S → Result Bytes

-- internal/crypto: `Encrypt` to a new slice, and `Decrypt`.
pub record Crypter : Type 0 where
  pub encrypt : Bytes → Result Bytes
  pub decrypt : Bytes → Result Bytes

-- The state of an `existingScoresStore`: its set of scores beside that of the wrapped store.
pub record WithScores (S : Type 0) : Type 0 where
  pub inner : S
  pub scores : StringSet

module _ {S : Type 0} where
  -- `checkingStore`.
  unfoldable pub checking_load : Hash → Store S → Score → S → Result Bytes
  unfolding compute_score
  checking_load h wrapped score s = do
    blob ← wrapped.load score s
    actual ← compute_score h blob
    if eq_bytes actual score then ok blob else err (message "Incorrect data returned for blob")

  abbrev pub checking_store : Hash → Store S → Store S
  checking_store h wrapped = record { save = wrapped.save; load = checking_load h wrapped }

  -- `encryptingStore`.
  unfoldable pub encrypting_save : Crypter → Store S → SaveRequest → S → Result Score × S
  encrypting_save c wrapped req s = elim (within "Encrypt" (c.encrypt req.blob)) [
    | ok ciphertext ↦ wrapped.save (record req { blob = ciphertext }) s
    | err e ↦ (err e, s)
    | panic ↦ (panic, s)
  ]

  unfoldable pub encrypting_load : Crypter → Store S → Score → S → Result Bytes
  encrypting_load c wrapped score s = do
    ciphertext ← wrapped.load score s
    within "Decrypt" (c.decrypt ciphertext)

  abbrev pub encrypting_store : Crypter → Store S → Store S
  encrypting_store c wrapped = record {
    save = encrypting_save c wrapped;
    load = encrypting_load c wrapped;
  }

  unfoldable pub existing_scores_save :
      Hash → Store S → SaveRequest → WithScores S → Result Score × WithScores S
  unfolding compute_score
  existing_scores_save h wrapped req w = elim (compute_score h req.blob) [
    | err e ↦ (err e, w)
    | panic ↦ (panic, w)
    | ok score ↦
        if contains (hex score) w.scores
        then (ok score, w)
        else (let (r, s') = wrapped.save (record req { score = score }) w.inner in
            elim r [
              | ok _ ↦ (ok score, record { inner = s'; scores = add (hex score) w.scores })
              | err e ↦ (err e, record w { inner = s' })
              | panic ↦ (panic, record w { inner = s' })
            ])
  ]

  abbrev pub existing_scores_load : Store S → Score → WithScores S → Result Bytes
  existing_scores_load wrapped score w = wrapped.load score w.inner

  abbrev pub existing_scores_store : Hash → Store S → Store (WithScores S)
  existing_scores_store h wrapped = record {
    save = existing_scores_save h wrapped;
    load = existing_scores_load wrapped;
  }
