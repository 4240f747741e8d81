-- ===== src/Registry.antt =====
-- internal/registry: the registry of backups, in the metadata of objects of a bucket.
-- The bucket is a parameter. Objects are created empty, and only where no object of the name exists.
pub mod Jobs
pub mod Marker
pub mod Claimed
mod Tests
use comeback.Prelude.{List}
use comeback.Prelude.Go.{Bytes, Error, Result}
use comeback.Blob.Gcs.{Metadata, Object}

-- A gcs.CreateObjectRequest with empty contents, whose generation precondition is zero.
pub record MetadataRequest : Type 0 where
  pub name : Bytes
  pub metadata : Metadata

-- What `StatObject` gives, where a `NotFoundError` is told from other errors by its type.
pub data Stat : Type 0 where
  found : Object → Stat
  not_found : Stat
  failed : Error → Stat

pub record RegistryBucket (B : Type 0) : Type 0 where
  pub create_object : MetadataRequest → B → Result Object × B
  pub stat_object : Bytes → B → Stat
  -- gcsutil.ListAll, for a prefix.
  pub list_all : Bytes → B → Result (List Object)
