-- ===== src/Examples.antt =====
-- Concrete data for the tests: two models of internal/app/service.go on a disk without links.
mod Records
mod Files
mod Inputs
mod Transactions
mod Gpu
mod Fetching
mod Passes
mod Settings
use oci2gdsd.Prelude.{
  ℕ, Bool, true, false, Option, none, some, List, [], ◌∷◌, ◌++◌, Text, codes, ℤ, pos,
}
use oci2gdsd.AppErr.{reason_none}
use oci2gdsd.Model.{ModelState, ready, failed}
use oci2gdsd.Paths.{Components, Resolved, real, Links}
use oci2gdsd.Store.{Lease, ModelRecord, StateDb}
use oci2gdsd.Profile.{ModelShard, ModelProfile, manifest_digest_placeholder}
use oci2gdsd.Service.State.{
  ShardFile, entries, LocalMetadata, ModelDir, World, Outcome, fine, locked, RemoteBlob,
  FetchAnswer, fetch_error, FetchedModel, Stream, delivered, fetched, Env,
}

abbrev pub no_links : Links
no_links = record { cwd = []; eval_symlinks = real }

-- The digest of a text is the text.
abbrev pub shard_one : ModelShard
shard_one = record {
  name = codes "one.bin";
  digest = codes "abc";
  size = pos 3;
  ordinal = pos 1;
  kind = [];
  alignment = pos 0;
}

abbrev pub blob_one : RemoteBlob
blob_one = record { name = codes "one.bin"; digest = codes "abc"; size = pos 3 }

abbrev pub profile_one : ModelProfile
profile_one = record {
  schema_version = pos 1;
  model_id = codes "a";
  model_revision = codes "r";
  framework = codes "pytorch";
  format = codes "safetensors";
  shards = shard_one ∷ [];
  manifest_digest = manifest_digest_placeholder;
  tensor_map_digest = [];
}

abbrev pub dir_one : ModelDir
dir_one = record {
  ready_marker = true;
  metadata = some (record {
    model_id = codes "a";
    manifest_digest = codes "d";
    reference = codes "r@d";
    artifact_type = [];
    bytes = 3;
    profile = profile_one;
  });
  shards = entries ((codes "one.bin", record { size = 3; content = some (codes "abc") }) ∷ []);
}

abbrev pub model_one : FetchedModel
model_one = record {
  reference = codes "r@d";
  artifact_type = [];
  profile = profile_one;
  layers = [];
  blobs = blob_one ∷ [];
}

-- Every call ends well; there is no free space beyond `free`.
abbrev pub calm : ℤ → Env
calm free = record {
  links = no_links;
  model_root = codes "/m";
  tmp_root = codes "/t";
  min_free_bytes = pos 10;
  policy = [];
  algorithm = λ d. some (codes "sha256");
  sha256 = λ s. s;
  allowlist = none;
  outcome = λ n. fine;
  clock = λ n. n;
  lock = λ n wait. locked;
  free_bytes = λ n. some free;
  fetch = λ n ref. fetched model_one;
  stream = λ n b. delivered (codes "abc");
  token = λ n. codes "x";
  shards_per_model = pos 8;
  chunks_per_blob = pos 1;
  requests_per_model = pos 0;
  requests_global = pos 0;
  queue_done = λ n. false;
  worker_done = λ n. false;
  fsync_directory = false;
}

abbrev pub lease_x : Lease
lease_x = record { holder = codes "x"; acquired_at = 1 }

abbrev pub model_record : Text → ModelState → List Lease → Text → ModelRecord
model_record id status leases path = record {
  key = id ++ b'@' ∷ codes "d";
  model_id = id;
  manifest_digest = codes "d";
  status = status;
  path = path;
  bytes = pos 3;
  leases = leases;
  releasable = false;
  releasable_at = none;
  last_error = reason_none;
  created_at = 0;
  updated_at = 0;
  last_accessed_at = 0;
}

-- The model `a` is leased by `x`; a transaction of the model `b` failed.
abbrev pub record_a : ModelRecord
record_a = model_record (codes "a") ready (lease_x ∷ []) (codes "/m/a")

abbrev pub record_b : ModelRecord
record_b = model_record (codes "b") failed [] (codes "/m/b")

abbrev pub two_models : StateDb
two_models = record {
  version = 1;
  models = (codes "a@d", record_a) ∷ (codes "b@d", record_b) ∷ [];
  allocations = [];
}

abbrev pub two_dirs : World
two_dirs = record {
  db = two_models;
  journals = [];
  dirs = (codes "/m/a", dir_one) ∷ (codes "/m/b", dir_one) ∷ [];
  calls = 0;
}
