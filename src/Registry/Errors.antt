-- ===== src/Registry/Errors.antt =====
-- The errors of internal/registry/oras.go.
use mathlib.Core.Path.{subst}
use oci2gdsd.Prelude.{
  ◌≡◌, refl, Bool, true, false, not, ◌||◌, Option, none, some, List, [], ◌∷◌, Text, is_empty, ◌⊎◌,
  inl, inr, length, text_eq, lookup, Map, ℤ, pos, ltb_ℤ, eq_ℤ, ◌==◌, arith, lower, Bool-cases,
  if◌then◌else◌,
}
use oci2gdsd.AppErr.{
  AppError, Result, ok, err, map_reason_to_exit_code, exit_auth, registry_auth_failed,
  exit_registry, registry_timeout, new_app_error,
}
use oci2gdsd.Names.{validate_shard_name}
use oci2gdsd.Ref.{parsed, refused, parse_digest_pinned_ref}
use oci2gdsd.Profile.{ModelShard, sort_shards_by_ordinal}
use oci2gdsd.Service.State.{RemoteBlob, FetchedModel}
use oci2gdsd.Registry.{
  ResponseCode, code_unauthorized, code_denied, code_manifest_unknown, code_name_unknown,
  code_blob_unknown, code_manifest_blob_unknown, code_other, ErrorResponse, Failure, Descriptor,
  Content, opened, unopened, Resolution, resolved, unresolved, ReadResult, whole, over_limit,
  read_failed, Registry, classify_codes, classify_oras_error, classify_text, wrap_registry_error,
  ◌>>=◌, require, given, mismatch, invalid, size_mismatch, not_a_profile, missing_layer,
  open_content, read, config_limit, layer_map_from, resolution, max_config_bytes,
  max_manifest_bytes, read_all_with_limit, fetch_manifest, fetch_profile, blob_name, blob_of,
  blobs_of, fetch_from, fetch,
}

-- The exit code of an error is that of its reason; a shard without a layer is the one exception.
abbrev pub Coded : AppError → Type 0
Coded e = (map_reason_to_exit_code e.reason ≡ e.exit_code) ⊎ (e ≡ missing_layer)

abbrev pub ErrsCoded : {A : Type 0} → Result A → Type 0
ErrsCoded (ok a) = Unit
ErrsCoded (err e) = Coded e

chain :
    {A B : Type 0} (m : Result A) (f : A → Result B)
    → ErrsCoded m
    → ((a : A) → ErrsCoded (f a))
    → ErrsCoded (m >>= f)
chain (ok a) f h k = k a
chain (err e) f h k = h

require-Coded : (t : Bool) (e : AppError) → Coded e → ErrsCoded (require t e)
require-Coded true e h = tt
require-Coded false e h = h

given-Coded : {A : Type 0} (o : Option A) (e : AppError) → Coded e → ErrsCoded (given o e)
given-Coded (some a) e h = tt
given-Coded none e h = h

abbrev denied : AppError
denied = new_app_error exit_auth registry_auth_failed

abbrev timeout : AppError
timeout = new_app_error exit_registry registry_timeout

choose : (t : Bool) (a b : AppError) → Coded a → Coded b → Coded (if t then a else b)
choose true a b h k = h
choose false a b h k = k

classify_codes-Coded : (cs : List ResponseCode) → Coded (classify_codes cs)
unfolding classify_codes map_reason_to_exit_code
classify_codes-Coded [] = inl refl
classify_codes-Coded (code_unauthorized ∷ cs) = inl refl
classify_codes-Coded (code_denied ∷ cs) = inl refl
classify_codes-Coded (code_manifest_unknown ∷ cs) = inl refl
classify_codes-Coded (code_name_unknown ∷ cs) = inl refl
classify_codes-Coded (code_blob_unknown ∷ cs) = inl refl
classify_codes-Coded (code_manifest_blob_unknown ∷ cs) = inl refl
classify_codes-Coded (code_other ∷ cs) = classify_codes-Coded cs

classify_text-Coded : (t : Text) → Coded (classify_text t)
unfolding classify_text map_reason_to_exit_code
classify_text-Coded t = inl (ground arith)

response-Coded : (r : ErrorResponse) → Coded (classify_oras_error r)
unfolding classify_oras_error map_reason_to_exit_code
response-Coded r = choose (r.status == 401 || r.status == 403) denied _ (inl refl) (
    choose (r.status == 408 || r.status == 504) timeout _ (inl refl)
      (classify_codes-Coded r.errors))

wrap-Coded : (f : Failure) → Coded (wrap_registry_error f)
unfolding wrap_registry_error map_reason_to_exit_code
wrap-Coded f =
    elim f.response
      as (λ o. Coded (elim o as (λ _. AppError) [
        | some r ↦ classify_oras_error r
        | none ↦
            if f.deadline_exceeded || f.net_timeout
            then new_app_error exit_registry registry_timeout
            else classify_text (lower f.text)
      ])) [
        | some r ↦ response-Coded r
        | none ↦
            choose (f.deadline_exceeded || f.net_timeout) timeout _ (inl refl)
              (classify_text-Coded (lower f.text))
      ]

open_content-Coded : (c : Content) → ErrsCoded (open_content c)
unfolding open_content
open_content-Coded (unopened f) = wrap-Coded f
open_content-Coded (opened t f) = tt

read-Coded : (r : ReadResult) → ErrsCoded (read r)
unfolding read map_reason_to_exit_code
read-Coded (whole t) = tt
read-Coded over_limit = inl refl
read-Coded (read_failed f) = wrap-Coded f

resolution-Coded : (r : Resolution) → ErrsCoded (resolution r)
unfolding resolution
resolution-Coded (resolved d) = tt
resolution-Coded (unresolved f) = wrap-Coded f

config_limit-Coded : (size : ℤ) → ErrsCoded (config_limit size)
unfolding config_limit map_reason_to_exit_code
config_limit-Coded size = elim (Bool-cases (ltb_ℤ (pos 0) size)) [
  | inr e ↦ rw e tt
  | inl e ↦ elim (Bool-cases (ltb_ℤ (pos max_config_bytes) size)) [
    | inl f ↦ rw (e, f) (inl refl)
    | inr f ↦ rw (e, f) tt
  ]
]

module _ (r : Registry) where
  fetch_manifest-Coded : (repository digest : Text) → ErrsCoded (fetch_manifest r repository digest)
  unfolding fetch_manifest map_reason_to_exit_code
  fetch_manifest-Coded repository digest =
      chain _ _ (resolution-Coded (r.resolve repository digest)) λ d.
        chain _ _ (require-Coded (text_eq d digest) mismatch (inl refl)) λ _.
          chain _ _ (open_content-Coded (r.content repository d)) λ c.
            chain _ _ (read-Coded (read_all_with_limit c.0 c.1 max_manifest_bytes)) λ bytes.
              chain _ _ (require-Coded (text_eq (r.from_bytes bytes) digest) mismatch (inl refl))
                λ _. given-Coded (r.parse_manifest bytes) invalid (inl refl)

  fetch_profile-Coded :
      (repository : Text) (config : Descriptor) → ErrsCoded (fetch_profile r repository config)
  unfolding fetch_profile map_reason_to_exit_code
  fetch_profile-Coded repository config =
      chain _ _ (open_content-Coded (r.content repository config.digest)) λ c.
        chain _ _ (config_limit-Coded config.size) λ limit.
          chain _ _ (read-Coded (read_all_with_limit c.0 c.1 limit)) λ bytes.
            chain _ _
              (require-Coded
                (not (ltb_ℤ (pos 0) config.size) || eq_ℤ (pos (length bytes)) config.size)
                size_mismatch (inl refl))
              λ _.
                chain _ _
                  (require-Coded
                    (is_empty config.digest || text_eq (r.from_bytes bytes) config.digest) mismatch
                    (inl refl))
                  λ _. given-Coded (r.parse_profile bytes) not_a_profile (inl refl)

  blob_of-Coded : (layers : Map Descriptor) (s : ModelShard) → ErrsCoded (blob_of r layers s)
  unfolding blob_of map_reason_to_exit_code
  blob_of-Coded layers s =
      chain _ _ (given-Coded (lookup s.digest layers) missing_layer (inr refl)) λ d.
        elim (validate_shard_name (blob_name r s d))
          as (λ o. ErrsCoded (elim o as (λ _. Result RemoteBlob) [
            | some e ↦ err not_a_profile
            | none ↦ ok (record { name = blob_name r s d; digest = d.digest; size = d.size })
          ])) [ some e ↦ inl refl | none ↦ tt ]

  blobs_of-Coded :
      (layers : Map Descriptor) (ss : List ModelShard) → ErrsCoded (blobs_of r layers ss)
  unfolding blobs_of
  blobs_of-Coded layers [] = tt
  blobs_of-Coded layers (s ∷ ss) =
      chain _ _ (blob_of-Coded layers s) λ b. chain _ _ (blobs_of-Coded layers ss) λ bs. tt

  fetch_from-Coded : (ref repository digest : Text) → ErrsCoded (fetch_from r ref repository digest)
  unfolding fetch_from map_reason_to_exit_code
  fetch_from-Coded ref repository digest =
      chain _ _ (require-Coded (r.repository_ok repository) invalid (inl refl)) λ _.
        chain _ _ (fetch_manifest-Coded repository digest) λ m.
          chain _ _ (fetch_profile-Coded repository m.config) λ p.
            chain _ _
              (blobs_of-Coded (layer_map_from [] m.layers) (sort_shards_by_ordinal p.shards))
              λ bs. tt

  -- An error of a fetch has the exit code of its reason, so that it keeps it where only the reason
  -- is kept; but a shard without a layer is an error of integrity, and its reason one of the registry.
  pub fetch-Coded : (ref : Text) (e : AppError) → fetch r ref ≡ err e → Coded e
  unfolding fetch map_reason_to_exit_code
  fetch-Coded ref e h = subst ErrsCoded h whole_fetch
    where
      whole_fetch : ErrsCoded (fetch r ref)
      whole_fetch =
          elim (parse_digest_pinned_ref r.algorithm ref)
            as (λ o. ErrsCoded (elim o as (λ _. Result FetchedModel) [
              | refused _ ↦ err invalid
              | parsed repository digest ↦ fetch_from r ref repository digest
            ])) [
              | refused _ ↦ inl refl
              | parsed repository digest ↦ fetch_from-Coded ref repository digest
            ]
