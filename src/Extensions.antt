-- ===== src/Extensions.antt =====
-- extensions.py: `ExtensionCatalog`. The manifests come as they are read, in the order of their
-- paths; their schemas and the validation by them are those of a library.
use jenkins_service.Prelude.{
  ℕ, String, ◌+++◌, Option, none, some, List, [], ◌∷◌, ◌==◌, any, all, is_some, if◌then◌else◌,
}
use jenkins_service.Exec.{Result, ok, err, value_error}
use jenkins_service.Dict.{Dict, lookup, insert, values}
use jenkins_service.Model.Json.{Json}
use jenkins_service.Model.Extension.{ExtensionManifest}

pub record ExtensionCatalog : Type 0 where
  pub manifests : Dict ExtensionManifest
  -- the first error of a value by a schema of an extension, of its input, 0, or its output, 1
  pub first_error : String → ℕ → Json → Option String

-- the manifests under their ids, where no two have the same
unfoldable pub collect :
    List ExtensionManifest → Dict ExtensionManifest → Result (Dict ExtensionManifest)
collect [] found = ok found
collect (manifest ∷ manifests) found =
    let rest = collect manifests (insert manifest.id manifest found) in
    if is_some (lookup manifest.id found)
    then err (value_error ("duplicate extension ID: " +++ manifest.id))
    else rest

-- the manifests that the allowlist names
unfoldable pub allowlisted : List String → Dict ExtensionManifest → Dict ExtensionManifest
allowlisted allowlist [] = []
allowlisted allowlist ((id, manifest) ∷ manifests) =
    let rest = allowlisted allowlist manifests in
    if any (λ a. a == id) allowlist then (id, manifest) ∷ rest else rest

-- `ExtensionCatalog(manifests, schemas, allowlist)`, without the names in its error
unfoldable pub new_catalog :
    (String → ℕ → Json → Option String)
    → List String
    → Dict ExtensionManifest
    → Result ExtensionCatalog
unfolding allowlisted
new_catalog first_error allowlist manifests =
    if all (λ id. is_some (lookup id manifests)) allowlist
    then ok (record { manifests = allowlisted allowlist manifests; first_error = first_error })
    else err (value_error "allowlisted extensions have no manifest")

unfoldable pub from_directory :
    (String → ℕ → Json → Option String)
    → List ExtensionManifest
    → List String
    → Result ExtensionCatalog
unfolding collect new_catalog
from_directory first_error manifests allowlist = elim (collect manifests []) [
  | err e ↦ err e
  | ok found ↦ new_catalog first_error allowlist found
]

-- a manifest that is found
abbrev pub allowed_manifest : String → Option ExtensionManifest → Result ExtensionManifest
allowed_manifest id none = err (value_error ("extension is not allowlisted: " +++ id))
allowed_manifest id (some manifest) = ok manifest

unfoldable pub get_manifest : ExtensionCatalog → String → Result ExtensionManifest
get_manifest catalog id = allowed_manifest id (lookup id catalog.manifests)

unfoldable pub list_manifests : ExtensionCatalog → List ExtensionManifest
list_manifests catalog = values catalog.manifests

abbrev pub schema_error : String → Option String → Result (Unit {0})
schema_error label none = ok tt
schema_error label (some message) =
    err (value_error ("extension " +++ (label +++ (" does not match schema: " +++ message))))

unfoldable pub validate_output : ExtensionCatalog → String → Json → Result (Unit {0})
unfolding get_manifest
validate_output catalog id value = elim (get_manifest catalog id) [
  | err e ↦ err e
  | ok manifest ↦ schema_error "output" (catalog.first_error id 1 value)
]

unfoldable pub validate_input : ExtensionCatalog → String → Json → Result (Unit {0})
unfolding get_manifest
validate_input catalog id value = elim (get_manifest catalog id) [
  | err e ↦ err e
  | ok manifest ↦ schema_error "input" (catalog.first_error id 0 value)
]
