-- ===== src/Core/Artifact.antt =====
-- `create_artifact_file` of crates/folk-core/src/lib.rs. The random bytes of each attempt are an
-- argument.
use folk_around.Prelude.{
  ℕ, zero, suc, Bool, true, false, List, [], ◌∷◌, ◌++◌, Option, none, some, ◌≡◌, refl, sym, ◌∙◌,
  subst, arith, inl, inr,
}
use folk_around.Text.{Text, Bytes, codes}
use folk_around.Text.Path.{join}
use folk_around.Effect.{ok, err, Exec, ◌>>◌, pure, raise, Result-cases}
use folk_around.Core.Disk.{
  already_exists, not_found, other_error, file, Disk, get_node, create_new, sync_all,
}
use folk_around.Core.Credential.{
  ConfigError, io, home_missing, private_permissions_unavailable, try, generate_hex, config_dir,
  ensure_private_dir, open_new_private_file,
}
use folk_around.Core.Credential.Success.{bind_ok, create_new_ok, sync_all_nodes}

pub record ArtifactFile : Type 0 where
  pub path : Text
  pub locator : Text

-- What the first `n` attempts draw.
abbrev pub first_ids : ℕ → (ℕ → Bytes) → List Bytes
first_ids zero ids = []
first_ids (suc n) ids = ids n ∷ first_ids n ids

unfoldable pub artifact_name : Bytes → Text
artifact_name id = generate_hex id ++ codes ".png"

-- the arm of a file that was created
unfoldable pub finish_artifact : Text → Text → Exec Disk ConfigError ArtifactFile
finish_artifact dir name =
    try sync_all
    >> (try sync_all
        >> pure (record { path = join dir name; locator = codes "folk-artifact:" ++ name }))

-- The loop over the attempts; a name that is taken costs one.
unfoldable pub attempt_artifact : Text → List Bytes → Exec Disk ConfigError ArtifactFile
attempt_artifact dir [] d = (err (io already_exists), d)
attempt_artifact dir (id ∷ ids) d =
    let name = artifact_name id in
    let d' = (open_new_private_file (join dir name) d).1 in
    let rest = attempt_artifact dir ids d' in
    elim (open_new_private_file (join dir name) d).0 [
      | ok _ ↦ finish_artifact dir name d'
      | err already_exists ↦ rest
      | err e ↦ (err (io e), d')
    ]

unfoldable pub create_artifact_file :
    (unix : Bool) (home : Option Text) (ids : ℕ → Bytes) → Exec Disk ConfigError ArtifactFile
create_artifact_file false home ids = raise private_permissions_unavailable
create_artifact_file true none ids = raise home_missing
create_artifact_file true (some home) ids =
    try (ensure_private_dir (config_dir home))
    >> (try (ensure_private_dir (join (config_dir home) (codes "artifacts")))
        >> attempt_artifact (join (config_dir home) (codes "artifacts")) (first_ids 16 ids))

-- A new file of the artifact directory, empty and private.
pub record IsFresh (dir : Text) (a : ArtifactFile) (d : Disk) : Type 0 where
  pub id : Bytes
  pub named : a.path ≡ join dir (artifact_name id)
  pub located : a.locator ≡ codes "folk-artifact:" ++ artifact_name id
  pub private_file : get_node a.path d.nodes ≡ some (file 0o600 [])

finish_artifact-IsFresh :
    (dir : Text) (id : Bytes) (a : ArtifactFile) (d d' : Disk)
    → get_node (join dir (artifact_name id)) d.nodes ≡ some (file 0o600 [])
    → finish_artifact dir (artifact_name id) d ≡ (ok a, d')
    → IsFresh dir a d'
unfolding finish_artifact
finish_artifact-IsFresh dir id a d d' f h =
    let (u, e1, h1) = bind_ok (try sync_all) _ d d' a h in
    let d1 = (sync_all d).1 in
    let (v, e2, h2) = bind_ok (try sync_all) _ d1 d' a h1 in
    let d2 = (sync_all d1).1 in
    let made : record {
      path = join dir (artifact_name id);
      locator = codes "folk-artifact:" ++ artifact_name id;
    }
        ≡ a =
      ground (arith, h2) in
    let end : d2 ≡ d' = ground (arith, h2) in
    subst (λ x. IsFresh dir x d') made
      (record {
        id = id;
        named = refl;
        located = refl;
        private_file =
            subst (λ x. get_node (join dir (artifact_name id)) x.nodes ≡ some (file 0o600 [])) end
              (subst (λ ns. get_node (join dir (artifact_name id)) ns ≡ some (file 0o600 []))
                (sym (sync_all_nodes d1 ∙ sync_all_nodes d)) f);
      })

attempt_artifact-IsFresh :
    (dir : Text) (ids : List Bytes) (a : ArtifactFile) (d d' : Disk)
    → attempt_artifact dir ids d ≡ (ok a, d')
    → IsFresh dir a d'
unfolding attempt_artifact open_new_private_file
attempt_artifact-IsFresh dir [] a d d' h = (let bad : ⊥ = ground (arith, h) in elim bad [ ])
attempt_artifact-IsFresh dir (id ∷ ids) a d d' h =
    let path = join dir (artifact_name id) in
    let d1 = (create_new path 0o600 d).1 in
    elim (Result-cases (create_new path 0o600 d).0) [
      | inl (u, e) ↦
          finish_artifact-IsFresh dir id a d1 d' (create_new_ok path 0o600 d e)
            (ground (arith, h, e))
      | inr (already_exists, e) ↦ attempt_artifact-IsFresh dir ids a d1 d' (ground (arith, h, e))
      | inr (not_found, e) ↦ (let bad : ⊥ = ground (arith, h, e) in elim bad [ ])
      | inr (other_error, e) ↦ (let bad : ⊥ = ground (arith, h, e) in elim bad [ ])
    ]

-- Whenever an artifact file is given, it is an empty file in the artifact directory that only the
-- owner may use, and the locator carries its name alone.
pub create_artifact_file-IsFresh :
    (home : Text) (ids : ℕ → Bytes) (a : ArtifactFile) (d d' : Disk)
    → create_artifact_file true (some home) ids d ≡ (ok a, d')
    → IsFresh (join (config_dir home) (codes "artifacts")) a d'
unfolding create_artifact_file
create_artifact_file-IsFresh home ids a d d' h =
    let dir = join (config_dir home) (codes "artifacts") in
    let (u, e1, h1) = bind_ok (try (ensure_private_dir (config_dir home))) _ d d' a h in
    let d1 = (ensure_private_dir (config_dir home) d).1 in
    let (v, e2, h2) = bind_ok (try (ensure_private_dir dir)) _ d1 d' a h1 in
    attempt_artifact-IsFresh dir (first_ids 16 ids) a (ensure_private_dir dir d1).1 d' h2
