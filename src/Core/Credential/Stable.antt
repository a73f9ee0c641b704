-- ===== src/Core/Credential/Stable.antt =====
-- `load_or_create_http_bearer` of crates/folk-core/src/lib.rs gives a valid credential, and again the
-- same.
use folk_around.Prelude.{
  ℕ, true, [], some, ◌≡◌, sym, arith, ◌∙◌, subst, Option-cases, Bool-cases, inl, inr, length, take,
  ◌==◌,
}
use folk_around.Text.{Text, Bytes, codes}
use folk_around.Text.Path.{join}
use folk_around.Text.Utf8.{as_bytes, from_utf8}
use folk_around.Effect.{ok, Result-cases}
use folk_around.Core.Disk.{
  already_exists, not_found, other_error, Node, file, directory, other_node, Disk, get_node,
  create_new, write_all, sync_all, set_permissions, symlink_metadata, read_file,
}
use folk_around.Core.Credential.{
  try, new_token, old_token, reread_token, read_token, check_token, settle_token, open_token,
  open_new_private_file, valid_http_bearer, generate_hex, load_or_create_http_bearer, config_dir,
  ensure_private_dir,
}
use folk_around.Core.Credential.Hex.{
  length-as_bytes_hex, valid_http_bearer-generate_hex, from_utf8-generate_hex,
}
use folk_around.Core.Credential.Success.{
  bind_ok, try_ok, create_new_ok, write_all_ok, sync_all_nodes, symlink_metadata_ok,
  set_permissions_ok, read_file_ok,
}

-- What a file has to hold for a token to be read from it.
pub record Holds (token : Text) (contents : Bytes) : Type 0 where
  pub size : length contents ≡ 64
  pub reads : from_utf8 (take 65 contents) ≡ some token
  pub valid : valid_http_bearer token ≡ true

-- The disk has a private file with the token.
pub record IsStored (path token : Text) (d : Disk) : Type 0 where
  pub contents : Bytes
  pub private_file : get_node path d.nodes ≡ some (file 0o600 contents)
  pub holds : Holds token contents

new_token-IsStored :
    (path token t : Text) (d d' : Disk)
    → get_node path d.nodes ≡ some (file 0o600 [])
    → Holds token (as_bytes token)
    → new_token path token d ≡ (ok t, d')
    → IsStored path t d'
unfolding new_token
new_token-IsStored path token t d d' f holds h =
    let (u, hw, h1) = bind_ok (try (write_all path (as_bytes token))) _ d d' t h in
    let d1 = (write_all path (as_bytes token) d).1 in
    let (v, hs, h2) = bind_ok (try sync_all) _ d1 d' t h1 in
    let d2 = (sync_all d1).1 in
    let (w, ht, h3) = bind_ok (try sync_all) _ d2 d' t h2 in
    let same : token ≡ t = ground (arith, h3) in
    let end : (sync_all d2).1 ≡ d' = ground (arith, h3) in
    let written =
      write_all_ok path (as_bytes token) [] 0o600 d f
        (try_ok (write_all path (as_bytes token)) d tt hw) in
    record {
      contents = as_bytes token;
      private_file =
          subst (λ x. get_node path x.nodes ≡ some (file 0o600 (as_bytes token))) end
            (subst (λ ns. get_node path ns ≡ some (file 0o600 (as_bytes token)))
              (sym (sync_all_nodes d2 ∙ sync_all_nodes d1)) written);
      holds = subst (λ x. Holds x (as_bytes token)) same holds;
    }

checked-Holds :
    (contents : Bytes) (t : Text) (d d' : Disk)
    → length contents ≡ 64
    → check_token contents d ≡ (ok t, d')
    → Holds t contents × (d ≡ d')
unfolding check_token
checked-Holds contents t d d' size h = elim (Option-cases (from_utf8 (take 65 contents))) [
  | inl e ↦ (let bad : ⊥ = ground (arith, h, e) in elim bad [ ])
  | inr (s, e) ↦ elim (Bool-cases (valid_http_bearer s)) [
    | inr v ↦ (let bad : ⊥ = ground (arith, h, e, v) in elim bad [ ])
    | inl v ↦
        let same : s ≡ t = ground (arith, h, e, v) in
        (
          subst (λ x. Holds x contents) same (record { size = size; reads = e; valid = v }),
          ground (arith, h, e, v),
        )
  ]
]

reread_token-IsStored :
    (path t : Text) (mode : ℕ) (contents : Bytes) (d d' : Disk)
    → length contents ≡ 64
    → get_node path d.nodes ≡ some (file mode contents)
    → reread_token path d ≡ (ok t, d')
    → IsStored path t d'
unfolding reread_token
reread_token-IsStored path t mode contents d d' size f h =
    let (u, hp, h1) = bind_ok (try (set_permissions path 0o600)) _ d d' t h in
    let d1 = (set_permissions path 0o600 d).1 in
    let (bytes, hr, h2) = bind_ok (try (read_file path)) check_token d1 d' t h1 in
    let d2 = (read_file path d1).1 in
    let kept =
      set_permissions_ok path 0o600 mode contents d f
        (try_ok (set_permissions path 0o600) d tt hp) in
    let (same, still) =
      read_file_ok path 0o600 contents bytes d1 kept (try_ok (read_file path) d1 bytes hr) in
    let (holds, end) =
      checked-Holds contents t d2 d' size (subst (λ b. check_token b d2 ≡ (ok t, d')) same h2) in
    record {
      contents = contents;
      private_file =
          subst (λ x. get_node path x.nodes ≡ some (file 0o600 contents)) end
            (subst (λ ns. get_node path ns ≡ some (file 0o600 contents)) (sym still) kept);
      holds = holds;
    }

read_token-IsStored :
    (path t : Text) (node : Node) (d d' : Disk)
    → get_node path d.nodes ≡ some node
    → read_token path node d ≡ (ok t, d')
    → IsStored path t d'
unfolding read_token
read_token-IsStored path t (directory mode) d d' f h =
    (let bad : ⊥ = ground (arith, h) in elim bad [ ])
read_token-IsStored path t other_node d d' f h = (let bad : ⊥ = ground (arith, h) in elim bad [ ])
read_token-IsStored path t (file mode contents) d d' f h =
    elim (Bool-cases (length contents == 64)) [
      | inr e ↦ (let bad : ⊥ = ground (arith, h, e) in elim bad [ ])
      | inl e ↦
          reread_token-IsStored path t mode contents d d' (ground (arith, e)) f
            (ground (arith, h, e))
    ]

old_token-IsStored :
    (path t : Text) (d d' : Disk) → old_token path d ≡ (ok t, d') → IsStored path t d'
unfolding old_token
old_token-IsStored path t d d' h =
    let (node, hm, h1) = bind_ok (try (symlink_metadata path)) (read_token path) d d' t h in
    let (f, still) = symlink_metadata_ok path d node (try_ok (symlink_metadata path) d node hm) in
    read_token-IsStored path t node (symlink_metadata path d).1 d'
      (subst (λ ns. get_node path ns ≡ some node) (sym still) f) h1

open_token-IsStored :
    (path token t : Text) (d d' : Disk)
    → Holds token (as_bytes token)
    → open_token path token d ≡ (ok t, d')
    → IsStored path t d'
unfolding open_token open_new_private_file settle_token
open_token-IsStored path token t d d' holds h =
    let d1 = (create_new path 0o600 d).1 in
    elim (Result-cases (create_new path 0o600 d).0) [
      | inl (u, e) ↦
          new_token-IsStored path token t d1 d' (create_new_ok path 0o600 d e) holds
            (ground (arith, h, e))
      | inr (already_exists, e) ↦ old_token-IsStored path t d1 d' (ground (arith, h, e))
      | inr (not_found, e) ↦ (let bad : ⊥ = ground (arith, h, e) in elim bad [ ])
      | inr (other_error, e) ↦ (let bad : ⊥ = ground (arith, h, e) in elim bad [ ])
    ]

-- Whenever a credential is given, whether it was created or found and whatever failed before, it is
-- 64 hexadecimal digits, and the disk holds it in a file that only the owner may use; a new one is
-- made of 32 random bytes.
pub load_or_create_http_bearer-IsStored :
    (home t : Text) (random : Bytes) (d d' : Disk)
    → length random ≡ 32
    → load_or_create_http_bearer true (some home) random d ≡ (ok t, d')
    → IsStored (join (config_dir home) (codes "http-token")) t d'
unfolding load_or_create_http_bearer
load_or_create_http_bearer-IsStored home t random d d' size h =
    let (u, he, h1) = bind_ok (try (ensure_private_dir (config_dir home))) _ d d' t h in
    open_token-IsStored (join (config_dir home) (codes "http-token")) (generate_hex random) t
      (ensure_private_dir (config_dir home) d).1 d'
      (record {
        size = length-as_bytes_hex random size;
        reads = from_utf8-generate_hex random size;
        valid = valid_http_bearer-generate_hex random size;
      })
      h1
