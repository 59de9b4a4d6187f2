-- ===== src/TestHttpServer/Paths.antt =====
-- Which paths are served, and what becomes of the request.
use gnyproxy.Prelude.{
  ◌≡◌, refl, sym, ap, ◌∙◌, true, false, ◌&&◌, [], ◌∷◌, ◌++◌, ◌==◌, ==_iff, Bytes, Bool-cases,
  Option-cases, inl, inr,
}
use gnyproxy.Http.{c_str}
use gnyproxy.TestHttpServer.{
  FileSystem, is_under, Resource, text, names_in, file_at, open_path, find_resource,
}

is_under-append :
    (base_path path : Bytes)
    → is_under base_path path ≡ true
    → (rest : Bytes) × (path ≡ base_path ++ rest)
unfolding is_under
is_under-append [] path h = (path, refl)
is_under-append (b ∷ base_path) [] h = absurd (cc)
is_under-append (b ∷ base_path) (c ∷ path) h = elim (Bool-cases (b == c)) [
  | inl same ↦
      let under : is_under base_path path ≡ true =
        ap (λ t. t && is_under base_path path) (sym same) ∙ h in
      let (rest, e) = is_under-append base_path path under in
      let head = (==_iff b c).0 same in (rest, cc)
  | inr other ↦ absurd (different (ap (λ t. t && is_under base_path path) (sym other) ∙ h))
]
  where
    different : false ≡ true → ⊥
    different h = cc

-- The path of a resource begins with the base path; a text has none.
abbrev pub Below : Bytes → Resource → Type 0
Below base_path (text t) = Unit
Below base_path (names_in path names) = (rest : Bytes) × (path ≡ base_path ++ rest)
Below base_path (file_at path fd) = (rest : Bytes) × (path ≡ base_path ++ rest)

open_path-Below :
    (fs : FileSystem) (base_path path : Bytes)
    → (rest : Bytes) × (path ≡ base_path ++ rest)
    → Below base_path (open_path fs path)
unfolding open_path
open_path-Below fs base_path path under = elim (Option-cases (fs.opendir path)) [
  | inr (names, e) ↦ rw (open_path, e) under
  | inl e ↦ elim (Option-cases (fs.open_file path)) [
    | inr (fd, e') ↦ rw (open_path, e, e') under
    | inl e' ↦ rw (open_path, e, e') tt
  ]
]

-- The path of a directory or of a file that MyHttpServer answers with begins with the base path,
-- whatever the file system says.
pub find_resource-Below :
    (fs : FileSystem) (base_path url : Bytes) → Below base_path (find_resource fs base_path url)
unfolding find_resource
find_resource-Below fs base_path url =
    elim (Option-cases (fs.realpath (c_str (base_path ++ (b'/' ∷ url))))) [
      | inl e ↦ rw (find_resource, e) tt
      | inr (path, e) ↦ elim (Bool-cases (is_under base_path path)) [
        | inl under ↦
            rw (find_resource, e, under)
              (open_path-Below fs base_path path (is_under-append base_path path under))
        | inr other ↦ rw (find_resource, e, other) tt
      ]
    ]
