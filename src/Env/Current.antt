-- ===== src/Env/Current.antt =====
-- Which manifest the file CURRENT leads to.
use am_kv.Prelude.{
  ℕ, ◌==◌, ◌≡◌, refl, ap, ◌∙◌, false, [], ◌∷◌, ◌++◌, Bytes, append_assoc, All, some,
}
use am_kv.FileName.{format_number, manifest_prefix, descriptor_file_name}
use am_kv.Env.{after_first, without_directory, manifest_name, manifest_path}

-- There is no slash in the string.
abbrev pub HasNoSlash : Bytes → Type 0
HasNoSlash s = All (λ x. (x == 47) ≡ false) s

after_first-append : (a b : Bytes) → HasNoSlash a → after_first 47 (a ++ (47 ∷ b)) ≡ some b
unfolding after_first
after_first-append [] b h = refl
after_first-append (x ∷ a) b h = rw (h.0) (after_first-append a b h.1)

without_directory-append : (a b : Bytes) → HasNoSlash a → without_directory (a ++ (47 ∷ b)) ≡ b
unfolding without_directory
without_directory-append a b h = rw (without_directory, after_first-append a b h)

-- Where the name of the database has no slash, CURRENT leads to the manifest of the number.
pub manifest_path-manifest_name :
    (dbname : Bytes) (n : ℕ)
    → HasNoSlash dbname
    → manifest_path dbname (manifest_name dbname n) ≡ descriptor_file_name dbname n
unfolding manifest_path manifest_name descriptor_file_name
manifest_path-manifest_name dbname n h =
    ap (λ x. dbname ++ (47 ∷ x))
      (without_directory-append dbname (manifest_prefix ++ format_number n) h)

-- Where it has one, what is behind the first slash of the name is in the path twice.
pub manifest_path-nested :
    (front rest : Bytes) (n : ℕ)
    → HasNoSlash front
    → (let dbname = front ++ (47 ∷ rest) in
        manifest_path dbname (manifest_name dbname n)
        ≡ dbname ++ (47 ∷ descriptor_file_name rest n))
unfolding manifest_path manifest_name descriptor_file_name
manifest_path-nested front rest n h =
    let name : Bytes = manifest_prefix ++ format_number n in
    ap (λ x. (front ++ (47 ∷ rest)) ++ (47 ∷ x))
      (ap without_directory (append_assoc front (47 ∷ rest) (47 ∷ name))
        ∙ without_directory-append front (rest ++ (47 ∷ name)) h)
