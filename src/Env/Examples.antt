-- ===== src/Env/Examples.antt =====
-- The databases "db" and "/tmp/db".
use am_kv.Prelude.{◌≡◌, refl, [], ◌∷◌, ◌++◌, Bytes}
use am_kv.FileName.{descriptor_file_name}
use am_kv.Env.{manifest_name, manifest_path}
use am_kv.Env.Current.{manifest_path-manifest_name, manifest_path-nested}

manifest_path-manifest_name_example :
    manifest_path (100 ∷ 98 ∷ []) (manifest_name (100 ∷ 98 ∷ []) 5)
    ≡ descriptor_file_name (100 ∷ 98 ∷ []) 5
manifest_path-manifest_name_example =
    manifest_path-manifest_name (100 ∷ 98 ∷ []) 5 (refl, (refl, tt))

manifest_path-nested_example :
    (let dbname : Bytes = 47 ∷ 116 ∷ 109 ∷ 112 ∷ 47 ∷ 100 ∷ 98 ∷ [] in
      manifest_path dbname (manifest_name dbname 5)
      ≡ dbname ++ (47 ∷ descriptor_file_name (116 ∷ 109 ∷ 112 ∷ 47 ∷ 100 ∷ 98 ∷ []) 5))
manifest_path-nested_example = manifest_path-nested [] (116 ∷ 109 ∷ 112 ∷ 47 ∷ 100 ∷ 98 ∷ []) 5 tt
