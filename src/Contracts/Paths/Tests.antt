-- ===== src/Contracts/Paths/Tests.antt =====
-- engine/contracts/paths.ts: a source tree that is accepted.
use forge_ai.Prelude.{◌≡◌, ◌≢◌, refl, ok, false, [], ◌∷◌, ◌++◌, codes, map}
use forge_ai.Contracts.Primitives.{utf8_bytes}
use forge_ai.Contracts.Paths.{
  is_source_path, slash, fold, has, split, allowed, segment_ok, stem, assert_unique_paths,
  distinct_texts, collides, ancestors, reserved_device, secret_name, numbered,
}
use forge_ai.Contracts.Paths.Segments.{no_traversal}
use forge_ai.Contracts.Paths.Unique.{assert_unique_paths_no_directory, assert_unique_paths_distinct}

no_traversal_example :
    (is_source_path (codes "..") ≡ false)
    × (is_source_path (codes "../" ++ codes "x.ts") ≡ false)
    × (is_source_path (codes "app" ++ (slash ∷ codes "../" ++ codes "x.ts")) ≡ false)
    × (is_source_path (codes "app" ++ (slash ∷ codes "..")) ≡ false)
no_traversal_example = no_traversal (codes "app") (codes "x.ts")

accepted : assert_unique_paths (codes "lib/a.ts" ∷ codes "lib/b.ts" ∷ []) ≡ ok tt
unfolding assert_unique_paths is_source_path utf8_bytes allowed split segment_ok stem distinct_texts
    collides ancestors reserved_device secret_name numbered
accepted = refl

assert_unique_paths_no_directory_example :
    has
      (map fold (codes "lib/a.ts" ∷ codes "lib/b.ts" ∷ []))
      (codes "lib/a.ts" ++ slash ∷ codes "c.ts")
    ≡ false
assert_unique_paths_no_directory_example =
    assert_unique_paths_no_directory (codes "lib/a.ts" ∷ codes "lib/b.ts" ∷ []) (codes "lib/a.ts")
      (codes "c.ts") accepted refl

assert_unique_paths_distinct_example : fold (codes "lib/a.ts") ≢ fold (codes "lib/b.ts")
assert_unique_paths_distinct_example =
    assert_unique_paths_distinct [] [] [] (codes "lib/a.ts") (codes "lib/b.ts") accepted
