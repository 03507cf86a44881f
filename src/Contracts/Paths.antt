-- ===== src/Contracts/Paths.antt =====
-- engine/contracts/paths.ts: which paths generated source may have. A path is its code units.
pub mod Segments
pub mod Unique
mod Tests
use forge_ai.Prelude.{
  ℕ, Bool, true, false, ◌&&◌, ◌||◌, not, List, [], ◌∷◌, ◌++◌, map, leb, ltb, ◌==◌, if◌then◌else◌,
  is_digit, is_lower, is_upper, lower, codes, same_text, starts_with, ends_with, length, all, any,
  Result, duplicate_path, path_collision, invalid, ◌>>◌, throw_if,
}
use forge_ai.Contracts.Primitives.{utf8_bytes}

abbrev pub slash : ℕ
slash = b'/'

abbrev cons_head : ℕ → List (List ℕ) → List (List ℕ)
cons_head c [] = (c ∷ []) ∷ []
cons_head c (s ∷ ss) = (c ∷ s) ∷ ss

-- `path.split('/')`
unfoldable pub split : List ℕ → List (List ℕ)
split [] = [] ∷ []
split (c ∷ s) = let rest = split s in if c == slash then [] ∷ rest else cons_head c rest

-- `[A-Za-z0-9_./()[\]-]`
unfoldable pub allowed : ℕ → Bool
allowed c =
    is_upper c
    || is_lower c
    || is_digit c
    || c == b'_'
    || c == b'.'
    || c == slash
    || c == b'('
    || c == b')'
    || c == b'['
    || c == b']'
    || c == b'-'

-- The text before the first dot.
unfoldable pub stem : List ℕ → List ℕ
stem [] = []
stem (c ∷ s) = let rest = stem s in if c == b'.' then [] else c ∷ rest

abbrev pub fold : List ℕ → List ℕ
fold = map lower

abbrev one_of : List (List ℕ) → List ℕ → Bool
one_of names s = any (same_text s) names

-- `com[0-9]`, `lpt[0-9]`
unfoldable pub numbered : List ℕ → List ℕ → Bool
numbered [] (d ∷ []) = is_digit d
numbered [] _ = false
numbered (a ∷ p) [] = false
numbered (a ∷ p) (b ∷ s) = a == b && numbered p s

unfoldable pub reserved_device : List ℕ → Bool
unfolding numbered
reserved_device s =
    one_of (codes "con" ∷ codes "prn" ∷ codes "aux" ∷ codes "nul" ∷ []) s
    || numbered (codes "com") s
    || numbered (codes "lpt") s

unfoldable pub secret_name : List ℕ → Bool
secret_name s =
    one_of
      (codes ".npmrc"
        ∷ codes ".netrc"
        ∷ codes ".pypirc"
        ∷ codes "credentials.json"
        ∷ codes "service-account.json"
        ∷ codes "id_rsa"
        ∷ codes "id_ed25519"
        ∷ [])
      s

-- The tests of one segment; the `i` flag is read as folding to lower case.
unfoldable pub segment_ok : List ℕ → Bool
unfolding stem reserved_device secret_name
segment_ok segment =
    let s = fold segment in
    not (one_of ([] ∷ codes "." ∷ codes ".." ∷ []) segment)
    && not (ends_with (codes ".") segment)
    && not (one_of (codes ".git" ∷ codes "node_modules" ∷ codes ".next" ∷ codes ".ssh" ∷ []) s)
    && not (secret_name s)
    && not (starts_with (codes ".env") s && not (same_text (codes ".env.example") s))
    && not (reserved_device (stem s))
    && not (
        ends_with (codes ".pem") s
        || ends_with (codes ".key") s
        || ends_with (codes ".p12") s
        || ends_with (codes ".pfx") s)

unfoldable pub is_source_path : List ℕ → Bool
unfolding utf8_bytes allowed split segment_ok
is_source_path path =
    not (same_text path [])
    && leb (utf8_bytes path) 240
    && all allowed path
    && all segment_ok (split path)

-- What follows a prefix, `/^prefix(.*)$/`.
pub after : List ℕ → List ℕ → List ℕ
after [] s = s
after (a ∷ p) [] = []
after (a ∷ p) (b ∷ s) = after p s

-- `/^[a-z0-9_]+\.sql$/`
sql_name : List ℕ → Bool
unfolding stem after
sql_name s =
    let name = stem s in
    ltb 0 (length name)
    && all (λ c. is_lower c || is_digit c || c == b'_') name
    && same_text s (name ++ codes ".sql")

-- `/^[0-9]{4}_[a-z0-9_]+\.sql$/`
migration_name : List ℕ → Bool
unfolding sql_name
migration_name (a ∷ b ∷ c ∷ d ∷ u ∷ s) =
    is_digit a && is_digit b && is_digit c && is_digit d && u == b'_' && sql_name s
migration_name _ = false

pub is_migration_path : List ℕ → Bool
unfolding migration_name after
is_migration_path path =
    starts_with (codes "migrations/") path && migration_name (after (codes "migrations/") path)

-- `/.+\.(ts|tsx|css|json)$/` on what follows the root
source_name : List ℕ → Bool
source_name s =
    any (λ e. ends_with e s && ltb (length e) (length s))
      (codes ".ts" ∷ codes ".tsx" ∷ codes ".css" ∷ codes ".json" ∷ [])

-- `/^(app|components|lib)\/.+\.(ts|tsx|css|json)$/`
pub is_app_path : List ℕ → Bool
unfolding source_name after
is_app_path path =
    any (λ root. starts_with root path && source_name (after root path))
      (codes "app/" ∷ codes "components/" ∷ codes "lib/" ∷ [])

-- `/^(?:__tests__|tests|instrumentation|middleware)(?:\.|$)/i`
pub reserved_stem : List ℕ → Bool
unfolding stem
reserved_stem segment =
    one_of (codes "__tests__" ∷ codes "tests" ∷ codes "instrumentation" ∷ codes "middleware" ∷ [])
      (stem (fold segment))

last_segment : List (List ℕ) → List ℕ
last_segment [] = []
last_segment (s ∷ []) = s
last_segment (s ∷ ss) = last_segment ss

-- `/\.(?:test|spec)\.[^/]+$/i`, on the last segment
infix_test : List ℕ → Bool
infix_test [] = false
infix_test (c ∷ s) =
    starts_with (codes ".test.") (c ∷ s) && ltb 6 (length (c ∷ s))
    || starts_with (codes ".spec.") (c ∷ s) && ltb 6 (length (c ∷ s))
    || infix_test s

-- The file-name test of the last line of `isGeneratedPath`.
pub reserved_file : List ℕ → Bool
unfolding stem infix_test
reserved_file segment =
    let s = fold segment in
    one_of (codes "package" ∷ codes "tsconfig" ∷ []) (stem s) && ends_with (codes ".json") s
    || infix_test s

unfoldable pub is_generated_path : List ℕ → Bool
unfolding is_source_path is_migration_path is_app_path reserved_stem reserved_file last_segment
is_generated_path path =
    if not (is_source_path path)
      || not (same_text (fold path) path) && ends_with (codes ".sql") (fold path)
    then false
    else if is_migration_path path
    then true
    else if not (is_app_path path)
    then false
    else not (any reserved_stem (split path)) && not (reserved_file (last_segment (split path)))

-- `parts.slice(0, i).join('/')` for each i from 1: the text before each slash.
unfoldable pub ancestors : List ℕ → List (List ℕ)
ancestors [] = []
ancestors (c ∷ s) =
    let rest = map (λ p. c ∷ p) (ancestors s) in if c == slash then [] ∷ rest else rest

abbrev pub has : List (List ℕ) → List ℕ → Bool
has [] p = false
has (q ∷ qs) p = same_text q p || has qs p

unfoldable pub distinct_texts : List (List ℕ) → Bool
distinct_texts [] = true
distinct_texts (p ∷ ps) = not (has ps p) && distinct_texts ps

unfoldable pub collides : List (List ℕ) → List ℕ → Bool
unfolding ancestors
collides set path = any (has set) (ancestors path)

unfoldable pub assert_unique_paths : List (List ℕ) → Result (Unit {0})
unfolding is_source_path distinct_texts collides
assert_unique_paths paths = do
  throw_if (not (all is_source_path paths)) invalid
  throw_if (not (distinct_texts (map fold paths))) duplicate_path
  throw_if (any (collides (map fold paths)) (map fold paths)) path_collision
