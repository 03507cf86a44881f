-- ===== src/Contracts/Primitives.antt =====
-- engine/contracts/primitives.ts: the scalar schemas and the limits.
--
-- A UUID or a digest is the number that its hexadecimal text spells; the shape of such a text is
-- carried by the type. Ill-typed JSON is out of the model: a schema is the test on well-typed values.
use forge_ai.Prelude.{
  ℕ, ◌+◌, Bool, true, false, not, Option, none, some, ◌&&◌, List, [], ◌∷◌, leb, ltb, ◌==◌,
  if◌then◌else◌, in_range, length, distinct, map,
}

-- `Number.MAX_SAFE_INTEGER`
abbrev pub max_safe : ℕ
max_safe = 9007199254740991

abbrev pub uint : ℕ → Bool
uint n = leb n max_safe

abbrev pub positive : ℕ → Bool
positive n = leb 1 n && leb n max_safe

-- `positive.max(m)`
abbrev pub positive_max : ℕ → ℕ → Bool
positive_max m n = leb 1 n && leb n m

-- An ISO date-time text: the instant that `Date.parse` reads, in milliseconds from the start of the
-- year 0 (a text of that first day whose offset puts it before has no counterpart), and the spelling (offset, digits of the fraction) that it is written in.
-- The spelling of `toISOString` is 0.
pub record Timestamp : Type 0 where
  pub instant : ℕ
  pub spelling : ℕ

-- The end of the year 9999.
abbrev pub calendar_end : ℕ
calendar_end = 315569520000000

-- `timestamp`: a year has four digits. `toISOString` writes more from the year 10000 on, and an offset
-- lets a text of the last day mean an instant up to 23:59 h later.
abbrev pub datetime : Timestamp → Bool
datetime t = ltb t.instant (if t.spelling == 0 then calendar_end else calendar_end + 86340000)

-- `timestamp.nullable()`
abbrev pub datetime_option : Option Timestamp → Bool
datetime_option none = true
datetime_option (some t) = datetime t

-- `===` on the texts
abbrev pub same_timestamp : Timestamp → Timestamp → Bool
same_timestamp a b = a.instant == b.instant && a.spelling == b.spelling

-- `new Date(ms).toISOString()`
abbrev pub iso : ℕ → Timestamp
iso ms = record { instant = ms; spelling = 0 }

abbrev pub file_bytes : ℕ
file_bytes = 262144

abbrev pub source_bytes : ℕ
source_bytes = 10485760

abbrev pub max_files : ℕ
max_files = 200

abbrev pub max_operations : ℕ
max_operations = 100

abbrev is_high : ℕ → Bool
is_high c = in_range 0xd800 0xdbff c

abbrev is_low : ℕ → Bool
is_low c = in_range 0xdc00 0xdfff c

-- The bytes of a code unit that is half of no pair; a lone surrogate is written as U+FFFD.
abbrev unit_bytes : ℕ → ℕ
unit_bytes c = if ltb c 128 then 1 else if ltb c 2048 then 2 else 3

-- `pending` says that the unit before was a high surrogate, which is not counted yet.
utf8_from : Bool → List ℕ → ℕ
utf8_from pending [] = if pending then 3 else 0
utf8_from pending (c ∷ s) =
    (if pending && is_low c
      then 4
      else (if pending then 3 else 0) + (if is_high c then 0 else unit_bytes c))
    + utf8_from (is_high c) s

-- `new TextEncoder().encode(value).length`
unfoldable pub utf8_bytes : List ℕ → ℕ
unfolding utf8_from
utf8_bytes value = utf8_from false value

-- `wellFormed`: no surrogate without its pair. `pending` says that the unit before was a high one.
well_formed_from : Bool → List ℕ → Bool
well_formed_from pending [] = not pending
well_formed_from pending (c ∷ s) =
    (if pending then is_low c else not (is_low c)) && well_formed_from (not pending && is_high c) s

unfoldable pub well_formed : List ℕ → Bool
unfolding well_formed_from
well_formed value = well_formed_from false value

pub data CheckId : Type 0 where
  source_policy dependencies secrets migration_fresh migration_prior lint typecheck : CheckId
  unit build http browser_crud db_restart keyboard responsive : CheckId

-- The position in `checkIds`.
abbrev pub check_index : CheckId → ℕ
check_index source_policy = 0
check_index dependencies = 1
check_index secrets = 2
check_index migration_fresh = 3
check_index migration_prior = 4
check_index lint = 5
check_index typecheck = 6
check_index unit = 7
check_index build = 8
check_index http = 9
check_index browser_crud = 10
check_index db_restart = 11
check_index keyboard = 12
check_index responsive = 13

-- Every mandatory check, each once.
unfoldable pub required_checks : List CheckId → Bool
required_checks v = length v == 14 && distinct (map check_index v)

pub record Resources : Type 0 where
  pub cpu : ℕ
  pub memory_mib : ℕ
  pub processes : ℕ
  pub disk_mib : ℕ
  pub log_bytes : ℕ
  pub active_ms : ℕ
  pub verification_ms : ℕ
  pub max_cost_micros : ℕ

unfoldable pub resources_schema : Resources → Bool
resources_schema r =
    positive_max 2 r.cpu
    && positive_max 4096 r.memory_mib
    && positive_max 512 r.processes
    && positive_max 8192 r.disk_mib
    && positive_max 10485760 r.log_bytes
    && positive_max 1200000 r.active_ms
    && positive_max 600000 r.verification_ms
    && uint r.max_cost_micros

pub record Scope : Type 0 where
  pub workspace_id : ℕ
  pub project_id : ℕ
  pub job_id : ℕ

abbrev pub same_scope : Scope → Scope → Bool
same_scope a b =
    a.workspace_id == b.workspace_id && a.project_id == b.project_id && a.job_id == b.job_id
