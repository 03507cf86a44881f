-- ===== src/Control/Service/Idempotency.antt =====
-- engine/control/service.ts, idempotent: a request that is sent again gets the response it had.
--
-- The digest of the input is `canonicalHash(input)`, computed by the caller. The advisory lock is
-- left out: a transaction is one step of the model.
pub mod Replay
use forge_ai.Prelude.{
  ℕ, ◌+◌, Bool, false, ◌&&◌, not, Option, none, some, List, [], ◌∷◌, ◌++◌, leb, ltb, ◌==◌, ◌!=◌,
  if◌then◌else◌, is_some, all, keep, find, length, in_range, same_text, invalid,
  idempotency_conflict,
}
use forge_ai.Control.Tables.{
  Response, RecordRow, Route, post_projects, patch_project, delete_project, post_jobs,
  post_restorations, post_approvals, post_promote, post_cancel,
}
use forge_ai.Control.Tx.{Environment, Tx, ◌>>=◌, ◌>>◌, return, reject_if, when, read, write, clock}

abbrev route_index : Route → ℕ
route_index (post_projects i) = 0
route_index (patch_project i) = 1
route_index (delete_project i) = 2
route_index (post_jobs i) = 3
route_index (post_restorations i) = 4
route_index (post_approvals i) = 5
route_index (post_cancel i) = 6
route_index (post_promote i) = 7

abbrev route_id : Route → ℕ
route_id (post_projects i) = i
route_id (patch_project i) = i
route_id (delete_project i) = i
route_id (post_jobs i) = i
route_id (post_restorations i) = i
route_id (post_approvals i) = i
route_id (post_cancel i) = i
route_id (post_promote i) = i

-- `keySchema`: 16 to 128 printable ASCII characters.
abbrev pub key_schema : List ℕ → Bool
key_schema key = leb 16 (length key) && leb (length key) 128 && all (in_range 33 126) key

-- `workspace_id=$1 AND actor_id=$2 AND route=$3 AND key=$4`
unfoldable pub record_is : ℕ → ℕ → Route → List ℕ → RecordRow → Bool
record_is workspace actor route key x =
    x.workspace_id == workspace
    && x.actor_id == actor
    && route_index x.route == route_index route
    && route_id x.route == route_id route
    && same_text x.key key

-- `prior && prior.expires_at > new Date()`
abbrev pub is_live : Option RecordRow → ℕ → Bool
is_live none now = false
is_live (some x) now = ltb now x.expires_at

module _ (env : Environment) where
  abbrev pub record_for : ℕ → ℕ → Route → List ℕ → ℕ → Response → RecordRow
  record_for workspace actor route key digest result = record {
    workspace_id = workspace;
    actor_id = actor;
    route = route;
    key = key;
    request_digest = digest;
    response = result;
    expires_at = env.begun + 86400000;
  }

  -- The action is run, and its response recorded.
  unfoldable pub run_recorded :
      ℕ → ℕ → Route → List ℕ → ℕ → Tx Response → Option RecordRow → Tx Response
  unfolding record_is
  run_recorded workspace actor route key digest action prior = do
    when (is_some prior) (
        write (λ w. record w {
          records = keep (λ x. not (record_is workspace actor route key x)) w.records;
        }))
    result ← action
    write (λ w. record w {
      records = w.records ++ record_for workspace actor route key digest result ∷ [];
    })
    return result

  -- A live record answers the request that it was made for.
  unfoldable pub answer :
      ℕ → ℕ → Route → List ℕ → ℕ → Tx Response → Option RecordRow → ℕ → Tx Response
  unfolding run_recorded
  answer workspace actor route key digest action none now =
      run_recorded workspace actor route key digest action none
  answer workspace actor route key digest action (some x) now =
      if is_live (some x) now
      then reject_if (x.request_digest != digest) idempotency_conflict >> return x.response
      else run_recorded workspace actor route key digest action (some x)

  unfoldable pub idempotent : ℕ → ℕ → Route → List ℕ → ℕ → Tx Response → Tx Response
  unfolding answer record_is
  idempotent workspace actor route key digest action = do
    reject_if (not (key_schema key)) invalid
    prior ← read (λ w. find (record_is workspace actor route key) w.records)
    now ← clock env
    answer workspace actor route key digest action prior now
