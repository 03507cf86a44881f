-- ===== src/Control/Service/Pages.antt =====
-- engine/control/service.ts, listProjects and snapshots: a list, a page at a time.
--
-- The rows that a session sees are those of its workspace: the policy of row-level security is
-- written into the query.
pub mod Complete
use forge_ai.Prelude.{
  ℕ, zero, suc, ◌-◌, Bool, true, ◌&&◌, not, Option, none, some, List, [], ◌∷◌, ltb, ◌==◌,
  if◌then◌else◌, is_some, keep, length, take,
}
use forge_ai.Control.Tables.{World, ProjectRow, SnapshotRow}

module _ {A : Type 0} (id : A → ℕ) where
  abbrev pub place : A → List A → List A
  place x [] = x ∷ []
  place x (y ∷ ys) = let rest = place x ys in if ltb (id y) (id x) then y ∷ rest else x ∷ y ∷ ys

  -- `ORDER BY id`
  abbrev pub in_order : List A → List A
  in_order [] = []
  in_order (x ∷ xs) = place x (in_order xs)

  -- `$1::uuid IS NULL OR id>$1`
  abbrev pub is_after : Option ℕ → A → Bool
  is_after none x = true
  is_after (some c) x = ltb c (id x)

  -- `rows[n].id`
  abbrev pub id_at : ℕ → List A → Option ℕ
  id_at n [] = none
  id_at zero (x ∷ xs) = some (id x)
  id_at (suc n) (x ∷ xs) = id_at n xs

pub record Page (A : Type 0) : Type 0 where
  pub items : List A
  pub next_cursor : Option ℕ

module _ {A : Type 0} (id : A → ℕ) where
  -- The query with `LIMIT limit+1`, and the page that is made of it.
  unfoldable pub page : Option ℕ → ℕ → List A → Page A
  page cursor limit table =
      let rows = take (suc limit) (keep (is_after id cursor) (in_order id table)) in
      record {
        items = take limit rows;
        next_cursor = if ltb limit (length rows) then id_at id (limit - 1) rows else none;
      }

abbrev pub project_id_of : ProjectRow → ℕ
project_id_of p = p.id

-- `listProjects`
unfoldable pub list_projects : ℕ → Option ℕ → ℕ → World → Page ProjectRow
unfolding page
list_projects workspace cursor limit w = page project_id_of cursor limit (
    keep (λ (p : ProjectRow). p.workspace_id == workspace && not (is_some p.deleting_at))
      w.projects)

abbrev pub snapshot_id_of : SnapshotRow → ℕ
snapshot_id_of x = x.id

-- `snapshots`
unfoldable pub list_snapshots : ℕ → Option ℕ → ℕ → World → Page SnapshotRow
unfolding page
list_snapshots id cursor limit w =
    page snapshot_id_of cursor limit (keep (λ (x : SnapshotRow). x.project_id == id) w.snapshots)
