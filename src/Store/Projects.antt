-- ===== src/Store/Projects.antt =====
-- The projects of internal/store/sources.go and internal/store/runs.go: UpsertProject, ListProjects
-- and AssignProject.
use traceboard.Prelude.{
  ℕ, String, Bool, false, Option, none, some, List, [], ◌∷◌, ◌++◌, ◌==◌, ◌&&◌, not, map, exists_row,
  count_rows, update_rows, if◌then◌else◌,
}
use traceboard.Prelude.Sorting.{sort_by}
use traceboard.Prelude.TextOrder.{text_before}
use traceboard.Event.{Instant}
use traceboard.Store.{Db, ProjectRow, RunRow, Result, ok, err, constraint, project_id_required}

pub record Project : Type 0 where
  pub id : String
  pub name : Option String
  pub path : Option String
  pub run_count : ℕ
  pub created_at : Instant
  pub updated_at : Instant

abbrev given : Option String → Option String → Option String
given none old = old
given (some s) old = some s

abbrev is_project : String → ProjectRow → Bool
is_project id row = row.id == id

-- UpsertProject, with strings.TrimSpace as a parameter.
unfoldable pub upsert_project :
    (String → String) → Instant → String → Option String → Option String → Db → Result Db
upsert_project trim_space now id name path db =
    if trim_space id == ""
    then err project_id_required
    else if exists_row (is_project id) db.projects
    then ok (record db {
      projects =
          update_rows (is_project id)
            (λ row. record row {
              name = given name row.name;
              path = given path row.path;
              updated_at = now;
            })
            db.projects;
    })
    else ok (record db {
      projects =
          db.projects
          ++ (record { id = id; name = name; path = path; created_at = now; updated_at = now }
              ∷ []);
    })

abbrev owned_by : String → RunRow → Bool
owned_by id run = elim run.project_id [ none ↦ false | some p ↦ p == id ]

abbrev project_view : Db → ProjectRow → Project
project_view db row = record {
  id = row.id;
  name = row.name;
  path = row.path;
  run_count = count_rows (owned_by row.id) db.runs;
  created_at = row.created_at;
  updated_at = row.updated_at;
}

-- ListProjects
unfoldable pub list_projects : Db → List Project
list_projects db =
    sort_by (λ p q. text_before (Project.id p) (Project.id q)) (map (project_view db) db.projects)

abbrev assign_one : String → String → RunRow → RunRow
assign_one project run_id run = record run { project_id = some project }

-- The loop of AssignProject. The foreign key is checked where a row is updated.
unfoldable pub assign_loop : List String → String → Db → Result Db
assign_loop [] project db = ok db
assign_loop (run_id ∷ rest) project db =
    let changed = record db {
      runs = update_rows (λ r. RunRow.id r == run_id) (assign_one project run_id) db.runs;
    } in
    let later = assign_loop rest project changed in
    if exists_row (λ r. RunRow.id r == run_id) db.runs
      && not (exists_row (is_project project) db.projects)
    then err (constraint "runs.project_id foreign key")
    else later

-- AssignProject: the transaction is rolled back with the first error.
unfoldable pub assign_project : List String → String → Db → Result Db
unfolding assign_loop
assign_project run_ids project db = assign_loop run_ids project db
