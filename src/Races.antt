-- ===== src/Races.antt =====
-- Requests that overlap. src/fleet_api/database/connection.py gives each request a session of its own,
-- without locks and at the database's default isolation: two handlers may read the same rows before
-- either commits. The second commit meets the constraints, but nothing that its handler has checked.
pub mod Principals
pub mod Submissions
pub mod Posts
use fleet_api.Errors.{Reply}
use fleet_api.Store.{Db, Outcome, perform}

-- what both are answered, and the database in the end, the first committing first
abbrev pub overlapping : {A B : Type 0} → Outcome A → Outcome B → Db → Reply A × Reply B × Db
overlapping first second db =
    let (told, db') = perform first db in
    let (told', db'') = perform second db' in (told, told', db'')
