-- ===== src/Api/Invariant.antt =====
-- The invariant of the database over any sequence of requests.
use fleet_api.Base.{subst, sym, inl, inr, List, [], ◌∷◌}
use fleet_api.Settings.{Settings, Ambient}
use fleet_api.Store.{Db}
use fleet_api.Store.WellFormed.{IsWellFormed, commit-IsWellFormed}
use fleet_api.Api.{Externals, Request, handle, serve, work_of}
use fleet_api.Api.Commits.{handle-cases, work_of-IsLawful}

module _ (ext : Externals) (settings : Settings) where
  handle-IsWellFormed :
      (call : Ambient) (r : Request) (db : Db)
      → IsWellFormed settings.fleet_lineage_max_depth db
      → IsWellFormed settings.fleet_lineage_max_depth (handle ext settings call r db)
  handle-IsWellFormed call r db wf = elim (handle-cases ext settings call db r) [
    | inl same ↦ subst (IsWellFormed settings.fleet_lineage_max_depth) (sym same) wf
    | inr done ↦
        commit-IsWellFormed db _ settings.fleet_lineage_max_depth (work_of ext settings call r db)
          (work_of-IsLawful ext settings call db r) done wf
  ]

  -- Whatever requests are served, answered or refused, a well-formed database stays well formed: the
  -- tasks with a time of completion are those in a terminal state, no lineage is deeper than the
  -- limit, every task that is no root has a superseded parent one level up and is its only successor,
  -- and the sequence numbers of each task's events increase.
  pub serve-IsWellFormed :
      (rs : List (Ambient × Request)) (db : Db)
      → IsWellFormed settings.fleet_lineage_max_depth db
      → IsWellFormed settings.fleet_lineage_max_depth (serve ext settings rs db)
  unfolding serve
  serve-IsWellFormed [] db wf = wf
  serve-IsWellFormed ((call, r) ∷ rs) db wf =
      serve-IsWellFormed rs (handle ext settings call r db) (handle-IsWellFormed call r db wf)
