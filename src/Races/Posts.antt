-- ===== src/Races/Posts.antt =====
-- Two posts of events that overlap.
use fleet_api.Base.{
  ℕ, ◌≡◌, String, ok, err, List, ◌∷◌, eqb, eq_refl, arith, if◌then◌else◌, Bool-cases, inl, inr,
}
use fleet_api.Errors.{integrity}
use fleet_api.Json.{Dict}
use fleet_api.Settings.{Ambient}
use fleet_api.Task.Row.{TaskEvent}
use fleet_api.Store.{Db, Outcome, perform, commit, are_numbers_free, has_number, has_number-above}
use fleet_api.Sidecar.{Receipt, process_sidecar_event, event_record}
use fleet_api.Races.{overlapping}

module _ (in_place : Dict → Dict → Dict) (call call' : Ambient) (db : Db)
    (k by event_type event_type' : String) (payload payload' : Dict) (n m : ℕ) where
  abbrev pub first : Outcome Receipt
  first = process_sidecar_event in_place call db k event_type payload n by

  abbrev pub second : Outcome Receipt
  second = process_sidecar_event in_place call' db k event_type' payload' m by

  -- Of two posts for a task that overlap, each of which would be accepted alone, the first to commit
  -- is accepted. The second is accepted too if its number is another one, a lower one included, and
  -- its event is recorded after the first's; with the same number it is refused by the unique index,
  -- and the log has the first event only.
  pub process_sidecar_event-overlapping :
      (r r' : Receipt)
      → first.reply ≡ ok r
      → second.reply ≡ ok r'
      → let recorded : List TaskEvent = event_record call k event_type payload n ∷ db.events in
        ((overlapping first second db).0 ≡ ok r)
        × ((overlapping first second db).1 ≡ (if eqb n m then err integrity else ok r'))
        × ((overlapping first second db).2.events ≡ (
            if eqb n m then recorded else event_record call' k event_type' payload' m ∷ recorded))
  unfolding process_sidecar_event perform commit are_numbers_free has_number event_record
  process_sidecar_event-overlapping r r' h h' =
      let free = has_number-above k n db.events in
      let free' = has_number-above k m db.events in
      elim (Bool-cases (eqb n m)) [
        | inl e ↦ ground (arith, free, free', eq_refl k)
        | inr e ↦ ground (arith, free, free', eq_refl k)
      ]
