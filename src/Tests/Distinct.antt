-- ===== src/Tests/Distinct.antt =====
-- Two enrollments, and the first machine's session between them.
use arxveil.Prelude.{◌≡◌, ◌≢◌, refl, List, [], ◌∷◌}
use arxveil.Go.Text.{Bytes}
use arxveil.Go.Fault.{ok}
use arxveil.Postgres.{begin, commit}
use arxveil.Postgres.Schema.{find_row, update_rows}
use arxveil.Postgres.Statements.{
  drop_spaces, insert_machine, insert_agent_identity, mark_online, insert_presence_event,
}
use arxveil.Postgres.EnrollmentStore.{enroll}
use arxveil.Postgres.PresenceStore.{start_session}
use arxveil.Postgres.History.{Call, starts, step, run}
use arxveil.Postgres.History.Invariant.{initial, IsConsistent-empty}
use arxveil.Postgres.History.Distinct.{enrollments_differ}
use arxveil.Tests.Toy.{toy}
use arxveil.Tests.Database.{stored}

abbrev between : List Call
between = starts (2 ∷ []) ∷ []

first : (enroll toy stored initial).0 ≡ ok (2 ∷ [], 5 ∷ [])
unfolding enroll begin commit insert_machine insert_agent_identity find_row drop_spaces
first = refl

second :
    (enroll toy stored (run toy (enroll toy stored initial).1 between)).0 ≡ ok (16 ∷ [], 19 ∷ [])
unfolding run step enroll start_session begin commit insert_machine insert_agent_identity
    mark_online insert_presence_event find_row update_rows drop_spaces
second = refl

abbrev first_machine : Bytes
first_machine = 2 ∷ []

abbrev first_agent : Bytes
first_agent = 5 ∷ []

enrollments_differ_example : (first_machine ≢ 16 ∷ []) × (first_agent ≢ 19 ∷ [])
enrollments_differ_example =
    enrollments_differ toy (λ u. refl) initial stored stored between IsConsistent-empty first second
