-- ===== src/Tests/Answers.antt =====
-- Refusals: what an agent is told.
use arxveil.Prelude.{◌≡◌, refl, some, List, [], ◌∷◌}
use arxveil.Go.Text.{codes}
use arxveil.Go.Fault.{ok, err, ◌>>◌, first_failure}
use arxveil.Enrollment.{Input}
use arxveil.Enrollment.Validation.{validate_input}
use arxveil.Enrollment.Validation.Accepted.{normal_form}
use arxveil.Enrollment.Validation.Reference.{guards, validate_input_eq}
use arxveil.AgentGrpc.Messages.{authenticate}
use arxveil.AgentGrpc.Stream.{
  Received, message, bad_request, close_once, finish, handle, loop, serve_session, stream_updates,
}
use arxveil.AgentGrpc.Stream.Answers.{IsAnswer, stream_updates_answers}
use arxveil.Tests.Toy.{agent_input, tracker, recorder, times}

-- No operating system version, and no name of a capability.
abbrev refused_input : Input
refused_input = record agent_input { os_version = codes " \n"; capabilities = [] ∷ [] }

validate_input_eq_example :
    validate_input refused_input
    ≡ (first_failure (guards refused_input) >> ok (normal_form refused_input))
validate_input_eq_example = validate_input_eq refused_input

abbrev authenticates : Received
authenticates = message (
    some (record {
      payload =
          some (authenticate (some (record { agent_id = codes "a"; agent_secret = codes "s" })));
    }))

abbrev twice : List Received
twice = authenticates ∷ authenticates ∷ []

refuses :
    (stream_updates tracker recorder times (ok tt) twice 0).0
    ≡ err (bad_request "agent stream is already authenticated")
unfolding stream_updates serve_session loop handle finish close_once
refuses = refl

stream_updates_answers_example :
    IsAnswer twice (ok tt) (bad_request "agent stream is already authenticated")
stream_updates_answers_example =
    stream_updates_answers tracker recorder times (ok tt) twice 0
      (bad_request "agent stream is already authenticated") refuses
