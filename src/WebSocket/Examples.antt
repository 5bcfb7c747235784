-- ===== src/WebSocket/Examples.antt =====
-- The theorems on the hook in single runs.
use secure_vote.Base.{◌≡◌, true, some, List, [], ◌∷◌, if◌then◌else◌}
use secure_vote.WebSocket.{
  UseWebSocketOptions, connected, Event, mount, ticket_granted, socket_open, socket_error,
  socket_close, run, initial,
}
use secure_vote.WebSocket.Polling.{run-one_interval}

abbrev options : UseWebSocketOptions
options = record {
  election_id = some "E";
  token = some "T";
  has_on_event = true;
  has_on_poll = true;
}

abbrev broken_connection : List Event
broken_connection = mount ∷ ticket_granted ∷ socket_open 0 ∷ socket_error 0 ∷ socket_close 0 ∷ []

run-one_interval_example :
    ((run options initial broken_connection).intervals
      ≡ (if (run options initial broken_connection).poll_timer then 1 else 0))
    × ((run options initial broken_connection).status ≡ connected
        → (run options initial broken_connection).intervals ≡ 0)
run-one_interval_example = run-one_interval options broken_connection
