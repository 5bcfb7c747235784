-- ===== src/WebSocket.antt =====
-- dashboard/lib/use-websocket.ts: `useWebSocketElection`, as a machine over what the backend, the
-- browser and React do. The token and the election are those of one effect; the intervals and the
-- timers are what `setInterval` and `setTimeout` have running.
pub mod Polling
mod Examples
use secure_vote.Base.{
  ℕ, suc, ◌+◌, ◌-◌, String, Bool, true, false, not, ◌&&◌, ◌||◌, Option, none, some, List, [], ◌∷◌,
  ◌++◌, ltb, ◌==◌, if◌then◌else◌, truthy?, keep, any,
}
use secure_vote.Api.Json.{Value}

pub data WebSocketStatus : Type 0 where
  connecting connected disconnected fallback_polling : WebSocketStatus

pub record UseWebSocketOptions : Type 0 where
  pub election_id : Option String
  pub token : Option String
  pub has_on_event : Bool
  pub has_on_poll : Bool

-- `intervals` are those that run, and `poll_timer` is whether the ref is set; `tickets` are the calls
-- of `getWsTicket` under way, `sockets` how many were made, `timers` those of a reconnection.
-- `polls` counts the calls of `onPoll` by `startPolling`, and `events` are those given to `onEvent`.
pub record Hook : Type 0 where
  pub status : WebSocketStatus
  pub last_event : Option Value
  pub poll_timer : Bool
  pub intervals : ℕ
  pub polls : ℕ
  pub unmounted : Bool
  pub tickets : ℕ
  pub sockets : ℕ
  pub ws_ref : Option ℕ
  pub closed : List ℕ
  pub timers : List ℕ
  pub reconnect_timer : Option ℕ
  pub next_timer : ℕ
  pub events : List Value

-- What happens to the hook. `message i m` is a message of socket `i`, with `none` for what is no JSON.
pub data Event : Type 0 where
  mount unmount ticket_granted ticket_refused : Event
  socket_open socket_error socket_close timer_due : ℕ → Event
  message : ℕ → Option Value → Event

unfoldable pub start_polling : UseWebSocketOptions → Hook → Hook
start_polling o h = if h.poll_timer then h else record h {
  status = fallback_polling;
  poll_timer = true;
  intervals = h.intervals + 1;
  polls = if o.has_on_poll then h.polls + 1 else h.polls;
}

unfoldable pub stop_polling : Hook → Hook
stop_polling h =
    if h.poll_timer then record h { poll_timer = false; intervals = h.intervals - 1 } else h

-- `connect`, up to the call of `getWsTicket`.
unfoldable pub connect : UseWebSocketOptions → Hook → Hook
connect o h =
    if not (truthy? o.token) || not (truthy? o.election_id) || h.unmounted
    then h
    else record h { status = connecting; tickets = h.tickets + 1 }

-- The rest of it, with the ticket.
unfoldable pub open_socket : Hook → Hook
open_socket h =
    if h.unmounted then h else record h { ws_ref = some h.sockets; sockets = h.sockets + 1 }

unfoldable pub on_open : ℕ → Hook → Hook
unfolding stop_polling
on_open i h =
    if h.unmounted
    then record h { closed = i ∷ h.closed }
    else stop_polling (record h { status = connected })

unfoldable pub on_message : UseWebSocketOptions → Option Value → Hook → Hook
on_message o none h = h
on_message o (some v) h = record h {
  last_event = some v;
  events = if o.has_on_event then v ∷ h.events else h.events;
}

abbrev set_timer : Hook → Hook
set_timer h = record h {
  timers = h.next_timer ∷ h.timers;
  reconnect_timer = some h.next_timer;
  next_timer = h.next_timer + 1;
}

unfoldable pub on_close : UseWebSocketOptions → Hook → Hook
unfolding start_polling
on_close o h =
    if h.unmounted then h else set_timer (start_polling o (record h { status = disconnected }))

-- The list without a timer.
unfoldable pub clear_timer : ℕ → List ℕ → List ℕ
clear_timer i ts = keep (λ j. not (j == i)) ts

abbrev clear_reconnect : Option ℕ → Hook → Hook
clear_reconnect none h = h
clear_reconnect (some i) h = record h { timers = clear_timer i h.timers }

abbrev close_socket : Option ℕ → Hook → Hook
close_socket none h = h
close_socket (some i) h = record h { closed = i ∷ h.closed; ws_ref = none }

-- The cleanup of the effect.
unfoldable pub cleanup : Hook → Hook
unfolding stop_polling clear_timer
cleanup h =
    close_socket h.ws_ref
      (clear_reconnect h.reconnect_timer (stop_polling (record h { unmounted = true })))

-- One thing that happens. What the browser or the backend cannot send now changes nothing.
unfoldable pub step : UseWebSocketOptions → Hook → Event → Hook
unfolding connect start_polling open_socket on_open on_message on_close cleanup clear_timer
step o h mount = connect o (record h { unmounted = false })
step o h unmount = cleanup h
step o h ticket_granted =
    if h.tickets == 0 then h else open_socket (record h { tickets = h.tickets - 1 })
step o h ticket_refused =
    if h.tickets == 0 then h else start_polling o (record h { tickets = h.tickets - 1 })
step o h (socket_open i) = if ltb i h.sockets then on_open i h else h
step o h (socket_error i) = if ltb i h.sockets then start_polling o h else h
step o h (socket_close i) = if ltb i h.sockets then on_close o h else h
step o h (message i m) = if ltb i h.sockets then on_message o m h else h
step o h (timer_due i) =
    if any (λ j. j == i) h.timers
    then connect o (record h { timers = clear_timer i h.timers })
    else h

unfoldable pub run : UseWebSocketOptions → Hook → List Event → Hook
unfolding step
run o h [] = h
run o h (e ∷ es) = run o (step o h e) es

-- The hook when the component is first rendered.
abbrev pub initial : Hook
initial = record {
  status = disconnected;
  last_event = none;
  poll_timer = false;
  intervals = 0;
  polls = 0;
  unmounted = false;
  tickets = 0;
  sockets = 0;
  ws_ref = none;
  closed = [];
  timers = [];
  reconnect_timer = none;
  next_timer = 0;
  events = [];
}
