-- ===== src/WebSocket/Polling.antt =====
-- dashboard/lib/use-websocket.ts: how many polling intervals run.
use secure_vote.Base.{
  ◌≡◌, refl, true, false, List, [], ◌∷◌, arith, if◌then◌else◌, All, none, some, truthy?,
}
use secure_vote.WebSocket.{
  connected, UseWebSocketOptions, Hook, Event, mount, unmount, ticket_granted, ticket_refused,
  socket_open, socket_error, socket_close, timer_due, message, step, run, initial,
}

-- The interval runs while the ref is set, and it is not set while the status is "connected".
pub record Inv (h : Hook) : Type 0 where
  pub counted : h.intervals ≡ (if h.poll_timer then 1 else 0)
  pub quiet : h.status ≡ connected → h.poll_timer ≡ false

step-Inv : (o : UseWebSocketOptions) (h : Hook) (e : Event) → Inv h → Inv (step o h e)
unfolding step
step-Inv o h mount v = ground arith
step-Inv o h unmount v = ground arith
step-Inv o h ticket_granted v = ground arith
step-Inv o h ticket_refused v = ground arith
step-Inv o h (socket_open i) v = ground arith
step-Inv o h (socket_error i) v = ground arith
step-Inv o h (socket_close i) v = ground arith
step-Inv o h (timer_due i) v = ground arith
step-Inv o h (message i none) v = ground arith
step-Inv o h (message i (some m)) v = ground arith

run-Inv : (o : UseWebSocketOptions) (h : Hook) (es : List Event) → Inv h → Inv (run o h es)
unfolding run
run-Inv o h [] v = v
run-Inv o h (e ∷ es) v = run-Inv o (step o h e) es (step-Inv o h e v)

-- Whatever happens to the hook from its first rendering on: exactly one polling interval runs while
-- the ref to it is set and none otherwise, and none runs while the status is "connected".
pub run-one_interval :
    (o : UseWebSocketOptions) (es : List Event)
    → ((run o initial es).intervals ≡ (if (run o initial es).poll_timer then 1 else 0))
      × ((run o initial es).status ≡ connected → (run o initial es).intervals ≡ 0)
run-one_interval o es =
    let v = run-Inv o initial es (record { counted = refl; quiet = λ q. refl }) in
    (v.counted, λ q. ground (arith, v.counted, v.quiet q))

-- An event of an unmounted hook.
abbrev pub IsLate : Event → Type 0
IsLate mount = ⊥
IsLate unmount = ⊥
IsLate _ = Unit

pub record Leaking (h : Hook) : Type 0 where
  pub gone : h.unmounted ≡ true
  pub polling : h.poll_timer ≡ true
  pub running : h.intervals ≡ 1

step-Leaking :
    (o : UseWebSocketOptions) (h : Hook) (e : Event) → IsLate e → Leaking h → Leaking (step o h e)
unfolding step
step-Leaking o h mount l v = absurd l
step-Leaking o h unmount l v = absurd l
step-Leaking o h ticket_granted l v = ground arith
step-Leaking o h ticket_refused l v = ground arith
step-Leaking o h (socket_open i) l v = ground arith
step-Leaking o h (socket_error i) l v = ground arith
step-Leaking o h (socket_close i) l v = ground arith
step-Leaking o h (timer_due i) l v = ground arith
step-Leaking o h (message i none) l v = ground arith
step-Leaking o h (message i (some m)) l v = ground arith

run-Leaking :
    (o : UseWebSocketOptions) (h : Hook) (es : List Event)
    → All IsLate es
    → Leaking h
    → Leaking (run o h es)
unfolding run
run-Leaking o h [] l v = v
run-Leaking o h (e ∷ es) (l, ls) v = run-Leaking o (step o h e) es ls (step-Leaking o h e l v)

-- Mounted, unmounted, and then refused its ticket.
abbrev refused_late : UseWebSocketOptions → Hook
refused_late o = step o (step o (step o initial mount) unmount) ticket_refused

refused_late-Leaking :
    (o : UseWebSocketOptions)
    → truthy? o.token ≡ true
    → truthy? o.election_id ≡ true
    → Leaking (refused_late o)
unfolding step
refused_late-Leaking o t e = ground arith

-- If the component is unmounted while its ticket is under way, and the ticket is then refused, a
-- polling interval is started, and it runs on after any further events, as long as the component is
-- not mounted or unmounted again.
run-interval_leaks :
    (o : UseWebSocketOptions) (es : List Event)
    → truthy? o.token ≡ true
    → truthy? o.election_id ≡ true
    → All IsLate es
    → (run o initial (mount ∷ unmount ∷ ticket_refused ∷ es)).intervals ≡ 1
unfolding run
run-interval_leaks o es t e late =
    (run-Leaking o (refused_late o) es late (refused_late-Leaking o t e)).running
