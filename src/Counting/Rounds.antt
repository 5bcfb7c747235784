-- ===== src/Counting/Rounds.antt =====
-- dashboard/app/(officer)/election/counting/page.tsx: the rounds, their buttons and the auto-play.
use secure_vote.Base.{
  ℕ, zero, suc, ◌+◌, Bool, true, false, not, ◌&&◌, ◌||◌, List, [], ◌∷◌, leb, ltb, ◌==◌,
  if◌then◌else◌,
}

-- `timer` is whether the effect's timeout is running.
pub record Rounds : Type 0 where
  pub current_round : ℕ
  pub is_auto_playing : Bool
  pub timer : Bool

pub data Event : Type 0 where
  press_reset press_play press_next timeout : Event

abbrev pub total_rounds : ℕ
total_rounds = 5

-- The effect, after a change: the old timeout is cleared, and a new one set if there is a round to
-- play.
unfoldable pub auto_play : Rounds → Rounds
auto_play r =
    if r.is_auto_playing && ltb r.current_round total_rounds
    then record r { timer = true }
    else if leb total_rounds r.current_round
    then record r { is_auto_playing = false; timer = false }
    else record r { timer = false }

-- `Math.min(TOTAL_ROUNDS, prev + 1)`
abbrev next_round : ℕ → ℕ
next_round n = if leb total_rounds (n + 1) then total_rounds else n + 1

-- A button that is enabled, or the timeout, and then the effect.
unfoldable pub step : Rounds → Event → Rounds
unfolding auto_play
step r press_reset =
    if r.current_round == 1 && not r.is_auto_playing
    then r
    else auto_play (record r { current_round = 1; is_auto_playing = false })
step r press_play =
    if r.current_round == total_rounds
    then r
    else auto_play (record r { is_auto_playing = not r.is_auto_playing })
step r press_next =
    if r.current_round == total_rounds || r.is_auto_playing
    then r
    else auto_play (record r { current_round = next_round r.current_round })
step r timeout =
    if r.timer
    then auto_play (record r { current_round = r.current_round + 1; timer = false })
    else r

unfoldable pub run : Rounds → List Event → Rounds
unfolding step
run r [] = r
run r (e ∷ es) = run (step r e) es

abbrev pub first_round : Rounds
first_round = record { current_round = 1; is_auto_playing = false; timer = false }

-- That many timeouts.
unfoldable pub timeouts : ℕ → List Event
timeouts zero = []
timeouts (suc n) = timeout ∷ timeouts n
