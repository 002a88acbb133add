-- ===== src/Entra/Examples.antt =====
-- A session over a service that gives one answer, and the theorems at it.
use uade_bot.Prelude.{ℕ, ◌≡◌, ◌≢◌, ◌<◌, refl, String, Bool, none, some}
use uade_bot.Entra.Session.{
  dead, active, permanent, Reply, given, failed, Tokens, empty, Services, Host, mark_dead,
  finish_refresh, token_within, token, ensure_fresh, adopt, do_request, install, refresh_once,
  renew,
}
use uade_bot.Entra.Session.Invariant.{IsSound, calls-IsSound}
use uade_bot.Entra.Session.Fresh.{token_within-unexpired}
use uade_bot.Entra.Session.Race.{adopt-finish_refresh}
use uade_bot.Entra.Session.Interleavings.{
  Shared, Reach, here, then_step, sent, killed, renewed, signed_in as signs_in, Reach-Renewable,
}
use uade_bot.Entra.Session.{transient, validated, rotated, adopted}
use uade_bot.Prelude.{true, false, eq_iff}

abbrev new_tokens : Tokens
new_tokens = record { access_token = "a"; refresh_token = "r"; expires_at = 9_000 }

-- the world is the clock
abbrev services : Services ℕ
services = record {
  refresh = λ _ w. (given new_tokens, w);
  validate = λ _ w. (none, w);
  save = λ _ w. w;
  clear = λ w. w;
  load = λ w. (given "r", w);
  on_dead = λ w. w;
  now = λ w. w;
}

abbrev signed_in : Host ℕ
signed_in = record { session = record empty { refresh = "r"; state = active }; world = 100 }

signed_in-IsSound : IsSound signed_in.session
signed_in-IsSound = record { dead_empty = λ e. cc; renewable = λ f. absurd (f refl) }

calls-IsSound_example :
    ((own : ℕ) → IsSound (token services own signed_in).1.session)
    × ((own horizon : ℕ) → IsSound (ensure_fresh services own horizon signed_in).1.session)
    × ((t : Tokens) → IsSound (adopt services t signed_in).1.session)
    × ((send : String → ℕ → Reply ℕ × ℕ) (replayable : Bool) (own : ℕ)
        → IsSound (do_request services send replayable own signed_in).1.session)
    × IsSound (mark_dead services signed_in).session
calls-IsSound_example = calls-IsSound services signed_in signed_in-IsSound

answered : (token_within services 50 signed_in).0 ≡ given "a"
unfolding token_within renew refresh_once finish_refresh
answered = refl

abbrev answer : String
answer = "a"

token_within-unexpired_example :
    let k = (token_within services 50 signed_in).1 in
    (answer ≡ k.session.access) × (answer ≢ "") × (k.world < k.session.expires)
token_within-unexpired_example = token_within-unexpired services 50 signed_in answer answered

adopt-finish_refresh_example :
    let (signed, k) = adopt services new_tokens signed_in in
    let (refused, k') = finish_refresh services "r0" (failed (permanent "invalid_grant")) k in
    (signed ≡ none)
    × (k.session ≡ install new_tokens signed_in.session)
    × (refused ≡ some (permanent "invalid_grant"))
    × (k'.session.state ≡ dead)
    × (k'.session.access ≡ "")
    × (k'.session.refresh ≡ "")
adopt-finish_refresh_example =
    adopt-finish_refresh services signed_in new_tokens 100 "r0" "invalid_grant" (λ e. cc) refl

abbrev idle : Shared ℕ
idle = record { host = signed_in; flight = none }

-- a renewal is in flight while the session dies, the resource refuses its token, and the user signs
-- in again
abbrev in_flight : Shared ℕ
in_flight = record idle { flight = some "r" }

abbrev died : Shared ℕ
died = record in_flight { host = mark_dead services signed_in }

abbrev revived : Shared ℕ
revived = record {
  host =
      (validated services (rotated services "r" new_tokens) (some transient, 100)
        died.host.session).1;
  flight = none;
}

abbrev back : Shared ℕ
back = record revived { host = (adopted services new_tokens (none, 100) revived.host.session).1 }

some_text : ◌≢◌ {A = String} "r" ""
some_text e = let same : false ≡ true = (eq_iff "r" "").1 e in cc

some_answer : ◌≢◌ {A = String} "a" ""
some_answer e = let same : false ≡ true = (eq_iff "a" "").1 e in cc

reached : Reach services idle back
reached =
    then_step
      (then_step (then_step (then_step here (sent idle refl some_text)) (killed in_flight))
        (renewed died "r" new_tokens (some transient, 100) refl))
      (signs_in revived new_tokens (none, 100) some_text)

-- what the refused renewal left: a dead session that holds a refresh token again
dead_with_token : (revived.host.session.state ≡ dead) × (revived.host.session.refresh ≡ "r")
unfolding mark_dead
dead_with_token = (refl, refl)

Reach-Renewable_example : (back.host.session.refresh ≢ "") × (back.host.session.state ≡ active)
Reach-Renewable_example = Reach-Renewable services idle back refl refl reached some_answer
