-- ===== src/Entra/Session.antt =====
-- internal/entra/session.go: the tokens of one user, their renewal and their end. Microsoft, the
-- resource, the encrypted file and the clock act on a world `W` and are given as `Services`; each
-- function is one call, where no other goroutine comes in between. The children split a renewal
-- at the call of Microsoft.
pub mod Invariant
pub mod Fresh
pub mod Race
pub mod Interleavings
use uade_bot.Prelude.{◌*◌}
use uade_bot.Prelude.{
  ℕ, ◌+◌, String, ◌==◌, Bool, true, false, ◌&&◌, ◌||◌, not, Option, none, some, if◌then◌else◌, ltb,
  eqb,
}
use uade_bot.Prelude.Exec.{Result, ok, err, panic}

pub data State : Type 0 where
  signed_out : State  -- StateNone
  active : State
  dead : State

-- IsPermanent is the test for `permanent`.
pub data Error : Type 0 where
  permanent : String → Error
  transient : Error
  no_session : Error
  other : String → Error

pub record Tokens : Type 0 where
  pub access_token : String
  pub refresh_token : String
  pub expires_at : ℕ

-- the fields that `mu` guards
pub record Session : Type 0 where
  pub access : String
  pub expires : ℕ
  pub refresh : String
  pub state : State

abbrev pub empty : Session
empty = record { access = ""; expires = 0; refresh = ""; state = signed_out }

-- (T, error)
pub data Reply (A : Type 0) : Type 0 where
  given : A → Reply A
  failed : Error → Reply A

-- Where only an error is returned, `none` is no error. Without a store `save` and `clear` do
-- nothing, without a validator `validate` gives no error, without a callback `on_dead` does nothing.
-- `load` gives `failed no_session` for `ErrNoToken`.
pub record Services (W : Type 0) : Type 0 where
  pub refresh : String → W → Reply Tokens × W
  pub validate : String → W → Option Error × W
  pub save : String → W → W
  pub clear : W → W
  pub load : W → Reply String × W
  pub on_dead : W → W
  pub now : W → ℕ

pub record Host (W : Type 0) : Type 0 where
  pub session : Session
  pub world : W

abbrev pub is_dead : State → Bool
is_dead dead = true
is_dead _ = false

abbrev pub is_permanent : Error → Bool
is_permanent (permanent _) = true
is_permanent _ = false

abbrev pub install : Tokens → Session → Session
install t s = record {
  access = t.access_token;
  expires = t.expires_at;
  refresh = t.refresh_token;
  state = active;
}

-- time.Minute, and DefaultRenewBefore
abbrev pub minute : ℕ
minute = 60_000_000_000

abbrev pub default_renew_before : ℕ
default_renew_before = 25 * minute

-- renewBefore
abbrev pub renew_before : ℕ → ℕ
renew_before own = if ltb 0 own then own else default_renew_before

module _ {W : Type 0} (sv : Services W) where
  -- Load
  abbrev loaded : Reply String × W → Session → Option Error × Host W
  loaded (given refresh, w) s =
      (none, record { session = record s { refresh = refresh; state = active }; world = w })
  loaded (failed no_session, w) s =
      (none, record { session = record s { state = signed_out }; world = w })
  loaded (failed e, w) s = (some e, record { session = record s { state = signed_out }; world = w })

  unfoldable pub load : Host W → Option Error × Host W
  load h = loaded (sv.load h.world) h.session

  -- Status, the state of which is "none" before anything happened
  unfoldable pub status : Session → State × Option ℕ
  status s = (s.state, if s.access == "" then none else some s.expires)

  -- markDead
  unfoldable pub mark_dead : Host W → Host W
  mark_dead h =
      let w = sv.clear h.world in
      record {
        session = record { access = ""; expires = 0; refresh = ""; state = dead };
        world = if is_dead h.session.state then w else sv.on_dead w;
      }

  -- the end of `refreshOnce` for new tokens, by the answer of the resource
  abbrev pub validated : Tokens → Option Error × W → Session → Option Error × Host W
  validated t (some _, w) s = (
    some transient,
    record { session = record s { refresh = t.refresh_token }; world = sv.save t.refresh_token w },
  )
  validated t (none, w) s =
      (none, record { session = install t s; world = sv.save t.refresh_token w })

  -- Microsoft may give no new refresh token
  abbrev pub rotated : String → Tokens → Tokens
  rotated refresh t = record t {
    refresh_token = if t.refresh_token == "" then refresh else t.refresh_token;
  }

  -- `refreshOnce` after the answer of Microsoft to the token `refresh`
  unfoldable pub finish_refresh : String → Reply Tokens → Host W → Option Error × Host W
  unfolding mark_dead
  finish_refresh refresh (failed e) h = (some e, if is_permanent e then mark_dead h else h)
  finish_refresh refresh (given t) h =
      validated (rotated refresh t) (sv.validate t.access_token h.world) h.session

  unfoldable pub refresh_once : String → Host W → Option Error × Host W
  refresh_once refresh h =
      let (r, w) = sv.refresh refresh h.world in finish_refresh refresh r (record h { world = w })

  -- `renew`, where no renewal is in flight
  unfoldable pub renew : Host W → Option Error × Host W
  renew h =
      if h.session.refresh == "" then (some no_session, h) else refresh_once h.session.refresh h

  -- whether the access token serves `horizon` more
  abbrev pub serves : Session → ℕ → ℕ → Bool
  serves s now horizon = not (s.access == "") && ltb (now + horizon) s.expires

  abbrev renewed : Option Error × Host W → Reply String × Host W
  renewed (e, h) =
      if serves h.session (sv.now h.world) 0
      then (given h.session.access, h)
      else (elim e [ none ↦ failed no_session | some x ↦ failed x ], h)

  -- tokenWithin
  unfoldable pub token_within : ℕ → Host W → Reply String × Host W
  token_within horizon h =
      if serves h.session (sv.now h.world) horizon
      then (given h.session.access, h)
      else renewed (renew h)

  -- Token and EnsureFresh, for the session's own `RenewBefore`
  unfoldable pub token : ℕ → Host W → Reply String × Host W
  unfolding token_within
  token own h = token_within (renew_before own) h

  unfoldable pub ensure_fresh : ℕ → ℕ → Host W → Reply String × Host W
  unfolding token_within
  ensure_fresh own horizon h =
      token_within (if ltb horizon (renew_before own) then renew_before own else horizon) h

  -- Adopt
  abbrev pub adopted : Tokens → Option Error × W → Session → Option Error × Host W
  adopted t (some _, w) s =
      (some (permanent "validation_failed"), record { session = s; world = w })
  adopted t (none, w) s =
      (none, record { session = install t s; world = sv.save t.refresh_token w })

  unfoldable pub adopt : Tokens → Host W → Option Error × Host W
  adopt t h =
      if t.refresh_token == ""
      then (some (permanent "missing_refresh_token"), h)
      else adopted t (sv.validate t.access_token h.world) h.session

  -- `Do`: `send` is the request with a token, which gives a status, and `replayable` whether its
  -- body can be sent again
  abbrev drop_token : String → Host W → Host W
  drop_token used h =
      if h.session.access == used
      then record h { session = record h.session { access = "" } }
      else h

  abbrev killed : Reply ℕ × W → Session → Reply ℕ × Host W
  killed (given code, w) s =
      if eqb code 401
      then (given code, mark_dead (record { session = s; world = w }))
      else (given code, record { session = s; world = w })
  killed (failed e, w) s = (failed e, record { session = s; world = w })

  abbrev retried : (String → W → Reply ℕ × W) → Bool → Reply String × Host W → Reply ℕ × Host W
  retried send replayable (failed e, h) = (failed e, h)
  retried send replayable (given t, h) =
      if replayable then killed (send t h.world) h.session else (failed no_session, h)

  abbrev sent :
      (String → W → Reply ℕ × W) → Bool → ℕ → String → Reply ℕ × W → Session → Reply ℕ × Host W
  sent send replayable own used (failed e, w) s = (failed e, record { session = s; world = w })
  sent send replayable own used (given code, w) s =
      if eqb code 401
      then retried send replayable (token own (drop_token used (record { session = s; world = w })))
      else (given code, record { session = s; world = w })

  abbrev first_sent :
      (String → W → Reply ℕ × W) → Bool → ℕ → Reply String × Host W → Reply ℕ × Host W
  first_sent send replayable own (failed e, h) = (failed e, h)
  first_sent send replayable own (given t, h) =
      sent send replayable own t (send t h.world) h.session

  unfoldable pub do_request : (String → W → Reply ℕ × W) → Bool → ℕ → Host W → Reply ℕ × Host W
  unfolding token mark_dead
  do_request send replayable own h = first_sent send replayable own (token own h)
