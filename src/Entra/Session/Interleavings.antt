-- ===== src/Entra/Session/Interleavings.antt =====
-- A session on which goroutines act in turn. A call's steps are the sections that `mu` guards; what
-- Microsoft, the resource and the requests answer in between is any answer.
-- Load is no step: Manager calls it on a new session before any goroutine has it, and it leaves the
-- access token empty.
use uade_bot.Prelude.{
  ◌≡◌, ◌≢◌, refl, ◌∙◌, String, ◌==◌, Option, none, some, eq_iff, Bool-cases, inl, inr,
  if◌then◌else◌,
}
use uade_bot.Entra.Session.{
  active, Error, Tokens, Services, Host, mark_dead, validated, rotated, adopted, drop_token,
  is_permanent,
}

-- `flight` is the refresh token of the renewal in flight: the field `flight` admits one.
pub record Shared (W : Type 0) : Type 0 where
  pub host : Host W
  pub flight : Option String

module _ {W : Type 0} (sv : Services W) where
  -- a section of one goroutine
  pub data Step : Shared W → Shared W → Type 0 where
    -- renew takes the refresh token
    sent :
        (s : Shared W)
        → s.flight ≡ none
        → s.host.session.refresh ≢ ""
        → Step s (record s { flight = some s.host.session.refresh })
    -- refreshOnce has the new tokens, and the resource has answered
    renewed :
        (s : Shared W) (old : String) (t : Tokens) (answer : Option Error × W)
        → s.flight ≡ some old
        → Step s (record {
          host = (validated sv (rotated sv old t) answer s.host.session).1;
          flight = none;
        })
    -- refreshOnce has an error
    refused :
        (s : Shared W) (old : String) (e : Error)
        → s.flight ≡ some old
        → Step s (record {
          host = if is_permanent e then mark_dead sv s.host else s.host;
          flight = none;
        })
    -- Adopt, past its first test, has the answer of the resource
    signed_in :
        (s : Shared W) (t : Tokens) (answer : Option Error × W)
        → t.refresh_token ≢ ""
        → Step s (record s { host = (adopted sv t answer s.host.session).1 })
    -- `Do` after the first 401, and after the second
    dropped :
        (s : Shared W) (used : String) → Step s (record s { host = drop_token sv used s.host })
    killed : (s : Shared W) → Step s (record s { host = mark_dead sv s.host })
    -- time passes, and the outside changes
    elapsed : (s : Shared W) (w : W) → Step s (record s { host = record s.host { world = w } })

  pub data Reach (start : Shared W) : Shared W → Type 0 where
    here : Reach start start
    then_step : {s t : Shared W} → Reach start s → Step s t → Reach start t

  record Kept (s : Shared W) : Type 0 where
    renewable :
        s.host.session.access ≢ "" → (s.host.session.refresh ≢ "") × (s.host.session.state ≡ active)
    in_flight : (old : String) → s.flight ≡ some old → old ≢ ""

  kept_ne : (old : String) (t : Tokens) → old ≢ "" → (rotated sv old t).refresh_token ≢ ""
  kept_ne old t h = elim (Bool-cases (t.refresh_token == "")) [
    | inl e ↦ rw e h
    | inr e ↦ rw e (λ x. cc ((eq_iff t.refresh_token "").1 x))
  ]

  Step-Kept : {s t : Shared W} → Step s t → Kept s → Kept t
  unfolding mark_dead
  Step-Kept (sent s idle some_refresh) k = record {
    renewable = k.renewable;
    in_flight = λ old e x. let same : s.host.session.refresh ≡ old = cc in some_refresh (same ∙ x);
  }
  Step-Kept (renewed s old t (none, w) e) k = record {
    renewable = λ x. (kept_ne old t (k.in_flight old e), refl);
    in_flight = λ old' e'. cc;
  }
  Step-Kept (renewed s old t (some x, w) e) k = record {
    renewable = λ x. (kept_ne old t (k.in_flight old e), (k.renewable x).1);
    in_flight = λ old' e'. cc;
  }
  Step-Kept (refused s old x e) k = elim (Bool-cases (is_permanent x)) [
    | inl p ↦ rw p (record { renewable = λ x. absurd (x refl); in_flight = λ old' e'. cc })
    | inr p ↦ rw p (record { renewable = k.renewable; in_flight = λ old' e'. cc })
  ]
  Step-Kept (signed_in s t (none, w) given) k = record {
    renewable = λ x. (given, refl);
    in_flight = k.in_flight;
  }
  Step-Kept (signed_in s t (some x, w) given) k = record {
    renewable = k.renewable;
    in_flight = k.in_flight;
  }
  Step-Kept (dropped s used) k = elim (Bool-cases (s.host.session.access == used)) [
    | inl its ↦ rw its (record { renewable = λ x. absurd (x refl); in_flight = k.in_flight })
    | inr other ↦ rw other (record { renewable = k.renewable; in_flight = k.in_flight })
  ]
  Step-Kept (killed s) k = record { renewable = λ x. absurd (x refl); in_flight = k.in_flight }
  Step-Kept (elapsed s w) k = record { renewable = k.renewable; in_flight = k.in_flight }

  Reach-Kept : {start s : Shared W} → Kept start → Reach start s → Kept s
  Reach-Kept k here = k
  Reach-Kept k (then_step r step) = Step-Kept step (Reach-Kept k r)

  -- In every order of the steps of renewals, sign-ins, requests and deaths, from a session without
  -- an access token and without a renewal in flight: a session that holds an access token is active
  -- and holds a refresh token.
  pub Reach-Renewable :
      (start s : Shared W)
      → start.host.session.access ≡ ""
      → start.flight ≡ none
      → Reach start s
      → s.host.session.access ≢ ""
      → (s.host.session.refresh ≢ "") × (s.host.session.state ≡ active)
  Reach-Renewable start s empty idle r =
      (Reach-Kept (record { renewable = λ x. absurd (x empty); in_flight = λ old e. cc })
        r).renewable
