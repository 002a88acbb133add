-- ===== src/Entra/Session/Invariant.antt =====
-- What holds of a session after every call.
use uade_bot.Entra.Session.{renew_before}
use uade_bot.Entra.Session.{adopted}
use uade_bot.Entra.Session.{drop_token}
use uade_bot.Entra.Session.{ensure_fresh}
use uade_bot.Entra.Session.{first_sent}
use uade_bot.Entra.Session.{killed}
use uade_bot.Entra.Session.{retried}
use uade_bot.Entra.Session.{sent}
use uade_bot.Entra.Session.{renewed}
use uade_bot.Prelude.{
  ℕ, ◌≡◌, ◌≢◌, refl, String, ◌==◌, Bool, Option, none, some, if◌then◌else◌, ltb, eqb, eq_iff,
  Bool-cases, inl, inr, text-cases,
}
use uade_bot.Entra.Session.{
  active, dead, Error, Reply, given, failed, Tokens, Session, Services, Host, mark_dead,
  finish_refresh, refresh_once, renew, token_within, token, adopt, do_request, validated, rotated,
  serves, is_permanent,
}

-- A dead session holds no secret, and an access token comes with the means to renew it.
pub record IsSound (s : Session) : Type 0 where
  pub dead_empty : s.state ≡ dead → (s.access ≡ "") × (s.refresh ≡ "")
  pub renewable : s.access ≢ "" → (s.refresh ≢ "") × (s.state ≡ active)

module _ {W : Type 0} (sv : Services W) where
  mark_dead-IsSound : (h : Host W) → IsSound (mark_dead sv h).session
  unfolding mark_dead
  mark_dead-IsSound h = record { dead_empty = λ _. (refl, refl); renewable = λ x. absurd (x refl) }

  rotated-ne :
      (refresh : String) (t : Tokens) → refresh ≢ "" → (rotated sv refresh t).refresh_token ≢ ""
  rotated-ne refresh t h = elim (Bool-cases (t.refresh_token == "")) [
    | inl e ↦ rw e h
    | inr e ↦ rw e (λ x. cc ((eq_iff t.refresh_token "").1 x))
  ]

  validated-IsSound :
      (t : Tokens) (a : Option Error × W) (s : Session)
      → t.refresh_token ≢ ""
      → s.state ≢ dead
      → IsSound s
      → IsSound (validated sv t a s).1.session
  validated-IsSound t (none, w) s f alive h = record {
    dead_empty = λ x. cc;
    renewable = λ x. (f, refl);
  }
  validated-IsSound t (some e, w) s f alive h = record {
    dead_empty = λ x. absurd (alive x);
    renewable = λ x. (f, (h.renewable x).1);
  }

  finish_refresh-IsSound :
      (refresh : String) (r : Reply Tokens) (h : Host W)
      → refresh ≢ ""
      → h.session.state ≢ dead
      → IsSound h.session
      → IsSound (finish_refresh sv refresh r h).1.session
  unfolding finish_refresh
  finish_refresh-IsSound refresh (failed e) h f alive s = elim (Bool-cases (is_permanent e)) [
    | inl p ↦ rw p (mark_dead-IsSound h)
    | inr p ↦ rw p s
  ]
  finish_refresh-IsSound refresh (given t) h f alive s =
      validated-IsSound (rotated sv refresh t) (sv.validate t.access_token h.world) h.session
        (rotated-ne refresh t f) alive s

  alive_of_refresh : (s : Session) → IsSound s → s.refresh ≢ "" → s.state ≢ dead
  alive_of_refresh s h f x = f (h.dead_empty x).1

  renew-IsSound : (h : Host W) → IsSound h.session → IsSound (renew sv h).1.session
  unfolding renew refresh_once
  renew-IsSound h s = elim (text-cases h.session.refresh "") [
    | inl e ↦ rw ((eq_iff h.session.refresh "").1 e) s
    | inr e ↦
        let some_refresh : h.session.refresh ≢ "" = λ x. cc ((eq_iff h.session.refresh "").1 x) in
        rw e (
          finish_refresh-IsSound h.session.refresh (sv.refresh h.session.refresh h.world).0
            (record h { world = (sv.refresh h.session.refresh h.world).1 }) some_refresh
            (alive_of_refresh h.session s some_refresh) s)
  ]

  token_within-IsSound :
      (horizon : ℕ) (h : Host W) → IsSound h.session → IsSound (token_within sv horizon h).1.session
  unfolding token_within
  token_within-IsSound horizon h s =
      elim (Bool-cases (serves sv h.session (sv.now h.world) horizon)) [
        | inl fresh ↦ rw fresh s
        | inr late ↦ rw late (answer (renew sv h) (renew-IsSound h s))
      ]
    where
      answer : (r : Option Error × Host W) → IsSound r.1.session → IsSound (renewed sv r).1.session
      answer r k = elim (Bool-cases (serves sv r.1.session (sv.now r.1.world) 0)) [
        | inl ready ↦ rw ready k
        | inr expired ↦ rw expired k
      ]

  adopt-IsSound : (t : Tokens) (h : Host W) → IsSound h.session → IsSound (adopt sv t h).1.session
  unfolding adopt
  adopt-IsSound t h s = elim (Bool-cases (t.refresh_token == "")) [
    | inl none_given ↦ rw none_given s
    | inr e ↦
        rw e
          (answer (sv.validate t.access_token h.world) (λ x. cc ((eq_iff t.refresh_token "").1 x)))
  ]
    where
      answer :
          (a : Option Error × W)
          → t.refresh_token ≢ ""
          → IsSound (adopted sv t a h.session).1.session
      answer (none, w) f = record { dead_empty = λ x. cc; renewable = λ x. (f, refl) }
      answer (some e, w) f = s

  drop_token-IsSound :
      (used : String) (h : Host W) → IsSound h.session → IsSound (drop_token sv used h).session
  drop_token-IsSound used h s = elim (Bool-cases (h.session.access == used)) [
    | inl its ↦
        rw its (record {
          dead_empty = λ x. (refl, (s.dead_empty x).1);
          renewable = λ x. absurd (x refl);
        })
    | inr other ↦ rw other s
  ]

  killed-IsSound : (a : Reply ℕ × W) (s : Session) → IsSound s → IsSound (killed sv a s).1.session
  killed-IsSound (failed e, w) s h = h
  killed-IsSound (given code, w) s h = elim (Bool-cases (eqb code 401)) [
    | inl again ↦ rw again (mark_dead-IsSound (record { session = s; world = w }))
    | inr fine ↦ rw fine h
  ]

  module _ (send : String → W → Reply ℕ × W) (replayable : Bool) (own : ℕ) where
    retried-IsSound :
        (r : Reply String × Host W)
        → IsSound r.1.session
        → IsSound (retried sv send replayable r).1.session
    retried-IsSound (failed e, h) s = s
    retried-IsSound (given t, h) s = elim (Bool-cases replayable) [
      | inl can ↦ rw can (killed-IsSound (send t h.world) h.session s)
      | inr cannot ↦ rw cannot s
    ]

    sent-IsSound :
        (used : String) (a : Reply ℕ × W) (s : Session)
        → IsSound s
        → IsSound (sent sv send replayable own used a s).1.session
    sent-IsSound used (failed e, w) s h = h
    sent-IsSound used (given code, w) s h = elim (Bool-cases (eqb code 401)) [
      | inl refused ↦ rw refused (
          retried-IsSound (token sv own (drop_token sv used (record { session = s; world = w }))) (
            unfold token in
            token_within-IsSound (renew_before own)
              (drop_token sv used (record { session = s; world = w }))
              (drop_token-IsSound used (record { session = s; world = w }) h)))
      | inr fine ↦ rw fine h
    ]

    do_request-IsSound :
        (h : Host W) → IsSound h.session → IsSound (do_request sv send replayable own h).1.session
    unfolding do_request
    do_request-IsSound h s =
        first (token sv own h) (unfold token in token_within-IsSound (renew_before own) h s)
      where
        first :
            (r : Reply String × Host W)
            → IsSound r.1.session
            → IsSound (first_sent sv send replayable own r).1.session
        first (failed e, k) q = q
        first (given t, k) q = sent-IsSound t (send t k.world) k.session q

  -- Whatever Microsoft, the resource and the file answer: a token request, an `EnsureFresh`, a
  -- sign-in, a request with its retry, and the end of a session keep the session sound. A dead
  -- session holds no token, and an access token is held only by an active session that also holds
  -- a refresh token.
  pub calls-IsSound :
      (h : Host W)
      → IsSound h.session
      → ((own : ℕ) → IsSound (token sv own h).1.session)
        × ((own horizon : ℕ) → IsSound (ensure_fresh sv own horizon h).1.session)
        × ((t : Tokens) → IsSound (adopt sv t h).1.session)
        × ((send : String → W → Reply ℕ × W) (replayable : Bool) (own : ℕ)
            → IsSound (do_request sv send replayable own h).1.session)
        × IsSound (mark_dead sv h).session
  unfolding token ensure_fresh
  calls-IsSound h s = (
    (λ own. token_within-IsSound (renew_before own) h s),
    (λ own horizon.
        token_within-IsSound (if ltb horizon (renew_before own) then renew_before own else horizon)
          h s),
    (λ t. adopt-IsSound t h s),
    (λ send replayable own. do_request-IsSound send replayable own h s),
    mark_dead-IsSound h,
  )
