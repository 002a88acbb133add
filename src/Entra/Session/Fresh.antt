-- ===== src/Entra/Session/Fresh.antt =====
-- The access tokens that a session hands out.
use uade_bot.Entra.Session.{no_session}
use uade_bot.Entra.Session.{renewed}
use uade_bot.Prelude.{
  ℕ, ◌<◌, ◌≡◌, ◌≢◌, sym, arith, String, true, Option, none, some, eq_iff, Bool-cases, inl, inr,
}
use uade_bot.Entra.Session.{
  Error, Reply, given, failed, Session, Services, Host, renew, token_within, serves,
}

module _ {W : Type 0} (sv : Services W) where
  serves-fresh :
      (s : Session) (now horizon : ℕ)
      → serves sv s now horizon ≡ true
      → (s.access ≢ "") × (now < s.expires)
  serves-fresh s now horizon h = ground (arith, eq_iff s.access "")

  no_token :
      (x : Option Error) {t : String}
      → (elim x as (λ _. Reply String) [ none ↦ failed no_session | some y ↦ failed y ]) ≡ given t
      → ⊥
  no_token none e = cc
  no_token (some y) e = cc

  -- A token that `Token` or `EnsureFresh` hands out is the one that the session then holds, it is
  -- not empty, and it has not expired by the clock at the end of the call.
  pub token_within-unexpired :
      (horizon : ℕ) (h : Host W) (t : String)
      → (token_within sv horizon h).0 ≡ given t
      → let k = (token_within sv horizon h).1 in
        (t ≡ k.session.access) × (t ≢ "") × (sv.now k.world < k.session.expires)
  unfolding token_within
  token_within-unexpired horizon h t e =
      elim (Bool-cases (serves sv h.session (sv.now h.world) horizon)) [
        | inl fresh ↦ rw fresh (
            let same : h.session.access ≡ t = cc (rw fresh at e) in
            let (a, b) = serves-fresh h.session (sv.now h.world) horizon fresh in
            (sym same, rw (← same) a, b))
        | inr late ↦ rw late (answer (renew sv h) (rw late at e))
      ]
    where
      answer :
          (r : Option Error × Host W)
          → (renewed sv r).0 ≡ given t
          → (t ≡ (renewed sv r).1.session.access)
            × (t ≢ "")
            × (sv.now (renewed sv r).1.world < (renewed sv r).1.session.expires)
      answer (x, k) e = elim (Bool-cases (serves sv k.session (sv.now k.world) 0)) [
        | inl ready ↦ rw ready (
            let same : k.session.access ≡ t = cc (rw ready at e) in
            let (a, b) = serves-fresh k.session (sv.now k.world) 0 ready in
            (sym same, rw (← same) a, b))
        | inr expired ↦ absurd (no_token x (rw expired at e))
      ]
