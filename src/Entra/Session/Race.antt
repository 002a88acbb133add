-- ===== src/Entra/Session/Race.antt =====
-- A renewal that is in flight while its user signs in again.
use uade_bot.Prelude.{◌≡◌, ◌≢◌, refl, String, none, some, ==-false}
use uade_bot.Entra.Session.{
  dead, permanent, failed, Tokens, Host, Services, adopt, install, finish_refresh, mark_dead,
}

-- Let a sign-in with a refresh token pass the resource's test while a renewal with an older token
-- is in flight, and let Microsoft then refuse that renewal for good. The sign-in reports no error
-- and installs its tokens, and the end of the renewal leaves the session dead and without tokens.
pub adopt-finish_refresh :
    {W : Type 0} (sv : Services W) (h : Host W) (t : Tokens) (w : W) (old code : String)
    → t.refresh_token ≢ ""
    → sv.validate t.access_token h.world ≡ (none, w)
    → let (signed_in, k) = adopt sv t h in
      let (refused, k') = finish_refresh sv old (failed (permanent code)) k in
      (signed_in ≡ none)
      × (k.session ≡ install t h.session)
      × (refused ≡ some (permanent code))
      × (k'.session.state ≡ dead)
      × (k'.session.access ≡ "")
      × (k'.session.refresh ≡ "")
unfolding adopt finish_refresh mark_dead
adopt-finish_refresh sv h t w old code f valid =
    rw (==-false t.refresh_token "" f, valid) (refl, refl, refl, refl, refl, refl)
