-- ===== src/Commands/Microsoft.antt =====
-- The command /microsoft of internal/discordhttp/microsoft.go, over the sessions of internal/entra.
use Prim.Native.String.{◌++◌ as append}
use uade_bot.Prelude.{String, ◌==◌, Bool, true, false, ◌||◌, Option, none, some, if◌then◌else◌}
use uade_bot.Prelude.Int.{ℤ}
use uade_bot.Prelude.Exec.{pure, ◌>>=◌}
use uade_bot.Scheduler.Types.{Error}
use uade_bot.Entra.Session.{State, signed_out, active, dead}
use uade_bot.Commands.Desk.{Action, Reply, card, info, success, warning, danger, titled}

pub data LoginState : Type 0 where
  idle pending finished failed : LoginState

pub record LoginStatus : Type 0 where
  pub state : LoginState
  pub message : String
  pub user_code : String
  pub verification_uri : String
  pub expires_at : ℤ

-- `errors.Is(err, entra.ErrInvalidUser)` is the test for `invalid_user`.
pub data LoginError : Type 0 where
  invalid_user : LoginError
  other : Error → LoginError

-- The operations of entra.Manager: `begin_login` gives a status beside its error, if it has one;
-- `status` gives none where it fails, and `forget` false.
pub record MicrosoftSessions : Type 0 where
  pub begin_login : String → Action (LoginStatus × Option LoginError)
  pub status : String → Action (Option State)
  pub forget : String → Action Bool

abbrev pub is_pending : LoginState → Bool
is_pending pending = true
is_pending idle = false
is_pending finished = false
is_pending failed = false

abbrev pub is_invalid_user : Option LoginError → Bool
is_invalid_user (some invalid_user) = true
is_invalid_user (some (other e)) = false
is_invalid_user none = false

abbrev instructions : (ℤ → String) → LoginStatus → String
instructions hour s = append "1. Abrí " (
    append s.verification_uri (
      append " desde cualquier dispositivo.\n2. Escribí este código: **`" (
        append s.user_code (
          append "`**\n3. Entrá con tu cuenta de UADE.\n\nEl código vence a las " (
            append (hour s.expires_at)
              ". Te aviso por mensaje directo cuando termine. Nunca te voy a pedir tu contraseña.")))))

-- the reply where a sign-in did not start
abbrev pub not_started : LoginStatus → Option LoginError → Reply
not_started s e = card danger (
    if s.message == "" || is_invalid_user e
    then "No pude iniciar el inicio de sesión con Microsoft. Probá de nuevo en un rato."
    else s.message)

-- `hour` writes a time of the clock as hours and minutes in Argentina.
abbrev pub begun : (ℤ → String) → LoginStatus × Option LoginError → Reply
begun hour (s, some e) = not_started s (some e)
begun hour (s, none) =
    if is_pending s.state
    then card (titled "Iniciar sesión con Microsoft") (instructions hour s)
    else not_started s none

abbrev pub described : Option State → Reply
described none = card danger "No pude consultar tu sesión."
described (some active) = card success "Tu sesión de Microsoft está activa y se renueva sola."
described (some dead) =
    card warning
      "Tu sesión de Microsoft venció. Usá `/microsoft accion:iniciar` para volver a entrar."
described (some signed_out) =
    card info "No tenés una sesión de Microsoft. Usá `/microsoft accion:iniciar` para entrar."

abbrev pub forgotten : Bool → Reply
forgotten false = card danger "No pude cerrar tu sesión."
forgotten true = card success "Cerré tu sesión de Microsoft y borré lo que tenía guardado."

unfoldable pub microsoft : (ℤ → String) → Option MicrosoftSessions → String → String → Action Reply
microsoft hour none user accion =
    pure (card warning "El inicio de sesión con Microsoft no está configurado en este servidor.")
microsoft hour (some m) user accion =
    if accion == "" || accion == "iniciar"
    then (do begin ← m.begin_login user; pure (begun hour begin))
    else if accion == "estado"
    then (do found ← m.status user; pure (described found))
    else if accion == "cerrar"
    then (do closed ← m.forget user; pure (forgotten closed))
    else pure (card warning "Acción desconocida.")
