-- ===== src/Commands/RunAdmitter.antt =====
-- api/management/commands/run_admitter.py and adapters/admission_factory.py. The process finds its
-- ticks as the loop of the controller does; sleeping and closing the client are not modelled.
use queue_fair.Prelude.{
  ℕ, Text, Bool, true, false, Option, none, some, List, [], ◌∷◌, ◌≡◌, refl, not, length, is_empty,
  if◌then◌else◌,
}
use queue_fair.Result.{Error, Result, value_error}
use queue_fair.Ports.{IssuedPass}
use queue_fair.Validation.{is_valid_event_id}
use queue_fair.Tokens.{Jwt}
use queue_fair.Tokens.Issuer
use queue_fair.Tokens.Issuer.{Hs256PassIssuer, issuer}
use queue_fair.Admission.{admit_once, run_forever, Tick}

-- ADMISSION_TOKEN_SECRET and ADMISSION_PASS_TTL_SECONDS
pub record Settings : Type 0 where
  pub secret : Text
  pub pass_ttl_seconds : ℕ

-- The issuer that the controller is built with, unless its construction raises.
unfoldable pub build_admission_controller : Settings → Result Hs256PassIssuer
build_admission_controller settings = Issuer.init settings.secret settings.pass_ttl_seconds

-- `options["tick"] or settings.ADMISSION_TICK_SECONDS`, where zero counts as no tick.
unfoldable pub tick_of {ℓ} : {N : Type ℓ} → (N → Bool) → Option N → N → N
tick_of is_zero none default_tick = default_tick
tick_of is_zero (some tick) default_tick = if is_zero tick then default_tick else tick

-- How the process ends: CommandError, another exception, the number that it prints, or stopped after
-- the outcomes that it logged.
pub data Exit : Type 0 where
  command_error : Exit
  raised : Error → Exit
  admitted : ℕ → Exit
  stopped : List (Result (List IssuedPass)) → Exit

unfoldable pub exit_of : Result (List IssuedPass) → Exit
exit_of (Result.ok issued) = admitted (length issued)
exit_of (Result.raise e) = raised e

module _ {S : Type 0} (J : Jwt) (settings : Settings) (event_id : Text) where
  -- `_run` with a controller: the one tick of --once, or all ticks until it is stopped.
  unfoldable pub run : Hs256PassIssuer → Bool → Tick S → List (Tick S) → S → Exit × S
  unfolding admit_once run_forever exit_of
  run self true first rest s =
      let (outcome, s') =
        admit_once first.repository (issuer J self) settings.pass_ttl_seconds event_id first.now_ms
          first.uuid s in
      (exit_of outcome, s')
  run self false first rest s =
      let (outcomes, s') =
        run_forever (issuer J self) settings.pass_ttl_seconds event_id (first ∷ rest) s in
      (stopped outcomes, s')

  unfoldable pub started : Result Hs256PassIssuer → Bool → Tick S → List (Tick S) → S → Exit × S
  unfolding run
  started (Result.raise e) once first rest s = (raised e, s)
  started (Result.ok self) once first rest s = run self once first rest s

  unfoldable pub handle : Bool → Tick S → List (Tick S) → S → Exit × S
  unfolding started build_admission_controller
  handle once first rest s =
      if not (is_valid_event_id event_id)
      then (command_error, s)
      else started (build_admission_controller settings) once first rest s

  -- For an accepted event and a secret that is not empty: the tick of --once has an outcome; it ends
  -- the process, with the number admitted or the exception; and the loop that is stopped after that
  -- tick logged the same outcome, whichever it is, and left the same state.
  run_admitter_once :
      (first : Tick S) (s : S)
      → is_valid_event_id event_id ≡ true
      → is_empty settings.secret ≡ false
      → (outcome : Result (List IssuedPass)) × ((handle true first [] s).0 ≡ exit_of outcome)
        × ((handle false first [] s).0 ≡ stopped (outcome ∷ []))
        × ((handle true first [] s).1 ≡ (handle false first [] s).1)
  unfolding handle started run run_forever build_admission_controller Issuer.init
  run_admitter_once first s valid secret = (
    (admit_once first.repository
        (issuer J (record { secret = settings.secret; ttl_seconds = settings.pass_ttl_seconds }))
        settings.pass_ttl_seconds event_id first.now_ms first.uuid s).0,
    simp (valid, secret) refl,
    simp (valid, secret) refl,
    simp (valid, secret) refl,
  )

  -- Without a secret the admitter does not start, and nothing changes.
  pub run_admitter_no_secret :
      (once : Bool) (first : Tick S) (rest : List (Tick S)) (s : S)
      → is_valid_event_id event_id ≡ true
      → is_empty settings.secret ≡ true
      → handle once first rest s ≡ (raised value_error, s)
  unfolding handle started build_admission_controller Issuer.init
  run_admitter_no_secret once first rest s valid secret = simp (valid, secret) refl
