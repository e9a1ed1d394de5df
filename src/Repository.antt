-- ===== src/Repository.antt =====
-- adapters/queue_repository.py: one round trip to Redis for each method, and the decoding of replies.
pub mod Codec
pub mod Replies
use queue_fair.Prelude.{
  ℕ, zero, suc, refl, arith, ◌<◌, ◌≡◌, Text, codes, Bool, true, false, Option, none, some, List, [],
  ◌∷◌, ◌++◌, length, map, not, ◌==◌, if◌then◌else◌,
}
use queue_fair.Redis.{Redis}
use queue_fair.Keys
use queue_fair.Keys.{EventKeys}
use queue_fair.Result.{
  Error, Result, ok, raise, ◌>>=◌, redis_error, value_error, index_error, assertion_error,
  unknown_event, unknown_token,
}
use queue_fair.Scripts
use queue_fair.Scripts.{Atom, member, score, Item, int, bulk, array, Reply}
use queue_fair.Ports.{AdmissionBatch, IssuedPass, QueueRepository}
use queue_fair.State.{Admission, JoinOutcome, PositionOutcome, AdmittedOutcome}
use Codec.{JsonCodec}

-- What becomes of a round trip: it succeeds, it does not reach Redis, or Redis runs the command and
-- the reply does not come back.
pub data Network : Type 0 where
  delivered refused lost : Network

-- bool(joined)
abbrev pub truth : ℕ → Bool
truth n = not (n == 0)

unfoldable pub unpack_join : Reply → Result JoinOutcome
unpack_join (int status ∷ int sequence ∷ int joined ∷ int total ∷ int admitted ∷ int rate ∷ []) =
    ok (record {
      sequence = sequence;
      joined = truth joined;
      total_waiting = total;
      admitted_total = admitted;
      rate_per_min = rate;
    })
unpack_join _ = raise value_error

unfoldable pub decode_join : Reply → Result (Option JoinOutcome)
unfolding unpack_join
decode_join [] = raise index_error
decode_join (int status ∷ rest) =
    if status == 0
    then ok none
    else (do outcome ← unpack_join (int status ∷ rest); ok (some outcome))
decode_join (item ∷ rest) = do outcome ← unpack_join (item ∷ rest); ok (some outcome)

-- PositionOutcome | AdmittedOutcome
pub data Standing : Type 0 where
  waiting : PositionOutcome → Standing
  admitted : AdmittedOutcome → Standing

unfoldable pub unpack_waiting : Reply → Result Standing
unpack_waiting (int status ∷ int position ∷ int total ∷ int admitted_total ∷ int rate ∷ []) = ok (
    waiting (record {
      position = position;
      total_waiting = total;
      admitted_total = admitted_total;
      rate_per_min = rate;
    }))
unpack_waiting _ = raise value_error

unfoldable pub loaded : Option Admission → ℕ → ℕ → Result Standing
loaded none total admitted_total = raise value_error
loaded (some admission) total admitted_total = ok (
    admitted
      (record { admission = admission; total_waiting = total; admitted_total = admitted_total }))

unfoldable pub unpack_admitted : JsonCodec → Reply → Result Standing
unfolding loaded
unpack_admitted J (int status ∷ bulk admission_json ∷ int total ∷ int admitted_total ∷ []) =
    loaded (J.loads admission_json) total admitted_total
unpack_admitted J _ = raise value_error

unfoldable pub decode_position : JsonCodec → Reply → Result Standing
unfolding unpack_waiting unpack_admitted
decode_position J [] = raise index_error
decode_position J (int status ∷ rest) =
    if status == 0
    then raise unknown_event
    else if status == 1
    then raise unknown_token
    else if status == 3
    then unpack_admitted J (int status ∷ rest)
    else unpack_waiting (int status ∷ rest)
decode_position J (item ∷ rest) = unpack_waiting (item ∷ rest)

-- popped[i] for i in range(0, len(popped), 2)
unfoldable pub every_second : List Atom → List Atom
every_second [] = []
every_second (a ∷ []) = a ∷ []
every_second (a ∷ b ∷ l) = a ∷ every_second l

-- f"/events/{event_id}/book"
abbrev pub book_url : Text → Text
book_url event_id = codes "/events/" ++ (event_id ++ codes "/book")

-- The text that is parked for a pass.
abbrev pub payload : JsonCodec → Text → IssuedPass → Text
payload J event_id issued =
    J.dumps
      (record { pass = issued.jwt; expires_at = issued.expires_at; book_url = book_url event_id })

-- With a time to live of 0 each SET is an error, and the pipeline raises it: a RedisError.
abbrev pub pipeline_reply : ℕ → Result (Unit {0})
pipeline_reply zero = raise redis_error
pipeline_reply (suc ttl) = ok tt

pub pipeline_reply_lem : (ttl : ℕ) → 0 < ttl → pipeline_reply ttl ≡ ok tt
pipeline_reply_lem zero h = absurd (omega (arith, h))
pipeline_reply_lem (suc ttl) h = refl

module _ (R : Redis) where
  open R use {Db, score_text, set_ex}

  abbrev pub atom_text : Atom → Text
  atom_text (member t) = t
  atom_text (score n) = score_text n

  unfoldable pub checked_batch : ℕ → ℕ → List Text → Result (Option AdmissionBatch)
  checked_batch count admitted_total tokens =
      if length tokens == count
      then ok (some (record { admitted_tokens = tokens; admitted_total = admitted_total }))
      else raise assertion_error

  unfoldable pub unpack_batch : Reply → Result (Option AdmissionBatch)
  unfolding checked_batch every_second
  unpack_batch (int status ∷ int count ∷ int admitted_total ∷ array popped ∷ []) =
      checked_batch count admitted_total (map atom_text (every_second popped))
  unpack_batch _ = raise value_error

  unfoldable pub decode_batch : Reply → Result (Option AdmissionBatch)
  unfolding unpack_batch
  decode_batch [] = raise index_error
  decode_batch (int status ∷ rest) =
      if status == 0 then ok none else unpack_batch (int status ∷ rest)
  decode_batch (item ∷ rest) = unpack_batch (item ∷ rest)

  -- One EVALSHA.
  unfoldable pub call : Network → (Db → Reply × Db) → Db → Result Reply × Db
  call delivered script db = let (reply, db') = script db in (ok reply, db')
  call refused script db = (raise redis_error, db)
  call lost script db = (raise redis_error, (script db).1)

  unfoldable pub join : Network → Text → Text → Db → Result (Option JoinOutcome) × Db
  unfolding call decode_join
  join net event_id queue_token db =
      let keys : EventKeys = record { event_id = event_id } in
      let (reply, db') =
        call net
          (Scripts.join R (Keys.queue keys) (Keys.seq keys) (Keys.admitted keys) (Keys.config keys)
            queue_token)
          db in
      (reply >>= decode_join, db')

  unfoldable pub admit_batch : Network → Text → ℕ → Db → Result (Option AdmissionBatch) × Db
  unfolding call decode_batch
  admit_batch net event_id now_ms db =
      let keys : EventKeys = record { event_id = event_id } in
      let (reply, db') =
        call net
          (Scripts.admit_batch R (Keys.queue keys) (Keys.admitted keys) (Keys.bucket keys)
            (Keys.config keys) now_ms)
          db in
      (reply >>= decode_batch, db')

  module _ (J : JsonCodec) where
    unfoldable pub position : Network → Text → Text → Db → Result Standing × Db
    unfolding call decode_position
    position net event_id queue_token db =
        let keys : EventKeys = record { event_id = event_id } in
        let (reply, db') =
          call net
            (Scripts.position R (Keys.queue keys) (Keys.admitted keys) (Keys.config keys)
              (Keys.pass_for keys queue_token) queue_token)
            db in
        (reply >>= decode_position J, db')

    -- The SETs of the pipeline, of which the first `sent` are run.
    unfoldable pub run_sets : ℕ → Text → List IssuedPass → ℕ → Db → Db
    run_sets zero event_id passes ttl db = db
    run_sets (suc sent) event_id [] ttl db = db
    run_sets (suc sent) event_id (issued ∷ passes) ttl db = run_sets sent event_id passes ttl (
        set_ex db (Keys.pass_for (record { event_id = event_id }) issued.queue_token)
          (payload J event_id issued) ttl)

    -- No transaction: when the connection fails, only the first `sent` commands may have been run.
    unfoldable pub record_admissions :
        Network → ℕ → Text → List IssuedPass → ℕ → Db → Result (Unit {0}) × Db
    unfolding run_sets
    record_admissions net sent event_id [] ttl db = (ok tt, db)
    record_admissions delivered sent event_id (p ∷ ps) ttl db =
        (pipeline_reply ttl, run_sets (length (p ∷ ps)) event_id (p ∷ ps) ttl db)
    record_admissions refused sent event_id (p ∷ ps) ttl db = (raise redis_error, db)
    record_admissions lost sent event_id (p ∷ ps) ttl db =
        (raise redis_error, run_sets sent event_id (p ∷ ps) ttl db)

    -- The repository as the controller sees it.
    unfoldable pub repository : Network → Network → ℕ → QueueRepository Db
    unfolding admit_batch record_admissions
    repository popping parking sent = record {
      admit_batch = admit_batch popping;
      record_admissions = record_admissions parking sent;
    }
