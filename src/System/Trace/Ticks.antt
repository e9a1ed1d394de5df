-- ===== src/System/Trace/Ticks.antt =====
-- A tick of an admitter is its pop and the SETs that are run.
use queue_fair.Prelude.{
  ℕ, zero, suc, Text, Option, none, some, List, [], ◌∷◌, ◌≡◌, refl, ap, sym, ◌∙◌, map, length, take,
  ◌/◌,
}
use queue_fair.Redis.{Redis}
use queue_fair.Keys.{EventKeys}
use queue_fair.Result.{Result, ok, raise}
use queue_fair.Ports.{AdmissionBatch, IssuedPass, PassIssuer}
use queue_fair.State.{Float}
use queue_fair.Queue.Runs.{admit, step, final}
use queue_fair.Queue.Runs.Append.{final-append}
use queue_fair.Repository
use queue_fair.Repository.{
  Network, delivered, refused, lost, repository, payload, run_sets, record_admissions,
}
use queue_fair.Repository.Codec.{JsonCodec}
use queue_fair.Admission
use queue_fair.Admission.{admit_once, hand_out, issue_all}
use queue_fair.Admission.Rounds.{Round}
use queue_fair.Api.{Settings}
use queue_fair.System.{ticks, reaching, sets_run, perform, park_of, stored_of, parks_of, events_of}

module _ (F : Float) (settings : Settings) (R : Redis) (J : JsonCodec) (issuer : PassIssuer)
    (ttl : ℕ) (event_id : Text) where
  open R use {Db}

  abbrev keys : EventKeys
  keys = record { event_id = event_id }

  pub final-parks :
      (n : ℕ) (ps : List IssuedPass) (db : Db)
      → final R keys (map (park_of F settings R J issuer ttl event_id) (take n ps)) db
        ≡ run_sets R J n event_id ps ttl db
  unfolding final step run_sets
  final-parks zero ps db = refl
  final-parks (suc n) [] db = refl
  final-parks (suc n) (p ∷ ps) db = final-parks n ps _

  final-pop :
      (net : Network) (now : ℕ) (db : Db)
      → (Repository.admit_batch R net event_id now db).1
        ≡ final R keys (reaching net (admit now)) db
  unfolding Repository.admit_batch final step
  final-pop delivered now db = refl
  final-pop refused now db = refl
  final-pop lost now db = refl

  run_sets_none : (sent : ℕ) (db : Db) → run_sets R J sent event_id [] ttl db ≡ db
  unfolding run_sets
  run_sets_none zero db = refl
  run_sets_none (suc sent) db = refl

  final-record :
      (net : Network) (sent : ℕ) (ps : List IssuedPass) (db : Db)
      → (record_admissions R J net sent event_id ps ttl db).1
        ≡ final R keys
            (map
              (park_of F settings R J issuer ttl event_id)
              (take (sets_run net sent (length ps)) ps))
            db
  unfolding record_admissions final
  final-record delivered sent [] db = refl
  final-record refused sent [] db = refl
  final-record lost sent [] db = sym (final-parks sent [] db ∙ run_sets_none sent db)
  final-record delivered sent (p ∷ ps) db = sym (final-parks (length (p ∷ ps)) (p ∷ ps) db)
  final-record refused sent (p ∷ ps) db = sym (final-parks 0 (p ∷ ps) db)
  final-record lost sent (p ∷ ps) db = sym (final-parks sent (p ∷ ps) db)

  final-batch :
      (r : Round) (tokens : List Text) (total : ℕ) (db : Db)
      → (hand_out
          (repository R J r.popping r.parking r.sent)
          issuer
          ttl
          event_id
          r.now_ms
          r.uuid
          (ok (some (record { admitted_tokens = tokens; admitted_total = total })))
          db).1
        ≡ final R keys
            (map
              (park_of F settings R J issuer ttl event_id)
              (stored_of F settings R J issuer ttl event_id r tokens))
            db
  unfolding hand_out Admission.park repository issue_all
  final-batch r [] total db = final-record r.parking r.sent [] db
  final-batch r (t ∷ ts) total db =
      final-record r.parking r.sent (issue_all issuer event_id (r.now_ms / 1000) r.uuid 0 (t ∷ ts))
        db

  final-hand_out :
      (r : Round) (batch : Result (Option AdmissionBatch)) (db : Db)
      → (hand_out
          (repository R J r.popping r.parking r.sent)
          issuer
          ttl
          event_id
          r.now_ms
          r.uuid
          batch
          db).1
        ≡ final R keys (parks_of F settings R J issuer ttl event_id r batch) db
  unfolding hand_out Admission.park repository final
  final-hand_out r (raise e) db = refl
  final-hand_out r (ok none) db = refl
  final-hand_out r (ok (some batch)) db =
      final-batch r batch.admitted_tokens batch.admitted_total db

  pub final-ticks :
      (r : Round) (db : Db)
      → perform F settings R J issuer ttl event_id (ticks r) db
        ≡ final R keys (events_of F settings R J issuer ttl event_id (ticks r) db) db
  unfolding perform events_of admit_once repository
  final-ticks r db =
      final-hand_out r _ _
      ∙ ap
          (final R keys (
            parks_of F settings R J issuer ttl event_id r
              (Repository.admit_batch R r.popping event_id r.now_ms db).0))
          (final-pop r.popping r.now_ms db)
      ∙ sym (final-append R keys (reaching r.popping (admit r.now_ms)) _ db)
