-- ===== src/Admission/Rounds.antt =====
-- The loop of the controller over the Redis repository, with any network in each round.
use queue_fair.Prelude.{
  ℕ, zero, suc, ◌+◌, Text, Option, none, some, List, [], ◌∷◌, ◌++◌, ◌≡◌, refl, ap, ◌∙◌, arith,
  length, length-append, take, is_empty, map, Bool-cases, inl, inr,
}
use mathlib.Core.List.{append_assoc, append-nil}
use queue_fair.Redis.{Redis}
use queue_fair.Keys
use queue_fair.Keys.{EventKeys}
use queue_fair.Result.{Result, ok, raise}
use queue_fair.Ports.{AdmissionBatch, IssuedPass, PassIssuer}
use queue_fair.Queue.{Line, Holds}
use queue_fair.Queue.Runs.{admit, step, IsLive}
use queue_fair.Queue.Runs.Step.{step-Stepped, line_after, admitted_by}
use queue_fair.Queue.Runs.Order.{count_after, order_after}
use queue_fair.Repository.{
  Network, delivered, refused, lost, run_sets, record_admissions, admit_batch, repository, payload,
}
use queue_fair.Repository.Codec.{JsonCodec}
use queue_fair.Admission.{hand_out, admit_once, Tick, run_forever}
use queue_fair.Admission

-- What a round finds: the outcomes of both round trips, how many SETs a broken pipeline ran, the
-- clock and the random draws.
pub record Round : Type 0 where
  pub popping : Network
  pub parking : Network
  pub sent : ℕ
  pub now_ms : ℕ
  pub uuid : ℕ → Text

module _ (R : Redis) (J : JsonCodec) (issuer : PassIssuer) (ttl : ℕ) (event_id : Text) where
  open R use {Db, view}

  abbrev keys : EventKeys
  keys = record { event_id = event_id }

  abbrev pub tick_of : Round → Tick Db
  tick_of r = record {
    repository = repository R J r.popping r.parking r.sent;
    now_ms = r.now_ms;
    uuid = r.uuid;
  }

  -- In step and configured.
  record Sound (db : Db) (q : Line) : Type 0 where
    in_step : Holds (view db) keys q
    live : IsLive (view db) keys

  Sound-set :
      (db : Db) (q : Line) (t text : Text)
      → Sound db q
      → Sound (R.set_ex db (Keys.pass_for keys t) text ttl) q
  Sound-set db q t text s =
      let e = R.view-set_ex db (Keys.pass_for keys t) text ttl in
      record {
        in_step = rw e (record {
          members = s.in_step.members;
          issued = s.in_step.issued;
          counted = s.in_step.counted;
          distinct = s.in_step.distinct;
        });
        live = rw e s.live;
      }

  Sound-run_sets :
      (sent : ℕ) (ps : List IssuedPass) (db : Db) (q : Line)
      → Sound db q
      → Sound (run_sets R J sent event_id ps ttl db) q
  unfolding run_sets
  Sound-run_sets zero ps db q s = s
  Sound-run_sets (suc sent) [] db q s = s
  Sound-run_sets (suc sent) (p ∷ ps) db q s =
      Sound-run_sets sent ps _ q (Sound-set db q p.queue_token (payload J event_id p) s)

  Sound-record :
      (n : Network) (sent : ℕ) (ps : List IssuedPass) (db : Db) (q : Line)
      → Sound db q
      → Sound (record_admissions R J n sent event_id ps ttl db).1 q
  unfolding record_admissions
  Sound-record n sent [] db q s = s
  Sound-record delivered sent (p ∷ ps) db q s = Sound-run_sets (length (p ∷ ps)) (p ∷ ps) db q s
  Sound-record refused sent (p ∷ ps) db q s = s
  Sound-record lost sent (p ∷ ps) db q s = Sound-run_sets sent (p ∷ ps) db q s

  Sound-hand_out :
      (r : Round) (batch : Result (Option AdmissionBatch)) (db : Db) (q : Line)
      → Sound db q
      → Sound
          (hand_out
            (repository R J r.popping r.parking r.sent)
            issuer
            ttl
            event_id
            r.now_ms
            r.uuid
            batch
            db).1
          q
  unfolding hand_out Admission.park repository
  Sound-hand_out r (raise e) db q s = s
  Sound-hand_out r (ok none) db q s = s
  Sound-hand_out r (ok (some batch)) db q s = elim (Bool-cases (is_empty batch.admitted_tokens)) [
    | inl e ↦ rw e s
    | inr e ↦ rw e (Sound-record r.parking r.sent _ db q s)
  ]

  -- What a round does to the queue: nothing, or what the admission step does.
  record Served (db : Db) (q : Line) (d : Db) : Type 0 where
    after : Line
    gone : List Text
    sound : Sound d after
    order : gone ++ after.waiting ≡ q.waiting
    counted : after.admitted ≡ q.admitted + length gone

  Served-none : (db : Db) (q : Line) (d : Db) → Sound d q → Served db q d
  Served-none db q d s = record {
    after = q;
    gone = [];
    sound = s;
    order = refl;
    counted = omega arith;
  }

  Served-step :
      (now : ℕ) (db : Db) (q : Line) → Sound db q → Served db q (step R keys (admit now) db).1
  Served-step now db q s =
      let st = step-Stepped R keys db q s.in_step s.live (admit now) in
      record {
        after = line_after R keys (admit now) db q;
        gone = take (admitted_by R keys (admit now) db q) q.waiting;
        sound = record { in_step = st.in_step; live = st.live };
        order = order_after R keys (admit now) db q ∙ append-nil q.waiting;
        counted = count_after R keys (admit now) db q;
      }

  Served-pop :
      (n : Network) (now : ℕ) (db : Db) (q : Line)
      → Sound db q
      → Served db q (admit_batch R n event_id now db).1
  unfolding admit_batch step
  Served-pop refused now db q s = Served-none db q db s
  Served-pop delivered now db q s = Served-step now db q s
  Served-pop lost now db q s = Served-step now db q s

  abbrev tick : Round → Db → Result (List IssuedPass) × Db
  tick r =
      admit_once (repository R J r.popping r.parking r.sent) issuer ttl event_id r.now_ms r.uuid

  Served-tick : (r : Round) (db : Db) (q : Line) → Sound db q → Served db q (tick r db).1
  unfolding admit_once repository
  Served-tick r db q s =
      let p = Served-pop r.popping r.now_ms db q s in
      record {
        after = p.after;
        gone = p.gone;
        sound = Sound-hand_out r _ _ p.after p.sound;
        order = p.order;
        counted = p.counted;
      }

  -- Let the loop run any rounds on a configured event in step with `q`, the network failing in
  -- either round trip of any round and the pipeline breaking anywhere. Every round has its outcome, so
  -- no exception ends the loop. The keys are then in step with a queue `after`, and the event is
  -- configured: tokens `gone` left from the front of `q`, and the counter grew by their number.
  pub run_forever-Holds :
      (rs : List Round) (db : Db) (q : Line)
      → Holds (view db) (record { event_id = event_id }) q
      → IsLive (view db) (record { event_id = event_id })
      → (after : Line) × (gone : List Text) × (length
            (run_forever issuer ttl event_id (map tick_of rs) db).0
          ≡ length rs)
        × Holds
            (view (run_forever issuer ttl event_id (map tick_of rs) db).1)
            (record { event_id = event_id })
            after
        × IsLive
            (view (run_forever issuer ttl event_id (map tick_of rs) db).1)
            (record { event_id = event_id })
        × (gone ++ after.waiting ≡ q.waiting)
        × (after.admitted ≡ q.admitted + length gone)
  unfolding run_forever
  run_forever-Holds [] db q h live = (q, [], refl, h, live, refl, omega arith)
  run_forever-Holds (r ∷ rs) db q h live =
      let t = Served-tick r db q (record { in_step = h; live = live }) in
      let (after, gone, count, holds, lives, order, counted) =
        run_forever-Holds rs (tick r db).1 t.after t.sound.in_step t.sound.live in
      (
        after,
        t.gone ++ gone,
        ap suc count,
        holds,
        lives,
        append_assoc t.gone gone after.waiting ∙ ap (◌++◌ t.gone) order ∙ t.order,
        omega (arith, counted, t.counted, length-append t.gone gone),
      )
