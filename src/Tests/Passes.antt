-- ===== src/Tests/Passes.antt =====
-- Replies of the repository, a tick of the controller, and passes, at concrete inputs.
use queue_fair.Prelude.{pos, ℕ, Text, codes, false, some, [], ◌∷◌, ◌≡◌, refl, arith}
use queue_fair.Redis.Memory.{memory}
use queue_fair.Scripts.{batch_size, refill, bucket_state, elapsed}
use queue_fair.Result.{ok, raise, redis_error, unknown_token}
use queue_fair.State.{JoinOutcome, PositionOutcome, state_from, state_from_position}
use queue_fair.Repository
use queue_fair.Repository.{delivered, refused, lost, waiting, admitted}
use queue_fair.Repository.Replies
use queue_fair.Repository.Replies.{join_retry, join_then_position}
use queue_fair.Admission.Broken.{tick_broken}
use queue_fair.Admission.Collect.{tick}
use queue_fair.Tokens.{Payload, valid}
use queue_fair.Tokens.Issuer
use queue_fair.Tokens.Issuer.{Hs256PassIssuer, issue}
use queue_fair.Tokens.Verify
use queue_fair.Tokens.Verify.{
  AdmissionClaims, Verified, verify_admission_token, expired_admission_token,
}
use queue_fair.Tokens.Agree.{verify-issue, verified-Stands, Stands}
use queue_fair.Validation.{is_valid_event_id, is_valid_queue_token}
use queue_fair.Booking.Columns.{Fits, issued-Fits}
use queue_fair.Tests.Data.{keys, ada, bob, new, three_waiting, three, three-Holds}
use queue_fair.Tests.Inputs.{thousandths}
use queue_fair.Tests.Codecs.{codec, signer}

abbrev event_id : Text
event_id = keys.event_id

join_retry_example :
    ((Repository.join memory lost event_id new three_waiting).0 ≡ raise redis_error)
    × ((Repository.join memory delivered event_id new
          (Repository.join memory lost event_id new three_waiting).1).0
        ≡ ok (
            some (record (Replies.outcome_of memory event_id three_waiting new three) {
              joined = false;
            })))
    × ((Repository.join memory delivered event_id new
          (Repository.join memory lost event_id new three_waiting).1).1
        ≡ (Repository.join memory lost event_id new three_waiting).1)
join_retry_example = join_retry memory event_id three_waiting new three three-Holds refl

join_then_position_example :
    (i : JoinOutcome) × (o : PositionOutcome) × ((Repository.join memory delivered event_id new
        three_waiting).0
      ≡ ok (some i))
    × ((Repository.position memory codec delivered event_id new
          (Repository.join memory delivered event_id new three_waiting).1).0
        ≡ ok (waiting o))
    × (state_from thousandths i ≡ state_from_position thousandths o)
join_then_position_example =
    join_then_position memory event_id codec thousandths three_waiting new three three-Holds refl

abbrev pub signing : Hs256PassIssuer
signing = record { secret = codes "s3cret"; ttl_seconds = 120 }

abbrev pub uuid : ℕ → Text
uuid n = n ∷ []

names : (t jti : Text) → (issue signer signing event_id t 1060 jti).queue_token ≡ t
unfolding issue
names t jti = refl

-- The same tick with the pipeline broken off after one SET, of two.
tick_broken_example :
    ((tick memory codec
        (Issuer.issuer signer signing)
        event_id
        120
        1060000
        uuid
        lost
        1
        three_waiting).0
      ≡ raise redis_error)
    × ((Repository.position memory codec delivered event_id bob
          (tick memory codec
            (Issuer.issuer signer signing)
            event_id
            120
            1060000
            uuid
            lost
            1
            three_waiting).1).0
        ≡ raise unknown_token)
unfolding batch_size refill bucket_state elapsed
tick_broken_example =
    tick_broken memory codec (Issuer.issuer signer signing) event_id 120 1060000 uuid three_waiting
      three three-Holds refl (omega arith) names (omega arith) 1 bob 1 refl refl

-- A pass of two minutes, verified after one.
verify-issue_example :
    verify_admission_token signer
      (issue signer signing event_id ada 1000 (codes "7")).jwt
      (codes "s3cret")
      1060
    ≡ Verify.ok (record {
      user_id = ada;
      event_id = event_id;
      jti = codes "7";
      issued_at = pos 1000;
      expires_at = pos 1120;
    })
verify-issue_example =
    verify-issue signer signing event_id ada (codes "7") 1000 refl refl refl 1060 (omega arith)

abbrev some_claims : AdmissionClaims
some_claims = record {
  user_id = ada;
  event_id = event_id;
  jti = codes "7";
  issued_at = pos 1000;
  expires_at = pos 1120;
}

verified-Stands_example :
    (p : Payload) × (signer.decode
        (issue signer signing event_id ada 1000 (codes "7")).jwt
        (codes "s3cret")
        1060
      ≡ valid p)
    × Stands p some_claims
verified-Stands_example =
    verified-Stands signer (issue signer signing event_id ada 1000 (codes "7")).jwt (codes "s3cret")
      1060 some_claims
      (verify-issue signer signing event_id ada (codes "7") 1000 refl refl refl 1060 (omega arith))

abbrev uuid_hex : Text
uuid_hex = codes "00112233445566778899aabbccddeeff"

issued-Fits_example : Fits (record {
  user_id = ada;
  event_id = event_id;
  jti = uuid_hex;
  issued_at = pos 1000;
  expires_at = pos 1120;
})
unfolding is_valid_event_id is_valid_queue_token
issued-Fits_example =
    issued-Fits signer signing event_id ada uuid_hex 1000 1060
      (record {
        user_id = ada;
        event_id = event_id;
        jti = uuid_hex;
        issued_at = pos 1000;
        expires_at = pos 1120;
      })
      refl refl (record { size = refl; digits = ground arith }) (omega arith)
      (verify-issue signer signing event_id ada uuid_hex 1000 refl refl refl 1060 (omega arith))
