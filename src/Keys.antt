-- ===== src/Keys.antt =====
-- core/keys.py: the names of an event's keys.
pub mod Distinct
use queue_fair.Prelude.{Text, codes, ◌++◌}

-- NAMESPACE
abbrev pub namespace : Text
namespace = codes "qf"

-- f"{NAMESPACE}:{event_id}:" and what follows
abbrev pub key : Text → Text → Text
key event_id name = namespace ++ (codes ":" ++ (event_id ++ (codes ":" ++ name)))

pub record EventKeys : Type 0 where
  pub event_id : Text

module _ (keys : EventKeys) where
  abbrev pub queue : Text
  queue = key keys.event_id (codes "queue")

  abbrev pub seq : Text
  seq = key keys.event_id (codes "seq")

  abbrev pub admitted : Text
  admitted = key keys.event_id (codes "admitted")

  abbrev pub bucket : Text
  bucket = key keys.event_id (codes "bucket")

  abbrev pub config : Text
  config = key keys.event_id (codes "config")

  abbrev pub channel : Text
  channel = key keys.event_id (codes "events")

  abbrev pub pass_for : Text → Text
  pass_for queue_token = key keys.event_id (codes "pass:" ++ queue_token)
