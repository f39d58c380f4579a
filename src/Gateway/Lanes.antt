-- ===== src/Gateway/Lanes.antt =====
-- packages/gateway/src/protocol/lanes.ts and the routing context of protocol/conversations.ts.
-- `payload` is only carried along, so any text stands for it.
use templar.Prelude.{ℕ, String, Option, Bool, true, false}

pub data MessageType : Type 0 where
  dm group : MessageType

pub record MessageRoutingContext : Type 0 where
  pub peer_id : Option String
  pub account_id : Option String
  pub group_id : Option String
  pub message_type : Option MessageType

pub data QueuedLane : Type 0 where
  steer collect followup : QueuedLane

pub data Lane : Type 0 where
  queued : QueuedLane → Lane
  interrupt : Lane

abbrev pub lane_priority : QueuedLane → ℕ
lane_priority steer = 0
lane_priority collect = 1
lane_priority followup = 2

abbrev pub same_lane : QueuedLane → QueuedLane → Bool
same_lane steer steer = true
same_lane collect collect = true
same_lane followup followup = true
same_lane _ _ = false

pub record LaneMessage : Type 0 where
  pub id : String
  pub lane : Lane
  pub channel_id : String
  pub payload : String
  pub timestamp : ℕ
  pub routing_context : Option MessageRoutingContext
