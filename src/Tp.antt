-- ===== src/Tp.antt =====
-- include/tp/tp_types.h: what the segmenter, the reassembler and the manager share. The `timestamp`
-- and the `retransmit_count` of a segment are never read and left out; times are in milliseconds.
pub mod Segmenter
pub mod Reassembler
pub mod Manager
pub mod InOrder
pub mod Limits
pub mod Wire
mod Tests
use opensomeip.Base.{ℕ, ◌+◌, ◌≤◌, ◌<◌, Bool, List}

pub data TpResult : Type 0 where
  success message_too_large segmentation_failed reassembly_timeout invalid_segment sequence_error :
      TpResult
  network_error resource_exhausted timeout : TpResult

pub data TpMessageType : Type 0 where
  first_segment consecutive_segment last_segment single_message : TpMessageType

pub record TpConfig : Type 0 where
  pub max_segment_size : ℕ
  pub max_message_size : ℕ
  pub max_retries : ℕ
  pub retry_timeout : ℕ
  pub reassembly_timeout : ℕ
  pub max_concurrent_transfers : ℕ
  pub enable_acknowledgments : Bool

pub record TpSegmentHeader : Type 0 where
  pub message_length : ℕ
  pub segment_offset : ℕ
  pub segment_length : ℕ
  pub sequence_number : ℕ
  pub message_type : TpMessageType

pub record TpSegment : Type 0 where
  pub header : TpSegmentHeader
  pub payload : List ℕ
