-- ===== src/EventPublisher.antt =====
-- src/events/static_event_publisher.c: a fixed array of subscribers, called one after the other.
-- A callback is a function of its context, the event and the state `W` of everything that callbacks
-- change; it does not change the publisher. A result `none` is a read outside the array.
pub mod Deliver
mod Tests
use c_embedded_utils.Common.{
  ℕ, zero, suc, ◌+◌, Option, some, List, ◌==◌, if◌then◌else◌, load, ◌>>=◌,
}
use c_embedded_utils.ErrorCode.{ErrorCode, err_none, err_invalid_arg}

abbrev pub Callback : Type 0 → Type 0 → Type 0 → Type 0
Callback C E W = C → E → W → W

pub record EventPublisherEntry (C E W : Type 0) : Type 0 where
  pub context : C
  pub callback : Callback C E W

pub record EventPublisherConfig (C E W : Type 0) : Type 0 where
  pub subscribers : List (EventPublisherEntry C E W)
  pub subscriber_count : ℕ

pub record EventPublisher (C E W : Type 0) : Type 0 where
  pub config : EventPublisherConfig C E W

module _ {C E W : Type 0} where
  -- The loop of the function only asserts that no callback is NULL.
  unfoldable pub validate_config : EventPublisherConfig C E W → ErrorCode
  validate_config c = if c.subscriber_count == 0 then err_invalid_arg else err_none

  unfoldable pub init :
      EventPublisher C E W → EventPublisherConfig C E W → ErrorCode × EventPublisher C E W
  unfolding validate_config
  init publisher c = elim (validate_config c) [
    | err_none ↦ (err_none, record { config = c })
    | code ↦ (code, publisher)
  ]

  unfoldable pub deinit : EventPublisher C E W → EventPublisher C E W
  deinit publisher = record { config = record publisher.config { subscriber_count = 0 } }

  -- The loop at `idx`, with `rounds` left.
  unfoldable pub notify_loop : EventPublisher C E W → E → ℕ → ℕ → W → Option W
  notify_loop publisher event_data zero idx world = some world
  notify_loop publisher event_data (suc rounds) idx world = do
    entry ← load publisher.config.subscribers idx
    let called = entry.callback entry.context event_data world
    notify_loop publisher event_data rounds (idx + 1) called

  unfoldable pub notify_subscribers : EventPublisher C E W → E → W → Option W
  unfolding notify_loop
  notify_subscribers publisher event_data world =
      notify_loop publisher event_data publisher.config.subscriber_count 0 world
