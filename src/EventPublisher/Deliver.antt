-- ===== src/EventPublisher/Deliver.antt =====
-- What a notification is meant to do: to call each subscriber once, in the order of the array.
use c_embedded_utils.Common.{
  ℕ, zero, suc, ◌+◌, ◌≤◌, ◌≡◌, ◌≢◌, refl, Option, some, List, [], ◌∷◌, arith, length, get_elem?,
  get_elem?-lt, take, drop, ◌>>=◌, ◌⊎◌, inl, inr,
}
use native.Mathlib.Decide.{ℕ_discrete}
use c_embedded_utils.ErrorCode.{err_none, err_invalid_arg}
use c_embedded_utils.EventPublisher.{
  EventPublisherEntry, EventPublisherConfig, EventPublisher, validate_config, init, deinit,
  notify_loop, notify_subscribers,
}

module _ {C E W : Type 0} where
  -- The event to each of these, the first one first.
  unfoldable pub deliver : List (EventPublisherEntry C E W) → E → W → W
  deliver [] event_data world = world
  deliver (entry ∷ entries) event_data world =
      deliver entries event_data (entry.callback entry.context event_data world)

  -- Several events, each to all of these before the next.
  unfoldable pub deliver_all : List (EventPublisherEntry C E W) → List E → W → W
  unfolding deliver
  deliver_all entries [] world = world
  deliver_all entries (event_data ∷ events) world =
      deliver_all entries events (deliver entries event_data world)

  -- Several notifications in sequence.
  unfoldable pub notify_all : EventPublisher C E W → List E → W → Option W
  notify_all publisher [] world = some world
  notify_all publisher (event_data ∷ events) world = do
    world' ← notify_subscribers publisher event_data world
    notify_all publisher events world'

  drop_at :
      (xs : List (EventPublisherEntry C E W)) (i : ℕ) (x : EventPublisherEntry C E W)
      → get_elem? xs i ≡ some x
      → drop i xs ≡ x ∷ drop (suc i) xs
  drop_at [] i x e = cc
  drop_at (y ∷ xs) zero x e = ground arith
  drop_at (y ∷ xs) (suc i) x e = drop_at xs i x e

  notify_loop_lem :
      (p : EventPublisher C E W) (event_data : E) (rounds idx : ℕ) (world : W)
      → idx + rounds ≤ length p.config.subscribers
      → notify_loop p event_data rounds idx world
        ≡ some (deliver (take rounds (drop idx p.config.subscribers)) event_data world)
  unfolding notify_loop deliver
  notify_loop_lem p event_data zero idx world h = refl
  notify_loop_lem p event_data (suc rounds) idx world h =
      let (entry, found) = get_elem?-lt p.config.subscribers idx (omega arith) in
      let here = drop_at p.config.subscribers idx entry found in
      let next : idx + 1 ≡ suc idx = omega arith in
      let rest =
        notify_loop_lem p event_data rounds (suc idx)
          (entry.callback entry.context event_data world) (omega arith) in
      rw (found, here, next) rest

  -- A publisher whose array holds the subscribers that it counts gives each of several events to each
  -- of them once, the first subscriber first, and each event before the next; no call faults.
  pub notify_all_lem :
      (p : EventPublisher C E W)
      → p.config.subscriber_count ≤ length p.config.subscribers
      → (events : List E) (world : W)
      → notify_all p events world
        ≡ some (deliver_all (take p.config.subscriber_count p.config.subscribers) events world)
  unfolding notify_all deliver_all notify_subscribers
  notify_all_lem p h [] world = refl
  notify_all_lem p h (event_data ∷ events) world =
      let once = notify_loop_lem p event_data p.config.subscriber_count 0 world (omega arith) in
      rw once (
        notify_all_lem p h events
          (deliver (take p.config.subscriber_count p.config.subscribers) event_data world))

  -- After `static_event_publisher_deinit` a notification calls nobody.
  pub publisher_deinit_lem :
      (p : EventPublisher C E W) (event_data : E) (world : W)
      → notify_subscribers (deinit p) event_data world ≡ some world
  unfolding notify_subscribers notify_loop deinit
  publisher_deinit_lem p event_data world = refl

  -- `static_event_publisher_init` refuses a configuration without subscribers, and then keeps the
  -- publisher; it takes over any other.
  pub publisher_init_lem :
      (p : EventPublisher C E W) (c : EventPublisherConfig C E W)
      → (c.subscriber_count ≡ 0) × (init p c ≡ (err_invalid_arg, p))
        ⊎ (c.subscriber_count ≢ 0) × (init p c ≡ (err_none, record { config = c }))
  unfolding init validate_config
  publisher_init_lem p c = elim (ℕ_discrete c.subscriber_count 0) [
    | yes e ↦ inl (e, ground arith)
    | no e ↦ inr (e, ground arith)
  ]
