-- ===== src/Events/Stream.antt =====
-- src/event_stream.hpp and src/event_stream.cpp. The `uv_async_t` is two flags: `referenced`, set by
-- `uv_ref` and reset by `uv_unref`, keeps the event loop alive; `due` says that `uv_async_send` was
-- called and the callback has not run since.
use node_gemfire.Base.{Bool, true, false, List, [], ◌∷◌, ◌++◌}

pub record EventStream (A : Type 0) : Type 0 where
  pub event_vector : List A
  pub referenced : Bool
  pub due : Bool

module _ {A : Type 0} where
  -- The constructor ends with `uv_unref`.
  unfoldable pub new_stream : EventStream A
  new_stream = record { event_vector = []; referenced = false; due = false }

  -- The part of `add` under the mutex.
  unfoldable pub push_event : A → EventStream A → EventStream A
  push_event e s = record s { event_vector = s.event_vector ++ e ∷ []; referenced = true }

  -- `uv_async_send(&async)`
  unfoldable pub send : EventStream A → EventStream A
  send s = record s { due = true }

  unfoldable pub add : A → EventStream A → EventStream A
  unfolding push_event send
  add e s = send (push_event e s)

  -- The copying loop of `nextEvents`.
  unfoldable pub copy_events : List A → List A → List A
  copy_events copied [] = copied
  copy_events copied (e ∷ es) = copy_events (copied ++ e ∷ []) es

  unfoldable pub next_events : EventStream A → List A × EventStream A
  unfolding copy_events
  next_events s =
      (copy_events [] s.event_vector, record s { event_vector = []; referenced = false })
