-- ===== src/Common/EventQueue.antt =====
-- common/src/Event/EventQueue.cpp. A call holds `queueMutex_` throughout, so a call is one step.
pub mod Fifo
use raspberrypiservice.Prelude.{
  ℕ, Bool, true, false, not, List, [], ◌∷◌, ◌++◌, Option, none, some, length,
}

pub record EventQueue (A : Type 0) : Type 0 where
  pub event_list : List A

module _ {A : Type 0} where
  -- A null event is refused.
  unfoldable pub push_event : Option A → EventQueue A → EventQueue A × Bool
  push_event none q = (q, false)
  push_event (some e) q = (record q { event_list = q.event_list ++ e ∷ [] }, true)

  take_front : List A → Option A × EventQueue A
  take_front [] = (none, record { event_list = [] })
  take_front (e ∷ es) = (some e, record { event_list = es })

  unfoldable pub pop_event : EventQueue A → Option A × EventQueue A
  unfolding take_front
  pop_event q = take_front q.event_list

  abbrev is_empty : List A → Bool
  is_empty [] = true
  is_empty (e ∷ es) = false

  unfoldable pub has_event : EventQueue A → Bool
  has_event q = not (is_empty q.event_list)

  unfoldable pub size : EventQueue A → ℕ
  size q = length q.event_list
