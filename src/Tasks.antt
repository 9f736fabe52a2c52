-- ===== src/Tasks.antt =====
-- eventhandling/Trigger.h, Event.h, EventTask.h, TimerEvent.h: the data of the event system.
-- Objects are reached by pointers, which are numbers with 0 for nullptr.
use cy_ph_os.Base.{ℕ, Bool, List, ◌∷◌}
use cy_ph_os.Queue.{Ptr}

-- `Trigger`: the component it belongs to, the components it depends on (a nullptr-terminated array),
-- its priority and its processor affinity.
pub record Trigger : Type 0 where
  pub osc : Ptr
  pub deps : List Ptr
  pub priority : ℕ
  pub affinity : ℕ

-- `Event::event_type_t`, with the `TimerEventType` of a timer event.
pub data EventType : Type 0 where
  software_event interrupt_event timer_oneshot timer_periodic dummy_call_event : EventType

-- `EventTask`
pub record Task : Type 0 where
  pub event : Ptr
  pub trigger : Ptr
  pub timestamp : ℕ
  pub enqueued : Bool
  pub arg : ℕ
  pub stack : Ptr

-- What the event system reads of its environment and never writes: triggers and the types of events.
pub record Env : Type 0 where
  pub trigger : Ptr → Trigger
  pub kind : Ptr → EventType

abbrev pub Tasks : Type 0
Tasks = Ptr → Task

-- `task->trigger`, read through the pointer
abbrev pub trigger_of : Env → Tasks → Ptr → Trigger
trigger_of env tasks t = env.trigger (tasks t).trigger

abbrev pub kind_of : Env → Tasks → Ptr → EventType
kind_of env tasks t = env.kind (tasks t).event

-- All components that a trigger needs.
abbrev pub resources : Trigger → List Ptr
resources t = t.osc ∷ t.deps
