-- ===== src/Conversion/Messaging/Connection/Consumers.antt =====
-- The registered consumers of `RabbitMqConnection` in
-- conversion/infrastructure/messaging/rabbitmq.connection.ts, as lists of their queues.
use mathlib.Core.Path.{subst}
use wallet_conversion_engine.Prelude.{
  ◌≡◌, refl, Bool, true, false, ◌||◌, List, [], ◌∷◌, String, str_eq, eq_iff, if◌then◌else◌,
  Bool-cases, inl, inr, All,
}
use wallet_conversion_engine.Conversion.Messaging.Connection.{has_queue, without, add_queue}

abbrev pub IsRegistered : List String → String → Type 0
IsRegistered consumers queue = has_queue queue consumers ≡ true

-- The active consumers, and those that are being started, are registered.
pub record AreRegistered (consumers active starts awaited : List String) : Type 0 where
  pub active_known : All (IsRegistered consumers) active
  pub starts_known : All (IsRegistered consumers) starts
  pub awaited_known : All (IsRegistered consumers) awaited

pub no_active :
    {consumers active starts awaited : List String}
    → AreRegistered consumers active starts awaited
    → AreRegistered consumers [] starts awaited
no_active h = record {
  active_known = tt;
  starts_known = h.starts_known;
  awaited_known = h.awaited_known;
}

or-true : (a b : Bool) → b ≡ true → (a || b) ≡ true
or-true false b h = h
or-true true b h = refl

pub All-register :
    (queue : String) (consumers active : List String)
    → All (IsRegistered consumers) active
    → All (IsRegistered (queue ∷ consumers)) active
All-register queue consumers [] h = tt
All-register queue consumers (q ∷ active) h =
    (or-true (str_eq queue q) (has_queue q consumers) h.0, All-register queue consumers active h.1)

pub All-without :
    (P : String → Type 0) (queue : String) (queues : List String)
    → All P queues
    → All P (without queue queues)
All-without P queue [] h = tt
All-without P queue (other ∷ queues) h = elim (Bool-cases (str_eq other queue)) [
  | inl same ↦ rw (same, if◌then◌else◌) h.1
  | inr different ↦ rw (different, if◌then◌else◌) (h.0, All-without P queue queues h.1)
]

pub All-add_queue :
    (P : String → Type 0) (queue : String) (queues : List String)
    → P queue
    → All P queues
    → All P (add_queue queue queues)
All-add_queue P queue queues p h = elim (Bool-cases (has_queue queue queues)) [
  | inl there ↦ rw (there, if◌then◌else◌) h
  | inr new ↦ rw (new, if◌then◌else◌) (p, h)
]

-- A queue of a list of registered ones is registered.
pub known_of :
    (consumers : List String) (queue : String) (queues : List String)
    → All (IsRegistered consumers) queues
    → has_queue queue queues ≡ true
    → IsRegistered consumers queue
known_of consumers queue [] h there = cc
known_of consumers queue (other ∷ queues) h there = elim (Bool-cases (str_eq other queue)) [
  | inl same ↦ subst (IsRegistered consumers) ((eq_iff other queue).0 same) h.0
  | inr different ↦ known_of consumers queue queues h.1 (cc (there, different))
]
