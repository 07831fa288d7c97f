-- ===== src/Rep/Publisher.antt =====
-- rep/publisher.go: the publisher of events. Its goroutine, the publishing and the subscribing
-- goroutines interleave, so a run is a sequence of steps.
pub mod Keys
pub mod Delivery
use mathlib.Core.List.{Perm}
use filclient.Base.{
  ℕ, ◌+◌, ◌%◌, ◌^◌, ◌<◌, ◌≡◌, Bool, true, false, List, [], ◌∷◌, ◌++◌, length, ◌==◌, u64,
  if◌then◌else◌,
}

-- A subscriber of the map `subscribers map[int]RetrievalSubscriber`, with its key.
abbrev pub Entry : Type 0 → Type 0
Entry Sub = ℕ × Sub

-- The capacity of the channel `events`.
abbrev pub events_capacity : ℕ
events_capacity = 16

module _ {Sub : Type 0} where
  -- `delete(m, key)`.
  unfoldable pub remove : ℕ → List (Entry Sub) → List (Entry Sub)
  remove key [] = []
  remove key ((k, s) ∷ rest) = if k == key then remove key rest else (k, s) ∷ remove key rest

pub record Publisher (Sub : Type 0) (Event : Type 0) : Type 0 where
  pub subscribers : List (Entry Sub)
  pub idx : ℕ
  pub events : List Event
  -- The context is done.
  pub is_done : Bool

module _ {Sub Event : Type 0} where
  unfoldable pub new_publisher : Publisher Sub Event
  new_publisher = record { subscribers = []; idx = 0; events = []; is_done = false }

  -- The key is what the returned function unsubscribes. `idx` wraps as a 64-bit `int` does.
  unfoldable pub subscribe : Publisher Sub Event → Sub → Publisher Sub Event × ℕ
  subscribe ep s = (
    record ep { subscribers = (ep.idx, s) ∷ remove ep.idx ep.subscribers; idx = u64 (ep.idx + 1) },
    ep.idx,
  )

  unfoldable pub unsubscribe : Publisher Sub Event → ℕ → Publisher Sub Event
  unsubscribe ep key = record ep { subscribers = remove key ep.subscribers }

  unfoldable pub subscriber_count : Publisher Sub Event → ℕ
  subscriber_count ep = length ep.subscribers

-- Where the goroutine `loop` stands.
pub data Loop (Sub : Type 0) (Event : Type 0) : Type 0 where
  waiting : Loop Sub Event
  delivering : Event → List (Entry Sub) → Loop Sub Event
  stopped : Loop Sub Event

-- The publisher with its goroutine, and what has happened so far: the events put on the channel,
-- the events taken off it with the subscribers listed for each, and the calls made.
pub record System (Sub : Type 0) (Event : Type 0) : Type 0 where
  pub ep : Publisher Sub Event
  pub loop : Loop Sub Event
  pub published : List Event
  pub rounds : List (Event × List (Entry Sub))
  pub delivered : List (Entry Sub × Event)

module _ {Sub Event : Type 0} where
  abbrev pub start : System Sub Event
  start = record { ep = new_publisher; loop = waiting; published = []; rounds = []; delivered = [] }

  pub data Step (s : System Sub Event) : System Sub Event → Type 0 where
    subscribes : (a : Sub) → Step s (record s { ep = (subscribe s.ep a).0 })
    unsubscribes : (key : ℕ) → Step s (record s { ep = unsubscribe s.ep key })
    -- `Publish`: the channel has room, or the context is done and the event is dropped.
    publishes :
        (e : Event)
        → length s.ep.events < events_capacity
        → Step s (record s {
          ep = record (s.ep) { events = s.ep.events ++ e ∷ [] };
          published = s.published ++ e ∷ [];
        })
    drops : (e : Event) → s.ep.is_done ≡ true → Step s s
    cancels : Step s (record s { ep = record (s.ep) { is_done = true } })
    -- `loop`: it takes an event and lists the subscribers, in the order of a map's iteration.
    takes :
        (e : Event) (rest : List Event) (order : List (Entry Sub))
        → s.loop ≡ waiting
        → s.ep.events ≡ e ∷ rest
        → Perm order s.ep.subscribers
        → Step s (record s {
          ep = record (s.ep) { events = rest };
          loop = delivering e order;
          rounds = s.rounds ++ (e, order) ∷ [];
        })
    calls :
        (e : Event) (entry : Entry Sub) (rest : List (Entry Sub))
        → s.loop ≡ delivering e (entry ∷ rest)
        → Step s (record s { loop = delivering e rest; delivered = s.delivered ++ (entry, e) ∷ [] })
    finishes : (e : Event) → s.loop ≡ delivering e [] → Step s (record s { loop = waiting })
    stops : s.loop ≡ waiting → s.ep.is_done ≡ true → Step s (record s { loop = stopped })

  pub data Reach (s : System Sub Event) : System Sub Event → Type 0 where
    here : Reach s s
    next : {t u : System Sub Event} → Reach s t → Step t u → Reach s u
