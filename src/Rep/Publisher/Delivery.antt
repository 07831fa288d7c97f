-- ===== src/Rep/Publisher/Delivery.antt =====
-- Who is called with what, in which order.
use filclient.Base.{
  ◌≤◌, ◌≡◌, refl, sym, ap, subst, ◌∙◌, List, [], ◌∷◌, ◌++◌, map, length, length-append, append-nil,
  append_assoc, arith,
}
use mathlib.Core.List.{map-append}
use filclient.Rep.Publisher.{
  Entry, new_publisher, subscribe, unsubscribe, Loop, waiting, delivering, stopped, System, start,
  Step, subscribes, unsubscribes, publishes, drops, cancels, takes, calls, finishes, stops, Reach,
  here, next, events_capacity,
}

module _ {Sub Event : Type 0} where
  -- The calls that one round makes.
  abbrev pub calls_with : Event → List (Entry Sub) → List (Entry Sub × Event)
  calls_with e [] = []
  calls_with e (entry ∷ rest) = (entry, e) ∷ calls_with e rest

  abbrev pub all_calls : List (Event × List (Entry Sub)) → List (Entry Sub × Event)
  all_calls [] = []
  all_calls ((e, order) ∷ rounds) = calls_with e order ++ all_calls rounds

  -- The calls that the goroutine still has to make.
  abbrev pub pending : Loop Sub Event → List (Entry Sub × Event)
  pending waiting = []
  pending (delivering e order) = calls_with e order
  pending stopped = []

  -- The channel is a queue of at most 16 events, and each event that was taken off it is handed,
  -- once, to every subscriber listed for it, before the next event is.
  pub record IsOrdered (s : System Sub Event) : Type 0 where
    pub bounded : length s.ep.events ≤ events_capacity
    pub queued : map (λ r. r.0) s.rounds ++ s.ep.events ≡ s.published
    pub handed : s.delivered ++ pending s.loop ≡ all_calls s.rounds

  all_calls-append :
      (rounds : List (Event × List (Entry Sub))) (e : Event) (order : List (Entry Sub))
      → all_calls (rounds ++ (e, order) ∷ []) ≡ all_calls rounds ++ calls_with e order
  all_calls-append [] e order = append-nil (calls_with e order)
  all_calls-append ((e', order') ∷ rounds) e order =
      rw (all_calls-append rounds e order) (sym (append_assoc (calls_with e' order') _ _))

  idle_handed :
      {s : System Sub Event} → IsOrdered s → s.loop ≡ waiting → s.delivered ≡ all_calls s.rounds
  idle_handed {s} v p =
      sym (append-nil s.delivered)
      ∙ subst (λ l. s.delivered ++ pending l ≡ all_calls s.rounds) p v.handed

  takes_queued :
      (s : System Sub Event) (e : Event) (rest : List Event) (order : List (Entry Sub))
      → IsOrdered s
      → s.ep.events ≡ e ∷ rest
      → map (λ r. r.0) (s.rounds ++ (e, order) ∷ []) ++ rest ≡ s.published
  takes_queued s e rest order v q =
      rw (map-append (λ r. r.0) s.rounds ((e, order) ∷ []), append_assoc)
        (subst (λ es. map (λ r. r.0) s.rounds ++ es ≡ s.published) q v.queued)

  Step-IsOrdered : {s t : System Sub Event} → Step s t → IsOrdered s → IsOrdered t
  unfolding subscribe unsubscribe
  Step-IsOrdered (subscribes a) v = record {
    bounded = v.bounded;
    queued = v.queued;
    handed = v.handed;
  }
  Step-IsOrdered (unsubscribes key) v = record {
    bounded = v.bounded;
    queued = v.queued;
    handed = v.handed;
  }
  Step-IsOrdered {s} (publishes e h) v = record {
    bounded = omega (arith, length-append s.ep.events (e ∷ []));
    queued = sym (append_assoc _ s.ep.events _) ∙ ap (λ es. es ++ e ∷ []) v.queued;
    handed = v.handed;
  }
  Step-IsOrdered (drops e h) v = v
  Step-IsOrdered cancels v = record { bounded = v.bounded; queued = v.queued; handed = v.handed }
  Step-IsOrdered {s} (takes e rest order p q perm) v = record {
    bounded = omega (arith, ap length q, v.bounded);
    queued = takes_queued s e rest order v q;
    handed =
        rw (all_calls-append s.rounds e order)
          (ap (λ ds. ds ++ calls_with e order) (idle_handed v p));
  }
  Step-IsOrdered {s} (calls e entry rest p) v = record {
    bounded = v.bounded;
    queued = v.queued;
    handed =
        append_assoc s.delivered _ _
        ∙ subst (λ l. s.delivered ++ pending l ≡ all_calls s.rounds) p v.handed;
  }
  Step-IsOrdered {s} (finishes e p) v = record {
    bounded = v.bounded;
    queued = v.queued;
    handed = subst (λ l. s.delivered ++ pending l ≡ all_calls s.rounds) p v.handed;
  }
  Step-IsOrdered {s} (stops p h) v = record {
    bounded = v.bounded;
    queued = v.queued;
    handed = subst (λ l. s.delivered ++ pending l ≡ all_calls s.rounds) p v.handed;
  }

  -- In every run of the publisher: the channel holds at most 16 events; what was taken off it and
  -- what waits in it are the published events in order; and each event taken is handed, once, to
  -- every subscriber listed for it, before the next event is.
  pub Reach-IsOrdered : {s : System Sub Event} → Reach start s → IsOrdered s
  unfolding new_publisher
  Reach-IsOrdered here = record { bounded = omega arith; queued = refl; handed = refl }
  Reach-IsOrdered (next r st) = Step-IsOrdered st (Reach-IsOrdered r)
