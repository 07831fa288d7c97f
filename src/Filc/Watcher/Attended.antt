-- ===== src/Filc/Watcher/Attended.antt =====
-- filc/cmds.go: no disconnection that `connWatcher` has noted is forgotten.
use filclient.Base.{
  ℕ, suc, ◌+◌, ◌<◌, String, str_eq, true, ◌≡◌, refl, arith, Bool-cases, inl, inr, if◌then◌else◌,
}
use filclient.Filc.Watcher.{
  ConnWatcher, new_conn_watcher, on_disconnected, on_wake, Reach, begin, disconnect, wake,
  reconnected,
}

-- Each element that was sent is in the channel, or one goroutine reconnects for it or has done so; while
-- one is in the channel, a goroutine sleeps that will take it.
abbrev pub Attended : ConnWatcher → ℕ → ℕ → Type 0
Attended c sent finished =
    (sent ≡ finished + c.reconnecting + (if c.disconnected then 1 else 0))
    × (c.disconnected ≡ true → 0 < c.sleeping)

disconnect-Attended :
    (remote_peer : String) (c : ConnWatcher) (sent finished : ℕ)
    → Attended c sent finished
    → Attended
        (on_disconnected remote_peer c).0
        (if (on_disconnected remote_peer c).1 then suc sent else sent)
        finished
unfolding on_disconnected
disconnect-Attended remote_peer c sent finished h = elim (Bool-cases (str_eq remote_peer c.pid)) [
  | inl e ↦ rw e (elim (Bool-cases c.disconnected) [
    | inl f ↦ rw f (rw f at h.0, λ q. h.1 f)
    | inr f ↦ rw f (omega (arith, rw f at h.0), λ q. omega arith)
  ])
  | inr e ↦ rw e h
]

wake-Attended :
    (others : ℕ) (c : ConnWatcher) (sent finished : ℕ)
    → Attended c sent finished
    → Attended (on_wake others c) sent finished
unfolding on_wake
wake-Attended others c sent finished h = elim (Bool-cases c.disconnected) [
  | inl f ↦ rw f (omega (arith, rw f at h.0), λ q. absurd (cc))
  | inr f ↦ rw f (rw f at h.0, λ q. absurd (cc))
]

-- However disconnections, wake-ups and reconnections interleave: the elements that `Disconnected` has
-- sent are as many as the reconnections that have ended, those that goroutines are at, and the element in
-- the channel, and while there is one, a goroutine sleeps that will find it.
pub Reach-Attended :
    (pid : String) (c : ConnWatcher) (sent finished : ℕ)
    → Reach pid c sent finished
    → Attended c sent finished
unfolding new_conn_watcher
Reach-Attended pid _ _ _ begin = (refl, λ q. absurd (cc))
Reach-Attended pid _ _ _ (disconnect remote_peer c sent finished r) =
    disconnect-Attended remote_peer c sent finished (Reach-Attended pid c sent finished r)
Reach-Attended pid _ _ _ (wake others c sent finished r e) =
    wake-Attended others c sent finished (Reach-Attended pid c sent finished r)
Reach-Attended pid _ _ _ (reconnected others c sent finished r e) =
    (omega (arith, (Reach-Attended pid c sent finished r).0), λ q. omega arith)
