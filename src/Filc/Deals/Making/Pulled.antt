-- ===== src/Filc/Deals/Making/Pulled.antt =====
-- filc/cmds.go: the wait of `makev120Deal` for its transfer, over the events of the libp2p server.
use filclient.Base.{
  ℕ, String, Bool, true, false, ◌≡◌, ◌≢◌, refl, ◌∙◌, Option, none, some, List, [], ◌∷◌, ◌++◌, map,
  ◌==◌, if◌then◌else◌,
}
use filclient.Errors.{Result, ok}
use filclient.Strconv.{Parsed, value, syntax_error, range_error, parse_uint}
use filclient.Transfer.{
  TransferStatus, started, ongoing, completed, failed, unknown_status, TransferState, Outside,
  to_dt_state, DtStatus,
}
use filclient.Transfer.Manager.{Notice, on_server_event}
use filclient.Transfer.Manager.Told.{notices_of, on_server_event-notices_of}
use filclient.Filc.Deals.{log_status}
use filclient.Filc.Deals.Making.{Ended, pulled, on_pull, PullEvent, notified, await_pull}

-- An event of the server, as it calls the manager: the text of the deal's id, and the transfer.
abbrev pub ServerEvent : Type 0
ServerEvent = String × TransferState

-- The event says that the transfer of the deal is completed.
abbrev pub is_completion : ℕ → Parsed → TransferStatus → Bool
is_completion dbid (value n) completed = dbid == n
is_completion dbid _ _ = false

module _ {W : Type 0} (out : Outside W) where
  -- What the manager tells the listener of the events, one after the other.
  abbrev pub told_of : List ServerEvent → W → List Notice
  told_of [] w = []
  told_of ((id, st) ∷ evs) w =
      let (notices, w') = on_server_event out true id st w in notices ++ told_of evs w'

  -- How the wait goes on from what the listener has sent.
  abbrev continued : ℕ → List PullEvent → Option (Result (Unit {0})) × DtStatus → Ended
  continued dbid rest sent = elim sent.0 [
    | some res ↦ some res
    | none ↦ await_pull dbid sent.1 rest
  ]

  await_pull-continued :
      (dbid : ℕ) (last : DtStatus) (notice : Notice) (rest : List PullEvent)
      → await_pull dbid last (notified notice ∷ rest)
        ≡ continued dbid rest (on_pull dbid last notice)
  unfolding await_pull
  await_pull-continued dbid last notice rest = refl

  own_or_other :
      (own : Bool) (dbid : ℕ) (rest : List PullEvent) (last : DtStatus)
      (sent : Option (Result (Unit {0})) × DtStatus) (e x : Ended)
      → continued dbid rest sent ≡ x
      → await_pull dbid last rest ≡ e
      → continued dbid rest (if own then sent else (none, last)) ≡ (if own then x else e)
  own_or_other true dbid rest last sent e x h q = h
  own_or_other false dbid rest last sent e x h q = q

  own_or_none :
      (own : Bool) (dbid : ℕ) (rest : List PullEvent) (last now : DtStatus) (e : Ended)
      → ((s : DtStatus) → await_pull dbid s rest ≡ e)
      → continued dbid rest (if own then (none, now) else (none, last)) ≡ e
  own_or_none true dbid rest last now e h = h now
  own_or_none false dbid rest last now e h = h last

  -- A notice of a transfer that has not failed.
  await_pull-notified :
      (dbid n : ℕ) (last : DtStatus) (st : TransferState) (s : TransferStatus)
      (rest : List PullEvent) (e : Ended)
      → st.status ≡ s
      → s ≢ failed
      → ((now : DtStatus) → await_pull dbid now rest ≡ e)
      → await_pull dbid last (notified (n, to_dt_state out st) ∷ rest)
        ≡ (if is_completion dbid (value n) s then some (ok tt) else e)
  unfolding on_pull pulled to_dt_state log_status
  await_pull-notified dbid n last st completed rest e q live h =
      await_pull-continued dbid last (n, to_dt_state out st) rest
      ∙ rw q
          (own_or_other (dbid == n) dbid rest last (some (ok tt), _) e (some (ok tt)) refl (h last))
  await_pull-notified dbid n last st started rest e q live h =
      await_pull-continued dbid last (n, to_dt_state out st) rest
      ∙ rw q (own_or_none (dbid == n) dbid rest last _ e h)
  await_pull-notified dbid n last st ongoing rest e q live h =
      await_pull-continued dbid last (n, to_dt_state out st) rest
      ∙ rw q (own_or_none (dbid == n) dbid rest last _ e h)
  await_pull-notified dbid n last st unknown_status rest e q live h =
      await_pull-continued dbid last (n, to_dt_state out st) rest
      ∙ rw q (own_or_none (dbid == n) dbid rest last _ e h)
  await_pull-notified dbid n last st failed rest e q live h = absurd (live refl)

  await_pull-notices_of :
      (dbid : ℕ) (p : Parsed) (last : DtStatus) (st : TransferState) (s : TransferStatus)
      (rest : List Notice) (e : Ended)
      → st.status ≡ s
      → ((now : DtStatus) → await_pull dbid now (map notified rest) ≡ e)
      → await_pull dbid last (map notified (notices_of out p s st ++ rest))
        ≡ (if is_completion dbid p s then some (ok tt) else e)
  await_pull-notices_of dbid (value n) last st failed rest e q h = h last
  await_pull-notices_of dbid (value n) last st completed rest e q h =
      await_pull-notified dbid n last st completed (map notified rest) e q (λ x. cc) h
  await_pull-notices_of dbid (value n) last st started rest e q h =
      await_pull-notified dbid n last st started (map notified rest) e q (λ x. cc) h
  await_pull-notices_of dbid (value n) last st ongoing rest e q h =
      await_pull-notified dbid n last st ongoing (map notified rest) e q (λ x. cc) h
  await_pull-notices_of dbid (value n) last st unknown_status rest e q h =
      await_pull-notified dbid n last st unknown_status (map notified rest) e q (λ x. cc) h
  await_pull-notices_of dbid syntax_error last st s rest e q h = h last
  await_pull-notices_of dbid range_error last st s rest e q h = h last

  -- The end of the wait, by the events alone.
  abbrev pub completed_in : ℕ → List ServerEvent → Ended
  completed_in dbid [] = none
  completed_in dbid ((id, st) ∷ evs) =
      if is_completion dbid (parse_uint id) st.status then some (ok tt) else completed_in dbid evs

  -- The wait of a v1.2.0 deal, for whatever events the libp2p server passes to the manager that has the
  -- deal's listener: it ends, without an error, at the first event that says that the transfer of this
  -- deal is completed, and goes on over all others, those of other deals, of transfers that have failed
  -- and of ids that are no numbers among them, whatever the manager's store does.
  pub await_pull-told_of :
      (dbid : ℕ) (last : DtStatus) (evs : List ServerEvent) (w : W)
      → await_pull dbid last (map notified (told_of evs w)) ≡ completed_in dbid evs
  unfolding await_pull
  await_pull-told_of dbid last [] w = refl
  await_pull-told_of dbid last ((id, st) ∷ evs) w =
      let w' = (on_server_event out true id st w).1 in
      rw (on_server_event-notices_of out id st w) (
        await_pull-notices_of dbid (parse_uint id) last st st.status (told_of evs w')
          (completed_in dbid evs) refl (λ now. await_pull-told_of dbid now evs w'))
