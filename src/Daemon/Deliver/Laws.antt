-- ===== src/Daemon/Deliver/Laws.antt =====
-- src/daemon/submit.rs: what an attempt leaves in the queue.
use jmapsyncd.Base.{
  ℕ, zero, suc, ◌-◌, ltb, not, ◌||◌, ◌≡◌, ◌∙◌, arith, inl, inr, Bool, true, false, ◌&&◌, Option,
  none, some, Text, ◌==◌, text_eq, if◌then◌else◌, Bool-cases,
}
use jmapsyncd.Base.Dict
use jmapsyncd.Config.{SubmitConfig}
use jmapsyncd.Daemon.Deliver.{
  NetworkWait, online, unavailable, cancelled, delay_of, sleep_remaining,
  wait_for_connectivity_or_delay, Moment, Mailing, marked, settle, outcome, attempt,
  handle_submit_attempt,
}
use jmapsyncd.Daemon.RetrySchedule.Agrees.{Agrees, schedule-Agrees}
use jmapsyncd.Daemon.Sidecar.{Host, SidecarState, load, save, locate_and_read_outbox_message}
use jmapsyncd.Daemon.Submission.{SubmitOutcome, success, transient, permanent}
use jmapsyncd.Daemon.Submission.Context.{SubmitContext, Server}
use jmapsyncd.Base.{refl}

module _ (H : Host) (S : Server) (ctx : SubmitContext) (cfg : SubmitConfig)
    (dir outbox failed : Text) (m : Moment) where
  abbrev pub is_transient : SubmitOutcome → Bool
  is_transient success = false
  is_transient transient = true
  is_transient permanent = false

  -- The daemon is stopped during the wait that follows a failure: while nm-online runs, while the
  -- rest of the delay is slept, if any is left, or just after.
  abbrev pub stopped : ℕ → Bool
  stopped delay =
      elim m.network [ cancelled ↦ true | _ ↦ false ]
      || ((ltb m.waited delay && m.cancelled_asleep) || m.cancelled_after)

  sleep-stopped :
      (delay secs : ℕ)
      → secs ≡ delay - m.waited
      → sleep_remaining secs m
        ≡ not ((ltb m.waited delay && m.cancelled_asleep) || m.cancelled_after)
  unfolding sleep_remaining
  sleep-stopped delay zero e = ground (arith, e)
  sleep-stopped delay (suc secs) e = ground (arith, e)

  wait-stopped-as :
      (delay : ℕ) (n : NetworkWait)
      → m.network ≡ n
      → wait_for_connectivity_or_delay delay m ≡ not (stopped delay)
  unfolding wait_for_connectivity_or_delay
  wait-stopped-as delay cancelled e = rw (wait_for_connectivity_or_delay, e) refl
  wait-stopped-as delay online e =
      rw (wait_for_connectivity_or_delay, e) (sleep-stopped delay (delay - m.waited) refl)
  wait-stopped-as delay unavailable e =
      rw (wait_for_connectivity_or_delay, e) (sleep-stopped delay (delay - m.waited) refl)

  wait-stopped : (delay : ℕ) → wait_for_connectivity_or_delay delay m ≡ not (stopped delay)
  wait-stopped delay = wait-stopped-as delay m.network refl

  -- The message is tried again: it was found, the attempt failed in a way that passes, and the
  -- daemon was not stopped meanwhile.
  abbrev pub retries : Text → Mailing H → Option (Text × Text) → Bool
  retries basename w none = false
  retries basename w (some (path, bytes)) =
      is_transient (outcome H S ctx cfg dir outbox failed m bytes (load H dir basename w.disk))
      && not (stopped (delay_of H S ctx cfg dir outbox failed m (load H dir basename w.disk)))

  -- The queue after a step.
  abbrev Queued : Text → Bool → Mailing H → Mailing H → Type 0
  Queued basename again w new =
      Agrees new.retry_queue
      × ((n : Text)
          → Dict.get n new.retry_queue.index
            ≡ (if n == basename && again then some m.now else Dict.get n w.retry_queue.index))

  settle-Queued :
      (o : SubmitOutcome) (path basename : Text) (s : SidecarState) (w : Mailing H)
      → Agrees w.retry_queue
      → Queued basename
          (is_transient o && not (stopped (delay_of H S ctx cfg dir outbox failed m s)))
          w
          (settle H S ctx cfg dir outbox failed m o path basename s w)
  unfolding settle
  settle-Queued success path basename s w a = (a, λ n. ground arith)
  settle-Queued permanent path basename s w a = (a, λ n. ground arith)
  settle-Queued transient path basename s w a =
      elim (Bool-cases (stopped (delay_of H S ctx cfg dir outbox failed m s))) [
        | inr c ↦
            let (b, e) = schedule-Agrees w.retry_queue basename m.now a in
            rw (wait-stopped (delay_of H S ctx cfg dir outbox failed m s), c)
              (b, λ n. e n ∙ ground arith)
        | inl c ↦
            rw (wait-stopped (delay_of H S ctx cfg dir outbox failed m s), c) (a, λ n. ground arith)
      ]

  attempt-Queued :
      (basename : Text) (o : Option (Text × Text)) (w : Mailing H)
      → Agrees w.retry_queue
      → Queued basename
          (retries basename w o)
          w
          (attempt H S ctx cfg dir outbox failed m basename o w)
  unfolding attempt
  attempt-Queued basename none w a = (a, λ n. ground arith)
  attempt-Queued basename (some (path, bytes)) w a =
      let s = load H dir basename w.disk in
      settle-Queued (outcome H S ctx cfg dir outbox failed m bytes s) path basename
        (marked H S ctx cfg dir outbox failed m s)
        (record w {
          disk = (save H (marked H S ctx cfg dir outbox failed m s) dir basename w.disk).1;
        })
        a

  -- An attempt puts its message back into the queue, due at once, exactly when it was found, its
  -- attempt failed in a way that passes, and the daemon was not stopped during the wait, whether or
  -- not the network came back; the rest of the queue stays, and its two maps agree as before.
  pub handle_submit_attempt-queue :
      (basename : Text) (w : Mailing H)
      → Agrees w.retry_queue
      → let new = handle_submit_attempt H S ctx cfg dir outbox failed m basename w in
        let again = retries basename w (locate_and_read_outbox_message H w.disk outbox basename) in
        Agrees new.retry_queue
        × ((n : Text)
            → Dict.get n new.retry_queue.index
              ≡ (if n == basename && again then some m.now else Dict.get n w.retry_queue.index))
  unfolding handle_submit_attempt
  handle_submit_attempt-queue basename w a =
      attempt-Queued basename (locate_and_read_outbox_message H w.disk outbox basename) w a
