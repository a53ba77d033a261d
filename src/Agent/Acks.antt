-- ===== src/Agent/Acks.antt =====
-- cmd/mantler/helpers.go: how the results of commands are acknowledged to the server, and the file of the
-- acks that could not be delivered. The type of acks is a parameter, since this code only hands them on; so
-- are the server's reply to the call with a number, none for a success, and whether the file can be written.
pub mod Delivered
use mantlerd.Base.{
  ℕ, zero, suc, ◌+◌, ◌-◌, ◌*◌, Bool, true, false, ◌&&◌, not, List, [], ◌∷◌, ◌++◌, Option, none,
  some, length, drop, ltb, leb, ◌==◌, if◌then◌else◌,
}
use mantlerd.Client.RetryAfter.{HttpError, second, is_positive}
use mantlerd.Client.Retry.{Failure, http, other, cancelled}

pub data QueueFile (P : Type 0) : Type 0 where
  absent unreadable : QueueFile P
  holds : List P → QueueFile P

pub record Acks (P : Type 0) : Type 0 where
  -- the calls of Ack so far
  pub calls : ℕ
  pub file : QueueFile P
  -- the acks that the server accepted and those that it refused for good, the latest first
  pub accepted : List P
  pub refused : List P
  pub slept : List ℕ

-- What time.Sleep is called with before the next attempt; none if there is none.
unfoldable pub wait_before_retry : Failure → Option ℕ
wait_before_retry (http e) =
    if e.status_code == 429
    then some (
        if not (is_positive e.retry_after)
        then second
        else if ltb (60 * second) e.retry_after
        then 60 * second
        else e.retry_after)
    else if leb 400 e.status_code && ltb e.status_code 500
    then none
    else some 300000000
wait_before_retry other = some 300000000
wait_before_retry cancelled = some 300000000

abbrev pub is_rate_limit : Failure → Bool
is_rate_limit (http e) = e.status_code == 429
is_rate_limit other = false
is_rate_limit cancelled = false

module _ {P : Type 0} where
  abbrev pub load_failed_acks : QueueFile P → Option (List P)
  load_failed_acks absent = some []
  load_failed_acks unreadable = none
  load_failed_acks (holds queued) = some queued

  abbrev pub newest_acks : List P → List P
  newest_acks queued =
      if ltb 2000 (length queued) then drop (length queued - 2000) queued else queued

  abbrev pub called : Acks P → Acks P
  called s = record s { calls = suc s.calls }

  abbrev pub accept : P → Acks P → Acks P
  accept p s = record (called s) { accepted = p ∷ s.accepted }

  abbrev pub refuse : P → Acks P → Acks P
  refuse p s = record (called s) { refused = p ∷ s.refused }

  abbrev pub sleep : ℕ → Acks P → Acks P
  sleep wait s = record s { slept = wait ∷ s.slept }

module _ {P : Type 0} (reply : ℕ → P → Option Failure) (writable : Bool) where
  unfoldable pub save_failed_acks : List P → Acks P → Acks P
  save_failed_acks payloads s = if writable then record s { file = holds payloads } else s

  unfoldable pub enqueue_failed_ack : P → Acks P → Acks P
  enqueue_failed_ack p s = elim (load_failed_acks s.file) [
    | none ↦ s
    | some queued ↦ save_failed_acks (newest_acks (queued ++ p ∷ [])) s
  ]

  -- The loop of ackCommandWithRetry, with the attempts that are left and the last error.
  unfoldable pub ack_attempts : ℕ → P → Option Failure → Acks P → Option Failure × Acks P
  ack_attempts zero p last s = (last, enqueue_failed_ack p s)
  ack_attempts (suc left) p last s = elim (reply s.calls p) [
    | none ↦ (none, accept p s)
    | some e ↦ elim (wait_before_retry e) [
      | none ↦ (some e, refuse p s)
      | some wait ↦ ack_attempts left p (some e) (sleep wait (called s))
    ]
  ]

  unfoldable pub ack_command_with_retry : P → Acks P → Option Failure × Acks P
  ack_command_with_retry p s = ack_attempts 3 p none s

  -- The loop of flushFailedAcks, with the acks that remain.
  unfoldable pub flush_each : List P → Acks P → List P × Acks P
  flush_each [] s = ([], s)
  flush_each (p ∷ ps) s = elim (reply s.calls p) [
    | none ↦ flush_each ps (accept p s)
    | some e ↦
        let (remaining, s') = flush_each ps (called s) in
        if is_rate_limit e then (p ∷ ps, called s) else (p ∷ remaining, s')
  ]

  unfoldable pub flush_queued : List P → Acks P → Acks P
  flush_queued [] s = s
  flush_queued (p ∷ ps) s =
      let (remaining, s') = flush_each (p ∷ ps) s in save_failed_acks remaining s'

  unfoldable pub flush_failed_acks : Acks P → Acks P
  flush_failed_acks s = elim (load_failed_acks s.file) [
    | none ↦ s
    | some queued ↦ flush_queued queued s
  ]
