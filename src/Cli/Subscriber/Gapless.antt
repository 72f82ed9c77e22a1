-- ===== src/Cli/Subscriber/Gapless.antt =====
-- What `pmd subscribe` (crates/pmd/src/main.rs) prints of the changes that the daemon sends.
use mathlib.Core.List.{append_assoc, append-nil}
use pmd.Prelude.{
  ℕ, suc, ◌≡◌, refl, ◌∙◌, sym, ap, ap₂, true, false, Option, none, some, List, [], ◌∷◌, ◌++◌, arith,
  length, length-append, take, get_elem?, ltb, if◌then◌else◌, Bool-cases, inl, inr, ltb→lt, map,
}
use pmd.Platform.{Platform}
use pmd.Membership.{MembershipChange}
use pmd.Protocol.{ControlRequest}
use pmd.Daemon.{DaemonState}
use pmd.Daemon.Control.Socket.{LineCodec, Received, sending, handle_control_client}
use pmd.Daemon.Control.Socket.Channel.{
  Channel, event_capacity, receive_all, concat, kept_up, less_one, and_one,
}
use pmd.Cli.Subscriber.{run_subscribe}
use pmd.Cli.Subscriber.Delivery.{delivered, change_line, run_subscribe-delivered}

get_elem?-append :
    (seen : List MembershipChange) (c : MembershipChange) (rest : List MembershipChange)
    → get_elem? (seen ++ c ∷ rest) (length seen) ≡ some c
get_elem?-append [] c rest = refl
get_elem?-append (x ∷ seen) c rest = get_elem?-append seen c rest

module _ (channel : Channel) where
  -- What is delivered behind the answer of one `recv`.
  abbrev behind :
      List MembershipChange
      → ℕ
      → List (List MembershipChange)
      → Option Received
      → List MembershipChange
  behind sent taken rest none = delivered (receive_all channel sent taken rest)
  behind sent taken rest (some r) =
      delivered ((r, true) ∷ receive_all channel sent (suc taken) rest)

  receive_all-cons :
      (sent : List MembershipChange) (taken : ℕ) (batch : List MembershipChange)
      (rest : List (List MembershipChange))
      → delivered (receive_all channel sent taken (batch ∷ rest))
        ≡ behind (sent ++ batch) taken rest (channel.recv event_capacity (sent ++ batch) taken)
  unfolding receive_all
  receive_all-cons sent taken batch rest = go (channel.recv event_capacity (sent ++ batch) taken)
    where
      go :
          (o : Option Received)
          → delivered (elim o [
            | none ↦ receive_all channel (sent ++ batch) taken rest
            | some r ↦ (r, true) ∷ receive_all channel (sent ++ batch) (suc taken) rest
          ])
            ≡ behind (sent ++ batch) taken rest o
      go none = refl
      go (some r) = refl

  gapless_step :
      (seen due : List MembershipChange) (rest : List (List MembershipChange))
      → ((seen waiting : List MembershipChange)
          → delivered (receive_all channel (seen ++ waiting) (length seen) rest)
            ≡ take (kept_up (length waiting) rest) (waiting ++ concat rest))
      → behind
          (seen ++ due)
          (length seen)
          rest
          (channel.recv event_capacity (seen ++ due) (length seen))
        ≡ take
            (if ltb event_capacity (length due)
              then 0
              else and_one (length due) (kept_up (less_one (length due)) rest))
            (due ++ concat rest)
  gapless_step seen due rest ih = elim (Bool-cases (ltb event_capacity (length due))) [
    | inl lags ↦ rw (
      channel.recv-lags event_capacity (length seen) (seen ++ due)
          (omega (arith, length-append seen due, ltb→lt event_capacity (length due) lags)),
      lags,
    )
    | inr keeps ↦ rw keeps (go due keeps)
  ]
    where
      go :
          (due : List MembershipChange)
          → ltb event_capacity (length due) ≡ false
          → behind
              (seen ++ due)
              (length seen)
              rest
              (channel.recv event_capacity (seen ++ due) (length seen))
            ≡ take
                (and_one (length due) (kept_up (less_one (length due)) rest))
                (due ++ concat rest)
      go [] h =
          rw (append-nil seen, channel.recv-waits event_capacity seen)
            (ap (λ sent. delivered (receive_all channel sent (length seen) rest))
                (sym (append-nil seen))
              ∙ ih seen [])
      go (c ∷ waiting) h =
          rw
            (channel.recv-next event_capacity (length seen) (seen ++ c ∷ waiting) c
              (get_elem?-append seen c waiting) (ground (arith, length-append seen (c ∷ waiting))))
            (ap (◌∷◌ c) (
              ap₂ (λ sent taken. delivered (receive_all channel sent taken rest))
                (sym (append_assoc seen (c ∷ []) waiting))
                (omega (arith, length-append seen (c ∷ [])))
              ∙ ih (seen ++ c ∷ []) waiting))

  -- The changes that were seen and those that wait are all that was sent so far.
  gapless :
      (seen waiting : List MembershipChange) (batches : List (List MembershipChange))
      → delivered (receive_all channel (seen ++ waiting) (length seen) batches)
        ≡ take (kept_up (length waiting) batches) (waiting ++ concat batches)
  unfolding receive_all
  gapless seen waiting [] = refl
  gapless seen waiting (batch ∷ rest) =
      receive_all-cons (seen ++ waiting) (length seen) batch rest
      ∙ ap (λ sent. behind sent (length seen) rest (channel.recv event_capacity sent (length seen)))
          (append_assoc seen waiting batch)
      ∙ gapless_step seen (waiting ++ batch) rest (λ seen waiting. gapless seen waiting rest)
      ∙ ap₂
          (λ due changes.
            take (if ltb event_capacity due then 0 else and_one due (kept_up (less_one due) rest))
              changes)
          (length-append waiting batch) (append_assoc waiting batch (concat rest))

module _ (P : Platform) (codec : LineCodec P) (channel : Channel) where
  -- What a subscriber prints, where every write succeeds, is without a gap: the lines of the first so many
  -- of all the changes that were sent, in their order, one for each time that it received one, until it
  -- finds itself more than 256 changes behind; nothing that comes later is printed. The state is as it was.
  pub run_subscribe-gapless :
      (now : ℕ) (batches : List (List MembershipChange)) (st : DaemonState P)
      → let served =
          handle_control_client P codec now
            (sending P codec (receive_all channel [] 0 batches) ControlRequest.subscribe)
            st in
        (run_subscribe P codec served.outgoing
          ≡ map change_line (take (kept_up 0 batches) (concat batches)))
        × (served.state ≡ st)
  run_subscribe-gapless now batches st =
      let (printed, same, _) =
        run_subscribe-delivered P codec now (receive_all channel [] 0 batches) st in
      (printed ∙ ap (map change_line) (gapless channel [] [] batches), same)
