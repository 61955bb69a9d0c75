-- ===== src/Client/Forwarding/Ending.antt =====
-- How the thread of src/forwarder.rs ends: what it has sent by then.
use ruzor.Prelude.{ℕ, ◌≡◌, ◌⊎◌, true, false, Option, none, some, List, [], ◌∷◌, ◌++◌}
use ruzor.Text.{codes}
use ruzor.Error.{Result}
use ruzor.Message.{Message}
use ruzor.Server.Operations.{Address}
use ruzor.Forwarder.{ForwardRequest}
use ruzor.Client.{address_eq}
use ruzor.Client.Batch.{total, sent_to, asked_for}
use ruzor.Client.Forwarding.{
  BatchClient, Event, received, timed_out, disconnected, forward_each, forward_loop, asked_of,
}

-- waits that do not end the thread: a request, or a timeout with no shutdown
abbrev pub waits : List (Option ForwardRequest) → List Event
waits [] = []
waits (none ∷ seen) = timed_out false ∷ waits seen
waits (some r ∷ seen) = received r ∷ waits seen

abbrev pub requests_in : List (Option ForwardRequest) → List ForwardRequest
requests_in [] = []
requests_in (none ∷ seen) = requests_in seen
requests_in (some r ∷ seen) = r ∷ requests_in seen

-- a timeout under the shutdown flag, or the end of the channel
abbrev pub Ends : Event → Type 0
Ends event = (event ≡ timed_out true) ⊎ (event ≡ disconnected)

module _ (send : Message → Address → Result (Unit {0})) (batch_size : ℕ) (spec : List (ℕ × ℕ))
    (servers : List Address) where
  -- Nothing waits any longer, and the digest of every request was sent to every server, each in
  -- the batches of its kind, behind what was sent or waiting before.
  pub record Delivered (rs : List ForwardRequest) (b c : BatchClient) : Type 0 where
    pub no_report_waits : c.reports.requests ≡ []
    pub no_whitelist_waits : c.whitelists.requests ≡ []
    pub reports_sent :
        (a : Address)
        → sent_to a c.reports.sent
          ≡ total send batch_size spec (codes "report") a b.reports
            ++ asked_for a (asked_of send batch_size spec servers false rs)
    pub whitelists_sent :
        (a : Address)
        → sent_to a c.whitelists.sent
          ≡ total send batch_size spec (codes "whitelist") a b.whitelists
            ++ asked_for a (asked_of send batch_size spec servers true rs)

  abbrev each : List ForwardRequest → BatchClient → BatchClient
  each = forward_each send batch_size spec servers

  abbrev loop : List Event → List ForwardRequest → BatchClient → Option BatchClient
  loop = forward_loop send batch_size spec servers
