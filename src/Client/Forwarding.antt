-- ===== src/Client/Forwarding.antt =====
-- `BatchClient` of src/client.rs with both of its maps, and the thread of src/forwarder.rs that feeds
-- it. Every map has its own log of what was sent.
pub mod Ending
use ruzor.Prelude.{ℕ, Bool, true, false, Option, none, some, List, [], ◌∷◌, ◌++◌, if◌then◌else◌}
use ruzor.Text.{Text, codes}
use ruzor.Error.{Result}
use ruzor.Message.{Message}
use ruzor.Server.Operations.{Address}
use ruzor.Forwarder.{ForwardRequest}
use ruzor.Client.Batch.{Batches, add_digest, add_all}

pub record BatchClient : Type 0 where
  pub reports : Batches
  pub whitelists : Batches

-- `flush`
pub flush : BatchClient → BatchClient
flush b = record {
  reports = record b.reports { requests = [] };
  whitelists = record b.whitelists { requests = [] };
}

-- sends all that waits in one map
abbrev send_waiting : Batches → Batches
send_waiting b = record { requests = []; sent = b.sent ++ b.requests }

-- `force`
unfoldable pub force : BatchClient → BatchClient
force b = record { reports = send_waiting b.reports; whitelists = send_waiting b.whitelists }

-- what wakes the thread in `recv_timeout`: a request, two seconds without one (and whether the
-- shutdown flag is set by then), or the end of the channel
pub data Event : Type 0 where
  received : ForwardRequest → Event
  timed_out : Bool → Event
  disconnected : Event

module _ (send : Message → Address → Result (Unit {0})) (batch_size : ℕ) (spec : List (ℕ × ℕ))
    (servers : List Address) where
  -- `BatchClient::report` and `BatchClient::whitelist`
  unfoldable pub batch_report : Text → Address → BatchClient → Result (Unit {0}) × BatchClient
  batch_report digest address b =
      let (result, reports) =
        add_digest send batch_size spec (codes "report") digest address b.reports in
      (result, record b { reports = reports })

  unfoldable pub batch_whitelist : Text → Address → BatchClient → Result (Unit {0}) × BatchClient
  batch_whitelist digest address b =
      let (result, whitelists) =
        add_digest send batch_size spec (codes "whitelist") digest address b.whitelists in
      (result, record b { whitelists = whitelists })

  -- `forward_one`: one server after the other, whatever the results
  forward_to : List Address → ForwardRequest → BatchClient → BatchClient
  forward_to [] r b = b
  forward_to (server ∷ rest) r b = forward_to rest r (
      if r.whitelist
      then (batch_whitelist r.digest server b).1
      else (batch_report r.digest server b).1)

  abbrev forward_one : ForwardRequest → BatchClient → BatchClient
  forward_one r b = forward_to servers r b

  pub forward_each : List ForwardRequest → BatchClient → BatchClient
  forward_each [] b = b
  forward_each (r ∷ rest) b = forward_each rest (forward_one r b)

  -- `forward_loop`, for what `recv_timeout` gives and what `try_recv` finds in the queue after it:
  -- the client in the end, or `none` while the thread still waits
  pub forward_loop : List Event → List ForwardRequest → BatchClient → Option BatchClient
  forward_loop [] left b = none
  forward_loop (received r ∷ events) left b = forward_loop events left (forward_one r b)
  forward_loop (timed_out true ∷ events) left b = some (force (forward_each left b))
  forward_loop (timed_out false ∷ events) left b = forward_loop events left b
  forward_loop (disconnected ∷ events) left b = some (force (forward_each left b))

  -- what the requests ask of the batches of reports, or of whitelistings
  abbrev to_each : Text → List Address → List (Text × Address)
  to_each digest [] = []
  to_each digest (server ∷ rest) = (digest, server) ∷ to_each digest rest

  abbrev pub asked_of : Bool → List ForwardRequest → List (Text × Address)
  asked_of whitelist [] = []
  asked_of true (r ∷ rest) =
      (if r.whitelist then to_each r.digest servers else []) ++ asked_of true rest
  asked_of false (r ∷ rest) =
      (if r.whitelist then [] else to_each r.digest servers) ++ asked_of false rest

  -- the digests of the requests, added to the batches they belong to
  abbrev all_added : List ForwardRequest → BatchClient → BatchClient
  all_added rs b = record {
    reports = add_all send batch_size spec (codes "report") (asked_of false rs) b.reports;
    whitelists = add_all send batch_size spec (codes "whitelist") (asked_of true rs) b.whitelists;
  }
