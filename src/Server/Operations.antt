-- ===== src/Server/Operations.antt =====
-- src/server.rs, the second half of `really_handle`: the operations. `ask` stands for
-- `Client::check` on the network: the answer of a proxy source for a digest.
use ruzor.Prelude.{
  ℕ, Bool, true, false, not, ◌&&◌, ◌||◌, Option, none, some, List, [], ◌∷◌, if◌then◌else◌,
}
use ruzor.Prelude.Int.{ℤ, pos, ltb_ℤ, leb_ℤ, i64_max}
use ruzor.Text.{Text, codes, eq_text}
use ruzor.Text.Decimal.{int_to_string, parse_i64}
use ruzor.Error.{Result, ok, err, comm}
use ruzor.Message.{Message, get, add_header, is_ok, or_default}
use ruzor.Engines.{Record, DigestDatabase}
use ruzor.Forwarder.{Forwarder, queue_all}

-- `Address` of src/config.rs
abbrev pub Address : Type 0
Address = Text × ℕ

-- what a request can change
pub record World (S : Type 0) : Type 0 where
  pub database : S
  pub forwarder : Option Forwarder

-- what it cannot
pub record Setting (S : Type 0) : Type 0 where
  pub db : DigestDatabase S
  pub proxy_sources : List Address
  pub ask : Text → Address → Result Message

-- the result of `really_handle`, and the response and the state that it leaves behind either way
pub record Outcome (S : Type 0) : Type 0 where
  pub result : Result (Unit {0})
  pub response : Message
  pub world : World S

-- `parse_i64_header`
unfoldable pub parse_i64_header : Message → Text → ℤ
parse_i64_header m name = elim (get m name) [
  | none ↦ pos 0
  | some value ↦ or_default (pos 0) (parse_i64 value)
]

abbrev positive_or : Option ℤ → Option ℤ → Option ℤ
positive_or none other = other
positive_or (some t) other = if ltb_ℤ (pos 0) t then some t else other

abbrev parsed : Option Text → Option ℤ
parsed none = none
parsed (some value) = parse_i64 value

-- `proxy_time_or_now`
unfoldable pub proxy_time_or_now : Message → Text → ℤ → ℤ → Option ℤ
proxy_time_or_now m name count now =
    positive_or (parsed (get m name)) (if ltb_ℤ (pos 0) count then some now else none)

-- `record_from_proxy_response`
unfoldable pub record_from_proxy_response : ℤ → Message → Option Record
unfolding parse_i64_header
record_from_proxy_response now m =
    let r_count = parse_i64_header m (codes "Count") in
    let wl_count = parse_i64_header m (codes "WL-Count") in
    if not (is_ok m) || (leb_ℤ r_count (pos 0) && leb_ℤ wl_count (pos 0))
    then none
    else some (record {
      r_count = r_count;
      wl_count = wl_count;
      r_entered = proxy_time_or_now m (codes "Entered") r_count now;
      r_updated = proxy_time_or_now m (codes "Updated") r_count now;
      wl_entered = proxy_time_or_now m (codes "WL-Entered") wl_count now;
      wl_updated = proxy_time_or_now m (codes "WL-Updated") wl_count now;
    })

abbrev record_of_answer : ℤ → Result Message → Option Record
record_of_answer now (ok m) = record_from_proxy_response now m
record_of_answer now (err e) = none

-- `proxy_check_miss`: the first source that has a record
unfoldable pub proxy_check_miss :
    (Text → Address → Result Message) → ℤ → Text → List Address → Option Record
proxy_check_miss ask now digest [] = none
proxy_check_miss ask now digest (source ∷ sources) =
    elim (record_of_answer now (ask digest source)) [
      | some r ↦ some r
      | none ↦ proxy_check_miss ask now digest sources
    ]

-- `record_has_match`
unfoldable pub record_has_match : Record → Bool
record_has_match r = ltb_ℤ (pos 0) r.r_count || ltb_ℤ (pos 0) r.wl_count

unfoldable pub add_counts : Message → Record → Message
unfolding add_header
add_counts m r =
    add_header (add_header m (codes "Count") (int_to_string r.r_count)) (codes "WL-Count")
      (int_to_string r.wl_count)

abbrev time_text : Option ℤ → Text
time_text t = int_to_string (or_default (pos 0) t)

unfoldable pub add_info : Message → Record → Message
unfolding add_counts
add_info m r =
    let entered = add_header m (codes "Entered") (time_text r.r_entered) in
    let updated = add_header entered (codes "Updated") (time_text r.r_updated) in
    let wl_entered = add_header updated (codes "WL-Entered") (time_text r.wl_entered) in
    add_counts (add_header wl_entered (codes "WL-Updated") (time_text r.wl_updated)) r

-- the answer to `pong`
unfoldable pub add_pong : Message → Message
add_pong m =
    add_header (add_header m (codes "Count") (int_to_string (pos i64_max))) (codes "WL-Count")
      (codes "0")

abbrev pub forward_all : List Text → Bool → Option Forwarder → Option Forwarder
forward_all digests whitelist none = none
forward_all digests whitelist (some f) = some (queue_all digests whitelist f)

module _ {S : Type 0} where
  abbrev pub done : Message → World S → Outcome S
  done reply w = record { result = ok tt; response = reply; world = w }

  abbrev pub with_state : World S → S → World S
  with_state w s = record w { database = s }

  -- `"report"` and `"whitelist"`: the forwarder is told once the database has the digests
  abbrev pub after_update : List Text → Bool → Message → World S → Result (Unit {0}) × S → Outcome S
  after_update digests whitelist reply w (ok _, s) =
      done reply (record { database = s; forwarder = forward_all digests whitelist w.forwarder })
  after_update digests whitelist reply w (err e, s) = record {
    result = err e;
    response = reply;
    world = with_state w s;
  }

module _ {S : Type 0} (setting : Setting S) where
  unfoldable pub do_pong : List Text → Message → World S → Outcome S
  do_pong [] reply w = done reply w
  do_pong (digest ∷ _) reply w = done (add_pong reply) w

  abbrev pub after_cache : Record → Message → World S → Result (Unit {0}) × S → Outcome S
  after_cache r reply w (ok _, s) = done (add_counts reply r) (with_state w s)
  after_cache r reply w (err e, s) = record {
    result = err e;
    response = reply;
    world = with_state w s;
  }

  abbrev pub on_miss : Text → Record → Message → World S → Option Record → Outcome S
  on_miss digest r reply w none = done (add_counts reply r) w
  on_miss digest r reply w (some found) =
      after_cache found reply w (setting.db.set digest found w.database)

  abbrev pub after_check : ℤ → Text → Message → World S → Result Record × S → Outcome S
  after_check now digest reply w (err e, s) = record {
    result = err e;
    response = reply;
    world = with_state w s;
  }
  after_check now digest reply w (ok r, s) =
      if record_has_match r
      then done (add_counts reply r) (with_state w s)
      else on_miss digest r reply (with_state w s)
          (proxy_check_miss setting.ask now digest setting.proxy_sources)

  unfoldable pub do_check : ℤ → List Text → Message → World S → Outcome S
  do_check now [] reply w = done reply w
  do_check now (digest ∷ _) reply w =
      after_check now digest reply w (setting.db.get digest w.database)

  abbrev pub after_info : Message → World S → Result Record × S → Outcome S
  after_info reply w (err e, s) = record {
    result = err e;
    response = reply;
    world = with_state w s;
  }
  after_info reply w (ok r, s) = done (add_info reply r) (with_state w s)

  unfoldable pub do_info : List Text → Message → World S → Outcome S
  do_info [] reply w = done reply w
  do_info (digest ∷ _) reply w = after_info reply w (setting.db.get digest w.database)

  unfoldable pub do_report : (ℕ → ℤ) → List Text → Message → World S → Outcome S
  do_report now [] reply w = done reply w
  do_report now (d ∷ ds) reply w =
      after_update (d ∷ ds) false reply w (setting.db.report now (d ∷ ds) w.database)

  unfoldable pub do_whitelist : (ℕ → ℤ) → List Text → Message → World S → Outcome S
  do_whitelist now [] reply w = done reply w
  do_whitelist now (d ∷ ds) reply w =
      after_update (d ∷ ds) true reply w (setting.db.whitelist now (d ∷ ds) w.database)

  -- `match opcode { … }`
  unfoldable pub dispatch : (ℕ → ℤ) → ℤ → Text → List Text → Message → World S → Outcome S
  dispatch updated_at proxied_at opcode digests reply w =
      if eq_text opcode (codes "ping")
      then done reply w
      else if eq_text opcode (codes "pong")
      then do_pong digests reply w
      else if eq_text opcode (codes "check")
      then do_check proxied_at digests reply w
      else if eq_text opcode (codes "info")
      then do_info digests reply w
      else if eq_text opcode (codes "report")
      then do_report updated_at digests reply w
      else if eq_text opcode (codes "whitelist")
      then do_whitelist updated_at digests reply w
      else record {
        result = err (comm (codes "Not implemented: Requested operation is not implemented."));
        response = reply;
        world = w;
      }
