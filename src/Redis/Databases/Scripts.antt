-- ===== src/Redis/Databases/Scripts.antt =====
-- The commands that the methods of the Redis v1 database in src/redis_engine.rs are, in their order.
use ruzor.Prelude.{ℕ, zero, suc, ◌≡◌, ap, ◌∙◌, Bool, Option, none, some, List, [], ◌∷◌, ◌++◌}
use ruzor.Prelude.Int.{ℤ, pos, negsuc}
use ruzor.Text.{Text, Bytes, codes}
use ruzor.Text.Decimal.{int_to_string}
use ruzor.Text.Utf8.{as_bytes}
use ruzor.Steps.{follow, follow_assoc, give}
use ruzor.Error.{Result, ok}
use ruzor.LocalTime.{TimeZone}
use ruzor.Engines.{Record, DigestDatabase}
use ruzor.Engines.Formats.{redis_v1_encode_record}
use ruzor.Redis.{RedisDsn}
use ruzor.Redis.Resp.Replies.{Reply}
use ruzor.Redis.Databases.{
  Place, place_of, closed, connected, command, connect, authenticate, expire, count_one,
  expire_if_needed, count_each, key_v1, field_args, v1_set, redis_v1_database,
}
use ruzor.Redis.Databases.Sessions.{
  IsServer, play, Plays, Plays-command, Plays-give, Plays-append, closed-Plays,
}

abbrev login : Option Text → Option Text → List (List Bytes)
login none username = []
login (some password) none = (codes "AUTH" ∷ as_bytes password ∷ []) ∷ []
login (some password) (some username) =
    (codes "AUTH" ∷ as_bytes username ∷ as_bytes password ∷ []) ∷ []

abbrev connect_script : RedisDsn → List (List Bytes)
connect_script dsn =
    login dsn.password dsn.username ++ (codes "SELECT" ∷ int_to_string dsn.db ∷ []) ∷ []

abbrev expire_script : Bytes → Option ℤ → List (List Bytes)
expire_script key none = []
expire_script key (some (pos zero)) = []
expire_script key (some age) = (codes "EXPIRE" ∷ key ∷ int_to_string age ∷ []) ∷ []

abbrev count_script : Option ℤ → Text → Text → Text → Text → List Text → List (List Bytes)
count_script max_age count entered updated now [] = []
count_script max_age count entered updated now (digest ∷ digests) =
    (codes "HINCRBY" ∷ key_v1 digest ∷ count ∷ codes "1" ∷ [])
    ∷ (codes "HSETNX" ∷ key_v1 digest ∷ entered ∷ now ∷ [])
    ∷ (codes "HSET" ∷ key_v1 digest ∷ updated ∷ now ∷ [])
    ∷ (expire_script (key_v1 digest) max_age
        ++ count_script max_age count entered updated now digests)

-- `set` of one record
abbrev set_script : Option ℤ → Text → Record → List (List Bytes)
set_script max_age digest r =
    (codes "HSET" ∷ key_v1 digest ∷ field_args (redis_v1_encode_record r))
    ∷ expire_script (key_v1 digest) max_age

module _ {S : Type 0} (open_stream : Place → S → Bool × S) (exchange : Bytes → S → Option Bytes × S)
    (answer : List Bytes → S → Reply × S) (server : IsServer open_stream exchange answer)
    (tz : TimeZone) (dsn : RedisDsn) (max_age : Option ℤ) where
  Plays-expire_at :
      (key : Bytes) (age : Option ℤ)
      → Plays open_stream exchange answer server
          (expire open_stream exchange tz dsn max_age key age)
          (expire_script key age)
  Plays-expire_at key none = Plays-give open_stream exchange answer server
  Plays-expire_at key (some (pos zero)) = Plays-give open_stream exchange answer server
  Plays-expire_at key (some (pos (suc n))) =
      Plays-command open_stream exchange answer server _ (λ reply. give (ok tt)) []
        (λ reply. Plays-give open_stream exchange answer server)
  Plays-expire_at key (some (negsuc n)) =
      Plays-command open_stream exchange answer server _ (λ reply. give (ok tt)) []
        (λ reply. Plays-give open_stream exchange answer server)

  abbrev expires : Bytes → Bytes × S → Result (Unit {0}) × (Bytes × S)
  expires = expire_if_needed open_stream exchange tz dsn max_age

  Plays-expire :
      (key : Bytes)
      → Plays open_stream exchange answer server (expires key) (expire_script key max_age)
  unfolding expire_if_needed
  Plays-expire key = Plays-expire_at key max_age

  Plays-count_one :
      (count entered updated now digest : Text)
      → Plays open_stream exchange answer server
          (count_one open_stream exchange tz dsn max_age count entered updated now digest)
          ((codes "HINCRBY" ∷ key_v1 digest ∷ count ∷ codes "1" ∷ [])
            ∷ (codes "HSETNX" ∷ key_v1 digest ∷ entered ∷ now ∷ [])
            ∷ (codes "HSET" ∷ key_v1 digest ∷ updated ∷ now ∷ [])
            ∷ expire_script (key_v1 digest) max_age)
  Plays-count_one count entered updated now digest =
      let key = key_v1 digest in
      let write = codes "HSET" ∷ key ∷ updated ∷ now ∷ [] in
      let note = codes "HSETNX" ∷ key ∷ entered ∷ now ∷ [] in
      Plays-command open_stream exchange answer server _
        (λ counted c.
          follow (command open_stream exchange note c)
            (λ noted c. follow (command open_stream exchange write c) (λ written. expires key)))
        _
        λ counted.
          Plays-command open_stream exchange answer server note
            (λ noted c. follow (command open_stream exchange write c) (λ written. expires key)) _
            λ noted.
              Plays-command open_stream exchange answer server write (λ written. expires key) _
                λ written. Plays-expire key

  Plays-count_each :
      (count entered updated now : Text) (digests : List Text)
      → Plays open_stream exchange answer server
          (count_each open_stream exchange tz dsn max_age count entered updated now digests)
          (count_script max_age count entered updated now digests)
  unfolding count_each
  Plays-count_each count entered updated now [] = Plays-give open_stream exchange answer server
  Plays-count_each count entered updated now (digest ∷ digests) =
      Plays-append open_stream exchange answer server
        (count_one open_stream exchange tz dsn max_age count entered updated now digest)
        (count_each open_stream exchange tz dsn max_age count entered updated now digests) _
        (count_script max_age count entered updated now digests)
        (Plays-count_one count entered updated now digest)
        (Plays-count_each count entered updated now digests)

  abbrev select : List Bytes
  select = codes "SELECT" ∷ int_to_string dsn.db ∷ []

  after_login :
      (auth : List Bytes) (body : Bytes × S → Result (Unit {0}) × (Bytes × S))
      (script : List (List Bytes)) (s : S)
      → Plays open_stream exchange answer server body script
      → closed (
          follow
            (follow
              (command open_stream exchange auth ([], s))
              (λ authenticated. command open_stream exchange select))
            (λ selected. body))
        ≡ play answer (auth ∷ select ∷ script) s
  after_login auth body script s h =
      ap closed (
        follow_assoc (command open_stream exchange auth ([], s))
          (λ authenticated. command open_stream exchange select) (λ selected. body))
      ∙ closed-Plays open_stream exchange answer server
          (λ c.
            follow (command open_stream exchange auth c) (λ authenticated c.
              follow (command open_stream exchange select c) (λ selected. body)))
          (auth ∷ select ∷ script) s
          (Plays-command open_stream exchange answer server auth
            (λ authenticated c. follow (command open_stream exchange select c) (λ selected. body))
            (select ∷ script)
            (λ authenticated.
              Plays-command open_stream exchange answer server select (λ selected. body) script
                (λ selected. h)))

  abbrev login_and :
      Option Text
      → Option Text
      → (Bytes × S → Result (Unit {0}) × (Bytes × S))
      → Bytes × S
      → Result (Unit {0}) × (Bytes × S)
  login_and password username body c =
      follow
        (follow (authenticate open_stream exchange password username c)
          (λ authenticated. command open_stream exchange select))
        (λ selected. body)

  closed-login_and :
      (password username : Option Text) (body : Bytes × S → Result (Unit {0}) × (Bytes × S))
      (script : List (List Bytes)) (s : S)
      → Plays open_stream exchange answer server body script
      → closed (login_and password username body ([], s))
        ≡ play answer ((login password username ++ select ∷ []) ++ script) s
  closed-login_and none username body script s h =
      closed-Plays open_stream exchange answer server
        (λ c. follow (command open_stream exchange select c) (λ selected. body)) (select ∷ script) s
        (Plays-command open_stream exchange answer server select (λ selected. body) script
          (λ selected. h))
  closed-login_and (some password) none body script s h =
      after_login (codes "AUTH" ∷ as_bytes password ∷ []) body script s h
  closed-login_and (some password) (some username) body script s h =
      after_login (codes "AUTH" ∷ as_bytes username ∷ as_bytes password ∷ []) body script s h

  connected-Plays :
      (body : Bytes × S → Result (Unit {0}) × (Bytes × S)) (script : List (List Bytes)) (s : S)
      → Plays open_stream exchange answer server body script
      → connected open_stream exchange dsn body s ≡ play answer (connect_script dsn ++ script) s
  unfolding connect
  connected-Plays body script s h =
      rw (server.opens (place_of dsn) s)
        (closed-login_and dsn.password dsn.username body script s h)

  abbrev v1 : DigestDatabase S
  v1 = redis_v1_database open_stream exchange tz dsn max_age

  set_plays :
      (digest : Text) (r : Record) (s : S)
      → v1.set digest r s ≡ play answer (connect_script dsn ++ set_script max_age digest r) s
  unfolding redis_v1_database v1_set
  set_plays digest r s =
      let hset = codes "HSET" ∷ key_v1 digest ∷ field_args (redis_v1_encode_record r) in
      connected-Plays
        (λ c. follow (command open_stream exchange hset c) (λ written. expires (key_v1 digest)))
        (set_script max_age digest r) s
        (Plays-command open_stream exchange answer server hset (λ written. expires (key_v1 digest))
          _ (λ written. Plays-expire (key_v1 digest)))

  report_plays :
      (now : ℕ → ℤ) (digests : List Text) (s : S)
      → v1.report now digests s
        ≡ play answer
            (connect_script dsn
              ++ count_script max_age
                  (codes "r_count")
                  (codes "r_entered")
                  (codes "r_updated")
                  (int_to_string (now 0))
                  digests)
            s
  unfolding redis_v1_database
  report_plays now digests s =
      connected-Plays _ _ s (Plays-count_each _ _ _ (int_to_string (now 0)) digests)

  whitelist_plays :
      (now : ℕ → ℤ) (digests : List Text) (s : S)
      → v1.whitelist now digests s
        ≡ play answer
            (connect_script dsn
              ++ count_script max_age
                  (codes "wl_count")
                  (codes "wl_entered")
                  (codes "wl_updated")
                  (int_to_string (now 0))
                  digests)
            s
  unfolding redis_v1_database
  whitelist_plays now digests s =
      connected-Plays _ _ s (Plays-count_each _ _ _ (int_to_string (now 0)) digests)

-- `set`, `report` and `whitelist` log in, select the database, send the commands of each digest in
-- their order, and stop at the first reply that is an error.
pub PlaysCommands :
    {S : Type 0} → DigestDatabase S → (List Bytes → S → Reply × S) → RedisDsn → Option ℤ → Type 0
PlaysCommands {S} db answer dsn max_age =
    ((digest : Text) (r : Record) (s : S)
      → db.set digest r s ≡ play answer (connect_script dsn ++ set_script max_age digest r) s)
    × ((now : ℕ → ℤ) (digests : List Text) (s : S)
        → db.report now digests s
          ≡ play answer
              (connect_script dsn
                ++ count_script max_age (codes "r_count") (codes "r_entered") (codes "r_updated")
                    (int_to_string (now 0)) digests)
              s)
    × ((now : ℕ → ℤ) (digests : List Text) (s : S)
        → db.whitelist now digests s
          ≡ play answer
              (connect_script dsn
                ++ count_script max_age (codes "wl_count") (codes "wl_entered") (codes "wl_updated")
                    (int_to_string (now 0)) digests)
              s)

-- Against a server that can be connected to and that answers each command with one reply that the
-- protocol allows: `set`, `report` and `whitelist` log in, select the database, send the commands
-- of each digest in their order, and stop at the first reply that is an error.
pub redis_v1_database-play :
    {S : Type 0} (open_stream : Place → S → Bool × S) (exchange : Bytes → S → Option Bytes × S)
    (answer : List Bytes → S → Reply × S)
    → IsServer open_stream exchange answer
    → (tz : TimeZone) (dsn : RedisDsn) (max_age : Option ℤ)
    → PlaysCommands (redis_v1_database open_stream exchange tz dsn max_age) answer dsn max_age
unfolding PlaysCommands
redis_v1_database-play open_stream exchange answer server tz dsn max_age = (
  set_plays open_stream exchange answer server tz dsn max_age,
  report_plays open_stream exchange answer server tz dsn max_age,
  whitelist_plays open_stream exchange answer server tz dsn max_age,
)
