-- ===== src/Engines.antt =====
-- src/engines.rs: the record of a digest, and the trait that the server drives a database by.
-- `now` gives the readings of the clock that one call makes, in their order.
pub mod Lawful
pub mod Counts
pub mod Formats
pub mod File
pub mod Gdbm
use ruzor.Prelude.{
  ℕ, zero, suc, ◌+◌, ◌≡◌, refl, Bool, Option, none, some, List, [], ◌∷◌, if◌then◌else◌,
}
use ruzor.Prelude.Int.{ℤ, pos, ◌+ℤ◌, ltb_ℤ, i64_max}
use ruzor.Text.{Text}
use ruzor.Error.{Result, ok, err}

pub record Record : Type 0 where
  pub r_count : ℤ
  pub wl_count : ℤ
  pub r_entered : Option ℤ
  pub r_updated : Option ℤ
  pub wl_entered : Option ℤ
  pub wl_updated : Option ℤ

-- `Record::default()`
abbrev pub default_record : Record
default_record = record {
  r_count = pos 0;
  wl_count = pos 0;
  r_entered = none;
  r_updated = none;
  wl_entered = none;
  wl_updated = none;
}

-- `if count < isize::MAX as i64 { count += 1 }`
unfoldable pub bump : ℤ → ℤ
unfolding ◌+ℤ◌
bump count = if ltb_ℤ count (pos i64_max) then count +ℤ pos 1 else count

-- the time of the first entry stays
abbrev pub or_now : Option ℤ → ℤ → Option ℤ
or_now none now = some now
or_now (some t) now = some t

-- `Record::r_increment`
unfoldable pub r_increment : ℤ → Record → Record
r_increment now r = record r {
  r_count = bump r.r_count;
  r_entered = or_now r.r_entered now;
  r_updated = some now;
}

-- `Record::wl_increment`
unfoldable pub wl_increment : ℤ → Record → Record
wl_increment now r = record r {
  wl_count = bump r.wl_count;
  wl_entered = or_now r.wl_entered now;
  wl_updated = some now;
}

-- The trait: each method also gives the state that it leaves.
pub record DigestDatabase (S : Type 0) : Type 0 where
  pub get : Text → S → Result Record × S
  pub set : Text → Record → S → Result (Unit {0}) × S
  pub report : (ℕ → ℤ) → List Text → S → Result (Unit {0}) × S
  pub whitelist : (ℕ → ℤ) → List Text → S → Result (Unit {0}) × S

-- The methods that the trait provides: `get`, change the record, `set`, and stop at an error.
module _ {S : Type 0} (get : Text → S → Result Record × S)
    (set : Text → Record → S → Result (Unit {0}) × S) (change : ℤ → Record → Record) where
  abbrev set_changed : Text → ℤ → Result Record × S → Result (Unit {0}) × S
  set_changed digest now (ok r, s) = set digest (change now r) s
  set_changed digest now (err e, s) = (err e, s)

  abbrev and_then : Result (Unit {0}) × S → (S → Result (Unit {0}) × S) → Result (Unit {0}) × S
  and_then (ok _, s) k = k s
  and_then (err e, s) k = (err e, s)

  unfoldable pub update_each : ℕ → (ℕ → ℤ) → List Text → S → Result (Unit {0}) × S
  update_each i now [] s = (ok tt, s)
  update_each i now (digest ∷ digests) s =
      and_then (set_changed digest (now i) (get digest s))
        (λ s'. update_each (i + 1) now digests s')

-- A database that has only `get` and `set` of its own, such as gdbm and Redis v0.
unfoldable pub with_default_methods :
    {S : Type 0}
    → (Text → S → Result Record × S)
    → (Text → Record → S → Result (Unit {0}) × S)
    → DigestDatabase S
unfolding update_each
with_default_methods get set = record {
  get = get;
  set = set;
  report = update_each get set r_increment 0;
  whitelist = update_each get set wl_increment 0;
}
