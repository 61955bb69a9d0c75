-- ===== src/Engines/Lawful.antt =====
-- What a digest database promises, as a map from digests to records, and that the default methods
-- of the trait in src/engines.rs keep the promise.
use ruzor.Prelude.{ℕ, ◌+◌, ◌≡◌, refl, ap, ◌∙◌, List, [], ◌∷◌, arith, if◌then◌else◌}
use ruzor.Prelude.Int.{ℤ}
use ruzor.Text.{Text, eq_text}
use ruzor.Text.Laws.{eq_text_iff}
use ruzor.Error.{Result, ok}
use ruzor.Engines.{
  Record, DigestDatabase, r_increment, wl_increment, update_each, with_default_methods,
}

-- The record of `k` after the digests were changed one after the other, the i-th at `now i`.
abbrev pub changed_each : (ℤ → Record → Record) → Text → ℕ → (ℕ → ℤ) → List Text → Record → Record
changed_each change k i now [] r = r
changed_each change k i now (digest ∷ digests) r =
    changed_each change k (i + 1) now digests (if eq_text digest k then change (now i) r else r)

-- A database that never fails and behaves as the map `view`.
pub record IsLawful {S : Type 0} (db : DigestDatabase S) (view : S → Text → Record) : Type 0 where
  pub get_law : (k : Text) (s : S) → db.get k s ≡ (ok (view s k), s)
  pub set_ok : (k : Text) (r : Record) (s : S) → (db.set k r s).0 ≡ ok tt
  pub set_view :
      (k j : Text) (r : Record) (s : S)
      → view (db.set k r s).1 j ≡ (if eq_text k j then r else view s j)
  pub report_ok : (now : ℕ → ℤ) (ks : List Text) (s : S) → (db.report now ks s).0 ≡ ok tt
  pub report_view :
      (now : ℕ → ℤ) (ks : List Text) (j : Text) (s : S)
      → view (db.report now ks s).1 j ≡ changed_each r_increment j 0 now ks (view s j)
  pub whitelist_ok : (now : ℕ → ℤ) (ks : List Text) (s : S) → (db.whitelist now ks s).0 ≡ ok tt
  pub whitelist_view :
      (now : ℕ → ℤ) (ks : List Text) (j : Text) (s : S)
      → view (db.whitelist now ks s).1 j ≡ changed_each wl_increment j 0 now ks (view s j)

module _ {S : Type 0} (get : Text → S → Result Record × S)
    (set : Text → Record → S → Result (Unit {0}) × S) (view : S → Text → Record)
    (get_law : (k : Text) (s : S) → get k s ≡ (ok (view s k), s))
    (set_ok : (k : Text) (r : Record) (s : S) → (set k r s).0 ≡ ok tt)
    (set_view : (k j : Text) (r : Record) (s : S)
      → view (set k r s).1 j ≡ (if eq_text k j then r else view s j)) where
  -- the state after one round
  abbrev after : (ℤ → Record → Record) → ℤ → Text → S → S
  after change now k s = (set k (change now (view s k)) s).1

  set_step : (k : Text) (r : Record) (s : S) → set k r s ≡ (ok tt, (set k r s).1)
  set_step k r s = ap (λ (x : Result (Unit {0})). (x, (set k r s).1)) (set_ok k r s)

  update_each_step :
      (change : ℤ → Record → Record) (i : ℕ) (now : ℕ → ℤ) (k : Text) (ks : List Text) (s : S)
      → update_each get set change i now (k ∷ ks) s
        ≡ update_each get set change (i + 1) now ks (after change (now i) k s)
  unfolding update_each
  update_each_step change i now k ks s =
      rw (get_law k s) (rw (set_step k (change (now i) (view s k)) s))

  view-after :
      (change : ℤ → Record → Record) (now : ℤ) (k j : Text) (s : S)
      → view (after change now k s) j ≡ (if eq_text k j then change now (view s j) else view s j)
  view-after change now k j s =
      ground (arith, set_view k j (change now (view s k)) s, eq_text_iff k j)

  update_each_ok :
      (change : ℤ → Record → Record) (i : ℕ) (now : ℕ → ℤ) (ks : List Text) (s : S)
      → (update_each get set change i now ks s).0 ≡ ok tt
  update_each_ok change i now [] s = unfold update_each in refl
  update_each_ok change i now (k ∷ ks) s =
      rw (update_each_step change i now k ks s) (update_each_ok change (i + 1) now ks _)

  view-update_each :
      (change : ℤ → Record → Record) (i : ℕ) (now : ℕ → ℤ) (ks : List Text) (j : Text) (s : S)
      → view (update_each get set change i now ks s).1 j ≡ changed_each change j i now ks (view s j)
  view-update_each change i now [] j s = unfold update_each in refl
  view-update_each change i now (k ∷ ks) j s = rw (update_each_step change i now k ks s) (
      view-update_each change (i + 1) now ks j (after change (now i) k s)
      ∙ ap (changed_each change j (i + 1) now ks) (view-after change (now i) k j s))

  -- A database whose `get` and `set` keep the promise keeps it under the default methods too: a
  -- report changes the record of each digest once for every time that the digest is listed.
  pub with_default_methods-IsLawful : IsLawful (with_default_methods get set) view
  unfolding with_default_methods
  with_default_methods-IsLawful = record {
    get_law = get_law;
    set_ok = set_ok;
    set_view = set_view;
    report_ok = λ now ks s. update_each_ok r_increment 0 now ks s;
    report_view = λ now ks j s. view-update_each r_increment 0 now ks j s;
    whitelist_ok = λ now ks s. update_each_ok wl_increment 0 now ks s;
    whitelist_view = λ now ks j s. view-update_each wl_increment 0 now ks j s;
  }
