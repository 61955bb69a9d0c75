-- ===== src/Server/Limiter.antt =====
-- src/server.rs: `ThreadLimiter`. The counter and its permits under any interleaving of threads
-- that acquire, wait on the condition variable, wake up (also spuriously) and drop their permit.
use ruzor.Prelude.{
  ℕ, ◌+◌, ◌-◌, ◌≤◌, ◌<◌, ◌≡◌, ◌⊎◌, refl, ◌∙◌, Option, none, some, arith, ltb, if◌then◌else◌,
}

-- `max` and `active`; `live` permits are held, `waiting` threads sleep on `available`, and `woken`
-- ones have been notified and have not looked at `active` again.
pub record ThreadLimiter : Type 0 where
  pub max : ℕ
  pub active : ℕ
  pub live : ℕ
  pub waiting : ℕ
  pub woken : ℕ

-- `ThreadLimiter::new`
abbrev pub new : ℕ → ThreadLimiter
new max = record { max = max; active = 0; live = 0; waiting = 0; woken = 0 }

-- `acquire` once the lock is held: a permit, or `none` where the thread must wait
unfoldable pub acquire : ThreadLimiter → Option ThreadLimiter
acquire l =
    if ltb l.active l.max
    then some (record l { active = l.active + 1; live = l.live + 1 })
    else none

-- `notify_one`: one sleeping thread, if there is any
unfoldable pub notify_one : ThreadLimiter → ThreadLimiter
notify_one l =
    if ltb 0 l.waiting then record l { waiting = l.waiting - 1; woken = l.woken + 1 } else l

-- `Drop for ThreadPermit`: `saturating_sub`, then the notification
unfoldable pub drop_permit : ThreadLimiter → ThreadLimiter
unfolding notify_one
drop_permit l = notify_one (record l { active = l.active - 1; live = l.live - 1 })

pub data Step : ThreadLimiter → ThreadLimiter → Type 0 where
  -- a thread that comes to `acquire` gets a permit, or goes to sleep
  enter : (l : ThreadLimiter) {l' : ThreadLimiter} → acquire l ≡ some l' → Step l l'
  sleep : (l : ThreadLimiter) → acquire l ≡ none → Step l (record l { waiting = l.waiting + 1 })
  -- a woken thread tests `active` again
  retry :
      (l : ThreadLimiter) {l' : ThreadLimiter}
      → 0 < l.woken
      → acquire (record l { woken = l.woken - 1 }) ≡ some l'
      → Step l l'
  sleep_again :
      (l : ThreadLimiter)
      → 0 < l.woken
      → acquire l ≡ none
      → Step l (record l { woken = l.woken - 1; waiting = l.waiting + 1 })
  spurious :
      (l : ThreadLimiter)
      → 0 < l.waiting
      → Step l (record l { waiting = l.waiting - 1; woken = l.woken + 1 })
  release : (l : ThreadLimiter) → 0 < l.live → Step l (drop_permit l)

pub data Reach (s : ThreadLimiter) : ThreadLimiter → Type 0 where
  here : Reach s s
  next : {t u : ThreadLimiter} → Reach s t → Step t u → Reach s u

record Inv (l : ThreadLimiter) : Type 0 where
  counted : l.active ≡ l.live
  bounded : l.active ≤ l.max
  covered : 0 < l.waiting → l.max ≤ l.active + l.woken

Step-Inv : {l l' : ThreadLimiter} → Step l l' → Inv l → Inv l'
unfolding acquire drop_permit
Step-Inv (enter l e) v = ground (arith, v.covered)
Step-Inv (sleep l e) v = ground (arith, v.covered)
Step-Inv (retry l p e) v = ground (arith, v.covered)
Step-Inv (sleep_again l p e) v = ground (arith, v.covered)
Step-Inv (spurious l p) v = ground (arith, v.covered)
Step-Inv (release l p) v = ground (arith, v.covered)

Reach-Inv : {l l' : ThreadLimiter} → Inv l → Reach l l' → Inv l'
Reach-Inv v here = v
Reach-Inv v (next r s) = Step-Inv s (Reach-Inv v r)

Step-max : {l l' : ThreadLimiter} → Step l l' → l'.max ≡ l.max
unfolding acquire drop_permit
Step-max (enter l e) = ground arith
Step-max (retry l p e) = ground arith
Step-max (release l p) = ground arith
Step-max _ = ground arith

Reach-max : {l l' : ThreadLimiter} → Reach l l' → l'.max ≡ l.max
Reach-max here = refl
Reach-max (next r s) = Step-max s ∙ Reach-max r

-- However the threads interleave, at most `max` permits are held, the counter is their number
-- (so that the saturating subtraction never stops at 0), and where a thread sleeps, every place is
-- taken or another thread has been woken.
pub Reach-limit :
    (max : ℕ) (l : ThreadLimiter)
    → Reach (new max) l
    → (l.live ≤ max) × (l.active ≡ l.live) × ((l.waiting ≡ 0) ⊎ (0 < l.woken) ⊎ (l.active ≡ max))
Reach-limit max l r =
    let v = Reach-Inv {l = new max} (omega arith) r in
    let same = Reach-max r in
    (ground (arith, v.bounded), v.counted, ground (arith, v.bounded, v.covered))
