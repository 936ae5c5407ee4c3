-- ===== src/Auth/Lockout.antt =====
-- How many wrong passwords an account takes.
use pi_development_agent.Base.{
  ℕ, suc, ◌+◌, ◌≤◌, ◌<◌, leb, true, false, List, [], ◌∷◌, some, All, ◌≡◌, inl, inr, refl, arith,
  Bool-cases,
}
use pi_development_agent.Auth.Model.{Account}
use pi_development_agent.Auth.Login.{invalid, lock_time, count_failure, try_login}

-- how many of the attempts with wrong passwords, at these times, are checked and refused
unfoldable pub refusals : List ℕ → Account → ℕ
refusals [] a = 0
refusals (now ∷ times) a =
    let tried = try_login now false a in
    let later = refusals times tried.1 in elim (tried.0) [ invalid ↦ suc later | _ ↦ later ]

-- the account is locked for all of these times
abbrev IsLocked : ℕ → Account → Type 0
IsLocked end a = (t : ℕ) × (a.locked_until ≡ some t) × (end ≤ t)

refusals-locked :
    (end : ℕ) (times : List ℕ) (a : Account)
    → IsLocked end a
    → All (λ now. now < end) times
    → refusals times a ≡ 0
unfolding refusals try_login
refusals-locked end [] a l h = refl
refusals-locked end (now ∷ times) a (t, e, le) h =
    ground (arith, refusals-locked end times a (t, e, le) h.1)

All-before :
    (begin : ℕ) (times : List ℕ)
    → All (λ now. (begin ≤ now) × (now < begin + lock_time)) times
    → All (λ now. now < begin + lock_time) times
All-before begin [] h = tt
All-before begin (now ∷ times) h = (h.0.1, All-before begin times h.1)

failure-locks :
    (now : ℕ) (a : Account)
    → leb 5 (a.failed_login_count + 1) ≡ true
    → (count_failure now a).locked_until ≡ some (now + lock_time)
unfolding count_failure
failure-locks now a h = rw h refl

failure-counts :
    (now : ℕ) (a : Account)
    → leb 5 (a.failed_login_count + 1) ≡ false
    → (count_failure now a).failed_login_count ≡ a.failed_login_count + 1
unfolding count_failure
failure-counts now a h = rw h refl

-- Of attempts to log in that all have a wrong password, with no right one between them (a right one
-- sets the count of failures back), and that all fall within fifteen minutes, an account whose count
-- is at most four has at most five checked, less those counted before; every further one is turned
-- away unchecked.
pub refusals-bound :
    (begin : ℕ) (times : List ℕ) (a : Account)
    → a.failed_login_count ≤ 4
    → All (λ now. (begin ≤ now) × (now < begin + lock_time)) times
    → refusals times a + a.failed_login_count ≤ 5
unfolding refusals try_login
refusals-bound begin [] a c h = omega arith
refusals-bound begin (now ∷ times) a c h = elim (Bool-cases (leb 5 (a.failed_login_count + 1))) [
  | inl full ↦
      let spent =
        refusals-locked (begin + lock_time) times (count_failure now a)
          (now + lock_time, failure-locks now a full, omega arith) (All-before begin times h.1) in
      ground (arith, refusals-bound begin times a c h.1)
  | inr open' ↦
      let counted = failure-counts now a open' in
      ground (
        arith,
        refusals-bound begin times a c h.1,
        refusals-bound begin times (count_failure now a) (ground arith) h.1,
      )
]
