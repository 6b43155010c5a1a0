-- ===== src/Identity/Lockout.antt =====
-- Guessing is stopped: as many wrong codes in a row as the limit lock the participant's logins.
use conversation_blackboard.Common.{
  ℕ, ◌+◌, ◌<◌, String, ◌≡◌, refl, sym, ap, subst, ◌∙◌, inl, inr, true, Option, none, some, List, [],
  ◌∷◌, Memᴰ, length, Bool-cases, ltb, arith,
}
use conversation_blackboard.Common.Eq.{string_eq}
use conversation_blackboard.Sql.{ok, find}
use conversation_blackboard.Board.{Participant, Database}
use conversation_blackboard.Transaction.{in_tx}
use conversation_blackboard.Authorization.Delegated.{is_some_and}
use conversation_blackboard.WebAuth.{HmacSha1, totp_max_failures, is_totp_code, matching_totp_step}
use conversation_blackboard.Identity.{is_acceptable_id}
use conversation_blackboard.Identity.Totp.{
  to_i64, can_login, or_empty, login_with_row, authenticate_web_totp,
}
use conversation_blackboard.Identity.Guard.{Guard, is_locked, lock_end, attempt}
use conversation_blackboard.Identity.Login.{
  guard_of, is_locked_test, IsAttempt, authenticate_web_totp-IsAttempt,
}
use conversation_blackboard.Identity.Logins.{Login, login, log_in_all}

-- A wrong code where no lock holds counts, and the last one that the limit allows locks.
attempt-wrong :
    (now : ℕ) (g : Guard)
    → g.locked_until ≡ none
    → g.fail_count + 1 < totp_max_failures
    → (attempt now none g).0
      ≡ record { last_step = g.last_step; fail_count = g.fail_count + 1; locked_until = none }
unfolding attempt
attempt-wrong now g unlocked few = rw unlocked (ground arith)

attempt-last_wrong :
    (now : ℕ) (g : Guard)
    → g.locked_until ≡ none
    → g.fail_count + 1 ≡ totp_max_failures
    → (attempt now none g).0
      ≡ record { last_step = g.last_step; fail_count = 0; locked_until = some (lock_end now) }
unfolding attempt
attempt-last_wrong now g unlocked enough = rw unlocked (ground arith)

module _ (hmac : HmacSha1) (p : String) (secret : Option String) where
  -- A well-formed login of the participant with a code that matches no step.
  pub record IsWrong (l : Login) : Type 0 where
    pub own : l.participant_id ≡ p
    pub acceptable : is_acceptable_id p ≡ true
    pub formed : is_totp_code l.value ≡ true
    pub unmatched : matching_totp_step hmac (or_empty secret) l.value l.now ≡ none

  -- The participant's row, unlocked, with so many failures in a row.
  pub record HasFailed (n : ℕ) (db : Database) : Type 0 where
    pub row : Participant
    pub found : find (can_login p) db.web_participants ≡ some row
    pub same_secret : row.totp_secret ≡ secret
    pub failures : row.totp_fail_count ≡ n
    pub unlocked : row.totp_locked_until ≡ none

  pub record HasLocked (until : ℕ) (db : Database) : Type 0 where
    pub row : Participant
    pub found : find (can_login p) db.web_participants ≡ some row
    pub locked : row.totp_locked_until ≡ some until

  wrong-IsAttempt :
      (l : Login) (db : Database) (n : ℕ) (f : HasFailed n db)
      → IsWrong l
      → IsAttempt p f.row (attempt l.now none (guard_of f.row)) db (login hmac l db)
  wrong-IsAttempt l db n f w =
      subst
        (λ q.
          IsAttempt p f.row (attempt l.now none (guard_of f.row)) db
            (authenticate_web_totp hmac l.clock q l.value l.now db))
        (sym w.own)
        (subst
          (λ m.
            IsAttempt p f.row (attempt l.now m (guard_of f.row)) db
              (authenticate_web_totp hmac l.clock p l.value l.now db))
          (ap (λ s. matching_totp_step hmac (or_empty s) l.value l.now) f.same_secret ∙ w.unmatched)
          (authenticate_web_totp-IsAttempt hmac l.clock p l.value l.now f.row db f.found
            w.acceptable w.formed))

  login-HasFailed :
      (l : Login) (db : Database) (n : ℕ)
      → IsWrong l
      → n + 1 < totp_max_failures
      → HasFailed n db
      → HasFailed (n + 1) (login hmac l db).0
  login-HasFailed l db n w few f =
      let a = wrong-IsAttempt l db n f w in
      let failed = f.failures in
      let e = a.guard ∙ attempt-wrong l.now (guard_of f.row) f.unlocked (omega arith) in
      record {
        row = a.row;
        found = a.found;
        same_secret = a.same_secret ∙ f.same_secret;
        failures = ap (λ g. g.fail_count) e ∙ ap (λ k. k + 1) failed;
        unlocked = ap (λ g. g.locked_until) e;
      }

  login-HasLocked :
      (l : Login) (db : Database) (n : ℕ)
      → IsWrong l
      → n + 1 ≡ totp_max_failures
      → HasFailed n db
      → HasLocked (lock_end l.now) (login hmac l db).0
  login-HasLocked l db n w enough f =
      let a = wrong-IsAttempt l db n f w in
      let failed = f.failures in
      let e = a.guard ∙ attempt-last_wrong l.now (guard_of f.row) f.unlocked (omega arith) in
      record { row = a.row; found = a.found; locked = ap (λ g. g.locked_until) e }

  log_in_all-HasLocked :
      (ls : List Login) (last : Login) (db : Database) (n : ℕ)
      → ((l : Login) → Memᴰ l ls → IsWrong l)
      → IsWrong last
      → n + length ls + 1 ≡ totp_max_failures
      → HasFailed n db
      → HasLocked (lock_end last.now) (login hmac last (log_in_all hmac ls db)).0
  unfolding log_in_all
  log_in_all-HasLocked [] last db n wrong w count f = login-HasLocked last db n w (omega arith) f
  log_in_all-HasLocked (l ∷ ls) last db n wrong w count f =
      log_in_all-HasLocked ls last (login hmac l db).0 (n + 1) (λ x m. wrong x (Memᴰ.tail m)) w
        (omega arith) (login-HasFailed l db n (wrong l (Memᴰ.head refl)) (omega arith) f)

  HasLocked-refuses :
      (l : Login) (db : Database) (until : ℕ)
      → l.participant_id ≡ p
      → to_i64 l.now < until
      → HasLocked until db
      → login hmac l db ≡ (db, ok none)
  unfolding authenticate_web_totp login_with_row in_tx
  HasLocked-refuses l db until own early f =
      let here = ap (λ q. find (can_login q) db.web_participants) own ∙ f.found in
      let locked : is_some_and f.row.totp_locked_until (λ u. ltb (to_i64 l.now) u) ≡ true =
        is_locked_test (to_i64 l.now) f.row.totp_locked_until
        ∙ ap (is_locked (to_i64 l.now)) f.locked
        ∙ ground arith in
      elim (Bool-cases (is_acceptable_id l.participant_id)) [
        | inr malformed ↦ rw malformed refl
        | inl acceptable ↦ elim (Bool-cases (is_totp_code l.value)) [
          | inr malformed ↦ rw (acceptable, malformed) refl
          | inl formed ↦ rw (acceptable, formed, here, login_with_row, locked) refl
        ]
      ]

  -- If an unlocked row of a participant counts no failure, and as many logins with wrong codes follow
  -- as the limit allows, the last of them at a time t, then no login of that participant before the
  -- end of the lock that starts at t is accepted or changes anything, whatever its code.
  pub log_in_all-locked :
      (ls : List Login) (last l : Login) (db : Database)
      → HasFailed 0 db
      → ((w : Login) → Memᴰ w ls → IsWrong w)
      → IsWrong last
      → length ls + 1 ≡ totp_max_failures
      → l.participant_id ≡ p
      → to_i64 l.now < lock_end last.now
      → login hmac l (login hmac last (log_in_all hmac ls db)).0
        ≡ ((login hmac last (log_in_all hmac ls db)).0, ok none)
  log_in_all-locked ls last l db f wrong w count own early =
      HasLocked-refuses l _ (lock_end last.now) own early
        (log_in_all-HasLocked ls last db 0 wrong w (omega arith) f)
