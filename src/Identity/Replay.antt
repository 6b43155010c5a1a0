-- ===== src/Identity/Replay.antt =====
-- A one-time password is good for one login: the steps that a participant's logins accept grow, over
-- any sequence of logins.
use conversation_blackboard.Common.{
  ℕ, ◌<◌, String, ◌≡◌, sym, ap, subst, ◌∙◌, inl, inr, Option, some, List, [], ◌∷◌, Bool-cases,
  eq_of_some, true-false, arith,
}
use conversation_blackboard.Common.Eq.{◌==◌, ==_iff, string_eq}
use conversation_blackboard.Sql.{ok, find}
use conversation_blackboard.Sql.Laws.{eq_of_ok}
use conversation_blackboard.Board.{Identity, Participant, Database}
use conversation_blackboard.WebAuth.{HmacSha1, matching_totp_step}
use conversation_blackboard.Identity.Totp.{to_i64, can_login, or_empty}
use conversation_blackboard.Identity.Login.{guard_of}
use conversation_blackboard.Identity.Logins.{
  HasUsed, attempt-HasUsed, IsAcceptance, attempt-accepted, answer-accepted, Login, login,
  log_in_all, idle, tried, login-cases,
}

module _ (hmac : HmacSha1) where
  -- The participant's row has used the step, or a later one, under the secret.
  record HasUsedStep (p : String) (secret : Option String) (s : ℕ) (db : Database) : Type 0 where
    row : Participant
    found : find (can_login p) db.web_participants ≡ some row
    same_secret : row.totp_secret ≡ secret
    used : HasUsed s (guard_of row)

  login-HasUsedStep :
      {p : String} {secret : Option String} {s : ℕ} (l : Login) (db : Database)
      → HasUsedStep p secret s db
      → HasUsedStep p secret s (login hmac l db).0
  login-HasUsedStep {p = p} {secret = secret} {s = s} l db u = elim (login-cases hmac l db) [
    | idle same nothing ↦ subst (HasUsedStep p secret s) (sym same) u
    | tried r here a ↦ elim (Bool-cases (p == l.participant_id)) [
      | inr other ↦ record {
        row = u.row;
        found =
            a.others p (λ e. true-false (sym ((==_iff p l.participant_id).1 e) ∙ other)) ∙ u.found;
        same_secret = u.same_secret;
        used = u.used;
      }
      | inl own ↦
          let is : p ≡ l.participant_id = (==_iff p l.participant_id).0 own in
          let same : u.row ≡ r =
            eq_of_some (sym u.found ∙ ap (λ q. find (can_login q) db.web_participants) is ∙ here) in
          record {
            row = a.row;
            found = ap (λ q. find (can_login q) (login hmac l db).0.web_participants) is ∙ a.found;
            same_secret = a.same_secret ∙ ap (λ x. x.totp_secret) (sym same) ∙ u.same_secret;
            used = subst (HasUsed s) (sym a.guard) (
                attempt-HasUsed l.now _ (guard_of r)
                  (subst (λ x. HasUsed s (guard_of x)) same u.used));
          }
    ]
  ]

  log_in_all-HasUsedStep :
      {p : String} {secret : Option String} {s : ℕ} (ls : List Login) (db : Database)
      → HasUsedStep p secret s db
      → HasUsedStep p secret s (log_in_all hmac ls db)
  unfolding log_in_all
  log_in_all-HasUsedStep [] db u = u
  log_in_all-HasUsedStep (l ∷ ls) db u =
      log_in_all-HasUsedStep ls (login hmac l db).0 (login-HasUsedStep l db u)

  -- What an accepted login found and left.
  record IsAccepted (l : Login) (db : Database) : Type 0 where
    row : Participant
    found : find (can_login l.participant_id) db.web_participants ≡ some row
    k : ℕ
    after : Participant
    found_after :
        find (can_login l.participant_id) (login hmac l db).0.web_participants ≡ some after
    same_secret : after.totp_secret ≡ row.totp_secret
    acceptance :
        IsAcceptance
          (matching_totp_step hmac (or_empty row.totp_secret) l.value l.now)
          (guard_of row)
          (guard_of after)
          k

  login-IsAccepted :
      (l : Login) (db : Database) {i : Identity}
      → (login hmac l db).1 ≡ ok (some i)
      → IsAccepted l db
  login-IsAccepted l db h = elim (login-cases hmac l db) [
    | idle same nothing ↦ let stuck = sym nothing ∙ h in cc
    | tried r here a ↦
        let (k, verdict) = answer-accepted l.participant_id r _ (eq_of_ok (sym a.answered ∙ h)) in
        record {
          row = r;
          found = here;
          k = k;
          after = a.row;
          found_after = a.found;
          same_secret = a.same_secret;
          acceptance =
              subst
                (λ g.
                  IsAcceptance (matching_totp_step hmac (or_empty r.totp_secret) l.value l.now)
                    (guard_of r) g k)
                (sym a.guard) (attempt-accepted l.now _ (guard_of r) verdict);
        }
  ]

  -- If a participant's login is accepted and, after any further logins by any participants, another
  -- login of that participant is accepted too, then both codes match a step under the secret that the
  -- participant's row has had all along, and the step of the second is later than that of the first.
  pub login-login_later :
      (p : String) (a b : Login) (ls : List Login) (db : Database) {i j : Identity}
      → a.participant_id ≡ p
      → b.participant_id ≡ p
      → (login hmac a db).1 ≡ ok (some i)
      → (login hmac b (log_in_all hmac ls (login hmac a db).0)).1 ≡ ok (some j)
      → (r : Participant) × (s : ℕ) × (t : ℕ) × (find (can_login p) db.web_participants ≡ some r)
        × (matching_totp_step hmac (or_empty r.totp_secret) a.value a.now ≡ some s)
        × (matching_totp_step hmac (or_empty r.totp_secret) b.value b.now ≡ some t)
        × (to_i64 s < to_i64 t)
  login-login_later p a b ls db is_a is_b h k =
      let x = login-IsAccepted a db h in
      let y = login-IsAccepted b (log_in_all hmac ls (login hmac a db).0) k in
      let start : HasUsedStep p x.row.totp_secret x.k (login hmac a db).0 = record {
        row = x.after;
        found =
            ap (λ q. find (can_login q) (login hmac a db).0.web_participants) (sym is_a)
            ∙ x.found_after;
        same_secret = x.same_secret;
        used = (x.k, x.acceptance.kept, omega arith);
      } in
      let u = log_in_all-HasUsedStep ls (login hmac a db).0 start in
      let d = log_in_all hmac ls (login hmac a db).0 in
      let same : u.row ≡ y.row =
        eq_of_some
          (sym u.found ∙ ap (λ q. find (can_login q) d.web_participants) (sym is_b) ∙ y.found) in
      let (last, e, below) = u.used in
      let secret = ap (λ z. z.totp_secret) (sym same) ∙ u.same_secret in
      let later = y.acceptance.later last (ap (λ z. z.totp_last_step) (sym same) ∙ e) in
      let first_step = x.acceptance.is_step in
      let second_step = y.acceptance.is_step in
      (
        x.row,
        x.acceptance.step,
        y.acceptance.step,
        ap (λ q. find (can_login q) db.web_participants) (sym is_a) ∙ x.found,
        x.acceptance.is_matched,
        ap (λ z. matching_totp_step hmac (or_empty z) b.value b.now) (sym secret)
            ∙ y.acceptance.is_matched,
        omega arith,
      )
