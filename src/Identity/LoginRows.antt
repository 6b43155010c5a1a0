-- ===== src/Identity/LoginRows.antt =====
-- A login's UPDATE: the row of its participant afterwards, and all other rows.
use conversation_blackboard.Common.{
  String, ◌≡◌, ◌≢◌, refl, sym, ◌∙◌, inl, inr, true, not, List, some, Bool-cases, arith,
  if◌then◌else◌,
}
use conversation_blackboard.Common.Eq.{◌==◌, ==_iff, string_eq}
use conversation_blackboard.Sql.{select, find, update_where}
use conversation_blackboard.Sql.Laws.{find_sound, find-map}
use conversation_blackboard.Sql.Members.{find-map_unchanged, select-update_where}
use conversation_blackboard.Board.{Participant, Database}
use conversation_blackboard.Identity.{is_participant}
use conversation_blackboard.Identity.Totp.{can_login, update_login}

-- The row `x`, with what the guard and the clock write taken from `y`.
abbrev pub with_login_columns : Participant → Participant → Participant
with_login_columns y x = record x {
  totp_last_step = y.totp_last_step;
  totp_fail_count = y.totp_fail_count;
  totp_locked_until = y.totp_locked_until;
  updated_at = y.updated_at;
}

-- A change that a login makes to a row keeps what logins select by.
pub record IsLoginUpdate (f : Participant → Participant) : Type 0 where
  pub id : (x : Participant) → (f x).participant_id ≡ x.participant_id
  pub status : (x : Participant) → (f x).status ≡ x.status
  pub secret : (x : Participant) → (f x).totp_secret ≡ x.totp_secret
  pub columns : (x : Participant) → f x ≡ with_login_columns (f x) x

module _ (p : String) (f : Participant → Participant) (keeps : IsLoginUpdate f) where
  abbrev on_row : Participant → Participant
  on_row x = if is_participant p x then f x else x

  on_row-can_login : (q : String) (x : Participant) → can_login q (on_row x) ≡ can_login q x
  on_row-can_login q x = elim (Bool-cases (is_participant p x)) [
    | inr other ↦ rw other refl
    | inl own ↦ rw own (
        let id = keeps.id x in
        let status = keeps.status x in let secret = keeps.secret x in rw (id, status, secret) refl)
  ]

  pub update_login-own :
      (db : Database) {r : Participant}
      → find (can_login p) db.web_participants ≡ some r
      → find (can_login p) (update_login p f db).web_participants ≡ some (f r)
  unfolding update_where
  update_login-own db {r = r} found =
      let (m, q) = find_sound (can_login p) db.web_participants found in
      let own : is_participant p r ≡ true = ground arith in
      find-map (can_login p) on_row db.web_participants (on_row-can_login p) found ∙ rw own refl

  pub update_login-other :
      (db : Database) (q : String)
      → q ≢ p
      → find (can_login q) (update_login p f db).web_participants
        ≡ find (can_login q) db.web_participants
  unfolding update_where
  update_login-other db q differs =
      find-map_unchanged (can_login q) on_row db.web_participants (on_row-can_login q) (λ x h.
        elim (Bool-cases (is_participant p x)) [
          | inr other ↦ rw other refl
          | inl own ↦
              let is_p = (==_iff x.participant_id p).0 own in
              let is_q = (==_iff x.participant_id q).0 (ground arith) in
              absurd (differs (sym is_q ∙ is_p))
        ])

  pub update_login-other_rows :
      (rows : List Participant)
      → select (λ x. not (x.participant_id == p)) (update_where (is_participant p) f rows)
        ≡ select (λ x. not (x.participant_id == p)) rows
  update_login-other_rows rows =
      select-update_where (λ x. not (x.participant_id == p)) (is_participant p) f rows
        (λ x own. (rw own refl, rw (keeps.id x, own) refl))
