-- ===== src/Identity/Lifecycle.antt =====
-- Participants come and go: a provisioned participant can be read, and one set inactive has no role, no
-- login and no signing secret.
use conversation_blackboard.Common.{
  ℕ, String, ◌≡◌, refl, sym, ap, subst, ◌∙◌, inl, inr, Bool, true, false, Option, none, some, List,
  [], ◌∷◌, ◌++◌, map, Bool-cases, Option-cases, true-false, arith, if◌then◌else◌,
}
use conversation_blackboard.Common.Eq.{==_refl, string_eq, option_eq}
use conversation_blackboard.Sql.{ok, find, update_where}
use conversation_blackboard.Sql.Laws.{find-append_last}
use conversation_blackboard.Sql.Members.{find-map-none}
use conversation_blackboard.Board.{Identity, Participant, Database}
use conversation_blackboard.Transaction.{in_tx}
use conversation_blackboard.WebAuth.{HmacSha1}
use conversation_blackboard.Execution.Frames.{ok-or-err}
use conversation_blackboard.Identity.{
  is_participant, identity_of, is_acceptable_id, is_active, can_sign, get_web_participant,
  get_web_participant_role, get_web_participant_auth, update_participant,
  set_web_participant_status, provisioned, provision_web_participant_identity,
}
use conversation_blackboard.Identity.Totp.{can_login, authenticate_web_totp}

abbrev deactivated : ℕ → String → Participant → Participant
deactivated now p x =
    if is_participant p x then record x { status = "inactive"; updated_at = now } else x

deactivated-inactive :
    (now : ℕ) (p : String) (x : Participant) → is_active p (deactivated now p x) ≡ false
deactivated-inactive now p x = elim (Bool-cases (is_participant p x)) [
  | inl own ↦ rw own (ground arith)
  | inr other ↦ rw other (ground arith)
]

-- A query that asks for an active row of the participant finds none of the deactivated rows.
find-deactivated :
    (now : ℕ) (p : String) (q : Participant → Bool) (xs : List Participant)
    → ((x : Participant) → q x ≡ true → is_active p x ≡ true)
    → find q (map (deactivated now p) xs) ≡ none
find-deactivated now p q xs active = find-map-none q (deactivated now p) xs (λ x.
    elim (Bool-cases (q (deactivated now p x))) [
      | inr no_match ↦ no_match
      | inl matched ↦ absurd (true-false (sym (active _ matched) ∙ deactivated-inactive now p x))
    ])

-- What a participant may do no longer.
pub record IsInactive (hmac : HmacSha1) (p : String) (db : Database) : Type 0 where
  pub no_role : get_web_participant_role db p ≡ none
  pub no_secret : get_web_participant_auth db p ≡ none
  pub no_login :
      (clock : ℕ) (value : String) (now : ℕ)
      → authenticate_web_totp hmac clock p value now db ≡ (db, ok none)

module _ (now : ℕ) (p : String) (db : Database) where
  abbrev inactive_board : Database
  inactive_board = record db { web_participants = map (deactivated now p) db.web_participants }

  inactive_board-IsInactive : (hmac : HmacSha1) → IsInactive hmac p inactive_board
  unfolding get_web_participant_role get_web_participant_auth authenticate_web_totp in_tx
  inactive_board-IsInactive hmac =
      let no_active = find-deactivated now p (is_active p) db.web_participants (λ x h. h) in
      let no_signer =
        find-deactivated now p (can_sign p) db.web_participants (λ x h. ground arith) in
      let no_user =
        find-deactivated now p (can_login p) db.web_participants (λ x h. ground arith) in
      elim (Bool-cases (is_acceptable_id p)) [
        | inr malformed ↦ record {
          no_role = rw malformed refl;
          no_secret = rw malformed refl;
          no_login = λ clock value at_time. rw malformed refl;
        }
        | inl acceptable ↦ record {
          no_role = rw (acceptable, no_active) refl;
          no_secret = rw (acceptable, no_signer) refl;
          no_login = λ clock value at_time. rw (acceptable, no_user) (ground arith);
        }
      ]

  -- A participant that was set inactive has no role, no secret to sign with, and no login that is
  -- accepted or changes anything, whatever code is given.
  pub set_web_participant_status-IsInactive :
      (hmac : HmacSha1) {db' : Database} {b : Bool}
      → set_web_participant_status now p "inactive" db ≡ (db', ok b)
      → IsInactive hmac p db'
  unfolding set_web_participant_status update_participant update_where
  set_web_participant_status-IsInactive hmac {db' = db'} h =
      let same : inactive_board ≡ db' = ground arith in
      subst (IsInactive hmac p) same (inactive_board-IsInactive hmac)

-- A provisioned participant: it was unknown, its row is the one that was added, a user's and active
-- with no credential, and it reads back.
pub record IsProvisioned (db db' : Database) (i : Identity) : Type 0 where
  pub row : Participant
  pub unknown : get_web_participant db row.participant_id ≡ none
  pub added : db'.web_participants ≡ db.web_participants ++ row ∷ []
  pub identified : identity_of row ≡ i
  pub as_user : (row.role ≡ "user") × (row.status ≡ "active")
  pub no_credential : (row.auth_secret ≡ none) × (row.totp_secret ≡ none)
  pub readable : get_web_participant db' row.participant_id ≡ some i

module _ (now : ℕ) (participant_id source : String) (label : Option String) (db : Database) where
  provisioned-unknown :
      (r : Participant)
      → provisioned now participant_id source label db ≡ ok (some r)
      → (get_web_participant db r.participant_id ≡ none)
        × ((r.role ≡ "user") × (r.status ≡ "active"))
        × ((r.auth_secret ≡ none) × (r.totp_secret ≡ none))
  unfolding provisioned
  provisioned-unknown r h = ground arith

  get_web_participant-new :
      (r : Participant)
      → get_web_participant db r.participant_id ≡ none
      → get_web_participant
          (record db { web_participants = db.web_participants ++ r ∷ [] })
          r.participant_id
        ≡ some (identity_of r)
  unfolding get_web_participant
  get_web_participant-new r unknown =
      elim (Option-cases (find (is_participant r.participant_id) db.web_participants)) [
        | inr (old, there) ↦ let stuck = rw (there, get_web_participant) at unknown in cc
        | inl nobody ↦
            rw
              (find-append_last (is_participant r.participant_id) db.web_participants r nobody
                (==_refl r.participant_id))
              refl
      ]

  -- A provisioning that returns an identity found no such participant, added just its row, with the
  -- role of a user, active and without credentials, and the identity reads back.
  pub provision_web_participant_identity-IsProvisioned :
      {db' : Database} {i : Identity}
      → provision_web_participant_identity now participant_id source label db ≡ (db', ok (some i))
      → IsProvisioned db db' i
  unfolding provision_web_participant_identity
  provision_web_participant_identity-IsProvisioned {db' = db'} {i = i} h =
      elim (ok-or-err (provisioned now participant_id source label db)) [
        | inr (e, failed) ↦
            let stuck = rw (failed, provision_web_participant_identity) at h in
            absurd (ground arith)
        | inl (found, done) ↦ elim (Option-cases found) [
          | inl nothing ↦
              let stuck = rw (done, nothing, provision_web_participant_identity) at h in
              absurd (ground arith)
          | inr (r, new) ↦
              let made = rw (done, new, provision_web_participant_identity) at h in
              let after : record db { web_participants = db.web_participants ++ r ∷ [] } ≡ db' =
                ap (λ x. x.0) made in
              let is : identity_of r ≡ i = ground arith in
              let (unknown, as_user, no_credential) = provisioned-unknown r (done ∙ ap ok new) in
              record {
                row = r;
                unknown = unknown;
                added = ap (λ x. x.web_participants) (sym after);
                identified = is;
                as_user = as_user;
                no_credential = no_credential;
                readable =
                    ap (λ x. get_web_participant x r.participant_id) (sym after)
                    ∙ get_web_participant-new r unknown
                    ∙ ap some is;
              }
        ]
      ]
