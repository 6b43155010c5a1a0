-- ===== src/Messages/Window.antt =====
-- `list_messages_after` pages through the log: what it returns, in which order, and that a caller who
-- goes on from the last id misses no message.
use conversation_blackboard.Common.{
  ℕ, ◌≤◌, String, ◌≡◌, ◌⊎◌, inl, inr, Bool, true, ◌&&◌, Option, List, [], ◌∷◌, Memᴰ, arith, leb,
  leb→le, length,
}
use conversation_blackboard.Common.Int.{ℤ, pos, ltb_ℤ}
use conversation_blackboard.Sql.Page.{IsOrdered, Ranking, page_of, page_of-IsPageOf}
use conversation_blackboard.Board.{Message, Database}
use conversation_blackboard.Messages.{in_channel, list_messages_after}

abbrev before : Message → Message → Bool
before a b = leb a.id b.id

-- In front of each message stand messages with ids that are no larger.
abbrev pub Ascending : List Message → Type 0
Ascending [] = Unit
Ascending (x ∷ xs) = ((m : Message) → Memᴰ m xs → x.id ≤ m.id) × Ascending xs

before-Ranking : Ranking before
before-Ranking = record { total = λ a b h. ground arith; transitive = λ a b c h k. ground arith }

IsOrdered-Ascending : (xs : List Message) → IsOrdered before xs → Ascending xs
IsOrdered-Ascending [] o = tt
IsOrdered-Ascending (x ∷ xs) (low, rest) =
    (λ m k. leb→le x.id m.id (low m k), IsOrdered-Ascending xs rest)

-- A message that the caller asks for.
abbrev pub IsAsked : ℤ → Option String → Message → Type 0
IsAsked after_id channel m = in_channel channel m && ltb_ℤ after_id (pos m.id) ≡ true

-- A page of the log: asked-for messages of the log in ascending order, at most `limit` of them; and
-- an asked-for message that is not on it comes after a full page.
pub record IsPage (db : Database) (after_id : ℤ) (channel : Option String) (limit : ℕ)
    (page : List Message) : Type 0 where
  pub sound : (m : Message) → Memᴰ m page → Memᴰ m db.messages × IsAsked after_id channel m
  pub ascending : Ascending page
  pub bounded : length page ≤ limit
  pub complete :
      (m : Message)
      → Memᴰ m db.messages
      → IsAsked after_id channel m
      → Memᴰ m page ⊎ ((length page ≡ limit) × ((x : Message) → Memᴰ x page → x.id ≤ m.id))

-- The page returned holds messages of the log that are in the channel (any, if none is given) and
-- have larger ids than the given one, in ascending order of the ids and at most `limit` of them; and
-- a message with both properties that is not on the page is one that a full page left out, no id on
-- which is larger than its own.
pub list_messages_after-IsPage :
    (db : Database) (after_id : ℤ) (channel : Option String) (limit : ℕ)
    → IsPage db after_id channel limit (list_messages_after db after_id channel limit)
unfolding list_messages_after page_of
list_messages_after-IsPage db after_id channel limit =
    let asked : Message → Bool = λ m. in_channel channel m && ltb_ℤ after_id (pos m.id) in
    let p = page_of-IsPageOf before asked limit db.messages before-Ranking in
    record {
      sound = p.sound;
      ascending = IsOrdered-Ascending _ p.ordered;
      bounded = p.bounded;
      complete = λ m there wanted. elim (p.complete m there wanted) [
        | inl on ↦ inl on
        | inr (full, first) ↦ inr (full, λ x k. leb→le x.id m.id (first x k))
      ];
    }
