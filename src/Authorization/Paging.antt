-- ===== src/Authorization/Paging.antt =====
-- The loop over windows ends, with every grant read.
use conversation_blackboard.Common.{
  ℕ, zero, suc, ◌≤◌, ◌<◌, ◌≡◌, refl, sym, subst, inl, inr, Bool, true, false, Option, none, some,
  List, [], ◌∷◌, ◌++◌, length, Memᴰ, Bool-cases, arith, leb, ltb,
}
use conversation_blackboard.Common.Int.{ℤ, pos, negsuc}
use conversation_blackboard.Sql.{DbError, Result, ok, select}
use conversation_blackboard.Sql.Laws.{select_sound}
use conversation_blackboard.Sql.Page.{IsOrdered}
use conversation_blackboard.Sql.Members.{Memᴰ-append_left}
use conversation_blackboard.Sql.Pieces.{
  Memᴰ-append, Memᴰ-append_right, append-IsOrdered, narrower-select,
}
use conversation_blackboard.Authorization.Window.{asc, is_in_window}
use conversation_blackboard.Authorization.Windows.{IsWindowOver}
use conversation_blackboard.Authorization.WindowRequests.{IsCursor}
use conversation_blackboard.Authorization.Snapshot.{last_id, collect_windows}

-- The rows of a table after a cursor, in the order of their ids.
pub record IsAllAfter {A : Type 0} (id : A → ℕ) (after : Option ℤ) (rows all : List A)
    : Type 0 where
  pub sound : (m : A) → Memᴰ m all → Memᴰ m rows × (is_in_window asc none after (id m) ≡ true)
  pub ordered : IsOrdered (λ a b. leb (id a) (id b)) all
  pub complete : (m : A) → Memᴰ m rows → is_in_window asc none after (id m) ≡ true → Memᴰ m all

-- The last row of a window that is not empty.
last_id-last :
    {A : Type 0} (id : A → ℕ) (x : A) (xs : List A)
    → IsOrdered (λ a b. leb (id a) (id b)) (x ∷ xs)
    → (m : A) × Memᴰ m (x ∷ xs)
      × (last_id id (x ∷ xs) ≡ some (pos (id m)))
      × ((y : A) → Memᴰ y (x ∷ xs) → id y ≤ id m)
last_id-last id x [] o = (
  x,
  Memᴰ.head refl,
  refl,
  λ y k. elim k [
    | Memᴰ.head e ↦ subst (λ z. id z ≤ id x) (sym e) (omega arith)
    | Memᴰ.tail i ↦ elim i [ ]
  ],
)
last_id-last id x (y ∷ ys) (low, rest) =
    let (m, there, is, most) = last_id-last id y ys rest in
    (
      m,
      Memᴰ.tail there,
      is,
      λ z k. elim k [
        | Memᴰ.head e ↦ let first = low m there in subst (λ w. id w ≤ id m) (sym e) (ground arith)
        | Memᴰ.tail i ↦ most z i
      ],
    )

positive-IsCursor : (n : ℕ) → 1 ≤ n → IsCursor (some (pos n))
positive-IsCursor zero h = absurd (omega arith)
positive-IsCursor (suc n) h = inr (n, refl)

-- What is after a row that is after the cursor is after the cursor.
later_in_window :
    (after : Option ℤ) (a b : ℕ)
    → is_in_window asc none after a ≡ true
    → a ≤ b
    → is_in_window asc none after b ≡ true
later_in_window none a b h k = refl
later_in_window (some (pos c)) a b h k = ground arith
later_in_window (some (negsuc c)) a b h k = refl

nonempty_head : {A : Type 0} (xs : List A) → 0 < length xs → (m : A) × Memᴰ m xs
nonempty_head [] h = absurd (omega arith)
nonempty_head (x ∷ xs) h = (x, Memᴰ.head refl)

module _ {A : Type 0} (id : A → ℕ) (rows : List A) where
  -- A table with positive ids, each of one row.
  pub record IsKeyed : Type 0 where
    pub positive : (m : A) → Memᴰ m rows → 1 ≤ id m
    pub unique : (a b : A) → Memᴰ a rows → Memᴰ b rows → id a ≡ id b → a ≡ b

  -- Each turn from a valid cursor reads the window after it.
  abbrev pub ReadsWindows : (Option ℤ → Result DbError (List A × Bool)) → Type 0
  ReadsWindows read =
      (after : Option ℤ)
      → IsCursor after
      → (page : List A) × (more : Bool) × (read after ≡ ok (page, more))
        × IsWindowOver id asc none after 200 rows page more

  module _ (keyed : IsKeyed) (after : Option ℤ) where
    -- The rows after the cursor are those of a window and those after its last.
    next-IsAllAfter :
        (x : A) (xs rest : List A)
        → IsWindowOver id asc none after 200 rows (x ∷ xs) true
        → IsAllAfter id (last_id id (x ∷ xs)) rows rest
        → IsAllAfter id after rows ((x ∷ xs) ++ rest)
    next-IsAllAfter x xs rest w r =
        let (m, on, is, most) = last_id-last id x xs w.page.ordered in
        let r' : IsAllAfter id (some (pos (id m))) rows rest =
          subst (λ c. IsAllAfter id c rows rest) is r in
        record {
          sound = λ k j. elim (Memᴰ-append (x ∷ xs) rest j) [
            | inl i ↦ w.page.sound k i
            | inr i ↦
                let (there, past) = r'.sound k i in
                (there, later_in_window after (id m) (id k) (w.page.sound m on).1 (ground arith))
          ];
          ordered =
              append-IsOrdered (λ a b. leb (id a) (id b)) (x ∷ xs) rest w.page.ordered r'.ordered
                (λ a b i j. let low = most a i in let past = (r'.sound b j).1 in ground arith);
          complete = λ k there good. elim (w.page.complete k there good) [
            | inl i ↦ Memᴰ-append_left (x ∷ xs) rest i
            | inr (full, first) ↦ elim (Bool-cases (ltb (id m) (id k))) [
              | inl past ↦ Memᴰ-append_right (x ∷ xs) rest (r'.complete k there past)
              | inr same ↦
                  let low = first m on in
                  let equal : id m ≡ id k = ground arith in
                  let one = keyed.unique m k (w.page.sound m on).0 there equal in
                  Memᴰ-append_left (x ∷ xs) rest (subst (λ z. Memᴰ z (x ∷ xs)) one on)
            ]
          ];
        }

    -- Fewer rows are left after a window.
    next-fewer :
        (x : A) (xs : List A)
        → IsWindowOver id asc none after 200 rows (x ∷ xs) true
        → length (select (λ a. is_in_window asc none (last_id id (x ∷ xs)) (id a)) rows)
          < length (select (λ a. is_in_window asc none after (id a)) rows)
    next-fewer x xs w =
        let (m, on, is, most) = last_id-last id x xs w.page.ordered in
        let (there, good) = w.page.sound m on in
        subst
          (λ c.
            length (select (λ a. is_in_window asc none c (id a)) rows)
            < length (select (λ a. is_in_window asc none after (id a)) rows))
          (sym is)
          (narrower-select (λ a. is_in_window asc none after (id a)) (λ a. ltb (id m) (id a)) rows
            (λ k past. later_in_window after (id m) (id k) good (ground arith)) there good
            (ground arith))

    last_id-IsCursor :
        (x : A) (xs : List A)
        → IsWindowOver id asc none after 200 rows (x ∷ xs) true
        → IsCursor (last_id id (x ∷ xs))
    last_id-IsCursor x xs w =
        let (m, on, is, most) = last_id-last id x xs w.page.ordered in
        subst IsCursor (sym is) (positive-IsCursor (id m) (keyed.positive m (w.page.sound m on).0))

    -- A window that leaves rows out is full.
    window-full : ¬ (IsWindowOver id asc none after 200 rows [] true)
    window-full w =
        let (m, some_row) =
          nonempty_head (select (λ a. is_in_window asc none after (id a)) rows)
            (let many = w.more.0 refl in omega arith) in
        let (there, good) = select_sound (λ a. is_in_window asc none after (id a)) rows some_row in
        elim (w.page.complete m there good) [
          | inl on ↦ elim on [ ]
          | inr (full, first) ↦ omega arith
        ]

  module _ (keyed : IsKeyed) (read : Option ℤ → Result DbError (List A × Bool))
      (turns : ReadsWindows read) where
    -- The loop with `fuel` reads just the rows after the cursor, if `fuel` is more than their number.
    abbrev ReadsAllAfter : ℕ → Option ℤ → Type 0
    ReadsAllAfter fuel after =
        IsCursor after
        → length (select (λ a. is_in_window asc none after (id a)) rows) < fuel
        → (all : List A) × (collect_windows id read fuel after ≡ some (ok all))
          × IsAllAfter id after rows all

    turn-ReadsAllAfter :
        (n : ℕ) (after : Option ℤ) (page : List A) (more : Bool)
        → read after ≡ ok (page, more)
        → IsWindowOver id asc none after 200 rows page more
        → ((next : Option ℤ) → ReadsAllAfter n next)
        → ReadsAllAfter (suc n) after
    unfolding collect_windows
    turn-ReadsAllAfter n after page false reads w others c h = (
      page,
      rw (collect_windows, reads),
      record { sound = w.page.sound; ordered = w.page.ordered; complete = w.whole refl },
    )
    turn-ReadsAllAfter n after [] true reads w others c h = absurd (window-full keyed after w)
    turn-ReadsAllAfter n after (x ∷ xs) true reads w others c h =
        let fewer = next-fewer keyed after x xs w in
        let (rest, ran, all) =
          others (last_id id (x ∷ xs)) (last_id-IsCursor keyed after x xs w) (omega arith) in
        (
          (x ∷ xs) ++ rest,
          rw (collect_windows, reads, ran),
          next-IsAllAfter keyed after x xs rest w all,
        )

    pub collect_windows-ReadsAllAfter : (fuel : ℕ) (after : Option ℤ) → ReadsAllAfter fuel after
    collect_windows-ReadsAllAfter zero after c h = absurd (omega arith)
    collect_windows-ReadsAllAfter (suc n) after c h =
        let (page, more, reads, w) = turns after c in
        turn-ReadsAllAfter n after page more reads w (collect_windows-ReadsAllAfter n) c h
