-- ===== src/Text/Laws.antt =====
-- Which texts `normalize` accepts, and what it returns for them.
use Prim.Native.String.{String, len}
use conversation_blackboard.Common.{
  ℕ, ◌≤◌, ◌≡◌, refl, ap, ◌∙◌, ◌↔◌, inl, inr, true, false, not, some, Bool-cases, arith, ltb,
  and-true, and_intro, eq_of_some, not-true, subst,
}
use conversation_blackboard.Text.{
  is_whitespace, is_control, is_empty, trim_start, trim_end, trim, is_acceptable, normalize,
}
use conversation_blackboard.Text.Trim.{
  joined, Every, Begins, Ends, any_char-Every, trim_start-IsCutBefore, trim_end-IsCutAfter,
  trim_end-Ends, trim_start-Begins, trim_end-Begins, trim_end-empty, trim_start-joined,
  trim_start-kept, Begins-joined, trim_end-joined,
}

-- The value between its outer whitespace: it is not empty, begins and ends with no whitespace, has at
-- most `max_bytes` bytes and no control character.
pub record IsNormalized (max_bytes : ℕ) (value accepted : String) : Type 0 where
  pub front : String
  pub back : String
  pub value_eq : value ≡ joined front (joined accepted back)
  pub front_blank : Every is_whitespace front
  pub back_blank : Every is_whitespace back
  pub begins : Begins accepted
  pub ends : Ends accepted
  pub bounded : len accepted ≤ max_bytes
  pub printable : Every (λ c. not (is_control c)) accepted

trim-IsNormalized :
    (max_bytes : ℕ) (value : String)
    → is_acceptable max_bytes (trim value) ≡ true
    → IsNormalized max_bytes value (trim value)
unfolding trim is_acceptable
trim-IsNormalized max_bytes value h =
    let (sized, clean) = and-true _ _ h in
    let (filled, bounded) = and-true _ _ sized in
    let filled' = not-true _ filled in
    let before = trim_start-IsCutBefore value in
    let after = trim_end-IsCutAfter (trim_start value) in
    record {
      front = before.front;
      back = after.back;
      value_eq = before.eq ∙ ap (joined before.front) after.eq;
      front_blank = before.blank;
      back_blank = after.blank;
      begins =
          trim_end-Begins (trim_start value)
            (trim_start-Begins value (trim_end-empty (trim_start value) filled')) filled';
      ends = trim_end-Ends (trim_start value);
      bounded = ground arith;
      printable = (any_char-Every is_control (trim value)).0 (not-true _ clean);
    }

trim-of_normalized :
    (max_bytes : ℕ) (value accepted : String)
    → IsNormalized max_bytes value accepted
    → trim value ≡ accepted
unfolding trim
trim-of_normalized max_bytes value accepted n =
    let middle = joined accepted n.back in
    ap (λ v. trim_end (trim_start v)) n.value_eq
    ∙ ap trim_end (trim_start-joined n.front middle n.front_blank)
    ∙ ap trim_end (trim_start-kept middle (Begins-joined accepted n.back n.begins))
    ∙ trim_end-joined accepted n.back n.ends n.back_blank

Begins-filled : (s : String) → Begins s → is_empty s ≡ false
Begins-filled String.[] b = b
Begins-filled (String.◌∷◌ c s) b = refl

is_acceptable-of_normalized :
    (max_bytes : ℕ) (value accepted : String)
    → IsNormalized max_bytes value accepted
    → is_acceptable max_bytes accepted ≡ true
unfolding is_acceptable
is_acceptable-of_normalized max_bytes value accepted n =
    let few = n.bounded in
    let fits : not (ltb max_bytes (len accepted)) ≡ true = ground arith in
    and_intro (and_intro (ap not (Begins-filled accepted n.begins)) fits)
      (ap not ((any_char-Every is_control accepted).1 n.printable))

-- `normalize` returns a text for a value if and only if the text is the value without its outer
-- whitespace, is not empty, begins and ends with no whitespace, has at most the given number of bytes
-- and holds no control character.
pub normalize-IsNormalized :
    (max_bytes : ℕ) (value accepted : String)
    → (normalize max_bytes value ≡ some accepted) ↔ IsNormalized max_bytes value accepted
unfolding normalize
normalize-IsNormalized max_bytes value accepted = (
  λ h. elim (Bool-cases (is_acceptable max_bytes (trim value))) [
    | inr f ↦ let gone = rw f at h in cc
    | inl t ↦
        let same : trim value ≡ accepted = eq_of_some (rw t at h) in
        subst (IsNormalized max_bytes value) same (trim-IsNormalized max_bytes value t)
  ],
  λ n.
      rw
        (
          trim-of_normalized max_bytes value accepted n,
          is_acceptable-of_normalized max_bytes value accepted n,
        )
        refl,
)
