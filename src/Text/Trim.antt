-- ===== src/Text/Trim.antt =====
-- What trimming cuts off, and what it leaves.
use Prim.Native.Char.{Char}
use Prim.Native.String.{String}
use conversation_blackboard.Common.{
  ◌≡◌, refl, ap, ◌∙◌, ◌↔◌, inl, inr, Bool, true, false, not, ◌&&◌, Bool-cases, and-true, true-false,
}
use conversation_blackboard.Text.{is_whitespace, is_empty, any_char, trim_start, trim_end}

abbrev pub joined : String → String → String
joined String.[] t = t
joined (String.◌∷◌ c s) t = String.◌∷◌ c (joined s t)

-- The test holds of every character.
abbrev pub Every : (Char → Bool) → String → Type 0
Every test String.[] = Unit
Every test (String.◌∷◌ c s) = (test c ≡ true) × Every test s

-- A text that is not empty and begins with no whitespace.
abbrev pub Begins : String → Type 0
Begins String.[] = true ≡ false
Begins (String.◌∷◌ c s) = is_whitespace c ≡ false

-- A text that is empty or ends with no whitespace.
abbrev pub Ends : String → Type 0
Ends String.[] = Unit
Ends (String.◌∷◌ c String.[]) = is_whitespace c ≡ false
Ends (String.◌∷◌ c (String.◌∷◌ d s)) = Ends (String.◌∷◌ d s)

empty_eq : (s : String) → is_empty s ≡ true → s ≡ String.[]
empty_eq String.[] h = refl
empty_eq (String.◌∷◌ c s) h = cc

pub any_char-Every :
    (test : Char → Bool) (s : String) → (any_char test s ≡ false) ↔ Every (λ c. not (test c)) s
unfolding any_char
any_char-Every test String.[] = (λ h. tt, λ h. refl)
any_char-Every test (String.◌∷◌ c s) =
    let (down, up) = any_char-Every test s in
    elim (Bool-cases (test c)) [
      | inl t ↦ rw t (λ h. cc, λ h. let e = h.0 in cc)
      | inr f ↦ rw f (λ h. (refl, down h), λ h. up h.1)
    ]

-- What `trim_start` leaves out.
pub record IsCutBefore (s : String) : Type 0 where
  pub front : String
  pub blank : Every is_whitespace front
  pub eq : s ≡ joined front (trim_start s)

pub trim_start-IsCutBefore : (s : String) → IsCutBefore s
unfolding trim_start
trim_start-IsCutBefore String.[] = record { front = String.[]; blank = tt; eq = refl }
trim_start-IsCutBefore (String.◌∷◌ c s) = elim (Bool-cases (is_whitespace c)) [
  | inl t ↦
      let rest = trim_start-IsCutBefore s in
      record {
        front = String.◌∷◌ c rest.front;
        blank = (t, rest.blank);
        eq = rw t (ap (λ l. String.◌∷◌ c l) rest.eq);
      }
  | inr f ↦ record { front = String.[]; blank = tt; eq = rw f refl }
]

-- What `trim_end` leaves out.
pub record IsCutAfter (s : String) : Type 0 where
  pub back : String
  pub blank : Every is_whitespace back
  pub eq : s ≡ joined (trim_end s) back

pub trim_end-IsCutAfter : (s : String) → IsCutAfter s
unfolding trim_end
trim_end-IsCutAfter String.[] = record { back = String.[]; blank = tt; eq = refl }
trim_end-IsCutAfter (String.◌∷◌ c s) =
    let rest = trim_end-IsCutAfter s in
    elim (Bool-cases (is_empty (trim_end s) && is_whitespace c)) [
      | inl t ↦
          let (none_left, space) = and-true _ _ t in
          record {
            back = String.◌∷◌ c rest.back;
            blank = (space, rest.blank);
            eq = rw t (
                ap (λ l. String.◌∷◌ c l)
                  (rest.eq ∙ ap (λ l. joined l rest.back) (empty_eq (trim_end s) none_left)));
          }
      | inr f ↦ record {
        back = rest.back;
        blank = rest.blank;
        eq = rw f (ap (λ l. String.◌∷◌ c l) rest.eq);
      }
    ]

Ends-cons :
    (c : Char) (s : String) → is_empty s && is_whitespace c ≡ false → Ends s → Ends (String.◌∷◌ c s)
Ends-cons c String.[] h e = h
Ends-cons c (String.◌∷◌ d s) h e = e

pub trim_end-Ends : (s : String) → Ends (trim_end s)
unfolding trim_end
trim_end-Ends String.[] = tt
trim_end-Ends (String.◌∷◌ c s) = elim (Bool-cases (is_empty (trim_end s) && is_whitespace c)) [
  | inl t ↦ rw t tt
  | inr f ↦ rw f (Ends-cons c (trim_end s) f (trim_end-Ends s))
]

pub trim_start-Begins : (s : String) → is_empty (trim_start s) ≡ false → Begins (trim_start s)
unfolding trim_start
trim_start-Begins String.[] h = h
trim_start-Begins (String.◌∷◌ c s) h = elim (Bool-cases (is_whitespace c)) [
  | inl t ↦ rw t (trim_start-Begins s (rw t at h))
  | inr f ↦ rw f f
]

pub trim_end-Begins : (s : String) → Begins s → is_empty (trim_end s) ≡ false → Begins (trim_end s)
unfolding trim_end
trim_end-Begins String.[] b h = b
trim_end-Begins (String.◌∷◌ c s) b h =
    elim (Bool-cases (is_empty (trim_end s) && is_whitespace c)) [
      | inl t ↦ let gone = rw t at h in cc
      | inr f ↦ rw f b
    ]

pub trim_end-empty : (s : String) → is_empty (trim_end s) ≡ false → is_empty s ≡ false
unfolding trim_end
trim_end-empty String.[] h = h
trim_end-empty (String.◌∷◌ c s) h = refl

pub trim_start-joined :
    (front s : String) → Every is_whitespace front → trim_start (joined front s) ≡ trim_start s
unfolding trim_start
trim_start-joined String.[] s blank = refl
trim_start-joined (String.◌∷◌ c front) s (space, blank) = rw space (trim_start-joined front s blank)

pub trim_start-kept : (s : String) → Begins s → trim_start s ≡ s
unfolding trim_start
trim_start-kept String.[] b = absurd (true-false b)
trim_start-kept (String.◌∷◌ c s) b = rw b refl

pub Begins-joined : (s back : String) → Begins s → Begins (joined s back)
Begins-joined String.[] back b = absurd (true-false b)
Begins-joined (String.◌∷◌ c s) back b = b

trim_end-blank : (back : String) → Every is_whitespace back → trim_end back ≡ String.[]
unfolding trim_end
trim_end-blank String.[] blank = refl
trim_end-blank (String.◌∷◌ c back) (space, blank) = rw (trim_end-blank back blank, space) refl

pub trim_end-joined :
    (s back : String) → Ends s → Every is_whitespace back → trim_end (joined s back) ≡ s
unfolding trim_end
trim_end-joined String.[] back ends blank = trim_end-blank back blank
trim_end-joined (String.◌∷◌ c String.[]) back ends blank = rw (trim_end-blank back blank, ends) refl
trim_end-joined (String.◌∷◌ c (String.◌∷◌ d s)) back ends blank =
    let rest = trim_end-joined (String.◌∷◌ d s) back ends blank in rw rest refl
