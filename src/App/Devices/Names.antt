-- ===== src/App/Devices/Names.antt =====
-- The search for a name in src/app/opencl_devices.cpp finds exactly the names that contain it.
use adaptive_fpga.Prelude.{
  ◌≡◌, ◌↔◌, refl, ap, ap₂, arith, sym, Bool, true, false, Bool-cases, inl, inr, [], ◌∷◌, ◌++◌, ◌||◌,
}
use mathlib.Core.Path.{subst}
use adaptive_fpga.App.Devices.{Text, starts_with, contains}

-- The text is something, the wanted text, and something more.
abbrev pub Within : Text → Text → Type 0
Within wanted text = (earlier later : Text) × (text ≡ earlier ++ (wanted ++ later))

starts_with_sound :
    (wanted text : Text)
    → starts_with wanted text ≡ true
    → (later : Text) × (text ≡ wanted ++ later)
unfolding starts_with
starts_with_sound [] text h = (text, refl)
starts_with_sound (c ∷ wanted) [] h = absurd (cc)
starts_with_sound (c ∷ wanted) (d ∷ text) h =
    let rest = starts_with_sound wanted text (ground arith) in
    (rest.0, ap₂ ◌∷◌ (ground arith) rest.1)

starts_with_complete : (wanted later : Text) → starts_with wanted (wanted ++ later) ≡ true
unfolding starts_with
starts_with_complete [] later = refl
starts_with_complete (c ∷ wanted) later = ground (arith, starts_with_complete wanted later)

contains_sound : (wanted text : Text) → contains wanted text ≡ true → Within wanted text
unfolding contains
contains_sound wanted [] h = let s = starts_with_sound wanted [] h in ([], s.0, s.1)
contains_sound wanted (c ∷ text) h = elim (Bool-cases (starts_with wanted (c ∷ text))) [
  | inl here ↦ let s = starts_with_sound wanted (c ∷ text) here in ([], s.0, s.1)
  | inr further ↦
      let s = contains_sound wanted text (later (starts_with wanted (c ∷ text)) further h) in
      (c ∷ s.0, s.1, ap (λ t. c ∷ t) s.2)
]
  where
    later :
        (b : Bool) → b ≡ false → (b || contains wanted text) ≡ true → contains wanted text ≡ true
    later true e h' = absurd (cc)
    later false e h' = h'

contains-start : (wanted text : Text) → starts_with wanted text ≡ true → contains wanted text ≡ true
unfolding contains
contains-start wanted [] h = h
contains-start wanted (c ∷ text) h = rw h refl

contains_complete :
    (wanted earlier later : Text) → contains wanted (earlier ++ (wanted ++ later)) ≡ true
unfolding contains
contains_complete wanted [] later =
    contains-start wanted (wanted ++ later) (starts_with_complete wanted later)
contains_complete wanted (c ∷ earlier) later =
    whichever (starts_with wanted (c ∷ (earlier ++ (wanted ++ later))))
      (contains_complete wanted earlier later)
  where
    whichever : (b : Bool) {x : Bool} → x ≡ true → (b || x) ≡ true
    whichever true h = refl
    whichever false h = h

pub contains-Within : (wanted text : Text) → (contains wanted text ≡ true) ↔ Within wanted text
contains-Within wanted text = (
  contains_sound wanted text,
  λ w. subst (λ t. contains wanted t ≡ true) (sym w.2) (contains_complete wanted w.0 w.1),
)
