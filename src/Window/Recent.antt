-- ===== src/Window/Recent.antt =====
-- The entries that a window of src/market/order_book.cpp holds, newest first.
use adaptive_fpga.Prelude.{
  ℕ, zero, suc, sym, ◌∙◌, ◌++◌, min, ◌+◌, ◌-◌, ◌%◌, ◌≤◌, ◌<◌, ◌≡◌, ◌≢◌, refl, ap, ap₂, List, [],
  ◌∷◌, arith, length, get_or, set, take, get_or-set_self, get_or-set_ne, length-set, if◌then◌else◌,
  ◌==◌,
}
use native.Mathlib.Nat.{add-zero}
use adaptive_fpga.Prelude.Int.{ℤ}
use adaptive_fpga.Window.{Entry, window_size, zero_entry, FeatureWindow, push}

-- The entries `j`, `j + 1`, ... steps before the slot `next`, `k` of them.
abbrev pub steps_back : List Entry → ℕ → ℕ → ℕ → List Entry
steps_back entries next j zero = []
steps_back entries next j (suc k) =
    get_or entries ((next + 64 - j) % 64) zero_entry ∷ steps_back entries next (suc j) k

abbrev pub recent : FeatureWindow → List Entry
recent w = steps_back w.entries w.next 1 w.size

pub record IsWindow (w : FeatureWindow) : Type 0 where
  pub full_array : length w.entries ≡ window_size
  pub next_in : w.next < window_size
  pub size_in : w.size ≤ window_size

-- After a write at `next` the entry one step further back is what it was.
steps_back-set :
    (entries : List Entry) (next j k : ℕ) (e : Entry)
    → next < 64
    → 0 < j
    → j + k ≤ 64
    → steps_back (set entries next e) ((next + 1) % 64) (suc j) k ≡ steps_back entries next j k
steps_back-set entries next j zero e n p h = refl
steps_back-set entries next j (suc k) e n p h =
    ap₂ ◌∷◌ head (steps_back-set entries next (suc j) k e n (omega arith) (omega arith))
  where
    head :
        get_or (set entries next e) (((next + 1) % 64 + 64 - suc j) % 64) zero_entry
        ≡ get_or entries ((next + 64 - j) % 64) zero_entry
    head = rw (step) (get_or-set_ne entries e zero_entry apart)
      where
        step : ((next + 1) % 64 + 64 - suc j) % 64 ≡ (next + 64 - j) % 64
        step = omega arith

        apart : next ≢ (next + 64 - j) % 64
        apart = omega arith

pub take-steps_back :
    (entries : List Entry) (next j m k : ℕ)
    → take m (steps_back entries next j k) ≡ steps_back entries next j (min m k)
take-steps_back entries next j zero k =
    ap (λ (n : ℕ). steps_back entries next j n) {x = 0} (omega arith)
take-steps_back entries next j (suc m) zero =
    ap (λ (n : ℕ). steps_back entries next j n) {x = 0} (omega arith)
take-steps_back entries next j (suc m) (suc k) =
    ap (λ t. get_or entries ((next + 64 - j) % 64) zero_entry ∷ t)
      (take-steps_back entries next (suc j) m k)
    ∙ ap (λ (n : ℕ). steps_back entries next j n) {x = suc (min m k)} (omega arith)

pub length-steps_back :
    (entries : List Entry) (next j k : ℕ) → length (steps_back entries next j k) ≡ k
length-steps_back entries next j zero = refl
length-steps_back entries next j (suc k) = ap suc (length-steps_back entries next (suc j) k)

-- The last of them by itself.
pub steps_back-snoc :
    (entries : List Entry) (next j k : ℕ)
    → steps_back entries next j (suc k)
      ≡ steps_back entries next j k ++ (get_or entries ((next + 64 - (j + k)) % 64) zero_entry ∷ [])
steps_back-snoc entries next j zero = rw add-zero refl
steps_back-snoc entries next j (suc k) =
    ap (λ t. get_or entries ((next + 64 - j) % 64) zero_entry ∷ t)
      (steps_back-snoc entries next (suc j) k
        ∙ ap
            (λ (m : ℕ).
              steps_back entries next (suc j) k
              ++ (get_or entries ((next + 64 - m) % 64) zero_entry ∷ []))
            (omega arith))

abbrev entry : ℤ → ℤ → ℤ → Entry
entry order_flow trade_flow absolute_midpoint_change = record {
  order_flow = order_flow;
  trade_flow = trade_flow;
  absolute_midpoint_change = absolute_midpoint_change;
}

-- The array and the index after a `push`, in one branch as in the other.
pub push_fields :
    (w : FeatureWindow) (a b c : ℤ)
    → ((push w a b c).entries ≡ set w.entries w.next (entry a b c))
      × ((push w a b c).next ≡ (w.next + 1) % 64)
      × ((push w a b c).size ≡ (if w.size == 64 then w.size else w.size + 1))
unfolding push
push_fields w a b c = (ground arith, ground arith, ground arith)

pub push-IsWindow : (w : FeatureWindow) (a b c : ℤ) → IsWindow w → IsWindow (push w a b c)
push-IsWindow w a b c v =
    ground (arith, push_fields w a b c, length-set w.entries w.next (entry a b c))

-- A write at `next`, seen from the slot after it.
steps_back_written :
    (entries : List Entry) (next size : ℕ) (e : Entry)
    → length entries ≡ 64
    → next < 64
    → size ≤ 63
    → steps_back (set entries next e) ((next + 1) % 64) 1 (suc size)
      ≡ e ∷ steps_back entries next 1 size
steps_back_written entries next size e l n h =
    ap₂ ◌∷◌ newest (steps_back-set entries next 1 size e n (omega arith) (omega arith))
  where
    newest : get_or (set entries next e) (((next + 1) % 64 + 64 - 1) % 64) zero_entry ≡ e
    newest =
        ap (λ (m : ℕ). get_or (set entries next e) m zero_entry) (omega arith)
        ∙ get_or-set_self entries next e zero_entry (omega arith)

-- A `push` puts the new entry in front of the recent ones and keeps 64 of them.
pub recent-push :
    (w : FeatureWindow) (a b c : ℤ)
    → IsWindow w
    → recent (push w a b c) ≡ take window_size (entry a b c ∷ recent w)
recent-push w a b c v =
    let f = push_fields w a b c in
    rw (f.0, f.1, size_lem)
      (steps_back_written w.entries w.next (min 63 w.size) (entry a b c) v.full_array v.next_in
          (omega arith)
        ∙ ap (λ t. entry a b c ∷ t) (sym (take-steps_back w.entries w.next 1 63 w.size)))
  where
    size_lem : (push w a b c).size ≡ suc (min 63 w.size)
    size_lem = ground (arith, push_fields w a b c, v.size_in)
