-- ===== src/Book/Shifts.antt =====
-- The in-place loops `remove` and `insert` of src/market/order_book.cpp, as operations on a list: a
-- level taken out with an unused one added at the end, and a level put in with the last one lost.
use adaptive_fpga.Prelude.{
  ℕ, zero, suc, ◌-◌, ◌<◌, ◌≤◌, ◌≡◌, refl, ap, sym, ◌∙◌, [], ◌∷◌, ◌++◌, arith, length, get_or, set,
  length-append,
}
use native.Mathlib.Decide.{dec_lt}
use adaptive_fpga.Book.Array.{
  PriceLevel, Levels, empty_level, shift_left, remove, shift_right, insert,
}

unfoldable pub erase_at : Levels → ℕ → Levels
erase_at [] index = []
erase_at (level ∷ rest) zero = rest ++ (empty_level ∷ [])
erase_at (level ∷ rest) (suc index) = level ∷ erase_at rest index

-- `level` in front, and the last level lost.
unfoldable pub push_down : PriceLevel → Levels → Levels
push_down level [] = []
push_down level (first ∷ rest) = level ∷ push_down first rest

unfoldable pub insert_at : Levels → ℕ → PriceLevel → Levels
unfolding push_down
insert_at [] index level = []
insert_at (first ∷ rest) zero level = push_down level (first ∷ rest)
insert_at (first ∷ rest) (suc index) level = first ∷ insert_at rest index level

shift_left-suc :
    (k : ℕ) (level : PriceLevel) (rest : Levels) (index : ℕ)
    → shift_left k (level ∷ rest) (suc index) ≡ level ∷ shift_left k rest index
unfolding shift_left
shift_left-suc zero level rest index = refl
shift_left-suc (suc k) level rest index = shift_left-suc k level _ (suc index)

shift_left_all :
    (level : PriceLevel) (rest : Levels)
    → set (shift_left (length rest) (level ∷ rest) 0) (length rest) empty_level
      ≡ rest ++ (empty_level ∷ [])
unfolding shift_left
shift_left_all level [] = refl
shift_left_all level (next ∷ rest) =
    rw (shift_left-suc (length rest) next (next ∷ rest) 0)
      (ap (λ t. next ∷ t) (shift_left_all next rest))

-- `remove` with its two counts given.
abbrev remove_loop : ℕ → ℕ → Levels → ℕ → Levels
remove_loop k last levels index = set (shift_left k levels index) last empty_level

remove-loop :
    (levels : Levels) (index k last : ℕ)
    → length levels - 1 - index ≡ k
    → length levels - 1 ≡ last
    → remove levels index ≡ remove_loop k last levels index
unfolding remove
remove-loop levels index k last p q = rw (p, q)

-- Inside the array `remove` takes one level out and adds an unused one at the end.
pub remove-erase_at :
    (levels : Levels) (index : ℕ)
    → index < length levels
    → remove levels index ≡ erase_at levels index
unfolding erase_at
remove-erase_at [] index h = absurd (omega arith)
remove-erase_at (level ∷ rest) zero h =
    remove-loop (level ∷ rest) 0 (length rest) (length rest) (omega arith) (omega arith)
    ∙ shift_left_all level rest
remove-erase_at (level ∷ rest) (suc index) h =
    remove-loop (level ∷ rest) (suc index) (length rest - 1 - index) (suc (length rest - 1))
      (omega arith) (omega arith)
    ∙ ap (λ t. set t (suc (length rest - 1)) empty_level)
        (shift_left-suc (length rest - 1 - index) level rest index)
    ∙ ap (λ t. level ∷ t)
        (sym (remove-loop rest index _ _ refl refl) ∙ remove-erase_at rest index (omega arith))

-- The loop of `insert` above the first slot leaves that slot alone.
shift_right-suc :
    (k : ℕ) (level : PriceLevel) (rest : Levels) (cursor : ℕ)
    → k ≤ cursor
    → shift_right k (level ∷ rest) (suc cursor) ≡ level ∷ shift_right k rest cursor
unfolding shift_right
shift_right-suc zero level rest cursor h = refl
shift_right-suc (suc k) level rest zero h = absurd (omega arith)
shift_right-suc (suc k) level rest (suc cursor) h =
    shift_right-suc k level (set rest (suc cursor) (get_or rest cursor empty_level)) cursor
      (omega arith)

-- Its last round, taken by itself.
shift_right_last :
    (k : ℕ) (levels : Levels) (cursor : ℕ)
    → cursor ≡ suc k
    → shift_right (suc k) levels cursor
      ≡ set (shift_right k levels cursor) 1 (get_or (shift_right k levels cursor) 0 empty_level)
unfolding shift_right
shift_right_last zero levels zero e = absurd (omega arith)
shift_right_last zero levels (suc zero) e = refl
shift_right_last zero levels (suc (suc cursor)) e = absurd (omega arith)
shift_right_last (suc k) levels zero e = absurd (omega arith)
shift_right_last (suc k) levels (suc cursor) e =
    shift_right_last k (set levels (suc cursor) (get_or levels cursor empty_level)) cursor
      (omega arith)

shift_right_all :
    (level : PriceLevel) (rest : Levels)
    → shift_right (length rest) (level ∷ rest) (length rest) ≡ level ∷ push_down level rest
unfolding shift_right push_down
shift_right_all level [] = refl
shift_right_all level (next ∷ rest) =
    shift_right_last (length rest) (level ∷ next ∷ rest) (suc (length rest)) refl
    ∙ rw (
      shift_right-suc (length rest) level (next ∷ rest) (length rest) (omega arith),
      shift_right_all next rest,
    )

-- `insert` with its two counts given.
abbrev insert_loop : ℕ → ℕ → Levels → ℕ → PriceLevel → Levels
insert_loop k last levels index level = set (shift_right k levels last) index level

insert-loop :
    (levels : Levels) (index k last : ℕ) (level : PriceLevel)
    → index < length levels
    → length levels - 1 - index ≡ k
    → length levels - 1 ≡ last
    → insert levels index level ≡ insert_loop k last levels index level
unfolding insert
insert-loop levels index k last level h p q = rw (p, q) (ground arith)

insert-insert_at_below :
    (levels : Levels) (index : ℕ) (level : PriceLevel)
    → index < length levels
    → insert levels index level ≡ insert_at levels index level
unfolding insert_at
insert-insert_at_below [] index level h = absurd (omega arith)
insert-insert_at_below (first ∷ rest) zero level h =
    insert-loop (first ∷ rest) 0 (length rest) (length rest) level (omega arith) (omega arith)
      (omega arith)
    ∙ ap (λ t. set t 0 level) (shift_right_all first rest)
insert-insert_at_below (first ∷ rest) (suc index) level h =
    insert-loop (first ∷ rest) (suc index) (length rest - 1 - index) (suc (length rest - 1)) level
      (omega arith) (omega arith) (omega arith)
    ∙ ap (λ t. set t (suc index) level)
        (shift_right-suc (length rest - 1 - index) first rest (length rest - 1) (omega arith))
    ∙ ap (λ t. first ∷ t)
        (sym (insert-loop rest index _ _ level (omega arith) refl refl)
          ∙ insert-insert_at_below rest index level (omega arith))

insert_at_end :
    (levels : Levels) (level : PriceLevel) → insert_at levels (length levels) level ≡ levels
unfolding insert_at
insert_at_end [] level = refl
insert_at_end (first ∷ rest) level = ap (λ t. first ∷ t) (insert_at_end rest level)

insert_end :
    (levels : Levels) (index : ℕ) (level : PriceLevel)
    → index ≡ length levels
    → insert levels index level ≡ levels
unfolding insert
insert_end levels index level e = ground arith

-- Up to the array's end `insert` puts a level in and loses the last one; at the end it does nothing.
pub insert-insert_at :
    (levels : Levels) (index : ℕ) (level : PriceLevel)
    → index ≤ length levels
    → insert levels index level ≡ insert_at levels index level
insert-insert_at levels index level h = elim (dec_lt index (length levels)) [
  | yes inside ↦ insert-insert_at_below levels index level inside
  | no outside ↦
      insert_end levels index level (omega arith)
      ∙ sym (insert_at_end levels level)
      ∙ ap (λ k. insert_at levels k level) (omega arith)
]

pub length-push_down :
    (level : PriceLevel) (levels : Levels) → length (push_down level levels) ≡ length levels
unfolding push_down
length-push_down level [] = refl
length-push_down level (first ∷ rest) = ap suc (length-push_down first rest)

pub length-insert_at :
    (levels : Levels) (index : ℕ) (level : PriceLevel)
    → length (insert_at levels index level) ≡ length levels
unfolding insert_at
length-insert_at [] index level = refl
length-insert_at (first ∷ rest) zero level = ap suc (length-push_down first rest)
length-insert_at (first ∷ rest) (suc index) level = ap suc (length-insert_at rest index level)

pub length-erase_at : (levels : Levels) (index : ℕ) → length (erase_at levels index) ≡ length levels
unfolding erase_at
length-erase_at [] index = refl
length-erase_at (level ∷ rest) zero = omega (arith, length-append rest (empty_level ∷ []))
length-erase_at (level ∷ rest) (suc index) = ap suc (length-erase_at rest index)
