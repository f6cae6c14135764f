-- ===== src/Book/Ranges.antt =====
-- The ranges of the machine integers on a side of the book: quantities are uint32_t, prices int32_t.
use adaptive_fpga.Prelude.{ℕ, zero, suc, ◌≤◌, [], ◌∷◌, All, All-append, set, get_or, arith}
use adaptive_fpga.Prelude.Words.{IsI32}
use adaptive_fpga.Book.Array.{PriceLevel, Levels, empty_level, max_u32}
use adaptive_fpga.Book.Shifts.{erase_at, push_down, insert_at}

abbrev pub LevelFits : PriceLevel → Type 0
LevelFits level = (level.quantity ≤ max_u32) × IsI32 level.price_ticks

abbrev pub Fits : Levels → Type 0
Fits levels = All LevelFits levels

pub Fits-set :
    (levels : Levels) (index : ℕ) (level : PriceLevel)
    → LevelFits level
    → Fits levels
    → Fits (set levels index level)
Fits-set [] index level f h = tt
Fits-set (first ∷ rest) zero level f h = (f, h.1)
Fits-set (first ∷ rest) (suc index) level f h = (h.0, Fits-set rest index level f h.1)

pub Fits-get_or :
    (levels : Levels) (index : ℕ) → Fits levels → LevelFits (get_or levels index empty_level)
Fits-get_or [] index h = omega arith
Fits-get_or (first ∷ rest) zero h = h.0
Fits-get_or (first ∷ rest) (suc index) h = Fits-get_or rest index h.1

Fits-push_down :
    (level : PriceLevel) (levels : Levels)
    → LevelFits level
    → Fits levels
    → Fits (push_down level levels)
unfolding push_down
Fits-push_down level [] f h = tt
Fits-push_down level (first ∷ rest) f h = (f, Fits-push_down first rest h.0 h.1)

pub Fits-insert_at :
    (levels : Levels) (index : ℕ) (level : PriceLevel)
    → LevelFits level
    → Fits levels
    → Fits (insert_at levels index level)
unfolding insert_at push_down
Fits-insert_at [] index level f h = tt
Fits-insert_at (first ∷ rest) zero level f h = (f, Fits-push_down first rest h.0 h.1)
Fits-insert_at (first ∷ rest) (suc index) level f h = (h.0, Fits-insert_at rest index level f h.1)

pub Fits-erase_at : (levels : Levels) (index : ℕ) → Fits levels → Fits (erase_at levels index)
unfolding erase_at
Fits-erase_at [] index h = tt
Fits-erase_at (first ∷ rest) zero h = All-append LevelFits rest (empty_level ∷ []) h.1 (omega arith)
Fits-erase_at (first ∷ rest) (suc index) h = (h.0, Fits-erase_at rest index h.1)
