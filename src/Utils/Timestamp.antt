-- ===== src/Utils/Timestamp.antt =====
-- The inline functions of src/tm_utils.h that put a time in milliseconds into its flush window.
use native.Mathlib.Nat.{mul-div_cancel, div-add-mod'}
use tracemate.Base.{ℕ, ◌+◌, ◌-◌, ◌*◌, ◌/◌, ◌%◌, ◌≤◌, ◌<◌, ◌≡◌, ◌↔◌, sym, ap, ◌∙◌, arith, u64, add64}

unfoldable pub floor_timestamp : ℕ → ℕ → ℕ
floor_timestamp ms flush_freq_ms = ms - ms % flush_freq_ms

unfoldable pub center_timestamp : ℕ → ℕ → ℕ
unfolding floor_timestamp
center_timestamp ms flush_freq_ms = add64 (floor_timestamp ms flush_freq_ms) (flush_freq_ms / 2)

unfoldable pub ceil_timestamp : ℕ → ℕ → ℕ
unfolding floor_timestamp
ceil_timestamp ms flush_freq_ms = add64 (floor_timestamp ms flush_freq_ms) (flush_freq_ms - 1)

floor-eq-mul : (ms f : ℕ) → floor_timestamp ms f ≡ (ms / f) * f
unfolding floor_timestamp
floor-eq-mul ms f = omega (arith, div-add-mod' ms f)

floor_window : (ms f : ℕ) → 0 < f → (floor_timestamp ms f ≤ ms) × (ms < floor_timestamp ms f + f)
unfolding floor_timestamp
floor_window ms f h = omega arith

-- For a window that is not empty and a time at least one window below the wrap-around, the window's
-- start, centre and last millisecond stand in this order, the time is not behind the last
-- millisecond, and the next window starts right behind it.
pub window_marks :
    (ms f : ℕ)
    → 0 < f
    → ms + f < u64
    → (floor_timestamp ms f ≤ center_timestamp ms f)
      × (center_timestamp ms f ≤ ceil_timestamp ms f)
      × (ms ≤ ceil_timestamp ms f)
      × (ceil_timestamp ms f + 1 ≡ floor_timestamp ms f + f)
unfolding center_timestamp ceil_timestamp
window_marks ms f h k = omega arith

-- For windows that are not empty and times at least one window below the wrap-around, two times get
-- the same centre exactly when they lie in the same window.
pub center_iff :
    (a b f : ℕ)
    → 0 < f
    → a + f < u64
    → b + f < u64
    → (center_timestamp a f ≡ center_timestamp b f) ↔ (a / f ≡ b / f)
unfolding center_timestamp
center_iff a b f h ka kb = (same_window, λ e. rw (floor-eq-mul a f, floor-eq-mul b f, e))
  where
    same_floor :
        center_timestamp a f ≡ center_timestamp b f → floor_timestamp a f ≡ floor_timestamp b f
    same_floor e = omega arith

    same_window : center_timestamp a f ≡ center_timestamp b f → a / f ≡ b / f
    same_window e =
        sym (mul-div_cancel (a / f) h)
        ∙ ap (λ (x : ℕ). x / f) (sym (floor-eq-mul a f) ∙ same_floor e ∙ floor-eq-mul b f)
        ∙ mul-div_cancel (b / f) h
