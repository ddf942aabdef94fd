-- ===== src/Polls/Windows.antt =====
-- check.py: what the loop over the windows finds.
use cactus_runner.Prelude.{
  ℕ, zero, suc, ◌+◌, ◌-◌, ◌*◌, ◌<◌, ◌≤◌, List, [], Option, none, some, ◌≡◌, ◌↔◌, refl, arith,
}
use cactus_runner.Prelude.Int.{pos}
use cactus_runner.Exec.{Result, ok, err}
use cactus_runner.Definitions.{Time}
use cactus_runner.Models.{RequestEntry, CheckResult}
use cactus_runner.Services.{Services}
use cactus_runner.SoftChecker.{add}
use cactus_runner.Polls.Sorting.{requests_in_window-sorted}
use cactus_runner.Polls.{
  sorted_by_time, requests_in_window, plus_delta, window_loop, window_failures,
}

-- The window from `a` to before `b`, with `b` no later than the last request, holds two requests.
abbrev pub IsPolled : List RequestEntry → (last a b : Time) → Type 0
IsPolled requests last a b = b ≤ last → 2 ≤ requests_in_window a b requests

-- Each complete window of this width, counted from the start of the test, is polled.
pub EveryWindow : (width : ℕ) → List RequestEntry → (last start : Time) → Type 0
EveryWindow width requests last start =
    (j a b : ℕ) → a ≡ start + j * width → b ≡ a + width → IsPolled requests last a b

-- The loop ends, without an exception, and adds no failure exactly if the condition holds.
abbrev pub FailsUnless : Type 0 → Option (Result (List CheckResult)) → Type 0
FailsUnless Condition none = ⊥
FailsUnless Condition (some (err e)) = ⊥
FailsUnless Condition (some (ok failures)) = (failures ≡ []) ↔ Condition

module _ (width : ℕ) (requests : List RequestEntry) (last : Time) where
  first_window :
      (start end : Time)
      → end ≡ start + width
      → EveryWindow width requests last start
      → IsPolled requests last start end
  unfolding EveryWindow
  first_window start end e h = h 0 start end (omega arith) e

  other_windows :
      (start end : Time)
      → end ≡ start + width
      → EveryWindow width requests last start
      → EveryWindow width requests last end
  unfolding EveryWindow
  other_windows start end e h j a b ea eb = h (suc j) a b (omega arith) eb

  all_windows :
      (start end : Time)
      → end ≡ start + width
      → IsPolled requests last start end
      → EveryWindow width requests last end
      → EveryWindow width requests last start
  unfolding EveryWindow
  all_windows start end e first others zero a b ea eb =
      let same : a ≡ start = omega arith in
      let next : b ≡ end = omega arith in rw (same, next) first
  all_windows start end e first others (suc j) a b ea eb = others j a b (omega arith) eb

  no_windows : (start : Time) → 0 < width → last ≤ start → EveryWindow width requests last start
  unfolding EveryWindow
  no_windows start h le j a b ea eb late = absurd (omega arith)

  window_failures-none :
      (S : Services) (n : ℕ) (start end : Time)
      → (window_failures S n start end last requests ≡ []) ↔ IsPolled requests last start end
  unfolding window_failures add
  window_failures-none S n start end = ground arith

  module _ (S : Services) (positive : 0 < width) where
    pub window_loop-passed :
        (fuel start n : ℕ)
        → last - start < fuel
        → FailsUnless
            (EveryWindow width requests last start)
            (window_loop S fuel (pos width) requests last start n)
    unfolding window_loop plus_delta
    window_loop-passed zero start n h = absurd (omega arith)
    window_loop-passed (suc fuel) start n h = ground (
      arith,
      no_windows start,
      window_loop-passed fuel (start + width) (suc n),
      window_failures-none S (suc n) start (start + width),
      first_window start (start + width) refl,
      other_windows start (start + width) refl,
      all_windows start (start + width) refl,
    )

pub EveryWindow-sorted :
    (width : ℕ) (requests : List RequestEntry) (last started : Time)
    → EveryWindow width (sorted_by_time requests) last started
      ↔ EveryWindow width requests last started
unfolding EveryWindow
EveryWindow-sorted width requests last started = (
  (λ h j a b ea eb e. rw (← requests_in_window-sorted a b requests) (h j a b ea eb e)),
  (λ h j a b ea eb e. rw (requests_in_window-sorted a b requests) (h j a b ea eb e)),
)
